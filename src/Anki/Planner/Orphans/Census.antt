-- ===== src/Anki/Planner/Orphans/Census.antt =====
-- planner/planner.go: reconcileSourcePaths and the registry.
use imoogi_emacs.Prelude.{
  ℕ, Text, Bool, true, false, ◌==◌, ==_iff, if◌then◌else◌, Option, none, some, List, [], ◌∷◌, ◌≡◌,
  refl, arith,
}
use imoogi_emacs.Anki.Protocol.{CensusEntry}
use imoogi_emacs.Anki.Registry
use imoogi_emacs.Anki.Registry.{Registry, lookup, put}
use imoogi_emacs.Anki.Registry.Laws.{IsMap, put-IsMap, lookup-put, note_id-lookup}
use imoogi_emacs.Anki.Planner.Orphans.{has, refresh, refresh_from, reconcile_source_paths}

-- the path of the first census entry about an identifier
abbrev pub first_path : List CensusEntry → ℕ → Option Text
first_path [] n = none
first_path (c ∷ census) n = if c.note_id == n then some c.source_path else first_path census n

abbrev pub at_path : Option Text → Option Registry.Entry → Option Registry.Entry
at_path none o = o
at_path (some path) none = none
at_path (some path) (some e) = some (record e { source_path = path })

refresh-IsMap :
    (reg : Registry) (o : Option Registry.Entry) (path : Text)
    → IsMap reg
    → IsMap (refresh reg o path)
unfolding refresh
refresh-IsMap reg none path m = m
refresh-IsMap reg (some e) path m = put-IsMap reg _ m

refresh_if-IsMap :
    (b : Bool) (reg : Registry) (o : Option Registry.Entry) (path : Text)
    → IsMap reg
    → IsMap (if b then reg else refresh reg o path)
refresh_if-IsMap true reg o path m = m
refresh_if-IsMap false reg o path m = refresh-IsMap reg o path m

refresh_from-IsMap :
    (seen : List ℕ) (census : List CensusEntry) (reg : Registry)
    → IsMap reg
    → IsMap (refresh_from seen census reg)
unfolding refresh_from
refresh_from-IsMap seen [] reg m = m
refresh_from-IsMap seen (c ∷ census) reg m =
    refresh_from-IsMap (c.note_id ∷ seen) census _
      (refresh_if-IsMap (has seen c.note_id) reg (lookup reg c.note_id) c.source_path m)

pub reconcile_source_paths-IsMap :
    (census : List CensusEntry) (reg : Registry)
    → IsMap reg
    → IsMap (reconcile_source_paths census reg)
unfolding reconcile_source_paths
reconcile_source_paths-IsMap = refresh_from-IsMap []

lookup-refresh :
    (reg : Registry) (k : ℕ) (path : Text) (n : ℕ) (o : Option Registry.Entry)
    → lookup reg k ≡ o
    → lookup (refresh reg o path) n
      ≡ (if k == n then at_path (some path) (lookup reg n) else lookup reg n)
unfolding refresh
lookup-refresh reg k path n none h = ground (arith, ==_iff k n)
lookup-refresh reg k path n (some e) h =
    ground (
      arith,
      ==_iff k n,
      note_id-lookup reg k h,
      lookup-put reg (record e { source_path = path }) n,
    )

lookup-refresh_if :
    (seen : List ℕ) (reg : Registry) (k : ℕ) (path : Text) (n : ℕ) (b : Bool)
    → has seen k ≡ b
    → lookup (if b then reg else refresh reg (lookup reg k) path) n ≡ (
        if k == n
        then (if has seen n then lookup reg n else at_path (some path) (lookup reg n))
        else lookup reg n)
lookup-refresh_if seen reg k path n true h = ground (arith, ==_iff k n)
lookup-refresh_if seen reg k path n false h =
    ground (arith, ==_iff k n, lookup-refresh reg k path n (lookup reg k) refl)

lookup-refresh_from :
    (seen : List ℕ) (census : List CensusEntry) (reg : Registry) (n : ℕ)
    → lookup (refresh_from seen census reg) n
      ≡ (if has seen n then lookup reg n else at_path (first_path census n) (lookup reg n))
unfolding refresh_from
lookup-refresh_from seen [] reg n = ground arith
lookup-refresh_from seen (c ∷ census) reg n = ground (
  arith,
  lookup-refresh_from (c.note_id ∷ seen) census
      (if has seen c.note_id then reg else refresh reg (lookup reg c.note_id) c.source_path) n,
  lookup-refresh_if seen reg c.note_id c.source_path n (has seen c.note_id) refl,
)

-- After the census pass a record has the path of the first census entry about its note, if there
-- is one, and is otherwise as it was; no record appears or disappears.
pub lookup-reconcile_source_paths :
    (census : List CensusEntry) (reg : Registry) (n : ℕ)
    → lookup (reconcile_source_paths census reg) n ≡ at_path (first_path census n) (lookup reg n)
unfolding reconcile_source_paths
lookup-reconcile_source_paths = lookup-refresh_from []
