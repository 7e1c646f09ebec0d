-- ===== src/Anki/Registry/File/RoundTrip.antt =====
-- internal/anki/registry/registry.go: Load after Save.
use imoogi_emacs.Prelude.{
  ℕ, ◌==◌, ==_iff, if◌then◌else◌, Option, none, some, List, [], ◌∷◌, ◌≡◌, refl, ◌∙◌, arith, ap,
}
use imoogi_emacs.Prelude.Sort.{insert, sort}
use imoogi_emacs.Anki.Registry.{Entry, Registry, lookup, put, all, by_id, load_onto}
use imoogi_emacs.Anki.Registry.Laws.{IsMap, lookup-put}

lookup-insert :
    (e : Entry) (l : List Entry) (n : ℕ)
    → lookup l e.note_id ≡ none
    → lookup (insert by_id e l) n ≡ (if e.note_id == n then some e else lookup l n)
unfolding lookup insert
lookup-insert e [] n h = refl
lookup-insert e (x ∷ l) n h =
    ground (arith, ==_iff x.note_id n, ==_iff e.note_id n, lookup-insert e l n)

insert-IsMap :
    (e : Entry) (l : List Entry) → lookup l e.note_id ≡ none → IsMap l → IsMap (insert by_id e l)
unfolding lookup insert
insert-IsMap e [] h m = (refl, tt)
insert-IsMap e (x ∷ l) h m =
    ground (arith, ==_iff x.note_id e.note_id, insert-IsMap e l, lookup-insert e l x.note_id)

-- Listing the entries keeps what every identifier looks up, and one entry for each.
record Lists (reg l : Registry) : Type 0 where
  looks : (n : ℕ) → lookup l n ≡ lookup reg n
  is_map : IsMap l

all-Lists : (reg : Registry) → IsMap reg → Lists reg (all reg)
unfolding all sort lookup
all-Lists [] m = record { looks = λ n. refl; is_map = tt }
all-Lists (e ∷ reg) m =
    let rest = all-Lists reg m.1 in
    let absent = rest.looks e.note_id ∙ m.0 in
    record {
      looks = λ n.
          lookup-insert e (all reg) n absent
          ∙ ap (λ o. if e.note_id == n then some e else o) (rest.looks n);
      is_map = insert-IsMap e (all reg) absent rest.is_map;
    }

abbrev prefer : Option Entry → Option Entry → Option Entry
prefer none o = o
prefer (some e) o = some e

lookup-load_onto :
    (es : List Entry) (r : Registry) (n : ℕ)
    → IsMap es
    → lookup (load_onto r es) n ≡ prefer (lookup es n) (lookup r n)
unfolding load_onto lookup
lookup-load_onto [] r n m = refl
lookup-load_onto (e ∷ es) r n m =
    lookup-load_onto es (put r e) n m.1
    ∙ ap (prefer (lookup es n)) (lookup-put r e n)
    ∙ ground (arith, ==_iff e.note_id n)

-- Loading the entries that a registry lists, where it has one for each identifier, gives a registry that looks up the same entry for every
-- identifier.
pub lookup-load-all :
    (reg : Registry) (n : ℕ) → IsMap reg → lookup (load_onto [] (all reg)) n ≡ lookup reg n
unfolding lookup
lookup-load-all reg n m =
    let lists = all-Lists reg m in
    lookup-load_onto (all reg) [] n lists.is_map ∙ prefer_none (lookup (all reg) n) ∙ lists.looks n
  where
    prefer_none : (o : Option Entry) → prefer o (lookup [] n) ≡ o
    prefer_none none = refl
    prefer_none (some e) = refl
