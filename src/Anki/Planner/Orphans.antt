-- ===== src/Anki/Planner/Orphans.antt =====
-- planner/planner.go: reconcileSourcePaths, computeCandidates, matchesAnyExclusion and
-- confirmAndDelete.
pub mod Census
pub mod Candidates
pub mod Confirmed
pub mod Effect
use imoogi_emacs.Prelude.{
  ℕ, Text, equal, Bool, true, false, not, ◌&&◌, ◌||◌, ◌==◌, if◌then◌else◌, Option, none, some, List,
  [], ◌∷◌, ◌++◌, map, any, keep,
}
use imoogi_emacs.Anki.Protocol.{
  CensusEntry, Result, Error, deleted, ankiconnect_error, delete_suppressed,
  delete_candidate_unowned,
}
use imoogi_emacs.Anki.Registry
use imoogi_emacs.Anki.Registry.{Registry, lookup, put, remove, all}
use imoogi_emacs.Anki.Hashing.{hash}
use imoogi_emacs.Anki.Client.{NoteInfo}
use imoogi_emacs.Anki.Planner.Runner.{Env, Runner, Outcome, ok, err, notes_info, delete_notes}
use imoogi_emacs.Anki.Planner.Entries.{Report}

-- membership in a map[int]bool
abbrev pub has : List ℕ → ℕ → Bool
has ids n = any (λ m. m == n) ids

refresh : Registry → Option Registry.Entry → Text → Registry
unfolding put
refresh reg none path = reg
refresh reg (some e) path = put reg (record e { source_path = path })

refresh_from : List ℕ → List CensusEntry → Registry → Registry
unfolding refresh lookup
refresh_from seen [] reg = reg
refresh_from seen (c ∷ census) reg =
    refresh_from (c.note_id ∷ seen) census
      (if has seen c.note_id then reg else refresh reg (lookup reg c.note_id) c.source_path)

-- reconcileSourcePaths
unfoldable pub reconcile_source_paths : List CensusEntry → Registry → Registry
unfolding refresh_from
reconcile_source_paths = refresh_from []

is_prefix : Text → Text → Bool
is_prefix [] s = true
is_prefix (x ∷ p) [] = false
is_prefix (x ∷ p) (y ∷ s) = x == y && is_prefix p s

-- containsSubstring: the substring is compared at every index
unfoldable pub contains_substring : Text → Text → Bool
unfolding is_prefix
contains_substring [] p = is_prefix p []
contains_substring (x ∷ s) p = is_prefix p (x ∷ s) || contains_substring s p

unfoldable pub matches_any_exclusion : Text → List Text → Bool
unfolding contains_substring
matches_any_exclusion path patterns =
    any (λ p. not (equal p []) && contains_substring path p) patterns

abbrev pub in_census : List CensusEntry → ℕ → Bool
in_census census n = any (λ c. c.note_id == n) census

-- computeCandidates
unfoldable pub compute_candidates : List CensusEntry → Registry → List Text → List ℕ → List ℕ
compute_candidates census reg patterns eligible =
    map (λ e. e.note_id)
      (keep
        (λ e.
          has eligible e.note_id
          && not (in_census census e.note_id)
          && not (matches_any_exclusion e.source_path patterns))
        (all reg))

-- what the confirmation loop makes of one answer
pub data Verdict : Type 0 where
  ignore unowned confirmed : Verdict

owned : (Text → Text) → NoteInfo → Option Registry.Entry → Verdict
owned sha256_hex info none = ignore
owned sha256_hex info (some e) =
    if not (equal info.model_name e.note_type)
      || not (
          equal (hash sha256_hex info.model_name info.fields e.resolved_deck info.tags)
            e.content_hash)
    then unowned
    else confirmed

unfoldable pub judge : (Text → Text) → Registry → NoteInfo → Verdict
unfolding owned
judge sha256_hex reg info =
    if not info.exists then ignore else owned sha256_hex info (lookup reg info.note_id)

abbrev is_confirmed : Verdict → Bool
is_confirmed confirmed = true
is_confirmed _ = false

abbrev is_unowned : Verdict → Bool
is_unowned unowned = true
is_unowned _ = false

-- the identifiers to delete, in the order of the answers
unfoldable pub confirmed_ids : (Text → Text) → Registry → List NoteInfo → List ℕ
confirmed_ids sha256_hex reg infos =
    map (λ i. i.note_id) (keep (λ i. is_confirmed (judge sha256_hex reg i)) infos)

unfoldable pub unowned_errors : (Text → Text) → Registry → List NoteInfo → List Error
unowned_errors sha256_hex reg infos =
    map (λ i. record { code = delete_candidate_unowned; key = none })
      (keep (λ i. is_unowned (judge sha256_hex reg i)) infos)

unfoldable pub remove_all : Registry → List ℕ → Registry
remove_all reg [] = reg
remove_all reg (id ∷ ids) = remove_all (remove reg id) ids

abbrev deletions : List ℕ → List Result
deletions ids = map (λ id. record { key = none; action = deleted; note_id = some id }) ids

after_delete : List ℕ → List Error → Outcome (Unit {0}) → Runner → Report × Runner
after_delete ids errors (err c) r =
    (record { results = []; errors = errors ++ (record { code = c; key = none } ∷ []) }, r)
after_delete ids errors (ok u) r =
    (record { results = deletions ids; errors = errors }, record r { reg = remove_all r.reg ids })

delete_confirmed : Env → List ℕ → List Error → Runner → Report × Runner
unfolding after_delete
delete_confirmed env [] errors r = (record { results = []; errors = errors }, r)
delete_confirmed env (id ∷ ids) errors r =
    let (o, r') = delete_notes env ankiconnect_error (id ∷ ids) r in
    after_delete (id ∷ ids) errors o r'

after_query : Env → Outcome (List NoteInfo) → Runner → Report × Runner
unfolding delete_confirmed
after_query env (err c) r =
    (record { results = []; errors = record { code = c; key = none } ∷ [] }, r)
after_query env (ok infos) r =
    delete_confirmed env (confirmed_ids env.sha256_hex r.reg infos)
      (unowned_errors env.sha256_hex r.reg infos) r

-- confirmAndDelete
unfoldable pub confirm_and_delete : Env → List ℕ → Bool → Runner → Report × Runner
unfolding after_query
confirm_and_delete env candidates false r =
    (record { results = []; errors = record { code = delete_suppressed; key = none } ∷ [] }, r)
confirm_and_delete env [] true r = (record { results = []; errors = [] }, r)
confirm_and_delete env (id ∷ ids) true r =
    let (o, r') = notes_info env delete_suppressed (id ∷ ids) r in after_query env o r'
