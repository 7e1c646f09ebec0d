-- ===== src/Anki/Planner/Orphans/Candidates.antt =====
-- planner/planner.go: the identifiers that computeCandidates gives.
use imoogi_emacs.Prelude.{
  ℕ, Text, Bool, false, not, ◌&&◌, ◌||◌, ◌==◌, Option, none, some, List, [], ◌∷◌, map, any,
  any-keep, ◌≡◌, refl, ap, ◌∙◌, arith,
}
use mathlib.Core.Path.{fun_ext}
use imoogi_emacs.Anki.Protocol.{CensusEntry}
use imoogi_emacs.Anki.Registry
use imoogi_emacs.Anki.Registry.{Registry, lookup, all}
use imoogi_emacs.Anki.Registry.Laws.{IsMap, passes, any-all}
use imoogi_emacs.Anki.Planner.Orphans.{has, in_census, matches_any_exclusion, compute_candidates}

pub has-ids :
    (n : ℕ) (l : List Registry.Entry) → has (map (λ e. e.note_id) l) n ≡ any (λ e. e.note_id == n) l
has-ids n [] = refl
has-ids n (x ∷ l) = ap (λ b. x.note_id == n || b) (has-ids n l)

-- whether the record's path is clear of the exclusions
abbrev pub kept : List Text → Option Registry.Entry → Bool
kept patterns none = false
kept patterns (some x) = not (matches_any_exclusion x.source_path patterns)

test_swap : (f : ℕ → Bool) (m n : ℕ) → (f m && m == n) ≡ (m == n && f n)
test_swap f m n = ground (arith, ap f)

module _ (census : List CensusEntry) (patterns : List Text) (eligible : List ℕ) where
  abbrev test : Text → ℕ → Bool
  test path k =
      has eligible k && not (in_census census k) && not (matches_any_exclusion path patterns)

  passes-kept :
      (n : ℕ) (o : Option Registry.Entry)
      → passes (λ x. test x.source_path n) o
        ≡ (has eligible n && not (in_census census n) && kept patterns o)
  passes-kept n none = ground arith
  passes-kept n (some x) = refl

  -- In a registry with one record for each identifier, an identifier is a candidate exactly when it
  -- was registered before the run, the census does
  -- not report it, and it has a record, whose path no exclusion matches.
  pub compute_candidates-exact :
      (reg : Registry) (n : ℕ)
      → IsMap reg
      → has (compute_candidates census reg patterns eligible) n
        ≡ (has eligible n && not (in_census census n) && kept patterns (lookup reg n))
  unfolding compute_candidates
  compute_candidates-exact reg n m =
      has-ids n _
      ∙ any-keep (λ x. x.note_id == n) (λ x. test x.source_path x.note_id) (all reg)
      ∙ ap (λ p. any p (all reg)) (fun_ext λ x. test_swap (test x.source_path) x.note_id n)
      ∙ any-all (λ x. test x.source_path n) reg n m
      ∙ passes-kept n (lookup reg n)
