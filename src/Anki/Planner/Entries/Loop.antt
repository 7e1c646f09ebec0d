-- ===== src/Anki/Planner/Entries/Loop.antt =====
-- planner/planner.go: the loop of Run, its requests and the registry.
use imoogi_emacs.Prelude.{
  ℕ, ◌≤◌, true, false, ltb, some, Bool-cases, inl, inr, List, [], ◌∷◌, ◌≡◌, arith, ==_refl, All,
  All-imp,
}
use imoogi_emacs.Anki.Protocol.{Entry}
use imoogi_emacs.Anki.Registry.Laws.{IsMap}
use imoogi_emacs.Anki.Client.{Call, delete_notes, update_note_fields, update_note_tags}
use imoogi_emacs.Anki.Planner.Runner.{Env, Runner}
use imoogi_emacs.Anki.Planner.Log.{
  Touches, Adds, Adds-trans, Adds-map, nothing, Steps-Adds, Steps-IsMap,
}
use imoogi_emacs.Anki.Planner.Entries.{is_id, claims, duplicated, process_one, process_entries}
use imoogi_emacs.Anki.Planner.Entries.Walks.{process_entry-Steps}

-- a note may be written when exactly one entry claims its identifier, and none may be deleted
abbrev pub IsClaimedOnce : List Entry → Call → Type 0
IsClaimedOnce entries (update_note_fields n fields) = claims n entries ≡ 1
IsClaimedOnce entries (update_note_tags n tags) = claims n entries ≡ 1
IsClaimedOnce entries (delete_notes ns) = ⊥
IsClaimedOnce entries _ = Unit

abbrev Claimed : List Entry → Entry → Type 0
Claimed entries e = (n : ℕ) → e.note_id ≡ some n → 1 ≤ claims n entries

claims-cons : (e : Entry) (es : List Entry) (n : ℕ) → claims n es ≤ claims n (e ∷ es)
unfolding claims
claims-cons e es n = ground arith

All-Claimed : (es : List Entry) → All (Claimed es) es
unfolding claims
All-Claimed [] = tt
All-Claimed (e ∷ es) = (
  λ n own. let mine : is_id n e.note_id ≡ true = rw own (==_refl n) in ground arith,
  All-imp (Claimed (e ∷ es)) es (λ x h n own. ground (arith, h n own, claims-cons e es n))
      (All-Claimed es),
)

module _ (env : Env) (entries : List Entry) where
  once_for :
      (e : Entry) (n : ℕ)
      → e.note_id ≡ some n
      → Claimed entries e
      → duplicated entries e.note_id ≡ false
      → claims n entries ≡ 1
  once_for e n own c once =
      let alone : ltb 1 (claims n entries) ≡ false = rw own at once in ground (arith, c n own)

  Touches-IsClaimedOnce :
      (e : Entry)
      → Claimed entries e
      → duplicated entries e.note_id ≡ false
      → (call : Call) → Touches e.note_id call
      → IsClaimedOnce entries call
  Touches-IsClaimedOnce e c once (update_note_fields n fields) p = once_for e n p c once
  Touches-IsClaimedOnce e c once (update_note_tags n tags) p = once_for e n p c once
  Touches-IsClaimedOnce e c once (delete_notes ns) p = p
  Touches-IsClaimedOnce e c once _ p = tt

  process_one-Adds :
      (e : Entry) (r : Runner)
      → Claimed entries e
      → Adds (IsClaimedOnce entries) r.history (process_one env entries e r).1.history
  unfolding process_one
  process_one-Adds e r c = elim (Bool-cases (duplicated entries e.note_id)) [
    | inl twice ↦ simp twice nothing
    | inr once ↦
        simp once
          (Adds-map (Touches-IsClaimedOnce e c once) (Steps-Adds (process_entry-Steps env e r)))
  ]

  process_entries-from :
      (es : List Entry) (r : Runner)
      → All (Claimed entries) es
      → Adds (IsClaimedOnce entries) r.history (process_entries env entries es r).1.history
  unfolding process_entries
  process_entries-from [] r c = nothing
  process_entries-from (e ∷ es) r c =
      Adds-trans (process_one-Adds e r c.0) (process_entries-from es _ c.1)

  process_one-IsMap :
      (e : Entry) (r : Runner) → IsMap r.reg → IsMap (process_one env entries e r).1.reg
  unfolding process_one
  process_one-IsMap e r m = elim (Bool-cases (duplicated entries e.note_id)) [
    | inl twice ↦ simp twice m
    | inr once ↦ simp once (Steps-IsMap (process_entry-Steps env e r) m)
  ]

  -- From a registry with one record for each identifier, the loop leaves one.
  pub process_entries-IsMap :
      (es : List Entry) (r : Runner) → IsMap r.reg → IsMap (process_entries env entries es r).1.reg
  unfolding process_entries
  process_entries-IsMap [] r m = m
  process_entries-IsMap (e ∷ es) r m = process_entries-IsMap es _ (process_one-IsMap e r m)

-- The loop over the entries of a request writes the fields or the tags of a note only where
-- exactly one entry claims its identifier, and deletes nothing.
pub process_entries-IsClaimedOnce :
    (env : Env) (entries : List Entry) (r : Runner)
    → Adds (IsClaimedOnce entries) r.history (process_entries env entries entries r).1.history
process_entries-IsClaimedOnce env entries r =
    process_entries-from env entries entries r (All-Claimed entries)
