-- ===== src/Anki/Planner/Orphans/Effect.antt =====
-- planner/planner.go: confirmAndDelete and the registry.
use imoogi_emacs.Prelude.{
  ℕ, Bool, true, false, ◌==◌, if◌then◌else◌, Option, none, some, List, [], ◌∷◌, any, ◌≡◌, refl,
  arith, subst, ==_iff, Bool-cases, Option-cases, inl, inr, All, All-imp,
}
use imoogi_emacs.Anki.Protocol.{Code, Result, Error, delete_suppressed}
use imoogi_emacs.Anki.Registry.{Registry, lookup, remove}
use imoogi_emacs.Anki.Registry.Laws.{lookup-remove}
use imoogi_emacs.Anki.Client.{NoteInfo, RawNoteInfo, read_infos}
use imoogi_emacs.Anki.Planner.Runner.{
  Env, Runner, Outcome, ok, err, infos_answer, notes_info, delete_notes, ask,
}
use imoogi_emacs.Anki.Planner.Orphans.{
  has, remove_all, deletions, after_delete, delete_confirmed, after_query, confirm_and_delete,
  confirmed_ids,
}
use imoogi_emacs.Anki.Planner.Orphans.Confirmed.{keep-IsConfirmed, All-has, read_infos-All}
use imoogi_emacs.Anki.Planner.Entries.{Report}

abbrev is_note : ℕ → Option ℕ → Bool
is_note n none = false
is_note n (some m) = m == n

-- whether a result is about the note
abbrev pub reports : List Result → ℕ → Bool
reports results n = any (λ x. is_note n x.note_id) results

reports-deletions : (ids : List ℕ) (n : ℕ) → reports (deletions ids) n ≡ has ids n
reports-deletions [] n = refl
reports-deletions (id ∷ ids) n = ground (arith, reports-deletions ids n)

pub lookup-remove_all :
    (ids : List ℕ) (reg : Registry) (n : ℕ)
    → lookup (remove_all reg ids) n ≡ (if has ids n then none else lookup reg n)
unfolding remove_all
lookup-remove_all [] reg n = refl
lookup-remove_all (id ∷ ids) reg n =
    ground (arith, lookup-remove_all ids (remove reg id) n, lookup-remove reg id n)

-- what is reported is what is removed
record Removes (reg : Registry) (x : Report × Runner) : Type 0 where
  at : (n : ℕ) → lookup x.1.reg n ≡ (if reports x.0.results n then none else lookup reg n)

module _ (env : Env) where
  after_delete-Removes :
      (ids : List ℕ) (errors : List Error) (o : Outcome (Unit {0})) (r : Runner)
      → Removes r.reg (after_delete ids errors o r)
  unfolding after_delete
  after_delete-Removes ids errors (err c) r = record { at = λ n. refl }
  after_delete-Removes ids errors (ok u) r = record {
    at = λ n. ground (arith, lookup-remove_all ids r.reg n, reports-deletions ids n);
  }

  delete_confirmed-Removes :
      (ids : List ℕ) (errors : List Error) (r : Runner)
      → Removes r.reg (delete_confirmed env ids errors r)
  unfolding delete_confirmed delete_notes ask
  delete_confirmed-Removes [] errors r = record { at = λ n. refl }
  delete_confirmed-Removes (id ∷ ids) errors r = record {
    at = (after_delete-Removes (id ∷ ids) errors _ _).at;
  }

  after_query-Removes :
      (o : Outcome (List NoteInfo)) (r : Runner) → Removes r.reg (after_query env o r)
  unfolding after_query
  after_query-Removes (err c) r = record { at = λ n. refl }
  after_query-Removes (ok infos) r = delete_confirmed-Removes _ _ r

All-at : (P : ℕ → Type 0) (ids : List ℕ) (n : ℕ) → All P ids → has ids n ≡ true → P n
All-at P [] n all h = cc
All-at P (id ∷ ids) n all h = elim (Bool-cases (id == n)) [
  | inl same ↦ subst P ((==_iff id n).0 same) all.0
  | inr other ↦ All-at P ids n all.1 (rw other at h)
]

-- what is reported is a candidate
abbrev pub Within : List ℕ → Report → Type 0
Within candidates x = (n : ℕ) → reports x.results n ≡ true → has candidates n ≡ true

module _ (env : Env) (candidates : List ℕ) where
  after_delete-Within :
      (ids : List ℕ) (errors : List Error) (o : Outcome (Unit {0})) (r : Runner)
      → All (λ n. has candidates n ≡ true) ids
      → Within candidates (after_delete ids errors o r).0
  unfolding after_delete
  after_delete-Within ids errors (err c) r all = λ n h. cc
  after_delete-Within ids errors (ok u) r all =
      λ n h. All-at (λ k. has candidates k ≡ true) ids n all (rw reports-deletions at h)

  delete_confirmed-Within :
      (ids : List ℕ) (errors : List Error) (r : Runner)
      → All (λ n. has candidates n ≡ true) ids
      → Within candidates (delete_confirmed env ids errors r).0
  unfolding delete_confirmed
  delete_confirmed-Within [] errors r all = λ n h. cc
  delete_confirmed-Within (id ∷ ids) errors r all = after_delete-Within (id ∷ ids) errors _ _ all

  after_query-Within :
      (code : Code) (o : Option (List RawNoteInfo)) (r : Runner)
      → Within candidates
          (after_query env
            (elim (infos_answer candidates o) [ none ↦ err code | some a ↦ ok a ])
            r).0
  unfolding after_query
  after_query-Within code none r = λ n h. cc
  after_query-Within code (some raw) r = elim (Option-cases (read_infos candidates raw)) [
    | inl e ↦ rw e (λ n h. cc)
    | inr (infos, e) ↦ rw e (
        delete_confirmed-Within _ _ r (
          All-imp _ (confirmed_ids env.sha256_hex r.reg infos) (λ n c. c.candidate)
            (keep-IsConfirmed env.sha256_hex r.reg candidates infos
              (read_infos-All candidates candidates raw (All-has candidates) e))))
  ]

-- The orphan pass reports no note as deleted that was no candidate.
pub confirm_and_delete-Within :
    (env : Env) (candidates : List ℕ) (complete : Bool) (r : Runner)
    → Within candidates (confirm_and_delete env candidates complete r).0
unfolding confirm_and_delete notes_info ask
confirm_and_delete-Within env candidates false r = λ n h. cc
confirm_and_delete-Within env [] true r = λ n h. cc
confirm_and_delete-Within env (id ∷ ids) true r =
    after_query-Within env (id ∷ ids) delete_suppressed (env.peer.notes_info r.history (id ∷ ids)) _

-- The orphan pass removes from the registry exactly the notes that it reports as deleted.
pub confirm_and_delete-lookup :
    (env : Env) (candidates : List ℕ) (complete : Bool) (r : Runner) (n : ℕ)
    → let x = confirm_and_delete env candidates complete r in
      lookup x.1.reg n ≡ (if reports x.0.results n then none else lookup r.reg n)
unfolding confirm_and_delete notes_info ask
confirm_and_delete-lookup env candidates false r n = refl
confirm_and_delete-lookup env [] true r n = refl
confirm_and_delete-lookup env (id ∷ ids) true r n = (after_query-Removes env _ _).at n
