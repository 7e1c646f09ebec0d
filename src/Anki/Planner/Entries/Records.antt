-- ===== src/Anki/Planner/Entries/Records.antt =====
-- planner/planner.go: the records that processEntry leaves.
use imoogi_emacs.Prelude.{
  ℕ, Text, Bool, true, false, if◌then◌else◌, Option, none, some, List, ◌∷◌, [], ◌≡◌,
}
use imoogi_emacs.Prelude.Dict.{Dict}
use imoogi_emacs.Anki.Protocol.{
  Action, added, updated, Code, skipped, failed, note_type_change_unsupported,
}
use imoogi_emacs.Anki.Registry
use imoogi_emacs.Anki.Registry.{lookup}
use imoogi_emacs.Anki.Planner.Runner.{
  Env, Runner, Reply, reply, Flow, next, halt, Exec, settle, pure,
}
use imoogi_emacs.Anki.Planner.Branches.{Job, add_new_note, reconcile, update_note}
use imoogi_emacs.Anki.Planner.Branches.Records.{
  SaysAt, Refuses, Recorded, Ends, bind-Ends, attempt-IsEarly, add_new_note-Ends, reconcile-Ends,
  update_note-Ends,
}
use imoogi_emacs.Anki.Planner.Entries.{with_fields, with_record, with_id, dispatch}

abbrev pub is_written : Action → Bool
is_written added = true
is_written updated = true
is_written _ = false

abbrev pub Wrote : Text → Text → Reply × Runner → Type 0
Wrote t h (p, r) = is_written p.result.action ≡ true → SaysAt t h r.reg p.result.note_id

pub Refuses-not_written : (a : Action) → Refuses a → is_written a ≡ true → ⊥
Refuses-not_written added no_way w = no_way
Refuses-not_written updated no_way w = no_way
Refuses-not_written skipped ok w = cc
Refuses-not_written failed ok w = cc
Refuses-not_written Action.deleted ok w = cc
Refuses-not_written Action.migrate_candidate ok w = cc

Recorded-Wrote : (t h : Text) (x : Flow Reply × Runner) → Recorded t h x → Wrote t h (settle x)
Recorded-Wrote t h (next p, r) says = λ w. says
Recorded-Wrote t h (halt p, r) early = λ w. absurd (Refuses-not_written p.result.action early w)

module _ (env : Env) (job : Job) where
  open job use {entry, content_hash}

  with_fields-Ends :
      (id : Option ℕ) (branch : Job → Exec Reply)
      → ((fields : Dict Text)
          → Ends entry.note_type content_hash (branch (record job { fields = fields })))
      → Ends entry.note_type content_hash (with_fields env job id branch)
  unfolding with_fields
  with_fields-Ends id branch ends = bind-Ends _ _ (attempt-IsEarly _ _ (λ c. tt)) ends

  record Leaves (m : Exec Reply) : Type 0 where
    at : (r : Runner) → Wrote entry.note_type content_hash (settle (m r))

  Ends-Leaves : (m : Exec Reply) → Ends entry.note_type content_hash m → Leaves m
  Ends-Leaves m ends = record {
    at = λ r. Recorded-Wrote entry.note_type content_hash (m r) (ends.at r);
  }

  skip-Leaves :
      (id : Option ℕ) (codes : List Code) → Leaves (pure (reply entry.key skipped id codes))
  unfolding pure
  skip-Leaves id codes = record { at = λ r w. cc }

  if-Leaves : (b : Bool) (m n : Exec Reply) → Leaves m → Leaves n → Leaves (if b then m else n)
  if-Leaves true m n wm wn = wm
  if-Leaves false m n wm wn = wn

  with_update-Leaves :
      (id : ℕ) (prior : Registry.Entry)
      → Leaves (with_fields env job (some id) (λ j. update_note env j id prior))
  with_update-Leaves id prior = Ends-Leaves _ (
      with_fields-Ends (some id) (λ j. update_note env j id prior)
        λ fields. update_note-Ends env (record job { fields = fields }) id prior)

  with_record-Leaves : (id : ℕ) (o : Option Registry.Entry) → Leaves (with_record env job id o)
  unfolding with_record
  with_record-Leaves id none = Ends-Leaves _ (
      with_fields-Ends (some id) (λ j. reconcile env j id)
        λ fields. reconcile-Ends env (record job { fields = fields }) id)
  with_record-Leaves id (some prior) =
      if-Leaves _ _ _ (skip-Leaves (some id) (note_type_change_unsupported ∷ []))
        (if-Leaves _ _ _ (skip-Leaves (some id) []) (with_update-Leaves id prior))

  with_id-Leaves : (o : Option ℕ) → Leaves (with_id env job o)
  unfolding with_id
  with_id-Leaves none = record {
    at =
        (Ends-Leaves _ (
          with_fields-Ends none (λ j. add_new_note env j)
            λ fields. add_new_note-Ends env (record job { fields = fields }))).at;
  }
  with_id-Leaves (some id) = record { at = λ r. (with_record-Leaves id (lookup r.reg id)).at r }

  pub dispatch-Wrote :
      (r : Runner) → Wrote entry.note_type content_hash (settle (dispatch env job r))
  unfolding dispatch
  dispatch-Wrote = (with_id-Leaves entry.note_id).at
