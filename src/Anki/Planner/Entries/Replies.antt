-- ===== src/Anki/Planner/Entries/Replies.antt =====
-- planner/planner.go: the results of processEntry and of the loop of Run.
use imoogi_emacs.Prelude.{
  ℕ, Text, equal, not, ◌&&◌, Bool-cases, inl, inr, Option, none, some, List, [], ◌∷◌, map, ◌≡◌,
  refl, All-append, subst,
}
use mathlib.Core.Path.{ap₂}
use imoogi_emacs.Prelude.Dict.{Dict}
use imoogi_emacs.Anki.Protocol.{Entry, Code, valid_org_id}
use imoogi_emacs.Anki.Registry
use imoogi_emacs.Anki.Registry.{lookup}
use imoogi_emacs.Anki.Planner.Runner.{
  Env, Runner, Upload, Rendered, rendered, refused, Reply, Flow, next, halt, Exec, settle, lift,
  ◌>>=◌,
}
use imoogi_emacs.Anki.Planner.Branches.{Job, add_new_note, reconcile, update_note}
use imoogi_emacs.Anki.Planner.Branches.Answers.{
  Labelled, Halted, Answered, Answers, attempt-Halts, bind-Answers, reply-Answers, if-Answers,
  add_new_note-Answers, reconcile-Answers, update_note-Answers,
}
use imoogi_emacs.Anki.Planner.Entries.{
  after_media, after_render, after_gate, prepare, with_fields, with_record, with_id, dispatch,
  process_entry, process_one, process_entries, duplicated, advise,
}
use imoogi_emacs.Anki.Planner.Entries.Walks.{About, prepare-About}

module _ (env : Env) (e : Entry) where
  after_media-Halted : (o : Option (Dict Text × List Upload)) → Halted e.key (after_media env e o)
  unfolding after_media
  after_media-Halted none = (refl, (refl, tt))
  after_media-Halted (some x) = tt

  after_render-Halted : (o : Rendered) → Halted e.key (after_render env e o)
  unfolding after_render
  after_render-Halted (rendered fields) = after_media-Halted _
  after_render-Halted (refused error) = (refl, (refl, tt))

  after_gate-Halted : (o : Option Code) → Halted e.key (after_gate env e o)
  unfolding after_gate
  after_gate-Halted none = after_render-Halted _
  after_gate-Halted (some code) = (refl, (refl, tt))

  prepare-Halted : Halted e.key (prepare env e)
  unfolding prepare
  prepare-Halted = after_gate-Halted _

module _ (env : Env) (job : Job) where
  open job use {entry}

  with_fields-Answers :
      (id : Option ℕ) (branch : Job → Exec Reply)
      → ((fields : Dict Text) → Answers entry.key (branch (record job { fields = fields })))
      → Answers entry.key (with_fields env job id branch)
  unfolding with_fields
  with_fields-Answers id branch k = bind-Answers entry.key _ _ (attempt-Halts entry.key _ _ _) k

  with_update-Answers :
      (id : ℕ) (prior : Registry.Entry)
      → Answers entry.key (with_fields env job (some id) (λ j. update_note env j id prior))
  with_update-Answers id prior =
      with_fields-Answers (some id) (λ j. update_note env j id prior)
        λ fields. update_note-Answers env (record job { fields = fields }) id prior

  with_record-Answers :
      (id : ℕ) (o : Option Registry.Entry) → Answers entry.key (with_record env job id o)
  unfolding with_record
  with_record-Answers id none =
      with_fields-Answers (some id) (λ j. reconcile env j id)
        λ fields. reconcile-Answers env (record job { fields = fields }) id
  with_record-Answers id (some prior) = search (if-Answers, reply-Answers, with_update-Answers)

  with_id-Answers : (o : Option ℕ) → Answers entry.key (with_id env job o)
  unfolding with_id
  with_id-Answers none = record {
    at =
        (with_fields-Answers none (λ j. add_new_note env j)
          λ fields. add_new_note-Answers env (record job { fields = fields })).at;
  }
  with_id-Answers (some id) = record { at = λ r. (with_record-Answers id (lookup r.reg id)).at r }

  dispatch-Answers : Answers entry.key (dispatch env job)
  unfolding dispatch
  dispatch-Answers = with_id-Answers entry.note_id

settle-Labelled :
    (key : Text) (x : Flow Reply × Runner) → Answered key x.0 → Labelled key (settle x).0
settle-Labelled key (next p, r) l = l
settle-Labelled key (halt p, r) l = l

prepared-Answered :
    (env : Env) (e : Entry) (f : Flow Job) (r : Runner)
    → About e f
    → Halted e.key f
    → Answered e.key ((lift f >>= dispatch env) r).0
unfolding lift ◌>>=◌
prepared-Answered env e (halt p) r about l = l
prepared-Answered env e (next job) r about l =
    subst (λ x. Answered x.key (dispatch env job r).0) about ((dispatch-Answers env job).at r)

process_entry-Labelled :
    (env : Env) (e : Entry) (r : Runner) → Labelled e.key (process_entry env e r).0
unfolding process_entry
process_entry-Labelled env e r =
    settle-Labelled e.key _
      (prepared-Answered env e (prepare env e) r (prepare-About env e) (prepare-Halted env e))

advise-Labelled : (e : Entry) (p : Reply) → Labelled e.key p → Labelled e.key (advise e p)
advise-Labelled e p l = elim (Bool-cases (not (equal e.org_id []) && not (valid_org_id e.org_id))) [
  | inl bad ↦ simp bad (l.0, All-append _ p.errors _ l.1 (refl, tt))
  | inr fine ↦ simp fine l
]

-- Whatever the loop makes of an entry, the result and every diagnostic bear the entry's key.
pub process_one-Labelled :
    (env : Env) (entries : List Entry) (e : Entry) (r : Runner)
    → Labelled e.key (process_one env entries e r).0
unfolding process_one
process_one-Labelled env entries e r = elim (Bool-cases (duplicated entries e.note_id)) [
  | inl twice ↦ simp twice (refl, (refl, tt))
  | inr once ↦ simp once (advise-Labelled e _ (process_entry-Labelled env e r))
]

-- The loop reports exactly one result for each entry, in the order of the entries, under the
-- entry's key.
pub process_entries-keys :
    (env : Env) (entries es : List Entry) (r : Runner)
    → map (λ x. x.key) (process_entries env entries es r).0.results ≡ map (λ e. some e.key) es
unfolding process_entries
process_entries-keys env entries [] r = refl
process_entries-keys env entries (e ∷ es) r =
    ap₂ ◌∷◌ (process_one-Labelled env entries e r).0 (process_entries-keys env entries es _)
