-- ===== src/Anki/Planner/Entries/Walks.antt =====
-- planner/planner.go: processEntry as steps of an entry.
use imoogi_emacs.Prelude.{
  ℕ, Bool, true, false, if◌then◌else◌, Option, none, some, List, ◌≡◌, refl, sym, ap, ◌∙◌, subst,
  Text,
}
use imoogi_emacs.Prelude.Dict.{Dict}
use imoogi_emacs.Anki.Protocol.{Entry, Code, skipped, failed}
use imoogi_emacs.Anki.Registry
use imoogi_emacs.Anki.Registry.{lookup}
use imoogi_emacs.Anki.Planner.Runner.{
  Env, Runner, Upload, Rendered, rendered, refused, Reply, Flow, next, halt, Exec, settle, lift,
  ◌>>=◌,
}
use imoogi_emacs.Anki.Planner.Steps.{Steps, here, Walks, Walks-pure, Walks-if, walk_rules, deck_for}
use imoogi_emacs.Anki.Planner.Fields.Walks.{resolve_fields-Walks}
use imoogi_emacs.Anki.Planner.Branches.{Job, add_new_note, reconcile, update_note}
use imoogi_emacs.Anki.Planner.Branches.Records.{Refuses}
use imoogi_emacs.Anki.Planner.Branches.Walks.{
  add_new_note-Walks, reconcile-Walks, update_note-Walks,
}
use imoogi_emacs.Anki.Planner.Entries.{
  after_media, after_render, after_gate, prepare, with_fields, with_record, with_id, dispatch,
  process_entry,
}

-- the job that is prepared is about the entry, and a refusal reports no written note
abbrev pub About : Entry → Flow Job → Type 0
About e (next job) = job.entry ≡ e
About e (halt p) = Refuses p.result.action

-- the job that is prepared is for the deck of the entry
abbrev ToOwn : Env → Entry → Flow Job → Type 0
ToOwn env e (next job) = job.resolved_deck ≡ deck_for env e
ToOwn env e (halt p) = Unit

refused-Refuses : (b : Bool) → Refuses (if b then skipped else failed)
refused-Refuses true = tt
refused-Refuses false = tt

module _ (env : Env) (e : Entry) where
  after_media-About : (o : Option (Dict Text × List Upload)) → About e (after_media env e o)
  unfolding after_media
  after_media-About none = tt
  after_media-About (some x) = refl

  after_render-About : (o : Rendered) → About e (after_render env e o)
  unfolding after_render
  after_render-About (rendered fields) = after_media-About _
  after_render-About (refused error) = refused-Refuses _

  after_gate-About : (o : Option Code) → About e (after_gate env e o)
  unfolding after_gate
  after_gate-About none = after_render-About _
  after_gate-About (some code) = tt

  after_media-ToOwn : (o : Option (Dict Text × List Upload)) → ToOwn env e (after_media env e o)
  unfolding after_media
  after_media-ToOwn none = tt
  after_media-ToOwn (some x) = refl

  after_render-ToOwn : (o : Rendered) → ToOwn env e (after_render env e o)
  unfolding after_render
  after_render-ToOwn (rendered fields) = after_media-ToOwn _
  after_render-ToOwn (refused error) = tt

  after_gate-ToOwn : (o : Option Code) → ToOwn env e (after_gate env e o)
  unfolding after_gate
  after_gate-ToOwn none = after_render-ToOwn _
  after_gate-ToOwn (some code) = tt

  prepare-ToOwn : ToOwn env e (prepare env e)
  unfolding prepare
  prepare-ToOwn = after_gate-ToOwn _

  pub prepare-About : About e (prepare env e)
  unfolding prepare
  prepare-About = after_gate-About _

module _ (env : Env) (job : Job) (to_own : job.resolved_deck ≡ deck_for env job.entry) where
  open job use {entry}

  with_fields-Walks :
      (id : Option ℕ) (branch : Job → Exec Reply)
      → ((fields : Dict Text) → Walks env entry (branch (record job { fields = fields })))
      → Walks env entry (with_fields env job id branch)
  unfolding with_fields
  with_fields-Walks id branch w = search (walk_rules, resolve_fields-Walks)

  with_update-Walks :
      (id : ℕ) (prior : Registry.Entry)
      → entry.note_id ≡ some id
      → Walks env entry (with_fields env job (some id) (λ j. update_note env j id prior))
  with_update-Walks id prior own =
      with_fields-Walks (some id) (λ j. update_note env j id prior)
        λ fields. update_note-Walks env (record job { fields = fields }) to_own id own prior

  with_reconcile-Walks :
      (id : ℕ)
      → entry.note_id ≡ some id
      → Walks env entry (with_fields env job (some id) (λ j. reconcile env j id))
  with_reconcile-Walks id own =
      with_fields-Walks (some id) (λ j. reconcile env j id)
        λ fields. reconcile-Walks env (record job { fields = fields }) to_own id own

  with_add-Walks : Walks env entry (with_fields env job none (λ j. add_new_note env j))
  with_add-Walks =
      with_fields-Walks none (λ j. add_new_note env j)
        λ fields. add_new_note-Walks env (record job { fields = fields }) to_own

  with_record-Walks :
      (id : ℕ)
      → entry.note_id ≡ some id
      → (o : Option Registry.Entry) → Walks env entry (with_record env job id o)
  unfolding with_record
  with_record-Walks id own none = with_reconcile-Walks id own
  with_record-Walks id own (some prior) = search (Walks-if, Walks-pure, with_update-Walks)

  with_id-Walks : (o : Option ℕ) → entry.note_id ≡ o → Walks env entry (with_id env job o)
  unfolding with_id
  with_id-Walks none own = record { at = with_add-Walks.at }
  with_id-Walks (some id) own = record {
    at = λ r. (with_record-Walks id own (lookup r.reg id)).at r;
  }

  pub dispatch-Walks : Walks env entry (dispatch env job)
  unfolding dispatch
  dispatch-Walks = with_id-Walks entry.note_id refl

settle-Steps :
    {env : Env} {e : Entry} {r : Runner} (x : Flow Reply × Runner)
    → Steps env e r x.1
    → Steps env e r (settle x).1
settle-Steps (next a, s) p = p
settle-Steps (halt a, s) p = p

prepared-Walks :
    (env : Env) (e : Entry) (f : Flow Job)
    → About e f
    → ToOwn env e f
    → Walks env e (lift f >>= dispatch env)
unfolding ◌>>=◌ lift
prepared-Walks env e (halt p) about own = record { at = λ r. here }
prepared-Walks env e (next job) about own = record {
  at =
      (subst (λ x. Walks env x (dispatch env job)) about
        (dispatch-Walks env job (own ∙ sym (ap (deck_for env) about)))).at;
}

-- From any state, processing an entry consists of steps that fill caches, record under the
-- entry's declared type its own note or one that the add-on has numbered for it, or make a
-- request that the entry permits at that point of the history: it writes fields and tags and asks about its own note only, adds notes of its type with its tags to
-- its deck, creates no other deck, moves to its deck only cards that the add-on has reported for its
-- note before, and deletes nothing.
pub process_entry-Steps :
    (env : Env) (e : Entry) (r : Runner) → Steps env e r (process_entry env e r).1
unfolding process_entry
process_entry-Steps env e r =
    settle-Steps _
      ((prepared-Walks env e (prepare env e) (prepare-About env e) (prepare-ToOwn env e)).at r)
