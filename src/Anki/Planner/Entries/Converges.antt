-- ===== src/Anki/Planner/Entries/Converges.antt =====
-- planner/planner.go: processEntry, after an entry has been written.
use mathlib.Core.Path.{subst₂}
use imoogi_emacs.Prelude.{
  ℕ, Text, equal_refl, true, Option, none, some, List, [], ◌≡◌, refl, ap, sym, ◌∙◌, subst,
}
use imoogi_emacs.Prelude.Dict.{Dict}
use imoogi_emacs.Anki.Protocol.{Entry, Code, skipped}
use imoogi_emacs.Anki.Registry
use imoogi_emacs.Anki.Registry.{lookup}
use imoogi_emacs.Anki.Planner.Runner.{
  Env, Runner, Upload, Rendered, rendered, refused, reply, Flow, next, halt, continue, settle, lift,
  pure, ◌>>=◌,
}
use imoogi_emacs.Anki.Planner.Branches.{Job}
use imoogi_emacs.Anki.Planner.Branches.Records.{Says, SaysAt}
use imoogi_emacs.Anki.Planner.Entries.Walks.{About, prepare-About}
use imoogi_emacs.Anki.Planner.Entries.Records.{is_written, Refuses-not_written, dispatch-Wrote}
use imoogi_emacs.Anki.Planner.Entries.{
  after_media, after_render, after_gate, prepare, with_record, with_id, dispatch, process_entry,
}

-- the heading after its identifier is written back
abbrev pub identified : Entry → ℕ → Entry
identified e n = record e { note_id = some n }

module _ (env : Env) where
  with_record_unchanged :
      (job : Job) (n : ℕ) (o : Option Registry.Entry) (r : Runner)
      → Says job.entry.note_type job.content_hash o
      → with_record env job n o r ≡ (next (reply job.entry.key skipped (some n) []), r)
  unfolding with_record pure
  with_record_unchanged job n none r says = elim says [ ]
  with_record_unchanged job n (some prior) r says = simp (says.0, says.1, equal_refl)

  dispatch_unchanged :
      (job : Job) (n : ℕ) (r : Runner)
      → job.entry.note_id ≡ some n
      → Says job.entry.note_type job.content_hash (lookup r.reg n)
      → dispatch env job r ≡ (next (reply job.entry.key skipped (some n) []), r)
  unfolding dispatch with_id
  dispatch_unchanged job n r own says =
      ap (λ o. with_id env job o r) own ∙ with_record_unchanged job n (lookup r.reg n) r says

  prepared_unchanged :
      (e : Entry) (n : ℕ) (r : Runner) {job : Job}
      → prepare env e ≡ next job
      → job.entry.note_id ≡ some n
      → Says job.entry.note_type job.content_hash (lookup r.reg n)
      → process_entry env e r ≡ (reply job.entry.key skipped (some n) [], r)
  unfolding process_entry lift ◌>>=◌
  prepared_unchanged e n r {job} p own says =
      ap (λ f. settle (continue f (dispatch env) r)) p
      ∙ ap settle (dispatch_unchanged job n r own says)

  -- the job of the same heading with its identifier
  abbrev SameJob : Entry → ℕ → Flow Job → Flow Job → Type 0
  SameJob e n (next job) f = f ≡ next (record job { entry = identified e n })
  SameJob e n (halt p) f = Unit

  module _ (e : Entry) (n : ℕ) where
    after_media-SameJob :
        (o : Option (Dict Text × List Upload))
        → SameJob e n (after_media env e o) (after_media env (identified e n) o)
    unfolding after_media
    after_media-SameJob none = tt
    after_media-SameJob (some x) = refl

    after_render-SameJob :
        (o : Rendered) → SameJob e n (after_render env e o) (after_render env (identified e n) o)
    unfolding after_render
    after_render-SameJob (rendered fields) = after_media-SameJob _
    after_render-SameJob (refused error) = tt

    after_gate-SameJob :
        (o : Option Code) → SameJob e n (after_gate env e o) (after_gate env (identified e n) o)
    unfolding after_gate
    after_gate-SameJob none = after_render-SameJob _
    after_gate-SameJob (some code) = tt

    prepare-SameJob : SameJob e n (prepare env e) (prepare env (identified e n))
    unfolding prepare
    prepare-SameJob = after_gate-SameJob _

  converges_from :
      (e : Entry) (n : ℕ) (r later : Runner) (f : Flow Job)
      → About e f
      → SameJob e n f (prepare env (identified e n))
      → let x = settle ((lift f >>= dispatch env) r) in
        is_written x.0.result.action ≡ true
        → x.0.result.note_id ≡ some n
        → later.reg ≡ x.1.reg
        → process_entry env (identified e n) later ≡ (reply e.key skipped (some n) [], later)
  unfolding lift ◌>>=◌
  converges_from e n r later (next job) about same written id reg =
      prepared_unchanged (identified e n) n later same refl (
        subst₂ (λ t o. Says t job.content_hash o) (ap (λ x. x.note_type) about)
          (ap (λ g. lookup g n) (sym reg))
          (subst (SaysAt job.entry.note_type job.content_hash _) id
            (dispatch-Wrote env job r written)))
  converges_from e n r later (halt p) about same written id reg =
      absurd (Refuses-not_written p.result.action about written)

  -- Once an entry has been reported as added or updated under an identifier, processing it again
  -- with that identifier, from any state that holds the registry it left, skips it without a
  -- diagnostic and leaves that state, the requests made included, as it is.
  pub process_entry_converges :
      (e : Entry) (n : ℕ) (r later : Runner)
      → is_written (process_entry env e r).0.result.action ≡ true
      → (process_entry env e r).0.result.note_id ≡ some n
      → later.reg ≡ (process_entry env e r).1.reg
      → process_entry env (identified e n) later ≡ (reply e.key skipped (some n) [], later)
  process_entry_converges e n r later written id reg =
      converges_from e n r later (prepare env e) (prepare-About env e) (prepare-SameJob e n)
        (unfold process_entry in written) (unfold process_entry in id) (unfold process_entry in reg)
