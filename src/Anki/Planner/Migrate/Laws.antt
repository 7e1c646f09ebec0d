-- ===== src/Anki/Planner/Migrate/Laws.antt =====
-- planner/migrate.go: what migrateOne does to the notes and the registry.
use imoogi_emacs.Prelude.{
  ℕ, Text, true, ◌==◌, if◌then◌else◌, Option, none, some, List, [], ◌∷◌, ◌≡◌, refl, ap, ◌∙◌, arith,
}
use imoogi_emacs.Prelude.Dict.{Dict}
use imoogi_emacs.Anki.Protocol.{Entry, Code, skipped, added, migration_add_failed}
use imoogi_emacs.Anki.Registry
use imoogi_emacs.Anki.Registry.{Registry, lookup, put, remove}
use imoogi_emacs.Anki.Registry.Laws.{lookup-put, lookup-remove}
use imoogi_emacs.Anki.Client.{Call}
use imoogi_emacs.Anki.Planner.Runner.{
  Env, Runner, Upload, Rendered, rendered, refused, Outcome, ok, err, ask, Reply, reply, Flow, flow,
  next, halt, Exec, continue, attempt, pure, lift, ◌>>=◌, add_note,
}
use imoogi_emacs.Anki.CardOptions.{validate_card_options}
use imoogi_emacs.Anki.Planner.Steps.{deck_for}
use imoogi_emacs.Anki.Planner.Log.{request, Adds-map, nothing, Deletes-map}
use imoogi_emacs.Anki.Planner.Fields.Walks.{resolve_fields-Walks}
use imoogi_emacs.Anki.Planner.Fields.{resolve_fields}
use imoogi_emacs.Anki.Planner.Fields.Keeps.{resolve_fields-reg}
use imoogi_emacs.Anki.Planner.Branches.{Job, upload_media, ensure_deck}
use imoogi_emacs.Anki.Planner.Branches.Walks.{upload_media-Walks, ensure_deck-Walks}
use imoogi_emacs.Anki.Planner.Branches.Keeps.{upload_media-reg, ensure_deck-reg}
use imoogi_emacs.Anki.Planner.Orphans.{confirm_and_delete}
use imoogi_emacs.Anki.Planner.Orphans.Confirmed.{IsOrphan, confirm_and_delete-Deletes}
use imoogi_emacs.Anki.Planner.Orphans.Effect.{confirm_and_delete-lookup, confirm_and_delete-Within}
use imoogi_emacs.Anki.Planner.Migrate.{
  after_media, after_render, after_gate, skip, prepare_migration, retire, swap_entry, replace_note,
  migrate_one,
}
use imoogi_emacs.Anki.Planner.Migrate.Replaced.{
  Untouched, Migrated, Walks-Quiet, Migrates, attempt-Migrates,
}

module _ (env : Env) (e : Entry) (id : ℕ) (counterpart : Text) where
  IsOrphan-own : (r : Runner) (n : ℕ) → IsOrphan env r (id ∷ []) true n → (id == n) ≡ true
  IsOrphan-own r n o = let h = o.1.2.candidate in ground (arith, h)

  -- what the removal, the swap and the orphan check leave of other records
  swapped :
      (r : Runner) (x : Registry.Entry) (n : ℕ)
      → let c = confirm_and_delete env (id ∷ []) true r in
        lookup (put (remove c.1.reg id) x) n
        ≡ (if x.note_id == n then some x else if id == n then none else lookup r.reg n)
  swapped r x n =
      let c = confirm_and_delete env (id ∷ []) true r in
      ground (
        arith,
        lookup-put (remove c.1.reg id) x n,
        lookup-remove c.1.reg id n,
        confirm_and_delete-lookup env (id ∷ []) true r n,
        confirm_and_delete-Within env (id ∷ []) true r n,
      )

  module _ (r : Runner) (job : Job) (prepared : prepare_migration env e id counterpart ≡ next job)
      (own : job.resolved_deck ≡ deck_for env e) where
    -- the record of the note that was added
    abbrev record_for : ℕ → Registry.Entry
    record_for new = record {
      note_id = new;
      source_path = e.source_path;
      note_type = counterpart;
      resolved_deck = job.resolved_deck;
      content_hash = job.content_hash;
    }

    abbrev finish : ℕ → Exec Reply
    finish new = retire env e id counterpart >>= λ codes.
        swap_entry env e id counterpart (record_for new) >>= λ _.
        pure (reply e.key added (some new) codes)

    module _ (fields : Dict Text)
        (resolved : (resolve_fields env counterpart job.fields r).0 ≡ ok fields) where
      abbrev asked : Runner → Runner
      asked s = record s {
        history = Call.add_note job.resolved_deck counterpart fields e.tags ∷ s.history;
      }

      -- from the state after the note was added, the original is retired and its record replaced
      finish-Migrated :
          (new : ℕ) (s : Runner)
          → Untouched r s
          → env.peer.add_note s.history job.resolved_deck counterpart fields e.tags ≡ some new
          → Migrated env e id counterpart r (finish new (asked s))
      unfolding retire swap_entry pure ◌>>=◌
      finish-Migrated new s u a = (
        refl,
        (
          new,
          refl,
          record {
            job = job;
            prepared = prepared;
            own_deck = own;
            fields = fields;
            resolved = resolved;
            before = s.history;
            no_delete = u.no_delete;
            accepted = a;
            deletes =
                Adds-map (Deletes-map _ (IsOrphan-own (asked s)))
                  (confirm_and_delete-Deletes env (id ∷ []) true (asked s));
            fresh = record_for new;
            fresh_type = refl;
            fresh_deck = refl;
            fresh_hash = refl;
            fresh_source = refl;
            looks = λ n.
                swapped (asked s) (record_for new) n
                ∙ ap
                    (λ g.
                      if new == n
                      then some (record_for new)
                      else if id == n
                      then none
                      else lookup g n)
                    u.same_reg;
          },
        ),
      )

      answered-Migrated :
          (o : Option ℕ) (s : Runner)
          → Untouched r s
          → env.peer.add_note s.history job.resolved_deck counterpart fields e.tags ≡ o
          → Migrated env e id counterpart r (
              continue
                (flow
                  (skip env e id counterpart)
                  (elim o [ none ↦ err migration_add_failed | some a ↦ ok a ]))
                finish
                (asked s))
      answered-Migrated none s u a =
          (refl, record { same_reg = u.same_reg; no_delete = request _ tt u.no_delete })
      answered-Migrated (some new) s u a = finish-Migrated new s u a

      add-Migrates : Migrates env e id counterpart r (
          attempt
            (add_note env migration_add_failed job.resolved_deck counterpart fields e.tags)
            (skip env e id counterpart)
          >>= finish)
      unfolding add_note ask attempt ◌>>=◌
      add-Migrates = record { at = λ s u. answered-Migrated _ s u refl }

    abbrev fields_first : Runner → Outcome (Dict Text) × Runner
    fields_first = resolve_fields env counterpart job.fields

    abbrev after_fields : Dict Text → Exec Reply
    after_fields fields =
        attempt (upload_media env job.uploads) (skip env e id counterpart) >>= λ _.
        attempt (ensure_deck env job.resolved_deck) (skip env e id counterpart) >>= λ _.
        attempt (add_note env migration_add_failed job.resolved_deck counterpart fields e.tags)
          (skip env e id counterpart)
        >>= finish

    after_fields-Migrates :
        (fields : Dict Text)
        → (fields_first r).0 ≡ ok fields
        → Migrates env e id counterpart r (after_fields fields)
    after_fields-Migrates fields resolved =
        attempt-Migrates env e id counterpart r _ _ _
          (Walks-Quiet env e _ (upload_media-reg env job.uploads)
            (upload_media-Walks env e job.uploads))
          (λ c. refl)
          λ _.
            attempt-Migrates env e id counterpart r _ _ _
              (Walks-Quiet env e _ (ensure_deck-reg env job.resolved_deck)
                (ensure_deck-Walks env e job.resolved_deck own))
              (λ c. refl) λ _. add-Migrates fields resolved

    fields-Migrated :
        (o : Outcome (Dict Text)) (s : Runner)
        → (fields_first r).0 ≡ o
        → Untouched r s
        → Migrated env e id counterpart r
            (continue (flow (skip env e id counterpart) o) after_fields s)
    fields-Migrated (err c) s h u = (refl, u)
    fields-Migrated (ok fields) s h u = (after_fields-Migrates fields h).at s u

    replace_note-Migrated :
        Migrated env e id counterpart r (replace_note env e id counterpart job r)
    unfolding replace_note attempt ◌>>=◌
    replace_note-Migrated = fields-Migrated (fields_first r).0 (fields_first r).1 refl (
        (Walks-Quiet env e _ (resolve_fields-reg env counterpart job.fields)
            (resolve_fields-Walks env e counterpart job.fields)).at
          r)

  abbrev Skips : Flow Job → Type 0
  Skips (next job) = job.resolved_deck ≡ deck_for env e
  Skips (halt p) = p.result.action ≡ skipped

  after_media-Skips :
      (o : Option (Dict Text × List Upload)) → Skips (after_media env e id counterpart o)
  unfolding after_media
  after_media-Skips none = refl
  after_media-Skips (some x) = refl

  after_render-Skips : (o : Rendered) → Skips (after_render env e id counterpart o)
  unfolding after_render
  after_render-Skips (rendered fields) = after_media-Skips _
  after_render-Skips (refused error) = refl

  after_gate-Skips : (o : Option Code) → Skips (after_gate env e id counterpart o)
  unfolding after_gate
  after_gate-Skips none = after_render-Skips _
  after_gate-Skips (some code) = refl

  prepare-Skips : Skips (prepare_migration env e id counterpart)
  unfolding prepare_migration
  prepare-Skips = after_gate-Skips (validate_card_options e)

  prepared-Migrated :
      (f : Flow Job) (r : Runner)
      → prepare_migration env e id counterpart ≡ f
      → Skips f
      → Migrated env e id counterpart r ((lift f >>= replace_note env e id counterpart) r)
  unfolding lift ◌>>=◌
  prepared-Migrated (next job) r h skips = replace_note-Migrated r job h skips
  prepared-Migrated (halt p) r h skips = (skips, record { same_reg = refl; no_delete = nothing })

-- A migration of a note either skips it, with the registry as it was and nothing deleted, or
-- reports a note as added; then a note of the counterpart type was added to the entry's deck, with
-- its tags and the fields that were prepared under the names of that type, and got the identifier
-- that is reported; the old record is gone, the new note has a record of the counterpart type, that
-- deck, the hash that was prepared and the entry's path, the other records are as they were, and no
-- note but the original was deleted, and that only after the new one was added.
pub migrate_one-Migrated :
    (env : Env) (e : Entry) (id : ℕ) (counterpart : Text) (r : Runner)
    → Migrated env e id counterpart r (migrate_one env e id counterpart r)
unfolding migrate_one
migrate_one-Migrated env e id counterpart r =
    prepared-Migrated env e id counterpart (prepare_migration env e id counterpart) r refl
      (prepare-Skips env e id counterpart)
