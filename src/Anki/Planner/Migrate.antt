-- ===== src/Anki/Planner/Migrate.antt =====
-- internal/anki/planner/migrate.go: moving a note of a stock type onto its imoogi- counterpart.
pub mod Replaced
pub mod Laws
pub mod DryRun
use imoogi_emacs.Prelude.{
  ℕ, Text, equal, Bool, true, false, not, ◌&&◌, ◌||◌, if◌then◌else◌, Option, none, some, List, [],
  ◌∷◌, ◌++◌, map,
}
use imoogi_emacs.Prelude.Dict.{Dict}
use imoogi_emacs.Anki.Protocol.{
  Entry, Request, Result, Error, Code, Action, added, skipped, migrate_candidate,
  media_file_not_found, note_type_change_unsupported, migration_add_failed,
}
use imoogi_emacs.Anki.Registry
use imoogi_emacs.Anki.Registry.{Registry, lookup}
use imoogi_emacs.Anki.Hashing.{hash}
use imoogi_emacs.Anki.Client.{History}
use imoogi_emacs.Anki.CardOptions.{
  validate_card_options, read_card_options, render_type, note_type_basic, note_type_cloze,
  basic_name, cloze_name,
}
use imoogi_emacs.Anki.Planner.Runner.{
  Env, Runner, Upload, Rendered, rendered, refused, Reply, reply, Flow, next, halt, Exec, ◌>>=◌,
  ◌>>◌, pure, lift, attempt, try, settle, put_entry, add_note,
}
use imoogi_emacs.Anki.Planner.Fields.{resolve_deck, resolve_fields, render_error}
use imoogi_emacs.Anki.Planner.Branches.{Job, upload_media, ensure_deck}
use imoogi_emacs.Anki.Planner.Entries.{Report}
use imoogi_emacs.Anki.Planner.Orphans.{confirm_and_delete}
use imoogi_emacs.Anki.Planner.Run.{configured, start}

-- stockCounterpart
unfoldable pub stock_counterpart : Text → Option Text
stock_counterpart recorded =
    if equal recorded note_type_basic
    then some basic_name
    else if equal recorded note_type_cloze
    then some cloze_name
    else none

-- the declared type is the recorded one or its counterpart
abbrev declared_as : Text → Text → Option Text → Option Text
declared_as declared recorded none = none
declared_as declared recorded (some counterpart) =
    if not (equal declared recorded) && not (equal declared counterpart)
    then none
    else some counterpart

target_from : Text → Option Registry.Entry → Option Text
unfolding stock_counterpart
target_from declared none = none
target_from declared (some x) = declared_as declared x.note_type (stock_counterpart x.note_type)

target_of : Entry → Registry → Option ℕ → Option Text
unfolding target_from
target_of e reg none = none
target_of e reg (some id) = target_from e.note_type (lookup reg id)

-- migrationTarget
unfoldable pub migration_target : Entry → Registry → Option Text
unfolding target_of
migration_target e reg = target_of e reg e.note_id

mismatch : Entry → ℕ → Option Registry.Entry → Report
mismatch e id none = record { results = []; errors = [] }
mismatch e id (some x) =
    if equal x.note_type e.note_type
    then record { results = []; errors = [] }
    else (let p = reply e.key skipped (some id) (note_type_change_unsupported ∷ []) in
        record { results = p.result ∷ []; errors = p.errors })

residue : Entry → Registry → Option ℕ → Report
unfolding mismatch
residue e reg none = record { results = []; errors = [] }
residue e reg (some id) = mismatch e id (lookup reg id)

-- nonCandidate
unfoldable pub non_candidate : Entry → Registry → Report
unfolding residue
non_candidate e reg = residue e reg e.note_id

module _ (env : Env) (e : Entry) (id : ℕ) (counterpart : Text) where
  abbrev pub skip : Code → Reply
  skip c = reply e.key skipped (some id) (c ∷ [])

  abbrev deck_of : Text
  deck_of = resolve_deck e.deck env.default_deck

  after_media : Option (Dict Text × List Upload) → Flow Job
  unfolding hash resolve_deck
  after_media none = halt (skip media_file_not_found)
  after_media (some (fields, uploads)) = next (record {
    entry = e;
    fields = fields;
    resolved_deck = deck_of;
    content_hash = hash env.sha256_hex counterpart fields deck_of e.tags;
    uploads = uploads;
  })

  after_render : Rendered → Flow Job
  unfolding after_media render_error
  after_render (rendered fields) = after_media (env.rewrite env.sync_root e.source_path fields)
  after_render (refused error) = halt (skip (render_error error).0)

  after_gate : Option Code → Flow Job
  unfolding after_render read_card_options render_type
  after_gate (some code) = halt (skip code)
  after_gate none =
      after_render (env.render (render_type counterpart) e.title e.body (read_card_options e))

  -- migrateOne up to the hash
  unfoldable pub prepare_migration : Flow Job
  unfolding after_gate validate_card_options
  prepare_migration = after_gate (validate_card_options e)

  -- the original is deleted if it is confirmed; its diagnostics go on under the entry's key
  retire : Exec (List Code)
  retire r =
      let (report, r') = confirm_and_delete env (id ∷ []) true r in
      (next (map (λ x. x.code) report.errors), r')

  -- r.reg.Remove, then r.reg.Put
  swap_entry : Registry.Entry → Exec (Unit {0})
  swap_entry x r = (next tt, record r { reg = Registry.put (Registry.remove r.reg id) x })

  -- the rest of migrateOne
  replace_note : Job → Exec Reply
  unfolding retire swap_entry
  replace_note job = do
    resolved ← attempt (resolve_fields env counterpart job.fields) skip
    attempt (upload_media env job.uploads) skip
    attempt (ensure_deck env job.resolved_deck) skip
    new ←
        attempt (add_note env migration_add_failed job.resolved_deck counterpart resolved e.tags)
          skip
    codes ← retire
    swap_entry (record {
      note_id = new;
      source_path = e.source_path;
      note_type = counterpart;
      resolved_deck = job.resolved_deck;
      content_hash = job.content_hash;
    })
    pure (reply e.key added (some new) codes)

  -- migrateOne
  unfoldable pub migrate_one : Exec Reply
  unfolding replace_note
  migrate_one = lift prepare_migration >>= replace_note

abbrev report_of : Reply → Report
report_of p = record { results = p.result ∷ []; errors = p.errors }

migrate_found : Env → Bool → Entry → ℕ → Text → Runner → Report × Runner
unfolding migrate_one
migrate_found env true e id counterpart r =
    (report_of (reply e.key migrate_candidate (some id) []), r)
migrate_found env false e id counterpart r =
    let (p, r') = settle (migrate_one env e id counterpart r) in (report_of p, r')

migrate_target : Env → Bool → Entry → Option ℕ → Option Text → Runner → Report × Runner
unfolding migrate_found non_candidate
migrate_target env dry e (some id) (some counterpart) r = migrate_found env dry e id counterpart r
migrate_target env dry e id counterpart r = (non_candidate e r.reg, r)

-- one round of the loop
unfoldable pub migrate_entry : Env → Bool → Entry → Runner → Report × Runner
unfolding migrate_target migration_target
migrate_entry env dry e r = migrate_target env dry e e.note_id (migration_target e r.reg) r

unfoldable pub migrate_entries : Env → Bool → List Entry → Runner → Report × Runner
migrate_entries env dry [] r = (record { results = []; errors = [] }, r)
migrate_entries env dry (e ∷ es) r =
    let (first, r') = migrate_entry env dry e r in
    let (rest, r'') = migrate_entries env dry es r' in
    (record { results = first.results ++ rest.results; errors = first.errors ++ rest.errors }, r'')

-- Migrate
unfoldable pub migrate : Env → Request → Bool → History → Registry → Report × Runner
migrate given req dry history reg =
    migrate_entries (configured given req) dry req.entries (start history reg)
