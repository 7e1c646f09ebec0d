-- ===== src/Anki/Planner/Entries.antt =====
-- planner/planner.go: processEntry, and the loop of Run over the entries with its check for
-- identifiers that two headings claim.
pub mod Walks
pub mod Records
pub mod Loop
pub mod Replies
pub mod Converges
use imoogi_emacs.Prelude.{
  ℕ, ◌+◌, Text, equal, Bool, true, false, not, ◌&&◌, ltb, ◌==◌, if◌then◌else◌, Option, none, some,
  List, [], ◌∷◌, ◌++◌,
}
use imoogi_emacs.Prelude.Dict.{Dict}
use imoogi_emacs.Anki.Protocol.{
  Entry, Result, Error, Code, skipped, failed, media_file_not_found, note_type_change_unsupported,
  note_id_duplicated, org_id_invalid, valid_org_id,
}
use imoogi_emacs.Anki.Registry
use imoogi_emacs.Anki.Registry.{lookup}
use imoogi_emacs.Anki.Hashing.{hash}
use imoogi_emacs.Anki.CardOptions.{validate_card_options, read_card_options, render_type}
use imoogi_emacs.Anki.Planner.Runner.{
  Env, Runner, Upload, Rendered, rendered, refused, Reply, reply, Flow, next, halt, Exec, ◌>>=◌,
  pure, lift, attempt, settle,
}
use imoogi_emacs.Anki.Planner.Fields.{
  resolve_deck, resolve_fields, append_source_link, render_error,
}
use imoogi_emacs.Anki.Planner.Branches.{Job, add_new_note, reconcile, update_note}

module _ (env : Env) (e : Entry) where
  abbrev deck_of : Text
  deck_of = resolve_deck e.deck env.default_deck

  -- after the media pass: the source link, then the hash
  after_media : Option (Dict Text × List Upload) → Flow Job
  unfolding append_source_link hash resolve_deck render_type
  after_media none = halt (reply e.key skipped e.note_id (media_file_not_found ∷ []))
  after_media (some (fields, uploads)) =
      let linked = append_source_link (render_type e.note_type) e.org_id fields in
      next (record {
        entry = e;
        fields = linked;
        resolved_deck = deck_of;
        content_hash = hash env.sha256_hex e.note_type linked deck_of e.tags;
        uploads = uploads;
      })

  after_render : Rendered → Flow Job
  unfolding after_media render_error
  after_render (rendered fields) = after_media (env.rewrite env.sync_root e.source_path fields)
  after_render (refused error) =
      let (code, skip) = render_error error in
      halt (reply e.key (if skip then skipped else failed) e.note_id (code ∷ []))

  after_gate : Option Code → Flow Job
  unfolding after_render read_card_options render_type
  after_gate (some code) = halt (reply e.key skipped e.note_id (code ∷ []))
  after_gate none =
      after_render (env.render (render_type e.note_type) e.title e.body (read_card_options e))

  -- processEntry up to the hash: nothing here reads or changes the run's state
  unfoldable pub prepare : Flow Job
  unfolding after_gate validate_card_options
  prepare = after_gate (validate_card_options e)

module _ (env : Env) (job : Job) where
  open job use {entry}

  -- the fields under the note type's own names, or a failed entry
  with_fields : Option ℕ → (Job → Exec Reply) → Exec Reply
  with_fields id branch = do
    resolved ←
        attempt (resolve_fields env entry.note_type job.fields)
          (λ c. reply entry.key failed id (c ∷ []))
    branch (record job { fields = resolved })

  with_record : ℕ → Option Registry.Entry → Exec Reply
  unfolding with_fields
  with_record id none = with_fields (some id) (λ j. reconcile env j id)
  with_record id (some prior) =
      if not (equal prior.note_type entry.note_type)
      then pure (reply entry.key skipped (some id) (note_type_change_unsupported ∷ []))
      else if equal prior.content_hash job.content_hash
      then pure (reply entry.key skipped (some id) [])
      else with_fields (some id) (λ j. update_note env j id prior)

  with_id : Option ℕ → Exec Reply
  unfolding with_record
  with_id none r = with_fields none (λ j. add_new_note env j) r
  with_id (some id) r = with_record id (lookup r.reg id) r

  -- processEntry from the hash on: the five branches
  unfoldable pub dispatch : Exec Reply
  unfolding with_id
  dispatch = with_id entry.note_id

-- processEntry
unfoldable pub process_entry : Env → Entry → Runner → Reply × Runner
process_entry env e r = settle ((lift (prepare env e) >>= dispatch env) r)

abbrev is_id : ℕ → Option ℕ → Bool
is_id n none = false
is_id n (some m) = m == n

-- len(claimants[id])
unfoldable pub claims : ℕ → List Entry → ℕ
claims n [] = 0
claims n (e ∷ es) = (if is_id n e.note_id then 1 else 0) + claims n es

abbrev pub duplicated : List Entry → Option ℕ → Bool
duplicated es none = false
duplicated es (some n) = ltb 1 (claims n es)

-- the advisory on an org_id that gets no link
abbrev advise : Entry → Reply → Reply
advise e p =
    if not (equal e.org_id []) && not (valid_org_id e.org_id)
    then record p { errors = p.errors ++ (record { code = org_id_invalid; key = some e.key } ∷ []) }
    else p

-- one round of the loop
unfoldable pub process_one : Env → List Entry → Entry → Runner → Reply × Runner
process_one env entries e r =
    if duplicated entries e.note_id
    then (reply e.key failed e.note_id (note_id_duplicated ∷ []), r)
    else (let (p, r') = process_entry env e r in (advise e p, r'))

pub record Report : Type 0 where
  pub results : List Result
  pub errors : List Error

-- the loop over the entries; `entries` stays the whole request
unfoldable pub process_entries : Env → List Entry → List Entry → Runner → Report × Runner
process_entries env entries [] r = (record { results = []; errors = [] }, r)
process_entries env entries (e ∷ es) r =
    let (p, r') = process_one env entries e r in
    let (rest, r'') = process_entries env entries es r' in
    (record { results = p.result ∷ rest.results; errors = p.errors ++ rest.errors }, r'')
