-- ===== src/Anki/Planner/Branches.antt =====
-- planner/planner.go: ensureDeck, uploadMedia, and the three branches that write a note,
-- addNewNote, reconcile and updateNote.
pub mod Walks
pub mod Records
pub mod Once
pub mod Keeps
pub mod Answers
use imoogi_emacs.Prelude.{
  ℕ, Text, equal, contains, Bool, true, false, not, ◌||◌, if◌then◌else◌, Option, none, some, List,
  [], ◌∷◌,
}
use imoogi_emacs.Prelude.Dict.{Dict}
use imoogi_emacs.Anki.Protocol.{
  Entry, Code, added, updated, skipped, failed, ankiconnect_error, deck_create_failed,
  deck_move_failed, media_upload_failed,
}
use imoogi_emacs.Anki.Registry
use imoogi_emacs.Anki.Client.{NoteInfo}
use imoogi_emacs.Anki.Planner.Runner.{
  Env, Runner, Upload, Outcome, ok, err, Ask, Reply, reply, Exec, ◌>>=◌, ◌>>◌, pure, try, attempt,
  put_entry, deck_names, create_deck, add_note, update_note_fields, update_note_tags, change_deck,
  note_info, store_media_file,
}

abbrev listed : Outcome (List Text) → List Text
listed (ok names) = names
listed (err c) = []

load_decks : Env → Runner → Runner
load_decks env r =
    if not r.decks_loaded
    then (let (o, r') = deck_names env deck_create_failed r in
        record r' { known_decks = listed o; decks_loaded = true })
    else r

note_deck : Text → Outcome (Unit {0}) → Ask (Unit {0})
note_deck deck (err c) r = (err c, r)
note_deck deck (ok u) r = (ok u, record r { known_decks = deck ∷ r.known_decks })

create_unknown : Env → Text → Ask (Unit {0})
unfolding note_deck
create_unknown env deck r =
    if contains deck r.known_decks
    then (ok tt, r)
    else (let (o, r') = create_deck env deck_create_failed deck r in note_deck deck o r')

-- ensureDeck
unfoldable pub ensure_deck : Env → Text → Ask (Unit {0})
unfolding load_decks create_unknown
ensure_deck env deck r = create_unknown env deck (load_decks env r)

note_upload : Text → Outcome (Unit {0}) → Ask (Unit {0})
note_upload name (err c) r = (err c, r)
note_upload name (ok u) r = (ok u, record r { uploaded = name ∷ r.uploaded })

-- one round of uploadMedia
unfoldable pub upload_one : Env → Upload → Ask (Unit {0})
unfolding note_upload
upload_one env u r =
    if contains u.filename r.uploaded
    then (ok tt, r)
    else (let (o, r') = store_media_file env media_upload_failed u.filename u.path r in
        note_upload u.filename o r')

-- uploadMedia
unfoldable pub upload_media : Env → List Upload → Ask (Unit {0})
upload_media env [] r = (ok tt, r)
upload_media env (u ∷ us) r =
    let (o, r') = upload_one env u r in
    elim o [ ok _ ↦ upload_media env us r' | err c ↦ (err c, r') ]

-- what the branches are handed: fields is already under the note type's own field names
pub record Job : Type 0 where
  pub entry : Entry
  pub fields : Dict Text
  pub resolved_deck : Text
  pub content_hash : Text
  pub uploads : List Upload

module _ (env : Env) (job : Job) where
  open job use {entry, fields, resolved_deck, content_hash, uploads}

  -- the record of a note that was just written
  abbrev pub record_of : ℕ → Registry.Entry
  record_of id = record {
    note_id = id;
    source_path = entry.source_path;
    note_type = entry.note_type;
    resolved_deck = resolved_deck;
    content_hash = content_hash;
  }

  -- addNewNote
  unfoldable pub add_new_note : Exec Reply
  add_new_note = do
    attempt (upload_media env uploads) (λ c. reply entry.key skipped none (c ∷ []))
    attempt (ensure_deck env resolved_deck) (λ c. reply entry.key failed none (c ∷ []))
    id ←
        attempt (add_note env ankiconnect_error resolved_deck entry.note_type fields entry.tags)
          (λ c. reply entry.key failed none (c ∷ []))
    put_entry (record_of id)
    pure (reply entry.key added (some id) [])

  -- the fields and the tags of a note that exists
  unfoldable pub write_note : ℕ → Exec (Unit {0})
  write_note id = do
    attempt (upload_media env uploads) (λ c. reply entry.key skipped (some id) (c ∷ []))
    attempt (update_note_fields env ankiconnect_error id fields)
        (λ c. reply entry.key failed (some id) (c ∷ []))
    attempt (update_note_tags env ankiconnect_error id entry.tags)
        (λ c. reply entry.key failed (some id) (c ∷ []))

  abbrev move_errors : Outcome (Unit {0}) → List Code
  move_errors (ok u) = []
  move_errors (err c) = c ∷ []

  -- the matched half of reconcile
  adopt : ℕ → NoteInfo → Exec Reply
  adopt id info = do
    write_note id
    moved ← try (change_deck env deck_move_failed info.cards resolved_deck)
    put_entry (record_of id)
    pure (reply entry.key updated (some id) (move_errors moved))

  adopt_or_add : ℕ → Outcome NoteInfo → Exec Reply
  unfolding adopt
  adopt_or_add id (err c) = add_new_note
  adopt_or_add id (ok info) =
      if not info.exists || not (equal info.model_name entry.note_type)
      then add_new_note
      else adopt id info

  -- reconcile
  unfoldable pub reconcile : ℕ → Exec Reply
  unfolding adopt_or_add
  reconcile id = do found ← try (note_info env ankiconnect_error id); adopt_or_add id found

  -- the deck that the registry is to record, and the diagnostics of the move
  abbrev pub Move : Type 0
  Move = Text × List Code

  abbrev moved_to : Text → Outcome (Unit {0}) → Move
  moved_to prior (ok u) = (resolved_deck, [])
  moved_to prior (err c) = (prior, c ∷ [])

  move_cards : Text → Outcome NoteInfo → Exec Move
  move_cards prior (err c) = pure (prior, c ∷ [])
  move_cards prior (ok info) = do
    done ← try (change_deck env deck_move_failed info.cards resolved_deck)
    pure (moved_to prior done)

  move_deck : ℕ → Text → Exec Move
  unfolding move_cards
  move_deck id prior =
      if not (equal resolved_deck prior)
      then (do found ← try (note_info env deck_move_failed id); move_cards prior found)
      else pure (prior, [])

  -- updateNote
  unfoldable pub update_note : ℕ → Registry.Entry → Exec Reply
  unfolding move_deck
  update_note id prior = do
    write_note id
    move ← move_deck id prior.resolved_deck
    put_entry (record {
      note_id = id;
      source_path = prior.source_path;
      note_type = entry.note_type;
      resolved_deck = move.0;
      content_hash = content_hash;
    })
    pure (reply entry.key updated (some id) move.1)
