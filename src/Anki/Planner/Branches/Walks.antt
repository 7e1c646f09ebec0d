-- ===== src/Anki/Planner/Branches/Walks.antt =====
-- planner/planner.go: addNewNote, reconcile and updateNote as steps of an entry.
use imoogi_emacs.Prelude.{
  ℕ, Text, Bool, true, false, if◌then◌else◌, not, ◌||◌, equal, contains, Bool-cases, Option, none,
  some, List, [], ◌∷◌, ◌≡◌, refl, inl, inr,
}
use imoogi_emacs.Anki.Protocol.{
  Entry, added, failed, ankiconnect_error, deck_move_failed, deck_create_failed,
  media_upload_failed,
}
use imoogi_emacs.Anki.Registry
use imoogi_emacs.Anki.Client.{NoteInfo, Call}
use imoogi_emacs.Anki.Planner.Runner.{
  Env, Runner, Upload, Outcome, ok, err, Exec, Reply, try, pure, note_info, ◌>>=◌, ask, add_note,
  attempt, put_entry, continue, flow, reply,
}
use imoogi_emacs.Anki.Planner.Steps.{
  Steps, here, after, caches, asks, records, numbered, now, Steps-trans, Walks, Walks-pure,
  walk_rules, deck_for, IsReported, WalksOnce, WalksOnce-bind, WalksOnce-Walks, WalksOnce-try,
}
use imoogi_emacs.Anki.Planner.Steps.Calls.{
  deck_names-Walks, create_deck-Walks, store_media_file-Walks, change_deck-WalksOnce,
  note_info-IsReported, update_note_fields-Walks, update_note_tags-Walks, note_info-Walks,
}
use imoogi_emacs.Anki.Planner.Branches.{
  load_decks, note_deck, create_unknown, ensure_deck, note_upload, upload_one, upload_media, Job,
  add_new_note, write_note, adopt, adopt_or_add, reconcile, move_cards, move_deck, update_note,
  record_of,
}

module _ (env : Env) (e : Entry) where
  note_deck-Steps :
      (deck : Text) (o : Outcome (Unit {0})) {r s : Runner}
      → Steps env e r s
      → Steps env e r (note_deck deck o s).1
  unfolding note_deck
  note_deck-Steps deck (ok u) p = after p (caches refl refl)
  note_deck-Steps deck (err c) p = p

  load_decks-Steps : (r : Runner) → Steps env e r (load_decks env r)
  unfolding load_decks
  load_decks-Steps r = elim (Bool-cases r.decks_loaded) [
    | inl known ↦ simp known here
    | inr new ↦
        simp new (after ((deck_names-Walks env e deck_create_failed).at r) (caches refl refl))
  ]

  create_unknown-Walks :
      (deck : Text) → deck ≡ deck_for env e → Walks env e (create_unknown env deck)
  unfolding create_unknown
  create_unknown-Walks deck own = record {
    at = λ r. elim (Bool-cases (contains deck r.known_decks)) [
      | inl known ↦ simp known here
      | inr new ↦
          simp new
            (note_deck-Steps deck _ ((create_deck-Walks env e deck_create_failed deck own).at r))
    ];
  }

  pub ensure_deck-Walks : (deck : Text) → deck ≡ deck_for env e → Walks env e (ensure_deck env deck)
  unfolding ensure_deck
  ensure_deck-Walks deck own = record {
    at = λ r.
        Steps-trans (load_decks-Steps r) ((create_unknown-Walks deck own).at (load_decks env r));
  }

  note_upload-Steps :
      (name : Text) (o : Outcome (Unit {0})) {r s : Runner}
      → Steps env e r s
      → Steps env e r (note_upload name o s).1
  unfolding note_upload
  note_upload-Steps name (ok u) p = after p (caches refl refl)
  note_upload-Steps name (err c) p = p

  upload_one-Walks : (u : Upload) → Walks env e (upload_one env u)
  unfolding upload_one
  upload_one-Walks u = record {
    at = λ r. elim (Bool-cases (contains u.filename r.uploaded)) [
      | inl sent ↦ simp sent here
      | inr new ↦ simp new (
          note_upload-Steps u.filename _
            ((store_media_file-Walks env e media_upload_failed u.filename u.path).at r))
    ];
  }

  pub upload_media-Walks : (us : List Upload) → Walks env e (upload_media env us)
  unfolding upload_media
  upload_media-Walks [] = record { at = λ r. here }
  upload_media-Walks (u ∷ us) = record {
    at = λ r.
        Steps-trans ((upload_one-Walks u).at r)
          (rest (upload_one env u r).0 (upload_one env u r).1 (upload_media-Walks us));
  }
    where
      rest :
          (o : Outcome (Unit {0})) (s : Runner)
          → Walks env e (upload_media env us)
          → Steps env e s
              (elim o as (λ _. Outcome (Unit {0}) × Runner) [
                | ok _ ↦ upload_media env us s
                | err c ↦ (err c, s)
              ]).1
      rest (ok u) s w = w.at s
      rest (err c) s w = here

module _ (env : Env) (job : Job) (to_own : job.resolved_deck ≡ deck_for env job.entry) where
  open job use {entry}

  -- the request that adds the note, and its record
  abbrev add_and_record : Exec Reply
  add_and_record =
      attempt
        (add_note env ankiconnect_error job.resolved_deck entry.note_type job.fields entry.tags)
        (λ c. reply entry.key failed none (c ∷ []))
      >>= λ id. put_entry (record_of env job id) >>= λ _. pure (reply entry.key added (some id) [])

  answered-Steps :
      (o : Option ℕ) (r : Runner)
      → env.peer.add_note r.history job.resolved_deck entry.note_type job.fields entry.tags ≡ o
      → Steps env entry r
          (continue
            (flow
              (λ c. reply entry.key failed none (c ∷ []))
              (elim o [ none ↦ err ankiconnect_error | some a ↦ ok a ]))
            (λ id.
              put_entry (record_of env job id) >>= λ _. pure (reply entry.key added (some id) []))
            (record r {
              history =
                  Call.add_note job.resolved_deck entry.note_type job.fields entry.tags ∷ r.history;
            })).1
  unfolding put_entry pure ◌>>=◌
  answered-Steps none r a = after here (asks _ (to_own, refl, refl) refl)
  answered-Steps (some id) r a = after (after here (asks _ (to_own, refl, refl) refl)) (
      records (record_of env job id) refl
        (numbered job.fields job.resolved_deck r.history to_own now a) refl)

  add_and_record-Walks : Walks env entry add_and_record
  unfolding add_note ask attempt ◌>>=◌
  add_and_record-Walks = record { at = λ r. answered-Steps _ r refl }

  pub add_new_note-Walks : Walks env entry (add_new_note env job)
  unfolding add_new_note
  add_new_note-Walks =
      search (walk_rules, upload_media-Walks, ensure_deck-Walks, add_and_record-Walks) depth 9

  module _ (id : ℕ) (own : entry.note_id ≡ some id) where
    write_note-Walks : Walks env entry (write_note env job id)
    unfolding write_note
    write_note-Walks =
        search (walk_rules, upload_media-Walks, update_note_fields-Walks, update_note_tags-Walks)
          depth 9

    adopt-WalksOnce : (info : NoteInfo) → WalksOnce env entry id info.cards (adopt env job id info)
    unfolding adopt
    adopt-WalksOnce info =
        WalksOnce-bind env entry id info.cards _ _
          (WalksOnce-Walks env entry id info.cards _ write_note-Walks)
          λ _.
            WalksOnce-bind env entry id info.cards _ _
              (WalksOnce-try env entry id info.cards _
                (change_deck-WalksOnce env entry deck_move_failed id own info.cards _ to_own))
              λ moved. WalksOnce-Walks env entry id info.cards _ (search walk_rules)

    adopt_or_add-Steps :
        (o : Outcome NoteInfo) (r : Runner)
        → ((info : NoteInfo) → o ≡ ok info → IsReported env r.history id info.cards)
        → Steps env entry r (adopt_or_add env job id o r).1
    unfolding adopt_or_add
    adopt_or_add-Steps (err c) r q = add_new_note-Walks.at r
    adopt_or_add-Steps (ok info) r q =
        if-Steps (not info.exists || not (equal info.model_name entry.note_type))
          (add_new_note env job) (adopt env job id info) (add_new_note-Walks.at r)
          ((adopt-WalksOnce info).at r (q info refl))
      where
        if-Steps :
            (b : Bool) (m n : Exec Reply)
            → Steps env entry r (m r).1
            → Steps env entry r (n r).1
            → Steps env entry r ((if b then m else n) r).1
        if-Steps true m n p q = p
        if-Steps false m n p q = q

    pub reconcile-Walks : Walks env entry (reconcile env job id)
    unfolding reconcile try ◌>>=◌
    reconcile-Walks = record {
      at = λ r. Steps-trans ((note_info-Walks env entry ankiconnect_error id own).at r) (
          adopt_or_add-Steps (note_info env ankiconnect_error id r).0 _
            (note_info-IsReported env entry ankiconnect_error id r));
    }

    move_cards-Steps :
        (prior : Text) (o : Outcome NoteInfo) (r : Runner)
        → ((info : NoteInfo) → o ≡ ok info → IsReported env r.history id info.cards)
        → Steps env entry r (move_cards env job prior o r).1
    unfolding move_cards pure
    move_cards-Steps prior (err c) r q = here
    move_cards-Steps prior (ok info) r q =
        (WalksOnce-bind env entry id info.cards _ _
            (WalksOnce-try env entry id info.cards _
              (change_deck-WalksOnce env entry deck_move_failed id own info.cards _ to_own))
            λ done. WalksOnce-Walks env entry id info.cards _ (Walks-pure env entry _)).at
          r (q info refl)

    looked_up-Walks :
        (prior : Text)
        → Walks env entry (try (note_info env deck_move_failed id) >>= move_cards env job prior)
    unfolding try ◌>>=◌
    looked_up-Walks prior = record {
      at = λ r. Steps-trans ((note_info-Walks env entry deck_move_failed id own).at r) (
          move_cards-Steps prior (note_info env deck_move_failed id r).0 _
            (note_info-IsReported env entry deck_move_failed id r));
    }

    move_deck-Walks : (prior : Text) → Walks env entry (move_deck env job id prior)
    unfolding move_deck
    move_deck-Walks prior = search (walk_rules, looked_up-Walks)

    pub update_note-Walks :
        (prior : Registry.Entry) → Walks env entry (update_note env job id prior)
    unfolding update_note
    update_note-Walks prior = search (walk_rules, write_note-Walks, move_deck-Walks) depth 9
