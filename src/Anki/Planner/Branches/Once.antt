-- ===== src/Anki/Planner/Branches/Once.antt =====
-- planner/planner.go: ensureDeck and uploadMedia, asked twice.
use imoogi_emacs.Prelude.{
  Text, equal_refl, contains, true, Bool-cases, inl, inr, List, [], ◌∷◌, ◌≡◌, refl, ap, ◌∙◌, arith,
  All,
}
use imoogi_emacs.Anki.Planner.Runner.{
  Env, Runner, Upload, Outcome, ok, err, ask, create_deck, store_media_file,
}
use imoogi_emacs.Anki.Planner.Branches.{
  load_decks, note_deck, create_unknown, ensure_deck, note_upload, upload_one, upload_media,
}

contains-head : (x : Text) (l : List Text) → contains x (x ∷ l) ≡ true
unfolding contains
contains-head x l = ground (arith, equal_refl x)

contains-tail : (x y : Text) (l : List Text) → contains x l ≡ true → contains x (y ∷ l) ≡ true
unfolding contains
contains-tail x y l h = ground arith

module _ (env : Env) where
  load_decks-known : (r : Runner) → r.decks_loaded ≡ true → load_decks env r ≡ r
  unfolding load_decks
  load_decks-known r h = rw h refl

  decks_loaded-load_decks : (r : Runner) → (load_decks env r).decks_loaded ≡ true
  unfolding load_decks
  decks_loaded-load_decks r = elim (Bool-cases r.decks_loaded) [
    | inl known ↦ simp (known, known)
    | inr new ↦ simp new
  ]

  create_unknown-known :
      (deck : Text) (r : Runner)
      → contains deck r.known_decks ≡ true
      → create_unknown env deck r ≡ (ok tt, r)
  unfolding create_unknown
  create_unknown-known deck r h = rw h refl

  -- a deck is made known, and the cache of decks stays loaded
  record Knows (deck : Text) (r r' : Runner) : Type 0 where
    loaded : r'.decks_loaded ≡ r.decks_loaded
    known : contains deck r'.known_decks ≡ true

  note_deck-Knows :
      (deck : Text) (o : Outcome (Unit {0})) (r s : Runner)
      → s.decks_loaded ≡ r.decks_loaded
      → (note_deck deck o s).0 ≡ ok tt
      → Knows deck r (note_deck deck o s).1
  unfolding note_deck
  note_deck-Knows deck (ok u) r s h done = record {
    loaded = h;
    known = contains-head deck s.known_decks;
  }
  note_deck-Knows deck (err c) r s h done = cc

  create_unknown-Knows :
      (deck : Text) (r : Runner)
      → (create_unknown env deck r).0 ≡ ok tt
      → Knows deck r (create_unknown env deck r).1
  unfolding create_unknown create_deck ask
  create_unknown-Knows deck r done = elim (Bool-cases (contains deck r.known_decks)) [
    | inl known ↦ simp known (record { loaded = refl; known = known })
    | inr new ↦ simp new (note_deck-Knows deck _ r _ refl (rw new at done))
  ]

-- Once a deck has been ensured, ensuring it again succeeds without a request.
pub ensure_deck_again :
    (env : Env) (deck : Text) (r : Runner)
    → (ensure_deck env deck r).0 ≡ ok tt
    → ensure_deck env deck (ensure_deck env deck r).1 ≡ (ok tt, (ensure_deck env deck r).1)
unfolding ensure_deck
ensure_deck_again env deck r done =
    let k = create_unknown-Knows env deck (load_decks env r) done in
    ap (create_unknown env deck) (load_decks-known env _ (k.loaded ∙ decks_loaded-load_decks env r))
    ∙ create_unknown-known env deck _ k.known

-- every file was sent in this run
abbrev IsSent : List Upload → Runner → Type 0
IsSent us r = All (λ u. contains u.filename r.uploaded ≡ true) us

module _ (env : Env) where
  upload_one-sent :
      (u : Upload) (r : Runner)
      → contains u.filename r.uploaded ≡ true
      → upload_one env u r ≡ (ok tt, r)
  unfolding upload_one
  upload_one-sent u r h = rw h refl

  upload_media-IsSent :
      (us : List Upload) (r : Runner) → IsSent us r → upload_media env us r ≡ (ok tt, r)
  unfolding upload_media
  upload_media-IsSent [] r all = refl
  upload_media-IsSent (u ∷ us) r all =
      ap
        (λ (o, s). elim o as (λ _. Outcome (Unit {0}) × Runner) [
          | ok _ ↦ upload_media env us s
          | err c ↦ (err c, s)
        ])
        (upload_one-sent u r all.0)
      ∙ upload_media-IsSent us r all.1

  record Sends (name : Text) (r r' : Runner) : Type 0 where
    sent : contains name r'.uploaded ≡ true
    kept : (x : Text) → contains x r.uploaded ≡ true → contains x r'.uploaded ≡ true

  note_upload-Sends :
      (name : Text) (o : Outcome (Unit {0})) (r s : Runner)
      → s.uploaded ≡ r.uploaded
      → (note_upload name o s).0 ≡ ok tt
      → Sends name r (note_upload name o s).1
  unfolding note_upload
  note_upload-Sends name (ok u) r s h done = record {
    sent = contains-head name s.uploaded;
    kept = λ x c. contains-tail x name s.uploaded (rw h c);
  }
  note_upload-Sends name (err c) r s h done = cc

  upload_one-Sends :
      (u : Upload) (r : Runner)
      → (upload_one env u r).0 ≡ ok tt
      → Sends u.filename r (upload_one env u r).1
  unfolding upload_one store_media_file ask
  upload_one-Sends u r done = elim (Bool-cases (contains u.filename r.uploaded)) [
    | inl sent ↦ simp sent (record { sent = sent; kept = λ x c. c })
    | inr new ↦ simp new (note_upload-Sends u.filename _ r _ refl (rw new at done))
  ]

  record SendsAll (us : List Upload) (r r' : Runner) : Type 0 where
    all_sent : IsSent us r'
    all_kept : (x : Text) → contains x r.uploaded ≡ true → contains x r'.uploaded ≡ true

  continue-SendsAll :
      (u : Upload) (us : List Upload) (r : Runner) (o : Outcome (Unit {0})) (s : Runner)
      → (o ≡ ok tt → Sends u.filename r s)
      → ((upload_media env us s).0 ≡ ok tt → SendsAll us s (upload_media env us s).1)
      → let x = elim o as (λ _. Outcome (Unit {0}) × Runner) [
        | ok _ ↦ upload_media env us s
        | err c ↦ (err c, s)
      ] in
        x.0 ≡ ok tt → SendsAll (u ∷ us) r x.1
  continue-SendsAll u us r (err c) s sends rest done = cc
  continue-SendsAll u us r (ok v) s sends rest done =
      let first = sends refl in
      let later = rest done in
      record {
        all_sent = (later.all_kept u.filename first.sent, later.all_sent);
        all_kept = λ x c. later.all_kept x (first.kept x c);
      }

  upload_media-SendsAll :
      (us : List Upload) (r : Runner)
      → (upload_media env us r).0 ≡ ok tt
      → SendsAll us r (upload_media env us r).1
  unfolding upload_media
  upload_media-SendsAll [] r done = record { all_sent = tt; all_kept = λ x c. c }
  upload_media-SendsAll (u ∷ us) r done =
      continue-SendsAll u us r _ _ (upload_one-Sends u r) (upload_media-SendsAll us _) done

-- Once a list of media files has been sent, sending it again succeeds without a request.
pub upload_media_again :
    (env : Env) (us : List Upload) (r : Runner)
    → (upload_media env us r).0 ≡ ok tt
    → upload_media env us (upload_media env us r).1 ≡ (ok tt, (upload_media env us r).1)
upload_media_again env us r done =
    upload_media-IsSent env us _ (upload_media-SendsAll env us r done).all_sent
