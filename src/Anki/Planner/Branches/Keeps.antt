-- ===== src/Anki/Planner/Branches/Keeps.antt =====
-- planner/planner.go: ensureDeck and uploadMedia, and the registry.
use imoogi_emacs.Prelude.{Text, contains, Bool-cases, inl, inr, List, [], ◌∷◌, ◌≡◌, refl, ◌∙◌}
use imoogi_emacs.Anki.Planner.Runner.{
  Env, Runner, Upload, Outcome, ok, err, ask, deck_names, create_deck, store_media_file,
}
use imoogi_emacs.Anki.Planner.Branches.{
  load_decks, note_deck, create_unknown, ensure_deck, note_upload, upload_one, upload_media,
}

module _ (env : Env) where
  load_decks-reg : (r : Runner) → (load_decks env r).reg ≡ r.reg
  unfolding load_decks deck_names ask
  load_decks-reg r = elim (Bool-cases r.decks_loaded) [
    | inl known ↦ simp known
    | inr new ↦ simp new
  ]

  note_deck-reg :
      (deck : Text) (o : Outcome (Unit {0})) (r : Runner) → (note_deck deck o r).1.reg ≡ r.reg
  unfolding note_deck
  note_deck-reg deck (ok u) r = refl
  note_deck-reg deck (err c) r = refl

  create_unknown-reg : (deck : Text) (r : Runner) → (create_unknown env deck r).1.reg ≡ r.reg
  unfolding create_unknown create_deck ask
  create_unknown-reg deck r = elim (Bool-cases (contains deck r.known_decks)) [
    | inl known ↦ simp known
    | inr new ↦ simp new (note_deck-reg deck _ _)
  ]

  pub ensure_deck-reg : (deck : Text) (r : Runner) → (ensure_deck env deck r).1.reg ≡ r.reg
  unfolding ensure_deck
  ensure_deck-reg deck r = create_unknown-reg deck (load_decks env r) ∙ load_decks-reg r

  note_upload-reg :
      (name : Text) (o : Outcome (Unit {0})) (r : Runner) → (note_upload name o r).1.reg ≡ r.reg
  unfolding note_upload
  note_upload-reg name (ok u) r = refl
  note_upload-reg name (err c) r = refl

  upload_one-reg : (u : Upload) (r : Runner) → (upload_one env u r).1.reg ≡ r.reg
  unfolding upload_one store_media_file ask
  upload_one-reg u r = elim (Bool-cases (contains u.filename r.uploaded)) [
    | inl sent ↦ simp sent
    | inr new ↦ simp new (note_upload-reg u.filename _ _)
  ]

  pub upload_media-reg : (us : List Upload) (r : Runner) → (upload_media env us r).1.reg ≡ r.reg
  unfolding upload_media
  upload_media-reg [] r = refl
  upload_media-reg (u ∷ us) r =
      rest (upload_one env u r).0 _ (upload_media-reg us _) ∙ upload_one-reg u r
    where
      rest :
          (o : Outcome (Unit {0})) (s : Runner)
          → (upload_media env us s).1.reg ≡ s.reg
          → (elim o as (λ _. Outcome (Unit {0}) × Runner) [
            | ok _ ↦ upload_media env us s
            | err c ↦ (err c, s)
          ]).1.reg
            ≡ s.reg
      rest (ok v) s same = same
      rest (err c) s same = refl
