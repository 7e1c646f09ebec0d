-- ===== src/Anki/Planner/Steps/Calls.antt =====
-- planner/planner.go: each request as a step of an entry.
use imoogi_emacs.Prelude.{ℕ, Text, Option, none, ap, some, List, [], ◌∷◌, ◌≡◌, refl}
use imoogi_emacs.Prelude.Dict.{Dict}
use imoogi_emacs.Anki.Protocol.{Entry, Code}
use imoogi_emacs.Anki.Client.{Call, NoteInfo}
use imoogi_emacs.Anki.Planner.Runner.{
  Env, ask, deck_names, create_deck, model_field_names, update_note_fields, update_note_tags,
  change_deck, notes_info, note_info, store_media_file, Runner, ok, err, only,
}
use imoogi_emacs.Anki.Planner.Steps.{
  here, after, asks, Walks, Walks-ask, WalksOnce, IsReported, deck_for, now,
}

module _ (env : Env) (e : Entry) (code : Code) where
  pub deck_names-Walks : Walks env e (deck_names env code)
  unfolding deck_names
  deck_names-Walks = Walks-ask env e code _ _ λ h. tt

  pub create_deck-Walks :
      (deck : Text) → deck ≡ deck_for env e → Walks env e (create_deck env code deck)
  unfolding create_deck
  create_deck-Walks deck own = Walks-ask env e code _ _ λ h. own

  pub model_field_names-Walks : (m : Text) → Walks env e (model_field_names env code m)
  unfolding model_field_names
  model_field_names-Walks m = Walks-ask env e code _ _ λ h. tt

  pub store_media_file-Walks :
      (name path : Text) → Walks env e (store_media_file env code name path)
  unfolding store_media_file
  store_media_file-Walks name path = Walks-ask env e code _ _ λ h. tt

  module _ (id : ℕ) (own : e.note_id ≡ some id) where
    pub update_note_fields-Walks :
        (fields : Dict Text) → Walks env e (update_note_fields env code id fields)
    unfolding update_note_fields
    update_note_fields-Walks fields = Walks-ask env e code _ _ λ h. own

    pub update_note_tags-Walks : Walks env e (update_note_tags env code id e.tags)
    unfolding update_note_tags
    update_note_tags-Walks = Walks-ask env e code _ _ λ h. (own, refl)

    pub notes_info-Walks : Walks env e (notes_info env code (id ∷ []))
    unfolding notes_info ask
    notes_info-Walks = record {
      at = λ r. after here (asks (Call.notes_info (id ∷ [])) (id, own, refl) refl);
    }

    pub note_info-Walks : Walks env e (note_info env code id)
    unfolding note_info
    note_info-Walks = record { at = notes_info-Walks.at }

    pub change_deck-WalksOnce :
        (cards : List ℕ) (deck : Text)
        → deck ≡ deck_for env e
        → WalksOnce env e id cards (change_deck env code cards deck)
    unfolding change_deck ask
    change_deck-WalksOnce cards deck to_own = record {
      at = λ r q. after here (asks (Call.change_deck cards deck) (id, own, q, to_own) refl);
    }

  only-answer :
      (o : Option (List NoteInfo)) (info : NoteInfo)
      → only env code (elim o [ none ↦ err code | some a ↦ ok a ]) ≡ ok info
      → (others : List NoteInfo) × (o ≡ some (info ∷ others))
  only-answer none info h = cc
  only-answer (some []) info h = cc
  only-answer (some (i ∷ others)) info h = (others, ap (λ x. some (x ∷ others)) (same_info h))
    where
      same_info : {x y : NoteInfo} → ok x ≡ ok y → x ≡ y
      same_info p = cc

  -- the cards of the information that was found were reported
  pub note_info-IsReported :
      (id : ℕ) (r : Runner) (info : NoteInfo)
      → (note_info env code id r).0 ≡ ok info
      → IsReported env (note_info env code id r).1.history id info.cards
  unfolding note_info notes_info ask
  note_info-IsReported id r info h =
      let (others, answer) = only-answer _ info h in
      record {
        before = r.history;
        info = info;
        others = others;
        asked = now;
        answer = answer;
        same_cards = refl;
      }
