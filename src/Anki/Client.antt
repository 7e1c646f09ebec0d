-- ===== src/Anki/Client.antt =====
-- internal/anki/ankiconnect/client.go, as the planner uses it: the requests, the answers, and the
-- reading of a notesInfo answer. The add-on at the other end is the parameter `Peer`: what it
-- answers may depend on all that it has been asked before. `none` and `false` are an error of any
-- tier. The context, the transport and the JSON codec are not modelled.
use imoogi_emacs.Prelude.{
  ℕ, Text, Bool, true, false, not, ◌||◌, ◌==◌, Option, none, some, List, [], ◌∷◌,
}
use imoogi_emacs.Prelude.Dict.{Dict}

pub data Call : Type 0 where
  deck_names : Call
  create_deck : Text → Call
  model_field_names : Text → Call
  add_note : Text → Text → Dict Text → List Text → Call
  update_note_fields : ℕ → Dict Text → Call
  update_note_tags : ℕ → List Text → Call
  notes_info : List ℕ → Call
  change_deck : List ℕ → Text → Call
  delete_notes : List ℕ → Call
  store_media_file : Text → Text → Call

-- the requests issued so far, the latest first
abbrev pub History : Type 0
History = List Call

-- one element of a notesInfo answer; all of it is zero for a note that does not exist
pub record RawNoteInfo : Type 0 where
  pub note_id : ℕ
  pub model_name : Text
  pub tags : List Text
  pub fields : Dict Text
  pub cards : List ℕ

pub record NoteInfo : Type 0 where
  pub note_id : ℕ
  pub exists : Bool
  pub model_name : Text
  pub fields : Dict Text
  pub tags : List Text
  pub cards : List ℕ

pub record Peer : Type 0 where
  pub deck_names : History → Option (List Text)
  pub create_deck : History → Text → Bool
  pub model_field_names : History → Text → Option (List Text)
  pub add_note : History → Text → Text → Dict Text → List Text → Option ℕ
  pub update_note_fields : History → ℕ → Dict Text → Bool
  pub update_note_tags : History → ℕ → List Text → Bool
  pub notes_info : History → List ℕ → Option (List RawNoteInfo)
  pub change_deck : History → List ℕ → Text → Bool
  pub delete_notes : History → List ℕ → Bool
  pub store_media_file : History → Text → Text → Bool

abbrev is_empty {ℓ} : {A : Type ℓ} → List A → Bool
is_empty [] = true
is_empty (x ∷ xs) = false

abbrev read_info : ℕ → RawNoteInfo → NoteInfo
read_info id r = record {
  note_id = id;
  exists = not (is_empty r.model_name) || not (is_empty r.fields) || not (r.note_id == 0);
  model_name = r.model_name;
  fields = r.fields;
  tags = r.tags;
  cards = r.cards;
}

-- one result for each identifier asked for, in order; an error where the counts differ
unfoldable pub read_infos : List ℕ → List RawNoteInfo → Option (List NoteInfo)
read_infos [] [] = some []
read_infos (id ∷ ids) (r ∷ rs) = elim (read_infos ids rs) [
  | none ↦ none
  | some infos ↦ some (read_info id r ∷ infos)
]
read_infos _ _ = none
