-- ===== src/Anki/Protocol.antt =====
-- internal/anki/protocol/protocol.go: the request and the response of one synchronisation run, as
-- decoded values. A diagnostic's message, text for people only, is left out.
use imoogi_emacs.Prelude.{ℕ, Text, Bool, Option, List, ◌&&◌, ◌||◌, leb, ◌==◌, length, any, not}

pub data Action : Type 0 where
  added updated skipped deleted failed migrate_candidate : Action

-- The codes that a run of the planner can report.
pub data Code : Type 0 where
  ankiconnect_error org_parse_error cloze_marker_missing deck_create_failed : Code
  deck_move_failed note_type_change_unsupported note_field_missing note_id_duplicated : Code
  delete_suppressed delete_candidate_unowned media_file_not_found media_upload_failed : Code
  migration_add_failed card_option_invalid card_option_conflict card_option_needs_cloze : Code
  multiline_answer_missing extra_block_unbalanced swift_arrow_missing org_id_invalid : Code

pub record Result : Type 0 where
  pub key : Option Text
  pub action : Action
  pub note_id : Option ℕ

pub record Error : Type 0 where
  pub code : Code
  pub key : Option Text

pub record CensusEntry : Type 0 where
  pub note_id : ℕ
  pub source_path : Text

pub record Entry : Type 0 where
  pub key : Text
  pub note_id : Option ℕ
  pub note_type : Text
  pub source_path : Text
  pub deck : Option Text
  pub tags : List Text
  pub title : Text
  pub body : Text
  pub direction : Option Text
  pub incremental : Option Text
  pub swift : Option Text
  pub org_id : Text

pub record Config : Type 0 where
  pub default_deck : Text
  pub anki_connect_url : Text
  pub registry_path : Text
  pub sync_root : Text
  pub exclude_patterns : List Text
  pub scan_complete : Bool

pub record Request : Type 0 where
  pub protocol_version : ℕ
  pub config : Config
  pub census : List CensusEntry
  pub entries : List Entry

-- [A-Za-z0-9._:@-]
abbrev org_id_byte : ℕ → Bool
org_id_byte c =
    (leb b'A' c && leb c b'Z')
    || (leb b'a' c && leb c b'z')
    || (leb b'0' c && leb c b'9')
    || c == b'.'
    || c == b'_'
    || c == b':'
    || c == b'@'
    || c == b'-'

-- The pattern ^[A-Za-z0-9._:@-]{1,128}$.
unfoldable pub valid_org_id : Text → Bool
valid_org_id id =
    leb 1 (length id) && leb (length id) 128 && not (any (λ c. not (org_id_byte c)) id)
