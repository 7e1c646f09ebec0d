-- ===== src/Clipboard/Protocol.antt =====
-- internal/clipboard/protocol.go: the values of the transactions. Of a request and a response only
-- the parts that the transactions use are kept; messages are left out.
use imoogi_emacs.Prelude.{ℕ, Text, equal, Bool, not, ◌&&◌, ◌==◌, Option, none, some, List, []}
use imoogi_emacs.Prelude.Dict.{Dict}

pub data TransactionState : Type 0 where
  staged prepared document_saved committed aborted needs_reconciliation : TransactionState

pub data ErrorCode : Type 0 where
  invalid_request unsupported_version unsupported_capability clipboard_changed : ErrorCode
  directory_rejected non_regular_rejected owner_rejected path_escape limit_exceeded : ErrorCode
  transaction_conflict needs_recovery internal : ErrorCode

pub data OwnerKind : Type 0 where
  project_notes standalone staging : OwnerKind

pub record Identity : Type 0 where
  pub session : Text
  pub buffer : Text
  pub generation : ℕ

-- Identity.Validate
abbrev pub is_identity : Identity → Bool
is_identity i = not (equal i.session []) && not (equal i.buffer []) && not (i.generation == 0)

pub record Owner : Type 0 where
  pub kind : OwnerKind
  pub document : Text
  pub root : Text
  pub session : Text
  pub buffer : Text
  pub generation : ℕ

pub record Asset : Type 0 where
  pub id : Text
  pub path : Text
  pub relative_path : Text
  pub sha256 : Text
  pub size : ℕ

pub record Manifest : Type 0 where
  pub transaction_id : Text
  pub transaction_token : Text
  pub identity : Identity
  pub owner : Owner
  pub state : TransactionState
  pub assets : List Asset
  pub rewrite : Dict Text
  pub created_files : List Text
  pub staging_files : List Text
  pub orphans : List Text
  pub updated_at : ℕ

pub record Request : Type 0 where
  pub identity : Option Identity
  pub transaction_token : Text
  pub transaction_id : Text
  pub rewrite : Option (Dict Text)
  pub owner : Option Owner

-- `code` is none where the status is ok
pub record Response : Type 0 where
  pub code : Option ErrorCode
  pub state : Option TransactionState
  pub transaction_id : Text
  pub transaction_token : Text
  pub assets : List Asset
  pub orphans : List Text

-- Failure
abbrev pub failure : ErrorCode → Response
failure code = record {
  code = some code;
  state = none;
  transaction_id = [];
  transaction_token = [];
  assets = [];
  orphans = [];
}
