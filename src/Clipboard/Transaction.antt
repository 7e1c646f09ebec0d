-- ===== src/Clipboard/Transaction.antt =====
-- internal/clipboard/service.go and owner.go: the directory of a transaction, and the checks that the
-- handlers begin with.
pub mod Paths
use imoogi_emacs.Prelude.{
  ℕ, Text, text, equal, Bool, true, false, not, ◌||◌, ◌==◌, if◌then◌else◌, Option, none, some, List,
  [], ◌∷◌, ◌++◌, map,
}
use imoogi_emacs.Prelude.Dict.{Dict, lookup, insert}
use imoogi_emacs.Clipboard.Protocol.{
  TransactionState, staged, prepared, document_saved, committed, aborted, needs_reconciliation,
  ErrorCode, invalid_request, transaction_conflict, needs_recovery, owner_rejected, Owner, Asset,
  Identity, is_identity, Manifest, Request, Response, failure,
}
use imoogi_emacs.Clipboard.Disk.{Disk, Event, publishing, World, compensate}
use imoogi_emacs.Clipboard.Staging.{transition, prepare}
use imoogi_emacs.Clipboard.Verify.{verify_prepared}

-- safeComponent
abbrev safe_byte : ℕ → ℕ
safe_byte c = if c == b'/' || c == 92 || c == 0 then b'-' else c

abbrev safe_name : Text → Text
safe_name v = if equal v [] || equal v (text ".") || equal v (text "..") then text "invalid" else v

unfoldable pub safe_component : Text → Text
safe_component value = safe_name (map safe_byte value)

-- ResolvedOwner
pub record Place : Type 0 where
  pub asset_root : Text
  pub containment_root : Text

-- what Publisher.Publish returns: the assets and the files that it created, or a classified error
pub data Published : Type 0 where
  published : List Asset → List Text → Published
  unpublished : ErrorCode → Published

-- What the handlers are given: the disk, SHA-256 in hexadecimal, the base directory of the staging
-- area, fmt.Sprint of a generation, ResolveOwner, which follows symbolic links, and Publish, which
-- copies files.
pub record Env : Type 0 where
  pub disk : Disk
  pub sha256_hex : Text → Text
  pub base : Text
  pub print : ℕ → Text
  pub resolve_owner : List Event → Owner → Option Place
  pub publish : List Event → List Text → Place → Published

-- Store.transactionDir; the components are joined by slashes
unfoldable pub transaction_dir : Env → Identity → Text → Text
unfolding safe_component
transaction_dir env i id =
    env.base
    ++ (text "/sessions/"
        ++ (safe_component i.session
            ++ (text "/"
                ++ (safe_component i.buffer
                    ++ (text "/" ++ (env.print i.generation ++ (text "/transactions/" ++ id)))))))

directory_of : Env → Text → Option Identity → Option Text
unfolding transaction_dir safe_component
directory_of env id none = none
directory_of env id (some i) =
    if equal id [] || not (is_identity i)
    then none
    else some (transaction_dir env i (safe_component id))

-- transactionDirectory
unfoldable pub transaction_directory : Env → Request → Option Text
unfolding directory_of
transaction_directory env req = directory_of env req.transaction_id req.identity

-- responseFromManifest
abbrev pub response_from : Manifest → Response
response_from m = record {
  code = none;
  state = some m.state;
  transaction_id = m.transaction_id;
  transaction_token = m.transaction_token;
  assets = m.assets;
  orphans = [];
}

-- what a handler goes on with once the transaction is found
abbrev pub Body : Type 0
Body = Text → Manifest → World → Response × World

module _ (req : Request) (body : Body) where
  unfoldable pub with_token : Text → Option Manifest → World → Response × World
  with_token d none w = (failure transaction_conflict, w)
  with_token d (some m) w =
      if equal req.transaction_token [] || not (equal req.transaction_token m.transaction_token)
      then (failure transaction_conflict, w)
      else body d m w

  unfoldable pub with_directory : Option Text → World → Response × World
  unfolding with_token
  with_directory none w = (failure invalid_request, w)
  with_directory (some d) w = with_token d (lookup d w.manifests) w

-- the checks that commit, abort and reconcile begin with
unfoldable pub with_transaction : Env → Request → Body → World → Response × World
unfolding with_directory
with_transaction env req body w = with_directory req body (transaction_directory env req) w
