-- ===== src/Clipboard/Tests.antt =====
-- Requests about small transactions, and the theorems at concrete inputs.
use imoogi_emacs.Prelude.{
  Text, text, equal, true, false, ◌≡◌, ◌≢◌, refl, ap, none, some, List, [], ◌∷◌,
}
use imoogi_emacs.Prelude.Dict.{lookup}
use imoogi_emacs.Clipboard.Protocol.{
  TransactionState, document_saved, committed, needs_reconciliation, standalone, Manifest, Request,
}
use imoogi_emacs.Clipboard.Disk.{Disk, World, removal, written, compensate, write_manifest}
use imoogi_emacs.Clipboard.Staging.{transition, allowed_transition}
use imoogi_emacs.Clipboard.Verify.{verify_prepared, verify_assets, has_substring}
use imoogi_emacs.Clipboard.Transaction.{
  Env, published, response_from, transaction_directory, transaction_dir, safe_component,
  with_transaction,
}
use imoogi_emacs.Clipboard.Service.{
  operation_commit, operation_abort, operation_reconcile, handle, commit, reconcile,
}
use imoogi_emacs.Clipboard.Service.Frame.{addressed, handle-other}
use imoogi_emacs.Clipboard.Service.Final.{start, after, Reaches-final}
use imoogi_emacs.Clipboard.Service.Earned.{Earned, handle-Earned}
use imoogi_emacs.Clipboard.Service.Token.{Refused, handle-Refused}
use imoogi_emacs.Clipboard.Transaction.Paths.{IsComponent, safe_component-IsComponent}

-- a disk on which everything works and every file holds "a.png"
abbrev working : Disk
working = record {
  remove = λ l p. true;
  store = λ l d. true;
  read = λ l p. some (text "a.png");
  now = λ l. 5;
}

abbrev env : Env
env = record {
  disk = working;
  sha256_hex = λ t. t;
  base = text "/tmp/clip";
  print = λ n. text "1";
  resolve_owner = λ l o. none;
  publish = λ l paths place. published [] [];
}

abbrev manifest : TransactionState → List Text → Manifest
manifest state orphans = record {
  transaction_id = text "id";
  transaction_token = text "token";
  identity = record { session = text "s"; buffer = text "b"; generation = 1 };
  owner = record {
    kind = standalone;
    document = text "/n.org";
    root = text "/n.assets";
    session = [];
    buffer = [];
    generation = 0;
  };
  state = state;
  assets =
      record {
        id = text "1";
        path = text "/n.assets/a.png";
        relative_path = text "a.png";
        sha256 = text "a.png";
        size = 5;
      }
      ∷ [];
  rewrite = [];
  created_files = text "/n.assets/a.png" ∷ [];
  staging_files = text "/stage" ∷ [];
  orphans = orphans;
  updated_at = 1;
}

abbrev directory : Text
directory = text "/tmp/clip/sessions/s/b/1/transactions/id"

abbrev holding : Manifest → World
holding m = record { manifests = (directory, m) ∷ []; log = [] }

abbrev asking : Text → Request
asking token = record {
  identity = some (record { session = text "s"; buffer = text "b"; generation = 1 });
  transaction_token = token;
  transaction_id = text "id";
  rewrite = none;
  owner = none;
}

own_directory : (token : Text) → transaction_directory env (asking token) ≡ some directory
unfolding transaction_directory transaction_dir safe_component equal
own_directory token = refl

held : (m : Manifest) → lookup directory (holding m).manifests ≡ some m
unfolding lookup equal
held m = refl

abbrev saved : World
saved = holding (manifest document_saved [])

committing :
    (handle env operation_commit (asking (text "token")) saved).0
    ≡ response_from (manifest committed [])
unfolding handle commit with_transaction transaction_directory transaction_dir safe_component equal
    lookup compensate transition allowed_transition write_manifest verify_prepared verify_assets
    has_substring
committing = refl

document_saved-open : document_saved ≢ committed
document_saved-open h = cc

handle-Earned_example :
    Earned env
      (asking (text "token"))
      directory
      (manifest document_saved [])
      saved
      (handle env operation_commit (asking (text "token")) saved).1
handle-Earned_example =
    handle-Earned env operation_commit (asking (text "token")) directory
      (manifest document_saved []) saved (own_directory (text "token"))
      (held (manifest document_saved [])) document_saved-open (ap (λ x. x.code) committing)
      (ap (λ x. x.state) committing)

-- An abort could not remove the final asset. The document refers to it all the same, so that
-- reconciling removes the asset and commits.
reconciling :
    let x =
      handle env operation_reconcile
        (asking (text "token"))
        (holding (manifest needs_reconciliation (text "/n.assets/a.png" ∷ []))) in
    (x.0.state ≡ some committed)
    × (x.1.log ≡ written directory ∷ removal (text "/n.assets/a.png") true ∷ [])
unfolding handle reconcile with_transaction transaction_directory transaction_dir safe_component
    equal lookup compensate transition allowed_transition write_manifest verify_prepared
    verify_assets has_substring
reconciling = (refl, refl)

abbrev done : World
done = holding (manifest committed [])

abbrev insisting : World
insisting =
    (handle env operation_abort (asking (text "token"))
      (handle env operation_reconcile (asking (text "token")) done).1).1

Reaches-final_example : lookup directory insisting.manifests ≡ some (manifest committed [])
Reaches-final_example =
    Reaches-final env directory (manifest committed []) done
      (after operation_abort (asking (text "token"))
        (after operation_reconcile (asking (text "token")) start))
      (held (manifest committed [])) refl

unaddressed : addressed (transaction_directory env (asking (text "token"))) (text "/other") ≡ false
unfolding transaction_directory transaction_dir safe_component equal
unaddressed = refl

handle-other_example :
    lookup (text "/other") (handle env operation_commit (asking (text "token")) saved).1.manifests
    ≡ lookup (text "/other") saved.manifests
handle-other_example =
    handle-other env operation_commit (asking (text "token")) (text "/other") saved unaddressed

wrong_token : equal (text "guess") (text "token") ≡ false
unfolding equal
wrong_token = refl

handle-Refused_example : Refused saved (handle env operation_abort (asking (text "guess")) saved)
handle-Refused_example =
    handle-Refused env operation_abort (asking (text "guess")) directory
      (manifest document_saved []) saved (own_directory (text "guess"))
      (held (manifest document_saved [])) wrong_token

safe_component-IsComponent_example : IsComponent (safe_component (text "a/../b"))
safe_component-IsComponent_example = safe_component-IsComponent (text "a/../b")
