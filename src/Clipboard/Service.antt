-- ===== src/Clipboard/Service.antt =====
-- internal/clipboard/service.go: the handlers finalize, document-saved, commit, abort and
-- reconcile.
pub mod Frame
pub mod Final
pub mod Reports
pub mod Earned
pub mod Token
use imoogi_emacs.Prelude.{
  ℕ, Text, text, equal, Bool, true, false, not, ◌||◌, ◌==◌, if◌then◌else◌, Option, none, some, List,
  [], ◌∷◌, ◌++◌, map,
}
use imoogi_emacs.Prelude.Dict.{Dict, lookup, insert}
use imoogi_emacs.Clipboard.Protocol.{
  TransactionState, staged, prepared, document_saved, committed, aborted, needs_reconciliation,
  ErrorCode, invalid_request, transaction_conflict, needs_recovery, owner_rejected, Owner, Asset,
  Identity, is_identity, Manifest, Request, Response, failure,
}
use imoogi_emacs.Clipboard.Disk.{Disk, Event, publishing, World, compensate}
use imoogi_emacs.Clipboard.Staging.{transition, prepare}
use imoogi_emacs.Clipboard.Verify.{verify_prepared}
use imoogi_emacs.Clipboard.Transaction.{
  Env, Place, Published, published, unpublished, safe_component, transaction_dir,
  transaction_directory, response_from, Body, with_token, with_directory, with_transaction,
}

module _ (env : Env) (req : Request) where
  open env use {disk}

  abbrev pub verified : Manifest → World → Bool
  verified m w = verify_prepared env.sha256_hex (disk.read w.log) m

  abbrev or_conflict : (Manifest → Response) → Option Manifest → Response
  or_conflict f none = failure transaction_conflict
  or_conflict f (some m) = f m

  -- a response that names what could not be removed
  abbrev left_over : List Text → Manifest → Response
  left_over orphans m = record (response_from m) { code = some needs_recovery; orphans = orphans }

  -- commit once the staging files have been tried
  pub commit_cleaned : Text → List Text → World → Response × World
  commit_cleaned d [] w =
      let (o, w') = transition disk d req.transaction_token committed none none (some []) w in
      (or_conflict response_from o, w')
  commit_cleaned d (p ∷ ps) w =
      let (o, w') =
        transition disk d req.transaction_token needs_reconciliation none none (some (p ∷ ps)) w in
      (or_conflict (left_over (p ∷ ps)) o, w')

  commit_saved : Body
  unfolding commit_cleaned verify_prepared compensate
  commit_saved d m w =
      if verified m w
      then (let (orphans, w') = compensate disk m.staging_files w in commit_cleaned d orphans w')
      else (failure needs_recovery, w)

  commit_in : TransactionState → Body
  unfolding commit_saved
  commit_in committed d m w = (response_from m, w)
  commit_in document_saved d m w = commit_saved d m w
  commit_in needs_reconciliation d m w = (failure needs_recovery, w)
  commit_in _ d m w = (failure transaction_conflict, w)

  -- commit
  unfoldable pub commit : World → Response × World
  unfolding commit_in
  commit = with_transaction env req (λ d m. commit_in m.state d m)

  -- a nil slice where nothing is left over
  abbrev nil_or : List Text → Option (List Text)
  nil_or [] = none
  nil_or (p ∷ ps) = some (p ∷ ps)

  abbrev abort_state : List Text → TransactionState
  abort_state [] = aborted
  abort_state (p ∷ ps) = needs_reconciliation

  abbrev abort_response : List Text → Manifest → Response
  abort_response [] m = response_from m
  abort_response (p ∷ ps) m = left_over (p ∷ ps) m

  -- abort once the files have been tried
  pub abort_cleaned : Text → List Text → World → Response × World
  abort_cleaned d left w =
      let (o, w') =
        transition disk d req.transaction_token (abort_state left) none none (nil_or left) w in
      (or_conflict (abort_response left) o, w')

  abort_open : Body
  unfolding abort_cleaned compensate
  abort_open d m w =
      let (left, w') = compensate disk (m.created_files ++ m.staging_files) w in
      abort_cleaned d left w'

  abort_in : TransactionState → Body
  unfolding abort_open
  abort_in aborted d m w = (response_from m, w)
  abort_in staged d m w = abort_open d m w
  abort_in prepared d m w = abort_open d m w
  abort_in needs_reconciliation d m w = abort_open d m w
  abort_in _ d m w = (failure transaction_conflict, w)

  -- abort
  unfoldable pub abort : World → Response × World
  unfolding abort_in
  abort = with_transaction env req (λ d m. abort_in m.state d m)

  -- the response of reconcile at its end
  abbrev pub reconciled : Manifest → Response
  reconciled m = record (response_from m) { orphans = m.orphans }

  -- a failure that shows the transaction
  abbrev unresolved : List Text → Manifest → Response
  unresolved orphans m = record (failure needs_recovery) {
    state = some m.state;
    transaction_id = m.transaction_id;
    transaction_token = m.transaction_token;
    orphans = orphans;
  }

  -- the zero manifest, which a failed Transition returns beside its error
  abbrev unresolved_or_zero : List Text → Option Manifest → Response
  unresolved_or_zero orphans none = record (failure needs_recovery) { orphans = orphans }
  unresolved_or_zero orphans (some m) = unresolved orphans m

  pub reconcile_cleaned : Text → List Text → World → Response × World
  reconcile_cleaned d [] w =
      let (o, w') = transition disk d req.transaction_token committed none none (some []) w in
      (or_conflict reconciled o, w')
  reconcile_cleaned d (p ∷ ps) w =
      let (o, w') =
        transition disk d req.transaction_token needs_reconciliation none none (some (p ∷ ps)) w in
      (unresolved_or_zero (p ∷ ps) o, w')

  abbrev to_clean : Manifest → List Text → List Text
  to_clean m [] = m.staging_files
  to_clean m (p ∷ ps) = p ∷ ps

  reconcile_in : TransactionState → Body
  unfolding reconcile_cleaned verify_prepared compensate
  reconcile_in needs_reconciliation d m w =
      if verified m w
      then (let (orphans, w') = compensate disk (to_clean m m.orphans) w in
          reconcile_cleaned d orphans w')
      else (unresolved m.orphans m, w)
  reconcile_in prepared d m w =
      if verified m w then (reconciled m, w) else (unresolved m.orphans m, w)
  reconcile_in document_saved d m w =
      if verified m w then (reconciled m, w) else (unresolved m.orphans m, w)
  reconcile_in _ d m w = (reconciled m, w)

  -- reconcile
  unfoldable pub reconcile : World → Response × World
  unfolding reconcile_in
  reconcile = with_transaction env req (λ d m. reconcile_in m.state d m)

  saved_at : Option Text → World → Response × World
  saved_at none w = (failure invalid_request, w)
  saved_at (some d) w =
      let (o, w') =
        transition disk d req.transaction_token document_saved req.rewrite none none w in
      (or_conflict (λ m. record (response_from m) { assets = [] }) o, w')

  -- transition to the state of a saved document
  unfoldable pub record_saved : World → Response × World
  unfolding saved_at
  record_saved = saved_at (transaction_directory env req)

-- the identifiers of the assets that were staged, one for each asset in order
copy_ids : List Asset → List Asset → List Asset
copy_ids (a ∷ assets) (b ∷ olds) = record a { id = b.id } ∷ copy_ids assets olds
copy_ids assets _ = assets

rewrite_of : Dict Text → List Asset → Dict Text
rewrite_of rewrite [] = rewrite
rewrite_of rewrite (a ∷ assets) =
    rewrite_of (insert (text "imoogi-asset:" ++ a.id) a.path rewrite) assets

module _ (env : Env) (req : Request) where
  open env use {disk}

  -- what could not be removed is recorded in the manifest if it may be
  pub finalize_cleaned : Text → List Text → List Text → World → Response × World
  finalize_cleaned d created [] w = (failure needs_recovery, w)
  finalize_cleaned d created (p ∷ ps) w =
      let (o, w') =
        transition disk d req.transaction_token needs_reconciliation none (some created)
          (some (p ∷ ps)) w in
      (failure needs_recovery, w')

  pub finalize_prepared : Text → List Text → Option Manifest → World → Response × World
  unfolding finalize_cleaned compensate
  finalize_prepared d created (some m) w = (response_from m, w)
  finalize_prepared d created none w =
      let (left, w') = compensate disk created w in finalize_cleaned d created left w'

  pub finalize_published : Owner → Text → Manifest → Published → World → Response × World
  unfolding finalize_prepared prepare copy_ids rewrite_of
  finalize_published owner d m (unpublished code) w = (failure code, w)
  finalize_published owner d m (published assets created) w =
      let named = copy_ids assets m.assets in
      let (o, w') =
        prepare disk d req.transaction_token owner named (rewrite_of [] named) created w in
      finalize_prepared d created o w'

  pub finalize_at : Owner → Text → Manifest → Option Place → World → Response × World
  unfolding finalize_published
  finalize_at owner d m none w = (failure owner_rejected, w)
  finalize_at owner d m (some place) w =
      let paths = map (λ a. a.path) m.assets in
      finalize_published owner d m (env.publish w.log paths place)
        (record w { log = publishing paths place.asset_root ∷ w.log })

  finalize_in : Owner → TransactionState → Body
  unfolding finalize_at
  finalize_in owner prepared d m w = (response_from m, w)
  finalize_in owner document_saved d m w = (response_from m, w)
  finalize_in owner needs_reconciliation d m w = (response_from m, w)
  finalize_in owner committed d m w = (response_from m, w)
  finalize_in owner _ d m w = finalize_at owner d m (env.resolve_owner w.log owner) w

  finalize_for : Option Owner → World → Response × World
  unfolding finalize_in with_transaction
  finalize_for none w = (failure invalid_request, w)
  finalize_for (some owner) w = with_transaction env req (λ d m. finalize_in owner m.state d m) w

  -- finalize
  unfoldable pub finalize : World → Response × World
  unfolding finalize_for
  finalize = finalize_for req.owner

pub data Operation : Type 0 where
  operation_finalize operation_document_saved : Operation
  operation_commit operation_abort operation_reconcile : Operation

-- Handle, on the operations on a transaction that was staged
unfoldable pub handle : Env → Operation → Request → World → Response × World
unfolding finalize commit abort reconcile record_saved
handle env operation_finalize req = finalize env req
handle env operation_commit req = commit env req
handle env operation_abort req = abort env req
handle env operation_reconcile req = reconcile env req
handle env operation_document_saved req = record_saved env req
