-- ===== src/Clipboard/Staging.antt =====
-- internal/clipboard/staging.go: Load, Transition and Prepare of the store.
pub mod Writes
use imoogi_emacs.Prelude.{
  ℕ, Text, equal, Bool, true, false, not, ◌||◌, ◌&&◌, if◌then◌else◌, Option, none, some, List, [],
  ◌∷◌,
}
use imoogi_emacs.Prelude.Dict.{Dict, lookup}
use imoogi_emacs.Clipboard.Protocol.{
  TransactionState, staged, prepared, document_saved, committed, aborted, needs_reconciliation,
  Owner, Asset, Manifest,
}
use imoogi_emacs.Clipboard.Disk.{Disk, World, write_manifest}

-- allowedTransition
unfoldable pub allowed_transition : TransactionState → TransactionState → Bool
allowed_transition staged staged = true
allowed_transition staged prepared = true
allowed_transition staged aborted = true
allowed_transition staged needs_reconciliation = true
allowed_transition prepared prepared = true
allowed_transition prepared document_saved = true
allowed_transition prepared aborted = true
allowed_transition prepared needs_reconciliation = true
allowed_transition document_saved document_saved = true
allowed_transition document_saved committed = true
allowed_transition document_saved needs_reconciliation = true
allowed_transition needs_reconciliation needs_reconciliation = true
allowed_transition needs_reconciliation aborted = true
allowed_transition needs_reconciliation committed = true
allowed_transition committed committed = true
allowed_transition aborted aborted = true
allowed_transition _ _ = false

-- a field that is replaced unless the argument is nil
abbrev or_else {ℓ} : {A : Type ℓ} → Option A → A → A
or_else none old = old
or_else (some new) old = new

written_manifest : Manifest → Bool × World → Option Manifest × World
written_manifest m (true, w) = (some m, w)
written_manifest m (false, w) = (none, w)

module _ (disk : Disk) (directory token : Text) where
  -- the checks that Transition and Prepare make of a loaded manifest
  abbrev pub may_move : Manifest → TransactionState → Bool
  may_move m next =
      not (equal token [] || not (equal token m.transaction_token))
      && allowed_transition m.state next

  move :
      TransactionState
      → Option (Dict Text)
      → Option (List Text)
      → Option (List Text)
      → Option Manifest
      → World
      → Option Manifest × World
  unfolding write_manifest written_manifest allowed_transition
  move next rewrite created orphans none w = (none, w)
  move next rewrite created orphans (some m) w =
      if may_move m next
      then (let moved = record m {
        state = next;
        rewrite = or_else rewrite m.rewrite;
        created_files = or_else created m.created_files;
        orphans = or_else orphans m.orphans;
        updated_at = disk.now w.log;
      } in
          written_manifest moved (write_manifest disk directory moved w))
      else (none, w)

  -- Transition; none is an error
  unfoldable pub transition :
      TransactionState
      → Option (Dict Text)
      → Option (List Text)
      → Option (List Text)
      → World
      → Option Manifest × World
  unfolding move
  transition next rewrite created orphans w =
      move next rewrite created orphans (lookup directory w.manifests) w

  prepare_move :
      Owner → List Asset → Dict Text → List Text → Option Manifest → World → Option Manifest × World
  unfolding write_manifest written_manifest allowed_transition
  prepare_move owner assets rewrite created none w = (none, w)
  prepare_move owner assets rewrite created (some m) w =
      if may_move m prepared
      then (let moved = record m {
        owner = owner;
        assets = assets;
        rewrite = rewrite;
        created_files = created;
        state = prepared;
        updated_at = disk.now w.log;
      } in
          written_manifest moved (write_manifest disk directory moved w))
      else (none, w)

  -- Prepare; none is an error
  unfoldable pub prepare :
      Owner → List Asset → Dict Text → List Text → World → Option Manifest × World
  unfolding prepare_move
  prepare owner assets rewrite created w =
      prepare_move owner assets rewrite created (lookup directory w.manifests) w
