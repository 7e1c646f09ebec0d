-- ===== src/Clipboard/Service/Earned.antt =====
-- internal/clipboard/service.go: what a report of a commit rests on.
use imoogi_emacs.Prelude.{
  Text, true, Option, none, some, some_eq, List, [], ◌∷◌, ◌≡◌, ◌≢◌, refl, ◌∙◌, sym, subst,
}
use mathlib.Core.List.{reverse}
use imoogi_emacs.Prelude.Dict.{lookup}
use imoogi_emacs.Clipboard.Protocol.{
  TransactionState, staged, prepared, document_saved, committed, aborted, needs_reconciliation,
  Manifest, Owner, Request, Response, ErrorCode, failure, transaction_conflict,
}
use imoogi_emacs.Clipboard.Disk.{World, Event, compensate}
use imoogi_emacs.Clipboard.Disk.Cleans.{Tried, compensate-Tried}
use imoogi_emacs.Clipboard.Staging.Writes.{transition-InState}
use imoogi_emacs.Clipboard.Transaction.{
  Env, Body, transaction_directory, with_token, with_directory, with_transaction,
}
use imoogi_emacs.Clipboard.Service.{
  finalize_in, finalize_for, finalize, operation_finalize, verified, to_clean, commit_saved,
  commit_in, commit, abort_open, abort_in, abort, reconcile_in, reconcile, saved_at, record_saved,
  handle, Operation, operation_commit, operation_abort, operation_reconcile,
  operation_document_saved,
}
use imoogi_emacs.Clipboard.Service.Reports.{
  Reports, IsRecorded, commit_cleaned-Reports, reconcile_cleaned-Reports, other-Reports,
  abort_cleaned-Reports, finalize_at-Reports, if-Reports,
}

-- the files that are to be removed before a commit: the staging files, or what an earlier clean-up
-- had left over
pub data IsLeft (m : Manifest) (paths : List Text) : Type 0 where
  all_staged : m.state ≡ document_saved → paths ≡ m.staging_files → IsLeft m paths
  left_before : m.state ≡ needs_reconciliation → m.orphans ≢ [] → paths ≡ m.orphans → IsLeft m paths
  none_before :
      m.state ≡ needs_reconciliation → m.orphans ≡ [] → paths ≡ m.staging_files → IsLeft m paths

-- The files matched the manifest; then the disk was asked to remove these files, from the last to the
-- first, and removed each; then the manifest was written as committed, and nothing else was done.
pub record Earned (env : Env) (req : Request) (d : Text) (m : Manifest) (w v : World) : Type 0 where
  pub verification : verified env req m w ≡ true
  pub paths : List Text
  pub which : IsLeft m paths
  pub log : List Event
  pub cleaned : Tried env.disk w.log (reverse paths) [] log
  pub recorded : IsRecorded d log v

module _ (env : Env) (req : Request) (d : Text) (m : Manifest) (w : World) where
  abbrev Fine : Response × World → Type 0
  Fine = Reports (Earned env req d m w)

  refused-Fine : (x : Response) (v : World) → (x.code ≡ none → ⊥) → Fine (x, v)
  refused-Fine x v h = record { at = λ c s. absurd (h c) }

  -- a response that shows the manifest as it was
  shown-Fine : (x : Response) → x.state ≡ some m.state → (m.state ≡ committed → ⊥) → Fine (x, w)
  shown-Fine x same open_yet = record { at = λ c s. absurd (open_yet (some_eq (sym same ∙ s))) }

  swept :
      (paths : List Text)
      → verified env req m w ≡ true
      → IsLeft m paths
      → (compensate env.disk paths w).0 ≡ []
      → (w' : World) → IsRecorded d (compensate env.disk paths w).1.log w'
      → Earned env req d m w w'
  swept paths v which e w' r = record {
    recorded = r;
    verification = v;
    paths = paths;
    which = which;
    log = (compensate env.disk paths w).1.log;
    cleaned =
        subst (λ l. Tried env.disk w.log (reverse paths) l (compensate env.disk paths w).1.log) e
          (compensate-Tried env.disk paths w);
  }

  commit_in-Fine :
      (s : TransactionState) → m.state ≡ s → (s ≡ committed → ⊥) → Fine (commit_in env req s d m w)
  unfolding commit_in commit_saved
  commit_in-Fine document_saved e h =
      if-Reports _ (verified env req m w) _ _
        (λ v. commit_cleaned-Reports env req d _ _ _ (swept m.staging_files v (all_staged e refl)))
        (refused-Fine _ w (λ c. cc))
  commit_in-Fine committed e h = absurd (h refl)
  commit_in-Fine staged e h = refused-Fine _ w (λ c. cc)
  commit_in-Fine prepared e h = refused-Fine _ w (λ c. cc)
  commit_in-Fine aborted e h = refused-Fine _ w (λ c. cc)
  commit_in-Fine needs_reconciliation e h = refused-Fine _ w (λ c. cc)

  finalize_in-Fine :
      (owner : Owner) (s : TransactionState)
      → (m.state ≡ committed → ⊥)
      → Fine (finalize_in env req owner s d m w)
  unfolding finalize_in
  finalize_in-Fine owner staged h = finalize_at-Reports env req d _ owner m _ w
  finalize_in-Fine owner aborted h = finalize_at-Reports env req d _ owner m _ w
  finalize_in-Fine owner prepared h = shown-Fine _ refl h
  finalize_in-Fine owner document_saved h = shown-Fine _ refl h
  finalize_in-Fine owner needs_reconciliation h = shown-Fine _ refl h
  finalize_in-Fine owner committed h = shown-Fine _ refl h

  abort_in-Fine :
      (s : TransactionState) → (m.state ≡ committed → ⊥) → Fine (abort_in env req s d m w)
  unfolding abort_in abort_open
  abort_in-Fine staged h = abort_cleaned-Reports env req d _ _ _
  abort_in-Fine prepared h = abort_cleaned-Reports env req d _ _ _
  abort_in-Fine needs_reconciliation h = abort_cleaned-Reports env req d _ _ _
  abort_in-Fine aborted h = shown-Fine _ refl h
  abort_in-Fine committed h = refused-Fine _ w (λ c. cc)
  abort_in-Fine document_saved h = refused-Fine _ w (λ c. cc)

  to_clean-IsLeft :
      (l : List Text)
      → m.state ≡ needs_reconciliation
      → l ≡ m.orphans
      → IsLeft m (to_clean env req m l)
  to_clean-IsLeft [] e h = none_before e (sym h) refl
  to_clean-IsLeft (f ∷ fs) e h = left_before e (λ n. some_left (h ∙ n)) h
    where
      some_left : f ∷ fs ≡ [] → ⊥
      some_left p = cc

  reconcile_in-Fine :
      (s : TransactionState)
      → m.state ≡ s
      → (m.state ≡ committed → ⊥)
      → Fine (reconcile_in env req s d m w)
  unfolding reconcile_in
  reconcile_in-Fine needs_reconciliation e h =
      if-Reports _ (verified env req m w) _ _
        (λ v.
          reconcile_cleaned-Reports env req d _ _ _
            (swept (to_clean env req m m.orphans) v (to_clean-IsLeft m.orphans e refl)))
        (refused-Fine _ w (λ c. cc))
  reconcile_in-Fine prepared e h =
      if-Reports _ (verified env req m w) _ _ (λ v. shown-Fine _ refl h)
        (refused-Fine _ w (λ c. cc))
  reconcile_in-Fine document_saved e h =
      if-Reports _ (verified env req m w) _ _ (λ v. shown-Fine _ refl h)
        (refused-Fine _ w (λ c. cc))
  reconcile_in-Fine staged e h = shown-Fine _ refl h
  reconcile_in-Fine committed e h = shown-Fine _ refl h
  reconcile_in-Fine aborted e h = shown-Fine _ refl h

failure-Reports : (P : World → Type 0) (code : ErrorCode) (w : World) → Reports P (failure code, w)
failure-Reports P code w = record { at = λ c s. cc }

with_token-Reports :
    (P : World → Type 0) (req : Request) (body : Body) (d : Text) (m : Manifest) (w : World)
    (o : Option Manifest)
    → o ≡ some m
    → Reports P (body d m w)
    → Reports P (with_token req body d o w)
unfolding with_token
with_token-Reports P req body d m w none h u = cc
with_token-Reports P req body d m w (some x) h u =
    if-Reports P _ _ _ (λ bad. failure-Reports P transaction_conflict w)
      (subst (λ y. Reports P (body d y w)) (sym (some_eq h)) u)

with_directory-Reports :
    (P : World → Type 0) (req : Request) (body : Body) (o : Option Text) (d : Text) (m : Manifest)
    (w : World)
    → o ≡ some d
    → lookup d w.manifests ≡ some m
    → Reports P (body d m w)
    → Reports P (with_directory req body o w)
unfolding with_directory
with_directory-Reports P req body o d m w own found u =
    subst (λ x. Reports P (with_directory req body x w)) (sym own)
      (with_token-Reports P req body d m w (lookup d w.manifests) found u)

saved_at-Reports :
    (P : World → Type 0) (env : Env) (req : Request) (o : Option Text) (w : World)
    → Reports P (saved_at env req o w)
unfolding saved_at
saved_at-Reports P env req none w = record { at = λ c s. cc }
saved_at-Reports P env req (some d) w =
    other-Reports env req d P document_saved _ _ _ (λ m. refl) (λ e. cc)
      (transition-InState env.disk d _ _ _ _ _ w)

finalize_for-Reports :
    (env : Env) (req : Request) (o : Option Owner) (d : Text) (m : Manifest) (w : World)
    → transaction_directory env req ≡ some d
    → lookup d w.manifests ≡ some m
    → m.state ≢ committed
    → Reports (Earned env req d m w) (finalize_for env req o w)
unfolding finalize_for with_transaction
finalize_for-Reports env req none d m w own found open_yet = record { at = λ c s. cc }
finalize_for-Reports env req (some owner) d m w own found open_yet =
    with_directory-Reports (Earned env req d m w) req _ _ d m w own found
      (finalize_in-Fine env req d m w owner m.state open_yet)

-- A transaction that was not committed is reported as committed, with status ok, only if its
-- document was saved or it was to be reconciled, its document and assets were verified in the state
-- it was found in, the disk was then asked to remove its staging files, or instead the files that an
-- earlier clean-up had left over if there were any, and removed each or found it absent, and at last
-- its manifest was written as committed.
pub handle-Earned :
    (env : Env) (op : Operation) (req : Request) (d : Text) (m : Manifest) (w : World)
    → transaction_directory env req ≡ some d
    → lookup d w.manifests ≡ some m
    → m.state ≢ committed
    → (handle env op req w).0.code ≡ none
    → (handle env op req w).0.state ≡ some committed
    → Earned env req d m w (handle env op req w).1
unfolding handle finalize commit abort reconcile record_saved with_transaction
handle-Earned env operation_finalize req d m w own found open_yet =
    (finalize_for-Reports env req req.owner d m w own found open_yet).at
handle-Earned env operation_commit req d m w own found open_yet =
    (with_directory-Reports (Earned env req d m w) req _ _ d m w own found
      (commit_in-Fine env req d m w m.state refl open_yet)).at
handle-Earned env operation_abort req d m w own found open_yet =
    (with_directory-Reports (Earned env req d m w) req _ _ d m w own found
      (abort_in-Fine env req d m w m.state open_yet)).at
handle-Earned env operation_reconcile req d m w own found open_yet =
    (with_directory-Reports (Earned env req d m w) req _ _ d m w own found
      (reconcile_in-Fine env req d m w m.state refl open_yet)).at
handle-Earned env operation_document_saved req d m w own found open_yet =
    (saved_at-Reports (Earned env req d m w) env req (transaction_directory env req) w).at
