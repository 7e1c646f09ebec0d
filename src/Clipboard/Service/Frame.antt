-- ===== src/Clipboard/Service/Frame.antt =====
-- internal/clipboard/service.go: the transactions that a request does not address.
use imoogi_emacs.Prelude.{
  Text, equal, Bool, false, not, ◌||◌, Bool-cases, inl, inr, if◌then◌else◌, Option, none, some,
  List, [], ◌∷◌, ◌++◌, ◌≡◌, refl, ap, ◌∙◌,
}
use imoogi_emacs.Prelude.Dict.{lookup}
use imoogi_emacs.Clipboard.Protocol.{
  TransactionState, staged, prepared, document_saved, committed, aborted, needs_reconciliation,
  Manifest, Owner, Request, Response, failure, transaction_conflict,
}
use imoogi_emacs.Clipboard.Disk.{World, compensate}
use imoogi_emacs.Clipboard.Disk.Cleans.{compensate-manifests}
use imoogi_emacs.Clipboard.Staging.Writes.{transition-other, prepare-other}
use imoogi_emacs.Clipboard.Transaction.{
  Env, Body, Place, Published, published, unpublished, transaction_directory, with_token,
  with_directory, with_transaction,
}
use imoogi_emacs.Clipboard.Service.{
  finalize_cleaned, finalize_prepared, finalize_published, finalize_at, finalize_in, finalize_for,
  finalize, operation_finalize, verified, to_clean, commit_cleaned, commit_saved, commit_in, commit,
  abort_cleaned, abort_open, abort_in, abort, reconcile_cleaned, reconcile_in, reconcile, saved_at,
  record_saved, handle, Operation, operation_commit, operation_abort, operation_reconcile,
  operation_document_saved,
}

-- `f` writes no manifest but that of `d`
pub record Frames (d : Text) (f : World → Response × World) : Type 0 where
  pub at :
      (k : Text) (w : World) → equal d k ≡ false → lookup k (f w).1.manifests ≡ lookup k w.manifests

same-Frames : (d : Text) (x : Response) → Frames d (λ w. (x, w))
same-Frames d x = record { at = λ k w h. refl }

if-Frames :
    (d : Text) (b : World → Bool) (f g : World → Response × World)
    → Frames d f
    → Frames d g
    → Frames d (λ w. if b w then f w else g w)
if-Frames d b f g u v = record {
  at = λ k w h. elim (Bool-cases (b w)) [
    | inl holds ↦ simp holds (u.at k w h)
    | inr other ↦ simp other (v.at k w h)
  ];
}

module _ (env : Env) (req : Request) (d : Text) where
  commit_cleaned-Frames : (left : List Text) → Frames d (commit_cleaned env req d left)
  unfolding commit_cleaned
  commit_cleaned-Frames [] = record { at = transition-other env.disk d _ _ _ _ _ }
  commit_cleaned-Frames (p ∷ ps) = record { at = transition-other env.disk d _ _ _ _ _ }

  abort_cleaned-Frames : (left : List Text) → Frames d (abort_cleaned env req d left)
  unfolding abort_cleaned
  abort_cleaned-Frames left = record { at = transition-other env.disk d _ _ _ _ _ }

  reconcile_cleaned-Frames : (left : List Text) → Frames d (reconcile_cleaned env req d left)
  unfolding reconcile_cleaned
  reconcile_cleaned-Frames [] = record { at = transition-other env.disk d _ _ _ _ _ }
  reconcile_cleaned-Frames (p ∷ ps) = record { at = transition-other env.disk d _ _ _ _ _ }

  -- a clean-up, and then what writes for `d` only
  after_clean-Frames :
      (paths : List Text) (f : List Text → World → Response × World)
      → ((left : List Text) → Frames d (f left))
      → Frames d (λ w. let (left, w') = compensate env.disk paths w in f left w')
  after_clean-Frames paths f u = record {
    at = λ k w h.
        (u (compensate env.disk paths w).0).at k (compensate env.disk paths w).1 h
        ∙ ap (lookup k) (compensate-manifests env.disk paths w);
  }

  module _ (m : Manifest) where
    commit_in-Frames : (s : TransactionState) → Frames d (commit_in env req s d m)
    unfolding commit_in commit_saved
    commit_in-Frames document_saved =
        if-Frames d (verified env req m) _ _
          (after_clean-Frames m.staging_files (commit_cleaned env req d) commit_cleaned-Frames)
          (same-Frames d _)
    commit_in-Frames staged = same-Frames d _
    commit_in-Frames prepared = same-Frames d _
    commit_in-Frames committed = same-Frames d _
    commit_in-Frames aborted = same-Frames d _
    commit_in-Frames needs_reconciliation = same-Frames d _

    abort_open-Frames : Frames d (abort_open env req d m)
    unfolding abort_open
    abort_open-Frames =
        after_clean-Frames (m.created_files ++ m.staging_files) (abort_cleaned env req d)
          abort_cleaned-Frames

    abort_in-Frames : (s : TransactionState) → Frames d (abort_in env req s d m)
    unfolding abort_in
    abort_in-Frames staged = abort_open-Frames
    abort_in-Frames prepared = abort_open-Frames
    abort_in-Frames needs_reconciliation = abort_open-Frames
    abort_in-Frames document_saved = same-Frames d _
    abort_in-Frames committed = same-Frames d _
    abort_in-Frames aborted = same-Frames d _

    reconcile_in-Frames : (s : TransactionState) → Frames d (reconcile_in env req s d m)
    unfolding reconcile_in
    reconcile_in-Frames needs_reconciliation =
        if-Frames d (verified env req m) _ _
          (after_clean-Frames (to_clean env req m m.orphans) (reconcile_cleaned env req d)
            reconcile_cleaned-Frames)
          (same-Frames d _)
    reconcile_in-Frames prepared =
        if-Frames d (verified env req m) _ _ (same-Frames d _) (same-Frames d _)
    reconcile_in-Frames document_saved =
        if-Frames d (verified env req m) _ _ (same-Frames d _) (same-Frames d _)
    reconcile_in-Frames staged = same-Frames d _
    reconcile_in-Frames committed = same-Frames d _
    reconcile_in-Frames aborted = same-Frames d _

  module _ (m : Manifest) (created : List Text) where
    finalize_cleaned-Frames :
        (left : List Text) → Frames d (finalize_cleaned env req d created left)
    unfolding finalize_cleaned
    finalize_cleaned-Frames [] = same-Frames d _
    finalize_cleaned-Frames (p ∷ ps) = record { at = transition-other env.disk d _ _ _ _ _ }

    finalize_prepared-Frames :
        (o : Option Manifest) → Frames d (finalize_prepared env req d created o)
    unfolding finalize_prepared
    finalize_prepared-Frames (some x) = same-Frames d _
    finalize_prepared-Frames none =
        after_clean-Frames created (finalize_cleaned env req d created) finalize_cleaned-Frames

  finalize_published-Frames :
      (owner : Owner) (m : Manifest) (x : Published)
      → Frames d (finalize_published env req owner d m x)
  unfolding finalize_published
  finalize_published-Frames owner m (unpublished code) = same-Frames d _
  finalize_published-Frames owner m (published assets created) = record {
    at = λ k w h.
        (finalize_prepared-Frames m created _).at k _ h ∙ prepare-other env.disk d _ _ _ _ _ k w h;
  }

  finalize_at-Frames :
      (owner : Owner) (m : Manifest) (o : Option Place) → Frames d (finalize_at env req owner d m o)
  unfolding finalize_at
  finalize_at-Frames owner m none = same-Frames d _
  finalize_at-Frames owner m (some place) = record {
    at = λ k w h. (finalize_published-Frames owner m _).at k _ h;
  }

  finalize_in-Frames :
      (owner : Owner) (m : Manifest) (s : TransactionState)
      → Frames d (finalize_in env req owner s d m)
  unfolding finalize_in
  finalize_in-Frames owner m prepared = same-Frames d _
  finalize_in-Frames owner m document_saved = same-Frames d _
  finalize_in-Frames owner m needs_reconciliation = same-Frames d _
  finalize_in-Frames owner m committed = same-Frames d _
  finalize_in-Frames owner m staged = record {
    at = λ k w h. (finalize_at-Frames owner m (env.resolve_owner w.log owner)).at k w h;
  }
  finalize_in-Frames owner m aborted = record {
    at = λ k w h. (finalize_at-Frames owner m (env.resolve_owner w.log owner)).at k w h;
  }

module _ (req : Request) where
  with_token-Frames :
      (body : Body) (d : Text) (o : Option Manifest)
      → ((m : Manifest) → Frames d (body d m))
      → Frames d (with_token req body d o)
  unfolding with_token
  with_token-Frames body d none u = same-Frames d _
  with_token-Frames body d (some m) u =
      if-Frames d
        (λ w.
          equal req.transaction_token [] || not (equal req.transaction_token m.transaction_token))
        _ _ (same-Frames d (failure transaction_conflict)) (u m)

-- whether a request addresses the transaction of a directory
abbrev pub addressed : Option Text → Text → Bool
addressed none k = false
addressed (some d) k = equal d k

with_directory-other :
    (req : Request) (body : Body) (o : Option Text) (k : Text) (w : World)
    → ((d : Text) (m : Manifest) → Frames d (body d m))
    → addressed o k ≡ false
    → lookup k (with_directory req body o w).1.manifests ≡ lookup k w.manifests
unfolding with_directory
with_directory-other req body none k w u h = refl
with_directory-other req body (some d) k w u h =
    (with_token-Frames req body d (lookup d w.manifests) (u d)).at k w h

saved_at-other :
    (env : Env) (req : Request) (o : Option Text) (k : Text) (w : World)
    → addressed o k ≡ false
    → lookup k (saved_at env req o w).1.manifests ≡ lookup k w.manifests
unfolding saved_at
saved_at-other env req none k w h = refl
saved_at-other env req (some d) k w h = transition-other env.disk d _ _ _ _ _ k w h

finalize_for-other :
    (env : Env) (req : Request) (o : Option Owner) (k : Text) (w : World)
    → addressed (transaction_directory env req) k ≡ false
    → lookup k (finalize_for env req o w).1.manifests ≡ lookup k w.manifests
unfolding finalize_for with_transaction
finalize_for-other env req none k w h = refl
finalize_for-other env req (some owner) k w h =
    with_directory-other req _ (transaction_directory env req) k w
      (λ d m. finalize_in-Frames env req d owner m m.state) h

-- A request leaves the manifests of the transactions that it does not address as they are.
pub handle-other :
    (env : Env) (op : Operation) (req : Request) (k : Text) (w : World)
    → addressed (transaction_directory env req) k ≡ false
    → lookup k (handle env op req w).1.manifests ≡ lookup k w.manifests
unfolding handle finalize commit abort reconcile record_saved with_transaction
handle-other env operation_finalize req k w = finalize_for-other env req req.owner k w
handle-other env operation_commit req k w =
    with_directory-other req _ (transaction_directory env req) k w
      (λ d m. commit_in-Frames env req d m m.state)
handle-other env operation_abort req k w =
    with_directory-other req _ (transaction_directory env req) k w
      (λ d m. abort_in-Frames env req d m m.state)
handle-other env operation_reconcile req k w =
    with_directory-other req _ (transaction_directory env req) k w
      (λ d m. reconcile_in-Frames env req d m m.state)
handle-other env operation_document_saved req k w =
    saved_at-other env req (transaction_directory env req) k w
