-- ===== src/Clipboard/Service/Final.antt =====
-- internal/clipboard/service.go: requests about a transaction that is committed or aborted.
use imoogi_emacs.Prelude.{
  Text, equal, equal_iff, Bool, true, false, not, ◌||◌, Bool-cases, inl, inr, Option, none, some,
  some_eq, List, [], ◌∷◌, arith, ◌≡◌, refl, ap, ◌∙◌, sym, subst,
}
use imoogi_emacs.Prelude.Dict.{lookup}
use imoogi_emacs.Clipboard.Protocol.{
  TransactionState, document_saved, committed, aborted, prepared, needs_reconciliation, Owner,
  Manifest, Request, Response,
}
use imoogi_emacs.Clipboard.Disk.{World}
use imoogi_emacs.Clipboard.Staging.{allowed_transition, may_move}
use imoogi_emacs.Clipboard.Staging.Writes.{transition-refused, prepare-refused}
use imoogi_emacs.Clipboard.Disk.Cleans.{compensate-manifests}
use imoogi_emacs.Clipboard.Service.Frame.{addressed, handle-other}
use imoogi_emacs.Clipboard.Transaction.{
  Env, Body, Place, Published, published, unpublished, transaction_directory, with_token,
  with_directory, with_transaction,
}
use imoogi_emacs.Clipboard.Service.{
  finalize_cleaned, finalize_prepared, finalize_published, finalize_at, finalize_in, finalize_for,
  finalize, operation_finalize, commit_in, commit, abort_in, abort, reconcile_in, reconcile,
  saved_at, record_saved, handle, Operation, operation_commit, operation_abort, operation_reconcile,
  operation_document_saved,
}

abbrev pub is_final : TransactionState → Bool
is_final committed = true
is_final aborted = true
is_final _ = false

-- the manifests are left as they are
record Still (w : World) (x : Response × World) : Type 0 where
  still : x.1.manifests ≡ w.manifests

module _ (env : Env) (req : Request) (d : Text) (m : Manifest) (w : World) where
  commit_in-Still : (s : TransactionState) → is_final s ≡ true → Still w (commit_in env req s d m w)
  unfolding commit_in
  commit_in-Still committed h = record { still = refl }
  commit_in-Still aborted h = record { still = refl }
  commit_in-Still _ h = cc

  abort_in-Still : (s : TransactionState) → is_final s ≡ true → Still w (abort_in env req s d m w)
  unfolding abort_in
  abort_in-Still committed h = record { still = refl }
  abort_in-Still aborted h = record { still = refl }
  abort_in-Still _ h = cc

  reconcile_in-Still :
      (s : TransactionState) → is_final s ≡ true → Still w (reconcile_in env req s d m w)
  unfolding reconcile_in
  reconcile_in-Still committed h = record { still = refl }
  reconcile_in-Still aborted h = record { still = refl }
  reconcile_in-Still _ h = cc

final_refuses :
    (s next : TransactionState)
    → is_final s ≡ true
    → is_final next ≡ false
    → allowed_transition s next ≡ false
unfolding allowed_transition
final_refuses s next h k = ground arith

module _ (env : Env) (req : Request) (d : Text) (m : Manifest) (f : is_final m.state ≡ true) where
  finalize_cleaned-Still :
      (created left : List Text) (w : World)
      → lookup d w.manifests ≡ some m
      → Still w (finalize_cleaned env req d created left w)
  unfolding finalize_cleaned
  finalize_cleaned-Still created [] w l = record { still = refl }
  finalize_cleaned-Still created (p ∷ ps) w l = record {
    still =
        ap (λ x. x.1.manifests)
          (transition-refused env.disk d _ _ _ _ _ m w l
            (final_refuses m.state needs_reconciliation f refl));
  }

  finalize_prepared-Still :
      (created : List Text) (w : World)
      → lookup d w.manifests ≡ some m
      → Still w (finalize_prepared env req d created none w)
  unfolding finalize_prepared
  finalize_prepared-Still created w l =
      let clean = compensate-manifests env.disk created w in
      record {
        still = (finalize_cleaned-Still created _ _ (ap (lookup d) clean ∙ l)).still ∙ clean;
      }

  finalize_published-Still :
      (owner : Owner) (x : Published) (w : World)
      → lookup d w.manifests ≡ some m
      → Still w (finalize_published env req owner d m x w)
  unfolding finalize_published
  finalize_published-Still owner (unpublished code) w l = record { still = refl }
  finalize_published-Still owner (published assets created) w l = record {
    still =
        ap (λ (o, v). (finalize_prepared env req d created o v).1.manifests)
          (prepare-refused env.disk d _ _ _ _ _ m w l
            (may_not (final_refuses m.state prepared f refl)))
        ∙ (finalize_prepared-Still created w l).still;
  }
    where
      may_not :
          allowed_transition m.state prepared ≡ false
          → may_move env.disk d req.transaction_token m prepared ≡ false
      may_not h = ground arith

  finalize_at-Still :
      (owner : Owner) (o : Option Place) (w : World)
      → lookup d w.manifests ≡ some m
      → Still w (finalize_at env req owner d m o w)
  unfolding finalize_at
  finalize_at-Still owner none w l = record { still = refl }
  finalize_at-Still owner (some place) w l = record {
    still = (finalize_published-Still owner _ _ l).still;
  }

  finalize_in-Still :
      (owner : Owner) (s : TransactionState) (w : World)
      → lookup d w.manifests ≡ some m
      → is_final s ≡ true
      → Still w (finalize_in env req owner s d m w)
  unfolding finalize_in
  finalize_in-Still owner committed w l h = record { still = refl }
  finalize_in-Still owner aborted w l h = finalize_at-Still owner _ w l
  finalize_in-Still owner _ w l h = cc

module _ (req : Request) (body : Body) where
  with_token-Still :
      (d : Text) (o : Option Manifest) (m : Manifest) (w : World)
      → o ≡ some m
      → Still w (body d m w)
      → Still w (with_token req body d o w)
  unfolding with_token
  with_token-Still d none m w h s = record { still = refl }
  with_token-Still d (some x) m w h s =
      elim (Bool-cases
        (equal req.transaction_token [] || not (equal req.transaction_token x.transaction_token))) [
          | inl bad ↦ record { still = rw bad refl }
          | inr good ↦ record {
            still =
                rw good
                  (subst (λ y. (body d y w).1.manifests ≡ w.manifests) (sym (some_eq h)) s.still);
          }
        ]

  -- the transaction that is addressed
  with_directory-Still :
      (o : Option Text) (k : Text) (m : Manifest) (w : World)
      → addressed o k ≡ true
      → lookup k w.manifests ≡ some m
      → ((d : Text) → lookup d w.manifests ≡ some m → Still w (body d m w))
      → Still w (with_directory req body o w)
  unfolding with_directory
  with_directory-Still none k m w h l s = cc
  with_directory-Still (some d) k m w h l s =
      let at_d = ap (λ x. lookup x w.manifests) ((equal_iff d k).0 h) ∙ l in
      with_token-Still d (lookup d w.manifests) m w at_d (s d at_d)

saved_at-Still :
    (env : Env) (req : Request) (o : Option Text) (k : Text) (m : Manifest) (w : World)
    → addressed o k ≡ true
    → lookup k w.manifests ≡ some m
    → is_final m.state ≡ true
    → Still w (saved_at env req o w)
unfolding saved_at
saved_at-Still env req none k m w h l f = cc
saved_at-Still env req (some d) k m w h l f = record {
  still =
      ap (λ x. x.1.manifests)
        (transition-refused env.disk d _ _ _ _ _ m w
          (ap (λ x. lookup x w.manifests) ((equal_iff d k).0 h) ∙ l)
          (final_refuses m.state document_saved f refl));
}

finalize_for-Still :
    (env : Env) (req : Request) (o : Option Owner) (k : Text) (m : Manifest) (w : World)
    → addressed (transaction_directory env req) k ≡ true
    → lookup k w.manifests ≡ some m
    → is_final m.state ≡ true
    → Still w (finalize_for env req o w)
unfolding finalize_for with_transaction
finalize_for-Still env req none k m w h l f = record { still = refl }
finalize_for-Still env req (some owner) k m w h l f =
    with_directory-Still req _ (transaction_directory env req) k m w h l
      (λ d at_d. finalize_in-Still env req d m f owner m.state w at_d f)

handle-Still :
    (env : Env) (op : Operation) (req : Request) (k : Text) (m : Manifest) (w : World)
    → addressed (transaction_directory env req) k ≡ true
    → lookup k w.manifests ≡ some m
    → is_final m.state ≡ true
    → Still w (handle env op req w)
unfolding handle finalize commit abort reconcile record_saved with_transaction
handle-Still env operation_finalize req k m w h l f =
    finalize_for-Still env req req.owner k m w h l f
handle-Still env operation_commit req k m w h l f =
    with_directory-Still req _ (transaction_directory env req) k m w h l
      (λ d at_d. commit_in-Still env req d m w m.state f)
handle-Still env operation_abort req k m w h l f =
    with_directory-Still req _ (transaction_directory env req) k m w h l
      (λ d at_d. abort_in-Still env req d m w m.state f)
handle-Still env operation_reconcile req k m w h l f =
    with_directory-Still req _ (transaction_directory env req) k m w h l
      (λ d at_d. reconcile_in-Still env req d m w m.state f)
handle-Still env operation_document_saved req k m w h l f =
    saved_at-Still env req (transaction_directory env req) k m w h l f

-- the worlds that a sequence of requests leads to
pub data Reaches (env : Env) (w : World) : World → Type 0 where
  start : Reaches env w w
  after :
      {v : World} (op : Operation) (req : Request)
      → Reaches env w v
      → Reaches env w (handle env op req v).1

handle-final :
    (env : Env) (op : Operation) (req : Request) (k : Text) (m : Manifest) (w : World)
    → lookup k w.manifests ≡ some m
    → is_final m.state ≡ true
    → lookup k (handle env op req w).1.manifests ≡ some m
handle-final env op req k m w l f =
    elim (Bool-cases (addressed (transaction_directory env req) k)) [
      | inl own ↦ ap (lookup k) (handle-Still env op req k m w own l f).still ∙ l
      | inr other ↦ handle-other env op req k w other ∙ l
    ]

-- Once a transaction is committed or aborted, its manifest stays as it is under every sequence of
-- requests to finalize, save, commit, abort or reconcile, whatever they address and whatever the disk does.
pub Reaches-final :
    (env : Env) (k : Text) (m : Manifest) (w : World) {v : World}
    → Reaches env w v
    → lookup k w.manifests ≡ some m
    → is_final m.state ≡ true
    → lookup k v.manifests ≡ some m
Reaches-final env k m w start l f = l
Reaches-final env k m w (after op req p) l f =
    handle-final env op req k m _ (Reaches-final env k m w p l f) f
