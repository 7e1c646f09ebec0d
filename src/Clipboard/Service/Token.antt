-- ===== src/Clipboard/Service/Token.antt =====
-- internal/clipboard/service.go: requests with the token of another transaction.
use imoogi_emacs.Prelude.{
  Text, equal, true, false, not, ◌||◌, Option, none, some, some_eq, [], ◌≡◌, ◌≢◌, sym, refl, ap,
  ◌∙◌, arith,
}
use imoogi_emacs.Prelude.Dict.{lookup}
use imoogi_emacs.Clipboard.Protocol.{
  transaction_conflict, Owner, Response, Manifest, Request, failure,
}
use imoogi_emacs.Clipboard.Disk.{World}
use imoogi_emacs.Clipboard.Staging.Writes.{transition-token}
use imoogi_emacs.Clipboard.Transaction.{
  Env, Body, transaction_directory, with_token, with_directory, with_transaction, response_from,
}
use imoogi_emacs.Clipboard.Service.{
  finalize_for, finalize, operation_finalize, commit, abort, reconcile, saved_at, record_saved,
  or_conflict, handle, Operation, operation_commit, operation_abort, operation_reconcile,
  operation_document_saved,
}

module _ (req : Request) (d : Text) (m : Manifest) (w : World)
    (found : lookup d w.manifests ≡ some m)
    (bad : equal req.transaction_token m.transaction_token ≡ false) where
  with_token-refused :
      (body : Body) (k : Text) (o : Option Manifest)
      → o ≡ some m
      → with_token req body k o w ≡ (failure transaction_conflict, w)
  unfolding with_token
  with_token-refused body k none h = refl
  with_token-refused body k (some x) h =
      let wrong : (equal req.transaction_token []
            || not (equal req.transaction_token x.transaction_token))
          ≡ true =
        ground (arith, ap (λ y. equal req.transaction_token y.transaction_token) (some_eq h)) in
      rw wrong refl

  with_directory-refused :
      (body : Body) (o : Option Text)
      → o ≡ some d
      → with_directory req body o w ≡ (failure transaction_conflict, w)
  unfolding with_directory
  with_directory-refused body none own = cc
  with_directory-refused body (some k) own =
      with_token-refused body k (lookup k w.manifests)
        (ap (λ x. lookup x w.manifests) (some_eq own) ∙ found)

  saved_at-refused :
      (env : Env) (o : Option Text)
      → o ≡ some d
      → saved_at env req o w ≡ (failure transaction_conflict, w)
  unfolding saved_at
  saved_at-refused env none own = cc
  saved_at-refused env (some k) own =
      ap (λ (o, v). (or_conflict env req (λ x. record (response_from x) { assets = [] }) o, v))
        (transition-token env.disk k _ _ _ _ _ m w
          (ap (λ x. lookup x w.manifests) (some_eq own) ∙ found) bad)

-- an error, and nothing done
pub record Refused (w : World) (x : Response × World) : Type 0 where
  pub same : x.1 ≡ w
  pub error : x.0.code ≢ none

conflict-Refused :
    (w : World) (x : Response × World) → x ≡ (failure transaction_conflict, w) → Refused w x
conflict-Refused w x h = record {
  same = ap (λ y. y.1) h;
  error =
      λ e. let impossible : some transaction_conflict ≡ none = sym (ap (λ y. y.0.code) h) ∙ e in cc;
}

finalize_for-Refused :
    (env : Env) (req : Request) (o : Option Owner) (d : Text) (m : Manifest) (w : World)
    → transaction_directory env req ≡ some d
    → lookup d w.manifests ≡ some m
    → equal req.transaction_token m.transaction_token ≡ false
    → Refused w (finalize_for env req o w)
unfolding finalize_for with_transaction
finalize_for-Refused env req none d m w own found bad = record { same = refl; error = λ e. cc }
finalize_for-Refused env req (some owner) d m w own found bad =
    conflict-Refused w _
      (with_directory-refused req d m w found bad _ (transaction_directory env req) own)

-- A request whose token is not that of the transaction it addresses is answered with an error, and
-- leaves the manifests and the disk as they are.
pub handle-Refused :
    (env : Env) (op : Operation) (req : Request) (d : Text) (m : Manifest) (w : World)
    → transaction_directory env req ≡ some d
    → lookup d w.manifests ≡ some m
    → equal req.transaction_token m.transaction_token ≡ false
    → Refused w (handle env op req w)
unfolding handle finalize commit abort reconcile record_saved with_transaction
handle-Refused env operation_finalize req d m w own found bad =
    finalize_for-Refused env req req.owner d m w own found bad
handle-Refused env operation_commit req d m w own found bad =
    conflict-Refused w _
      (with_directory-refused req d m w found bad _ (transaction_directory env req) own)
handle-Refused env operation_abort req d m w own found bad =
    conflict-Refused w _
      (with_directory-refused req d m w found bad _ (transaction_directory env req) own)
handle-Refused env operation_reconcile req d m w own found bad =
    conflict-Refused w _
      (with_directory-refused req d m w found bad _ (transaction_directory env req) own)
handle-Refused env operation_document_saved req d m w own found bad =
    conflict-Refused w _
      (saved_at-refused req d m w found bad env (transaction_directory env req) own)
