-- ===== src/Clipboard/Service/Reports.antt =====
-- internal/clipboard/service.go: the responses of the parts of the handlers.
use imoogi_emacs.Prelude.{
  Text, Bool, true, false, if◌then◌else◌, Option, none, some, some_eq, List, [], ◌∷◌, ◌≡◌, refl,
  ◌∙◌, sym,
}
use imoogi_emacs.Clipboard.Protocol.{
  TransactionState, prepared, committed, Manifest, Owner, Request, Response,
}
use imoogi_emacs.Prelude.Dict.{lookup}
use imoogi_emacs.Clipboard.Disk.{World, Event, written}
use imoogi_emacs.Clipboard.Staging.Writes.{
  InState, transition-InState, prepare-InState, Stored, transition-Stored,
}
use imoogi_emacs.Clipboard.Transaction.{
  Env, Place, Published, published, unpublished, response_from,
}
use imoogi_emacs.Clipboard.Service.{
  finalize_cleaned, finalize_prepared, finalize_published, finalize_at, or_conflict, abort_response,
  left_over, reconciled, commit_cleaned, abort_cleaned, reconcile_cleaned, unresolved_or_zero,
  abort_state,
}

-- what the state after a report of a commit satisfies
pub record Reports (P : World → Type 0) (x : Response × World) : Type 0 where
  pub at : x.0.code ≡ none → x.0.state ≡ some committed → P x.1

-- the manifest of `d` was written at last, as committed
pub record IsRecorded (d : Text) (log : List Event) (v : World) : Type 0 where
  pub last : v.log ≡ written d ∷ log
  pub manifest : Manifest
  pub stored : lookup d v.manifests ≡ some manifest
  pub final : manifest.state ≡ committed

module _ (env : Env) (req : Request) (d : Text) (P : World → Type 0) where
  recorded-Reports :
      (f : Manifest → Response) (w : World) (x : Option Manifest × World)
      → ((v : World) → IsRecorded d w.log v → P v)
      → InState committed x.0
      → Stored d w x
      → Reports P (or_conflict env req f x.0, x.1)
  recorded-Reports f w (none, v) p i h = record { at = λ c s. cc }
  recorded-Reports f w (some m, v) p i h = record {
    at = λ c s. p v (record { last = h.0; manifest = m; stored = h.1; final = i });
  }

  pub commit_cleaned-Reports :
      (left : List Text) (w : World)
      → (left ≡ [] → (v : World) → IsRecorded d w.log v → P v)
      → Reports P (commit_cleaned env req d left w)
  unfolding commit_cleaned
  commit_cleaned-Reports [] w p =
      recorded-Reports response_from w _ (p refl) (transition-InState env.disk d _ _ _ _ _ w)
        (transition-Stored env.disk d _ _ _ _ _ w)
  commit_cleaned-Reports (f ∷ fs) w p = left_over-Reports _ _
    where
      left_over-Reports :
          (o : Option Manifest) (v : World)
          → Reports P (or_conflict env req (left_over env req (f ∷ fs)) o, v)
      left_over-Reports none v = record { at = λ c s. cc }
      left_over-Reports (some m) v = record { at = λ c s. cc }

  pub reconcile_cleaned-Reports :
      (left : List Text) (w : World)
      → (left ≡ [] → (v : World) → IsRecorded d w.log v → P v)
      → Reports P (reconcile_cleaned env req d left w)
  unfolding reconcile_cleaned
  reconcile_cleaned-Reports [] w p =
      recorded-Reports (reconciled env req) w _ (p refl) (transition-InState env.disk d _ _ _ _ _ w)
        (transition-Stored env.disk d _ _ _ _ _ w)
  reconcile_cleaned-Reports (f ∷ fs) w p = unresolved-Reports _ _
    where
      unresolved-Reports :
          (o : Option Manifest) (v : World) → Reports P (unresolved_or_zero env req (f ∷ fs) o, v)
      unresolved-Reports none v = record { at = λ c s. cc }
      unresolved-Reports (some m) v = record { at = λ c s. cc }

  -- a response about a manifest that is in another state
  pub other-Reports :
      (next : TransactionState) (f : Manifest → Response) (o : Option Manifest) (v : World)
      → ((m : Manifest) → (f m).state ≡ some m.state)
      → (next ≡ committed → ⊥)
      → InState next o
      → Reports P (or_conflict env req f o, v)
  other-Reports next f none v same other i = record { at = λ c s. cc }
  other-Reports next f (some m) v same other i = record {
    at = λ c s. absurd (other (sym i ∙ some_eq (sym (same m) ∙ s)));
  }

  abort_response-state :
      (left : List Text) (m : Manifest) → (abort_response env req left m).state ≡ some m.state
  abort_response-state [] m = refl
  abort_response-state (f ∷ fs) m = refl

  abort_state-other : (left : List Text) → abort_state env req left ≡ committed → ⊥
  abort_state-other [] h = cc
  abort_state-other (f ∷ fs) h = cc

  pub abort_cleaned-Reports :
      (left : List Text) (w : World) → Reports P (abort_cleaned env req d left w)
  unfolding abort_cleaned
  abort_cleaned-Reports left w =
      other-Reports (abort_state env req left) (abort_response env req left) _ _
        (abort_response-state left) (abort_state-other left)
        (transition-InState env.disk d _ _ _ _ _ w)

module _ (env : Env) (req : Request) (d : Text) (P : World → Type 0) where
  pub finalize_cleaned-Reports :
      (created left : List Text) (w : World) → Reports P (finalize_cleaned env req d created left w)
  unfolding finalize_cleaned
  finalize_cleaned-Reports created [] w = record { at = λ c s. cc }
  finalize_cleaned-Reports created (f ∷ fs) w = record { at = λ c s. cc }

  pub finalize_prepared-Reports :
      (created : List Text) (o : Option Manifest) (w : World)
      → InState prepared o
      → Reports P (finalize_prepared env req d created o w)
  unfolding finalize_prepared
  finalize_prepared-Reports created none w i = finalize_cleaned-Reports created _ _
  finalize_prepared-Reports created (some x) w i = record {
    at = λ c s. let differs : prepared ≡ committed = sym i ∙ some_eq s in cc;
  }

  pub finalize_published-Reports :
      (owner : Owner) (m : Manifest) (x : Published) (w : World)
      → Reports P (finalize_published env req owner d m x w)
  unfolding finalize_published
  finalize_published-Reports owner m (unpublished code) w = record { at = λ c s. cc }
  finalize_published-Reports owner m (published assets created) w =
      finalize_prepared-Reports created _ _ (prepare-InState env.disk d _ _ _ _ _ w)

  pub finalize_at-Reports :
      (owner : Owner) (m : Manifest) (o : Option Place) (w : World)
      → Reports P (finalize_at env req owner d m o w)
  unfolding finalize_at
  finalize_at-Reports owner m none w = record { at = λ c s. cc }
  finalize_at-Reports owner m (some place) w = finalize_published-Reports owner m _ _

pub if-Reports :
    (P : World → Type 0) (b : Bool) (x y : Response × World)
    → (b ≡ true → Reports P x)
    → Reports P y
    → Reports P (if b then x else y)
if-Reports P true x y u v = u refl
if-Reports P false x y u v = v
