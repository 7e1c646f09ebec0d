-- ===== src/Clipboard/Staging/Writes.antt =====
-- internal/clipboard/staging.go: what Transition and Prepare write and return.
use imoogi_emacs.Prelude.{
  Text, equal, equal_refl, ◌∷◌, Bool, true, false, Bool-cases, inl, inr, Option, none, some, List,
  ◌≡◌, refl, ap, arith, ◌∙◌, some_eq,
}
use imoogi_emacs.Prelude.Dict.{Dict, lookup, lookup-insert}
use imoogi_emacs.Clipboard.Protocol.{TransactionState, prepared, Manifest, Owner, Asset}
use imoogi_emacs.Clipboard.Disk.{Disk, World, written, write_manifest}
use imoogi_emacs.Clipboard.Disk.Cleans.{write_manifest-other}
use imoogi_emacs.Clipboard.Staging.{
  allowed_transition, written_manifest, may_move, move, transition, prepare_move, prepare,
}

written_manifest-world : (m : Manifest) (x : Bool × World) → (written_manifest m x).1 ≡ x.1
unfolding written_manifest
written_manifest-world m (true, w) = refl
written_manifest-world m (false, w) = refl

module _ (disk : Disk) (d token : Text) (next : TransactionState) (rewrite : Option (Dict Text))
    (created orphans : Option (List Text)) where
  move-other :
      (k : Text) (o : Option Manifest) (w : World)
      → equal d k ≡ false
      → lookup k (move disk d token next rewrite created orphans o w).1.manifests
        ≡ lookup k w.manifests
  unfolding move
  move-other k none w h = refl
  move-other k (some m) w h = elim (Bool-cases (may_move disk d token m next)) [
    | inl may ↦ simp may (
        ap (λ x. lookup k x.manifests) (written_manifest-world _ _)
        ∙ write_manifest-other disk d k _ w h)
    | inr bad ↦ simp bad refl
  ]

  -- A transition leaves the manifests of other transactions as they are.
  pub transition-other :
      (k : Text) (w : World)
      → equal d k ≡ false
      → lookup k (transition disk d token next rewrite created orphans w).1.manifests
        ≡ lookup k w.manifests
  unfolding transition
  transition-other k w h = move-other k (lookup d w.manifests) w h

  move-refused :
      (o : Option Manifest) (m : Manifest) (w : World)
      → o ≡ some m
      → allowed_transition m.state next ≡ false
      → move disk d token next rewrite created orphans o w ≡ (none, w)
  unfolding move
  move-refused none m w h bad = refl
  move-refused (some x) m w h bad =
      let stays : may_move disk d token x next ≡ false =
        ground (arith, ap (λ y. y.state) (some_eq h)) in
      simp stays refl

  -- A transition that is not allowed fails and changes nothing.
  pub transition-refused :
      (m : Manifest) (w : World)
      → lookup d w.manifests ≡ some m
      → allowed_transition m.state next ≡ false
      → transition disk d token next rewrite created orphans w ≡ (none, w)
  unfolding transition
  transition-refused m w h bad = move-refused (lookup d w.manifests) m w h bad

-- a manifest that is returned is the one that was written last
abbrev pub Stored : Text → World → Option Manifest × World → Type 0
Stored d w (none, v) = Unit
Stored d w (some m, v) = (v.log ≡ written d ∷ w.log) × (lookup d v.manifests ≡ some m)

module _ (disk : Disk) (d : Text) where
  stored : (m : Manifest) (w : World) → Stored d w (written_manifest m (write_manifest disk d m w))
  unfolding written_manifest write_manifest
  stored m w = elim (Bool-cases (disk.store w.log d)) [
    | inl ok ↦ simp ok (refl, lookup-insert d d m w.manifests ∙ rw (equal_refl d) refl)
    | inr bad ↦ simp bad tt
  ]

  module _ (token : Text) (next : TransactionState) (rewrite : Option (Dict Text))
      (created orphans : Option (List Text)) where
    move-Stored :
        (o : Option Manifest) (w : World)
        → Stored d w (move disk d token next rewrite created orphans o w)
    unfolding move
    move-Stored none w = tt
    move-Stored (some m) w = elim (Bool-cases (may_move disk d token m next)) [
      | inl may ↦ simp may (stored _ w)
      | inr bad ↦ simp bad tt
    ]

    -- The manifest that a transition returns was written, and nothing else was done.
    pub transition-Stored :
        (w : World) → Stored d w (transition disk d token next rewrite created orphans w)
    unfolding transition
    transition-Stored w = move-Stored (lookup d w.manifests) w

-- the manifest that is returned is in the state that was asked for
abbrev pub InState : TransactionState → Option Manifest → Type 0
InState next none = Unit
InState next (some m) = m.state ≡ next

written_manifest-InState :
    (next : TransactionState) (m : Manifest) (x : Bool × World)
    → m.state ≡ next
    → InState next (written_manifest m x).0
unfolding written_manifest
written_manifest-InState next m (true, w) h = h
written_manifest-InState next m (false, w) h = tt

module _ (disk : Disk) (d token : Text) (next : TransactionState) (rewrite : Option (Dict Text))
    (created orphans : Option (List Text)) where
  move-InState :
      (o : Option Manifest) (w : World)
      → InState next (move disk d token next rewrite created orphans o w).0
  unfolding move
  move-InState none w = tt
  move-InState (some m) w = elim (Bool-cases (may_move disk d token m next)) [
    | inl may ↦ simp may (written_manifest-InState next _ _ refl)
    | inr bad ↦ simp bad tt
  ]

  pub transition-InState :
      (w : World) → InState next (transition disk d token next rewrite created orphans w).0
  unfolding transition
  transition-InState w = move-InState (lookup d w.manifests) w

  move-token :
      (o : Option Manifest) (m : Manifest) (w : World)
      → o ≡ some m
      → equal token m.transaction_token ≡ false
      → move disk d token next rewrite created orphans o w ≡ (none, w)
  unfolding move
  move-token none m w h bad = refl
  move-token (some x) m w h bad =
      let stays : may_move disk d token x next ≡ false =
        ground (arith, ap (λ y. equal token y.transaction_token) (some_eq h)) in
      simp stays refl

  -- A transition with another token fails and changes nothing.
  pub transition-token :
      (m : Manifest) (w : World)
      → lookup d w.manifests ≡ some m
      → equal token m.transaction_token ≡ false
      → transition disk d token next rewrite created orphans w ≡ (none, w)
  unfolding transition
  transition-token m w h bad = move-token (lookup d w.manifests) m w h bad

module _ (disk : Disk) (d token : Text) (owner : Owner) (assets : List Asset) (rewrite : Dict Text)
    (created : List Text) where
  prepare_move-other :
      (k : Text) (o : Option Manifest) (w : World)
      → equal d k ≡ false
      → lookup k (prepare_move disk d token owner assets rewrite created o w).1.manifests
        ≡ lookup k w.manifests
  unfolding prepare_move
  prepare_move-other k none w h = refl
  prepare_move-other k (some m) w h = elim (Bool-cases (may_move disk d token m prepared)) [
    | inl may ↦ simp may (
        ap (λ x. lookup k x.manifests) (written_manifest-world _ _)
        ∙ write_manifest-other disk d k _ w h)
    | inr bad ↦ simp bad refl
  ]

  -- Preparing leaves the manifests of other transactions as they are.
  pub prepare-other :
      (k : Text) (w : World)
      → equal d k ≡ false
      → lookup k (prepare disk d token owner assets rewrite created w).1.manifests
        ≡ lookup k w.manifests
  unfolding prepare
  prepare-other k w h = prepare_move-other k (lookup d w.manifests) w h

  prepare_move-refused :
      (o : Option Manifest) (m : Manifest) (w : World)
      → o ≡ some m
      → may_move disk d token m prepared ≡ false
      → prepare_move disk d token owner assets rewrite created o w ≡ (none, w)
  unfolding prepare_move
  prepare_move-refused none m w h bad = refl
  prepare_move-refused (some x) m w h bad =
      let stays : may_move disk d token x prepared ≡ false =
        ap (λ y. may_move disk d token y prepared) (some_eq h) ∙ bad in
      simp stays refl

  -- Preparing fails and changes nothing where the token or the state forbids it.
  pub prepare-refused :
      (m : Manifest) (w : World)
      → lookup d w.manifests ≡ some m
      → may_move disk d token m prepared ≡ false
      → prepare disk d token owner assets rewrite created w ≡ (none, w)
  unfolding prepare
  prepare-refused m w h bad = prepare_move-refused (lookup d w.manifests) m w h bad

  prepare_move-InState :
      (o : Option Manifest) (w : World)
      → InState prepared (prepare_move disk d token owner assets rewrite created o w).0
  unfolding prepare_move
  prepare_move-InState none w = tt
  prepare_move-InState (some m) w = elim (Bool-cases (may_move disk d token m prepared)) [
    | inl may ↦ simp may (written_manifest-InState prepared _ _ refl)
    | inr bad ↦ simp bad tt
  ]

  pub prepare-InState :
      (w : World) → InState prepared (prepare disk d token owner assets rewrite created w).0
  unfolding prepare
  prepare-InState w = prepare_move-InState (lookup d w.manifests) w
