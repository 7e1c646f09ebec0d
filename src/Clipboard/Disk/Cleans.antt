-- ===== src/Clipboard/Disk/Cleans.antt =====
-- internal/clipboard/publish.go and staging.go: compensate and writeJSONAtomic.
use imoogi_emacs.Prelude.{
  Text, equal, Bool, true, false, Bool-cases, inl, inr, if◌then◌else◌, List, [], ◌∷◌, ◌≡◌, refl,
  ◌∙◌,
}
use mathlib.Core.List.{reverse}
use imoogi_emacs.Prelude.Dict.{lookup, lookup-insert}
use imoogi_emacs.Clipboard.Protocol.{Manifest}
use imoogi_emacs.Clipboard.Disk.{
  Disk, World, Event, removal, remove_each, compensate, write_manifest,
}

-- the disk was asked to remove every path in turn, and those that it could not remove are left over
pub data Tried (disk : Disk) : List Event → List Text → List Text → List Event → Type 0 where
  done : {l : List Event} → Tried disk l [] [] l
  gone :
      {l l' : List Event} {p : Text} {ps left : List Text}
      → disk.remove l p ≡ true
      → Tried disk (removal p true ∷ l) ps left l'
      → Tried disk l (p ∷ ps) left l'
  stuck :
      {l l' : List Event} {p : Text} {ps left : List Text}
      → disk.remove l p ≡ false
      → Tried disk (removal p false ∷ l) ps left l'
      → Tried disk l (p ∷ ps) (p ∷ left) l'

module _ (disk : Disk) where
  tried_one :
      (b : Bool) {l l' : List Event} (p : Text) {ps left : List Text}
      → disk.remove l p ≡ b
      → Tried disk (removal p b ∷ l) ps left l'
      → Tried disk l (p ∷ ps) (if b then left else p ∷ left) l'
  tried_one true p e t = gone e t
  tried_one false p e t = stuck e t

  remove_each-Tried :
      (ps : List Text) (w : World)
      → Tried disk w.log ps (remove_each disk ps w).0 (remove_each disk ps w).1.log
  unfolding remove_each
  remove_each-Tried [] w = done
  remove_each-Tried (p ∷ ps) w = tried_one (disk.remove w.log p) p refl (remove_each-Tried ps _)

  remove_each-manifests :
      (ps : List Text) (w : World) → (remove_each disk ps w).1.manifests ≡ w.manifests
  unfolding remove_each
  remove_each-manifests [] w = refl
  remove_each-manifests (p ∷ ps) w = remove_each-manifests ps _

  pub compensate-Tried :
      (ps : List Text) (w : World)
      → Tried disk w.log (reverse ps) (compensate disk ps w).0 (compensate disk ps w).1.log
  unfolding compensate
  compensate-Tried ps w = remove_each-Tried (reverse ps) w

  pub compensate-manifests :
      (ps : List Text) (w : World) → (compensate disk ps w).1.manifests ≡ w.manifests
  unfolding compensate
  compensate-manifests ps w = remove_each-manifests (reverse ps) w

  -- a write changes the manifest of its own directory only
  pub write_manifest-other :
      (d k : Text) (m : Manifest) (w : World)
      → equal d k ≡ false
      → lookup k (write_manifest disk d m w).1.manifests ≡ lookup k w.manifests
  unfolding write_manifest
  write_manifest-other d k m w h = elim (Bool-cases (disk.store w.log d)) [
    | inl ok ↦ simp ok (lookup-insert d k m w.manifests ∙ rw h refl)
    | inr bad ↦ simp bad refl
  ]
