-- ===== src/Clipboard/Owner/Contained.antt =====
-- internal/clipboard/owner.go: the assets of a project note are kept below its project.
use imoogi_emacs.Prelude.{
  Text, text, equal, equal_iff, equal_refl, Bool, true, false, if◌then◌else◌, some, List, [], ◌∷◌,
  ◌≡◌, ◌⊎◌, refl, sym, ap, ◌∙◌, subst, All, inl, inr,
}
use imoogi_emacs.Prelude.Paths.{join, has_prefix, join_path, IsSegment}
use imoogi_emacs.Prelude.Relative.{
  components, apart, ascent, rel, rooted, IsBelow, components-rooted,
}
use imoogi_emacs.Clipboard.Protocol.{Owner}
use imoogi_emacs.Clipboard.Transaction.{Place}
use imoogi_emacs.Clipboard.Owner.{Links, stays, path_within, canonical_for_containment}

ascent-leaves : (b : Text) (bs ts : List Text) → stays (ascent (b ∷ bs, ts)) ≡ true → ⊥
unfolding join equal has_prefix
ascent-leaves b [] [] h = cc
ascent-leaves b (c ∷ bs) ts h = cc
ascent-leaves b [] (t ∷ ts) h = cc

-- What stays is the path itself, or below it.
stays_cases : (ps cs : List Text) → stays (ascent (apart ps cs)) ≡ true → (ps ≡ cs) ⊎ IsBelow ps cs
unfolding apart
stays_cases [] [] h = inl refl
stays_cases [] (c ∷ cs) h = inr (c, cs, refl)
stays_cases (p ∷ ps) [] h = absurd (ascent-leaves p ps [] h)
stays_cases (p ∷ ps) (c ∷ cs) h = same_head (equal p c) refl h (stays_cases ps cs)
  where
    same_head :
        (b : Bool)
        → equal p c ≡ b
        → stays (ascent (if b then apart ps cs else (p ∷ ps, c ∷ cs))) ≡ true
        → (stays (ascent (apart ps cs)) ≡ true → (ps ≡ cs) ⊎ IsBelow ps cs)
        → (p ∷ ps ≡ c ∷ cs) ⊎ IsBelow (p ∷ ps) (c ∷ cs)
    same_head false e k further = absurd (ascent-leaves p ps (c ∷ cs) k)
    same_head true e k further = elim (further k) [
      | inl s ↦ inl (cc ((equal_iff p c).0 e, s))
      | inr (x, xs, s) ↦ inr (x, xs, cc ((equal_iff p c).0 e, s))
    ]

path_within-IsBelow :
    (ps cs : List Text)
    → All IsSegment ps
    → All IsSegment cs
    → path_within (rooted ps) (rooted cs) ≡ true
    → equal (rooted cs) (rooted ps) ≡ false
    → IsBelow ps cs
unfolding path_within rel
path_within-IsBelow ps cs hp hc h other =
    elim (stays_cases ps cs (
      subst (λ l. stays (ascent (apart ps l)) ≡ true) (components-rooted cs hc)
        (subst (λ l. stays (ascent (apart l (components (rooted cs)))) ≡ true)
          (components-rooted ps hp) h))) [
            | inl e ↦ absurd (
                differ (
                  sym (equal_refl (rooted cs))
                  ∙ (ap (λ l. equal (rooted cs) (rooted l)) (sym e) ∙ other)))
            | inr b ↦ b
          ]
  where
    differ : true ≡ false → ⊥
    differ e = cc

-- a path that the test admits
abbrev IsInside : Text → Text → Type 0
IsInside root p = (path_within root p ≡ true) × (equal p root ≡ false)

below :
    (root p : Text)
    → IsInside root p
    → (ps cs : List Text) → All IsSegment ps
    → All IsSegment cs
    → root ≡ rooted ps
    → p ≡ rooted cs
    → IsBelow ps cs
below root p i ps cs hp hc e f =
    path_within-IsBelow ps cs hp hc
      (subst (λ q. path_within q (rooted cs) ≡ true) e
        (subst (λ q. path_within root q ≡ true) f i.0))
      (subst (λ q. equal (rooted cs) q ≡ false) e (subst (λ q. equal q root ≡ false) f i.1))

module _ (links : Links) (place : Place) where
  -- what is known of the place that is given for a resolved root and document
  abbrev IsPlaced : Text → Text → Type 0
  IsPlaced root document =
      (place.containment_root ≡ root)
      × (canonical_for_containment links (join_path root (text "assets")) ≡ some place.asset_root)
      × IsInside root document
      × IsInside root place.asset_root
