-- ===== src/NoteMove/Validate/Nested.antt =====
-- internal/notemove/move.go: inside is containment of the paths.
use imoogi_emacs.Prelude.{
  Text, equal, equal_iff, true, false, List, [], ◌∷◌, ◌++◌, ◌≡◌, ◌↔◌, refl, sym, ◌∙◌, arith, All,
  Bool-cases, inl, inr,
}
use imoogi_emacs.Prelude.Paths.{join, has_prefix, IsSegment}
use imoogi_emacs.Prelude.Relative.{apart, ascent, rel, rooted, IsBelow, components-rooted}
use imoogi_emacs.NoteMove.Validate.{is_descent, inside}

ascent-down :
    (x : Text) (xs : List Text) → All IsSegment (x ∷ xs) → is_descent (ascent ([], x ∷ xs)) ≡ true
unfolding join equal has_prefix
ascent-down [] xs h = cc
ascent-down (a ∷ []) [] h = ground arith
ascent-down (a ∷ b ∷ []) [] h = ground arith
ascent-down (a ∷ b ∷ c ∷ x) [] h = ground arith
ascent-down (a ∷ []) (y ∷ xs) h = ground arith
ascent-down (a ∷ b ∷ []) (y ∷ xs) h = ground arith
ascent-down (a ∷ b ∷ c ∷ x) (y ∷ xs) h = ground arith

ascent-up : (b : Text) (bs ts : List Text) → is_descent (ascent (b ∷ bs, ts)) ≡ false
unfolding join equal has_prefix
ascent-up b [] [] = refl
ascent-up b (c ∷ bs) ts = refl
ascent-up b [] (t ∷ ts) = refl

up_down : (b : Text) (bs ts : List Text) → is_descent (ascent (b ∷ bs, ts)) ≡ true → ⊥
up_down b bs ts h = absurd (differ (sym (ascent-up b bs ts) ∙ h))
  where
    differ : false ≡ true → ⊥
    differ e = cc

-- The elements that two paths do not share tell whether the second is below the first.
descent_iff :
    (ps cs : List Text)
    → All IsSegment cs
    → (is_descent (ascent (apart ps cs)) ≡ true) ↔ IsBelow ps cs
unfolding apart equal join has_prefix
descent_iff [] [] h = (λ e. cc, λ b. absurd (no_more b.0 b.1 b.2))
  where
    no_more : (x : Text) (xs : List Text) → [] ≡ x ∷ xs → ⊥
    no_more x xs e = cc
descent_iff [] (c ∷ cs) h = (λ e. (c, cs, refl), λ b. ascent-down c cs h)
descent_iff (p ∷ ps) [] h = (λ e. absurd (up_down p ps [] e), λ b. absurd (no_more b.0 b.1 b.2))
  where
    no_more : (x : Text) (xs : List Text) → [] ≡ p ∷ ps ++ x ∷ xs → ⊥
    no_more x xs e = cc
descent_iff (p ∷ ps) (c ∷ cs) h = elim (Bool-cases (equal p c)) [
  | inl e ↦ rw e (
    λ d. let (x, xs, k) = (descent_iff ps cs h.1).0 d in (x, xs, cc ((equal_iff p c).0 e, k)),
    λ b. (descent_iff ps cs h.1).1 (b.0, b.1, tail b.0 b.1 b.2),
  )
  | inr e ↦ rw e (
    λ d. absurd (up_down p ps (c ∷ cs) d),
    λ b. absurd (differ (sym e ∙ ((equal_iff p c).1 (head b.0 b.1 b.2)))),
  )
]
  where
    head : (x : Text) (xs : List Text) → c ∷ cs ≡ p ∷ ps ++ x ∷ xs → p ≡ c
    head x xs e = cc

    tail : (x : Text) (xs : List Text) → c ∷ cs ≡ p ∷ ps ++ x ∷ xs → cs ≡ ps ++ x ∷ xs
    tail x xs e = cc

    differ : false ≡ true → ⊥
    differ e = cc

-- A clean absolute path is inside another exactly if its elements are those of the other, followed by
-- at least one more.
pub inside_iff :
    (ps cs : List Text)
    → All IsSegment ps
    → All IsSegment cs
    → (inside (rooted ps) (rooted cs) ≡ true) ↔ IsBelow ps cs
unfolding inside rel
inside_iff ps cs hp hc =
    rw (components-rooted ps hp, components-rooted cs hc) (descent_iff ps cs hc)
