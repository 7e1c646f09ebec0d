-- ===== src/Prelude/Sort.antt =====
-- Insertion sort by a Boolean order, the model of Go's `sort`.
use mathlib.Core.Path.{◌≡◌, refl, ap, ◌∙◌}
use mathlib.Core.Bool.{Bool, true, false, ◌||◌}
use mathlib.Core.List.{List, [], ◌∷◌, Permᴰ}
use mathlib.Core.List.Permᴰ
use native.Mathlib.Omega.{arith}
use mathlib.Core.Logic.{inl, inr}
use package.imoogi_emacs.Prelude.Tests.{Bool-cases}
use package.imoogi_emacs.Prelude.Lists.{any, All}

module _ {ℓ} {A : Type ℓ} (le : A → A → Bool) where
  unfoldable pub insert : A → List A → List A
  insert a [] = a ∷ []
  insert a (b ∷ l) = elim (le a b) [ true ↦ a ∷ b ∷ l | false ↦ b ∷ insert a l ]

  unfoldable pub sort : List A → List A
  unfolding insert
  sort [] = []
  sort (a ∷ l) = insert a (sort l)

  any-insert : (p : A → Bool) (a : A) (l : List A) → any p (insert a l) ≡ (p a || any p l)
  unfolding insert
  any-insert p a [] = refl
  any-insert p a (b ∷ l) = ground (arith, any-insert p a l)

  -- Sorting keeps the elements.
  pub any-sort : (p : A → Bool) (l : List A) → any p (sort l) ≡ any p l
  unfolding sort
  any-sort p [] = refl
  any-sort p (a ∷ l) = any-insert p a (sort l) ∙ ap (λ b. p a || b) (any-sort p l)

  insert-Permᴰ : (a : A) (l : List A) → Permᴰ (a ∷ l) (insert a l)
  unfolding insert
  insert-Permᴰ a [] = Permᴰ.refl (a ∷ [])
  insert-Permᴰ a (b ∷ l) = elim (Bool-cases (le a b)) [
    | inl e ↦ rw (e, insert) (Permᴰ.refl (a ∷ b ∷ l))
    | inr e ↦
        rw (e, insert) (Permᴰ.trans (Permᴰ.swap refl refl) (Permᴰ.cons refl (insert-Permᴰ a l)))
  ]

  -- Sorting permutes.
  pub sort-Permᴰ : (l : List A) → Permᴰ l (sort l)
  unfolding sort
  sort-Permᴰ [] = Permᴰ.nil
  sort-Permᴰ (a ∷ l) = Permᴰ.trans (Permᴰ.cons refl (sort-Permᴰ l)) (insert-Permᴰ a (sort l))

  -- each element is at most every later one
  abbrev pub IsSorted : List A → Type ℓ
  IsSorted [] = Unit
  IsSorted (a ∷ l) = All (λ b. le a b ≡ true) l × IsSorted l

-- what the proofs need of the order
pub record IsTotal {ℓ} {A : Type ℓ} (le : A → A → Bool) : Type ℓ where
  pub total : (a b : A) → (le a b || le b a) ≡ true
  pub antisymm : (a b : A) → le a b ≡ true → le b a ≡ true → a ≡ b
  pub trans : (a b c : A) → le a b ≡ true → le b c ≡ true → le a c ≡ true

module _ {ℓ} {A : Type ℓ} (le : A → A → Bool) (order : IsTotal le) where
  All-insert :
      (x a : A) (l : List A)
      → le x a ≡ true
      → All (λ b. le x b ≡ true) l
      → All (λ b. le x b ≡ true) (insert le a l)
  unfolding insert
  All-insert x a [] h all = (h, tt)
  All-insert x a (b ∷ l) h all = ground (arith, All-insert x a l h)

  All-trans :
      (x a : A) (l : List A)
      → le x a ≡ true
      → All (λ b. le a b ≡ true) l
      → All (λ b. le x b ≡ true) l
  All-trans x a [] h all = tt
  All-trans x a (b ∷ l) h all = (order.trans x a b h all.0, All-trans x a l h all.1)

  insert-IsSorted : (a : A) (l : List A) → IsSorted le l → IsSorted le (insert le a l)
  unfolding insert
  insert-IsSorted a [] s = (tt, tt)
  insert-IsSorted a (b ∷ l) s =
      ground (arith, order.total a b, All-trans a b l, All-insert b a l, insert-IsSorted a l)

  pub sort-IsSorted : (l : List A) → IsSorted le (sort le l)
  unfolding sort
  sort-IsSorted [] = tt
  sort-IsSorted (a ∷ l) = insert-IsSorted a (sort le l) (sort-IsSorted l)

  insert_comm : (a b : A) (l : List A) → insert le a (insert le b l) ≡ insert le b (insert le a l)
  unfolding insert
  insert_comm a b [] = ground (arith, order.total a b, order.antisymm a b)
  insert_comm a b (c ∷ l) = ground (
    arith,
    order.total a b,
    order.antisymm a b,
    order.trans a b c,
    order.trans b a c,
    insert_comm a b l,
  )

  -- The sorted list depends only on the elements and how often each occurs.
  pub sort-perm : {l m : List A} → Permᴰ l m → sort le l ≡ sort le m
  unfolding sort
  sort-perm Permᴰ.nil = refl
  sort-perm (Permᴰ.cons {a} {b} {l₁} {l₂} e p) = cc (e, sort-perm p)
  sort-perm (Permᴰ.swap {a} {b} {a'} {b'} {l} e f) = cc (e, f, insert_comm a b (sort le l))
  sort-perm (Permᴰ.trans p q) = sort-perm p ∙ sort-perm q
