-- ===== src/Artifact/Staging/Safe.antt =====
-- internal/artifact/artifact.go: what is made in the staging directory keeps it safe.
use imoogi_emacs.Prelude.{
  ℕ, zero, suc, ◌+◌, ◌≤◌, Text, ltb, Option, none, some, List, [], ◌∷◌, ◌++◌, length, take, ◌≡◌,
  refl, subst, arith, All, Bool-cases, inl, inr,
}
use mathlib.Core.List.{append_assoc, append-nil}
use imoogi_emacs.Prelude.Paths.{IsSegment}
use imoogi_emacs.Artifact.Paths.{Refusal, already_exists, Result, ok, refused}
use imoogi_emacs.Artifact.Staging.{
  Node, directory, file, symlink, Place, Tree, put, Disk, Faults, Io, proceed, lift, lstat, make,
  create, enter, walk, walk_root, copy_n, when_absent, mkdir_no_symlink_below, write_regular_file,
}
use imoogi_emacs.Artifact.Staging.Trees.{same_refl, IsSafe, Extends, Fits, put-Extends, put-IsSafe}

length-take : (n : ℕ) (c : Text) → length (take n c) ≤ length c
length-take zero c = omega arith
length-take (suc n) [] = omega arith
length-take (suc n) (x ∷ c) = omega (arith, length-take n c)

length-take_bound : (n : ℕ) (c : Text) → length (take n c) ≤ n
length-take_bound zero c = omega arith
length-take_bound (suc n) [] = omega arith
length-take_bound (suc n) (x ∷ c) = omega (arith, length-take_bound n c)

module _ (limit : ℕ) where
  abbrev Yields : {A : Type 0} → (A → Tree → Type 0) → Result A → Tree → Type 0
  Yields Q (ok a) t = Q a t
  Yields Q (refused e) t = Unit

  -- The tree is safe and holds what t held; a success gives Q.
  pub record Post {A : Type 0} (t : Tree) (Q : A → Tree → Type 0) (o : Result A × Disk)
      : Type 0 where
    pub safe : IsSafe limit o.1.tree
    pub extends : Extends t o.1.tree
    pub gives : Yields Q o.0 o.1.tree

  pub Post-weaken :
      {A : Type 0} {t t' : Tree} {Q : A → Tree → Type 0} {o : Result A × Disk}
      → Extends t t'
      → Post t' Q o
      → Post t Q o
  Post-weaken e w = record {
    safe = w.safe;
    extends = λ p n h. w.extends p n (e p n h);
    gives = w.gives;
  }

  pub proceed-Post :
      {A B : Type 0} {t : Tree} (Q : A → Tree → Type 0) {R : B → Tree → Type 0}
      (o : Result A × Disk) (f : A → Io B)
      → Post t Q o
      → ((a : A) (d : Disk)
          → IsSafe limit d.tree
          → Extends t d.tree
          → Q a d.tree
          → Post d.tree R (f a d))
      → Post t R (proceed o f)
  proceed-Post Q (ok a, d) f w k = Post-weaken w.extends (k a d w.safe w.extends w.gives)
  proceed-Post Q (refused e, d) f w k = record { safe = w.safe; extends = w.extends; gives = tt }

  -- an outcome that leaves the tree alone
  pub unchanged :
      {A : Type 0} {Q : A → Tree → Type 0} (r : Result A) (d : Disk)
      → IsSafe limit d.tree
      → Yields Q r d.tree
      → Post d.tree Q (r, d)
  unchanged r d s g = record { safe = s; extends = λ p n h. h; gives = g }

  abbrev pub Standing : Place → Unit {0} → Tree → Type 0
  Standing p u t = t p ≡ some directory

  pub forget :
      {t : Tree} {Q : Unit {0} → Tree → Type 0} {o : Result (Unit {0}) × Disk}
      → Post t Q o
      → Post t (λ u t'. Unit) o
  forget {o = (ok a, d)} w = record { safe = w.safe; extends = w.extends; gives = tt }
  forget {o = (refused e, d)} w = record { safe = w.safe; extends = w.extends; gives = tt }

  torn_file :
      {t : Tree} {Q R : Unit {0} → Tree → Type 0} {e : Refusal} {d : Disk}
      → Post t Q (refused e, d)
      → Post t R (refused e, d)
  torn_file w = record { safe = w.safe; extends = w.extends; gives = tt }

  module _ (faults : Faults) where
    pub lstat-Post :
        (p : Place) (d : Disk)
        → IsSafe limit d.tree
        → Post d.tree (λ o t. t p ≡ o) (lstat faults p d)
    unfolding lstat
    lstat-Post p d s = elim (Bool-cases (faults.fails d.calls)) [
      | inl e ↦ rw e (record { safe = s; extends = λ q n h. h; gives = tt })
      | inr e ↦ rw e (record { safe = s; extends = λ q n h. h; gives = refl })
    ]

    module _ (p : Place) (x : Text) (plain : IsSegment x) where
      placed :
          (n : Node) (d : Disk) (calls : ℕ)
          → IsSafe limit d.tree
          → d.tree p ≡ some directory
          → d.tree (p ++ x ∷ []) ≡ none
          → Fits limit d.tree (p ++ x ∷ []) n
          → (r : Result (Unit {0}))
          → Post d.tree
              (λ u t. t (p ++ x ∷ []) ≡ some n)
              (r, record { tree = put d.tree (p ++ x ∷ []) n; calls = calls })
      placed n d calls s above absent fits r = record {
        safe = put-IsSafe limit d.tree s p x n above absent plain fits;
        extends = put-Extends d.tree (p ++ x ∷ []) n absent;
        gives = given r;
      }
        where
          given :
              (r : Result (Unit {0}))
              → Yields (λ u t. t (p ++ x ∷ []) ≡ some n) r (put d.tree (p ++ x ∷ []) n)
          given (ok a) = rw (same_refl (p ++ x ∷ [])) refl
          given (refused e) = tt

      pub make-Post :
          (n : Node) (d : Disk)
          → IsSafe limit d.tree
          → d.tree p ≡ some directory
          → d.tree (p ++ x ∷ []) ≡ none
          → Fits limit d.tree (p ++ x ∷ []) n
          → Post d.tree (λ u t. t (p ++ x ∷ []) ≡ some n) (make faults (p ++ x ∷ []) n d)
      unfolding make
      make-Post n d s above absent fits = elim (Bool-cases (faults.fails d.calls)) [
        | inl e ↦ rw e (record { safe = s; extends = λ q m h. h; gives = tt })
        | inr e ↦ rw e (placed n d _ s above absent fits (ok tt))
      ]

      pub create-Post :
          (c : Text) (d : Disk)
          → IsSafe limit d.tree
          → d.tree p ≡ some directory
          → d.tree (p ++ x ∷ []) ≡ none
          → length c ≤ limit
          → Post d.tree (λ u t. t (p ++ x ∷ []) ≡ some (file c)) (create faults (p ++ x ∷ []) c d)
      unfolding create
      create-Post c d s above absent fits = elim (Bool-cases (faults.fails d.calls)) [
        | inl e ↦ rw e (record { safe = s; extends = λ q m h. h; gives = tt })
        | inr e ↦ elim (Bool-cases (faults.fails (d.calls + 1))) [
          | inl torn ↦
              rw (e, torn)
                (torn_file (
                  placed (file (take faults.kept c)) d _ s above absent
                    (omega (arith, length-take faults.kept c)) (refused _)))
          | inr whole ↦ rw (e, whole) (placed (file c) d _ s above absent fits (ok tt))
        ]
      ]

      enter-Post :
          (o : Option Node) (d : Disk)
          → IsSafe limit d.tree
          → d.tree p ≡ some directory
          → d.tree (p ++ x ∷ []) ≡ o
          → Post d.tree (Standing (p ++ x ∷ [])) (enter faults (p ++ x ∷ []) o d)
      unfolding enter
      enter-Post none d s above found = make-Post directory d s above found tt
      enter-Post (some directory) d s above found = unchanged (ok tt) d s found
      enter-Post (some (file c)) d s above found = unchanged (refused _) d s tt
      enter-Post (some (symlink c)) d s above found = unchanged (refused _) d s tt

    walk-Post :
        (current : Place) (ps : List Text) (d : Disk)
        → All IsSegment ps
        → IsSafe limit d.tree
        → d.tree current ≡ some directory
        → Post d.tree (Standing (current ++ ps)) (walk faults current ps d)
    unfolding walk
    walk-Post current [] d plain s above = unchanged (ok tt) d s (rw append-nil above)
    walk-Post current (p ∷ ps) d plain s above =
        proceed-Post (λ o t. t (current ++ p ∷ []) ≡ o) (lstat faults (current ++ p ∷ []) d) _
          (lstat-Post (current ++ p ∷ []) d s)
          (λ o d1 s1 e1 found.
            proceed-Post (Standing (current ++ p ∷ [])) (enter faults (current ++ p ∷ []) o d1) _
              (enter-Post current p plain.0 o d1 s1 (e1 current directory above) found)
              (λ u d2 s2 e2 stands.
                subst (λ q. Post d2.tree (Standing q) (walk faults (current ++ p ∷ []) ps d2))
                  (append_assoc current (p ∷ []) ps)
                  (walk-Post (current ++ p ∷ []) ps d2 plain.1 s2 stands)))

    pub mkdir-Post :
        (p : Place) (d : Disk)
        → All IsSegment p
        → IsSafe limit d.tree
        → Post d.tree (Standing p) (mkdir_no_symlink_below faults p d)
    unfolding mkdir_no_symlink_below
    mkdir-Post p d plain s =
        proceed-Post (λ o t. t [] ≡ o) (lstat faults [] d) _ (lstat-Post [] d s)
          (λ o d1 s1 e1 found. from_root o d1 s1 found)
      where
        from_root :
            (o : Option Node) (d1 : Disk)
            → IsSafe limit d1.tree
            → d1.tree [] ≡ o
            → Post d1.tree (Standing p) (walk_root faults o p d1)
        from_root none d1 s1 found = unchanged (refused _) d1 s1 tt
        from_root (some directory) d1 s1 found = walk-Post [] p d1 plain s1 found
        from_root (some (file c)) d1 s1 found = unchanged (refused _) d1 s1 tt
        from_root (some (symlink c)) d1 s1 found = unchanged (refused _) d1 s1 tt

    pub lift-Post :
        {A : Type 0} (r : Result A) (d : Disk)
        → IsSafe limit d.tree
        → Post d.tree (λ a t. r ≡ ok a) (lift r d)
    lift-Post (ok a) d s = unchanged (ok a) d s refl
    lift-Post (refused e) d s = unchanged (refused e) d s tt

    module _ (p : Place) (x : Text) (plain : IsSegment x) where
      copy_n-Post :
          (c : Text) (size : ℕ) (d : Disk)
          → IsSafe limit d.tree
          → d.tree p ≡ some directory
          → d.tree (p ++ x ∷ []) ≡ none
          → size ≤ limit
          → Post d.tree (λ u t. Unit) (copy_n faults (p ++ x ∷ []) c size d)
      copy_n-Post c size d s above absent fits =
          let w =
            create-Post p x plain (take size c) d s above absent
              (omega (arith, length-take_bound size c)) in
          elim (Bool-cases (ltb (length c) size)) [
            | inl short ↦ rw short (record { safe = w.safe; extends = w.extends; gives = tt })
            | inr enough ↦ rw enough (forget w)
          ]

      pub write_regular_file-Post :
          (c : Text) (size : ℕ) (d : Disk)
          → IsSafe limit d.tree
          → d.tree p ≡ some directory
          → size ≤ limit
          → Post d.tree (λ u t. Unit) (write_regular_file faults (p ++ x ∷ []) c size d)
      unfolding write_regular_file
      write_regular_file-Post c size d s above fits =
          proceed-Post (λ o t. t (p ++ x ∷ []) ≡ o) (lstat faults (p ++ x ∷ []) d) _
            (lstat-Post (p ++ x ∷ []) d s)
            (λ o d1 s1 e1 found. on o d1 s1 (e1 p directory above) found)
        where
          on :
              (o : Option Node) (d1 : Disk)
              → IsSafe limit d1.tree
              → d1.tree p ≡ some directory
              → d1.tree (p ++ x ∷ []) ≡ o
              → Post d1.tree
                  (λ u t. Unit)
                  (when_absent already_exists o (copy_n faults (p ++ x ∷ []) c size) d1)
          on none d1 s1 above1 found = copy_n-Post c size d1 s1 above1 found fits
          on (some n) d1 s1 above1 found = unchanged (refused _) d1 s1 tt
