-- ===== src/Artifact/Staging/Trees.antt =====
-- The staging directory as a tree: what is put into it below a real directory keeps it one.
use imoogi_emacs.Prelude.{
  ℕ, ◌≤◌, Text, equal_iff, true, none, some, some_eq, [], ◌∷◌, ◌++◌, length, ◌≡◌, ◌↔◌, ◌⊎◌, refl,
  sym, ap, subst, ◌∙◌, arith, All, All-append, Bool-cases, inl, inr,
}
use imoogi_emacs.Prelude.Paths.{IsSegment, clean, join_path, dir}
use imoogi_emacs.Artifact.Paths.{ok, contained_path, contain}
use imoogi_emacs.Artifact.Staging.{
  Node, directory, file, symlink, Place, Tree, same, put, empty_tree,
}

pub same_iff : (p q : Place) → (same p q ≡ true) ↔ (p ≡ q)
unfolding same
same_iff (a ∷ p) (b ∷ q) = ground (arith, equal_iff a b, same_iff p q)
same_iff _ _ = ground arith

pub same_refl : (p : Place) → same p p ≡ true
same_refl p = (same_iff p p).1 refl

-- a file or a directory
abbrev pub IsReal : Node → Type 0
IsReal directory = Unit
IsReal (file c) = Unit
IsReal (symlink t) = ⊥

-- A link at p leads, read from the directory it stands in, to a file or directory of the tree.
pub record IsLinked (t : Tree) (p : Place) (target : Text) : Type 0 where
  pub name : Text
  pub place : Place
  pub node : Node
  pub at : contained_path name ≡ ok p
  pub resolves : contain (clean (join_path (dir name) target)) ≡ ok place
  pub found : t place ≡ some node
  pub real : IsReal node

-- Every entry stands in a real directory below the root and has a plain name, every file is within
-- the limit, and every link leads to an entry that is not a link.
pub record IsSafe (limit : ℕ) (t : Tree) : Type 0 where
  pub root : t [] ≡ some directory
  pub parents : (p : Place) (x : Text) (n : Node) → t (p ++ x ∷ []) ≡ some n → t p ≡ some directory
  pub segments : (p : Place) (n : Node) → t p ≡ some n → All IsSegment p
  pub bounded : (p : Place) (c : Text) → t p ≡ some (file c) → length c ≤ limit
  pub linked : (p : Place) (target : Text) → t p ≡ some (symlink target) → IsLinked t p target

-- nothing is replaced or removed
abbrev pub Extends : Tree → Tree → Type 0
Extends t t' = (p : Place) (n : Node) → t p ≡ some n → t' p ≡ some n

abbrev pub Fits : ℕ → Tree → Place → Node → Type 0
Fits limit t p directory = Unit
Fits limit t p (file c) = length c ≤ limit
Fits limit t p (symlink target) = IsLinked t p target

IsLinked-Extends :
    {t t' : Tree} {p : Place} {target : Text}
    → Extends t t'
    → IsLinked t p target
    → IsLinked t' p target
IsLinked-Extends e w = record {
  name = w.name;
  place = w.place;
  node = w.node;
  at = w.at;
  resolves = w.resolves;
  found = e w.place w.node w.found;
  real = w.real;
}

none-some : {n : Node} → none ≡ some n → ⊥
none-some h = cc

pub put-Extends : (t : Tree) (p : Place) (n : Node) → t p ≡ none → Extends t (put t p n)
put-Extends t p n absent q m h = elim (Bool-cases (same p q)) [
  | inl e ↦ absurd (none-some (sym absent ∙ (ap t ((same_iff p q).0 e) ∙ h)))
  | inr e ↦ rw e h
]

snoc_inj : (p q : Place) (x y : Text) → (p ++ x ∷ []) ≡ (q ++ y ∷ []) → (p ≡ q) × (x ≡ y)
snoc_inj [] [] x y h = (refl, cc)
snoc_inj [] (b ∷ []) x y h = cc
snoc_inj [] (b ∷ c ∷ q) x y h = cc
snoc_inj (a ∷ []) [] x y h = cc
snoc_inj (a ∷ c ∷ p) [] x y h = cc
snoc_inj (a ∷ p) (b ∷ q) x y h =
    let e = snoc_inj p q x y (cc) in let first : a ≡ b = cc in (cc (e.0), e.1)

-- a look-up in the new tree is of the new node or of an old one
put_cases :
    (t : Tree) (p q : Place) (n m : Node)
    → put t p n q ≡ some m
    → ((p ≡ q) × (n ≡ m)) ⊎ (t q ≡ some m)
put_cases t p q n m h = elim (Bool-cases (same p q)) [
  | inl e ↦ inl ((same_iff p q).0 e, some_eq (sym (rw e refl) ∙ h))
  | inr e ↦ inr (sym (rw e refl) ∙ h)
]

module _ (limit : ℕ) (t : Tree) (safe : IsSafe limit t) (p : Place) (x : Text) (n : Node)
    (above : t p ≡ some directory) (absent : t (p ++ x ∷ []) ≡ none) (plain : IsSegment x)
    (fits : Fits limit t (p ++ x ∷ []) n) where
  put_parents :
      (q : Place) (y : Text) (m : Node)
      → put t (p ++ x ∷ []) n (q ++ y ∷ []) ≡ some m
      → t q ≡ some directory
  put_parents q y m h = elim (put_cases t (p ++ x ∷ []) (q ++ y ∷ []) n m h) [
    | inl e ↦ ap t (sym (snoc_inj p q x y e.0).0) ∙ above
    | inr old ↦ safe.parents q y m old
  ]

  put_segments : (q : Place) (m : Node) → put t (p ++ x ∷ []) n q ≡ some m → All IsSegment q
  put_segments q m h = elim (put_cases t (p ++ x ∷ []) q n m h) [
    | inl e ↦
        subst (All IsSegment) e.0
          (All-append IsSegment p (x ∷ []) (safe.segments p directory above) (plain, tt))
    | inr old ↦ safe.segments q m old
  ]

  put_bounded : (q : Place) (c : Text) → put t (p ++ x ∷ []) n q ≡ some (file c) → length c ≤ limit
  put_bounded q c h = elim (put_cases t (p ++ x ∷ []) q n (file c) h) [
    | inl e ↦ subst (Fits limit t (p ++ x ∷ [])) e.1 fits
    | inr old ↦ safe.bounded q c old
  ]

  put-IsLinked :
      (q : Place) (target : Text)
      → put t (p ++ x ∷ []) n q ≡ some (symlink target)
      → IsLinked t q target
  put-IsLinked q target h = elim (put_cases t (p ++ x ∷ []) q n (symlink target) h) [
    | inl e ↦ subst (λ r. IsLinked t r target) e.0 (subst (Fits limit t (p ++ x ∷ [])) e.1 fits)
    | inr old ↦ safe.linked q target old
  ]

  -- An entry with a plain name, put below a real directory where nothing stands, keeps the tree safe.
  pub put-IsSafe : IsSafe limit (put t (p ++ x ∷ []) n)
  put-IsSafe =
      let keeps = put-Extends t (p ++ x ∷ []) n absent in
      record {
        root = keeps [] directory safe.root;
        parents = λ q y m h. keeps q directory (put_parents q y m h);
        segments = put_segments;
        bounded = put_bounded;
        linked = λ q target h. IsLinked-Extends keeps (put-IsLinked q target h);
      }

empty_below : (p : Place) (y : Text) → empty_tree (p ++ y ∷ []) ≡ none
unfolding empty_tree
empty_below [] y = refl
empty_below (a ∷ p) y = refl

only_root : (p : Place) (n : Node) → empty_tree p ≡ some n → All IsSegment p
unfolding empty_tree
only_root [] n h = tt
only_root (a ∷ p) n h = absurd (none-some h)

no_file : {limit : ℕ} (p : Place) (c : Text) → empty_tree p ≡ some (file c) → length c ≤ limit
unfolding empty_tree
no_file [] c h = cc
no_file (a ∷ p) c h = cc

no_link :
    (p : Place) (target : Text)
    → empty_tree p ≡ some (symlink target)
    → IsLinked empty_tree p target
unfolding empty_tree
no_link [] target h = cc
no_link (a ∷ p) target h = cc

pub empty_tree-IsSafe : (limit : ℕ) → IsSafe limit empty_tree
unfolding empty_tree
empty_tree-IsSafe limit = record {
  root = refl;
  parents = λ p y n h. absurd (none-some (sym (empty_below p y) ∙ h));
  segments = only_root;
  bounded = no_file;
  linked = no_link;
}
