-- ===== src/Prelude/Paths.antt =====
-- Go's strings.Split and Join on one byte, and the lexical part of the package `path`: Clean, IsAbs,
-- Join and Dir.
use Prim.Native.Nat.{ℕ}
use mathlib.Core.Path.{◌≡◌, refl, sym, ap, ◌∙◌}
use mathlib.Core.Bool.{Bool, true, false, not, ◌&&◌, ◌||◌}
use mathlib.Core.List.{
  List, [], ◌∷◌, ◌++◌, reverse, append-nil, append_assoc, reverse-cons, reverse-reverse,
}
use mathlib.Core.Logic.{inl, inr}
use native.Mathlib.Omega.{arith}
use package.imoogi_emacs.Prelude.Tests.{◌==◌, if◌then◌else◌, ==_refl, ==_iff, Bool-cases}
use package.imoogi_emacs.Prelude.Bytes.{Text, text, equal}
use package.imoogi_emacs.Prelude.Lists.{any, All, All-imp}

-- a byte in front of the first part
unfoldable pub prepend : ℕ → List Text → List Text
prepend c [] = (c ∷ []) ∷ []
prepend c (p ∷ ps) = (c ∷ p) ∷ ps

-- strings.Split(s, b)
unfoldable pub split : ℕ → Text → List Text
unfolding prepend
split b [] = [] ∷ []
split b (c ∷ s) = let rest = split b s in if c == b then [] ∷ rest else prepend c rest

-- strings.Join(ps, b)
unfoldable pub join : ℕ → List Text → Text
join b [] = []
join b (p ∷ []) = p
join b (p ∷ q ∷ ps) = p ++ b ∷ join b (q ∷ ps)

unfoldable pub has_prefix : Text → Text → Bool
has_prefix s [] = true
has_prefix [] (c ∷ p) = false
has_prefix (d ∷ s) (c ∷ p) = d == c && has_prefix s p

-- strings.HasPrefix(s, "/"), path.IsAbs
unfoldable pub is_abs : Text → Bool
is_abs [] = false
is_abs (c ∷ s) = c == b'/'

-- `..` takes back the component before it, unless that is one too or there is none.
abbrev pub ascend : Bool → List Text → List Text
ascend true [] = []
ascend false [] = text ".." ∷ []
ascend rooted (p ∷ ps) = if equal p (text "..") then text ".." ∷ p ∷ ps else ps

-- the components that are left, the last first
unfoldable pub descend : Bool → List Text → List Text → List Text
unfolding equal
descend rooted [] stack = stack
descend rooted (p ∷ ps) stack = descend rooted ps (
    if equal p [] || equal p (text ".")
    then stack
    else if equal p (text "..")
    then ascend rooted stack
    else p ∷ stack)

abbrev pub rebuild : Bool → List Text → Text
rebuild true ps = b'/' ∷ join b'/' ps
rebuild false [] = text "."
rebuild false (p ∷ ps) = join b'/' (p ∷ ps)

-- path.Clean
unfoldable pub clean : Text → Text
unfolding split join is_abs descend
clean s = rebuild (is_abs s) (reverse (descend (is_abs s) (split b'/' s) []))

-- the bytes up to the last slash and that slash
unfoldable pub dir_part : Text → Text
dir_part [] = []
dir_part (c ∷ s) =
    let rest = dir_part s in if equal rest [] && not (c == b'/') then [] else c ∷ rest

-- path.Dir
unfoldable pub dir : Text → Text
unfolding dir_part clean
dir s = clean (dir_part s)

-- path.Join of two
unfoldable pub join_path : Text → Text → Text
unfolding clean equal
join_path a b =
    if equal a []
    then (if equal b [] then [] else clean b)
    else if equal b []
    then clean a
    else clean (a ++ b'/' ∷ b)

-- a component that names an entry of the directory it stands in
abbrev pub IsSegment : Text → Type 0
IsSegment p =
    (equal p [] ≡ false)
    × (equal p (text ".") ≡ false)
    × (equal p (text "..") ≡ false)
    × (any (λ c. c == b'/') p ≡ false)

module _ (b : ℕ) where
  join-prepend : (c : ℕ) (ps : List Text) → join b (prepend c ps) ≡ c ∷ join b ps
  unfolding prepend join
  join-prepend c [] = refl
  join-prepend c (p ∷ []) = refl
  join-prepend c (p ∷ q ∷ ps) = refl

  join-nil-prepend :
      (c : ℕ) (ps : List Text) → join b ([] ∷ prepend c ps) ≡ b ∷ join b (prepend c ps)
  unfolding prepend join
  join-nil-prepend c [] = refl
  join-nil-prepend c (p ∷ ps) = refl

  join-nil : (s : Text) → join b ([] ∷ split b s) ≡ b ∷ join b (split b s)
  unfolding split join prepend
  join-nil [] = refl
  join-nil (c ∷ s) = elim (Bool-cases (c == b)) [
    | inl e ↦ rw e refl
    | inr e ↦ rw e (join-nil-prepend c (split b s))
  ]

  -- Joining the parts gives the text back.
  pub join-split : (s : Text) → join b (split b s) ≡ s
  unfolding split join
  join-split [] = refl
  join-split (c ∷ s) = elim (Bool-cases (c == b)) [
    | inl e ↦ rw (e, join-nil s, join-split s) (ap (λ x. x ∷ s) (sym ((==_iff c b).0 e)))
    | inr e ↦ rw (e, join-prepend c (split b s), join-split s) refl
  ]

  split_plain :
      (p : Text)
      → any (λ c. c == b) p ≡ false
      → (rest : List Text) (s : Text) → split b s ≡ [] ∷ rest
      → split b (p ++ s) ≡ p ∷ rest
  unfolding split prepend
  split_plain [] h rest s e = e
  split_plain (c ∷ p) h rest s e = ground (arith, split_plain p (ground arith) rest s e)

  -- Parts without the separator are read back from their join.
  pub split-join :
      (p : Text) (ps : List Text)
      → All (λ q. any (λ c. c == b) q ≡ false) (p ∷ ps)
      → split b (join b (p ∷ ps)) ≡ p ∷ ps
  unfolding split join
  split-join p [] h = ap (split b) (sym (append-nil p)) ∙ split_plain p h.0 [] [] refl
  split-join p (q ∷ ps) h =
      split_plain p h.0 (q ∷ ps) (b ∷ join b (q ∷ ps))
        (rw ==_refl (ap (λ r. [] ∷ r) (split-join q ps h.1)))

prepend_parts : (c : ℕ) (l : List Text) → (p : Text) × (ps : List Text) × (prepend c l ≡ p ∷ ps)
unfolding prepend
prepend_parts c [] = (c ∷ [], [], refl)
prepend_parts c (p ∷ ps) = (c ∷ p, ps, refl)

-- There is always a part.
pub split_parts : (b : ℕ) (s : Text) → (p : Text) × (ps : List Text) × (split b s ≡ p ∷ ps)
unfolding split
split_parts b [] = ([], [], refl)
split_parts b (c ∷ s) = elim (Bool-cases (c == b)) [
  | inl e ↦ ([], split b s, rw e refl)
  | inr e ↦ rw e (prepend_parts c (split b s))
]

-- Components that are kept leave the stack with them on top.
descend_segments :
    (rooted : Bool) (ps stack : List Text)
    → All IsSegment ps
    → descend rooted ps stack ≡ reverse ps ++ stack
unfolding descend
descend_segments rooted [] stack h = refl
descend_segments rooted (p ∷ ps) stack h =
    rw (h.0.0, h.0.1, h.0.2)
      (descend_segments rooted ps (p ∷ stack) h.1
        ∙ (sym (append_assoc (reverse ps) (p ∷ []) stack)
            ∙ ap (λ l. l ++ stack) (sym (reverse-cons p ps))))

pub first_relative : (p : Text) (ps : List Text) → IsSegment p → is_abs (join b'/' (p ∷ ps)) ≡ false
unfolding is_abs join equal
first_relative [] ps h = cc
first_relative (c ∷ p) [] h = ground arith
first_relative (c ∷ p) (q ∷ ps) h = ground arith

-- Clean keeps a path of such components as it is.
pub clean-join :
    (p : Text) (ps : List Text)
    → All IsSegment (p ∷ ps)
    → clean (join b'/' (p ∷ ps)) ≡ join b'/' (p ∷ ps)
unfolding clean
clean-join p ps h =
    rw
      (
        first_relative p ps h.0,
        split-join b'/' p ps (All-imp _ (p ∷ ps) (λ q k. k.3) h),
        descend_segments false (p ∷ ps) [] h,
        append-nil,
        reverse-reverse,
      )
      refl
