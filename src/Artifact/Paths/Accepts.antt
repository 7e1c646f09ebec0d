-- ===== src/Artifact/Paths/Accepts.antt =====
-- internal/artifact/artifact.go: which names cleanArchivePath accepts.
use imoogi_emacs.Prelude.{
  ℕ, Text, text, equal, equal_iff, equal_refl, Bool, true, false, ◌==◌, List, [], ◌∷◌, ◌≡◌, ◌↔◌,
  refl, sym, ap, subst, ◌∙◌, arith, any, All, All-imp, Bool-cases, inl, inr,
}
use imoogi_emacs.Prelude.Paths.{
  prepend, split, split_parts, join, has_prefix, is_abs, clean, IsSegment, join-split, split-join,
  clean-join, first_relative,
}
use imoogi_emacs.Artifact.Paths.{
  Result, ok, refused, trim_slashes, backslash_byte, colon_byte, bad_segment, has_ascent,
  check_path, clean_archive_path, ◌>>=◌, contain, contained_path,
}

-- components joined by slashes, none of them empty, `.` or `..`, and no backslash or colon
pub record IsArchivePath (c : Text) : Type 0 where
  pub first : Text
  pub rest : List Text
  pub joined : c ≡ join b'/' (first ∷ rest)
  pub segments : All IsSegment (first ∷ rest)
  pub no_backslash : any backslash_byte c ≡ false
  pub no_colon : any colon_byte c ≡ false

abbrev later : List Text → List Text
later [] = []
later (p ∷ ps) = ps

any-later : (p : Text → Bool) (l : List Text) → any p (later l) ≡ true → any p l ≡ true
any-later p [] h = h
any-later p (x ∷ l) h = ground arith

up_bytes :
    (a b c : ℕ) (s : Text)
    → has_prefix (a ∷ b ∷ c ∷ s) (text "../") ≡ true
    → (a ≡ b'.') × (b ≡ b'.') × (c ≡ b'/')
unfolding has_prefix
up_bytes a b c s h = ground arith

-- a path that begins with `../` has `..` as its first part
bad-up : (s : Text) → has_prefix s (text "../") ≡ true → any bad_segment (split b'/' s) ≡ true
unfolding has_prefix split prepend equal
bad-up [] h = cc
bad-up (a ∷ []) h = ground arith
bad-up (a ∷ b ∷ []) h = ground arith
bad-up (a ∷ b ∷ c ∷ s) h = let e = up_bytes a b c s h in rw (e.0, e.1, e.2) refl

later-prepend :
    (c : ℕ) (l : List Text)
    → any bad_segment (later l) ≡ true
    → any bad_segment (later (prepend c l)) ≡ true
unfolding prepend
later-prepend c [] h = cc
later-prepend c (p ∷ l) h = h

slash : (c : ℕ) (s : Text) → has_prefix (c ∷ s) (text "/../") ≡ true → c ≡ b'/'
unfolding has_prefix
slash c s h = ground arith

up_after :
    (c : ℕ) (s : Text) → has_prefix (c ∷ s) (text "/../") ≡ true → has_prefix s (text "../") ≡ true
unfolding has_prefix
up_after c s h = ground arith

-- `/../` inside a path gives it a part `..`
bad-ascent : (s : Text) → has_ascent s ≡ true → any bad_segment (later (split b'/' s)) ≡ true
unfolding split
bad-ascent [] h = cc
bad-ascent (c ∷ s) h = elim (Bool-cases (has_prefix (c ∷ s) (text "/../"))) [
  | inl here ↦ rw (slash c s here) (bad-up s (up_after c s here))
  | inr deeper ↦
      ground
        (arith, later-prepend c (split b'/' s), any-later bad_segment (split b'/' s), bad-ascent s)
]

abbrev IsPlain : Text → Type 0
IsPlain p = any (λ c. c == b'/') p ≡ false

prepend-IsPlain :
    (c : ℕ) (l : List Text) → (c == b'/') ≡ false → All IsPlain l → All IsPlain (prepend c l)
unfolding prepend
prepend-IsPlain c [] e h = ground arith
prepend-IsPlain c (p ∷ l) e h = (rw (e, h.0) refl, h.1)

-- each part of a split is free of the separator
split-IsPlain : (s : Text) → All IsPlain (split b'/' s)
unfolding split prepend
split-IsPlain [] = (refl, tt)
split-IsPlain (c ∷ s) = elim (Bool-cases (c == b'/')) [
  | inl e ↦ rw e (refl, split-IsPlain s)
  | inr e ↦ rw e (prepend-IsPlain c (split b'/' s) e (split-IsPlain s))
]

segments_of : (l : List Text) → any bad_segment l ≡ false → All IsPlain l → All IsSegment l
segments_of [] h k = tt
segments_of (p ∷ l) h k =
    ((ground arith, ground arith, ground arith, k.0), segments_of l (ground arith) k.1)

good_of : (l : List Text) → All IsSegment l → any bad_segment l ≡ false
good_of [] h = refl
good_of (p ∷ l) h = rw (h.0.0, h.0.1, h.0.2) (good_of l h.1)

checked :
    (n c : Text)
    → check_path n ≡ ok c
    → (c ≡ n)
      × (any backslash_byte n ≡ false)
      × (any colon_byte n ≡ false)
      × (any bad_segment (split b'/' n) ≡ false)
unfolding check_path
checked n c h = ground (arith, equal_iff (clean n) n)

path_of :
    (c : Text)
    → any backslash_byte c ≡ false
    → any colon_byte c ≡ false
    → any bad_segment (split b'/' c) ≡ false
    → IsArchivePath c
path_of c h k g =
    let (p, ps, e) = split_parts b'/' c in
    record {
      first = p;
      rest = ps;
      joined = sym (ap (join b'/') (sym e) ∙ join-split b'/' c);
      segments =
          segments_of (p ∷ ps) (ap (any bad_segment) (sym e) ∙ g)
            (subst (All IsPlain) e (split-IsPlain c));
      no_backslash = h;
      no_colon = k;
    }

contradiction : true ≡ false → ⊥
contradiction h = cc

differs :
    (n s : Text)
    → any bad_segment (split b'/' n) ≡ false
    → any bad_segment (split b'/' s) ≡ true
    → equal n s ≡ false
differs n s h k = elim (Bool-cases (equal n s)) [
  | inl e ↦ absurd (
      contradiction
        (sym k ∙ (ap (λ t. any bad_segment (split b'/' t)) (sym ((equal_iff n s).0 e)) ∙ h)))
  | inr e ↦ e
]

not-true : {b : Bool} → (b ≡ true → ⊥) → b ≡ false
not-true {b} h = elim (Bool-cases b) [ inl e ↦ absurd (h e) | inr e ↦ e ]

module _ (n : Text) (good : any bad_segment (split b'/' n) ≡ false) where
  not_up : has_prefix n (text "../") ≡ false
  not_up = not-true (λ h. contradiction (sym (bad-up n h) ∙ good))

  not_inside : has_ascent n ≡ false
  not_inside = not-true (λ h. contradiction (sym (any-later bad_segment _ (bad-ascent n h)) ∙ good))

split_path : (n : Text) (w : IsArchivePath n) → split b'/' n ≡ w.first ∷ w.rest
split_path n w =
    ap (split b'/') w.joined
    ∙ split-join b'/' w.first w.rest (All-imp _ (w.first ∷ w.rest) (λ q k. k.3) w.segments)

-- an archive path passes every test
pub check_path_complete : (n : Text) → IsArchivePath n → check_path n ≡ ok n
unfolding check_path split equal prepend
check_path_complete n w =
    let good = ap (any bad_segment) (split_path n w) ∙ good_of (w.first ∷ w.rest) w.segments in
    let relative = ap is_abs w.joined ∙ first_relative w.first w.rest w.segments.0 in
    let same = ap clean w.joined ∙ (clean-join w.first w.rest w.segments ∙ sym w.joined) in
    rw
      (
        differs n [] good refl,
        w.no_backslash,
        w.no_colon,
        relative,
        same,
        differs n (text ".") good refl,
        differs n (text "..") good refl,
        not_up n good,
        not_inside n good,
        equal_refl n,
        good,
      )
      refl

-- A name is accepted, as the path c, exactly when c is the name without its trailing slashes and
-- consists of components joined by slashes, none of them empty, `.` or `..`, with no backslash or
-- colon.
pub clean_archive_path_iff :
    (name c : Text) → (clean_archive_path name ≡ ok c) ↔ ((c ≡ trim_slashes name) × IsArchivePath c)
unfolding clean_archive_path trim_slashes check_path equal
clean_archive_path_iff [] c = (λ h. cc, λ (e, w). cc (check_path_complete c w))
clean_archive_path_iff (b ∷ name) c = (
  λ h.
      let (e, k, l, g) = checked (trim_slashes (b ∷ name)) c h in
      (e, path_of c (rw e k) (rw e l) (rw e g)),
  λ (e, w). rw (← e) (check_path_complete c w),
)

contain-split : (rel : Text) (p : List Text) → contain rel ≡ ok p → p ≡ split b'/' rel
unfolding contain
contain-split rel p h = ground arith

-- What contained_path gives are plain components, and there is one.
pub contained_path-segments :
    (name : Text) (p : List Text)
    → contained_path name ≡ ok p
    → (first : Text) × (rest : List Text) × (p ≡ first ∷ rest) × All IsSegment (first ∷ rest)
unfolding contained_path
contained_path-segments name p = go (clean_archive_path name) refl
  where
    go :
        (r : Result Text)
        → clean_archive_path name ≡ r
        → (r >>= contain) ≡ ok p
        → (first : Text) × (rest : List Text) × (p ≡ first ∷ rest) × All IsSegment (first ∷ rest)
    go (refused e) h k = cc
    go (ok rel) h k =
        let w = ((clean_archive_path_iff name rel).0 h).1 in
        (w.first, w.rest, contain-split rel p k ∙ split_path rel w, w.segments)
