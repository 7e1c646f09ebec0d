-- ===== src/Prelude/Bytes.antt =====
-- Go strings: sequences of bytes. `text` gives the UTF-8 bytes of a literal.
use Prim.Native.Nat.{ℕ, zero, suc, ◌+◌, ◌-◌, ◌/◌, ◌%◌}
use Prim.Native.Char.{code}
use Prim.Native.String.{String}
use mathlib.Core.Path.{◌≡◌, refl}
use mathlib.Core.Logic.{◌↔◌}
use mathlib.Core.Bool.{Bool, true, false, ◌&&◌, ◌||◌}
use mathlib.Core.List.{List, [], ◌∷◌, ◌++◌, map, reverse}
use native.Mathlib.Omega.{arith}
use package.imoogi_emacs.Prelude.Tests.{ltb, leb, ◌==◌, if◌then◌else◌}

abbrev pub Text : Type 0
Text = List ℕ

-- the UTF-8 bytes of a code point below 2^16
abbrev utf8 : ℕ → List ℕ
utf8 c =
    if ltb c 128
    then c ∷ []
    else if ltb c 2048
    then (192 + c / 64) ∷ (128 + c % 64) ∷ []
    else (224 + c / 4096) ∷ (128 + c / 64 % 64) ∷ (128 + c % 64) ∷ []

abbrev pub text : String → Text
text String.[] = []
text (String.◌∷◌ c s) = utf8 (code c) ++ text s

-- a == b
unfoldable pub equal : Text → Text → Bool
equal [] [] = true
equal (x ∷ xs) (y ∷ ys) = x == y && equal xs ys
equal _ _ = false

pub equal_iff : (a b : Text) → (equal a b ≡ true) ↔ (a ≡ b)
unfolding equal
equal_iff (x ∷ a) (y ∷ b) = ground (arith, equal_iff a b)
equal_iff _ _ = ground arith

pub equal_refl : (a : Text) → equal a a ≡ true
equal_refl a = (equal_iff a a).1 refl

pub equal_sym : (a b : Text) → equal a b ≡ equal b a
unfolding equal
equal_sym (x ∷ a) (y ∷ b) = ground (arith, equal_sym a b)
equal_sym [] [] = refl
equal_sym [] (y ∷ b) = refl
equal_sym (x ∷ a) [] = refl

-- a Go `map[string]bool` used as a set, and a test for membership in a slice
unfoldable pub contains : Text → List Text → Bool
contains k [] = false
contains k (x ∷ xs) = equal x k || contains k xs

pub contains-append :
    (k : Text) (xs ys : List Text) → contains k (xs ++ ys) ≡ (contains k xs || contains k ys)
unfolding contains
contains-append k [] ys = refl
contains-append k (x ∷ xs) ys = ground (arith, contains-append k xs ys)

-- Go compares strings byte by byte.
unfoldable pub text_leb : Text → Text → Bool
text_leb [] b = true
text_leb (x ∷ a) [] = false
text_leb (x ∷ a) (y ∷ b) = ltb x y || (x == y && text_leb a b)

pub text_leb_total : (a b : Text) → (text_leb a b || text_leb b a) ≡ true
unfolding text_leb
text_leb_total [] b = refl
text_leb_total (x ∷ a) [] = refl
text_leb_total (x ∷ a) (y ∷ b) = ground (arith, text_leb_total a b)

pub text_leb_antisymm : (a b : Text) → text_leb a b ≡ true → text_leb b a ≡ true → a ≡ b
unfolding text_leb
text_leb_antisymm [] [] h k = refl
text_leb_antisymm [] (y ∷ b) h k = cc
text_leb_antisymm (x ∷ a) [] h k = cc
text_leb_antisymm (x ∷ a) (y ∷ b) h k = ground (arith, text_leb_antisymm a b)

pub text_leb_trans :
    (a b c : Text) → text_leb a b ≡ true → text_leb b c ≡ true → text_leb a c ≡ true
unfolding text_leb
text_leb_trans [] b c h k = refl
text_leb_trans (x ∷ a) [] c h k = cc
text_leb_trans (x ∷ a) (y ∷ b) [] h k = cc
text_leb_trans (x ∷ a) (y ∷ b) (z ∷ c) h k = ground (arith, text_leb_trans a b c)

-- the ASCII white space of `unicode.IsSpace`
abbrev pub is_space : ℕ → Bool
is_space c = c == 32 || (leb 9 c && leb c 13)

-- the white space beyond ASCII, in UTF-8: of two bytes, U+0085 and U+00A0
abbrev is_space_pair : ℕ → ℕ → Bool
is_space_pair c d = c == 194 && (d == 133 || d == 160)

-- of three bytes, U+1680, U+2000 to U+200A, U+2028, U+2029, U+202F, U+205F and U+3000
abbrev is_space_triple : ℕ → ℕ → ℕ → Bool
is_space_triple c d e =
    (c == 225 && d == 154 && e == 128)
    || (c == 226 && d == 128 && ((leb 128 e && leb e 138) || e == 168 || e == 169 || e == 175))
    || (c == 226 && d == 129 && e == 159)
    || (c == 227 && d == 128 && e == 128)

-- the bytes of the white space that a text begins with, 0 if it begins with another character
abbrev leading : Text → ℕ
leading [] = 0
leading (c ∷ []) = if is_space c then 1 else 0
leading (c ∷ d ∷ []) = if is_space c then 1 else if is_space_pair c d then 2 else 0
leading (c ∷ d ∷ e ∷ s) =
    if is_space c
    then 1
    else if is_space_pair c d
    then 2
    else if is_space_triple c d e
    then 3
    else 0

-- the same of a text whose bytes are reversed
abbrev trailing : Text → ℕ
trailing [] = 0
trailing (c ∷ []) = if is_space c then 1 else 0
trailing (c ∷ d ∷ []) = if is_space c then 1 else if is_space_pair d c then 2 else 0
trailing (c ∷ d ∷ e ∷ s) =
    if is_space c
    then 1
    else if is_space_pair d c
    then 2
    else if is_space_triple e d c
    then 3
    else 0

-- the first argument gives the white space at the beginning, the second the bytes of it that are still to be dropped
drop_spaces : (Text → ℕ) → ℕ → Text → Text
drop_spaces size k [] = []
drop_spaces size (suc k) (c ∷ s) = drop_spaces size k s
drop_spaces size zero (c ∷ s) =
    let n = size (c ∷ s) in let rest = drop_spaces size (n - 1) s in if n == 0 then c ∷ s else rest

-- strings.TrimSpace
unfoldable pub trim_space : Text → Text
unfolding drop_spaces
trim_space s = reverse (drop_spaces trailing 0 (reverse (drop_spaces leading 0 s)))

abbrev pub lower : ℕ → ℕ
lower c = if leb b'A' c && leb c b'Z' then c + 32 else c

-- strings.ToLower, on ASCII letters
unfoldable pub to_lower : Text → Text
to_lower = map lower
