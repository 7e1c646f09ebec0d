-- ===== src/Agent/Numbers.antt =====
-- internal/agentipc/request.go: positiveInt and positiveSeconds, on the int64 of Go.
pub mod Exact
use Prim.Native.Nat.{◌/◌, ◌^◌}
use imoogi_emacs.Prelude.{
  ℕ, ◌+◌, ◌-◌, ◌*◌, Text, equal, Bool, not, ◌&&◌, ◌||◌, ◌==◌, leb, ltb, if◌then◌else◌, Option, none,
  some, [], ◌∷◌, any,
}

abbrev pub max_int : ℕ
max_int = 2 ^ 63 - 1

-- time.Second, in nanoseconds
abbrev pub second : ℕ
second = 1000000000

abbrev pub is_digit : ℕ → Bool
is_digit c = leb b'0' c && leb c b'9'

-- strconv.Atoi on decimal digits; none is ErrRange
unfoldable pub atoi : Text → ℕ → Option ℕ
atoi [] n = some n
atoi (c ∷ s) n =
    let m = n * 10 + (c - b'0') in let rest = atoi s m in if ltb max_int m then none else rest

abbrev pub at_least_one : Option ℕ → Option ℕ
at_least_one none = none
at_least_one (some n) = if ltb n 1 then none else some n

-- positiveInt; none is a usage error
unfoldable pub positive_int : Text → Option ℕ
positive_int value =
    if equal value [] || any (λ c. not (is_digit c)) value
    then none
    else at_least_one (atoi value 0)

abbrev pub in_nanoseconds : Option ℕ → Option ℕ
in_nanoseconds none = none
in_nanoseconds (some n) = if ltb (max_int / second) n then none else some (n * second)

-- positiveSeconds, a time.Duration
unfoldable pub positive_seconds : Text → Option ℕ
unfolding positive_int
positive_seconds value = in_nanoseconds (positive_int value)
