-- ===== src/Agent/Numbers/Exact.antt =====
-- internal/agentipc/request.go: which numbers positiveInt and positiveSeconds accept.
use imoogi_emacs.Prelude.{
  ℕ, ◌+◌, ◌-◌, ◌*◌, ◌≤◌, Text, equal, false, not, Option, none, some, [], ◌∷◌, any, ◌≡◌, ◌↔◌, refl,
  arith,
}
use imoogi_emacs.Agent.Numbers.{
  max_int, second, is_digit, atoi, at_least_one, positive_int, in_nanoseconds, positive_seconds,
}

-- the number that digits spell behind n
abbrev pub value_from : ℕ → Text → ℕ
value_from n [] = n
value_from n (c ∷ s) = value_from (n * 10 + (c - b'0')) s

-- the text is a decimal numeral of n, an int that is at least 1
pub record Spells (value : Text) (n : ℕ) : Type 0 where
  pub nonempty : equal value [] ≡ false
  pub digits : any (λ c. not (is_digit c)) value ≡ false
  pub exact : value_from 0 value ≡ n
  pub positive : 1 ≤ n
  pub bounded : n ≤ max_int

le-value_from : (n : ℕ) (s : Text) → n ≤ value_from n s
le-value_from n [] = omega arith
le-value_from n (c ∷ s) = omega (arith, le-value_from (n * 10 + (c - b'0')) s)

atoi_sound :
    (s : Text) (n r : ℕ) → n ≤ max_int → atoi s n ≡ some r → (value_from n s ≡ r) × (r ≤ max_int)
unfolding atoi
atoi_sound [] n r fits h = ground arith
atoi_sound (c ∷ s) n r fits h = ground (arith, atoi_sound s (n * 10 + (c - b'0')) r)

atoi_complete : (s : Text) (n : ℕ) → value_from n s ≤ max_int → atoi s n ≡ some (value_from n s)
unfolding atoi
atoi_complete [] n h = refl
atoi_complete (c ∷ s) n h =
    let m = n * 10 + (c - b'0') in ground (arith, atoi_complete s m h, le-value_from m s)

kept : (o : Option ℕ) (n : ℕ) → at_least_one o ≡ some n → (o ≡ some n) × (1 ≤ n)
kept none n h = cc
kept (some m) n h = ground arith

accepted :
    (value : Text) (n : ℕ)
    → positive_int value ≡ some n
    → (equal value [] ≡ false)
      × (any (λ c. not (is_digit c)) value ≡ false)
      × (at_least_one (atoi value 0) ≡ some n)
unfolding positive_int
accepted value n h = ground arith

-- A text is accepted as the number n exactly when it is a decimal numeral of n, and n is at least 1
-- and an int: nothing wraps around, and nothing that fits is refused.
pub positive_int_iff : (value : Text) (n : ℕ) → (positive_int value ≡ some n) ↔ Spells value n
unfolding positive_int
positive_int_iff value n = (
  λ h.
      let (e, d, o) = accepted value n h in
      let (f, p) = kept (atoi value 0) n o in
      let (x, b) = atoi_sound value 0 n (omega arith) f in
      record { nonempty = e; digits = d; exact = x; positive = p; bounded = b },
  λ w.
      rw (w.nonempty, w.digits, atoi_complete value 0 (rw w.exact w.bounded), w.exact)
        (first n w.positive),
)
  where
    first : (m : ℕ) → 1 ≤ m → at_least_one (some m) ≡ some m
    first m h = ground arith

-- A time limit is accepted exactly when it is a numeral of seconds, at least 1, whose nanoseconds are
-- an int64.
pub positive_seconds_iff :
    (value : Text) (d : ℕ)
    → (positive_seconds value ≡ some d)
      ↔ ((n : ℕ) × Spells value n × (d ≡ n * second) × (n * second ≤ max_int))
unfolding positive_seconds
positive_seconds_iff value d = (forth (positive_int value) refl, back)
  where
    forth :
        (o : Option ℕ)
        → positive_int value ≡ o
        → in_nanoseconds o ≡ some d
        → (n : ℕ) × Spells value n × (d ≡ n * second) × (n * second ≤ max_int)
    forth none e h = cc
    forth (some n) e h = (n, (positive_int_iff value n).0 e, ground arith, ground arith)

    back :
        (n : ℕ) × Spells value n × (d ≡ n * second) × (n * second ≤ max_int)
        → in_nanoseconds (positive_int value) ≡ some d
    back (n, w, e, b) = rw ((positive_int_iff value n).1 w) (ground arith)
