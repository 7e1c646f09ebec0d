-- ===== src/Agent/LispString/RoundTrip.antt =====
-- The Lisp strings that the opener writes are read back by the agent's reader.
use imoogi_emacs.Prelude.{
  ℕ, Text, true, false, ◌||◌, ◌==◌, some, [], ◌∷◌, ◌++◌, ◌≡◌, refl, ap, arith, Bool-cases, inl, inr,
}
use imoogi_emacs.Agent.LispString.{
  quote, backslash, newline, trim_newline, prepend, before_quote, body, unescape, parse_lisp_string,
  escape, lisp_string,
}

before_quote-append : (s : Text) → before_quote (s ++ quote ∷ []) ≡ some s
unfolding before_quote
before_quote-append [] = refl
before_quote-append (c ∷ []) = refl
before_quote-append (c ∷ d ∷ s) = rw (before_quote-append (d ∷ s)) refl

trim_newline-append : (s : Text) → trim_newline (s ++ newline ∷ []) ≡ s
unfolding trim_newline
trim_newline-append [] = refl
trim_newline-append (c ∷ []) = refl
trim_newline-append (c ∷ d ∷ s) = ap (λ r. c ∷ r) (trim_newline-append (d ∷ s))

trim_newline-quoted : (s : Text) → trim_newline (s ++ quote ∷ []) ≡ s ++ quote ∷ []
unfolding trim_newline
trim_newline-quoted [] = refl
trim_newline-quoted (c ∷ []) = refl
trim_newline-quoted (c ∷ d ∷ s) = ap (λ r. c ∷ r) (trim_newline-quoted (d ∷ s))

unescape_plain :
    (c : ℕ) (s : Text)
    → (c == backslash || c == quote) ≡ false
    → unescape (c ∷ s) ≡ prepend c (unescape s)
unfolding unescape
unescape_plain c [] h = ground arith
unescape_plain c (d ∷ s) h = ground arith

unescape_escaped :
    (c : ℕ) (s : Text)
    → (c == backslash || c == quote) ≡ true
    → unescape (backslash ∷ c ∷ s) ≡ prepend c (unescape s)
unfolding unescape
unescape_escaped c s h = ground arith

unescape-escape : (s : Text) → unescape (escape s) ≡ some s
unfolding unescape escape
unescape-escape [] = refl
unescape-escape (c ∷ s) = elim (Bool-cases (c == backslash || c == quote)) [
  | inl special ↦ rw (special, unescape_escaped c (escape s) special, unescape-escape s) refl
  | inr plain ↦ rw (plain, unescape_plain c (escape s) plain, unescape-escape s) refl
]

-- Every text is read back from the Lisp string that is written of it, also with the newline that
-- emacsclient prints behind it.
pub parse-lisp_string :
    (s : Text)
    → (parse_lisp_string (lisp_string s) ≡ some s)
      × (parse_lisp_string (lisp_string s ++ newline ∷ []) ≡ some s)
unfolding parse_lisp_string lisp_string body
parse-lisp_string s = (
  rw (trim_newline-quoted (quote ∷ escape s), before_quote-append (escape s)) (unescape-escape s),
  rw (trim_newline-append (quote ∷ escape s ++ quote ∷ []), before_quote-append (escape s))
      (unescape-escape s),
)
