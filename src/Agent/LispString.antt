-- ===== src/Agent/LispString.antt =====
-- internal/agentipc/emacsclient.go: parseLispString; internal/anki/opener/opener.go: lispString.
pub mod RoundTrip
use imoogi_emacs.Prelude.{
  ℕ, Text, Bool, ◌&&◌, ◌||◌, ◌==◌, if◌then◌else◌, Option, none, some, List, [], ◌∷◌, ◌++◌,
}

abbrev pub quote : ℕ
quote = 34

abbrev pub backslash : ℕ
backslash = 92

abbrev pub newline : ℕ
newline = 10

-- strings.TrimSuffix(s, "\n")
unfoldable pub trim_newline : Text → Text
trim_newline [] = []
trim_newline (c ∷ []) = if c == newline then [] else c ∷ []
trim_newline (c ∷ d ∷ s) = c ∷ trim_newline (d ∷ s)

abbrev pub prepend : ℕ → Option Text → Option Text
prepend c none = none
prepend c (some s) = some (c ∷ s)

-- what stands before a quote at the end
unfoldable pub before_quote : Text → Option Text
before_quote [] = none
before_quote (c ∷ []) = if c == quote then some [] else none
before_quote (c ∷ d ∷ s) = prepend c (before_quote (d ∷ s))

-- what stands between the quotes at both ends
unfoldable pub body : Text → Option Text
unfolding before_quote
body [] = none
body (c ∷ s) = if c == quote then before_quote s else none

-- the loop over the body; none is a quote that is not escaped
unfoldable pub unescape : Text → Option Text
unescape [] = some []
unescape (c ∷ []) = if c == quote then none else some (c ∷ [])
unescape (c ∷ d ∷ s) =
    let escaped = unescape s in
    let rest = unescape (d ∷ s) in
    if c == backslash && (d == quote || d == backslash)
    then prepend d escaped
    else if c == quote
    then none
    else prepend c rest

abbrev pub unescaped : Option Text → Option Text
unescaped none = none
unescaped (some s) = unescape s

-- parseLispString
unfoldable pub parse_lisp_string : Text → Option Text
parse_lisp_string out = unescaped (body (trim_newline out))

unfoldable pub escape : Text → Text
escape [] = []
escape (c ∷ s) = if c == backslash || c == quote then backslash ∷ c ∷ escape s else c ∷ escape s

-- lispString
unfoldable pub lisp_string : Text → Text
unfolding escape
lisp_string s = quote ∷ escape s ++ quote ∷ []
