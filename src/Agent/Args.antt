-- ===== src/Agent/Args.antt =====
-- internal/agentipc/request.go: parseArgs.
pub mod Laws
use imoogi_emacs.Prelude.{
  ℕ, Text, text, equal, contains, Bool, true, false, not, ◌||◌, ◌&&◌, ◌==◌, if◌then◌else◌, Option,
  none, some, is_some, List, [], ◌∷◌, ◌++◌,
}
use imoogi_emacs.Prelude.Dict.{Dict, lookup, insert}

-- what a usageError complains of
pub data Usage : Type 0 where
  unknown_option missing_value repeated_option : Text → Usage
  missing_subcommand unknown_subcommand invalid_option wrong_arguments empty_text empty_path : Usage
  bad_number bad_status event_too_large : Usage

-- a Go value and error pair; environment is an error that is no usageError
pub data Parsed {ℓ} (A : Type ℓ) : Type ℓ where
  ok : A → Parsed A
  usage : Usage → Parsed A
  environment : Parsed A

infixl 5 ◌>>=◌
abbrev pub ◌>>=◌ {ℓ κ} : {X : Type ℓ} {Y : Type κ} → Parsed X → (X → Parsed Y) → Parsed Y
ok x >>= next = next x
usage u >>= next = usage u
environment >>= next = environment

-- commonOptions
abbrev pub common_options : List Text
common_options = text "--project" ∷ text "--session" ∷ text "--timeout" ∷ []

abbrev pub artifact_options : List Text
artifact_options = text "--type" ∷ text "--title" ∷ []

abbrev pub finish_options : List Text
finish_options = text "--artifact" ∷ []

-- subcommandOptions
unfoldable pub subcommand_options : Text → Option (List Text)
subcommand_options sub =
    if equal sub (text "message") || equal sub (text "open-file") || equal sub (text "goto")
    then some []
    else if equal sub (text "artifact")
    then some artifact_options
    else if equal sub (text "finish")
    then some finish_options
    else none

-- isKnownOption
unfoldable pub is_known_option : Text → Bool
is_known_option name =
    contains name common_options || contains name artifact_options || contains name finish_options

-- strings.HasPrefix(arg, "-") && arg != "-"
unfoldable pub is_dashed : Text → Bool
is_dashed [] = false
is_dashed (c ∷ s) = c == b'-' && not (equal s [])

-- the positional arguments and the option values so far
pub record Arguments : Type 0 where
  pub positional : List Text
  pub options : Dict Text

abbrev pub add_positional : List Text → Arguments → Arguments
add_positional args a = record a { positional = a.positional ++ args }

abbrev pub add_option : Text → Text → Arguments → Arguments
add_option name value a = record a { options = insert name value a.options }

-- The loop over args[i:].
unfoldable pub parse_loop : List Text → Arguments → Parsed Arguments
parse_loop [] a = ok a
parse_loop (arg ∷ []) a =
    if equal arg (text "--")
    then ok (add_positional [] a)
    else if not (is_dashed arg)
    then ok (add_positional (arg ∷ []) a)
    else if not (is_known_option arg)
    then usage (unknown_option arg)
    else usage (missing_value arg)
parse_loop (arg ∷ value ∷ rest) a =
    let positional = parse_loop (value ∷ rest) (add_positional (arg ∷ []) a) in
    let option = parse_loop rest (add_option arg value a) in
    if equal arg (text "--")
    then ok (add_positional (value ∷ rest) a)
    else if not (is_dashed arg)
    then positional
    else if not (is_known_option arg)
    then usage (unknown_option arg)
    else if is_some (lookup arg a.options)
    then usage (repeated_option arg)
    else option

abbrev pub no_arguments : Arguments
no_arguments = record { positional = []; options = [] }

-- parseArgs
unfoldable pub parse_args : List Text → Parsed Arguments
parse_args args = parse_loop args no_arguments
