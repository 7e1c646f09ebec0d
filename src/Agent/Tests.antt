-- ===== src/Agent/Tests.antt =====
-- Command lines, answers of Emacs, and the theorems at concrete inputs.
use imoogi_emacs.Prelude.{
  ℕ, ◌*◌, ◌≤◌, Text, text, true, none, some, List, [], ◌∷◌, ◌++◌, ◌≡◌, ◌↔◌, refl, take, equal,
  contains,
}
use imoogi_emacs.Prelude.Dict.{Dict, lookup, insert}
use imoogi_emacs.Prelude.Paths.{is_abs}
use imoogi_emacs.Agent.Numbers.{max_int, second, atoi, positive_int, positive_seconds}
use imoogi_emacs.Agent.Numbers.Exact.{Spells, positive_seconds_iff}
use imoogi_emacs.Agent.LispString.{
  newline, parse_lisp_string, lisp_string, trim_newline, body, before_quote, unescape,
}
use imoogi_emacs.Agent.LispString.RoundTrip.{parse-lisp_string}
use imoogi_emacs.Agent.Args.{
  repeated_option, missing_value, ok, usage, parse_args, parse_loop, is_known_option, is_dashed,
}
use imoogi_emacs.Agent.Args.Laws.{written, AreFresh, parse_args-written}
use imoogi_emacs.Agent.Request.{Process, parse_request}
use imoogi_emacs.Agent.Request.Valid.{IsAbsoluteIfAny, Ensures, IsSent, parse_request-IsSent}
use imoogi_emacs.Agent.Deliver.{System, exited, capped}
use imoogi_emacs.Agent.Deliver.Contract.{concat, capped-take}
use imoogi_emacs.Agent.Main.{Messages, main}
use imoogi_emacs.Agent.Main.Exits.{Meaning, main-Meaning}

one_minute : positive_seconds (text "060") ≡ some 60000000000
unfolding positive_seconds positive_int atoi equal
one_minute = refl

too_long : positive_seconds (text "9223372037") ≡ none
unfolding positive_seconds positive_int atoi equal
too_long = refl

answer : parse_lisp_string (text "\"a\\\"b\"\n") ≡ some (text "a\"b")
unfolding parse_lisp_string trim_newline body before_quote unescape
answer = refl

no_string : parse_lisp_string (text "nil") ≡ none
unfolding parse_lisp_string trim_newline body before_quote unescape
no_string = refl

repeated :
    parse_args (text "--title" ∷ text "a" ∷ text "--title" ∷ text "b" ∷ [])
    ≡ usage (repeated_option (text "--title"))
unfolding parse_args parse_loop is_known_option is_dashed lookup insert equal contains
repeated = refl

no_value : parse_args (text "p" ∷ text "--title" ∷ []) ≡ usage (missing_value (text "--title"))
unfolding parse_args parse_loop is_known_option is_dashed equal contains
no_value = refl

positive_seconds_iff_example :
    (positive_seconds (text "060") ≡ some 60000000000)
    ↔ ((n : ℕ) × Spells (text "060") n × (60000000000 ≡ n * second) × (n * second ≤ max_int))
positive_seconds_iff_example = positive_seconds_iff (text "060") 60000000000

parse-lisp_string_example :
    (parse_lisp_string (lisp_string (text "a\"b")) ≡ some (text "a\"b"))
    × (parse_lisp_string (lisp_string (text "a\"b") ++ newline ∷ []) ≡ some (text "a\"b"))
parse-lisp_string_example = parse-lisp_string (text "a\"b")

abbrev options : Dict Text
options = (text "--type", text "image") ∷ (text "--title", text "--") ∷ []

options-AreFresh : AreFresh options []
unfolding is_known_option lookup equal contains
options-AreFresh = (refl, refl, (refl, refl, tt))

parse_args-written_example :
    parse_args (written options (text "artifact" ∷ text "-x" ∷ []))
    ≡ ok (record { positional = text "artifact" ∷ text "-x" ∷ []; options = options })
parse_args-written_example =
    parse_args-written options (text "artifact" ∷ text "-x" ∷ []) options-AreFresh

capped-take_example :
    capped 3 [] (text "ab" ∷ text "cd" ∷ []) ≡ take 3 (concat (text "ab" ∷ text "cd" ∷ []))
capped-take_example = capped-take 3 (text "ab" ∷ text "cd" ∷ [])

abbrev process : Process
process = record {
  timeout_variable = [];
  getwd = some (text "/w");
  timestamp = text "t";
  encode = λ e. some e.timestamp;
}

abbrev goto_line : List Text
goto_line = text "goto" ∷ text "a.org" ∷ text "12" ∷ []

rooted : IsAbsoluteIfAny process.getwd
unfolding is_abs
rooted = refl

parse_request-IsSent_example : Ensures (IsSent process rooted) (parse_request process goto_line)
parse_request-IsSent_example = parse_request-IsSent process rooted goto_line

abbrev messages : Messages
messages = record {
  of_usage = λ u. text "usage";
  of_environment = text "cwd";
  of_diag = λ d. text "no";
  version = text "1";
}

abbrev system : System
system = record {
  emacsclient = [];
  look_path = λ p. some (text "/bin/emacsclient");
  is_executable = λ p. true;
  abs = λ p. some p;
  candidates = [];
  makes_directory = true;
  resolves = true;
  opens = true;
  changes_mode = true;
  writes = true;
  closes = true;
  run = λ client event timeout. exited true (text "\"ok\"\n" ∷ []) [];
}

main-Meaning_example :
    Meaning messages process system goto_line (main messages process system goto_line)
main-Meaning_example = main-Meaning messages process system goto_line
