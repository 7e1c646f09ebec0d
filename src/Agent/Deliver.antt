-- ===== src/Agent/Deliver.antt =====
-- internal/agentipc/emacsclient.go: findEmacsclient, writeEventFile, cappedBuffer, classify and Deliver.
pub mod Codes
pub mod Contract
use imoogi_emacs.Prelude.{
  ℕ, zero, suc, ◌+◌, ◌-◌, Text, text, equal, trim_space, Bool, true, false, not, ◌||◌, ◌&&◌, ◌==◌,
  ltb, if◌then◌else◌, Option, none, some, List, [], ◌∷◌, ◌++◌, any, length, take,
}
use imoogi_emacs.Prelude.Paths.{has_prefix, is_abs}
use imoogi_emacs.Agent.LispString.{parse_lisp_string, newline}

-- the exit codes of the command
abbrev pub exit_ok : ℕ
exit_ok = 0

abbrev pub exit_not_sent : ℕ
exit_not_sent = 1

abbrev pub exit_usage : ℕ
exit_usage = 2

abbrev pub exit_rejected : ℕ
exit_rejected = 3

-- what a diagnostic is about, with what it quotes
pub data Diag : Type 0 where
  no_diag no_client bad_directory bad_file timed_out not_run : Diag
  rejected emacs_error client_failed unrecognized : Text → Diag

-- Result
pub record Result : Type 0 where
  pub code : ℕ
  pub diag : Diag

-- strings.Cut of the text after the first newline
unfoldable pub up_to_newline : Text → Text
up_to_newline [] = []
up_to_newline (c ∷ s) = let rest = up_to_newline s in if c == newline then [] else c ∷ rest

-- firstLine
unfoldable pub first_line : Text → Text
first_line s = trim_space (up_to_newline (trim_space s))

-- strings.TrimPrefix, by a prefix that the text has
unfoldable pub after_prefix : Text → Text → Text
after_prefix s [] = s
after_prefix [] (c ∷ p) = []
after_prefix (d ∷ s) (c ∷ p) = after_prefix s p

-- strings.Cut: what stands behind the first separator
unfoldable pub cut_after : Text → Text → Option Text
cut_after sep [] = none
cut_after sep (c ∷ s) =
    let rest = cut_after sep s in
    if has_prefix (c ∷ s) sep then some (after_prefix (c ∷ s) sep) else rest

-- one Write of a cappedBuffer
unfoldable pub write_capped : ℕ → Text → Text → Text
write_capped limit buf p =
    if ltb 0 (limit - length buf) then buf ++ take (limit - length buf) p else buf

-- the buffer after a series of writes
unfoldable pub capped : ℕ → Text → List Text → Text
unfolding write_capped
capped limit buf [] = buf
capped limit buf (p ∷ ps) = capped limit (write_capped limit buf p) ps

-- the end of classify, on the output alone
abbrev pub classify_output : Text → Result
classify_output out = record { code = exit_rejected; diag = unrecognized (first_line out) }

abbrev pub classify_failure : Bool → Option Text → Text → Text → Result
classify_failure zero_exit (some detail) out err = record {
  code = exit_rejected;
  diag = emacs_error (first_line detail);
}
classify_failure false none out err = record {
  code = exit_not_sent;
  diag = client_failed (first_line err);
}
classify_failure true none out err = classify_output out

abbrev pub classify_status : Bool → Option Text → Text → Text → Result
classify_status zero_exit none out err =
    classify_failure zero_exit (cut_after (text "*ERROR*:") err) out err
classify_status zero_exit (some status) out err =
    if zero_exit && equal status (text "ok")
    then record { code = exit_ok; diag = no_diag }
    else if has_prefix status (text "error:")
    then record { code = exit_rejected; diag = rejected (after_prefix status (text "error:")) }
    else classify_failure zero_exit (cut_after (text "*ERROR*:") err) out err

-- classify; the first argument is whether the exit status is 0
unfoldable pub classify : Bool → Text → Text → Result
classify zero_exit out err = classify_status zero_exit (parse_lisp_string out) out err

-- how the call of emacsclient ends: what it wrote, in pieces, and whether its exit status is 0
pub data Ran : Type 0 where
  expired unable : Ran
  exited : Bool → List Text → List Text → Ran

-- outputLimit
abbrev pub output_limit : ℕ
output_limit = 65536

unfoldable pub outcome : Ran → Result
outcome expired = record { code = exit_not_sent; diag = timed_out }
outcome unable = record { code = exit_not_sent; diag = not_run }
outcome (exited zero_exit out err) =
    classify zero_exit (capped output_limit [] out) (capped output_limit [] err)

-- what the system does: each step of writeEventFile may fail
pub record System : Type 0 where
  pub emacsclient : Text
  pub look_path : Text → Option Text
  pub is_executable : Text → Bool
  pub abs : Text → Option Text
  pub candidates : List Text
  pub makes_directory : Bool
  pub resolves : Bool
  pub opens : Bool
  pub changes_mode : Bool
  pub writes : Bool
  pub closes : Bool
  pub run : Text → Text → ℕ → Ran

-- what Deliver did, in order
pub data Action : Type 0 where
  made_directory : Action
  wrote_file : Text → Action
  ran_client : Text → ℕ → Action
  removed_directory : Action

abbrev pub absolute_only : Option Text → Option Text
absolute_only none = none
absolute_only (some p) = if is_abs p then some p else none

unfoldable pub first_executable : (Text → Bool) → List Text → Option Text
first_executable is_executable [] = none
first_executable is_executable (p ∷ ps) =
    if is_executable p then some p else first_executable is_executable ps

abbrev pub or_candidates : System → Option Text → Option Text
or_candidates sys (some p) = some p
or_candidates sys none = first_executable sys.is_executable sys.candidates

-- findEmacsclient; the candidates are those of appBundleCandidates with their patterns expanded
unfoldable pub find_emacsclient : System → Option Text
find_emacsclient sys =
    if equal sys.emacsclient []
    then or_candidates sys (sys.look_path (text "emacsclient"))
    else if not (any (λ c. c == b'/') sys.emacsclient)
    then absolute_only (sys.look_path sys.emacsclient)
    else if not (sys.is_executable sys.emacsclient)
    then none
    else sys.abs sys.emacsclient

-- what is left of Deliver once the directory is there; it is removed in any case
unfoldable pub deliver_from : System → Text → Text → ℕ → Result × List Action
unfolding outcome
deliver_from sys client event timeout =
    if not sys.resolves
    then (record { code = exit_not_sent; diag = bad_directory }, removed_directory ∷ [])
    else if not (sys.opens && sys.changes_mode && sys.writes && sys.closes)
    then (record { code = exit_not_sent; diag = bad_file }, removed_directory ∷ [])
    else (
      outcome (sys.run client event timeout),
      wrote_file event ∷ ran_client client timeout ∷ removed_directory ∷ [],
    )

abbrev pub deliver_with : System → Text → ℕ → Option Text → Result × List Action
deliver_with sys event timeout none = (record { code = exit_not_sent; diag = no_client }, [])
deliver_with sys event timeout (some client) =
    if not sys.makes_directory
    then (record { code = exit_not_sent; diag = bad_directory }, [])
    else (let (r, done) = deliver_from sys client event timeout in (r, made_directory ∷ done))

-- Deliver
unfoldable pub deliver : System → Text → ℕ → Result × List Action
deliver sys event timeout = deliver_with sys event timeout (find_emacsclient sys)
