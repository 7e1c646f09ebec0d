-- ===== src/Agent/Request.antt =====
-- internal/agentipc/request.go: parseRequest, encodeEvent and resolveTimeout.
pub mod Valid
use Prim.Native.Nat.{◌^◌}
use imoogi_emacs.Prelude.{
  ℕ, ◌*◌, Text, text, equal, contains, Bool, true, false, not, ◌||◌, ◌&&◌, ◌==◌, ltb, if◌then◌else◌,
  Option, none, some, List, [], ◌∷◌, ◌++◌, any, length,
}
use imoogi_emacs.Prelude.Dict.{Dict, lookup}
use imoogi_emacs.Prelude.Paths.{is_abs, join_path}
use imoogi_emacs.Agent.Numbers.{second, positive_int, positive_seconds}
use imoogi_emacs.Agent.Args.{
  Usage, missing_subcommand, unknown_subcommand, invalid_option, wrong_arguments, empty_text,
  empty_path, bad_number, bad_status, event_too_large, Parsed, ok, usage, environment, ◌>>=◌,
  common_options, subcommand_options, Arguments, parse_args,
}

-- the payloads with the type of their event: message, open-file, goto-location, artifact-created and
-- task-finished
pub data Payload : Type 0 where
  message open_file : Text → Payload
  goto_location : Text → ℕ → Option ℕ → Payload
  artifact_created : Text → Option Text → Option Text → Payload
  task_finished : Text → Option Text → Option Text → Payload

-- envelope; the version is always 1
pub record Envelope : Type 0 where
  pub timestamp : Text
  pub project : Option Text
  pub session : Option Text
  pub payload : Payload

pub record Request : Type 0 where
  pub event : Text
  pub timeout : ℕ

-- What the process gives: the time limit of the environment, the working directory, the time, and the
-- JSON of an event with its newline.
pub record Process : Type 0 where
  pub timeout_variable : Text
  pub getwd : Option Text
  pub timestamp : Text
  pub encode : Envelope → Option Text

abbrev pub max_event_bytes : ℕ
max_event_bytes = 2 ^ 20

-- encodeEvent
unfoldable pub encoded : Option Text → Parsed Text
encoded none = environment
encoded (some data_) =
    if ltb max_event_bytes (length data_) then usage event_too_large else ok data_

abbrev pub numeral : Option ℕ → Parsed ℕ
numeral none = usage bad_number
numeral (some n) = ok n

module _ (process : Process) where
  abbrev pub below : Text → Option Text → Parsed Text
  below path none = environment
  below path (some directory) = ok (join_path directory path)

  -- abs
  unfoldable pub absolute : Text → Parsed Text
  absolute path =
      if equal path []
      then usage empty_path
      else if is_abs path
      then ok path
      else below path process.getwd

  abbrev pub message_payload : List Text → Parsed Payload
  message_payload (t ∷ []) = if equal t [] then usage empty_text else ok (message t)
  message_payload _ = usage wrong_arguments

  abbrev pub open_payload : List Text → Parsed Payload
  open_payload (p ∷ []) = do path ← absolute p; ok (open_file path)
  open_payload _ = usage wrong_arguments

  abbrev pub goto_payload : List Text → Parsed Payload
  goto_payload (p ∷ l ∷ []) = do
    line ← numeral (positive_int l)
    path ← absolute p
    ok (goto_location path line none)
  goto_payload (p ∷ l ∷ c ∷ []) = do
    line ← numeral (positive_int l)
    column ← numeral (positive_int c)
    path ← absolute p
    ok (goto_location path line (some column))
  goto_payload _ = usage wrong_arguments

  abbrev pub artifact_payload : Dict Text → List Text → Parsed Payload
  artifact_payload options (p ∷ []) = do
    path ← absolute p
    ok (artifact_created path (lookup (text "--type") options) (lookup (text "--title") options))
  artifact_payload options _ = usage wrong_arguments

  abbrev pub finish_artifact : Text → Option Text → Option Text → Parsed Payload
  finish_artifact status summary none = ok (task_finished status summary none)
  finish_artifact status summary (some a) = do
    path ← absolute a
    ok (task_finished status summary (some path))

  abbrev pub finish_status : Dict Text → Text → Option Text → Parsed Payload
  finish_status options status summary =
      if not (equal status (text "success") || equal status (text "failed"))
      then usage bad_status
      else finish_artifact status summary (lookup (text "--artifact") options)

  abbrev pub finish_payload : Dict Text → List Text → Parsed Payload
  finish_payload options (s ∷ []) = finish_status options s none
  finish_payload options (s ∷ summary ∷ []) = finish_status options s (some summary)
  finish_payload options _ = usage wrong_arguments

  -- the switch over the subcommand
  unfoldable pub payload_of : Text → Dict Text → List Text → Parsed Payload
  payload_of sub options rest =
      if equal sub (text "message")
      then message_payload rest
      else if equal sub (text "open-file")
      then open_payload rest
      else if equal sub (text "goto")
      then goto_payload rest
      else if equal sub (text "artifact")
      then artifact_payload options rest
      else finish_payload options rest

  abbrev pub seconds : Option ℕ → Parsed ℕ
  seconds none = usage bad_number
  seconds (some d) = ok d

  abbrev pub from_option : Option Text → Parsed ℕ
  from_option (some value) = seconds (positive_seconds value)
  from_option none =
      if equal process.timeout_variable []
      then ok (5 * second)
      else seconds (positive_seconds process.timeout_variable)

  -- resolveTimeout
  unfoldable pub resolve_timeout : Dict Text → Parsed ℕ
  resolve_timeout options = from_option (lookup (text "--timeout") options)

  -- what follows the checks of the options
  unfoldable pub build : Text → Dict Text → List Text → Parsed Request
  build sub options rest = do
    payload ← payload_of sub options rest
    timeout ← resolve_timeout options
    event ← encoded (
        process.encode (record {
          timestamp = process.timestamp;
          project = lookup (text "--project") options;
          session = lookup (text "--session") options;
          payload = payload;
        }))
    ok (record { event = event; timeout = timeout })

  abbrev pub allowed_only : Text → Dict Text → List Text → Option (List Text) → Parsed Request
  allowed_only sub options rest none = usage unknown_subcommand
  allowed_only sub options rest (some allowed) =
      if any (λ o. not (contains o.0 common_options) && not (contains o.0 allowed)) options
      then usage invalid_option
      else build sub options rest

  abbrev pub dispatch : List Text → Dict Text → Parsed Request
  dispatch [] options = usage missing_subcommand
  dispatch (sub ∷ rest) options = allowed_only sub options rest (subcommand_options sub)

  -- parseRequest
  unfoldable pub parse_request : List Text → Parsed Request
  parse_request args = do a ← parse_args args; dispatch a.positional a.options
