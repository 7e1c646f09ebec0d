-- ===== src/Agent/Main.antt =====
-- internal/agentipc/agentipc.go: Main, with Deliver as its transport.
pub mod Exits
use imoogi_emacs.Prelude.{
  ℕ, Text, text, equal, trim_space, Bool, false, ◌||◌, ◌&&◌, ◌==◌, if◌then◌else◌, List, [], ◌∷◌,
  ◌++◌,
}
use imoogi_emacs.Agent.Args.{Usage, Parsed, ok, usage, environment}
use imoogi_emacs.Agent.Request.{Request, Process, parse_request}
use imoogi_emacs.Agent.Deliver.{
  exit_ok, exit_not_sent, exit_usage, Diag, Result, System, Action, deliver,
}

abbrev pub carriage : ℕ
carriage = 13

-- the Replacer of oneLine: a line break of one or two bytes becomes a space
unfoldable pub fold_breaks : Text → Text
fold_breaks [] = []
fold_breaks (c ∷ []) = (if c == 10 || c == carriage then 32 else c) ∷ []
fold_breaks (c ∷ d ∷ s) =
    let pair = fold_breaks s in
    let rest = fold_breaks (d ∷ s) in
    if c == carriage && d == 10
    then 32 ∷ pair
    else (if c == 10 || c == carriage then 32 else c) ∷ rest

-- oneLine
unfoldable pub one_line : Text → Text
one_line s = fold_breaks (trim_space s)

-- what one invocation leaves: its exit code, what it printed, and what Deliver did
pub record Exit : Type 0 where
  pub code : ℕ
  pub stdout : Text
  pub stderr : Text
  pub actions : List Action

-- the texts of the messages
pub record Messages : Type 0 where
  pub of_usage : Usage → Text
  pub of_environment : Text
  pub of_diag : Diag → Text
  pub version : Text

abbrev pub program_prefix : Text
program_prefix = text "imoogi-agent: "

-- fail
unfoldable pub fail : ℕ → Text → List Action → Exit
unfolding one_line
fail code diag actions = record {
  code = code;
  stdout = [];
  stderr = program_prefix ++ (one_line diag ++ 10 ∷ []);
  actions = actions;
}

module _ (msg : Messages) (process : Process) (sys : System) where
  abbrev pub report : Result × List Action → Exit
  report (r, actions) =
      if r.code == exit_ok
      then record { code = exit_ok; stdout = []; stderr = []; actions = actions }
      else fail r.code (msg.of_diag r.diag) actions

  abbrev pub send : Parsed Request → Exit
  send (usage u) = fail exit_usage (msg.of_usage u) []
  send environment = fail exit_not_sent msg.of_environment []
  send (ok r) = report (deliver sys r.event r.timeout)

  abbrev pub is_version : List Text → Bool
  is_version (a ∷ []) = equal a (text "--version")
  is_version _ = false

  -- Main
  unfoldable pub main : List Text → Exit
  main args =
      if is_version args
      then record {
        code = exit_ok;
        stdout = text "imoogi-agent " ++ (msg.version ++ 10 ∷ []);
        stderr = [];
        actions = [];
      }
      else send (parse_request process args)
