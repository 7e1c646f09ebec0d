-- ===== src/Opener.antt =====
-- internal/anki/opener/opener.go: ParseURL, classify, launchAndWait and Open, which turn a link into one
-- call of Emacs.
mod Tests
pub mod Ends
pub mod Normal
pub mod Calls
use Prim.Native.Nat.{◌/◌}
use imoogi_emacs.Prelude.{
  ℕ, zero, suc, ◌+◌, Text, text, equal, contains, to_lower, Bool, true, false, not, ◌||◌, ◌&&◌,
  ◌==◌, ltb, if◌then◌else◌, Option, none, some, is_some, List, [], ◌∷◌, ◌++◌, length,
}
use imoogi_emacs.Prelude.Paths.{has_prefix}
use imoogi_emacs.Prelude.Dict.{Dict, lookup}
use imoogi_emacs.Anki.Protocol.{valid_org_id}
use imoogi_emacs.Agent.LispString.{parse_lisp_string, lisp_string}

-- what url.Parse and url.ParseQuery give of a link; the query is none if it is malformed
pub record Url : Type 0 where
  pub scheme : Text
  pub opaque : Text
  pub has_user : Bool
  pub host : Text
  pub path : Text
  pub query : Option (Dict (List Text))

abbrev pub only : List Text → Option Text
only (id ∷ []) = if valid_org_id id then some id else none
only _ = none

abbrev pub only_id : Dict (List Text) → Option Text
only_id ((key, ids) ∷ []) = if equal key (text "id") then only ids else none
only_id _ = none

abbrev pub query_id : Option (Dict (List Text)) → Option Text
query_id none = none
query_id (some q) = only_id q

-- ParseURL, after url.Parse; none is an error
unfoldable pub parse_url : Option Url → Option Text
parse_url none = none
parse_url (some u) =
    if not (equal u.scheme (text "imoogi-anki"))
      || not (equal u.opaque [])
      || u.has_user
      || not (equal (to_lower u.host) (text "open"))
    then none
    else if not (equal u.path []) && not (equal u.path (text "/"))
    then none
    else query_id u.query

-- receiverExpr
unfoldable pub receiver_expr : Text → Text
receiver_expr id = text "(imoogi-anki-open-id " ++ (lisp_string id ++ text ")")

-- strings.Index, as the text before the first occurrence
unfoldable pub before : Text → Text → Option Text
before sep [] = if equal sep [] then some [] else none
before sep (c ∷ s) =
    let rest = before sep s in
    if has_prefix (c ∷ s) sep then some [] else elim rest [ none ↦ none | some t ↦ some (c ∷ t) ]

abbrev pub bundle : Option Text → Text
bundle none = text "Emacs"
bundle (some t) = t ++ text ".app"

-- launchArgs and bundleFor
unfoldable pub launch_args : Text → List Text
launch_args client = text "-a" ∷ bundle (before (text ".app/Contents/") client) ∷ []

-- CmdResult; failed is a command that could not be run
pub record CmdResult : Type 0 where
  pub stdout : Text
  pub stderr : Text
  pub zero_exit : Bool
  pub failed : Bool
  pub timed_out : Bool

-- a time limit, a program and its arguments
pub record Command : Type 0 where
  pub limit : ℕ
  pub program : Text
  pub args : List Text

-- what was done, the latest first
pub data Event : Type 0 where
  ran : Command → Event
  slept : ℕ → Event

pub data Failure : Type 0 where
  bad_link no_client no_answer not_runnable no_launch no_server too_slow bad_result : Failure

-- Deps: what FindEmacsclient finds, what a command gives and what the clock shows after what was done,
-- the limits, and the script of a notification
pub record Deps : Type 0 where
  pub client : Option Text
  pub run : List Event → Command → CmdResult
  pub now : List Event → ℕ
  pub probe_timeout : ℕ
  pub eval_timeout : ℕ
  pub launch_timeout : ℕ
  pub launch_wait : ℕ
  pub poll_interval : ℕ
  pub notice : Failure → Text

-- normalResults
abbrev pub normal_results : List Text
normal_results = text "ok" ∷ text "not-found" ∷ text "duplicate" ∷ text "incomplete" ∷ []

abbrev pub is_normal_status : Option Text → Bool
is_normal_status none = false
is_normal_status (some status) = contains status normal_results

-- classify: no problem
unfoldable pub is_normal : CmdResult → Bool
is_normal r = not r.failed && r.zero_exit && is_normal_status (parse_lisp_string r.stdout)

-- an exit code, and what was done
abbrev pub Ended : Type 0
Ended = ℕ × List Event

module _ (d : Deps) where
  abbrev pub command : ℕ → Text → List Text → Command
  command limit program args = record { limit = limit; program = program; args = args }

  abbrev pub probe : Text → Command
  probe client = command d.probe_timeout client (text "--eval" ∷ text "t" ∷ [])

  abbrev pub evaluate : Text → Text → Command
  evaluate client id = command d.eval_timeout client (text "--eval" ∷ receiver_expr id ∷ [])

  abbrev pub launch : Text → Command
  launch client = command d.launch_timeout (text "/usr/bin/open") (launch_args client)

  abbrev pub notify : Failure → Command
  notify f = command 5000000000 (text "/usr/bin/osascript") (text "-e" ∷ d.notice f ∷ [])

  -- fail: a notification is shown, and the code returned
  unfoldable pub fail : ℕ → Failure → List Event → Ended
  fail code f h = (code, ran (notify f) ∷ h)

  abbrev pub answers : CmdResult → Bool
  answers r = not r.timed_out && not r.failed && r.zero_exit

  -- The loop of launchAndWait, with the rounds that are left; none is that they ran out. The answer is
  -- whether Emacs is ready.
  unfoldable pub wait_loop : Text → ℕ → ℕ → List Event → Option (Bool × List Event)
  wait_loop client deadline zero h = none
  wait_loop client deadline (suc rounds) h =
      let h' : List Event = ran (probe client) ∷ slept d.poll_interval ∷ h in
      let again = wait_loop client deadline rounds h' in
      if answers (d.run (slept d.poll_interval ∷ h) (probe client))
      then some (true, h')
      else if not (ltb (d.now h') deadline)
      then some (false, h')
      else again

  -- enough rounds for the wait
  abbrev pub rounds_of : ℕ
  rounds_of = d.launch_wait / d.poll_interval + 1

  -- launchAndWait
  unfoldable pub launch_and_wait : Text → List Event → Option (Bool × List Event)
  launch_and_wait client h =
      let h' : List Event = ran (launch client) ∷ h in
      wait_loop client (d.now h' + d.launch_wait) rounds_of h'

  -- the end of Open: the receiver is called, and Emacs is activated
  unfoldable pub call_receiver : Text → Text → List Event → Ended
  call_receiver client id h =
      let r = d.run h (evaluate client id) in
      let h' : List Event = ran (evaluate client id) ∷ h in
      if r.timed_out
      then fail 1 too_slow h'
      else if not (is_normal r)
      then fail 1 bad_result h'
      else (0, ran (launch client) ∷ h')

  abbrev pub when_ready : Text → Text → Option (Bool × List Event) → Option Ended
  when_ready client id none = none
  when_ready client id (some (true, h)) = some (call_receiver client id h)
  when_ready client id (some (false, h)) = some (fail 1 no_server h)

  -- on what the launch gave
  unfoldable pub launched : Text → Text → List Event → Option Ended
  launched client id h =
      if answers (d.run h (launch client))
      then when_ready client id (launch_and_wait client h)
      else some (fail 1 no_launch (ran (launch client) ∷ h))

  unfoldable pub contact : Text → Text → Option Ended
  contact id client =
      let r = d.run [] (probe client) in
      let h : List Event = ran (probe client) ∷ [] in
      if r.timed_out
      then some (fail 1 no_answer h)
      else if r.failed
      then some (fail 1 not_runnable h)
      else if r.zero_exit
      then some (call_receiver client id h)
      else launched client id h

  abbrev pub with_client : Text → Option Text → Option Ended
  with_client id none = some (fail 1 no_client [])
  with_client id (some client) = contact id client

  abbrev pub with_id : Option Text → Option Ended
  with_id none = some (fail 2 bad_link [])
  with_id (some id) = with_client id d.client

  -- Open; the answer is none only if the rounds of the wait ran out
  unfoldable pub open_link : Option Url → Option Ended
  open_link u = with_id (parse_url u)
