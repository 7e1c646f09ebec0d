-- ===== src/Opener/Tests.antt =====
-- The opening of a link, and the theorems at concrete inputs.
use imoogi_emacs.Prelude.{
  ℕ, zero, suc, ◌+◌, ◌≤◌, text, true, false, Option, some, List, [], ◌∷◌, equal, arith,
}
use imoogi_emacs.Opener.{
  Url, CmdResult, Command, Event, ran, slept, Ended, Deps, open_link, evaluate, launch,
}
use imoogi_emacs.Opener.Ends.{IsClock, Ends, open_link-Ends}

abbrev link : Option Url
link = some (record {
  scheme = text "imoogi-anki";
  opaque = [];
  has_user = false;
  host = text "OPEN";
  path = text "/";
  query = some ((text "id", text "ab-1" ∷ []) ∷ []);
})

-- the seconds that were slept
abbrev time : List Event → ℕ
time [] = 0
time (ran c ∷ h) = time h
time (slept n ∷ h) = time h + n

-- Emacs is not there until three units have passed
abbrev answer : List Event → Command → CmdResult
answer h c = record {
  stdout = text "\"ok\"\n";
  stderr = [];
  zero_exit = elim (time h) [ zero ↦ equal c.program (text "/usr/bin/open") | suc n ↦ true ];
  failed = false;
  timed_out = false;
}

abbrev deps : Deps
deps = record {
  client = some (text "ec");
  run = answer;
  now = time;
  probe_timeout = 1;
  eval_timeout = 2;
  launch_timeout = 3;
  launch_wait = 9;
  poll_interval = 2;
  notice = λ f. [];
}

opened : Ended
opened = (
  0,
  ran (launch deps (text "ec"))
      ∷ ran (evaluate deps (text "ec") (text "ab-1"))
      ∷ ran (record { limit = 1; program = text "ec"; args = text "--eval" ∷ text "t" ∷ [] })
      ∷ slept 2
      ∷ ran (launch deps (text "ec"))
      ∷ ran (record { limit = 1; program = text "ec"; args = text "--eval" ∷ text "t" ∷ [] })
      ∷ [],
)

-- the clock of the example
forward : (h : List Event) (e : Event) → time h ≤ time (e ∷ h)
forward h (ran c) = omega arith
forward h (slept n) = omega arith

clock : IsClock deps
clock = record { forward = forward; sleeps = λ h. omega arith; polls = omega arith }

open_link-Ends_example : Ends (open_link deps link)
open_link-Ends_example = open_link-Ends deps clock link
