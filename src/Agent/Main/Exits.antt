-- ===== src/Agent/Main/Exits.antt =====
-- internal/agentipc/agentipc.go: what the exit code of an invocation says, and its diagnostic line.
use imoogi_emacs.Prelude.{
  ℕ, Text, text, trim_space, Bool, true, false, ◌||◌, ◌==◌, List, [], ◌∷◌, ◌++◌, any, any-append,
  ◌≡◌, ◌⊎◌, inl, inr, refl, ◌∙◌, arith, Bool-cases,
}
use imoogi_emacs.Agent.Args.{Usage, Parsed, ok, usage, environment}
use imoogi_emacs.Agent.Request.{Request, Process, parse_request}
use imoogi_emacs.Agent.Deliver.{Result, System, Action, deliver}
use imoogi_emacs.Agent.Deliver.Contract.{IsTidy, IsDone, IsDelivery, deliver-IsDelivery}
use imoogi_emacs.Agent.Main.{
  fold_breaks, one_line, Exit, Messages, program_prefix, fail, report, send, is_version, main,
}

abbrev pub is_break : ℕ → Bool
is_break c = c == 10 || c == 13

fold_breaks-plain : (s : Text) → any is_break (fold_breaks s) ≡ false
unfolding fold_breaks
fold_breaks-plain [] = refl
fold_breaks-plain (c ∷ []) = ground arith
fold_breaks-plain (c ∷ d ∷ s) = ground (arith, fold_breaks-plain s, fold_breaks-plain (d ∷ s))

-- one line, of a diagnostic without line breaks
abbrev pub IsLine : Text → Type 0
IsLine s = (line : Text) × (any is_break line ≡ false) × (s ≡ line ++ 10 ∷ [])

fail-IsLine :
    (code : ℕ) (diag : Text) (actions : List Action) → IsLine (fail code diag actions).stderr
unfolding fail one_line
fail-IsLine code diag actions = (
  program_prefix ++ fold_breaks (trim_space diag),
  any-append is_break program_prefix (fold_breaks (trim_space diag))
      ∙ fold_breaks-plain (trim_space diag),
  refl,
)

module _ (msg : Messages) (process : Process) (sys : System) where
  -- what an invocation with these arguments did, and how it ended
  pub data Meaning (args : List Text) (e : Exit) : Type 0 where
    versioned :
        is_version msg process sys args ≡ true
        → e.code ≡ 0
        → e.stdout ≡ text "imoogi-agent " ++ (msg.version ++ 10 ∷ [])
        → e.stderr ≡ []
        → e.actions ≡ []
        → Meaning args e
    refused :
        (u : Usage)
        → parse_request process args ≡ usage u
        → e.code ≡ 2
        → IsLine e.stderr
        → e.stdout ≡ []
        → e.actions ≡ []
        → Meaning args e
    unreadable :
        parse_request process args ≡ environment
        → e.code ≡ 1
        → IsLine e.stderr
        → e.stdout ≡ []
        → e.actions ≡ []
        → Meaning args e
    delivered :
        (r : Request)
        → parse_request process args ≡ ok r
        → IsDone sys r.event r.timeout
        → e.code ≡ 0
        → e.stderr ≡ []
        → e.stdout ≡ []
        → IsTidy r.event r.timeout e.actions
        → Meaning args e
    undelivered :
        (r : Request)
        → parse_request process args ≡ ok r
        → (IsDone sys r.event r.timeout → ⊥)
        → (e.code ≡ 1) ⊎ (e.code ≡ 3)
        → IsLine e.stderr
        → e.stdout ≡ []
        → IsTidy r.event r.timeout e.actions
        → Meaning args e

  failed_code : (n : ℕ) → (n ≡ 1) ⊎ (n ≡ 3) → (n == 0) ≡ false
  failed_code n (inl e) = rw e refl
  failed_code n (inr e) = rw e refl

  report-Meaning :
      (args : List Text) (r : Request) (o : Result × List Action)
      → parse_request process args ≡ ok r
      → IsDelivery sys r.event r.timeout o
      → Meaning args (report msg process sys o)
  unfolding fail
  report-Meaning args r (d, actions) parsed w = elim w.codes [
    | inl (z, done) ↦ rw z (delivered r parsed done refl refl refl w.tidy)
    | inr (c, h) ↦
        rw (failed_code d.code c)
          (undelivered r parsed h c (fail-IsLine d.code (msg.of_diag d.diag) actions) refl w.tidy)
  ]

  send-Meaning :
      (args : List Text) (o : Parsed Request)
      → parse_request process args ≡ o
      → Meaning args (send msg process sys o)
  unfolding fail
  send-Meaning args (usage u) e = refused u e refl (fail-IsLine 2 (msg.of_usage u) []) refl refl
  send-Meaning args environment e =
      unreadable e refl (fail-IsLine 1 msg.of_environment []) refl refl
  send-Meaning args (ok r) e =
      report-Meaning args r (deliver sys r.event r.timeout) e
        (deliver-IsDelivery sys r.event r.timeout)

  -- Every invocation ends in one of five ways: `imoogi-agent <version>` is printed with exit code 0;
  -- a usage error, and only it, gives code 2; a missing environment gives code 1; these send
  -- nothing; an event gives code 0 exactly if it could be written and the client that was found
  -- ended with exit status 0 and printed the string "ok", and code 1 or 3 otherwise. A code other
  -- than 0 comes with exactly one line on stderr and nothing on stdout, and a directory made for
  -- an event is removed.
  pub main-Meaning : (args : List Text) → Meaning args (main msg process sys args)
  unfolding main
  main-Meaning args = elim (Bool-cases (is_version msg process sys args)) [
    | inl v ↦ rw v (versioned v refl refl refl refl)
    | inr v ↦ rw v (send-Meaning args (parse_request process args) refl)
  ]
