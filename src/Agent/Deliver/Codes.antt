-- ===== src/Agent/Deliver/Codes.antt =====
-- internal/agentipc/emacsclient.go: the exit codes that classify gives.
use imoogi_emacs.Prelude.{
  ℕ, Text, text, equal, equal_iff, Bool, true, false, if◌then◌else◌, Option, none, some, some_eq,
  ◌≡◌, ◌⊎◌, inl, inr, refl, sym, ap, ◌∙◌, Bool-cases,
}
use imoogi_emacs.Prelude.Paths.{has_prefix}
use imoogi_emacs.Agent.Deliver.{
  cut_after, classify_failure, classify_status, exit_rejected, after_prefix, rejected,
}

-- the exit code is 0 where P holds, and 1 or 3 where it does not
abbrev pub Codes : Type 0 → ℕ → Type 0
Codes P n = ((n ≡ 0) × P) ⊎ (((n ≡ 1) ⊎ (n ≡ 3)) × (P → ⊥))

abbrev IsFailure : ℕ → Type 0
IsFailure n = (n ≡ 1) ⊎ (n ≡ 3)

classify_failure-IsFailure :
    (z : Bool) (o : Option Text) (out err : Text) → IsFailure (classify_failure z o out err).code
classify_failure-IsFailure z (some d) out err = inr refl
classify_failure-IsFailure false none out err = inl refl
classify_failure-IsFailure true none out err = inr refl

-- what a client that ended with this exit status said
abbrev pub Said : Bool → Option Text → Type 0
Said z o = (z ≡ true) × (o ≡ some (text "ok"))

nothing-Said : {z : Bool} → Said z none → ⊥
nothing-Said h = cc (h.1)

unsuccessful : {o : Option Text} → Said false o → ⊥
unsuccessful h = cc (h.0)

other-Said : (status : Text) → equal status (text "ok") ≡ false → Said true (some status) → ⊥
other-Said status e h = absurd (differ (sym e ∙ (equal_iff status (text "ok")).1 (some_eq h.1)))
  where
    differ : false ≡ true → ⊥
    differ e = cc

-- the branches of classify behind the test for "ok"
unsaid_code :
    (z : Bool) (status out err : Text)
    → IsFailure
        (if has_prefix status (text "error:")
          then record {
            code = exit_rejected;
            diag = rejected (after_prefix status (text "error:"));
          }
          else classify_failure z (cut_after (text "*ERROR*:") err) out err).code
unsaid_code z status out err = elim (Bool-cases (has_prefix status (text "error:"))) [
  | inl e ↦ rw e (inr refl)
  | inr e ↦ rw e (classify_failure-IsFailure z (cut_after (text "*ERROR*:") err) out err)
]

pub classify_status-Codes :
    (z : Bool) (o : Option Text) (out err : Text)
    → Codes (Said z o) (classify_status z o out err).code
classify_status-Codes z none out err =
    inr (classify_failure-IsFailure z (cut_after (text "*ERROR*:") err) out err, nothing-Said)
classify_status-Codes false (some status) out err =
    inr (unsaid_code false status out err, unsuccessful)
classify_status-Codes true (some status) out err = elim (Bool-cases (equal status (text "ok"))) [
  | inl e ↦ rw e (inl (refl, (refl, ap some ((equal_iff status (text "ok")).0 e))))
  | inr e ↦ rw e (inr (unsaid_code true status out err, other-Said status e))
]
