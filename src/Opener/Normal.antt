-- ===== src/Opener/Normal.antt =====
-- internal/anki/opener/opener.go: the results of the receiver that classify takes as normal.
use imoogi_emacs.Prelude.{
  Text, text, equal, equal_iff, contains, Bool, true, false, ◌||◌, Option, none, some, ◌≡◌, ◌⊎◌,
  inl, inr, refl, sym, ap, ◌∙◌, arith, Bool-cases,
}
use imoogi_emacs.Agent.LispString.{parse_lisp_string}
use imoogi_emacs.Opener.{CmdResult, is_normal, is_normal_status, normal_results}

-- the strings that the receiver answers with
abbrev pub IsStatus : Text → Type 0
IsStatus s =
    (s ≡ text "ok") ⊎ ((s ≡ text "not-found") ⊎ ((s ≡ text "duplicate") ⊎ (s ≡ text "incomplete")))

-- a command that ran, ended in time with exit status 0 and printed such a string
pub record IsNormal (r : CmdResult) : Type 0 where
  pub in_time : r.timed_out ≡ false
  pub could_run : r.failed ≡ false
  pub succeeded : r.zero_exit ≡ true
  pub status : Text
  pub printed : parse_lisp_string r.stdout ≡ some status
  pub known : IsStatus status

pub true-false : true ≡ false → ⊥
true-false e = cc

is_normal-ran : (r : CmdResult) → is_normal r ≡ true → (r.failed ≡ false) × (r.zero_exit ≡ true)
unfolding is_normal
is_normal-ran r h = (ground arith, ground arith)

normal_status :
    (r : CmdResult) → is_normal r ≡ true → is_normal_status (parse_lisp_string r.stdout) ≡ true
unfolding is_normal
normal_status r h = ground arith

last_status :
    (a b c d : Bool)
    → (a || (b || (c || (d || false)))) ≡ true
    → a ≡ false
    → b ≡ false
    → c ≡ false
    → d ≡ true
last_status a b c d h p q r = ground arith

contains-IsStatus : (s : Text) → contains s normal_results ≡ true → IsStatus s
unfolding contains
contains-IsStatus s h = elim (Bool-cases (equal (text "ok") s)) [
  | inl a ↦ inl (sym ((equal_iff (text "ok") s).0 a))
  | inr a ↦ inr (elim (Bool-cases (equal (text "not-found") s)) [
    | inl b ↦ inl (sym ((equal_iff (text "not-found") s).0 b))
    | inr b ↦ inr (elim (Bool-cases (equal (text "duplicate") s)) [
      | inl c ↦ inl (sym ((equal_iff (text "duplicate") s).0 c))
      | inr c ↦ inr (sym ((equal_iff (text "incomplete") s).0 (last_status _ _ _ _ h a b c)))
    ])
  ])
]

IsStatus-contains : (s : Text) → IsStatus s → contains s normal_results ≡ true
unfolding contains equal
IsStatus-contains s (inl e) = rw e refl
IsStatus-contains s (inr (inl e)) = rw e refl
IsStatus-contains s (inr (inr (inl e))) = rw e refl
IsStatus-contains s (inr (inr (inr e))) = rw e refl

printed-IsStatus :
    (o : Option Text) → is_normal_status o ≡ true → (s : Text) × (o ≡ some s) × IsStatus s
printed-IsStatus none h = absurd (true-false (sym h))
printed-IsStatus (some s) h = (s, refl, contains-IsStatus s h)

pub is_normal-IsNormal : (r : CmdResult) → r.timed_out ≡ false → is_normal r ≡ true → IsNormal r
is_normal-IsNormal r soon h =
    let (no_failure, success) = is_normal-ran r h in
    let (s, said, known) = printed-IsStatus (parse_lisp_string r.stdout) (normal_status r h) in
    record {
      in_time = soon;
      could_run = no_failure;
      succeeded = success;
      status = s;
      printed = said;
      known = known;
    }

pub IsNormal-is_normal : (r : CmdResult) → IsNormal r → is_normal r ≡ true
unfolding is_normal
IsNormal-is_normal r n =
    let known : is_normal_status (parse_lisp_string r.stdout) ≡ true =
      ap is_normal_status n.printed ∙ IsStatus-contains n.status n.known in
    let ran_it = n.could_run in let success = n.succeeded in ground arith
