-- ===== src/Opener/Ends.antt =====
-- internal/anki/opener/opener.go: Open comes to an end, whatever the commands answer.
use Prim.Native.Nat.{◌/◌}
use native.Mathlib.Nat.{le_trans, lt-div-mul-add, suc-mul, add-mul}
use imoogi_emacs.Prelude.{
  ℕ, zero, suc, ◌+◌, ◌*◌, ◌≤◌, ◌<◌, Text, Bool, true, false, ltb, if◌then◌else◌, Option, none, some,
  List, [], ◌∷◌, ◌≡◌, inl, inr, refl, arith, Bool-cases,
}
use imoogi_emacs.Opener.{
  Url, parse_url, Event, ran, slept, Deps, fail, answers, probe, launch, wait_loop, rounds_of,
  launch_and_wait, when_ready, call_receiver, launched, contact, with_client, with_id, open_link,
}

-- what is relied on of the clock: it does not run back, and a sleep takes its time
pub record IsClock (d : Deps) : Type 0 where
  pub forward : (h : List Event) (e : Event) → d.now h ≤ d.now (e ∷ h)
  pub sleeps : (h : List Event) → d.now h + d.poll_interval ≤ d.now (slept d.poll_interval ∷ h)
  pub polls : 1 ≤ d.poll_interval

abbrev pub Ends : {A : Type 0} → Option A → Type 0
Ends {A} o = (a : A) × (o ≡ some a)

choose : {A : Type 0} (b : Bool) (x y : Option A) → Ends x → Ends y → Ends (if b then x else y)
choose true x y h k = h
choose false x y h k = k

ltb→lt : (a b : ℕ) → ltb a b ≡ true → a < b
ltb→lt a b h = ground arith

-- after a round, at now', the rounds that are left are enough
rounds_left :
    (rounds poll now now' deadline : ℕ)
    → now' < deadline
    → now + poll ≤ now'
    → deadline ≤ now + suc rounds * poll
    → 1 ≤ rounds
rounds_left zero poll now now' deadline h k b = absurd (omega (arith, suc-mul 0 poll))
rounds_left (suc rounds) poll now now' deadline h k b = omega arith

time_left :
    (rounds poll now now' deadline : ℕ)
    → now + poll ≤ now'
    → deadline ≤ now + suc rounds * poll
    → deadline ≤ now' + rounds * poll
time_left rounds poll now now' deadline k b = omega (arith, suc-mul rounds poll)

module _ (d : Deps) (clock : IsClock d) where
  wait_loop-Ends :
      (client : Text) (deadline rounds : ℕ) (h : List Event)
      → 1 ≤ rounds
      → deadline ≤ d.now h + rounds * d.poll_interval
      → Ends (wait_loop d client deadline rounds h)
  unfolding wait_loop
  wait_loop-Ends client deadline zero h r b = absurd (omega arith)
  wait_loop-Ends client deadline (suc rounds) h r b =
      let h' : List Event = ran (probe d client) ∷ slept d.poll_interval ∷ h in
      choose (answers d (d.run (slept d.poll_interval ∷ h) (probe d client))) _ _ ((true, h'), refl)
        (elim (Bool-cases (ltb (d.now h') deadline)) [
          | inr late ↦ rw late ((false, h'), refl)
          | inl early ↦ rw early (
              let passed : d.now h + d.poll_interval ≤ d.now h' =
                le_trans (clock.sleeps h)
                  (clock.forward (slept d.poll_interval ∷ h) (ran (probe d client))) in
              let soon : d.now h' < deadline = ltb→lt _ _ early in
              wait_loop-Ends client deadline rounds h'
                (rounds_left rounds d.poll_interval _ _ _ soon passed b)
                (time_left rounds d.poll_interval _ _ _ passed b))
        ])

  rounds_enough : d.launch_wait ≤ rounds_of d * d.poll_interval
  rounds_enough = omega (
    arith,
    lt-div-mul-add {a = d.launch_wait} {b = d.poll_interval} clock.polls,
    add-mul (d.launch_wait / d.poll_interval) 1 d.poll_interval,
  )

  launch_and_wait-Ends : (client : Text) (h : List Event) → Ends (launch_and_wait d client h)
  unfolding launch_and_wait
  launch_and_wait-Ends client h =
      let h' : List Event = ran (launch d client) ∷ h in
      wait_loop-Ends client (d.now h' + d.launch_wait) (rounds_of d) h' (omega arith)
        (omega (arith, rounds_enough))

  when_ready-Ends :
      (client id : Text) (o : Option (Bool × List Event)) → Ends o → Ends (when_ready d client id o)
  when_ready-Ends client id none e = absurd (missing e.1)
    where
      missing : {a : Bool × List Event} → none ≡ some a → ⊥
      missing h = cc
  when_ready-Ends client id (some (true, h)) e = (call_receiver d client id h, refl)
  when_ready-Ends client id (some (false, h)) e = (fail d 1 _ h, refl)

  launched-Ends : (client id : Text) (h : List Event) → Ends (launched d client id h)
  unfolding launched
  launched-Ends client id h =
      choose (answers d (d.run h (launch d client))) _ _
        (when_ready-Ends client id (launch_and_wait d client h) (launch_and_wait-Ends client h))
        (_, refl)

  contact-Ends : (id client : Text) → Ends (contact d id client)
  unfolding contact
  contact-Ends id client =
      let r = d.run [] (probe d client) in
      choose r.timed_out _ _ (_, refl)
        (choose r.failed _ _ (_, refl)
          (choose r.zero_exit _ _ (_, refl) (launched-Ends client id (ran (probe d client) ∷ []))))

  -- Where the clock does not run back, a sleep takes its time and the interval is not zero, opening a link ends
  -- with an exit code, whatever the commands answer and however long they take: the rounds that the wait is
  -- given suffice.
  pub open_link-Ends : (u : Option Url) → Ends (open_link d u)
  unfolding open_link
  open_link-Ends u = from_id (parse_url u)
    where
      from_client : (id : Text) (o : Option Text) → Ends (with_client d id o)
      from_client id none = (_, refl)
      from_client id (some client) = contact-Ends id client

      from_id : (o : Option Text) → Ends (with_id d o)
      from_id none = (_, refl)
      from_id (some id) = from_client id d.client
