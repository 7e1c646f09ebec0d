-- ===== src/Agent/Deliver/Contract.antt =====
-- internal/agentipc/emacsclient.go: the exit codes of a delivery, and what is left of it.
use imoogi_emacs.Prelude.{
  ℕ, zero, suc, ◌-◌, ◌≤◌, Text, text, Bool, true, false, not, ◌&&◌, ltb, if◌then◌else◌, Option,
  none, some, some_eq, List, [], ◌∷◌, ◌++◌, length, take, ◌≡◌, ◌⊎◌, inl, inr, refl, sym, ap, ◌∙◌,
  subst, arith, Bool-cases,
}
use mathlib.Core.List.{append-nil, append_assoc}
use imoogi_emacs.Agent.LispString.{parse_lisp_string}
use imoogi_emacs.Agent.Deliver.{
  Result, write_capped, capped, classify, Ran, expired, unable, exited, output_limit, outcome,
  System, Action, made_directory, wrote_file, ran_client, removed_directory, deliver_from,
  deliver_with, deliver, find_emacsclient,
}
use imoogi_emacs.Agent.Deliver.Codes.{Codes, classify_status-Codes}

-- the pieces, one after the other
abbrev pub concat : List Text → Text
concat [] = []
concat (p ∷ ps) = p ++ concat ps

minus_zero : (n : ℕ) → n ≡ n - 0
minus_zero n = omega arith

minus_suc : (n k : ℕ) → n - k ≡ suc n - suc k
minus_suc n k = omega arith

take_all : (n : ℕ) (xs : Text) → length xs ≤ n → take n xs ≡ xs
take_all zero [] h = refl
take_all zero (x ∷ xs) h = absurd (omega arith)
take_all (suc n) [] h = refl
take_all (suc n) (x ∷ xs) h = ap (λ r. x ∷ r) (take_all n xs (omega arith))

take-append :
    (n : ℕ) (buf p : Text) → length buf ≤ n → take n (buf ++ p) ≡ buf ++ take (n - length buf) p
take-append n [] p h = ap (λ k. take k p) (minus_zero n)
take-append zero (c ∷ buf) p h = absurd (omega arith)
take-append (suc n) (c ∷ buf) p h =
    ap (λ r. c ∷ r)
      (take-append n buf p (omega arith) ∙ ap (λ k. buf ++ take k p) (minus_suc n (length buf)))

take-take : (n : ℕ) (xs ys : Text) → take n (take n xs ++ ys) ≡ take n (xs ++ ys)
take-take zero xs ys = refl
take-take (suc n) [] ys = refl
take-take (suc n) (x ∷ xs) ys = ap (λ r. x ∷ r) (take-take n xs ys)

length-take : (n : ℕ) (xs : Text) → length (take n xs) ≤ n
length-take zero xs = omega arith
length-take (suc n) [] = omega arith
length-take (suc n) (x ∷ xs) = omega (arith, length-take n xs)

write_capped-take :
    (limit : ℕ) (buf p : Text)
    → length buf ≤ limit
    → write_capped limit buf p ≡ take limit (buf ++ p)
unfolding write_capped
write_capped-take limit buf p h = elim (Bool-cases (ltb 0 (limit - length buf))) [
  | inl room ↦ rw room (sym (take-append limit buf p h))
  | inr full ↦ rw full (
      sym (
        take-append limit buf p h
        ∙ (ap (λ k. buf ++ take k p) (no_room (limit - length buf) full) ∙ append-nil buf)))
]
  where
    no_room : (k : ℕ) → ltb 0 k ≡ false → k ≡ 0
    no_room k e = ground arith

capped_from :
    (limit : ℕ) (buf : Text) (ps : List Text)
    → length buf ≤ limit
    → capped limit buf ps ≡ take limit (buf ++ concat ps)
unfolding capped
capped_from limit buf [] h = sym (ap (take limit) (append-nil buf) ∙ take_all limit buf h)
capped_from limit buf (p ∷ ps) h =
    ap (λ b. capped limit b ps) (write_capped-take limit buf p h)
    ∙ (capped_from limit (take limit (buf ++ p)) ps (length-take limit (buf ++ p))
        ∙ (take-take limit (buf ++ p) (concat ps)
            ∙ ap (take limit) (append_assoc buf p (concat ps))))

-- A capped buffer holds the first bytes of all that was written, up to the limit, however the writes
-- are cut into pieces.
pub capped-take : (limit : ℕ) (ps : List Text) → capped limit [] ps ≡ take limit (concat ps)
capped-take limit ps = capped_from limit [] ps (omega arith)

-- an outcome that is no usage error, and is a success only of an answer "ok" with exit status 0
abbrev pub IsAnswer : Ran → Type 0
IsAnswer ran =
    (out : List Text) × (err : List Text) × (ran ≡ exited true out err)
    × (parse_lisp_string (take output_limit (concat out)) ≡ some (text "ok"))

Codes-iff : {P Q : Type 0} {n : ℕ} → (P → Q) → (Q → P) → Codes P n → Codes Q n
Codes-iff f g (inl (e, p)) = inl (e, f p)
Codes-iff f g (inr (c, h)) = inr (c, λ q. h (g q))

exited_eq :
    {z z' : Bool} {out out' err err' : List Text}
    → exited z out err ≡ exited z' out' err'
    → (z ≡ z') × (out ≡ out')
exited_eq e = (cc, cc)

outcome-Codes : (ran : Ran) → Codes (IsAnswer ran) (outcome ran).code
unfolding outcome classify
outcome-Codes expired = inr (inl refl, λ a. unanswered a.2)
  where
    unanswered : {out err : List Text} → expired ≡ exited true out err → ⊥
    unanswered e = cc
outcome-Codes unable = inr (inl refl, λ a. unanswered a.2)
  where
    unanswered : {out err : List Text} → unable ≡ exited true out err → ⊥
    unanswered e = cc
outcome-Codes (exited z out err) =
    Codes-iff
      (λ (t, p). (
        out,
        err,
        ap (λ b. exited b out err) t,
        ap parse_lisp_string (sym (capped-take output_limit out)) ∙ p,
      ))
      (λ (out', err', e, p).
        let (t, same) = exited_eq e in
        (
          t,
          ap parse_lisp_string
                (capped-take output_limit out ∙ ap (λ o. take output_limit (concat o)) same)
              ∙ p,
        ))
      (classify_status-Codes z (parse_lisp_string (capped output_limit [] out)) _ _)

-- nothing was done, or a directory was made and removed at last, with the whole event in it when the
-- client ran
abbrev pub IsTidy : Text → ℕ → List Action → Type 0
IsTidy event timeout done =
    (done ≡ [])
    ⊎ (done ≡ made_directory ∷ removed_directory ∷ [])
    ⊎ ((client : Text) × (done
          ≡ made_directory ∷ wrote_file event ∷ ran_client client timeout ∷ removed_directory ∷ []))

-- the directory and the file for the event could be made
abbrev pub is_prepared : System → Bool
is_prepared sys =
    sys.makes_directory
    && (sys.resolves && (sys.opens && sys.changes_mode && sys.writes && sys.closes))

-- the event could be written, and the client that was found answered "ok" to it
abbrev pub IsDone : System → Text → ℕ → Type 0
IsDone sys event timeout =
    (is_prepared sys ≡ true)
    × ((client : Text) × (find_emacsclient sys ≡ some client)
        × IsAnswer (sys.run client event timeout))

pub record IsDelivery (sys : System) (event : Text) (timeout : ℕ) (o : Result × List Action)
    : Type 0 where
  pub codes : Codes (IsDone sys event timeout) o.0.code
  pub tidy : IsTidy event timeout o.1

decide :
    {A : Type 0} (P : A → Type 0) (b : Bool) (x y : A)
    → (b ≡ true → P x)
    → (b ≡ false → P y)
    → P (if b then x else y)
decide P true x y h k = h refl
decide P false x y h k = k refl

unprepared :
    (sys : System) (event : Text) (timeout : ℕ)
    → is_prepared sys ≡ false
    → IsDone sys event timeout
    → ⊥
unprepared sys event timeout e d = absurd (differ (sym e ∙ d.0))
  where
    differ : false ≡ true → ⊥
    differ e = cc

prepared_code :
    (sys : System) (client event : Text) (timeout : ℕ)
    → is_prepared sys ≡ true
    → find_emacsclient sys ≡ some client
    → Codes (IsDone sys event timeout) (outcome (sys.run client event timeout)).code
prepared_code sys client event timeout ready found =
    Codes-iff (λ a. (ready, (client, found, a)))
      (λ (r, (other, also, a)).
        subst (λ c. IsAnswer (sys.run c event timeout)) (some_eq (sym also ∙ found)) a)
      (outcome-Codes (sys.run client event timeout))

unready_a : (sys : System) → not sys.makes_directory ≡ true → is_prepared sys ≡ false
unready_a sys a = ground arith

unready_b :
    (sys : System)
    → not sys.makes_directory ≡ false
    → not sys.resolves ≡ true
    → is_prepared sys ≡ false
unready_b sys a b = ground arith

unready_c :
    (sys : System)
    → not sys.makes_directory ≡ false
    → not sys.resolves ≡ false
    → not (sys.opens && sys.changes_mode && sys.writes && sys.closes) ≡ true
    → is_prepared sys ≡ false
unready_c sys a b c = ground arith

ready_at :
    (sys : System)
    → not sys.makes_directory ≡ false
    → not sys.resolves ≡ false
    → not (sys.opens && sys.changes_mode && sys.writes && sys.closes) ≡ false
    → is_prepared sys ≡ true
ready_at sys a b c = ground arith

deliver_with-IsDelivery :
    (sys : System) (event : Text) (timeout : ℕ) (o : Option Text)
    → find_emacsclient sys ≡ o
    → IsDelivery sys event timeout (deliver_with sys event timeout o)
unfolding deliver_from
deliver_with-IsDelivery sys event timeout none e = record {
  codes = inr (inl refl, λ d. no_client_found (sym e ∙ d.1.1));
  tidy = inl refl;
}
  where
    no_client_found : {c : Text} → none ≡ some c → ⊥
    no_client_found e = cc
deliver_with-IsDelivery sys event timeout (some client) e =
    decide (IsDelivery sys event timeout) (not sys.makes_directory) _ _
      (λ a. record {
        codes = inr (inl refl, unprepared sys event timeout (unready_a sys a));
        tidy = inl refl;
      })
      (λ a.
        decide made (not sys.resolves) _ _
          (λ b. record {
            codes = inr (inl refl, unprepared sys event timeout (unready_b sys a b));
            tidy = inr (inl refl);
          })
          (λ b.
            decide made (not (sys.opens && sys.changes_mode && sys.writes && sys.closes)) _ _
              (λ c. record {
                codes = inr (inl refl, unprepared sys event timeout (unready_c sys a b c));
                tidy = inr (inl refl);
              })
              (λ c. record {
                codes = prepared_code sys client event timeout (ready_at sys a b c) e;
                tidy = inr (inr (client, refl));
              })))
  where
    made : Result × List Action → Type 0
    made o = IsDelivery sys event timeout (o.0, made_directory ∷ o.1)

-- A delivery has exit code 0 exactly if the event could be written and the client that was found ended
-- with exit status 0 and printed the string "ok", and has exit code 1 or 3 otherwise; a directory that
-- was made is removed at last, and the client runs only when the whole event is in it.
pub deliver-IsDelivery :
    (sys : System) (event : Text) (timeout : ℕ)
    → IsDelivery sys event timeout (deliver sys event timeout)
unfolding deliver
deliver-IsDelivery sys event timeout =
    deliver_with-IsDelivery sys event timeout (find_emacsclient sys) refl
