-- ===== src/Agent/Request/Valid.antt =====
-- internal/agentipc/request.go: what an accepted command line sends.
use imoogi_emacs.Prelude.{
  ℕ, ◌*◌, ◌≤◌, Text, text, equal, equal_iff, Bool, true, false, not, ◌&&◌, ◌||◌, ltb, if◌then◌else◌,
  Option, none, some, List, [], ◌∷◌, ◌++◌, any, contains, length, ◌≡◌, ◌⊎◌, inl, inr, refl, arith,
  Bool-cases,
}
use imoogi_emacs.Prelude.Dict.{Dict, lookup}
use imoogi_emacs.Prelude.Paths.{is_abs, join_path, clean}
use imoogi_emacs.Agent.Numbers.{max_int, second, positive_int, positive_seconds}
use imoogi_emacs.Agent.Numbers.Exact.{positive_int_iff, positive_seconds_iff}
use imoogi_emacs.Agent.Args.{
  Parsed, ok, usage, environment, ◌>>=◌, common_options, subcommand_options, parse_args,
}
use imoogi_emacs.Agent.Request.{
  Payload, message, open_file, goto_location, artifact_created, task_finished, Envelope, Request,
  Process, max_event_bytes, encoded, numeral, below, absolute, message_payload, open_payload,
  goto_payload, artifact_payload, finish_artifact, finish_status, finish_payload, payload_of,
  seconds, from_option, resolve_timeout, build, allowed_only, dispatch, parse_request,
}

-- a success satisfies P
abbrev pub Ensures : {A : Type 0} → (A → Type 0) → Parsed A → Type 0
Ensures P (ok a) = P a
Ensures P (usage u) = Unit
Ensures P environment = Unit

>>=-Ensures :
    {A B : Type 0} (P : A → Type 0) (Q : B → Type 0) (m : Parsed A) (f : A → Parsed B)
    → Ensures P m
    → ((a : A) → P a → Ensures Q (f a))
    → Ensures Q (m >>= f)
>>=-Ensures P Q (ok a) f h k = k a h
>>=-Ensures P Q (usage u) f h k = tt
>>=-Ensures P Q environment f h k = tt

if-Ensures :
    {A : Type 0} (P : A → Type 0) (b : Bool) (x y : Parsed A)
    → Ensures P x
    → Ensures P y
    → Ensures P (if b then x else y)
if-Ensures P true x y h k = h
if-Ensures P false x y h k = k

-- a line or column of Emacs
abbrev pub IsPosition : ℕ → Type 0
IsPosition n = (1 ≤ n) × (n ≤ max_int)

abbrev pub IsPositionIfAny : Option ℕ → Type 0
IsPositionIfAny none = Unit
IsPositionIfAny (some n) = IsPosition n

abbrev pub IsAbsoluteIfAny : Option Text → Type 0
IsAbsoluteIfAny none = Unit
IsAbsoluteIfAny (some p) = is_abs p ≡ true

-- what the receiver relies on
abbrev pub IsValid : Payload → Type 0
IsValid (message t) = equal t [] ≡ false
IsValid (open_file p) = is_abs p ≡ true
IsValid (goto_location p line column) = (is_abs p ≡ true) × IsPosition line × IsPositionIfAny column
IsValid (artifact_created p kind title) = is_abs p ≡ true
IsValid (task_finished status summary artifact) =
    ((status ≡ text "success") ⊎ (status ≡ text "failed")) × IsAbsoluteIfAny artifact

clean-is_abs : (s : Text) → is_abs s ≡ true → is_abs (clean s) ≡ true
unfolding clean is_abs
clean-is_abs s h = rw h refl

join_path-is_abs : (d p : Text) → is_abs d ≡ true → is_abs (join_path d p) ≡ true
unfolding join_path equal is_abs
join_path-is_abs [] p h = cc
join_path-is_abs (c ∷ d) [] h = clean-is_abs (c ∷ d) h
join_path-is_abs (c ∷ d) (e ∷ p) h = clean-is_abs ((c ∷ d) ++ b'/' ∷ e ∷ p) h

numeral-Ensures : (s : Text) → Ensures IsPosition (numeral (positive_int s))
numeral-Ensures s = go (positive_int s) refl
  where
    go : (o : Option ℕ) → positive_int s ≡ o → Ensures IsPosition (numeral o)
    go none e = tt
    go (some n) e = let w = (positive_int_iff s n).0 e in (w.positive, w.bounded)

module _ (process : Process) (rooted : IsAbsoluteIfAny process.getwd) where
  below-Ensures :
      (p : Text) (o : Option Text)
      → IsAbsoluteIfAny o
      → Ensures (λ q. is_abs q ≡ true) (below process p o)
  below-Ensures p none h = tt
  below-Ensures p (some d) h = join_path-is_abs d p h

  absolute-Ensures : (p : Text) → Ensures (λ q. is_abs q ≡ true) (absolute process p)
  unfolding absolute
  absolute-Ensures p =
      if-Ensures (λ q. is_abs q ≡ true) (equal p []) _ _ tt (given (Bool-cases (is_abs p)))
    where
      given :
          (is_abs p ≡ true) ⊎ (is_abs p ≡ false)
          → Ensures
              (λ q. is_abs q ≡ true)
              (if is_abs p then ok p else below process p process.getwd)
      given (inl h) = rw h h
      given (inr h) = rw h (below-Ensures p process.getwd rooted)

  message-Ensures : (rest : List Text) → Ensures IsValid (message_payload process rest)
  message-Ensures [] = tt
  message-Ensures (t ∷ []) = elim (Bool-cases (equal t [])) [ inl e ↦ rw e tt | inr e ↦ rw e e ]
  message-Ensures (t ∷ u ∷ rest) = tt

  open-Ensures : (rest : List Text) → Ensures IsValid (open_payload process rest)
  open-Ensures [] = tt
  open-Ensures (p ∷ []) =
      >>=-Ensures _ IsValid (absolute process p) _ (absolute-Ensures p) (λ q h. h)
  open-Ensures (p ∷ q ∷ rest) = tt

  goto-Ensures : (rest : List Text) → Ensures IsValid (goto_payload process rest)
  goto-Ensures [] = tt
  goto-Ensures (p ∷ []) = tt
  goto-Ensures (p ∷ l ∷ []) =
      >>=-Ensures IsPosition IsValid (numeral (positive_int l)) _ (numeral-Ensures l) (λ line h.
        >>=-Ensures _ IsValid (absolute process p) _ (absolute-Ensures p) (λ q k. (k, h, tt)))
  goto-Ensures (p ∷ l ∷ c ∷ []) =
      >>=-Ensures IsPosition IsValid (numeral (positive_int l)) _ (numeral-Ensures l) (λ line h.
        >>=-Ensures IsPosition IsValid (numeral (positive_int c)) _ (numeral-Ensures c) (λ column i.
          >>=-Ensures _ IsValid (absolute process p) _ (absolute-Ensures p) (λ q k. (k, h, i))))
  goto-Ensures (p ∷ l ∷ c ∷ d ∷ rest) = tt

  artifact-Ensures :
      (options : Dict Text) (rest : List Text)
      → Ensures IsValid (artifact_payload process options rest)
  artifact-Ensures options [] = tt
  artifact-Ensures options (p ∷ []) =
      >>=-Ensures _ IsValid (absolute process p) _ (absolute-Ensures p) (λ q h. h)
  artifact-Ensures options (p ∷ q ∷ rest) = tt

  abbrev IsStatus : Text → Type 0
  IsStatus status = (status ≡ text "success") ⊎ (status ≡ text "failed")

  finish_artifact-Ensures :
      (status : Text) (summary artifact : Option Text)
      → IsStatus status
      → Ensures IsValid (finish_artifact process status summary artifact)
  finish_artifact-Ensures status summary none h = (h, tt)
  finish_artifact-Ensures status summary (some a) h =
      >>=-Ensures _ IsValid (absolute process a) _ (absolute-Ensures a) (λ q k. (h, k))

  IsStatus-of :
      (status : Text)
      → (equal status (text "success") || equal status (text "failed")) ≡ true
      → IsStatus status
  IsStatus-of status h = elim (Bool-cases (equal status (text "success"))) [
    | inl e ↦ inl ((equal_iff status (text "success")).0 e)
    | inr e ↦ inr ((equal_iff status (text "failed")).0 (ground arith))
  ]

  finish_status-Ensures :
      (options : Dict Text) (status : Text) (summary : Option Text)
      → Ensures IsValid (finish_status process options status summary)
  finish_status-Ensures options status summary =
      elim (Bool-cases (equal status (text "success") || equal status (text "failed"))) [
        | inl e ↦ rw e (
            finish_artifact-Ensures status summary (lookup (text "--artifact") options)
              (IsStatus-of status e))
        | inr e ↦ rw e tt
      ]

  finish-Ensures :
      (options : Dict Text) (rest : List Text)
      → Ensures IsValid (finish_payload process options rest)
  finish-Ensures options [] = tt
  finish-Ensures options (s ∷ []) = finish_status-Ensures options s none
  finish-Ensures options (s ∷ summary ∷ []) = finish_status-Ensures options s (some summary)
  finish-Ensures options (s ∷ t ∷ u ∷ rest) = tt

  payload_of-Ensures :
      (sub : Text) (options : Dict Text) (rest : List Text)
      → Ensures IsValid (payload_of process sub options rest)
  unfolding payload_of
  payload_of-Ensures sub options rest =
      if-Ensures IsValid (equal sub (text "message")) _ _ (message-Ensures rest) (
        if-Ensures IsValid (equal sub (text "open-file")) _ _ (open-Ensures rest) (
          if-Ensures IsValid (equal sub (text "goto")) _ _ (goto-Ensures rest) (
            if-Ensures IsValid (equal sub (text "artifact")) _ _ (artifact-Ensures options rest)
              (finish-Ensures options rest))))

  -- a whole number of seconds, at least one, as an int64 of nanoseconds
  abbrev pub IsTimeout : ℕ → Type 0
  IsTimeout d = (n : ℕ) × (1 ≤ n) × (d ≡ n * second) × (d ≤ max_int)

  seconds-Ensures : (s : Text) → Ensures IsTimeout (seconds process (positive_seconds s))
  seconds-Ensures s = go (positive_seconds s) refl
    where
      go : (o : Option ℕ) → positive_seconds s ≡ o → Ensures IsTimeout (seconds process o)
      go none e = tt
      go (some d) e =
          let (n, w, x, b) = (positive_seconds_iff s d).0 e in (n, w.positive, x, rw x b)

  IsTimeout-Ensures : (options : Dict Text) → Ensures IsTimeout (resolve_timeout process options)
  unfolding resolve_timeout
  IsTimeout-Ensures options = go (lookup (text "--timeout") options)
    where
      go : (o : Option Text) → Ensures IsTimeout (from_option process o)
      go (some value) = seconds-Ensures value
      go none =
          if-Ensures IsTimeout (equal process.timeout_variable []) _ _
            (5, omega arith, refl, omega arith) (seconds-Ensures process.timeout_variable)

  -- the request carries the JSON of a valid event, within the limits
  pub record IsSent (r : Request) : Type 0 where
    pub envelope : Envelope
    pub is_json : process.encode envelope ≡ some r.event
    pub valid : IsValid envelope.payload
    pub small : length r.event ≤ max_event_bytes
    pub limited : IsTimeout r.timeout

  encoded-Ensures :
      (o : Option Text) → Ensures (λ e. (o ≡ some e) × (length e ≤ max_event_bytes)) (encoded o)
  unfolding encoded
  encoded-Ensures none = tt
  encoded-Ensures (some e) = elim (Bool-cases (ltb max_event_bytes (length e))) [
    | inl h ↦ rw h tt
    | inr h ↦ rw h (refl, ground arith)
  ]

  build-Ensures :
      (sub : Text) (options : Dict Text) (rest : List Text)
      → Ensures IsSent (build process sub options rest)
  unfolding build
  build-Ensures sub options rest =
      >>=-Ensures IsValid IsSent (payload_of process sub options rest) _
        (payload_of-Ensures sub options rest)
        (λ p valid.
          >>=-Ensures IsTimeout IsSent (resolve_timeout process options) _
            (IsTimeout-Ensures options)
            (λ d limited.
              let e : Envelope = record {
                timestamp = process.timestamp;
                project = lookup (text "--project") options;
                session = lookup (text "--session") options;
                payload = p;
              } in
              >>=-Ensures _ IsSent (encoded (process.encode e)) _
                (encoded-Ensures (process.encode e))
                (λ event small. record {
                  envelope = e;
                  is_json = small.0;
                  valid = valid;
                  small = small.1;
                  limited = limited;
                })))

  -- An accepted command line sends the JSON of a valid event: its paths are absolute, lines and columns are
  -- positions, a message is not empty, a status is success or failed; the JSON has at most a mebibyte and
  -- the time limit is a whole number of seconds, at least one, that fits in an int64.
  pub parse_request-IsSent : (args : List Text) → Ensures IsSent (parse_request process args)
  unfolding parse_request
  parse_request-IsSent args =
      >>=-Ensures (λ a. Unit) IsSent (parse_args args) _ (anything (parse_args args))
        (λ a t. from a.positional a.options)
    where
      anything : {A : Type 0} (m : Parsed A) → Ensures (λ a. Unit) m
      anything (ok a) = tt
      anything (usage u) = tt
      anything environment = tt

      allowed :
          (sub : Text) (options : Dict Text) (rest : List Text) (o : Option (List Text))
          → Ensures IsSent (allowed_only process sub options rest o)
      allowed sub options rest none = tt
      allowed sub options rest (some names) =
          if-Ensures IsSent
            (any (λ o. not (contains o.0 common_options) && not (contains o.0 names)) options) _ _
            tt (build-Ensures sub options rest)

      from :
          (positional : List Text) (options : Dict Text)
          → Ensures IsSent (dispatch process positional options)
      from [] options = tt
      from (sub ∷ rest) options = allowed sub options rest (subcommand_options sub)
