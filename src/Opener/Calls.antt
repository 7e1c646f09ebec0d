-- ===== src/Opener/Calls.antt =====
-- internal/anki/opener/opener.go: what Open runs, and what its exit code says.
use imoogi_emacs.Prelude.{
  ℕ, ◌+◌, Text, Bool, true, false, ltb, Option, none, some, some_eq, List, [], ◌∷◌, All, ◌≡◌, ◌⊎◌,
  inl, inr, refl, sym, ap, ◌∙◌, arith, Bool-cases,
}
use imoogi_emacs.Prelude.Dict.{Dict}
use imoogi_emacs.Anki.Protocol.{valid_org_id}
use imoogi_emacs.Opener.{
  Url, parse_url, only, only_id, query_id, Event, ran, slept, Failure, bad_link, no_server, Ended,
  Deps, answers, probe, evaluate, launch, notify,
}
use imoogi_emacs.Opener.Normal.{IsNormal}

-- the steps besides the call of the receiver: sleeps, probes and launches of the client that was found,
-- and notifications
pub data IsQuiet (d : Deps) : Event → Type 0 where
  sleeping : (n : ℕ) → IsQuiet d (slept n)
  probing : (client : Text) → d.client ≡ some client → IsQuiet d (ran (probe d client))
  launching : (client : Text) → d.client ≡ some client → IsQuiet d (ran (launch d client))
  notifying : (f : Failure) → IsQuiet d (ran (notify d f))

abbrev pub Quiet : Deps → List Event → Type 0
Quiet d h = All (IsQuiet d) h

-- the wait that began with the launch is over, and the last probe was not answered
pub record IsLate (d : Deps) (client : Text) (h : List Event) : Type 0 where
  pub before_last : List Event
  pub last : h ≡ ran (probe d client) ∷ slept d.poll_interval ∷ before_last
  pub unanswered : answers d (d.run (slept d.poll_interval ∷ before_last) (probe d client)) ≡ false
  pub over :
      ltb (d.now h) (d.now (ran (launch d client) ∷ ran (probe d client) ∷ []) + d.launch_wait)
      ≡ false

-- why the receiver could not be called: there is no client, it could not be run, or no server
-- answered it and Emacs could not be launched or did not answer within the wait
pub data IsUnreached (d : Deps) (h : List Event) : Type 0 where
  absent : d.client ≡ none → IsUnreached d h
  unprobed :
      (client : Text)
      → d.client ≡ some client
      → ((d.run [] (probe d client)).timed_out ≡ true) ⊎ ((d.run [] (probe d client)).failed ≡ true)
      → IsUnreached d h
  unlaunched :
      (client : Text)
      → d.client ≡ some client
      → (d.run [] (probe d client)).zero_exit ≡ false
      → answers d (d.run (ran (probe d client) ∷ []) (launch d client)) ≡ false
      → IsUnreached d h
  unready :
      (client : Text) (h' : List Event)
      → d.client ≡ some client
      → (d.run [] (probe d client)).zero_exit ≡ false
      → h ≡ ran (notify d no_server) ∷ h'
      → IsLate d client h'
      → IsUnreached d h

-- 2 for a link that was refused, of which only a notification was shown; 0 when the receiver was called
-- with the identifier and gave a normal result, and then Emacs was activated; 1 when it gave another
-- result, or when it was not called because Emacs could not be reached
pub data IsOpening (d : Deps) (u : Option Url) (e : Ended) : Type 0 where
  refused : parse_url u ≡ none → e ≡ (2, ran (notify d bad_link) ∷ []) → IsOpening d u e
  opened :
      (client id : Text) (h : List Event)
      → d.client ≡ some client
      → parse_url u ≡ some id
      → valid_org_id id ≡ true
      → Quiet d h
      → IsNormal (d.run h (evaluate d client id))
      → e ≡ (0, ran (launch d client) ∷ ran (evaluate d client id) ∷ h)
      → IsOpening d u e
  failed :
      (client id : Text) (f : Failure) (h : List Event)
      → d.client ≡ some client
      → parse_url u ≡ some id
      → valid_org_id id ≡ true
      → Quiet d h
      → (IsNormal (d.run h (evaluate d client id)) → ⊥)
      → e ≡ (1, ran (notify d f) ∷ ran (evaluate d client id) ∷ h)
      → IsOpening d u e
  uncalled :
      (id : Text)
      → parse_url u ≡ some id
      → e.0 ≡ 1
      → Quiet d e.1
      → IsUnreached d e.1
      → IsOpening d u e

only-valid : (ids : List Text) (id : Text) → only ids ≡ some id → valid_org_id id ≡ true
only-valid [] id h = cc
only-valid (i ∷ []) id h = elim (Bool-cases (valid_org_id i)) [
  | inl v ↦ ap valid_org_id (sym (some_eq (sym (rw v refl) ∙ h))) ∙ v
  | inr v ↦ absurd (nothing (sym (rw v refl) ∙ h))
]
  where
    nothing : {a : Text} → none ≡ some a → ⊥
    nothing e = cc
only-valid (i ∷ j ∷ ids) id h = cc

only_id-valid : (q : Dict (List Text)) (id : Text) → only_id q ≡ some id → valid_org_id id ≡ true
only_id-valid [] id h = cc
only_id-valid ((k, ids) ∷ []) id h = ground (arith, only-valid ids id)
only_id-valid ((k, ids) ∷ (l, v) ∷ q) id h = cc

query_id-valid :
    (q : Option (Dict (List Text))) (id : Text) → query_id q ≡ some id → valid_org_id id ≡ true
query_id-valid none id h = cc
query_id-valid (some q) id h = only_id-valid q id h

-- what ParseURL accepts is an identifier of Org
pub parse_url-valid : (u : Option Url) (id : Text) → parse_url u ≡ some id → valid_org_id id ≡ true
unfolding parse_url
parse_url-valid none id h = cc
parse_url-valid (some u) id h = ground (arith, query_id-valid u.query id)

abbrev Ensures : {A : Type 0} → (A → Type 0) → Option A → Type 0
Ensures P none = Unit
Ensures P (some a) = P a

module _ (d : Deps) (u : Option Url) where
  module _ (client id : Text) (found : d.client ≡ some client) (link : parse_url u ≡ some id) where
    abbrev start : List Event
    start = ran (launch d client) ∷ ran (probe d client) ∷ []

    abbrev Waited : Bool × List Event → Type 0
    Waited x = Quiet d x.1 × (x.0 ≡ false → IsLate d client x.1)
