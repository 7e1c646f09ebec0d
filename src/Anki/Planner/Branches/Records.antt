-- ===== src/Anki/Planner/Branches/Records.antt =====
-- planner/planner.go: the records that addNewNote, reconcile and updateNote leave.
use imoogi_emacs.Prelude.{
  ℕ, Text, equal, not, Bool, true, false, ◌||◌, Bool-cases, ==_refl, if◌then◌else◌, Option, none,
  some, List, [], ◌≡◌, refl, inl, inr,
}
use imoogi_emacs.Anki.Protocol.{Action, Code, added, updated}
use imoogi_emacs.Anki.Registry
use imoogi_emacs.Anki.Registry.{lookup, put, Registry}
use imoogi_emacs.Anki.Registry.Laws.{lookup-put}
use imoogi_emacs.Anki.Client.{NoteInfo}
use imoogi_emacs.Anki.Planner.Runner.{
  Env, Runner, Outcome, ok, err, Ask, Reply, reply, Flow, flow, next, halt, Exec, continue, ◌>>=◌,
  attempt, try, pure, put_entry,
}
use imoogi_emacs.Anki.Planner.Branches.{
  Job, add_new_note, write_note, adopt, adopt_or_add, reconcile, move_cards, move_deck, update_note,
}

-- the record says what was sent
abbrev pub Says : Text → Text → Option Registry.Entry → Type 0
Says note_type hash none = ⊥
Says note_type hash (some x) = (x.note_type ≡ note_type) × (x.content_hash ≡ hash)

abbrev pub SaysAt : Text → Text → Registry → Option ℕ → Type 0
SaysAt note_type hash reg none = ⊥
SaysAt note_type hash reg (some id) = Says note_type hash (lookup reg id)

-- an early return writes no result of a written note
abbrev pub Refuses : Action → Type 0
Refuses added = ⊥
Refuses updated = ⊥
Refuses _ = Unit

abbrev pub Recorded : Text → Text → Flow Reply × Runner → Type 0
Recorded note_type hash (halt p, r) = Refuses p.result.action
Recorded note_type hash (next p, r) = SaysAt note_type hash r.reg p.result.note_id

-- `m` ends so from every state
pub record Ends (note_type hash : Text) (m : Exec Reply) : Type 0 where
  pub at : (r : Runner) → Recorded note_type hash (m r)

abbrev Early : {A : Type 0} → Flow A → Type 0
Early (next a) = Unit
Early (halt p) = Refuses p.result.action

-- where `m` returns early, no written note is reported
pub record IsEarly {A : Type 0} (m : Exec A) : Type 0 where
  pub at : (r : Runner) → Early (m r).0

module _ {A : Type 0} where
  flow-Early :
      (refuse : Code → Reply) (o : Outcome A)
      → ((c : Code) → Refuses (refuse c).result.action)
      → Early (flow refuse o)
  flow-Early refuse (ok a) early = tt
  flow-Early refuse (err c) early = early c

  pub attempt-IsEarly :
      (m : Ask A) (refuse : Code → Reply)
      → ((c : Code) → Refuses (refuse c).result.action)
      → IsEarly (attempt m refuse)
  unfolding attempt
  attempt-IsEarly m refuse early = record { at = λ r. flow-Early refuse (m r).0 early }

  pub try-IsEarly : (m : Ask A) → IsEarly (try m)
  unfolding try
  try-IsEarly m = record { at = λ r. tt }

  pub pure-IsEarly : (a : A) → IsEarly (pure a)
  unfolding pure
  pure-IsEarly a = record { at = λ r. tt }

  pub if-IsEarly : (b : Bool) (m n : Exec A) → IsEarly m → IsEarly n → IsEarly (if b then m else n)
  if-IsEarly true m n em en = em
  if-IsEarly false m n em en = en

module _ {A B : Type 0} where
  continue-Early :
      (f : A → Exec B)
      → ((a : A) → IsEarly (f a))
      → (o : Flow A) (r : Runner) → Early o
      → Early (continue o f r).0
  continue-Early f k (next a) r early = (k a).at r
  continue-Early f k (halt p) r early = early

  pub bind-IsEarly :
      (m : Exec A) (f : A → Exec B) → IsEarly m → ((a : A) → IsEarly (f a)) → IsEarly (m >>= f)
  unfolding ◌>>=◌
  bind-IsEarly m f e k = record { at = λ r. continue-Early f k (m r).0 (m r).1 (e.at r) }

module _ {A : Type 0} {t h : Text} where
  continue-Recorded :
      (f : A → Exec Reply)
      → ((a : A) → Ends t h (f a))
      → (o : Flow A) (r : Runner) → Early o
      → Recorded t h (continue o f r)
  continue-Recorded f k (next a) r early = (k a).at r
  continue-Recorded f k (halt p) r early = early

  pub bind-Ends :
      (m : Exec A) (f : A → Exec Reply)
      → IsEarly m
      → ((a : A) → Ends t h (f a))
      → Ends t h (m >>= f)
  unfolding ◌>>=◌
  bind-Ends m f e k = record { at = λ r. continue-Recorded f k (m r).0 (m r).1 (e.at r) }

-- recording a note and reporting its identifier
pub put-Ends :
    (id : ℕ) (path t deck h key : Text) (a : Action) (codes : List Code)
    → Ends t h (
        put_entry (record {
          note_id = id;
          source_path = path;
          note_type = t;
          resolved_deck = deck;
          content_hash = h;
        })
        >>= λ _. pure (reply key a (some id) codes))
unfolding put_entry pure ◌>>=◌
put-Ends id path t deck h key a codes = record { at = λ r. rw lookup-put (rw ==_refl (refl, refl)) }

pub ruleset end_rules =
    (attempt-IsEarly, try-IsEarly, pure-IsEarly, bind-IsEarly, bind-Ends, put-Ends)

module _ (env : Env) (job : Job) where
  open job use {entry, content_hash}

  pub add_new_note-Ends : Ends entry.note_type content_hash (add_new_note env job)
  unfolding add_new_note
  add_new_note-Ends = bind-Ends _ _ (attempt-IsEarly _ _ (λ c. tt)) λ _.
      bind-Ends _ _ (attempt-IsEarly _ _ (λ c. tt)) λ _.
        bind-Ends _ _ (attempt-IsEarly _ _ (λ c. tt)) λ id.
          put-Ends id entry.source_path entry.note_type job.resolved_deck content_hash entry.key
            added []

  module _ (id : ℕ) where
    write_note-IsEarly : IsEarly (write_note env job id)
    unfolding write_note
    write_note-IsEarly = search (end_rules) depth 9

    adopt-Ends : (info : NoteInfo) → Ends entry.note_type content_hash (adopt env job id info)
    unfolding adopt
    adopt-Ends info = search (end_rules, write_note-IsEarly) depth 9

    adopt_or_add-Ends :
        (o : Outcome NoteInfo) → Ends entry.note_type content_hash (adopt_or_add env job id o)
    unfolding adopt_or_add
    adopt_or_add-Ends (err c) = add_new_note-Ends
    adopt_or_add-Ends (ok info) =
        elim (Bool-cases (not info.exists || not (equal info.model_name entry.note_type))) [
          | inl fresh ↦ rw fresh add_new_note-Ends
          | inr known ↦ rw known (adopt-Ends info)
        ]

    pub reconcile-Ends : Ends entry.note_type content_hash (reconcile env job id)
    unfolding reconcile
    reconcile-Ends = search (end_rules, adopt_or_add-Ends)

    move_cards-IsEarly :
        (prior : Text) (o : Outcome NoteInfo) → IsEarly (move_cards env job prior o)
    unfolding move_cards
    move_cards-IsEarly prior (err c) = pure-IsEarly _
    move_cards-IsEarly prior (ok info) = search end_rules

    move_deck-IsEarly : (prior : Text) → IsEarly (move_deck env job id prior)
    unfolding move_deck
    move_deck-IsEarly prior = search (end_rules, if-IsEarly, move_cards-IsEarly)

    pub update_note-Ends :
        (prior : Registry.Entry) → Ends entry.note_type content_hash (update_note env job id prior)
    unfolding update_note
    update_note-Ends prior = bind-Ends _ _ write_note-IsEarly λ _.
        bind-Ends _ _ (move_deck-IsEarly prior.resolved_deck) λ move.
          put-Ends id prior.source_path entry.note_type move.0 content_hash entry.key updated move.1
