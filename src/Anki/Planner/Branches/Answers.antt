-- ===== src/Anki/Planner/Branches/Answers.antt =====
-- planner/planner.go: the keys of what addNewNote, reconcile and updateNote return.
use imoogi_emacs.Prelude.{
  ℕ, Text, Bool, true, false, if◌then◌else◌, Option, some, List, [], ◌∷◌, map, ◌≡◌, refl, All,
}
use imoogi_emacs.Anki.Protocol.{Error, Code, Action}
use imoogi_emacs.Anki.Registry
use imoogi_emacs.Anki.Registry.{lookup}
use imoogi_emacs.Anki.Client.{NoteInfo}
use imoogi_emacs.Anki.Planner.Runner.{
  Env, Runner, Outcome, ok, err, Ask, Reply, reply, Flow, flow, next, halt, Exec, continue, pure,
  try, attempt, put_entry, ◌>>=◌,
}
use imoogi_emacs.Anki.Planner.Branches.{
  Job, add_new_note, write_note, adopt, adopt_or_add, reconcile, move_cards, move_deck, update_note,
}

-- the result and every diagnostic bear the key
abbrev pub Labelled : Text → Reply → Type 0
Labelled key p = (p.result.key ≡ some key) × All {A = Error} (λ x. x.key ≡ some key) p.errors

All-label :
    (key : Text) (codes : List Code)
    → All {A = Error} (λ x. x.key ≡ some key) (map (λ c. record { code = c; key = some key }) codes)
All-label key [] = tt
All-label key (c ∷ codes) = (refl, All-label key codes)

pub reply-Labelled :
    (key : Text) (a : Action) (id : Option ℕ) (codes : List Code)
    → Labelled key (reply key a id codes)
reply-Labelled key a id codes = (refl, All-label key codes)

abbrev pub Halted : {A : Type 0} → Text → Flow A → Type 0
Halted key (next a) = Unit
Halted key (halt p) = Labelled key p

abbrev pub Answered : Text → Flow Reply → Type 0
Answered key (next p) = Labelled key p
Answered key (halt p) = Labelled key p

-- early returns bear the key
pub record Halts {A : Type 0} (key : Text) (m : Exec A) : Type 0 where
  pub at : (r : Runner) → Halted key (m r).0

pub record Answers (key : Text) (m : Exec Reply) : Type 0 where
  pub at : (r : Runner) → Answered key (m r).0

module _ {A : Type 0} (key : Text) where
  flow-Halted :
      (refuse : Code → Reply) (o : Outcome A)
      → ((c : Code) → Labelled key (refuse c))
      → Halted key (flow refuse o)
  flow-Halted refuse (ok a) l = tt
  flow-Halted refuse (err c) l = l c

  pub attempt-Halts :
      (m : Ask A) (a : Action) (id : Option ℕ)
      → Halts key (attempt m (λ c. reply key a id (c ∷ [])))
  unfolding attempt
  attempt-Halts m a id = record {
    at = λ r. flow-Halted _ (m r).0 (λ c. reply-Labelled key a id (c ∷ []));
  }

  try-Halts : (m : Ask A) → Halts key (try m)
  unfolding try
  try-Halts m = record { at = λ r. tt }

  pure-Halts : (a : A) → Halts key (pure a)
  unfolding pure
  pure-Halts a = record { at = λ r. tt }

  if-Halts : (b : Bool) (m n : Exec A) → Halts key m → Halts key n → Halts key (if b then m else n)
  if-Halts true m n v w = v
  if-Halts false m n v w = w

module _ {A B : Type 0} (key : Text) where
  continue-Halted :
      (f : A → Exec B)
      → ((a : A) → Halts key (f a))
      → (o : Flow A) (r : Runner) → Halted key o
      → Halted key (continue o f r).0
  continue-Halted f k (next a) r l = (k a).at r
  continue-Halted f k (halt p) r l = l

  pub bind-Halts :
      (m : Exec A) (f : A → Exec B)
      → Halts key m
      → ((a : A) → Halts key (f a))
      → Halts key (m >>= f)
  unfolding ◌>>=◌
  bind-Halts m f v k = record { at = λ r. continue-Halted f k (m r).0 (m r).1 (v.at r) }

module _ {A : Type 0} (key : Text) where
  continue-Answered :
      (f : A → Exec Reply)
      → ((a : A) → Answers key (f a))
      → (o : Flow A) (r : Runner) → Halted key o
      → Answered key (continue o f r).0
  continue-Answered f k (next a) r l = (k a).at r
  continue-Answered f k (halt p) r l = l

  pub bind-Answers :
      (m : Exec A) (f : A → Exec Reply)
      → Halts key m
      → ((a : A) → Answers key (f a))
      → Answers key (m >>= f)
  unfolding ◌>>=◌
  bind-Answers m f v k = record { at = λ r. continue-Answered f k (m r).0 (m r).1 (v.at r) }

put_entry-Halts : (key : Text) (x : Registry.Entry) → Halts key (put_entry x)
unfolding put_entry
put_entry-Halts key x = record { at = λ r. tt }

pub reply-Answers :
    (key : Text) (a : Action) (id : Option ℕ) (codes : List Code)
    → Answers key (pure (reply key a id codes))
unfolding pure
reply-Answers key a id codes = record { at = λ r. reply-Labelled key a id codes }

pub if-Answers :
    (key : Text) (b : Bool) (m n : Exec Reply)
    → Answers key m
    → Answers key n
    → Answers key (if b then m else n)
if-Answers key true m n v w = v
if-Answers key false m n v w = w

ruleset answer_rules = (
  attempt-Halts, try-Halts, pure-Halts, bind-Halts, if-Halts, put_entry-Halts, bind-Answers,
  reply-Answers, if-Answers,
)

module _ (env : Env) (job : Job) where
  open job use {entry}

  pub add_new_note-Answers : Answers entry.key (add_new_note env job)
  unfolding add_new_note
  add_new_note-Answers = search answer_rules depth 12

  write_note-Halts : (id : ℕ) → Halts entry.key (write_note env job id)
  unfolding write_note
  write_note-Halts id = search answer_rules depth 12

  module _ (id : ℕ) where
    adopt-Answers : (info : NoteInfo) → Answers entry.key (adopt env job id info)
    unfolding adopt
    adopt-Answers info = search (answer_rules, write_note-Halts) depth 12

    adopt_or_add-Answers : (o : Outcome NoteInfo) → Answers entry.key (adopt_or_add env job id o)
    unfolding adopt_or_add
    adopt_or_add-Answers (err c) = add_new_note-Answers
    adopt_or_add-Answers (ok info) =
        if-Answers entry.key _ _ _ add_new_note-Answers (adopt-Answers info)

    pub reconcile-Answers : Answers entry.key (reconcile env job id)
    unfolding reconcile
    reconcile-Answers = search (answer_rules, adopt_or_add-Answers)

    move_cards-Halts :
        (prior : Text) (o : Outcome NoteInfo) → Halts entry.key (move_cards env job prior o)
    unfolding move_cards
    move_cards-Halts prior (err c) = pure-Halts entry.key _
    move_cards-Halts prior (ok info) = search answer_rules

    move_deck-Halts : (prior : Text) → Halts entry.key (move_deck env job id prior)
    unfolding move_deck
    move_deck-Halts prior = search (answer_rules, move_cards-Halts)

    pub update_note-Answers :
        (prior : Registry.Entry) → Answers entry.key (update_note env job id prior)
    unfolding update_note
    update_note-Answers prior = search (answer_rules, write_note-Halts, move_deck-Halts) depth 12
