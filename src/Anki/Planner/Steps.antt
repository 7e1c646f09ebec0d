-- ===== src/Anki/Planner/Steps.antt =====
-- planner/planner.go: what processing one entry may do to the run, as a step relation.
pub mod Calls
use imoogi_emacs.Prelude.{
  ℕ, Text, ◌≡◌, refl, sym, ap, subst, Bool, true, false, if◌then◌else◌, Option, none, some, List,
  [], ◌∷◌, arith,
}
use imoogi_emacs.Prelude.Dict.{Dict}
use imoogi_emacs.Anki.Protocol.{Entry, Code}
use imoogi_emacs.Anki.Registry
use imoogi_emacs.Anki.Client.{
  Call, History, deck_names, create_deck, model_field_names, add_note, update_note_fields,
  update_note_tags, notes_info, change_deck, delete_notes, store_media_file, NoteInfo, Peer,
}
use imoogi_emacs.Anki.Planner.Fields.{resolve_deck}
use imoogi_emacs.Anki.Planner.Runner.{
  Env, infos_answer, Runner, Outcome, Ask, ask, Exec, Flow, next, halt, Reply, continue, ◌>>=◌,
  pure, lift, try, attempt, put_entry,
}

-- the requests since `h`
pub data Since (h : History) : History → Type 0 where
  now : Since h h
  later : {t : History} (call : Call) → Since h t → Since h (call ∷ t)

pub Since-trans : {h t u : History} → Since h t → Since t u → Since h u
Since-trans p now = p
Since-trans p (later call q) = later call (Since-trans p q)

-- in the history the add-on was asked about the note `id`, and gave these cards for it
pub record IsReported (env : Env) (h : History) (id : ℕ) (cards : List ℕ) : Type 0 where
  pub before : History
  pub info : NoteInfo
  pub others : List NoteInfo
  pub asked : Since (Call.notes_info (id ∷ []) ∷ before) h
  pub answer : infos_answer (id ∷ []) (env.peer.notes_info before (id ∷ [])) ≡ some (info ∷ others)
  pub same_cards : cards ≡ info.cards

abbrev pub deck_for : Env → Entry → Text
deck_for env e = resolve_deck e.deck env.default_deck

-- What an entry may ask for at a history. It writes and asks about its own note only, adds notes of
-- its type with its tags to its deck, makes no other deck, moves only cards that the add-on
-- reported for its note, to its deck, and deletes nothing. What it reads besides, and the media
-- files that it sends, are not restricted here.
abbrev pub Permits : Env → Entry → History → Call → Type 0
Permits env e h (create_deck deck) = deck ≡ deck_for env e
Permits env e h (add_note deck m fields tags) =
    (deck ≡ deck_for env e) × (m ≡ e.note_type) × (tags ≡ e.tags)
Permits env e h (update_note_fields n fields) = e.note_id ≡ some n
Permits env e h (update_note_tags n tags) = (e.note_id ≡ some n) × (tags ≡ e.tags)
Permits env e h (notes_info ns) = (n : ℕ) × (e.note_id ≡ some n) × (ns ≡ n ∷ [])
Permits env e h (change_deck cards deck) =
    (n : ℕ) × (e.note_id ≡ some n) × IsReported env h n cards × (deck ≡ deck_for env e)
Permits env e h (delete_notes ns) = ⊥
Permits env e h _ = Unit

-- a note is the entry's: it has the identifier of the entry, or the add-on gave its identifier to a note
-- that was added with the type and the tags of the entry to its deck
pub data IsOwn (env : Env) (e : Entry) (h : History) (id : ℕ) : Type 0 where
  claimed : e.note_id ≡ some id → IsOwn env e h id
  numbered :
      (fields : Dict Text) (deck : Text) (before : History)
      → deck ≡ deck_for env e
      → Since (Call.add_note deck e.note_type fields e.tags ∷ before) h
      → env.peer.add_note before deck e.note_type fields e.tags ≡ some id
      → IsOwn env e h id

pub data Step (env : Env) (e : Entry) (r r' : Runner) : Type 0 where
  asks :
      (call : Call)
      → Permits env e r.history call
      → r' ≡ record r { history = call ∷ r.history }
      → Step env e r r'
  caches : r'.history ≡ r.history → r'.reg ≡ r.reg → Step env e r r'
  records :
      (x : Registry.Entry)
      → x.note_type ≡ e.note_type
      → IsOwn env e r.history x.note_id
      → r' ≡ record r { reg = Registry.put r.reg x }
      → Step env e r r'

pub data Steps (env : Env) (e : Entry) (r : Runner) : Runner → Type 0 where
  here : Steps env e r r
  after : {s t : Runner} → Steps env e r s → Step env e s t → Steps env e r t

pub Steps-trans :
    {env : Env} {e : Entry} {r s t : Runner} → Steps env e r s → Steps env e s t → Steps env e r t
Steps-trans p here = p
Steps-trans p (after q st) = after (Steps-trans p q) st

Step-Since : {env : Env} {e : Entry} {r r' : Runner} → Step env e r r' → Since r.history r'.history
Step-Since {r = r} (asks call h p) =
    subst (Since r.history) (sym (ap (λ x. x.history) p)) (later call now)
Step-Since {r = r} (caches p q) = subst (Since r.history) (sym p) now
Step-Since {r = r} (records x h own p) = subst (Since r.history) (sym (ap (λ x. x.history) p)) now

pub Steps-Since :
    {env : Env} {e : Entry} {r r' : Runner} → Steps env e r r' → Since r.history r'.history
Steps-Since here = now
Steps-Since (after p st) = Since-trans (Steps-Since p) (Step-Since st)

-- what was reported stays so
pub IsReported-later :
    {env : Env} {h t : History} {id : ℕ} {cards : List ℕ}
    → IsReported env h id cards
    → Since h t
    → IsReported env t id cards
IsReported-later p q = record {
  before = p.before;
  info = p.info;
  others = p.others;
  asked = Since-trans p.asked q;
  answer = p.answer;
  same_cards = p.same_cards;
}

-- from any state, what `m` does is such steps
pub record Walks {A : Type 0} (env : Env) (e : Entry) (m : Runner → A × Runner) : Type 0 where
  pub at : (r : Runner) → Steps env e r (m r).1

-- the same, from the states at which the cards were reported
pub record WalksOnce {A : Type 0} (env : Env) (e : Entry) (id : ℕ) (cards : List ℕ)
    (m : Runner → A × Runner) : Type 0 where
  pub at : (r : Runner) → IsReported env r.history id cards → Steps env e r (m r).1

module _ {A : Type 0} (env : Env) (e : Entry) where
  pub Walks-ask :
      (code : Code) (answer : History → Option A) (call : Call)
      → ((h : History) → Permits env e h call)
      → Walks env e (ask code answer call)
  unfolding ask
  Walks-ask code answer call h = record { at = λ r. after here (asks call (h r.history) refl) }

  pub Walks-pure : (a : A) → Walks env e (pure a)
  unfolding pure
  Walks-pure a = record { at = λ r. here }

  pub Walks-lift : (f : Flow A) → Walks env e (lift f)
  unfolding lift
  Walks-lift f = record { at = λ r. here }

  pub Walks-try : (m : Ask A) → Walks env e m → Walks env e (try m)
  unfolding try
  Walks-try m w = record { at = w.at }

  pub Walks-attempt : (m : Ask A) (f : Code → Reply) → Walks env e m → Walks env e (attempt m f)
  unfolding attempt
  Walks-attempt m f w = record { at = w.at }

  pub Walks-if :
      (b : Bool) (m n : Runner → A × Runner)
      → Walks env e m
      → Walks env e n
      → Walks env e (if b then m else n)
  Walks-if true m n v w = v
  Walks-if false m n v w = w

pub Walks-put_entry :
    (env : Env) (e : Entry) (x : Registry.Entry)
    → x.note_type ≡ e.note_type
    → e.note_id ≡ some x.note_id
    → Walks env e (put_entry x)
unfolding put_entry
Walks-put_entry env e x h own = record { at = λ r. after here (records x h (claimed own) refl) }

module _ {A B : Type 0} (env : Env) (e : Entry) where
  Walks-continue :
      (f : A → Exec B)
      → ((a : A) → Walks env e (f a))
      → (fl : Flow A) {r s : Runner} → Steps env e r s
      → Steps env e r (continue fl f s).1
  Walks-continue f wf (next a) p = Steps-trans p ((wf a).at _)
  Walks-continue f wf (halt a) p = p

  pub Walks-bind :
      (m : Exec A) (f : A → Exec B)
      → Walks env e m
      → ((a : A) → Walks env e (f a))
      → Walks env e (m >>= f)
  unfolding ◌>>=◌
  Walks-bind m f wm wf = record { at = λ r. Walks-continue f wf (m r).0 (wm.at r) }

  module _ (id : ℕ) (cards : List ℕ) where
    WalksOnce-continue :
        (f : A → Exec B)
        → ((a : A) → WalksOnce env e id cards (f a))
        → (fl : Flow A) {r s : Runner} → IsReported env r.history id cards
        → Steps env e r s
        → Steps env e r (continue fl f s).1
    WalksOnce-continue f wf (next a) q p =
        Steps-trans p ((wf a).at _ (IsReported-later q (Steps-Since p)))
    WalksOnce-continue f wf (halt a) q p = p

    pub WalksOnce-bind :
        (m : Exec A) (f : A → Exec B)
        → WalksOnce env e id cards m
        → ((a : A) → WalksOnce env e id cards (f a))
        → WalksOnce env e id cards (m >>= f)
    unfolding ◌>>=◌
    WalksOnce-bind m f wm wf = record { at = λ r q. WalksOnce-continue f wf (m r).0 q (wm.at r q) }

module _ {A : Type 0} (env : Env) (e : Entry) (id : ℕ) (cards : List ℕ) where
  pub WalksOnce-Walks : (m : Runner → A × Runner) → Walks env e m → WalksOnce env e id cards m
  WalksOnce-Walks m w = record { at = λ r q. w.at r }

  pub WalksOnce-try : (m : Ask A) → WalksOnce env e id cards m → WalksOnce env e id cards (try m)
  unfolding try
  WalksOnce-try m w = record { at = w.at }

pub ruleset walk_rules = (
  Walks-ask, Walks-pure, Walks-lift, Walks-try, Walks-attempt, Walks-if, Walks-put_entry,
  Walks-bind,
)
