-- ===== src/Anki/Planner/Runner.antt =====
-- The runner of planner/planner.go: what a run keeps between entries, the requests it makes, and
-- early returns. A function that may return early is an `Exec`; one that returns a value and an
-- error is an `Ask`. What was done before a return stays done.
use imoogi_emacs.Prelude.{ℕ, Text, Bool, if◌then◌else◌, Option, none, some, List, [], ◌∷◌, map}
use imoogi_emacs.Prelude.Dict.{Dict}
use imoogi_emacs.Anki.Protocol.{Action, Code, Result, Error}
use imoogi_emacs.Anki.Registry
use imoogi_emacs.Anki.Registry.{Registry}
use imoogi_emacs.Anki.CardOptions.{CardOptions}
use imoogi_emacs.Anki.Client.{History, Call, Peer, NoteInfo, RawNoteInfo, read_infos}

-- media.Upload
pub record Upload : Type 0 where
  pub filename : Text
  pub path : Text

-- the errors of orgdoc.RenderWithOptions; `other` is an unrecognized note type
pub data RenderError : Type 0 where
  cloze_marker_missing multiline_answer_missing extra_block_unbalanced : RenderError
  swift_arrow_missing other : RenderError

pub data Rendered : Type 0 where
  rendered : Dict Text → Rendered
  refused : RenderError → Rendered

-- What the planner is given: the add-on it talks to, the renderer (orgdoc.RenderWithOptions), the
-- media pass (media.Rewrite, from the sync root and the entry's source path), the hash function,
-- expandTilde, which reads the home directory, and the two settings that the runner copies.
pub record Env : Type 0 where
  pub peer : Peer
  pub render : Text → Text → Text → CardOptions → Rendered
  pub rewrite : Text → Text → Dict Text → Option (Dict Text × List Upload)
  pub sha256_hex : Text → Text
  pub expand_tilde : Text → Text
  pub default_deck : Text
  pub sync_root : Text

-- the state of a run
pub record Runner : Type 0 where
  pub history : History
  pub reg : Registry
  pub uploaded : List Text
  pub decks_loaded : Bool
  pub known_decks : List Text
  pub model_fields : Dict (List Text)

pub data Outcome (A : Type 0) : Type 0 where
  ok : A → Outcome A
  err : Code → Outcome A

abbrev pub Ask : Type 0 → Type 0
Ask A = Runner → Outcome A × Runner

-- one request: the answer to it, and the history with it
unfoldable pub ask : {A : Type 0} → Code → (History → Option A) → Call → Ask A
ask code answer call r = (
  elim (answer r.history) [ none ↦ err code | some a ↦ ok a ],
  record r { history = call ∷ r.history },
)

abbrev when : Bool → Option (Unit {0})
when b = if b then some tt else none

-- a result and the diagnostics beside it, all for one entry
pub record Reply : Type 0 where
  pub result : Result
  pub errors : List Error

abbrev pub reply : Text → Action → Option ℕ → List Code → Reply
reply key action id codes = record {
  result = record { key = some key; action = action; note_id = id };
  errors = map (λ c. record { code = c; key = some key }) codes;
}

pub data Flow (A : Type 0) : Type 0 where
  next : A → Flow A
  halt : Reply → Flow A

abbrev pub Exec : Type 0 → Type 0
Exec A = Runner → Flow A × Runner

module _ {A B : Type 0} where
  abbrev pub continue : Flow A → (A → Exec B) → Exec B
  continue (next a) f r = f a r
  continue (halt reply) f r = (halt reply, r)

  infixl 10 ◌>>=◌ ◌>>◌
  unfoldable pub ◌>>=◌ : Exec A → (A → Exec B) → Exec B
  ◌>>=◌ m f r = let (a, r') = m r in continue a f r'

  abbrev pub ◌>>◌ : Exec A → Exec B → Exec B
  m >> n = m >>= λ _. n

module _ {A : Type 0} where
  unfoldable pub pure : A → Exec A
  pure a r = (next a, r)

  unfoldable pub lift : Flow A → Exec A
  lift f r = (f, r)

  -- go on with both results
  unfoldable pub try : Ask A → Exec (Outcome A)
  try m r = let (a, r') = m r in (next a, r')

  abbrev pub flow : (Code → Reply) → Outcome A → Flow A
  flow refuse (ok a) = next a
  flow refuse (err c) = halt (refuse c)

  -- return on an error
  unfoldable pub attempt : Ask A → (Code → Reply) → Exec A
  attempt m refuse r = let (a, r') = m r in (flow refuse a, r')

-- the reply of a function whose last value is one
abbrev pub settle : Flow Reply × Runner → Reply × Runner
settle (next a, r) = (a, r)
settle (halt a, r) = (a, r)

-- r.reg.Put(e)
unfoldable pub put_entry : Registry.Entry → Exec (Unit {0})
put_entry e r = (next tt, record r { reg = Registry.put r.reg e })

abbrev pub infos_answer : List ℕ → Option (List RawNoteInfo) → Option (List NoteInfo)
infos_answer ids none = none
infos_answer ids (some raw) = read_infos ids raw

module _ (env : Env) (code : Code) where
  open env use {peer}

  unfoldable pub deck_names : Ask (List Text)
  unfolding ask
  deck_names = ask code peer.deck_names Call.deck_names

  unfoldable pub create_deck : Text → Ask (Unit {0})
  unfolding ask
  create_deck deck = ask code (λ h. when (peer.create_deck h deck)) (Call.create_deck deck)

  unfoldable pub model_field_names : Text → Ask (List Text)
  unfolding ask
  model_field_names m = ask code (λ h. peer.model_field_names h m) (Call.model_field_names m)

  unfoldable pub add_note : Text → Text → Dict Text → List Text → Ask ℕ
  unfolding ask
  add_note deck m fields tags =
      ask code (λ h. peer.add_note h deck m fields tags) (Call.add_note deck m fields tags)

  unfoldable pub update_note_fields : ℕ → Dict Text → Ask (Unit {0})
  unfolding ask
  update_note_fields id fields =
      ask code (λ h. when (peer.update_note_fields h id fields)) (Call.update_note_fields id fields)

  unfoldable pub update_note_tags : ℕ → List Text → Ask (Unit {0})
  unfolding ask
  update_note_tags id tags =
      ask code (λ h. when (peer.update_note_tags h id tags)) (Call.update_note_tags id tags)

  unfoldable pub change_deck : List ℕ → Text → Ask (Unit {0})
  unfolding ask
  change_deck cards deck =
      ask code (λ h. when (peer.change_deck h cards deck)) (Call.change_deck cards deck)

  unfoldable pub delete_notes : List ℕ → Ask (Unit {0})
  unfolding ask
  delete_notes ids = ask code (λ h. when (peer.delete_notes h ids)) (Call.delete_notes ids)

  unfoldable pub store_media_file : Text → Text → Ask (Unit {0})
  unfolding ask
  store_media_file name path =
      ask code (λ h. when (peer.store_media_file h name path)) (Call.store_media_file name path)

  -- no identifiers, no request
  unfoldable pub notes_info : List ℕ → Ask (List NoteInfo)
  unfolding ask
  notes_info [] r = (ok [], r)
  notes_info (id ∷ ids) r =
      ask code (λ h. infos_answer (id ∷ ids) (peer.notes_info h (id ∷ ids)))
        (Call.notes_info (id ∷ ids)) r

  -- `infos[0]` of a query for one identifier; the answer to it has one element
  abbrev pub only : Outcome (List NoteInfo) → Outcome NoteInfo
  only (ok (info ∷ rest)) = ok info
  only (ok []) = err code
  only (err c) = err c

  unfoldable pub note_info : ℕ → Ask NoteInfo
  note_info id r = let (o, r') = notes_info (id ∷ []) r in (only o, r')
