-- ===== src/Anki/Registry.antt =====
-- internal/anki/registry/registry.go: the entries of one sync root, keyed by note identifier. The
-- Go map is a list of entries; identifiers are only compared, so they are natural numbers.
pub mod Laws
pub mod File
use imoogi_emacs.Prelude.{
  ℕ, Text, Bool, Option, none, some, List, [], ◌∷◌, leb, ◌==◌, if◌then◌else◌,
}
use imoogi_emacs.Prelude.Sort.{sort}

pub record Entry : Type 0 where
  pub note_id : ℕ
  pub source_path : Text
  pub note_type : Text
  pub resolved_deck : Text
  pub content_hash : Text

abbrev pub Registry : Type 0
Registry = List Entry

-- Lookup
unfoldable pub lookup : Registry → ℕ → Option Entry
lookup [] n = none
lookup (e ∷ r) n = if e.note_id == n then some e else lookup r n

-- Put
unfoldable pub put : Registry → Entry → Registry
put [] e = e ∷ []
put (x ∷ r) e = if x.note_id == e.note_id then e ∷ r else x ∷ put r e

-- Remove
unfoldable pub remove : Registry → ℕ → Registry
remove [] n = []
remove (x ∷ r) n = let rest = remove r n in if x.note_id == n then rest else x ∷ rest

abbrev pub by_id : Entry → Entry → Bool
by_id a b = leb a.note_id b.note_id

-- All, sorted by identifier
unfoldable pub all : Registry → List Entry
unfolding sort
all = sort by_id

-- the map that Load builds from the decoded array
unfoldable pub load_onto : Registry → List Entry → Registry
load_onto r [] = r
load_onto r (e ∷ es) = load_onto (put r e) es

abbrev pub load : List Entry → Registry
load = load_onto []
