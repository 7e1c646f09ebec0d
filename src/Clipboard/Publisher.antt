-- ===== src/Clipboard/Publisher.antt =====
-- internal/clipboard/publish.go: the asset root that the publisher writes to, its index, and the names it
-- gives. System calls are numbered and may fail.
pub mod Sources
pub mod Place
pub mod Publish
pub mod Bounded
pub mod Search
pub mod Placing
pub mod Saving
pub mod Kept
mod Tests
use imoogi_emacs.Prelude.{
  ℕ, ◌+◌, Text, text, equal, trim_space, Bool, true, false, not, ◌&&◌, ◌||◌, ◌==◌, ltb,
  if◌then◌else◌, Option, none, some, List, [], ◌∷◌, ◌++◌, map, any, length,
}
use imoogi_emacs.Prelude.Dict.{Dict, insert}

-- a file of the asset root: its content if it is a regular one, and the time of its last change
pub record File : Type 0 where
  pub content : Option Text
  pub mtime : ℕ

-- what stands under each name of the asset root
abbrev pub Files : Type 0
Files = Text → Option File

abbrev pub put : Files → Text → File → Files
put t p f q = if equal p q then some f else t q

abbrev pub delete : Files → Text → Files
delete t p q = if equal p q then none else t q

-- assetCacheEntry
pub record CacheEntry : Type 0 where
  pub size : ℕ
  pub mtime : ℕ
  pub sha256 : Text

-- the asset root, the index in memory, and how many calls were made
pub record Room : Type 0 where
  pub files : Files
  pub cache : Dict CacheEntry
  pub calls : ℕ

-- The calls that fail; the bytes that a write that fails leaves; the clock; the names that ReadDir gives;
-- what reading a source gives; randomHex; the name that CreateTemp chooses, if it can; the JSON of the index; the digits of
-- a number; and SHA-256.
pub record System : Type 0 where
  pub fails : ℕ → Bool
  pub kept : ℕ
  pub clock : ℕ → ℕ
  pub listed : ℕ → List Text
  pub source : ℕ → Text → Option Text
  pub random_hex : ℕ → Option Text
  pub temporary : Files → Option Text
  pub encode : Dict CacheEntry → Text
  pub decode : Text → Option (Dict CacheEntry)
  pub digits : ℕ → Text
  pub sha256_hex : Text → Text

-- assetIndexFilename
abbrev pub asset_index_filename : Text
asset_index_filename = text ".imoogi-asset-index.json"

abbrev pub tick : Room → Room
tick r = record r { calls = r.calls + 1 }

abbrev pub bad_byte : ℕ → Bool
bad_byte c = c == b'/' || c == 92 || ltb c 32

-- sanitizedFilename
unfoldable pub sanitized_filename : Text → Text
sanitized_filename name =
    let safe = map (λ c. if bad_byte c then b'-' else c) (trim_space name) in
    if equal safe [] || equal safe (text ".") || equal safe (text "..") then text "asset" else safe

-- filepath.Ext of a name without slashes: the last dot and what follows
unfoldable pub ext : Text → Text
ext [] = []
ext (c ∷ s) = let rest = ext s in if c == b'.' && not (any (λ d. d == b'.') s) then c ∷ s else rest

-- strings.TrimSuffix of that
unfoldable pub stem : Text → Text
stem [] = []
stem (c ∷ s) =
    let rest = stem s in if c == b'.' && not (any (λ d. d == b'.') s) then [] else c ∷ rest

abbrev pub numbered : System → Text → ℕ → Text
numbered sys base sequence =
    if sequence == 0 then base else stem base ++ b'-' ∷ (sys.digits sequence ++ ext base)

abbrev pub recorded : Text → ℕ → Text → Room → Option File → Room
recorded name size hash r none = r
recorded name size hash r (some f) = record r {
  cache = insert name (record { size = size; mtime = f.mtime; sha256 = hash }) r.cache;
}

-- assetCache.record, where Stat may fail
unfoldable pub record_asset : System → Text → ℕ → Text → Room → Room
record_asset sys name size hash r =
    if sys.fails r.calls then tick r else recorded name size hash (tick r) (r.files name)

abbrev pub content_of : Option File → Option Text
content_of none = none
content_of (some f) = f.content

abbrev pub hash_of : System → Option Text → Option Text
hash_of sys none = none
hash_of sys (some c) = some (sys.sha256_hex c)

-- fileSHA256; none is an error
unfoldable pub file_sha256 : System → Text → Room → Option Text × Room
file_sha256 sys name r =
    if sys.fails r.calls then (none, tick r) else (hash_of sys (content_of (r.files name)), tick r)

-- os.Remove, whether it succeeded
unfoldable pub remove : System → Text → Room → Bool × Room
remove sys name r =
    if sys.fails r.calls
    then (false, tick r)
    else (true, record (tick r) { files = delete r.files name })
