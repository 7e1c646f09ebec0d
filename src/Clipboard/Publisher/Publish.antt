-- ===== src/Clipboard/Publisher/Publish.antt =====
-- internal/clipboard/publish.go: Publish, loadAssetCache, saveAssetCache and compensate. CreatedFiles and
-- Orphans are names below the asset root.
use imoogi_emacs.Prelude.{
  ◌+◌, Text, Bool, true, false, ◌==◌, if◌then◌else◌, Option, none, some, List, [], ◌∷◌, ◌++◌, take,
}
use mathlib.Core.List.{reverse}
use imoogi_emacs.Prelude.Dict.{Dict}
use imoogi_emacs.Clipboard.Protocol.{Asset}
use imoogi_emacs.Clipboard.Publisher.{
  File, put, delete, CacheEntry, Room, System, asset_index_filename, tick, remove,
}
use imoogi_emacs.Clipboard.Publisher.Sources.{
  Limits, Stat, SourceFile, Refusal, Checked, refused, sources, preflight_sources,
}
use imoogi_emacs.Clipboard.Publisher.Place.{Placed, publish_one}

-- PublishResult
pub record PublishResult : Type 0 where
  pub assets : List Asset
  pub created_files : List Text
  pub orphans : List Text

abbrev pub empty_result : PublishResult
empty_result = record { assets = []; created_files = []; orphans = [] }

-- refused before anything was touched, an error otherwise, with a result if files are left over, or a
-- result
pub data Outcome : Type 0 where
  rejected : Refusal → Outcome
  failed : Outcome
  needs_reconciliation : PublishResult → Outcome
  published : PublishResult → Outcome

-- DefaultLimits
abbrev pub default_limits : Limits
default_limits = record { max_files = 32; max_file_bytes = 268435456; max_batch_bytes = 536870912 }

abbrev pub failure_of : PublishResult → List Text → Outcome
failure_of result [] = failed
failure_of result (o ∷ os) = needs_reconciliation (record result { orphans = o ∷ os })

abbrev pub created : Option Text → List Text
created none = []
created (some name) = name ∷ []

abbrev pub extended : PublishResult → Asset → Option Text → PublishResult
extended result asset name = record {
  assets = result.assets ++ asset ∷ [];
  created_files = result.created_files ++ created name;
  orphans = result.orphans;
}

-- os.Rename of the temporary file to the index, after which the deferred removal finds none
abbrev pub renamed : Text → File → Room → Room
renamed temporary f r = record (tick (tick r)) {
  files = put (delete r.files temporary) asset_index_filename f;
}

abbrev pub or_default : Limits → Limits
or_default limits = if limits.max_files == 0 then default_limits else limits

module _ (sys : System) where
  abbrev pub standing : Text → Room → Option File → Bool × Room
  standing name r none = (true, tick r)
  standing name r (some f) = remove sys name r

  -- one file of compensate; a file that is not there is none to remove
  abbrev pub withdraw : Text → Room → Bool × Room
  withdraw name r = standing name r (r.files name)

  unfoldable pub withdraw_each : List Text → Room → List Text × Room
  withdraw_each [] r = ([], r)
  withdraw_each (name ∷ names) r =
      let (gone, r') = withdraw name r in
      let (rest, r'') = withdraw_each names r' in (if gone then rest else name ∷ rest, r'')

  -- compensate: the last file first
  unfoldable pub compensate : List Text → Room → List Text × Room
  compensate names r = withdraw_each (reverse names) r

  -- the end of Publish on an error
  unfoldable pub abandon : PublishResult → Room → Outcome × Room
  abandon result r =
      let (orphans, r') = compensate result.created_files r in (failure_of result orphans, r')

  -- an index that is no JSON counts as an empty one
  abbrev pub decoded : Option Text → Option (Dict CacheEntry)
  decoded none = none
  decoded (some c) = elim (sys.decode c) [ none ↦ some [] | some cache ↦ some cache ]

  abbrev pub read_index : Room → Option File → Option (Dict CacheEntry)
  read_index r none = some []
  read_index r (some f) = if sys.fails r.calls then none else decoded f.content

  -- loadAssetCache; none is an error
  unfoldable pub load_asset_cache : Room → Option (Dict CacheEntry) × Room
  load_asset_cache r = (read_index r (r.files asset_index_filename), tick r)

  abbrev pub written : Text → Text → Room → Room
  written name c r = record (tick r) {
    files = put r.files name (record { content = some c; mtime = sys.clock r.calls });
  }

  -- an error, and the deferred removal of the temporary file
  abbrev pub cleared : Text → Room → Bool × Room
  cleared temporary r = (false, (remove sys temporary r).1)

  -- saveAssetCache after CreateTemp: Write, Close, Chmod and Rename
  unfoldable pub save_to : Text → Text → Room → Bool × Room
  save_to temporary json r =
      let r' = written temporary json r in
      if sys.fails r.calls
      then cleared temporary (written temporary (take sys.kept json) r)
      else if sys.fails (r.calls + 1)
      then cleared temporary (tick r')
      else if sys.fails (r.calls + 2)
      then cleared temporary (tick (tick r'))
      else if sys.fails (r.calls + 3)
      then cleared temporary (tick (tick (tick r')))
      else (
        true,
        renamed temporary (record { content = some json; mtime = sys.clock r.calls })
            (tick (tick r')),
      )

  abbrev pub save_with : Room → Option Text → Bool × Room
  save_with r none = (false, tick r)
  save_with r (some temporary) = save_to temporary (sys.encode r.cache) (written temporary [] r)

  -- saveAssetCache; the temporary file is made empty
  unfoldable pub save_asset_cache : Room → Bool × Room
  save_asset_cache r =
      if sys.fails r.calls then (false, tick r) else save_with r (sys.temporary r.files)

  abbrev pub conclude : PublishResult → Bool × Room → Outcome × Room
  conclude result (true, r) = (published result, r)
  conclude result (false, r) = abandon result r

  abbrev pub after_one :
      PublishResult → (PublishResult → Room → Outcome × Room) → Placed × Room → Outcome × Room
  after_one result next (none, r) = abandon result r
  after_one result next (some (asset, name), r) = next (extended result asset name) r

  -- the loop of Publish over the sources, and the index at the end; base is filepath.Base
  unfoldable pub publish_each :
      (Text → Text) → Text → List SourceFile → PublishResult → Room → Outcome × Room
  publish_each base root [] result r = conclude result (save_asset_cache r)
  publish_each base root (s ∷ ss) result r =
      after_one result (publish_each base root ss) (publish_one sys root base s r)

  abbrev pub with_cache :
      (Text → Text) → Text → List SourceFile → Option (Dict CacheEntry) × Room → Outcome × Room
  with_cache base root ss (none, r) = (failed, r)
  with_cache base root ss (some cache, r) =
      publish_each base root ss empty_result (record r { cache = cache })

  abbrev pub in_root : (Text → Text) → Option Text → List SourceFile → Room → Outcome × Room
  in_root base none ss r = (failed, r)
  in_root base (some root) ss r = with_cache base root ss (load_asset_cache r)

  abbrev pub after_preflight : (Text → Text) → Option Text → Room → Checked → Outcome × Room
  after_preflight base root r (refused e) = (rejected e, r)
  after_preflight base root r (sources ss) = in_root base root ss r

  -- Publish; root is the asset root once it is made, resolved and found within its owner, or none
  unfoldable pub publish :
      Limits → (Text → Stat) → (Text → Text) → Option Text → List Text → Room → Outcome × Room
  publish limits lstat base root paths r =
      after_preflight base root r (preflight_sources (or_default limits) lstat paths)
