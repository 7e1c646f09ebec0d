-- ===== src/Clipboard/Publisher/Place.antt =====
-- internal/clipboard/publish.go: findExistingAsset and publishOne.
use imoogi_emacs.Prelude.{
  ℕ, zero, suc, ◌+◌, Text, equal, not, ◌&&◌, ◌||◌, ◌==◌, if◌then◌else◌, Option, none, some, List,
  [], ◌∷◌, ◌++◌, length, take,
}
use imoogi_emacs.Prelude.Dict.{lookup, insert}
use imoogi_emacs.Clipboard.Protocol.{Asset}
use imoogi_emacs.Clipboard.Publisher.{
  File, put, CacheEntry, Room, System, asset_index_filename, tick, sanitized_filename, numbered,
  record_asset, file_sha256, remove,
}
use imoogi_emacs.Clipboard.Publisher.Sources.{SourceFile}

-- what the search for an asset gives: an error, nothing, or a name
pub data Found : Type 0 where
  broken absent : Found
  existing : Text → Found

abbrev pub cached_hash : ℕ → File → Option CacheEntry → Option Text
cached_hash size f none = none
cached_hash size f (some e) = if e.size == size && e.mtime == f.mtime then some e.sha256 else none

-- an asset, with the name of the file that was made for it; none is an error
abbrev pub Placed : Type 0
Placed = Option (Asset × Option Text)

module _ (sys : System) where
  abbrev pub on_hash : Text → Text → ℕ → File → Option Text × Room → Option Text × Room
  on_hash name want size f (none, r) = (none, r)
  on_hash name want size f (some hash, r) = (
    some hash,
    record r {
      cache = insert name (record { size = size; mtime = f.mtime; sha256 = hash }) r.cache;
    },
  )

  abbrev pub from_cache : Text → Text → ℕ → File → Room → Option Text → Option Text × Room
  from_cache name want size f r (some hash) = (some hash, r)
  from_cache name want size f r none = on_hash name want size f (file_sha256 sys name r)

  -- the hash of a file, from the index if size and time are those it knows
  abbrev pub existing_hash : Text → Text → ℕ → File → Room → Option Text × Room
  existing_hash name want size f r =
      from_cache name want size f r (cached_hash size f (lookup name r.cache))

  -- the end of a round of the loop; next is what follows if this is not the asset
  abbrev pub on_known : Text → Text → (Room → Found × Room) → Option Text × Room → Found × Room
  on_known name want next (none, r) = (broken, r)
  on_known name want next (some hash, r) = if equal hash want then (existing name, r) else next r

  abbrev pub on_content :
      Text → Text → ℕ → File → (Room → Found × Room) → Option Text → Room → Found × Room
  on_content name want size f next none r = next r
  on_content name want size f next (some c) r =
      if not (length c == size)
      then next r
      else on_known name want next (existing_hash name want size f r)

  abbrev pub on_entry : Text → Text → ℕ → (Room → Found × Room) → Option File → Room → Found × Room
  on_entry name want size next none r = (broken, r)
  on_entry name want size next (some f) r = on_content name want size f next f.content r

  -- the loop of findExistingAsset; Info of an entry may fail
  unfoldable pub find_in : ℕ → Text → List Text → Room → Found × Room
  find_in size want [] r = (absent, r)
  find_in size want (name ∷ names) r =
      if equal name asset_index_filename
      then find_in size want names r
      else if sys.fails r.calls
      then (broken, tick r)
      else on_entry name want size (find_in size want names) (r.files name) (tick r)

  -- findExistingAsset
  unfoldable pub find_existing_asset : ℕ → Text → Room → Found × Room
  find_existing_asset size want r =
      if sys.fails r.calls
      then (broken, tick r)
      else find_in size want (sys.listed r.calls) (tick r)

  -- the file with the content that was written
  abbrev pub with_content : Text → Text → Room → Room
  with_content name c r = record (tick r) {
    files = put r.files name (record { content = some c; mtime = sys.clock r.calls });
  }

  module _ (root : Text) where
    abbrev pub asset_at : Text → Text → ℕ → Text → Asset
    asset_at id hash size name = record {
      id = id;
      path = root ++ b'/' ∷ name;
      relative_path = name;
      sha256 = hash;
      size = size;
    }

    abbrev pub with_id : Text → ℕ → Text → Room → Option Text → Placed × Room
    with_id hash size name r none = (none, tick r)
    with_id hash size name r (some id) = (some (asset_at id hash size name, none), tick r)

    -- an asset that stands there already, under a new identifier
    abbrev pub linked : Text → ℕ → Text → Room → Placed × Room
    linked hash size name r = with_id hash size name r (sys.random_hex r.calls)

    -- the file that was made is removed, whether or not that succeeds, and the error returned
    abbrev pub undo : Text → Room → Placed × Room
    undo name r = (none, (remove sys name r).1)

    abbrev pub with_new_id : Text → ℕ → Text → Room → Option Text → Placed × Room
    with_new_id hash size name r none = undo name r
    with_new_id hash size name r (some id) =
        (some (asset_at id hash size name, some name), record_asset sys name size hash r)

    -- an identifier for the file that was copied
    abbrev pub named : Text → ℕ → Text → Room → Placed × Room
    named hash size name r = with_new_id hash size name (tick r) (sys.random_hex r.calls)

    abbrev pub copied : SourceFile → Text → Text → Room → Option Text → Placed × Room
    copied source hash name r none = undo name (with_content name [] r)
    copied source hash name r (some c) =
        if sys.fails r.calls
        then undo name (with_content name (take sys.kept c) r)
        else if sys.fails (r.calls + 1) || not (length c == source.size)
        then undo name (tick (with_content name c r))
        else named hash source.size name (tick (with_content name c r))

    -- io.Copy and Close of the output, of which the first may leave a torn file
    unfoldable pub fill : SourceFile → Text → Text → Room → Placed × Room
    fill source hash name r = copied source hash name r (sys.source r.calls source.path)

    abbrev pub kept_with_id : Text → ℕ → Text → Room → Option Text → Placed × Room
    kept_with_id hash size name r none = (none, r)
    kept_with_id hash size name r (some id) =
        (some (asset_at id hash size name, none), record_asset sys name size hash r)

    -- a file that stands under the name; next is what follows if it is another one
    abbrev pub taken :
        SourceFile → Text → Text → (Room → Placed × Room) → Option Text × Room → Placed × Room
    taken source hash name next (none, r) = next r
    taken source hash name next (some h, r) =
        if equal h hash
        then kept_with_id hash source.size name (tick r) (sys.random_hex r.calls)
        else next r

    -- one round of the loop, on what stands under the name
    abbrev pub on_slot :
        SourceFile → Text → Text → (Room → Placed × Room) → Option File → Room → Placed × Room
    on_slot source hash name next (some f) r =
        taken source hash name next (file_sha256 sys name (tick r))
    on_slot source hash name next none r =
        if sys.fails r.calls then (none, tick r) else fill source hash name (with_content name [] r)

    -- the loop over the sequence numbers, with those that are left
    unfoldable pub allocate : SourceFile → Text → Text → ℕ → ℕ → Room → Placed × Room
    allocate source hash base zero sequence r = (none, r)
    allocate source hash base (suc left) sequence r =
        let name = numbered sys base sequence in
        on_slot source hash name (allocate source hash base left (sequence + 1)) (r.files name) r

    abbrev pub after_search : SourceFile → Text → Text → Found × Room → Placed × Room
    after_search source base hash (broken, r) = (none, r)
    after_search source base hash (existing name, r) = linked hash source.size name r
    after_search source base hash (absent, r) =
        allocate source hash (sanitized_filename base) 10000 0 r

    -- Open, the hash of the source and Seek
    abbrev pub hashed : SourceFile → Text → Option Text → Room → Placed × Room
    hashed source base none r = (none, tick r)
    hashed source base (some c) r =
        if sys.fails r.calls
        then (none, tick r)
        else after_search source base (sys.sha256_hex c)
            (find_existing_asset source.size (sys.sha256_hex c) (tick r))

    -- publishOne; base is filepath.Base of the path of the source
    unfoldable pub publish_one : (Text → Text) → SourceFile → Room → Placed × Room
    publish_one base source r = hashed source (base source.path) (sys.source r.calls source.path) r
