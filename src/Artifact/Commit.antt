-- ===== src/Artifact/Commit.antt =====
-- internal/artifact/artifact.go and zip.go: ExtractTarGzipWithOptions and ExtractZip, which fill a
-- staging directory beside the destination and rename it into place.
pub mod Whole
use imoogi_emacs.Prelude.{
  ℕ, zero, suc, ◌+◌, Text, equal, Bool, true, false, if◌then◌else◌, Option, none, some, List, [],
  ◌∷◌,
}
use imoogi_emacs.Artifact.Paths.{
  Refusal, empty_path, not_directory, already_exists, io, Result, ok, refused, unverified,
  symlink_target,
}
use imoogi_emacs.Artifact.Headers.{Limits, Caps, with_default_limits, Progress}
use imoogi_emacs.Artifact.Staging.{Tree, empty_tree, Disk, Faults, Io}
use imoogi_emacs.Artifact.Extract.{
  Digest, verify_file, TarEntry, extract_entries, ZipEntry, extract_zip_entries,
}

-- what stands at the destination; unpacked is a staging directory that was renamed to it
pub data Destination : Type 0 where
  absent empty_dir occupied_dir link other : Destination
  unpacked : Tree → Destination

-- The destination, the staging directory if there is one, and how many system calls were made
pub record World : Type 0 where
  pub dest : Destination
  pub staged : Option Tree
  pub calls : ℕ

abbrev pub Run : Type 0 → Type 0
Run A = World → Result A × World

abbrev pub tick : World → World
tick w = record w { calls = w.calls + 1 }

-- the tests on what Lstat and ReadDir give of the destination, which may fail
abbrev pub usable : Faults → Destination → World → Result (Unit {0}) × World
usable faults absent w = (ok tt, w)
usable faults empty_dir w = if faults.fails w.calls then (refused io, tick w) else (ok tt, tick w)
usable faults occupied_dir w = (refused already_exists, w)
usable faults (unpacked t) w = (refused already_exists, w)
usable faults link w = (refused symlink_target, w)
usable faults other w = (refused not_directory, w)

module _ (faults : Faults) where
  -- validateDestination
  unfoldable pub validate_destination : Text → Run (Unit {0})
  validate_destination path w =
      if equal path []
      then (refused empty_path, w)
      else if faults.fails w.calls
      then (refused io, tick w)
      else usable faults w.dest (tick w)

  -- os.Rename of the staging directory, to a destination that is absent
  abbrev pub rename : Tree → World → Result (Unit {0}) × World
  rename t w =
      if faults.fails w.calls
      then (refused io, tick w)
      else (ok tt, record { dest = unpacked t; staged = none; calls = w.calls + 1 })

  -- the directory that was removed is made again if the rename failed
  abbrev pub restore : Result (Unit {0}) × World → Result (Unit {0}) × World
  restore (ok a, w) = (ok a, w)
  restore (refused e, w) =
      (refused e, if faults.fails w.calls then tick w else record (tick w) { dest = empty_dir })

  -- the end of commitStaging, for an empty directory
  abbrev pub replace_empty : Tree → World → Result (Unit {0}) × World
  replace_empty t w =
      if faults.fails w.calls
      then (refused io, tick w)
      else restore (rename t (record (tick w) { dest = absent }))

  abbrev pub commit_to : Destination → Tree → World → Result (Unit {0}) × World
  commit_to absent t w = rename t w
  commit_to empty_dir t w =
      if faults.fails w.calls then (refused io, tick w) else replace_empty t (tick w)
  commit_to occupied_dir t w = (refused already_exists, w)
  commit_to (unpacked u) t w = (refused already_exists, w)
  commit_to link t w = (refused symlink_target, w)
  commit_to other t w = (refused not_directory, w)

  -- commitStaging
  unfoldable pub commit_staging : Tree → Run (Unit {0})
  commit_staging t w =
      if faults.fails w.calls then (refused io, tick w) else commit_to w.dest t (tick w)

  -- the deferred os.RemoveAll of the staging directory, whose error is ignored
  unfoldable pub discard : World → World
  discard w = if faults.fails w.calls then tick w else record (tick w) { staged = none }

  abbrev pub deferred : {A : Type 0} → A → Result (Unit {0}) × World → Result A × World
  deferred a (ok u, w) = (ok a, w)
  deferred a (refused e, w) = (refused e, discard w)

  -- the staging directory as the loop left it is committed, if the loop succeeded
  unfoldable pub conclude : {A : Type 0} → Result A × Disk → World → Result A × World
  conclude (ok a, d) w =
      deferred a (commit_staging d.tree (record w { staged = some d.tree; calls = d.calls }))
  conclude (refused e, d) w =
      (refused e, discard (record w { staged = some d.tree; calls = d.calls }))

  -- os.MkdirTemp, then the loop
  unfoldable pub in_staging : {A : Type 0} → Io A → World → Result A × World
  in_staging fill w =
      if faults.fails w.calls
      then (refused io, tick w)
      else conclude (fill (record { tree = empty_tree; calls = w.calls + 1 })) w

  abbrev pub checked : {A : Type 0} → Io A → Result (Unit {0}) × World → Result A × World
  checked fill (ok u, w) = in_staging fill w
  checked fill (refused e, w) = (refused e, w)

  -- what the two functions share, after VerifyFile
  unfoldable pub extract_into : {A : Type 0} → Text → Io A → World → Result A × World
  extract_into path fill w = checked fill (validate_destination path w)

abbrev pub start : Progress
start = record { seen = []; bytes = 0 }

-- Opening the archive again after VerifyFile may fail; none is that failure.
abbrev pub opened : {E A : Type 0} → Option E → (E → Io A) → Io A
opened none fill d = (refused io, d)
opened (some es) fill d = fill es d

-- ExtractTarGzipWithOptions; verified is what VerifyFile read, entries what the archive gives when it
-- is opened again
unfoldable pub extract_tar_gzip :
    Faults
    → (Text → Text)
    → Bool
    → Limits
    → Digest
    → Text
    → Option Text
    → Option (List (Option TarEntry))
    → World
    → Result (ℕ × Progress) × World
extract_tar_gzip faults sha256_hex allow limits expected path verified entries w =
    if verify_file sha256_hex verified expected
    then extract_into faults path
        (opened entries
          (λ es. extract_entries allow (with_default_limits limits) faults es 0 start []))
        w
    else (refused unverified, w)

-- ExtractZip
unfoldable pub extract_zip :
    Faults
    → (Text → Text)
    → Limits
    → Digest
    → Text
    → Option Text
    → Option (List ZipEntry)
    → World
    → Result (ℕ × Progress) × World
extract_zip faults sha256_hex limits expected path verified entries w =
    if verify_file sha256_hex verified expected
    then extract_into faults path
        (opened entries (λ es. extract_zip_entries (with_default_limits limits) faults es 0 start))
        w
    else (refused unverified, w)
