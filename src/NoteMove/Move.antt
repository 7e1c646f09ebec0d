-- ===== src/NoteMove/Move.antt =====
-- internal/notemove/move.go: Move.
pub mod Commit
pub mod Kept
pub mod Complete
use mathlib.Core.Option
use imoogi_emacs.Prelude.{
  ℕ, ◌+◌, Text, text, equal, Bool, true, false, not, if◌then◌else◌, Option, none, some,
}
use imoogi_emacs.NoteMove.System.{Entries, empty, directory, file, symlink, special, Folder, System}
use imoogi_emacs.NoteMove.Manifest.{Tally, manifest, same_manifest}
use imoogi_emacs.NoteMove.Copy.{copy_tree}
use imoogi_emacs.NoteMove.Validate.{Paths, validate}

-- Request
pub record Request : Type 0 where
  pub operation : Text
  pub source : Text
  pub destination : Text

-- the codes of failure
pub data Code : Type 0 where
  invalid_request invalid_path source_read_failed staging_failed copy_failed source_changed : Code
  verification_failed destination_commit_failed source_commit_failed : Code

-- Response: a move with its paths, its files and bytes, and whether there is a warning
pub data Response : Type 0 where
  moved : Text → Text → ℕ → ℕ → Bool → Response
  failed : Code → Response

-- what stands at the source, at the destination, at the staging directory beside it, and at the marker
-- beside the source; and how many calls were made
pub record World : Type 0 where
  pub source : Option Folder
  pub dest : Option Folder
  pub staging : Option Folder
  pub tombstone : Option Folder
  pub calls : ℕ

-- The source as the first manifest, the copy and the second manifest read it: another process may have
-- written in between.
pub record Readings : Type 0 where
  pub before : Folder
  pub copied : Folder
  pub after : Folder

abbrev pub Ended : Type 0
Ended = Response × World

abbrev pub tick : World → World
tick w = record w { calls = w.calls + 1 }

-- an error, or a manifest other than the given one
abbrev pub agrees : Tally → Option Tally → Bool
agrees t none = false
agrees t (some u) = same_manifest t u

abbrev pub is_empty : Entries → Bool
is_empty empty = true
is_empty _ = false

-- os.Rename of the staging directory to the destination, which replaces an empty directory
abbrev pub renamed : Folder → World → World
renamed copy w = record (tick w) { dest = some copy; staging = none }

module _ (sys : System) where
  -- the deferred os.RemoveAll of the staging directory, whose error is ignored
  unfoldable pub discard : World → World
  discard w =
      if sys.fails w.calls
      then record (tick w) { staging = Option.map sys.left w.staging }
      else record (tick w) { staging = none }

  abbrev pub abandon : Code → World → Ended
  abandon code w = (failed code, discard w)

  -- os.RemoveAll of the destination, whose error is ignored, and the failure
  unfoldable pub withdraw : World → Ended
  withdraw w = (
    failed source_commit_failed,
    if sys.fails w.calls
        then record (tick w) { dest = Option.map sys.left w.dest }
        else record (tick w) { dest = none },
  )

  -- os.RemoveAll of the marker; its error is a warning
  unfoldable pub clean_up : Text → Text → Tally → World → Ended
  clean_up source destination t w =
      if sys.fails w.calls
      then (
        moved source destination t.files t.bytes true,
        record (tick w) { tombstone = Option.map sys.left w.tombstone },
      )
      else (moved source destination t.files t.bytes false, record (tick w) { tombstone = none })

  -- os.Rename of the source to the marker
  unfoldable pub retire : Text → Text → Tally → World → Ended
  retire source destination t w =
      if sys.fails w.calls
      then withdraw (tick w)
      else clean_up source destination t (record (tick w) { source = none; tombstone = w.source })

  -- os.Lstat of the marker
  unfoldable pub mark : Text → Text → Tally → World → Ended
  mark source destination t w = if sys.fails w.calls then withdraw (tick w) else elim w.tombstone [
    | some f ↦ withdraw (tick w)
    | none ↦ retire source destination t (tick w)
  ]

  unfoldable pub commit : Text → Text → Tally → Folder → World → Ended
  commit source destination t copy w =
      if sys.fails w.calls then abandon destination_commit_failed (tick w) else elim w.dest [
        | none ↦ mark source destination t (renamed copy w)
        | some f ↦
            if is_empty f.entries
            then mark source destination t (renamed copy w)
            else abandon destination_commit_failed (tick w)
      ]

  -- the manifest of the staging directory against the first one
  abbrev pub on_verified : Text → Text → Tally → Folder → World → Option Tally × ℕ → Ended
  on_verified source destination t copy w (o, n) =
      if agrees t o
      then commit source destination t copy (record w { calls = n })
      else abandon verification_failed (record w { calls = n })

  -- the second manifest of the source against the first one
  abbrev pub on_recheck : Text → Text → Tally → Folder → World → Option Tally × ℕ → Ended
  on_recheck source destination t copy w (o, n) =
      if agrees t o
      then on_verified source destination t copy w (manifest sys copy.entries n)
      else abandon source_changed (record w { calls = n })

  abbrev pub on_copied : Text → Text → Tally → Folder → World → Bool × Folder × ℕ → Ended
  on_copied source destination t after w (done, copy, n) =
      let w' : World = record w { staging = some copy; calls = n } in
      if done
      then on_recheck source destination t copy w' (manifest sys after.entries n)
      else abandon copy_failed w'

  -- os.MkdirTemp, and what follows the first manifest
  unfoldable pub stage : Text → Text → Readings → Tally → World → Ended
  stage source destination seen t w =
      if sys.fails w.calls
      then (failed staging_failed, tick w)
      else on_copied source destination t seen.after w (copy_tree sys seen.copied (w.calls + 1))

  abbrev pub on_manifest : Text → Text → Readings → World → Option Tally × ℕ → Ended
  on_manifest source destination seen w (none, n) =
      (failed source_read_failed, record w { calls = n })
  on_manifest source destination seen w (some t, n) =
      stage source destination seen t (record w { calls = n })

  abbrev pub on_paths : Readings → World → Option (Text × Text) → Ended
  on_paths seen w none = (failed invalid_path, w)
  on_paths seen w (some (source, destination)) =
      on_manifest source destination seen w (manifest sys seen.before.entries w.calls)

  -- Move
  unfoldable pub move : Paths → Readings → Request → World → Ended
  move paths seen request w =
      if not (equal request.operation (text "move"))
      then (failed invalid_request, w)
      else on_paths seen w (validate paths request.source request.destination)
