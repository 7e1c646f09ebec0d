-- ===== src/Clipboard/Disk.antt =====
-- The file system as the transactions use it: what removing a file, writing a manifest, reading a
-- file and reading the clock give may depend on all that was done before.
pub mod Cleans
use imoogi_emacs.Prelude.{ℕ, Text, Bool, true, false, if◌then◌else◌, Option, List, [], ◌∷◌}
use mathlib.Core.List.{reverse}
use imoogi_emacs.Prelude.Dict.{Dict, insert}
use imoogi_emacs.Clipboard.Protocol.{Manifest}

-- an attempt to remove a file, which was or is now absent if it succeeded; a manifest written; and
-- the publishing of some files below a directory
pub data Event : Type 0 where
  removal : Text → Bool → Event
  written : Text → Event
  publishing : List Text → Text → Event

pub record Disk : Type 0 where
  pub remove : List Event → Text → Bool
  pub store : List Event → Text → Bool
  pub read : List Event → Text → Option Text
  pub now : List Event → ℕ

-- the manifests by the directory of their transaction, and what was done, the latest first
pub record World : Type 0 where
  pub manifests : Dict Manifest
  pub log : List Event

remove_each : Disk → List Text → World → List Text × World
remove_each disk [] w = ([], w)
remove_each disk (p ∷ ps) w =
    let done = disk.remove w.log p in
    let (rest, w') = remove_each disk ps (record w { log = removal p done ∷ w.log }) in
    (if done then rest else p ∷ rest, w')

-- compensate: the paths that could not be removed, tried from the last to the first
unfoldable pub compensate : Disk → List Text → World → List Text × World
unfolding remove_each
compensate disk paths = remove_each disk (reverse paths)

-- writeJSONAtomic of a manifest: it is replaced as a whole or not at all
unfoldable pub write_manifest : Disk → Text → Manifest → World → Bool × World
write_manifest disk directory m w =
    if disk.store w.log directory
    then (
      true,
      record w { manifests = insert directory m w.manifests; log = written directory ∷ w.log },
    )
    else (false, w)
