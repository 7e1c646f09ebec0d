-- ===== src/Anki/Registry/File.antt =====
-- internal/anki/registry/registry.go: Load and Save, on a target file and a temporary file beside it.
-- The JSON codec is left out: a file holds entries, or nothing that can be read.
pub mod RoundTrip
pub mod Atomic
use imoogi_emacs.Prelude.{Bool, true, false, if◌then◌else◌, Option, none, some, List, [], ◌∷◌}
use imoogi_emacs.Anki.Registry.{Entry, Registry, all, load}

pub data Content : Type 0 where
  readable : List Entry → Content
  unreadable : Content

pub record Files : Type 0 where
  pub target : Option Content
  pub temp : Option Content

-- Load: a missing file is an empty registry, an unreadable one an error
unfoldable pub load_file : Option Content → Option Registry
load_file none = some []
load_file (some (readable es)) = some (load es)
load_file (some unreadable) = none

-- the operations of Save that fail
pub record Faults : Type 0 where
  pub create : Bool
  pub write : Bool
  pub sync : Bool
  pub close : Bool
  pub rename : Bool

-- every state that the files go through, the latest first, and whether Save returns no error
abbrev pub Trace : Type 0
Trace = Bool × List Files

abbrev abandon : Files → List Files → Trace
abandon files trace = (false, record files { temp = none } ∷ trace)

-- Save once the temporary file is written and closed
save_renamed : Faults → Content → Files → List Files → Trace
save_renamed faults content files trace =
    if faults.rename
    then abandon files trace
    else (true, record { target = some content; temp = none } ∷ trace)

-- Save. A failed write may leave the temporary file torn.
unfoldable pub save : Faults → Registry → Files → Trace
unfolding save_renamed all
save faults reg files =
    let content = readable (all reg) in
    let made = record files { temp = some unreadable } in
    let full = record files { temp = some content } in
    if faults.create
    then (false, files ∷ [])
    else if faults.write
    then abandon made (made ∷ files ∷ [])
    else if faults.sync
    then abandon full (full ∷ made ∷ files ∷ [])
    else if faults.close
    then abandon full (full ∷ made ∷ files ∷ [])
    else save_renamed faults content full (full ∷ made ∷ files ∷ [])
