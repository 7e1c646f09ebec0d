-- ===== src/NoteMove/Copy.antt =====
-- internal/notemove/move.go: copyTree and copyFile. A copy that fails leaves what it has made.
pub mod Faithful
use imoogi_emacs.Prelude.{ℕ, ◌+◌, Text, Bool, true, false, ◌||◌, if◌then◌else◌, take}
use imoogi_emacs.NoteMove.System.{Entries, empty, directory, file, symlink, special, Folder, System}

-- whether a step is done without an error, what it has put in front of the entries that follow, and how
-- many calls were made
pub record Step : Type 0 where
  pub done : Bool
  pub put : Entries → Entries
  pub calls : ℕ

-- the same of the copy of what a directory holds
pub record Copied : Type 0 where
  pub done : Bool
  pub made : Entries
  pub calls : ℕ

-- an error that nothing was made for
abbrev pub stop : ℕ → Step
stop n = record { done = false; put = λ es. es; calls = n }

abbrev pub stopped : ℕ → Copied
stopped n = record { done = false; made = empty; calls = n }

-- the entries after a step, which are not met if it failed
abbrev pub join : Step → Copied → Copied
join s after = elim s.done [
  | true ↦ record { done = after.done; made = s.put after.made; calls = after.calls }
  | false ↦ record { done = false; made = s.put empty; calls = s.calls }
]

module _ (sys : System) where
  -- the end of copyFile, once the destination is open: Copy, Sync and Close are called in any case, and
  -- Chtimes if they succeeded
  unfoldable pub write_file : Text → ℕ → ℕ → Text → ℕ → Step
  write_file name perm time content n =
      if sys.fails n
      then record {
        done = false;
        put = file name perm sys.clock (take sys.kept content);
        calls = n + 3;
      }
      else if sys.fails (n + 1) || sys.fails (n + 2)
      then record { done = false; put = file name perm sys.clock content; calls = n + 3 }
      else if sys.fails (n + 3)
      then record { done = false; put = file name perm sys.clock content; calls = n + 4 }
      else record { done = true; put = file name perm time content; calls = n + 4 }

  -- copyFile: Open of the source, and OpenFile of the destination
  unfoldable pub copy_file : Text → ℕ → ℕ → Text → ℕ → Step
  copy_file name perm time content n =
      if sys.fails n
      then stop (n + 1)
      else if sys.fails (n + 1)
      then stop (n + 2)
      else write_file name (sys.masked perm) time content (n + 2)

  -- Info, Readlink and Symlink
  unfoldable pub copy_link : Text → Text → ℕ → Step
  copy_link name target n =
      if sys.fails n
      then stop (n + 1)
      else if sys.fails (n + 1)
      then stop (n + 2)
      else if sys.fails (n + 2)
      then stop (n + 3)
      else record { done = true; put = symlink name target; calls = n + 3 }

  -- Info, then copyFile
  abbrev pub copy_regular : Text → ℕ → ℕ → Text → ℕ → Step
  copy_regular name perm time content n =
      if sys.fails n then stop (n + 1) else copy_file name perm time content (n + 1)

  -- Info, and the error of a file of another type
  abbrev pub refuse_special : ℕ → Copied
  refuse_special n = stopped (n + 1)

  -- Info, Mkdir and the reading of the directory, on the copy of what it holds
  abbrev pub copy_directory : Text → ℕ → ℕ → Copied → Step
  copy_directory name perm n inside =
      if sys.fails n
      then stop (n + 1)
      else if sys.fails (n + 1)
      then stop (n + 2)
      else if sys.fails (n + 2)
      then record { done = false; put = directory name (sys.masked perm) empty; calls = n + 3 }
      else record {
        done = inside.done;
        put = directory name (sys.masked perm) inside.made;
        calls = inside.calls;
      }

  -- the walk of copyTree below a directory that was read
  unfoldable pub copy_entries : Entries → ℕ → Copied
  copy_entries empty n = record { done = true; made = empty; calls = n }
  copy_entries (directory name perm inside rest) n =
      let s = copy_directory name perm n (copy_entries inside (n + 3)) in
      join s (copy_entries rest s.calls)
  copy_entries (file name perm time content rest) n =
      let s = copy_regular name perm time content n in join s (copy_entries rest s.calls)
  copy_entries (symlink name target rest) n =
      let s = copy_link name target n in join s (copy_entries rest s.calls)
  copy_entries (special name rest) n = refuse_special n

  abbrev pub with_perm : ℕ → Copied → Bool × Folder × ℕ
  with_perm perm c = (c.done, record { perm = perm; entries = c.made }, c.calls)

  -- copyTree, into the fresh directory of MkdirTemp, whose permissions are 0700: Stat, Chmod, and the
  -- root of the walk, which is looked up and read. The result is whether it succeeded, what is at the
  -- destination, and the calls.
  unfoldable pub copy_tree : Folder → ℕ → Bool × Folder × ℕ
  copy_tree source n =
      if sys.fails n
      then with_perm 448 (stopped (n + 1))
      else if sys.fails (n + 1)
      then with_perm 448 (stopped (n + 2))
      else if sys.fails (n + 2)
      then with_perm source.perm (stopped (n + 3))
      else if sys.fails (n + 3)
      then with_perm source.perm (stopped (n + 4))
      else with_perm source.perm (copy_entries source.entries (n + 4))
