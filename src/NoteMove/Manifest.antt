-- ===== src/NoteMove/Manifest.antt =====
-- internal/notemove/move.go: manifest and equalManifest.
pub mod Listing
pub mod Equal
use Prim.Native.Nat.{◌%◌, ◌^◌}
use imoogi_emacs.Prelude.{
  ℕ, ◌+◌, Text, text, equal, text_leb, Bool, true, false, ◌&&◌, ◌||◌, ◌==◌, if◌then◌else◌, Option,
  none, some, List, [], ◌∷◌, ◌++◌, length,
}
use imoogi_emacs.Prelude.Sort.{sort}
use imoogi_emacs.NoteMove.System.{
  Entries, empty, directory, file, symlink, special, System, Io, proceed, ◌>>=◌, ◌>>◌, pure, fail,
  call,
}

-- manifestEntry
pub record ManifestEntry : Type 0 where
  pub path : Text
  pub kind : Text
  pub digest : Text
  pub size : ℕ

-- what the walk has collected; bytes is the bit pattern of an int64
pub record Tally : Type 0 where
  pub entries : List ManifestEntry
  pub files : ℕ
  pub bytes : ℕ

abbrev pub nothing : Tally
nothing = record { entries = []; files = 0; bytes = 0 }

-- the path of a name in a directory, relative to the root, which is the empty path
unfoldable pub below : Text → Text → Text
below [] name = name
below (c ∷ p) name = (c ∷ p) ++ b'/' ∷ name

abbrev pub directory_entry : Text → ManifestEntry
directory_entry p = record { path = p; kind = text "directory"; digest = []; size = 0 }

abbrev pub symlink_entry : Text → Text → ManifestEntry
symlink_entry p link = record { path = p; kind = text "symlink"; digest = link; size = 0 }

-- result = append(result, ...)
unfoldable pub append : ManifestEntry → Tally → Tally
append e t = record t { entries = t.entries ++ e ∷ [] }

module _ (sys : System) where
  abbrev pub file_entry : Text → Text → ManifestEntry
  file_entry p content = record {
    path = p;
    kind = text "file";
    digest = sys.sha256_hex content;
    size = length content;
  }

  -- Open, then Copy and Close, both of which are called in any case
  unfoldable pub read_file : Text → Io Text
  read_file content n =
      if sys.fails n
      then (none, n + 1)
      else if sys.fails (n + 1) || sys.fails (n + 2)
      then (none, n + 3)
      else (some content, n + 3)

  -- the case of a regular file, after it was read
  unfoldable pub append_file : Text → Text → Tally → Tally
  append_file p content t = record {
    entries = t.entries ++ file_entry p content ∷ [];
    files = t.files + 1;
    bytes = (t.bytes + length content) % 2 ^ 64;
  }

  -- The walk below a directory that was read. The call that a directory makes is the reading of what
  -- it holds.
  unfoldable pub walk : Text → Entries → Tally → Io Tally
  walk at empty t = pure t
  walk at (directory name perm inside rest) t = do
    call sys tt
    u ← walk (below at name) inside (append (directory_entry (below at name)) t)
    walk at rest u
  walk at (file name perm time content rest) t = do
    read ← read_file content
    walk at rest (append_file (below at name) read t)
  walk at (symlink name target rest) t = do
    link ← call sys target
    walk at rest (append (symlink_entry (below at name) link) t)
  walk at (special name rest) t = fail

  -- manifest; the root is looked up and read, and gives no entry
  unfoldable pub manifest : Entries → Io Tally
  manifest es = do call sys tt; call sys tt; walk [] es nothing

-- the order of sort.Slice
abbrev pub by_path : ManifestEntry → ManifestEntry → Bool
by_path a b = text_leb a.path b.path

-- left[index] == right[index]
abbrev pub same_entry : ManifestEntry → ManifestEntry → Bool
same_entry a b =
    equal a.path b.path && equal a.kind b.kind && equal a.digest b.digest && a.size == b.size

-- equalManifest
unfoldable pub equal_manifest : List ManifestEntry → List ManifestEntry → Bool
equal_manifest [] [] = true
equal_manifest (a ∷ l) (b ∷ m) = same_entry a b && equal_manifest l m
equal_manifest _ _ = false

-- two manifests, sorted as manifest returns them
unfoldable pub same_manifest : Tally → Tally → Bool
same_manifest t u = equal_manifest (sort by_path t.entries) (sort by_path u.entries)
