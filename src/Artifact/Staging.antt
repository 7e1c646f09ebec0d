-- ===== src/Artifact/Staging.antt =====
-- internal/artifact/artifact.go: the staging directory of an extraction, and what is made in it:
-- mkdirNoSymlinkBelow, writeRegularFile and createVerifiedSymlinks.
pub mod Trees
pub mod Safe
pub mod Links
use imoogi_emacs.Prelude.{
  ℕ, zero, suc, ◌+◌, Text, text, equal, Bool, true, false, ◌&&◌, ◌||◌, ltb, if◌then◌else◌, Option,
  none, some, List, [], ◌∷◌, ◌++◌, length, take,
}
use imoogi_emacs.Prelude.Dict.{Dict, lookup}
use imoogi_emacs.Prelude.Paths.{split, has_prefix, is_abs, clean, dir, join_path}
use imoogi_emacs.Artifact.Paths.{
  Refusal, escaping, missing_target, symlink_target, not_directory, already_exists, io, Result, ok,
  refused, contained_path, PendingSymlink, contain,
}
use imoogi_emacs.Artifact.Headers.{EntryKind, kind_symlink}

pub data Node : Type 0 where
  directory : Node
  file : Text → Node
  symlink : Text → Node

-- the components of a path below the root of the staging directory, which is []
abbrev pub Place : Type 0
Place = List Text

-- What stands at each path. A path is looked up as it is written, which is what the system does as
-- long as the directories on the way are real ones.
abbrev pub Tree : Type 0
Tree = Place → Option Node

unfoldable pub same : Place → Place → Bool
same [] [] = true
same (p ∷ ps) (q ∷ qs) = equal p q && same ps qs
same _ _ = false

abbrev pub put : Tree → Place → Node → Tree
put t p n q = if same p q then some n else t q

-- os.MkdirTemp: a fresh empty directory
unfoldable pub empty_tree : Tree
empty_tree [] = some directory
empty_tree (p ∷ ps) = none

-- the tree, and how many system calls were made
pub record Disk : Type 0 where
  pub tree : Tree
  pub calls : ℕ

-- which system calls fail, by their number, and how many bytes a write that fails leaves
pub record Faults : Type 0 where
  pub fails : ℕ → Bool
  pub kept : ℕ

abbrev pub Io : Type 0 → Type 0
Io A = Disk → Result A × Disk

abbrev pub proceed : {A B : Type 0} → Result A × Disk → (A → Io B) → Result B × Disk
proceed (ok a, d) f = f a d
proceed (refused e, d) f = (refused e, d)

infixl 5 ◌>>=◌ ◌>>◌
abbrev pub ◌>>=◌ : {A B : Type 0} → Io A → (A → Io B) → Io B
◌>>=◌ m f d = proceed (m d) f

abbrev pub ◌>>◌ : {B : Type 0} → Io (Unit {0}) → Io B → Io B
m >> k = m >>= λ _. k

abbrev pub pure : {A : Type 0} → A → Io A
pure a d = (ok a, d)

abbrev pub fail : {A : Type 0} → Refusal → Io A
fail e d = (refused e, d)

abbrev pub lift : {A : Type 0} → Result A → Io A
lift r d = (r, d)

-- the directory a path stands in
unfoldable pub parent : Place → Place
parent [] = []
parent (p ∷ []) = []
parent (p ∷ q ∷ ps) = p ∷ parent (q ∷ ps)

abbrev pub when_absent : Refusal → Option Node → Io (Unit {0}) → Io (Unit {0})
when_absent e none m = m
when_absent e (some _) m = fail e

-- the test of os.Lstat of the target
abbrev pub materialized : Option Node → Io (Unit {0})
materialized none = fail missing_target
materialized (some (symlink _)) = fail symlink_target
materialized (some _) = pure tt

abbrev pub target_kind : Option EntryKind → Result (Unit {0})
target_kind none = refused missing_target
target_kind (some kind_symlink) = refused symlink_target
target_kind (some _) = ok tt

-- ensurePathBelow, as the path of the target below the root
unfoldable pub target_place : PendingSymlink → Result Place
target_place link = contain (clean (join_path (dir link.name) link.target))

module _ (faults : Faults) where
  -- a system call that may fail
  abbrev pub call : {A : Type 0} → (Tree → A × Tree) → Io A
  call f d =
      let (a, t) = f d.tree in
      if faults.fails d.calls
      then (refused io, record { tree = d.tree; calls = d.calls + 1 })
      else (ok a, record { tree = t; calls = d.calls + 1 })

  -- os.Lstat; none is ErrNotExist
  unfoldable pub lstat : Place → Io (Option Node)
  lstat p = call (λ t. (t p, t))

  -- os.Mkdir and os.Symlink
  unfoldable pub make : Place → Node → Io (Unit {0})
  make p n = call (λ t. (tt, put t p n))

  -- os.OpenFile with O_EXCL, io.CopyN and Chmod: the file may be left torn.
  unfoldable pub create : Place → Text → Io (Unit {0})
  create p content d =
      if faults.fails d.calls
      then (refused io, record { tree = d.tree; calls = d.calls + 1 })
      else if faults.fails (d.calls + 1)
      then (
        refused io,
        record { tree = put d.tree p (file (take faults.kept content)); calls = d.calls + 2 },
      )
      else (ok tt, record { tree = put d.tree p (file content); calls = d.calls + 2 })

  -- one round of the loop of mkdirNoSymlinkBelow, on what Lstat gave
  unfoldable pub enter : Place → Option Node → Io (Unit {0})
  enter p none = make p directory
  enter p (some directory) = pure tt
  enter p (some _) = fail not_directory

  unfoldable pub walk : Place → List Text → Io (Unit {0})
  walk current [] = pure tt
  walk current (p ∷ ps) = do
    found ← lstat (current ++ p ∷ [])
    enter (current ++ p ∷ []) found
    walk (current ++ p ∷ []) ps

  abbrev pub walk_root : Option Node → List Text → Io (Unit {0})
  walk_root (some directory) ps = walk [] ps
  walk_root _ ps = fail not_directory

  -- mkdirNoSymlinkBelow
  unfoldable pub mkdir_no_symlink_below : Place → Io (Unit {0})
  mkdir_no_symlink_below p = do root ← lstat []; walk_root root p

  -- io.CopyN, from a stream that may end before the size
  abbrev pub copy_n : Place → Text → ℕ → Io (Unit {0})
  copy_n p content size d =
      if ltb (length content) size
      then (refused io, (create p (take size content) d).1)
      else create p (take size content) d

  -- writeRegularFile
  unfoldable pub write_regular_file : Place → Text → ℕ → Io (Unit {0})
  write_regular_file p content size = do
    found ← lstat p
    when_absent already_exists found (copy_n p content size)

  unfoldable pub create_symlink : Dict EntryKind → PendingSymlink → Io (Unit {0})
  create_symlink seen link = do
    lift (target_kind (lookup link.target_name seen))
    at ← lift (contained_path link.name)
    target ← lift (target_place link)
    found ← lstat target
    materialized found
    mkdir_no_symlink_below (parent at)
    taken ← lstat at
    when_absent already_exists taken (make at (symlink link.target))

  -- createVerifiedSymlinks
  unfoldable pub create_verified_symlinks : Dict EntryKind → List PendingSymlink → Io (Unit {0})
  create_verified_symlinks seen [] = pure tt
  create_verified_symlinks seen (link ∷ links) = do
    create_symlink seen link
    create_verified_symlinks seen links
