-- ===== src/Artifact/Paths.antt =====
-- internal/artifact/artifact.go: cleanArchivePath, containedPath and validateSymlinkTarget.
pub mod Accepts
use imoogi_emacs.Prelude.{
  ℕ, Text, text, equal, Bool, true, false, not, ◌&&◌, ◌||◌, ◌==◌, if◌then◌else◌, List, [], ◌∷◌,
  ◌++◌, any, ◌≡◌, refl,
}
use imoogi_emacs.Prelude.Paths.{split, has_prefix, is_abs, clean, dir, join_path}

-- why an archive is refused; a failure of the operating system or of the archive's reader is io
pub data Refusal : Type 0 where
  empty_path backslash drive_separator absolute_path traversal unclean_path invalid_segment :
      Refusal
  escaping : Refusal
  unsupported_type duplicate file_parent directory_after_child : Refusal
  negative_size file_too_large output_too_large nonzero_size too_many_entries : Refusal
  empty_target escaping_target missing_target symlink_target : Refusal
  not_directory already_exists oversized unverified io : Refusal

-- a Go value and error pair
pub data Result {ℓ} (A : Type ℓ) : Type ℓ where
  ok : A → Result A
  refused : Refusal → Result A

infixl 5 ◌>>=◌
abbrev pub ◌>>=◌ {ℓ κ} : {X : Type ℓ} {Y : Type κ} → Result X → (X → Result Y) → Result Y
ok x >>= next = next x
refused why >>= next = refused why

-- a chain that succeeds has a first step that does
pub first_step :
    {X Y : Type 0} (r : Result X) (next : X → Result Y) {y : Y}
    → (r >>= next) ≡ ok y
    → (x : X) × (r ≡ ok x) × (next x ≡ ok y)
first_step (refused why) next same = cc
first_step (ok x) next same = (x, refl, same)

pub ok_eq {ℓ} : {A : Type ℓ} {a b : A} → ok a ≡ ok b → a ≡ b
ok_eq e = cc

-- strings.TrimRight(s, "/")
unfoldable pub trim_slashes : Text → Text
trim_slashes [] = []
trim_slashes (c ∷ s) =
    let rest = trim_slashes s in if c == b'/' && equal rest [] then [] else c ∷ rest

abbrev pub backslash_byte : ℕ → Bool
backslash_byte c = c == 92

abbrev pub colon_byte : ℕ → Bool
colon_byte c = c == b':'

-- strings.Contains(s, "/../")
abbrev pub has_ascent : Text → Bool
has_ascent [] = false
has_ascent (c ∷ s) = has_prefix (c ∷ s) (text "/../") || has_ascent s

-- the test of one part in the loop at the end
abbrev pub bad_segment : Text → Bool
bad_segment p = equal p (text ".") || equal p (text "..") || equal p []

-- what follows the trimming of slashes
unfoldable pub check_path : Text → Result Text
check_path name =
    if equal name []
    then refused empty_path
    else if any backslash_byte name
    then refused backslash
    else if any colon_byte name
    then refused drive_separator
    else if is_abs name
    then refused absolute_path
    else if equal (clean name) (text ".")
        || equal (clean name) (text "..")
        || has_prefix (clean name) (text "../")
        || has_ascent (clean name)
    then refused traversal
    else if not (equal (clean name) name)
    then refused unclean_path
    else if any bad_segment (split b'/' (clean name))
    then refused invalid_segment
    else ok (clean name)

-- cleanArchivePath
unfoldable pub clean_archive_path : Text → Result Text
clean_archive_path name =
    if equal name [] then refused empty_path else check_path (trim_slashes name)

-- what containedPath does with the path below the root; filepath.Rel takes back what filepath.Join
-- of the root and a clean relative path made
unfoldable pub contain : Text → Result (List Text)
contain rel =
    if equal rel (text ".") || has_prefix rel (text "../") || equal rel (text "..") || is_abs rel
    then refused escaping
    else ok (split b'/' rel)

-- containedPath
unfoldable pub contained_path : Text → Result (List Text)
contained_path name = do rel ← clean_archive_path name; contain rel

-- pendingSymlink
pub record PendingSymlink : Type 0 where
  pub name : Text
  pub target : Text
  pub target_name : Text

-- the end of validateSymlinkTarget, on what path.Clean of the joined path gave
unfoldable pub resolve_target : Text → Text → Text → Result PendingSymlink
resolve_target name target resolved =
    if equal resolved (text ".")
      || has_prefix resolved (text "../")
      || equal resolved (text "..")
      || is_abs resolved
    then refused escaping_target
    else ok (record { name = name; target = target; target_name = resolved })

-- validateSymlinkTarget
unfoldable pub validate_symlink_target : Text → Text → Result PendingSymlink
validate_symlink_target name target =
    if equal target []
    then refused empty_target
    else if any backslash_byte target
    then refused backslash
    else if any colon_byte target
    then refused drive_separator
    else if is_abs target
    then refused absolute_path
    else if equal (clean target) (text ".")
    then refused empty_target
    else if not (equal (clean target) target)
    then refused unclean_path
    else resolve_target name (clean target) (clean (join_path (dir name) (clean target)))
