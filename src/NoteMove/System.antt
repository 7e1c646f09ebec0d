-- ===== src/NoteMove/System.antt =====
-- internal/notemove/move.go: the trees that a move reads and writes, and the system calls, which are
-- numbered and may fail.
use imoogi_emacs.Prelude.{ℕ, ◌+◌, Text, Bool, if◌then◌else◌, Option, none, some}

-- what a directory holds, in the order in which filepath.WalkDir meets it: a directory with its name,
-- its permissions and what it holds; a file with its permissions, its time and its content; a link
-- with its target; anything else
pub data Entries : Type 0 where
  empty : Entries
  directory : Text → ℕ → Entries → Entries → Entries
  file : Text → ℕ → ℕ → Text → Entries → Entries
  symlink : Text → Text → Entries → Entries
  special : Text → Entries → Entries

pub record Folder : Type 0 where
  pub perm : ℕ
  pub entries : Entries

-- The calls that fail, by their number; the bytes that an io.Copy that fails leaves; the time of a file
-- that was just written; permissions under the umask; what an os.RemoveAll that fails leaves; SHA-256
-- as hexadecimal digits.
pub record System : Type 0 where
  pub fails : ℕ → Bool
  pub kept : ℕ
  pub clock : ℕ
  pub masked : ℕ → ℕ
  pub left : Folder → Folder
  pub sha256_hex : Text → Text

-- a value and an error, and how many calls were made
abbrev pub Io : Type 0 → Type 0
Io A = ℕ → Option A × ℕ

abbrev pub proceed : {A B : Type 0} → Option A × ℕ → (A → Io B) → Option B × ℕ
proceed (none, n) f = (none, n)
proceed (some a, n) f = f a n

infixl 5 ◌>>=◌ ◌>>◌
abbrev pub ◌>>=◌ : {A B : Type 0} → Io A → (A → Io B) → Io B
◌>>=◌ m f n = proceed (m n) f

abbrev pub ◌>>◌ : {B : Type 0} → Io (Unit {0}) → Io B → Io B
m >> k = m >>= λ _. k

abbrev pub pure : {A : Type 0} → A → Io A
pure a n = (some a, n)

abbrev pub fail : {A : Type 0} → Io A
fail n = (none, n)

-- one call that gives a, or fails
abbrev pub call : {A : Type 0} → System → A → Io A
call sys a n = if sys.fails n then (none, n + 1) else (some a, n + 1)
