-- ===== src/Clipboard/Publisher/Sources.antt =====
-- internal/clipboard/publish.go: preflightSources.
use imoogi_emacs.Prelude.{ℕ, ◌+◌, Text, ◌||◌, ltb, if◌then◌else◌, List, [], ◌∷◌, length}

-- Limits
pub record Limits : Type 0 where
  pub max_files : ℕ
  pub max_file_bytes : ℕ
  pub max_batch_bytes : ℕ

-- what os.Lstat gives
pub data Stat : Type 0 where
  missing folder irregular : Stat
  regular : ℕ → Stat

-- sourceFile
pub record SourceFile : Type 0 where
  pub path : Text
  pub size : ℕ

pub data Refusal : Type 0 where
  no_sources too_many unavailable directory_rejected non_regular_rejected limit_exceeded : Refusal

pub data Checked : Type 0 where
  refused : Refusal → Checked
  sources : List SourceFile → Checked

abbrev pub and_then : SourceFile → Checked → Checked
and_then s (refused e) = refused e
and_then s (sources ss) = sources (s ∷ ss)

-- the size is checked against what is left; total > MaxBatchBytes - size is written without the
-- subtraction, which may be negative
abbrev pub admit : Limits → Text → ℕ → ℕ → Checked → Checked
admit limits path size so_far rest =
    if ltb limits.max_file_bytes size || ltb limits.max_batch_bytes (so_far + size)
    then refused limit_exceeded
    else and_then (record { path = path; size = size }) rest

-- one round of the loop, with what the rest of it gives for the bytes so far
abbrev pub on_stat : Limits → Text → ℕ → (ℕ → Checked) → Stat → Checked
on_stat limits path so_far rest missing = refused unavailable
on_stat limits path so_far rest folder = refused directory_rejected
on_stat limits path so_far rest irregular = refused non_regular_rejected
on_stat limits path so_far rest (regular size) =
    admit limits path size so_far (rest (so_far + size))

-- the loop, with the bytes so far
unfoldable pub check_each : Limits → (Text → Stat) → ℕ → List Text → Checked
check_each limits lstat so_far [] = sources []
check_each limits lstat so_far (p ∷ ps) =
    on_stat limits p so_far (λ total. check_each limits lstat total ps) (lstat p)

-- preflightSources
unfoldable pub preflight_sources : Limits → (Text → Stat) → List Text → Checked
preflight_sources limits lstat [] = refused no_sources
preflight_sources limits lstat (p ∷ ps) =
    if ltb limits.max_files (length (p ∷ ps))
    then refused too_many
    else check_each limits lstat 0 (p ∷ ps)
