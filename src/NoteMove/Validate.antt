-- ===== src/NoteMove/Validate.antt =====
-- internal/notemove/move.go: validate and inside, with filepath.Rel on clean absolute paths.
pub mod Nested
use imoogi_emacs.Prelude.{
  Text, text, equal, Bool, true, false, not, ◌&&◌, ◌||◌, ◌==◌, if◌then◌else◌, Option, none, some,
  List, [], ◌∷◌, ◌++◌, map, any, keep,
}
use imoogi_emacs.Prelude.Relative.{rel}
use imoogi_emacs.Prelude.Paths.{has_prefix, is_abs, clean, dir, join_path}

-- what os.Lstat and os.Stat give of a path; denied is any error but that nothing is there
pub data Found : Type 0 where
  absent denied link folder other : Found

pub record Paths : Type 0 where
  pub lstat : Text → Found
  pub stat : Text → Found
  pub eval_symlinks : Text → Option Text

-- inside, on what Rel gave
abbrev pub is_descent : Text → Bool
is_descent relative =
    not (equal relative (text "."))
    && not (equal relative (text ".."))
    && not (has_prefix relative (text "../"))

-- inside
unfoldable pub inside : Text → Text → Bool
inside parent child = is_descent (rel parent child)

-- the bytes behind the last slash
unfoldable pub after_slash : Text → Text
after_slash [] = []
after_slash (c ∷ s) =
    let rest = after_slash s in if c == b'/' || any (λ d. d == b'/') s then rest else c ∷ s

-- filepath.Base of a clean absolute path
unfoldable pub base : Text → Text
base p = elim (after_slash p) [ [] ↦ text "/" | c ∷ s ↦ c ∷ s ]

module _ (sys : Paths) where
  -- the end of validate, with the parent of the destination and the source resolved
  unfoldable pub unnested : Text → Option Text → Option Text → Option (Text × Text)
  unnested destination none real = none
  unnested destination (some parent) none = none
  unnested destination (some parent) (some source) =
      let target = join_path parent (base destination) in
      if inside source target || inside target source then none else some (source, target)

  abbrev pub when_absent : Found → Option (Text × Text) → Option (Text × Text)
  when_absent absent next = next
  when_absent _ next = none

  abbrev pub when_folder : Found → Option (Text × Text) → Option (Text × Text)
  when_folder folder next = next
  when_folder _ next = none

  abbrev pub when_no_link : Found → Option (Text × Text) → Option (Text × Text)
  when_no_link absent next = none
  when_no_link denied next = none
  when_no_link link next = none
  when_no_link _ next = next

  -- validate on clean paths
  unfoldable pub validate_clean : Text → Text → Option (Text × Text)
  validate_clean source destination = when_no_link (sys.lstat source) (
      when_folder (sys.stat source) (
        when_absent (sys.lstat destination)
          (unnested destination (sys.eval_symlinks (dir destination)) (sys.eval_symlinks source))))

  -- validate; none is an error
  unfoldable pub validate : Text → Text → Option (Text × Text)
  validate source destination =
      if not (is_abs source) || not (is_abs destination)
      then none
      else validate_clean (clean source) (clean destination)
