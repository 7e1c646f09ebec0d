-- ===== src/Artifact/Headers.antt =====
-- internal/artifact/artifact.go: withDefaultLimits, kindForType, detectPathConflict and
-- validateEntryHeader; internal/artifact/zip.go: zipEntryHeader.
use Prim.Native.Nat.{◌^◌}
use imoogi_emacs.Prelude.{
  ℕ, zero, ◌+◌, ◌-◌, ◌*◌, Text, Bool, true, false, ◌&&◌, ◌||◌, ◌==◌, ltb, if◌then◌else◌, Option,
  none, some, is_some, List, [], ◌∷◌, ◌++◌, map, any,
}
use imoogi_emacs.Prelude.Int.{ℤ, pos, negsuc}
use imoogi_emacs.Prelude.Dict.{Dict, lookup, insert}
use imoogi_emacs.Prelude.Paths.{split, join, has_prefix}
use imoogi_emacs.Artifact.Paths.{
  Refusal, unsupported_type, duplicate, file_parent, directory_after_child, negative_size,
  file_too_large, output_too_large, nonzero_size, io, Result, ok, refused, ◌>>=◌,
  clean_archive_path,
}

-- Limits as the caller gives them
pub record Limits : Type 0 where
  pub max_entries : ℤ
  pub max_file_bytes : ℤ
  pub max_output_bytes : ℤ

-- Limits after withDefaultLimits, all of them positive
pub record Caps : Type 0 where
  pub max_entries : ℕ
  pub max_file_bytes : ℕ
  pub max_output_bytes : ℕ

abbrev default_max_entries : ℕ
default_max_entries = 4096

abbrev default_max_file_bytes : ℕ
default_max_file_bytes = 512 * 2 ^ 20

abbrev default_max_output_bytes : ℕ
default_max_output_bytes = 2 * 2 ^ 30

abbrev positive_or : ℤ → ℕ → ℕ
positive_or (pos n) d = if n == 0 then d else n
positive_or (negsuc n) d = d

-- withDefaultLimits
unfoldable pub with_default_limits : Limits → Caps
with_default_limits l = record {
  max_entries = positive_or l.max_entries default_max_entries;
  max_file_bytes = positive_or l.max_file_bytes default_max_file_bytes;
  max_output_bytes = positive_or l.max_output_bytes default_max_output_bytes;
}

pub data Typeflag : Type 0 where
  type_dir type_reg type_reg_a type_symlink type_link type_char type_block type_fifo : Typeflag
  type_other : ℕ → Typeflag

pub data EntryKind : Type 0 where
  kind_dir kind_file kind_symlink : EntryKind

-- the fields of a tar.Header that are read
pub record Header : Type 0 where
  pub name : Text
  pub typeflag : Typeflag
  pub size : ℤ
  pub linkname : Text

-- kindForType; the argument is AllowRelativeSymlinks
unfoldable pub kind_for_type : Typeflag → Bool → Result EntryKind
kind_for_type type_dir allow = ok kind_dir
kind_for_type type_reg allow = ok kind_file
kind_for_type type_reg_a allow = ok kind_file
kind_for_type type_symlink true = ok kind_symlink
kind_for_type _ _ = refused unsupported_type

-- parts[:1], parts[:2], … without the whole
unfoldable pub proper_prefixes : List Text → List (List Text)
proper_prefixes [] = []
proper_prefixes (p ∷ []) = []
proper_prefixes (p ∷ q ∷ ps) = (p ∷ []) ∷ map (λ l. p ∷ l) (proper_prefixes (q ∷ ps))

abbrev pub blocks : Option EntryKind → Bool
blocks (some kind_file) = true
blocks (some kind_symlink) = true
blocks _ = false

abbrev pub is_dir : EntryKind → Bool
is_dir kind_dir = true
is_dir _ = false

-- detectPathConflict; none if there is no conflict
unfoldable pub detect_path_conflict : Text → EntryKind → Dict EntryKind → Option Refusal
detect_path_conflict name kind seen =
    if any (λ l. blocks (lookup (join b'/' l) seen)) (proper_prefixes (split b'/' name))
    then some file_parent
    else if is_dir kind && any (λ e. has_prefix e.0 (name ++ b'/' ∷ [])) seen
    then some directory_after_child
    else none

-- the names seen so far, and ExtractionResult.Bytes
pub record Progress : Type 0 where
  pub seen : Dict EntryKind
  pub bytes : ℕ

abbrev note : Text → EntryKind → ℕ → Progress → Result Progress
note name kind n s = ok (record { seen = insert name kind s.seen; bytes = s.bytes + n })

-- The size tests. In the source the difference is that of two positive int64; where it is negative,
-- every count of bytes is above it.
unfoldable pub check_size : Caps → Text → EntryKind → ℤ → Progress → Result Progress
check_size caps name kind_file (negsuc n) s = refused negative_size
check_size caps name kind_file (pos n) s =
    if ltb caps.max_file_bytes n
    then refused file_too_large
    else if ltb caps.max_output_bytes n || ltb (caps.max_output_bytes - n) s.bytes
    then refused output_too_large
    else note name kind_file n s
check_size caps name kind (pos zero) s = note name kind 0 s
check_size caps name kind _ s = refused nonzero_size

unfoldable pub check_entry : Caps → Text → EntryKind → ℤ → Progress → Result Progress
check_entry caps name kind size s =
    if is_some (lookup name s.seen)
    then refused duplicate
    else elim (detect_path_conflict name kind s.seen) [
      | some e ↦ refused e
      | none ↦ check_size caps name kind size s
    ]

-- validateEntryHeader, with the header as it leaves it and the kind that it found
unfoldable pub validate_entry_header :
    Bool → Caps → Header → Progress → Result (Header × EntryKind × Progress)
validate_entry_header allow caps hdr s = do
  name ← clean_archive_path hdr.name
  kind ← kind_for_type hdr.typeflag allow
  s' ← check_entry caps name kind hdr.size s
  ok (record hdr { name = name }, kind, s')

-- how zip.File describes its entry
pub data ZipMode : Type 0 where
  zip_dir zip_symlink zip_regular zip_special : ZipMode

pub record ZipFile : Type 0 where
  pub name : Text
  pub mode : ZipMode
  pub uncompressed_size : ℕ

-- zipEntryHeader; the size is an unsigned 64-bit number
unfoldable pub zip_entry_header : ZipFile → Result Header
zip_entry_header f = elim f.mode [
  | zip_dir ↦ ok (record { name = f.name; typeflag = type_dir; size = pos 0; linkname = [] })
  | zip_symlink ↦
      ok (record { name = f.name; typeflag = type_symlink; size = pos 0; linkname = [] })
  | zip_regular ↦
      if ltb (2 ^ 63 - 1) f.uncompressed_size
      then refused io
      else ok (record {
        name = f.name;
        typeflag = type_reg;
        size = pos f.uncompressed_size;
        linkname = [];
      })
  | zip_special ↦ ok (record { name = f.name; typeflag = type_fifo; size = pos 0; linkname = [] })
]
