-- ===== src/Artifact/Extract.antt =====
-- internal/artifact/artifact.go and zip.go: VerifyFile, the loops over the entries of an archive, and
-- ExtractTarGzipWithOptions and ExtractZip around them.
pub mod Bounds
pub mod Contained
use imoogi_emacs.Prelude.{
  ℕ, suc, ◌+◌, Text, equal, Bool, true, false, not, ◌&&◌, ◌||◌, ◌==◌, leb, ltb, if◌then◌else◌,
  Option, none, some, List, [], ◌∷◌, ◌++◌, length, any,
}
use imoogi_emacs.Prelude.Int.{ℤ, pos, negsuc}
use imoogi_emacs.Prelude.Dict.{Dict}
use imoogi_emacs.Artifact.Paths.{
  Refusal, too_many_entries, unsupported_type, oversized, not_directory, already_exists, io, Result,
  ok, refused, contained_path, PendingSymlink, validate_symlink_target,
}
use imoogi_emacs.Artifact.Headers.{
  Limits, Caps, with_default_limits, Header, Typeflag, type_dir, type_reg, type_reg_a, type_symlink,
  type_link, type_char, type_block, type_fifo, type_other, EntryKind, kind_dir, kind_file,
  kind_symlink, Progress, validate_entry_header, ZipFile, zip_entry_header,
}
use imoogi_emacs.Artifact.Staging.{
  Place, Tree, empty_tree, Disk, Faults, Io, proceed, ◌>>=◌, ◌>>◌, pure, fail, lift, call, parent,
  mkdir_no_symlink_below, write_regular_file, create_verified_symlinks,
}

-- Digest
pub record Digest : Type 0 where
  pub size : ℤ
  pub sha256 : Text

-- a lower-case hexadecimal digit
abbrev is_hex : ℕ → Bool
is_hex c = (leb b'0' c && leb c b'9') || (leb b'a' c && leb c b'f')

-- isLowerSHA256
unfoldable pub is_lower_sha256 : Text → Bool
is_lower_sha256 v = length v == 64 && not (any (λ c. not (is_hex c)) v)

abbrev has_size : ℕ → ℤ → Bool
has_size n (pos m) = n == m
has_size n (negsuc m) = false

abbrev is_positive : ℤ → Bool
is_positive (pos n) = ltb 0 n
is_positive (negsuc n) = false

-- VerifyFile, on the bytes of the file, if it can be read; the first argument is SHA-256 in hexadecimal
unfoldable pub verify_file : (Text → Text) → Option Text → Digest → Bool
unfolding is_lower_sha256
verify_file sha256_hex none expected = false
verify_file sha256_hex (some content) expected =
    is_positive expected.size
    && is_lower_sha256 expected.sha256
    && has_size (length content) expected.size
    && equal (sha256_hex content) expected.sha256

-- what tar.Reader.Next and the reads after it give: an entry with its bytes
pub record TarEntry : Type 0 where
  pub header : Header
  pub content : Text

-- the size of a header that has been validated
abbrev pub size_of : ℤ → ℕ
size_of (pos n) = n
size_of (negsuc n) = 0

module _ (allow : Bool) (caps : Caps) (faults : Faults) where
  -- a regular file, in a directory that is made first
  unfoldable pub place_file : Place → Text → ℕ → Io (Unit {0})
  place_file p content size =
      mkdir_no_symlink_below faults (parent p) >> write_regular_file faults p content size

  -- the switch over the type; a symbolic link is left for the end
  unfoldable pub extract_entry : Header → Text → Place → Typeflag → Io (List PendingSymlink)
  extract_entry hdr content p type_dir = mkdir_no_symlink_below faults p >> pure []
  extract_entry hdr content p type_reg = place_file p content (size_of hdr.size) >> pure []
  extract_entry hdr content p type_reg_a = place_file p content (size_of hdr.size) >> pure []
  extract_entry hdr content p type_symlink =
      lift (validate_symlink_target hdr.name hdr.linkname) >>= λ link. pure (link ∷ [])
  extract_entry hdr content p _ = fail unsupported_type

  -- The loop of extractVerifiedTarGzip; none is a read error. The number counts the entries so far.
  unfoldable pub extract_entries :
      List (Option TarEntry) → ℕ → Progress → List PendingSymlink → Io (ℕ × Progress)
  extract_entries [] n s links = create_verified_symlinks faults s.seen links >> pure (n, s)
  extract_entries (none ∷ es) n s links = fail io
  extract_entries (some e ∷ es) n s links =
      if ltb caps.max_entries (n + 1) then fail too_many_entries else do
        o ← lift (validate_entry_header allow caps e.header s)
        p ← lift (contained_path o.0.name)
        new ← extract_entry o.0 e.content p o.0.typeflag
        extract_entries es (n + 1) o.2 (links ++ new)

-- an entry of a zip archive: the bytes that reading it gives, and whether the read at their end
-- reports a fault of the stream or of its checksum
pub record ZipEntry : Type 0 where
  pub file : ZipFile
  pub content : Text
  pub broken : Bool

abbrev at_end : ZipEntry → ℕ → Result (Unit {0})
at_end e size =
    if ltb size (length e.content)
    then refused oversized
    else if e.broken
    then refused io
    else ok tt

module _ (caps : Caps) (faults : Faults) where
  -- writeZipFile; opening the entry may fail
  unfoldable pub write_zip_file : ZipEntry → Place → ℕ → Io (Unit {0})
  write_zip_file e p size = do
    call faults (λ t. (tt, t))
    write_regular_file faults p e.content size
    lift (at_end e size)

  unfoldable pub extract_zip_entry : ZipEntry → Header → Place → Typeflag → Io (Unit {0})
  extract_zip_entry e hdr p type_dir = mkdir_no_symlink_below faults p
  extract_zip_entry e hdr p _ =
      mkdir_no_symlink_below faults (parent p) >> write_zip_file e p (size_of hdr.size)

  -- the loop of extractVerifiedZip
  unfoldable pub extract_zip_entries : List ZipEntry → ℕ → Progress → Io (ℕ × Progress)
  extract_zip_entries [] n s = pure (n, s)
  extract_zip_entries (e ∷ es) n s =
      if ltb caps.max_entries (n + 1) then fail too_many_entries else do
        raw ← lift (zip_entry_header e.file)
        o ← lift (validate_entry_header false caps raw s)
        p ← lift (contained_path o.0.name)
        extract_zip_entry e o.0 p o.0.typeflag
        extract_zip_entries es (n + 1) o.2
