-- ===== src/Artifact/Tests.antt =====
-- Extractions of small archives, and the theorems at concrete inputs.
use imoogi_emacs.Prelude.{
  ℕ, Text, text, true, false, Option, none, some, List, [], ◌∷◌, ◌++◌, ◌≡◌, ◌↔◌, refl,
}
use imoogi_emacs.Prelude.Int.{pos}
use imoogi_emacs.Prelude.Paths.{clean, has_prefix, dir, join_path}
use imoogi_emacs.Prelude.Dict.{lookup, insert}
use imoogi_emacs.Artifact.Paths.{
  Result, ok, refused, traversal, unclean_path, escaping_target, trim_slashes, check_path,
  clean_archive_path, validate_symlink_target, resolve_target, contained_path, contain, file_parent,
}
use imoogi_emacs.Artifact.Paths.Accepts.{IsArchivePath, clean_archive_path_iff}
use imoogi_emacs.Artifact.Headers.{
  Limits, with_default_limits, Typeflag, type_dir, type_reg, type_symlink, Progress, zip_regular,
  validate_entry_header, kind_for_type, check_entry, check_size, detect_path_conflict,
  proper_prefixes,
}
use imoogi_emacs.Artifact.Staging.{
  Node, file, symlink, Place, Faults, create_verified_symlinks, create_symlink,
  mkdir_no_symlink_below, walk, enter, make, lstat, write_regular_file, create, parent, same,
  target_place, empty_tree,
}
use imoogi_emacs.Artifact.Extract.{
  Digest, TarEntry, ZipEntry, verify_file, extract_entries, extract_entry, place_file,
}
use imoogi_emacs.Artifact.Commit.{
  Destination, empty_dir, unpacked, World, extract_tar_gzip, extract_into, validate_destination,
  in_staging, conclude, commit_staging, discard,
}

trailing : clean_archive_path (text "a/b//") ≡ ok (text "a/b")
unfolding clean_archive_path check_path trim_slashes clean has_prefix
trailing = refl

upward : clean_archive_path (text "a/../../b") ≡ refused traversal
unfolding clean_archive_path check_path trim_slashes clean has_prefix
upward = refl

doubled : clean_archive_path (text "a//b") ≡ refused unclean_path
unfolding clean_archive_path check_path trim_slashes clean has_prefix
doubled = refl

out_of_root : validate_symlink_target (text "a/l") (text "../../etc") ≡ refused escaping_target
unfolding validate_symlink_target resolve_target clean dir join_path has_prefix
out_of_root = refl

clean_archive_path_iff_example :
    (clean_archive_path (text "a/b//") ≡ ok (text "a/b"))
    ↔ ((text "a/b" ≡ trim_slashes (text "a/b//")) × IsArchivePath (text "a/b"))
clean_archive_path_iff_example = clean_archive_path_iff (text "a/b//") (text "a/b")

abbrev working : Faults
working = record { fails = λ n. false; kept = 0 }

abbrev sixteen : Text
sixteen = text "0123456789abcdef"

abbrev digest : Digest
digest = record { size = pos 3; sha256 = sixteen ++ (sixteen ++ (sixteen ++ sixteen)) }

abbrev sha256_hex : Text → Text
sha256_hex t = digest.sha256

abbrev limits : Limits
limits = record { max_entries = pos 4; max_file_bytes = pos 10; max_output_bytes = pos 10 }

abbrev entry : Text → Typeflag → ℕ → Text → Text → Option TarEntry
entry name flag size link content = some (record {
  header = record { name = name; typeflag = flag; size = pos size; linkname = link };
  content = content;
})

abbrev archive : Option (List (Option TarEntry))
archive = some (
    entry (text "bin/") type_dir 0 [] []
    ∷ entry (text "bin/tool") type_reg 2 [] (text "hi")
    ∷ entry (text "tool") type_symlink 0 (text "bin/tool") []
    ∷ [])

abbrev fresh : World
fresh = record { dest = empty_dir; staged = none; calls = 0 }

-- what stands at a path below the destination
abbrev look : Destination → Place → Option Node
look (unpacked t) p = t p
look _ p = none

unpack : Option (List (Option TarEntry)) → Result (ℕ × Progress) × World
unfolding extract_tar_gzip verify_file extract_into validate_destination in_staging conclude
    commit_staging discard extract_entries extract_entry place_file validate_entry_header
    kind_for_type check_entry check_size detect_path_conflict proper_prefixes clean_archive_path
    check_path trim_slashes clean has_prefix contained_path contain validate_symlink_target
    resolve_target dir join_path create_verified_symlinks create_symlink mkdir_no_symlink_below walk
    enter make lstat write_regular_file create parent same target_place empty_tree lookup insert
    with_default_limits
unpack es =
    extract_tar_gzip working sha256_hex true limits digest (text "d") (some (text "tgz")) es fresh

unpacked_archive :
    (look (unpack archive).1.dest (text "tool" ∷ []) ≡ some (symlink (text "bin/tool")))
    × (look (unpack archive).1.dest (text "bin" ∷ text "tool" ∷ []) ≡ some (file (text "hi")))
    × ((unpack archive).1.staged ≡ none)
unfolding unpack
unpacked_archive = (refl, refl, refl)

-- a file below a link is refused, and the destination is left
below_link :
    unpack (
      some (
        entry (text "l") type_symlink 0 (text "x") []
        ∷ entry (text "l/f") type_reg 2 [] (text "hi")
        ∷ []))
    ≡ (refused file_parent, record { dest = empty_dir; staged = none; calls = 4 })
unfolding unpack
below_link = refl

abbrev zip_archive : Option (List ZipEntry)
zip_archive = some (
    (record {
      file = record { name = text "a/b"; mode = zip_regular; uncompressed_size = 2 };
      content = text "hi";
      broken = false;
    })
    ∷ [])
