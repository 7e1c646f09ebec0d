-- ===== src/NoteMove/Tests.antt =====
-- Moves of a small directory, and the theorems at concrete inputs.
use imoogi_emacs.Prelude.{
  ℕ, Text, text, equal, text_leb, Bool, true, false, ◌==◌, none, some, [], ◌∷◌, ◌≡◌, ◌↔◌, refl,
}
use imoogi_emacs.Prelude.Sort.{sort, insert}
use imoogi_emacs.Prelude.Paths.{
  split, join, has_prefix, is_abs, clean, dir, join_path, descend, prepend, dir_part, IsSegment,
}
use imoogi_emacs.NoteMove.System.{empty, directory, file, symlink, Folder, System}
use imoogi_emacs.NoteMove.Manifest.{
  manifest, walk, append, append_file, read_file, below, equal_manifest, same_manifest,
}
use imoogi_emacs.NoteMove.Copy.{copy_tree, copy_entries, copy_file, write_file, copy_link}
use imoogi_emacs.NoteMove.Copy.Faithful.{copy_of}
use imoogi_emacs.NoteMove.Validate.{
  Found, absent, folder, Paths, inside, base, after_slash, unnested, validate_clean, validate,
}
use imoogi_emacs.Prelude.Relative.{components, apart, rel, rooted, IsBelow}
use imoogi_emacs.NoteMove.Validate.Nested.{inside_iff}
use imoogi_emacs.NoteMove.Move.{
  Request, moved, failed, copy_failed, World, move, stage, commit, mark, retire, clean_up, discard,
}
use imoogi_emacs.NoteMove.Move.Commit.{Outcome}
use imoogi_emacs.NoteMove.Move.Kept.{move-Outcome}
use imoogi_emacs.NoteMove.Move.Complete.{still, IsDone, move-IsDone}

abbrev notes : Folder
notes = record {
  perm = 493;
  entries =
      directory (text "c") 493 (file (text "C1") 416 7 (text "xy") empty)
        (symlink (text "l") (text "c") empty);
}

-- the calls that fail are those of the test
abbrev system_but : (ℕ → Bool) → System
system_but fails = record {
  fails = fails;
  kept = 1;
  clock = 9;
  masked = λ perm. perm;
  left = λ f. f;
  sha256_hex = λ s. s;
}

abbrev system : System
system = system_but (λ n. false)

abbrev found_at : Text → Found
found_at p = elim (equal p (text "/n")) [ true ↦ folder | false ↦ absent ]

abbrev paths : Paths
paths = record { lstat = found_at; stat = found_at; eval_symlinks = some }

abbrev request : Request
request = record { operation = text "move"; source = text "/n"; destination = text "/e/n" }

abbrev world : World
world = record { source = some notes; dest = none; staging = none; tombstone = none; calls = 0 }

validate-request : validate paths (text "/n") (text "/e/n") ≡ some (text "/n", text "/e/n")
unfolding validate validate_clean unnested inside rel components apart base after_slash clean split
    join descend prepend dir dir_part join_path has_prefix is_abs equal
validate-request = refl

-- a destination in the source is refused
validate-nested : validate paths (text "/n") (text "/n/b") ≡ none
unfolding validate validate_clean unnested inside rel components apart base after_slash clean split
    join descend prepend dir dir_part join_path has_prefix is_abs equal
validate-nested = refl

move-done :
    (move system paths (still notes) request world).0 ≡ moved (text "/n") (text "/e/n") 1 2 false
unfolding move stage commit mark retire clean_up manifest walk append append_file read_file below
    equal_manifest same_manifest copy_tree copy_entries copy_file write_file copy_link sort insert
    validate validate_clean unnested inside rel components apart base after_slash clean split join
    descend prepend dir dir_part join_path has_prefix is_abs equal text_leb
move-done = refl

-- a directory of the source cannot be read by the copy
move-copy_failed :
    move (system_but (λ n. n == 14)) paths (still notes) request world
    ≡ (failed copy_failed, record world { calls = 16 })
unfolding move stage commit mark retire clean_up discard manifest walk append append_file read_file
    below equal_manifest same_manifest copy_tree copy_entries copy_file write_file copy_link sort
    insert validate validate_clean unnested inside rel components apart base after_slash clean split
    join descend prepend dir dir_part join_path has_prefix is_abs equal
move-copy_failed = refl

move-Outcome_example :
    Outcome system paths request (still notes) world (move system paths (still notes) request world)
move-Outcome_example = move-Outcome system paths request (still notes) world

move-IsDone_example :
    IsDone
      (text "/n")
      (text "/e/n")
      notes
      (copy_of system notes)
      (move system paths (still notes) request world)
move-IsDone_example =
    move-IsDone system paths request (text "/n") (text "/e/n") notes world (λ n. refl) refl
      validate-request (tt, tt) refl refl

inside_iff_example :
    (inside (rooted (text "n" ∷ [])) (rooted (text "n" ∷ text "b" ∷ [])) ≡ true)
    ↔ IsBelow (text "n" ∷ []) (text "n" ∷ text "b" ∷ [])
unfolding equal
inside_iff_example =
    inside_iff (text "n" ∷ []) (text "n" ∷ text "b" ∷ []) (plain, tt) (plain, (also_plain, tt))
  where
    plain : IsSegment (text "n")
    plain = (refl, refl, refl, refl)

    also_plain : IsSegment (text "b")
    also_plain = (refl, refl, refl, refl)
