-- ===== src/NoteMove/Move/Complete.antt =====
-- internal/notemove/move.go: a move succeeds when nothing interferes.
use Prim.Native.Nat.{◌%◌, ◌^◌}
use imoogi_emacs.Prelude.{
  ℕ, ◌+◌, Text, text, equal_refl, Bool, true, false, none, some, [], ◌≡◌, refl, sym, ◌∙◌, arith,
}
use imoogi_emacs.NoteMove.System.{Entries, empty, directory, file, symlink, special, Folder, System}
use imoogi_emacs.NoteMove.Manifest.{Tally, nothing, same_manifest}
use imoogi_emacs.NoteMove.Manifest.Listing.{
  IsPlain, count, total, listing, Grown, manifest-some, manifest_works,
}
use imoogi_emacs.NoteMove.Manifest.Equal.{same_manifest_refl}
use imoogi_emacs.NoteMove.Copy.{copy_tree}
use imoogi_emacs.NoteMove.Copy.Faithful.{
  under_umask, copy_of, copy_tree_done, copy_tree_works, listing-under_umask,
}
use imoogi_emacs.NoteMove.Validate.{Paths, validate}
use imoogi_emacs.NoteMove.Move.{
  Request, moved, World, Readings, Ended, tick, mark, retire, clean_up, commit, on_copied, stage,
  move,
}

-- a tree that is read alike each time
abbrev pub still : Folder → Readings
still f = record { before = f; copied = f; after = f }

-- the response and the world of a move without a warning
abbrev pub IsDone : Text → Text → Folder → Folder → Ended → Type 0
IsDone source destination f copy o =
    (files : ℕ) × (bytes : ℕ) × (calls : ℕ) × (files ≡ count f.entries)
    × (bytes % 2 ^ 64 ≡ total f.entries % 2 ^ 64)
    × (o ≡ (
      moved source destination files bytes false,
      record { source = none; dest = some copy; staging = none; tombstone = none; calls = calls },
    ))

module _ (sys : System) (works : (n : ℕ) → sys.fails n ≡ false) (source destination : Text)
    (f : Folder) (plain : IsPlain f.entries) where
  same :
      (u : Tally) (es : Entries)
      → Grown sys [] f.entries nothing u
      → (v : Tally) → Grown sys [] es nothing v
      → listing sys [] es ≡ listing sys [] f.entries
      → same_manifest u v ≡ true
  same u es g v h e = same_manifest_refl u v (g.entries ∙ (sym e ∙ sym h.entries))

  commit-IsDone :
      (t : Tally) (copy : Folder) (w : World)
      → Grown sys [] f.entries nothing t
      → w.dest ≡ none
      → w.tombstone ≡ none
      → IsDone source destination f copy (commit sys source destination t copy w)
  unfolding commit mark retire clean_up
  commit-IsDone t copy w g d m = (
    t.files,
    t.bytes,
    w.calls + 1 + 1 + 1 + 1,
    omega (arith, g.files),
    omega (arith, g.bytes),
    rw
        (
          works w.calls,
          d,
          works (w.calls + 1),
          m,
          works (w.calls + 1 + 1),
          works (w.calls + 1 + 1 + 1),
        )
        refl,
  )

  -- the copy is plain too
  IsPlain-under_umask : (es : Entries) → IsPlain es → IsPlain (under_umask sys es)
  IsPlain-under_umask empty p = tt
  IsPlain-under_umask (directory name perm inside rest) p =
      (IsPlain-under_umask inside p.0, IsPlain-under_umask rest p.1)
  IsPlain-under_umask (file name perm time content rest) p = IsPlain-under_umask rest p
  IsPlain-under_umask (symlink name target rest) p = IsPlain-under_umask rest p
  IsPlain-under_umask (special name rest) p = elim p [ ]

  copied-IsDone :
      (t : Tally) (w : World)
      → Grown sys [] f.entries nothing t
      → w.dest ≡ none
      → w.tombstone ≡ none
      → (n : ℕ)
      → IsDone source destination f
          (copy_of sys f)
          (on_copied sys source destination t f w (true, copy_of sys f, n))
  copied-IsDone t w g d m n =
      let (u, k, e) = manifest_works sys works f.entries n plain in
      let (v, j, h) =
        manifest_works sys works (under_umask sys f.entries) k
          (IsPlain-under_umask f.entries plain) in
      rw
        (
          e,
          same t f.entries g u (manifest-some sys f.entries n e) refl,
          h,
          same t (under_umask sys f.entries) g v (manifest-some sys (under_umask sys f.entries) k h)
              (listing-under_umask sys [] f.entries),
        )
        (commit-IsDone t (copy_of sys f) (record w { staging = some (copy_of sys f); calls = j }) g
          d m)

  whole :
      (o : Bool × Folder × ℕ)
      → o.0 ≡ true
      → o.1 ≡ copy_of sys f
      → (n : ℕ) × (o ≡ (true, copy_of sys f, n))
  whole (b, copy, n) e h = (n, cc)

  stage-IsDone :
      (t : Tally) (w : World)
      → Grown sys [] f.entries nothing t
      → w.dest ≡ none
      → w.tombstone ≡ none
      → IsDone source destination f (copy_of sys f) (stage sys source destination (still f) t w)
  unfolding stage
  stage-IsDone t w g d m =
      let done = copy_tree_works sys works f (w.calls + 1) plain in
      let (n, e) =
        whole (copy_tree sys f (w.calls + 1)) done (copy_tree_done sys f (w.calls + 1) done).0 in
      rw (works w.calls, e) (copied-IsDone t (tick w) g d m n)

-- A move of a tree of directories, files and links, with paths that validate admits, succeeds when no
-- call fails, nothing stands at the destination or the marker, and nobody writes to the tree: the copy
-- stands at the destination, nothing else is left, and the response counts the files and their bytes.
pub move-IsDone :
    (sys : System) (paths : Paths) (request : Request) (source destination : Text) (f : Folder)
    (w : World)
    → ((n : ℕ) → sys.fails n ≡ false)
    → request.operation ≡ text "move"
    → validate paths request.source request.destination ≡ some (source, destination)
    → IsPlain f.entries
    → w.dest ≡ none
    → w.tombstone ≡ none
    → IsDone source destination f (copy_of sys f) (move sys paths (still f) request w)
unfolding move
move-IsDone sys paths request source destination f w works asked admitted plain d m =
    let (t, n, e) = manifest_works sys works f.entries w.calls plain in
    rw (asked, equal_refl, admitted, e)
      (stage-IsDone sys works source destination f plain t (record w { calls = n })
        (manifest-some sys f.entries w.calls e) d m)
