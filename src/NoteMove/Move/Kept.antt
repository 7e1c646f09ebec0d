-- ===== src/NoteMove/Move/Kept.antt =====
-- internal/notemove/move.go: a move ends with a verified copy, or with the source where it was.
use mathlib.Core.List.{Permᴰ}
use imoogi_emacs.Prelude.{
  ℕ, ◌+◌, Text, text, equal, equal_iff, Bool, true, false, Option, none, some, [], ◌≡◌, refl, ap,
  ◌∙◌, subst, arith, Bool-cases, inl, inr,
}
use imoogi_emacs.NoteMove.System.{Entries, Folder, System}
use imoogi_emacs.NoteMove.Manifest.{Tally, nothing, manifest}
use imoogi_emacs.NoteMove.Manifest.Listing.{IsPlain, listing, Grown, manifest-some}
use imoogi_emacs.NoteMove.Manifest.Equal.{same_manifest-Permᴰ}
use imoogi_emacs.NoteMove.Copy.{copy_tree}
use imoogi_emacs.NoteMove.Copy.Faithful.{copy_of, copy_tree_done, listing-under_umask}
use imoogi_emacs.NoteMove.Validate.{Paths, validate}
use imoogi_emacs.NoteMove.Move.{
  Request, source_read_failed, copy_failed, source_changed, verification_failed, World, Readings,
  agrees, on_verified, on_recheck, on_copied, stage, on_manifest, on_paths, move,
}
use imoogi_emacs.NoteMove.Move.Commit.{
  Verified, Outcome, Idle, Idle-Untouched, abandon-Outcome, commit-Outcome,
}

module _ (sys : System) (paths : Paths) (request : Request) (seen : Readings) (w : World) where
  -- a manifest that agrees with the first one lists the same entries
  agrees-Permᴰ :
      (t : Tally) (es : Entries) (n : ℕ)
      → t.entries ≡ listing sys [] seen.before.entries
      → agrees t (manifest sys es n).0 ≡ true
      → Permᴰ (listing sys [] seen.before.entries) (listing sys [] es)
  agrees-Permᴰ t es n e h = listed (manifest sys es n) refl h
    where
      listed :
          (o : Option Tally × ℕ)
          → manifest sys es n ≡ o
          → agrees t o.0 ≡ true
          → Permᴰ (listing sys [] seen.before.entries) (listing sys [] es)
      listed (none, m) f k = cc
      listed (some u, m) f k =
          subst (λ l. Permᴰ l (listing sys [] es)) e
            (subst (Permᴰ t.entries) (manifest-some sys es n f).entries (same_manifest-Permᴰ t u k))

  module _ (source destination : Text) (t : Tally) (asked : request.operation ≡ text "move")
      (admitted : validate paths request.source request.destination ≡ some (source, destination))
      (first : Grown sys [] seen.before.entries nothing t) where
    verified :
        IsPlain seen.copied.entries
        → Permᴰ (listing sys [] seen.before.entries) (listing sys [] seen.copied.entries)
        → Permᴰ (listing sys [] seen.before.entries) (listing sys [] seen.after.entries)
        → Verified sys paths request seen w source destination t.files t.bytes
    verified p b a = record {
      asked = asked;
      admitted = admitted;
      plain = p;
      before = b;
      after = a;
      files_count = omega (arith, first.files);
      bytes_total = omega (arith, first.bytes);
    }

    copied-Outcome :
        (v : World)
        → Idle sys paths request seen w v
        → (o : Bool × Folder × ℕ)
        → ((o.0 ≡ true) → (o.1 ≡ copy_of sys seen.copied) × IsPlain seen.copied.entries)
        → Outcome sys paths request seen w (on_copied sys source destination t seen.after v o)
    copied-Outcome v i (false, copy, n) whole =
        abandon-Outcome sys paths request seen w copy_failed
          (record v { staging = some copy; calls = n })
          (record { source = i.source; tombstone = i.tombstone; dest = i.dest })
    copied-Outcome v i (true, copy, n) whole =
        rechecked (manifest sys seen.after.entries n)
          (agrees-Permᴰ t seen.after.entries n first.entries)
      where
        exact : (copy ≡ copy_of sys seen.copied) × IsPlain seen.copied.entries
        exact = whole refl

        at : Folder → ℕ → World
        at f k = record v { staging = some f; calls = k }

        idle : (k : ℕ) → Idle sys paths request seen w (at copy k)
        idle k = record { source = i.source; tombstone = i.tombstone; dest = i.dest }

        copy_listing : listing sys [] copy.entries ≡ listing sys [] seen.copied.entries
        copy_listing =
            ap (λ f. listing sys [] f.entries) exact.0
            ∙ listing-under_umask sys [] seen.copied.entries

        compared :
            Permᴰ (listing sys [] seen.before.entries) (listing sys [] seen.after.entries)
            → (o : Option Tally × ℕ)
            → (agrees t o.0 ≡ true
                → Permᴰ (listing sys [] seen.before.entries) (listing sys [] copy.entries))
            → (k : ℕ)
            → Outcome sys paths request seen w
                (on_verified sys source destination t copy (at copy k) o)
        compared after (o, m) same k = elim (Bool-cases (agrees t o)) [
          | inl e ↦ rw e (
              commit-Outcome sys paths request seen w source destination t
                (verified exact.1 (subst (Permᴰ _) copy_listing (same e)) after) copy exact.0
                (at copy m) (idle m))
          | inr e ↦
              rw e
                (abandon-Outcome sys paths request seen w verification_failed (at copy m) (idle m))
        ]

        rechecked :
            (o : Option Tally × ℕ)
            → (agrees t o.0 ≡ true
                → Permᴰ (listing sys [] seen.before.entries) (listing sys [] seen.after.entries))
            → Outcome sys paths request seen w
                (on_recheck sys source destination t copy (at copy n) o)
        rechecked (o, m) same = elim (Bool-cases (agrees t o)) [
          | inl e ↦ rw e (
              compared (same e) (manifest sys copy.entries m)
                (agrees-Permᴰ t copy.entries m first.entries) n)
          | inr e ↦
              rw e (abandon-Outcome sys paths request seen w source_changed (at copy m) (idle m))
        ]

    stage-Outcome :
        (v : World)
        → Idle sys paths request seen w v
        → Outcome sys paths request seen w (stage sys source destination seen t v)
    unfolding stage
    stage-Outcome v i = elim (Bool-cases (sys.fails v.calls)) [
      | inl e ↦ rw e (record { source = i.source; tombstone = i.tombstone; dest = inl i.dest })
      | inr e ↦ rw e (
          copied-Outcome v i (copy_tree sys seen.copied (v.calls + 1))
            (copy_tree_done sys seen.copied (v.calls + 1)))
    ]

  started : (n : ℕ) → Idle sys paths request seen w (record w { calls = n })
  started n = record { source = refl; tombstone = refl; dest = refl }

  manifest-Outcome :
      (source destination : Text)
      → request.operation ≡ text "move"
      → validate paths request.source request.destination ≡ some (source, destination)
      → (o : Option Tally × ℕ) → manifest sys seen.before.entries w.calls ≡ o
      → Outcome sys paths request seen w (on_manifest sys source destination seen w o)
  manifest-Outcome source destination a v (none, n) e =
      Idle-Untouched sys paths request seen w source_read_failed (started n)
  manifest-Outcome source destination a v (some t, n) e =
      stage-Outcome source destination t a v (manifest-some sys seen.before.entries w.calls e)
        (record w { calls = n }) (started n)

  paths-Outcome :
      request.operation ≡ text "move"
      → (o : Option (Text × Text)) → validate paths request.source request.destination ≡ o
      → Outcome sys paths request seen w (on_paths sys seen w o)
  paths-Outcome a none e = record { source = refl; tombstone = refl; dest = inl refl }
  paths-Outcome a (some (source, destination)) e =
      manifest-Outcome source destination a e (manifest sys seen.before.entries w.calls) refl

-- A move that is reported as done was asked for with paths that validate admits, and leaves at the
-- destination, where nothing or an empty directory was, the copy of the tree as it was read: its
-- entries are those of the source as both manifests read it, with the same names, contents by their
-- digests and links, and the counts of files and bytes are right. The source is gone, and so is the
-- marker unless a warning is given. After any failure the source and the marker are as they were, and
-- the destination too, unless the copy was already there: then it was removed, or the removal failed.
-- This holds whatever calls fail and whatever was written to the source in between.
pub move-Outcome :
    (sys : System) (paths : Paths) (request : Request) (seen : Readings) (w : World)
    → Outcome sys paths request seen w (move sys paths seen request w)
unfolding move
move-Outcome sys paths request seen w = elim (Bool-cases (equal request.operation (text "move"))) [
  | inl e ↦ rw e (
      paths-Outcome sys paths request seen w ((equal_iff request.operation _).0 e)
        (validate paths request.source request.destination) refl)
  | inr e ↦ rw e (record { source = refl; tombstone = refl; dest = inl refl })
]
