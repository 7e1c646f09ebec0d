-- ===== src/NoteMove/Move/Commit.antt =====
-- internal/notemove/move.go: what the end of Move does to the source and the destination, once the copy
-- is verified.
use mathlib.Core.Option
use mathlib.Core.List.{Permᴰ}
use Prim.Native.Nat.{◌%◌, ◌^◌}
use imoogi_emacs.Prelude.{
  ℕ, ◌+◌, Text, text, Bool, true, false, if◌then◌else◌, Option, none, some, List, [], ◌≡◌, ◌⊎◌,
  refl, sym, ap, ◌∙◌, subst, Bool-cases, inl, inr,
}
use imoogi_emacs.NoteMove.System.{Folder, System}
use imoogi_emacs.NoteMove.Manifest.{ManifestEntry, Tally}
use imoogi_emacs.NoteMove.Manifest.Listing.{IsPlain, count, total, listing}
use imoogi_emacs.NoteMove.Copy.Faithful.{copy_of}
use imoogi_emacs.NoteMove.Validate.{Paths, validate}
use imoogi_emacs.NoteMove.Move.{
  Request, Code, source_commit_failed, destination_commit_failed, moved, failed, World, Readings,
  Ended, tick, is_empty, discard, abandon, withdraw, clean_up, retire, mark, renamed, commit,
}

-- nothing stands there, or an empty directory
abbrev pub IsFree : Option Folder → Type 0
IsFree none = Unit
IsFree (some f) = is_empty f.entries ≡ true

module _ (sys : System) (paths : Paths) (request : Request) (seen : Readings) (w : World) where
  abbrev pub source_listing : Folder → List ManifestEntry
  source_listing f = listing sys [] f.entries

  -- the request and its paths are admitted, and the copy and the counts that are reported are of the tree that was read each time
  pub record Verified (source destination : Text) (files bytes : ℕ) : Type 0 where
    pub asked : request.operation ≡ text "move"
    pub admitted : validate paths request.source request.destination ≡ some (source, destination)
    pub plain : IsPlain seen.copied.entries
    pub before : Permᴰ (source_listing seen.before) (source_listing seen.copied)
    pub after : Permᴰ (source_listing seen.before) (source_listing seen.after)
    pub files_count : files ≡ count seen.before.entries
    pub bytes_total : bytes % 2 ^ 64 ≡ total seen.before.entries % 2 ^ 64

  -- The source is gone and its copy stands at the destination, where nothing was lost; the marker is
  -- removed, unless a warning says that it is not.
  pub record Moved (source destination : Text) (files bytes : ℕ) (warned : Bool) (w' : World)
      : Type 0 where
    pub verified : Verified source destination files bytes
    pub stands : w'.dest ≡ some (copy_of sys seen.copied)
    pub retired : w'.source ≡ none
    pub free : IsFree w.dest
    pub unmarked : w.tombstone ≡ none
    pub cleared : warned ≡ false → w'.tombstone ≡ none
    pub pending : warned ≡ true → w'.tombstone ≡ Option.map sys.left w.source

  -- the destination after the copy was taken back
  abbrev pub IsWithdrawn : Option Folder → Type 0
  IsWithdrawn dest = (dest ≡ none) ⊎ (dest ≡ some (sys.left (copy_of sys seen.copied)))

  -- The source and the marker are as they were, and so is the destination, but for a copy that was put
  -- where nothing was and taken back.
  pub record Untouched (code : Code) (w' : World) : Type 0 where
    pub source : w'.source ≡ w.source
    pub tombstone : w'.tombstone ≡ w.tombstone
    pub dest :
        (w'.dest ≡ w.dest) ⊎ ((code ≡ source_commit_failed) × IsFree w.dest × IsWithdrawn w'.dest)

  abbrev pub Outcome : Ended → Type 0
  Outcome (failed code, w') = Untouched code w'
  Outcome (moved source destination files bytes warned, w') =
      Moved source destination files bytes warned w'

  -- nothing has been done yet but in the staging directory
  pub record Idle (v : World) : Type 0 where
    pub source : v.source ≡ w.source
    pub tombstone : v.tombstone ≡ w.tombstone
    pub dest : v.dest ≡ w.dest

  pub Idle-Untouched : {v : World} (code : Code) → Idle v → Untouched code v
  Idle-Untouched code i = record { source = i.source; tombstone = i.tombstone; dest = inl i.dest }

  discard-Idle : (v : World) → Idle v → Idle (discard sys v)
  unfolding discard
  discard-Idle v i = elim (Bool-cases (sys.fails v.calls)) [
    | inl e ↦ rw e (record { source = i.source; tombstone = i.tombstone; dest = i.dest })
    | inr e ↦ rw e (record { source = i.source; tombstone = i.tombstone; dest = i.dest })
  ]

  pub abandon-Outcome : (code : Code) (v : World) → Idle v → Outcome (abandon sys code v)
  abandon-Outcome code v i = Idle-Untouched code (discard-Idle v i)

  -- the copy stands at the destination
  record Placed (v : World) : Type 0 where
    source : v.source ≡ w.source
    tombstone : v.tombstone ≡ w.tombstone
    dest : v.dest ≡ some (copy_of sys seen.copied)
    free : IsFree w.dest

  later : (v : World) → Placed v → Placed (tick v)
  later v p = record { source = p.source; tombstone = p.tombstone; dest = p.dest; free = p.free }

  withdraw-Outcome : (v : World) → Placed v → Outcome (withdraw sys v)
  unfolding withdraw
  withdraw-Outcome v p = elim (Bool-cases (sys.fails v.calls)) [
    | inl e ↦ rw e (record {
      source = p.source;
      tombstone = p.tombstone;
      dest = inr (refl, p.free, inr (ap (Option.map sys.left) p.dest));
    })
    | inr e ↦
        rw e (record {
          source = p.source;
          tombstone = p.tombstone;
          dest = inr (refl, p.free, inl refl);
        })
  ]

  module _ (source destination : Text) (t : Tally)
      (verified : Verified source destination t.files t.bytes) where
    retire-Outcome :
        (v : World) → Placed v → w.tombstone ≡ none → Outcome (retire sys source destination t v)
    unfolding retire clean_up
    retire-Outcome v p u = elim (Bool-cases (sys.fails v.calls)) [
      | inl e ↦ rw e (withdraw-Outcome (tick v) (later v p))
      | inr e ↦ elim (Bool-cases (sys.fails (v.calls + 1))) [
        | inl f ↦
            rw (e, f)
              (record {
                verified = verified;
                stands = p.dest;
                retired = refl;
                free = p.free;
                unmarked = u;
                cleared = λ x. cc;
                pending = λ x. ap (Option.map sys.left) p.source;
              })
        | inr f ↦
            rw (e, f)
              (record {
                verified = verified;
                stands = p.dest;
                retired = refl;
                free = p.free;
                unmarked = u;
                cleared = λ x. refl;
                pending = λ x. cc;
              })
      ]
    ]

    mark-Outcome : (v : World) → Placed v → Outcome (mark sys source destination t v)
    unfolding mark
    mark-Outcome v p = elim (Bool-cases (sys.fails v.calls)) [
      | inl e ↦ rw e (withdraw-Outcome (tick v) (later v p))
      | inr e ↦ rw e (marked v.tombstone refl)
    ]
      where
        marked :
            (o : Option Folder)
            → v.tombstone ≡ o
            → Outcome (elim o [
              | some f ↦ withdraw sys (tick v)
              | none ↦ retire sys source destination t (tick v)
            ])
        marked (some f) e = withdraw-Outcome (tick v) (later v p)
        marked none e = retire-Outcome (tick v) (later v p) (sym p.tombstone ∙ e)

    module _ (copy : Folder) (exact : copy ≡ copy_of sys seen.copied) where
      renamed-Placed : (v : World) → Idle v → IsFree w.dest → Placed (renamed copy v)
      renamed-Placed v i free = record {
        source = i.source;
        tombstone = i.tombstone;
        dest = ap some exact;
        free = free;
      }

      tick-Idle : (v : World) → Idle v → Idle (tick v)
      tick-Idle v i = record { source = i.source; tombstone = i.tombstone; dest = i.dest }

      onto :
          (v : World)
          → Idle v
          → (o : Option Folder) → v.dest ≡ o
          → Outcome (elim o [
            | none ↦ mark sys source destination t (renamed copy v)
            | some f ↦
                if is_empty f.entries
                then mark sys source destination t (renamed copy v)
                else abandon sys destination_commit_failed (tick v)
          ])
      onto v i none e =
          mark-Outcome (renamed copy v)
            (renamed-Placed v i (subst IsFree (sym (sym i.dest ∙ e)) tt))
      onto v i (some f) e = elim (Bool-cases (is_empty f.entries)) [
        | inl h ↦ rw h (
            mark-Outcome (renamed copy v)
              (renamed-Placed v i (subst IsFree (sym (sym i.dest ∙ e)) h)))
        | inr h ↦ rw h (abandon-Outcome destination_commit_failed (tick v) (tick-Idle v i))
      ]

      pub commit-Outcome : (v : World) → Idle v → Outcome (commit sys source destination t copy v)
      unfolding commit
      commit-Outcome v i = elim (Bool-cases (sys.fails v.calls)) [
        | inl e ↦ rw e (abandon-Outcome destination_commit_failed (tick v) (tick-Idle v i))
        | inr e ↦ rw e (onto v i v.dest refl)
      ]
