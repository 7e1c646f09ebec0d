-- ===== src/Artifact/Commit/Whole.antt =====
-- internal/artifact/artifact.go and zip.go: an extraction succeeds as a whole or leaves the destination.
use imoogi_emacs.Prelude.{ℕ, none, ◌≡◌, ◌⊎◌}
use imoogi_emacs.Artifact.Paths.{Result, ok, refused}
use imoogi_emacs.Artifact.Headers.{Caps, Progress}
use imoogi_emacs.Artifact.Staging.{Tree, Faults}
use imoogi_emacs.Artifact.Staging.Trees.{IsSafe}
use imoogi_emacs.Artifact.Extract.Contained.{Counted}
use imoogi_emacs.Artifact.Commit.{Destination, absent, empty_dir, unpacked, World}

-- a safe tree stands at the destination, which was absent or empty, with the counts within the limits
pub record Filled (caps : Caps) (before : Destination) (a : ℕ × Progress) (w : World) : Type 0 where
  pub tree : Tree
  pub stands : w.dest ≡ unpacked tree
  pub safe : IsSafe caps.max_file_bytes tree
  pub counted : Counted caps a tree
  pub cleared : w.staged ≡ none
  pub free : (before ≡ absent) ⊎ (before ≡ empty_dir)

-- the destination is as it was, but that an empty directory may be missing
abbrev pub Left : Destination → World → Type 0
Left before w = (w.dest ≡ before) ⊎ ((before ≡ empty_dir) × (w.dest ≡ absent))

abbrev pub IsWhole : Caps → Destination → Result (ℕ × Progress) × World → Type 0
IsWhole caps before (ok a, w) = Filled caps before a w
IsWhole caps before (refused e, w) = Left before w

module _ (faults : Faults) where
  -- what committing gives
  abbrev Committed : Tree → Destination → Result (Unit {0}) × World → Type 0
  Committed t before (ok u, w) =
      (w.dest ≡ unpacked t) × (w.staged ≡ none) × ((before ≡ absent) ⊎ (before ≡ empty_dir))
  Committed t before (refused e, w) = Left before w
