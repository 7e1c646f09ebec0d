-- ===== src/NoteMove/Manifest/Equal.antt =====
-- internal/notemove/move.go: equalManifest compares the entries of two manifests.
use mathlib.Core.List.Permᴰ
use mathlib.Core.List.{Permᴰ}
use imoogi_emacs.Prelude.{
  equal_iff, equal_refl, ==_refl, ==_iff, Bool, true, ◌&&◌, List, ◌∷◌, ◌≡◌, ◌↔◌, refl, sym, ap,
  subst, arith,
}
use imoogi_emacs.Prelude.Sort.{sort, sort-Permᴰ}
use imoogi_emacs.NoteMove.Manifest.{
  ManifestEntry, Tally, by_path, same_entry, equal_manifest, same_manifest,
}

split_and :
    {a b c d : Bool} → (a && b && c && d) ≡ true → (a ≡ true) × (b ≡ true) × (c ≡ true) × (d ≡ true)
split_and h = ground arith

same_parts :
    {a b : ManifestEntry}
    → a.path ≡ b.path
    → a.kind ≡ b.kind
    → a.digest ≡ b.digest
    → a.size ≡ b.size
    → a ≡ b
same_parts p k d s = cc

same_entry_iff : (a b : ManifestEntry) → (same_entry a b ≡ true) ↔ (a ≡ b)
same_entry_iff a b = (
  λ h.
      let e = split_and h in
      same_parts ((equal_iff _ _).0 e.0) ((equal_iff _ _).0 e.1) ((equal_iff _ _).0 e.2)
        ((==_iff _ _).0 e.3),
  λ e.
      subst (λ b. same_entry a b ≡ true) e
        (rw (equal_refl a.path, equal_refl a.kind, equal_refl a.digest, ==_refl) refl),
)

equal_manifest_iff : (l m : List ManifestEntry) → (equal_manifest l m ≡ true) ↔ (l ≡ m)
unfolding equal_manifest
equal_manifest_iff (a ∷ l) (b ∷ m) = ground (arith, same_entry_iff a b, equal_manifest_iff l m)
equal_manifest_iff _ _ = ground arith

-- Two tallies whose manifests are equal have the same entries, and the other way round.
pub same_manifest-Permᴰ : (t u : Tally) → same_manifest t u ≡ true → Permᴰ t.entries u.entries
unfolding same_manifest
same_manifest-Permᴰ t u h = Permᴰ.trans (sort-Permᴰ by_path t.entries) (
    subst (λ l. Permᴰ l u.entries) (sym ((equal_manifest_iff _ _).0 h))
      (Permᴰ.symm (sort-Permᴰ by_path u.entries)))

pub same_manifest_refl : (t u : Tally) → t.entries ≡ u.entries → same_manifest t u ≡ true
unfolding same_manifest
same_manifest_refl t u e = (equal_manifest_iff _ _).1 (ap (sort by_path) e)
