-- ===== src/Clipboard/Publisher/Saving.antt =====
-- internal/clipboard/publish.go: compensate and saveAssetCache change no file that was there,
-- but for the index.
use mathlib.Core.List.{reverse, reverse-cons}
use imoogi_emacs.Prelude.{
  ◌+◌, Text, equal, equal_sym, Bool, true, false, Option, none, some, List, [], ◌∷◌, take, ◌≡◌,
  refl, sym, subst, All, All-append, Bool-cases, inl, inr,
}
use imoogi_emacs.Clipboard.Protocol.{Asset}
use imoogi_emacs.Clipboard.Publisher.{File, Files, Room, System, asset_index_filename, tick}
use imoogi_emacs.Clipboard.Publisher.Publish.{
  PublishResult, Outcome, rejected, failed, needs_reconciliation, published, standing, withdraw,
  withdraw_each, compensate, failure_of, abandon, written, renamed, save_to, save_with,
  save_asset_cache,
}
use imoogi_emacs.Clipboard.Publisher.Search.{
  Extends, put-Extends, delete-Extends, Stands, remove-Extends,
}

-- nothing but the index is replaced or removed
abbrev pub KeepsAssets : Files → Files → Type 0
KeepsAssets t t' =
    (p : Text) (f : File) → equal p asset_index_filename ≡ false → t p ≡ some f → t' p ≡ some f

-- every asset stands in the root, unless it bears the name of the index
abbrev pub AllStand : Files → List Asset → Type 0
AllStand t =
    All (λ a. equal a.relative_path asset_index_filename ≡ false → Stands t a.relative_path)

abbrev pub IsKept : Files → Outcome × Room → Type 0
IsKept t (published result, r) =
    KeepsAssets t r.files
    × AllStand r.files result.assets
    × All (λ name. t name ≡ none) result.created_files
IsKept t (rejected e, r) = Extends t r.files
IsKept t (failed, r) = Extends t r.files
IsKept t (needs_reconciliation result, r) = Extends t r.files

All-reverse : {A : Type 0} (P : A → Type 0) (l : List A) → All P l → All P (reverse l)
All-reverse P [] h = tt
All-reverse P (a ∷ l) h =
    subst (All P) (sym (reverse-cons a l))
      (All-append P (reverse l) (a ∷ []) (All-reverse P l h.1) (h.0, tt))

module _ (sys : System) (t : Files) where
  withdraw-Extends :
      (name : Text) (r : Room)
      → t name ≡ none
      → Extends t r.files
      → Extends t (withdraw sys name r).1.files
  withdraw-Extends name r free e = stands (r.files name)
    where
      stands : (o : Option File) → Extends t (standing sys name r o).1.files
      stands none = e
      stands (some f) = remove-Extends sys t name r free e

  withdraw_each-Extends :
      (names : List Text) (r : Room)
      → All (λ name. t name ≡ none) names
      → Extends t r.files
      → Extends t (withdraw_each sys names r).1.files
  unfolding withdraw_each
  withdraw_each-Extends [] r free e = e
  withdraw_each-Extends (name ∷ names) r free e =
      withdraw_each-Extends names (withdraw sys name r).1 free.1 (withdraw-Extends name r free.0 e)

  failure_of-IsKept :
      (result : PublishResult) (orphans : List Text) (r : Room)
      → Extends t r.files
      → IsKept t (failure_of result orphans, r)
  failure_of-IsKept result [] r e = e
  failure_of-IsKept result (o ∷ os) r e = e

  pub abandon-IsKept :
      (result : PublishResult) (r : Room)
      → All (λ name. t name ≡ none) result.created_files
      → Extends t r.files
      → IsKept t (abandon sys result r)
  unfolding abandon compensate
  abandon-IsKept result r free e = failure_of-IsKept result _ _ (
      withdraw_each-Extends (reverse result.created_files) r
        (All-reverse _ result.created_files free) e)

module _ (sys : System)
    (temporary_free : (u : Files) (name : Text) → sys.temporary u ≡ some name → u name ≡ none) where
  -- Writing the index changes no other file, and nothing at all if it fails.
  abbrev pub SavePost : Files → Bool × Room → Type 0
  SavePost t (true, r) = KeepsAssets t r.files
  SavePost t (false, r) = Extends t r.files

  renamed-KeepsAssets :
      (t : Files) (temporary : Text) (f : File) (r : Room)
      → t temporary ≡ none
      → Extends t r.files
      → KeepsAssets t (renamed temporary f r).files
  renamed-KeepsAssets t temporary f r free e p g other h =
      rw (equal_sym asset_index_filename p, other) (delete-Extends t r.files temporary free e p g h)

  save_to-SavePost :
      (t : Files) (temporary json : Text) (r : Room)
      → t temporary ≡ none
      → Extends t r.files
      → SavePost t (save_to sys temporary json r)
  unfolding save_to
  save_to-SavePost t temporary json r free e = elim (Bool-cases (sys.fails r.calls)) [
    | inl a ↦ rw a (
        remove-Extends sys t temporary (written sys temporary (take sys.kept json) r) free
          (put-Extends t r.files temporary _ free e))
    | inr a ↦ elim (Bool-cases (sys.fails (r.calls + 1))) [
      | inl b ↦ rw (a, b) (remove-Extends sys t temporary (tick r') free put)
      | inr b ↦ elim (Bool-cases (sys.fails (r.calls + 2))) [
        | inl c ↦ rw (a, b, c) (remove-Extends sys t temporary (tick (tick r')) free put)
        | inr c ↦ elim (Bool-cases (sys.fails (r.calls + 3))) [
          | inl d ↦
              rw (a, b, c, d) (remove-Extends sys t temporary (tick (tick (tick r'))) free put)
          | inr d ↦ rw (a, b, c, d) (renamed-KeepsAssets t temporary _ (tick (tick r')) free put)
        ]
      ]
    ]
  ]
    where
      r' : Room
      r' = written sys temporary json r

      put : Extends t r'.files
      put = put-Extends t r.files temporary _ free e

  save_with-SavePost :
      (r : Room) (o : Option Text)
      → sys.temporary r.files ≡ o
      → SavePost r.files (save_with sys r o)
  save_with-SavePost r none e = λ p f h. h
  save_with-SavePost r (some temporary) e =
      let free = temporary_free r.files temporary e in
      save_to-SavePost r.files temporary (sys.encode r.cache) (written sys temporary [] r) free
        (put-Extends r.files r.files temporary _ free (λ p f h. h))

  pub save_asset_cache-SavePost : (r : Room) → SavePost r.files (save_asset_cache sys r)
  unfolding save_asset_cache
  save_asset_cache-SavePost r = elim (Bool-cases (sys.fails r.calls)) [
    | inl a ↦ rw a (λ p f h. h)
    | inr a ↦ rw a (save_with-SavePost r (sys.temporary r.files) refl)
  ]
