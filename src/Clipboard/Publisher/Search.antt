-- ===== src/Clipboard/Publisher/Search.antt =====
-- internal/clipboard/publish.go: the search for an asset leaves the files of the asset root alone.
use imoogi_emacs.Prelude.{
  ℕ, Text, equal, equal_iff, not, ◌==◌, Option, none, some, List, [], ◌∷◌, length, ◌≡◌, refl, sym,
  ap, ◌∙◌, arith, Bool-cases, inl, inr,
}
use imoogi_emacs.Prelude.Dict.{lookup}
use imoogi_emacs.Clipboard.Publisher.{
  File, Files, put, delete, Room, System, asset_index_filename, tick, recorded, record_asset,
  file_sha256, remove,
}
use imoogi_emacs.Clipboard.Publisher.Place.{
  Found, broken, absent, existing, Placed, cached_hash, on_hash, from_cache, existing_hash,
  on_known, on_content, on_entry, find_in, find_existing_asset,
}

-- nothing is replaced or removed
abbrev pub Extends : Files → Files → Type 0
Extends t t' = (p : Text) (f : File) → t p ≡ some f → t' p ≡ some f

pub no_file : {f : File} → none ≡ some f → ⊥
no_file e = cc

-- A file that is put where none was, and one that is removed where none was at first, leave the rest.
pub put-Extends :
    (t t' : Files) (p : Text) (f : File) → t p ≡ none → Extends t t' → Extends t (put t' p f)
put-Extends t t' p f free e q g h = elim (Bool-cases (equal p q)) [
  | inl s ↦ absurd (no_file (sym free ∙ (ap t ((equal_iff p q).0 s) ∙ h)))
  | inr s ↦ rw s (e q g h)
]

pub delete-Extends : (t t' : Files) (p : Text) → t p ≡ none → Extends t t' → Extends t (delete t' p)
delete-Extends t t' p free e q g h = elim (Bool-cases (equal p q)) [
  | inl s ↦ absurd (no_file (sym free ∙ (ap t ((equal_iff p q).0 s) ∙ h)))
  | inr s ↦ rw s (e q g h)
]

abbrev pub Fresh : Files → Option Text → Type 0
Fresh t none = Unit
Fresh t (some name) = t name ≡ none

abbrev pub Stands : Files → Text → Type 0
Stands t name = (f : File) × (t name ≡ some f)

-- Placing an asset changes no file that stands there; the asset stands, and a file that was made for it
-- was not there before.
abbrev pub Post : Files → Placed × Room → Type 0
Post t (none, r) = Extends t r.files
Post t (some (a, name), r) = Extends t r.files × Stands r.files a.relative_path × Fresh t name

abbrev pub FoundPost : Files → Found × Room → Type 0
FoundPost t (broken, r) = r.files ≡ t
FoundPost t (absent, r) = r.files ≡ t
FoundPost t (existing name, r) = (r.files ≡ t) × Stands t name

module _ (sys : System) where
  pub remove-Extends :
      (t : Files) (name : Text) (r : Room)
      → t name ≡ none
      → Extends t r.files
      → Extends t (remove sys name r).1.files
  unfolding remove
  remove-Extends t name r free e = elim (Bool-cases (sys.fails r.calls)) [
    | inl s ↦ rw s e
    | inr s ↦ rw s (delete-Extends t r.files name free e)
  ]

  pub file_sha256-files : (name : Text) (r : Room) → (file_sha256 sys name r).1.files ≡ r.files
  unfolding file_sha256
  file_sha256-files name r = ground arith

  recorded-files :
      (name : Text) (size : ℕ) (hash : Text) (r : Room) (o : Option File)
      → (recorded name size hash r o).files ≡ r.files
  recorded-files name size hash r none = refl
  recorded-files name size hash r (some f) = refl

  pub record_asset-files :
      (name : Text) (size : ℕ) (hash : Text) (r : Room)
      → (record_asset sys name size hash r).files ≡ r.files
  unfolding record_asset
  record_asset-files name size hash r = elim (Bool-cases (sys.fails r.calls)) [
    | inl s ↦ rw s refl
    | inr s ↦ rw s (recorded-files name size hash (tick r) (r.files name))
  ]

  on_hash-files :
      (name want : Text) (size : ℕ) (f : File) (o : Option Text × Room)
      → (on_hash sys name want size f o).1.files ≡ o.1.files
  on_hash-files name want size f (none, r) = refl
  on_hash-files name want size f (some hash, r) = refl

  from_cache-files :
      (name want : Text) (size : ℕ) (f : File) (r : Room) (o : Option Text)
      → (from_cache sys name want size f r o).1.files ≡ r.files
  from_cache-files name want size f r (some hash) = refl
  from_cache-files name want size f r none =
      on_hash-files name want size f (file_sha256 sys name r) ∙ file_sha256-files name r

  module _ (t : Files) (size : ℕ) (want name : Text) (next : Room → Found × Room)
      (further : (r : Room) → r.files ≡ t → FoundPost t (next r)) where
    on_known-Post :
        (o : Option Text × Room)
        → o.1.files ≡ t
        → Stands t name
        → FoundPost t (on_known sys name want next o)
    on_known-Post (none, r) e s = e
    on_known-Post (some hash, r) e s = elim (Bool-cases (equal hash want)) [
      | inl h ↦ rw h (e, s)
      | inr h ↦ rw h (further r e)
    ]

    on_content-Post :
        (f : File) (o : Option Text) (r : Room)
        → r.files ≡ t
        → t name ≡ some f
        → FoundPost t (on_content sys name want size f next o r)
    on_content-Post f none r e s = further r e
    on_content-Post f (some c) r e s = elim (Bool-cases (not (length c == size))) [
      | inl h ↦ rw h (further r e)
      | inr h ↦ rw h (
          on_known-Post (existing_hash sys name want size f r)
            (from_cache-files name want size f r (cached_hash size f (lookup name r.cache)) ∙ e)
            (f, s))
    ]

    on_entry-Post :
        (o : Option File) (r : Room)
        → r.files ≡ t
        → t name ≡ o
        → FoundPost t (on_entry sys name want size next o r)
    on_entry-Post none r e s = e
    on_entry-Post (some f) r e s = on_content-Post f f.content r e s

  find_in-Post :
      (t : Files) (size : ℕ) (want : Text) (names : List Text) (r : Room)
      → r.files ≡ t
      → FoundPost t (find_in sys size want names r)
  unfolding find_in
  find_in-Post t size want [] r e = e
  find_in-Post t size want (name ∷ names) r e =
      elim (Bool-cases (equal name asset_index_filename)) [
        | inl h ↦ rw h (find_in-Post t size want names r e)
        | inr h ↦ elim (Bool-cases (sys.fails r.calls)) [
          | inl k ↦ rw (h, k) e
          | inr k ↦
              rw (h, k)
                (on_entry-Post t size want name (find_in sys size want names)
                  (find_in-Post t size want names) (r.files name) (tick r) e
                  (ap (λ u. u name) (sym e)))
        ]
      ]

  pub find_existing_asset-Post :
      (t : Files) (size : ℕ) (want : Text) (r : Room)
      → r.files ≡ t
      → FoundPost t (find_existing_asset sys size want r)
  unfolding find_existing_asset
  find_existing_asset-Post t size want r e = elim (Bool-cases (sys.fails r.calls)) [
    | inl h ↦ rw h e
    | inr h ↦ rw h (find_in-Post t size want (sys.listed r.calls) (tick r) e)
  ]
