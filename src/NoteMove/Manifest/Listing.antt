-- ===== src/NoteMove/Manifest/Listing.antt =====
-- internal/notemove/move.go: a manifest lists the whole tree, and equalManifest compares two of them.
use Prim.Native.Nat.{◌%◌, ◌^◌}
use mathlib.Core.List.{append_assoc, append-nil}
use imoogi_emacs.Prelude.{
  ℕ, ◌+◌, Text, false, Option, none, some, List, [], ◌∷◌, ◌++◌, length, ◌≡◌, refl, sym, ap, ◌∙◌,
  subst, arith,
}
use imoogi_emacs.NoteMove.System.{
  Entries, empty, directory, file, symlink, special, System, Io, proceed, call,
}
use imoogi_emacs.NoteMove.Manifest.{
  ManifestEntry, Tally, nothing, below, directory_entry, symlink_entry, file_entry, append,
  append_file, read_file, walk, manifest,
}

-- nothing but directories, files and links
abbrev pub IsPlain : Entries → Type 0
IsPlain empty = Unit
IsPlain (directory name perm inside rest) = IsPlain inside × IsPlain rest
IsPlain (file name perm time content rest) = IsPlain rest
IsPlain (symlink name target rest) = IsPlain rest
IsPlain (special name rest) = ⊥

-- the files, and the bytes in them
abbrev pub count : Entries → ℕ
count empty = 0
count (directory name perm inside rest) = count inside + count rest
count (file name perm time content rest) = 1 + count rest
count (symlink name target rest) = count rest
count (special name rest) = count rest

abbrev pub total : Entries → ℕ
total empty = 0
total (directory name perm inside rest) = total inside + total rest
total (file name perm time content rest) = length content + total rest
total (symlink name target rest) = total rest
total (special name rest) = total rest

-- a chain that succeeds has a first step that does
pub proceed-some :
    {A B : Type 0} (o : Option A × ℕ) (f : A → Io B) {b : B} {m : ℕ}
    → proceed o f ≡ (some b, m)
    → (a : A) × (n : ℕ) × (o ≡ (some a, n)) × (f a n ≡ (some b, m))
proceed-some (none, n) f h = cc
proceed-some (some a, n) f h = (a, n, refl, h)

pub given_eq :
    {A : Type 0} {a b : A} {k m : ℕ} → ◌≡◌ {A = Option A × ℕ} (some a, k) (some b, m) → a ≡ b
given_eq e = cc

module _ (sys : System) where
  -- the entries of a tree below a path, each with its whole path
  unfoldable pub listing : Text → Entries → List ManifestEntry
  listing at empty = []
  listing at (directory name perm inside rest) =
      directory_entry (below at name) ∷ (listing (below at name) inside ++ listing at rest)
  listing at (file name perm time content rest) =
      file_entry sys (below at name) content ∷ listing at rest
  listing at (symlink name target rest) = symlink_entry (below at name) target ∷ listing at rest
  listing at (special name rest) = listing at rest

  pub call-some : {A : Type 0} (a : A) (n : ℕ) {b : A} {m : ℕ} → call sys a n ≡ (some b, m) → b ≡ a
  call-some a n h = ground arith

  pub read_file-some :
      (c : Text) (n : ℕ) {b : Text} {m : ℕ} → read_file sys c n ≡ (some b, m) → b ≡ c
  unfolding read_file
  read_file-some c n h = ground arith

  -- what a walk of a tree adds to a tally
  pub record Grown (at : Text) (es : Entries) (t u : Tally) : Type 0 where
    pub entries : u.entries ≡ t.entries ++ listing at es
    pub files : u.files ≡ t.files + count es
    pub bytes : u.bytes % 2 ^ 64 ≡ (t.bytes + total es) % 2 ^ 64
    pub plain : IsPlain es

  Grown-directory :
      (at name : Text) (perm : ℕ) (inside rest : Entries) (t u v : Tally)
      → Grown (below at name) inside (append (directory_entry (below at name)) t) u
      → Grown at rest u v
      → Grown at (directory name perm inside rest) t v
  unfolding append listing
  Grown-directory at name perm inside rest t u v g h = record {
    entries =
        h.entries
        ∙ (ap (λ l. l ++ listing at rest) g.entries
            ∙ (append_assoc (t.entries ++ _ ∷ []) (listing (below at name) inside) (listing at rest)
                ∙ append_assoc t.entries _ (listing (below at name) inside ++ listing at rest)));
    files = omega (arith, g.files, h.files);
    bytes = omega (arith, g.bytes, h.bytes);
    plain = (g.plain, h.plain);
  }

  Grown-file :
      (at name : Text) (perm time : ℕ) (content : Text) (rest : Entries) (t v : Tally)
      → Grown at rest (append_file sys (below at name) content t) v
      → Grown at (file name perm time content rest) t v
  unfolding append_file listing
  Grown-file at name perm time content rest t v h = record {
    entries = h.entries ∙ append_assoc t.entries _ (listing at rest);
    files = omega (arith, h.files);
    bytes = omega (arith, h.bytes);
    plain = h.plain;
  }

  Grown-symlink :
      (at name target : Text) (rest : Entries) (t v : Tally)
      → Grown at rest (append (symlink_entry (below at name) target) t) v
      → Grown at (symlink name target rest) t v
  unfolding append listing
  Grown-symlink at name target rest t v h = record {
    entries = h.entries ∙ append_assoc t.entries _ (listing at rest);
    files = h.files;
    bytes = h.bytes;
    plain = h.plain;
  }

  walk-some :
      (at : Text) (es : Entries) (t : Tally) (n : ℕ) {u : Tally} {m : ℕ}
      → walk sys at es t n ≡ (some u, m)
      → Grown at es t u
  unfolding walk listing append
  walk-some at empty t n h =
      let grown : Grown at empty t t = record {
        entries = sym (append-nil t.entries);
        files = omega arith;
        bytes = omega arith;
        plain = tt;
      } in
      subst (Grown at empty t) (given_eq h) grown
  walk-some at (directory name perm inside rest) t n h =
      let (b, n', e, h') = proceed-some (call sys tt n) _ h in
      let (u, n'', f, g) = proceed-some _ _ h' in
      Grown-directory at name perm inside rest t u _ (walk-some (below at name) inside _ n' f)
        (walk-some at rest u n'' g)
  walk-some at (file name perm time content rest) t n {u} h =
      let (c, n', e, h') = proceed-some (read_file sys content n) _ h in
      Grown-file at name perm time content rest t u (
        subst (λ c. Grown at rest (append_file sys (below at name) c t) u)
          (read_file-some content n e) (walk-some at rest _ n' h'))
  walk-some at (symlink name target rest) t n {u} h =
      let (link, n', e, h') = proceed-some (call sys target n) _ h in
      Grown-symlink at name target rest t u (
        subst (λ l. Grown at rest (append (symlink_entry (below at name) l) t) u)
          (call-some target n e) (walk-some at rest _ n' h'))
  walk-some at (special name rest) t n h = cc

  -- a manifest that is returned lists the whole tree, and counts its files and bytes
  pub manifest-some :
      (es : Entries) (n : ℕ) {u : Tally} {m : ℕ}
      → manifest sys es n ≡ (some u, m)
      → Grown [] es nothing u
  unfolding manifest
  manifest-some es n h =
      let (a, n', e, h') = proceed-some (call sys tt n) _ h in
      let (b, n'', f, g) = proceed-some (call sys tt n') _ h' in walk-some [] es nothing n'' g

  module _ (works : (n : ℕ) → sys.fails n ≡ false) where
    pub call_works : {A : Type 0} (a : A) (n : ℕ) → call sys a n ≡ (some a, n + 1)
    call_works a n = rw (works n) refl

    read_file_works : (c : Text) (n : ℕ) → read_file sys c n ≡ (some c, n + 3)
    unfolding read_file
    read_file_works c n = rw (works n, works (n + 1), works (n + 2)) refl

    -- a walk of a plain tree succeeds when no call fails
    walk_works :
        (at : Text) (es : Entries) (t : Tally) (n : ℕ)
        → IsPlain es
        → (u : Tally) × (m : ℕ) × (walk sys at es t n ≡ (some u, m))
    unfolding walk
    walk_works at empty t n p = (t, n, refl)
    walk_works at (directory name perm inside rest) t n p =
        let (u, m, e) =
          walk_works (below at name) inside (append (directory_entry (below at name)) t) (n + 1)
            p.0 in
        let (v, k, f) = walk_works at rest u m p.1 in (v, k, rw (works n, e) f)
    walk_works at (file name perm time content rest) t n p =
        let (v, k, f) = walk_works at rest (append_file sys (below at name) content t) (n + 3) p in
        (v, k, rw (read_file_works content n) f)
    walk_works at (symlink name target rest) t n p =
        let (v, k, f) =
          walk_works at rest (append (symlink_entry (below at name) target) t) (n + 1) p in
        (v, k, rw (works n) f)
    walk_works at (special name rest) t n p = elim p [ ]

    pub manifest_works :
        (es : Entries) (n : ℕ)
        → IsPlain es
        → (u : Tally) × (m : ℕ) × (manifest sys es n ≡ (some u, m))
    unfolding manifest
    manifest_works es n p =
        let (u, m, e) = walk_works [] es nothing (n + 1 + 1) p in
        (u, m, rw (works n, works (n + 1)) e)
