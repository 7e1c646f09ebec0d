-- ===== src/Clipboard/Publisher/Placing.antt =====
-- internal/clipboard/publish.go: what publishOne does to the files of the asset root.
use imoogi_emacs.Prelude.{
  ℕ, zero, suc, ◌+◌, Text, equal, equal_refl, not, ◌||◌, ◌==◌, Option, none, some, [], length, take,
  ◌≡◌, refl, sym, ap, ◌∙◌, subst, Bool-cases, inl, inr,
}
use imoogi_emacs.Clipboard.Publisher.{
  File, Files, Room, System, tick, numbered, sanitized_filename, file_sha256,
}
use imoogi_emacs.Clipboard.Publisher.Sources.{SourceFile}
use imoogi_emacs.Clipboard.Publisher.Place.{
  Found, broken, absent, existing, Placed, with_id, undo, with_new_id, with_content, copied, fill,
  kept_with_id, taken, on_slot, allocate, after_search, hashed, publish_one,
}
use imoogi_emacs.Clipboard.Publisher.Search.{
  Extends, put-Extends, Stands, Post, FoundPost, remove-Extends, file_sha256-files,
  record_asset-files, find_existing_asset-Post,
}

module _ (sys : System) (root : Text) (t : Files) where
  same_files : {t' : Files} → t' ≡ t → Extends t t'
  same_files e = subst (Extends t) (sym e) (λ p f h. h)

  with_id-Post :
      (hash : Text) (size : ℕ) (name : Text) (r : Room) (o : Option Text)
      → r.files ≡ t
      → Stands t name
      → Post t (with_id sys root hash size name r o)
  with_id-Post hash size name r none e s = same_files e
  with_id-Post hash size name r (some id) e s =
      (same_files e, subst (λ u. Stands u name) (sym e) s, tt)

  kept_with_id-Post :
      (hash : Text) (size : ℕ) (name : Text) (r : Room) (o : Option Text)
      → r.files ≡ t
      → Stands t name
      → Post t (kept_with_id sys root hash size name r o)
  kept_with_id-Post hash size name r none e s = same_files e
  kept_with_id-Post hash size name r (some id) e s =
      let same = record_asset-files sys name size hash r ∙ e in
      (subst (Extends t) (sym same) (λ p f h. h), subst (λ u. Stands u name) (sym same) s, tt)

  -- a file that was made where none was: the rest is as it was
  record Made (name : Text) (r : Room) : Type 0 where
    extends : Extends t r.files
    free : t name ≡ none
    stands : Stands r.files name

  with_content-Made :
      (name c : Text) (r : Room)
      → Extends t r.files
      → t name ≡ none
      → Made name (with_content sys name c r)
  with_content-Made name c r e free = record {
    extends =
        put-Extends t r.files name (record { content = some c; mtime = sys.clock r.calls }) free e;
    free = free;
    stands = (record { content = some c; mtime = sys.clock r.calls }, rw equal_refl refl);
  }

  undo-Post : (name : Text) (r : Room) → Made name r → Post t (undo sys root name r)
  undo-Post name r m = remove-Extends sys t name r m.free m.extends

  with_new_id-Post :
      (hash : Text) (size : ℕ) (name : Text) (r : Room) (o : Option Text)
      → Made name r
      → Post t (with_new_id sys root hash size name r o)
  with_new_id-Post hash size name r none m = undo-Post name r m
  with_new_id-Post hash size name r (some id) m =
      let same = record_asset-files sys name size hash r in
      (
        subst (Extends t) (sym same) m.extends,
        subst (λ u. Stands u name) (sym same) m.stands,
        m.free,
      )

  Made-tick : {name : Text} {r : Room} → Made name r → Made name (tick r)
  Made-tick m = record { extends = m.extends; free = m.free; stands = m.stands }

  copied-Post :
      (source : SourceFile) (hash name : Text) (r : Room) (o : Option Text)
      → Extends t r.files
      → t name ≡ none
      → Post t (copied sys root source hash name r o)
  copied-Post source hash name r none e free =
      undo-Post name (with_content sys name [] r) (with_content-Made name [] r e free)
  copied-Post source hash name r (some c) e free = elim (Bool-cases (sys.fails r.calls)) [
    | inl h ↦ rw h (undo-Post name _ (with_content-Made name (take sys.kept c) r e free))
    | inr h ↦ elim (Bool-cases (sys.fails (r.calls + 1) || not (length c == source.size))) [
      | inl k ↦ rw (h, k) (undo-Post name _ (Made-tick (with_content-Made name c r e free)))
      | inr k ↦
          rw (h, k)
            (with_new_id-Post hash source.size name _ _
              (Made-tick (Made-tick (with_content-Made name c r e free))))
    ]
  ]

  fill-Post :
      (source : SourceFile) (hash name : Text) (r : Room)
      → Extends t r.files
      → t name ≡ none
      → Post t (fill sys root source hash name r)
  unfolding fill
  fill-Post source hash name r = copied-Post source hash name r (sys.source r.calls source.path)

  module _ (source : SourceFile) (hash : Text) where
    taken-Post :
        (name : Text) (next : Room → Placed × Room) (o : Option Text × Room)
        → ((r : Room) → r.files ≡ t → Post t (next r))
        → o.1.files ≡ t
        → Stands t name
        → Post t (taken sys root source hash name next o)
    taken-Post name next (none, r) further e s = further r e
    taken-Post name next (some h, r) further e s = elim (Bool-cases (equal h hash)) [
      | inl k ↦ rw k (kept_with_id-Post hash source.size name (tick r) (sys.random_hex r.calls) e s)
      | inr k ↦ rw k (further r e)
    ]

    on_slot-Post :
        (name : Text) (next : Room → Placed × Room) (o : Option File) (r : Room)
        → ((r : Room) → r.files ≡ t → Post t (next r))
        → r.files ≡ t
        → t name ≡ o
        → Post t (on_slot sys root source hash name next o r)
    on_slot-Post name next (some f) r further e s =
        taken-Post name next (file_sha256 sys name (tick r)) further
          (file_sha256-files sys name (tick r) ∙ e) (f, s)
    on_slot-Post name next none r further e s = elim (Bool-cases (sys.fails r.calls)) [
      | inl k ↦ rw k (same_files e)
      | inr k ↦ rw k (
          fill-Post source hash name (with_content sys name [] r)
            (with_content-Made name [] r (same_files e) s).extends s)
    ]

    allocate-Post :
        (base : Text) (left sequence : ℕ) (r : Room)
        → r.files ≡ t
        → Post t (allocate sys root source hash base left sequence r)
    unfolding allocate
    allocate-Post base zero sequence r e = same_files e
    allocate-Post base (suc left) sequence r e =
        on_slot-Post (numbered sys base sequence)
          (allocate sys root source hash base left (sequence + 1)) _ r
          (allocate-Post base left (sequence + 1)) e
          (ap (λ u. u (numbered sys base sequence)) (sym e))

    after_search-Post :
        (base : Text) (o : Found × Room)
        → FoundPost t o
        → Post t (after_search sys root source base hash o)
    after_search-Post base (broken, r) p = same_files p
    after_search-Post base (existing name, r) p =
        with_id-Post hash source.size name r (sys.random_hex r.calls) p.0 p.1
    after_search-Post base (absent, r) p = allocate-Post (sanitized_filename base) 10000 0 r p

  hashed-Post :
      (source : SourceFile) (base : Text) (o : Option Text) (r : Room)
      → r.files ≡ t
      → Post t (hashed sys root source base o r)
  hashed-Post source base none r e = same_files e
  hashed-Post source base (some c) r e = elim (Bool-cases (sys.fails r.calls)) [
    | inl k ↦ rw k (same_files e)
    | inr k ↦ rw k (
        after_search-Post source (sys.sha256_hex c) base _
          (find_existing_asset-Post sys t source.size (sys.sha256_hex c) (tick r) e))
  ]

-- publishOne replaces and removes no file that stands in the asset root; the file of the asset that it
-- returns stands there, and was not there before if it is one that was made.
pub publish_one-Post :
    (sys : System) (root : Text) (base : Text → Text) (source : SourceFile) (r : Room)
    → Post r.files (publish_one sys root base source r)
unfolding publish_one
publish_one-Post sys root base source r =
    hashed-Post sys root r.files source (base source.path) (sys.source r.calls source.path) r refl
