-- ===== src/Artifact/Extract/Contained.antt =====
-- internal/artifact/artifact.go and zip.go: what the loops leave in the staging directory.
use imoogi_emacs.Prelude.{
  ℕ, ◌+◌, ◌≤◌, Text, Bool, false, ltb, Option, none, some, List, [], ◌∷◌, ◌++◌, ◌≡◌, sym, ap, subst,
  ◌∙◌, arith, All, All-append, Bool-cases, inl, inr,
}
use imoogi_emacs.Prelude.Paths.{IsSegment}
use imoogi_emacs.Artifact.Paths.{
  io, too_many_entries, Result, ok, refused, contained_path, PendingSymlink,
  validate_symlink_target,
}
use imoogi_emacs.Artifact.Headers.{
  Caps, Header, Typeflag, type_dir, type_reg, type_reg_a, type_symlink, type_link, type_char,
  type_block, type_fifo, type_other, EntryKind, kind_for_type, Progress, validate_entry_header,
  zip_entry_header,
}
use imoogi_emacs.Artifact.Staging.{
  directory, Place, Tree, Disk, Faults, Io, ◌>>◌, pure, lift, parent, mkdir_no_symlink_below,
  write_regular_file, create_verified_symlinks,
}
use imoogi_emacs.Artifact.Staging.Trees.{IsSafe}
use imoogi_emacs.Artifact.Staging.Safe.{
  Post, proceed-Post, unchanged, forget, mkdir-Post, write_regular_file-Post, lift-Post, Standing,
}
use imoogi_emacs.Artifact.Staging.Links.{Entry, contained_path-Entry, create_verified_symlinks-Post}
use imoogi_emacs.Artifact.Extract.{
  TarEntry, size_of, place_file, extract_entry, extract_entries, ZipEntry, at_end, write_zip_file,
  extract_zip_entry, extract_zip_entries,
}
use imoogi_emacs.Artifact.Extract.Bounds.{FileFits, validate-Accepted, validate_bounds, reg_fits}

-- the counts that a success reports
abbrev pub Counted : Caps → ℕ × Progress → Tree → Type 0
Counted caps (n, s) t = (n ≤ caps.max_entries) × (s.bytes ≤ caps.max_output_bytes)

module _ (caps : Caps) (faults : Faults) where
  abbrev Kept : {A : Type 0} → Disk → Result A × Disk → Type 0
  Kept d o = Post caps.max_file_bytes d.tree (λ u t. Unit) o

  abbrev Safe : Disk → Type 0
  Safe d = IsSafe caps.max_file_bytes d.tree

  whole_place : (p : Place) → Entry p → All IsSegment p
  whole_place p e =
      subst (All IsSegment) (sym e.joined)
        (All-append IsSegment e.above (e.name ∷ []) e.plain_above (e.plain, tt))

  placed_dir :
      (p : Place) → Entry p → (d : Disk) → Safe d → Kept d (mkdir_no_symlink_below faults p d)
  placed_dir p e d s =
      forget caps.max_file_bytes (mkdir-Post caps.max_file_bytes faults p d (whole_place p e) s)

  -- the parent is made first
  in_parent :
      (p : Place)
      → Entry p
      → (m : Io (Unit {0}))
      → ((d : Disk) → Safe d → d.tree (parent p) ≡ some directory → Kept d (m d))
      → (d : Disk) → Safe d
      → Kept d ((mkdir_no_symlink_below faults (parent p) >> m) d)
  in_parent p e m k d s =
      proceed-Post caps.max_file_bytes (Standing caps.max_file_bytes (parent p))
        (mkdir_no_symlink_below faults (parent p) d) _
        (mkdir-Post caps.max_file_bytes faults (parent p) d
          (subst (All IsSegment) (sym e.is_parent) e.plain_above) s)
        (λ u d1 s1 e1 above. k d1 s1 above)

  module _ (p : Place) (e : Entry p) (c : Text) (size : ℕ) (fits : size ≤ caps.max_file_bytes) where
    written :
        (d : Disk)
        → Safe d
        → d.tree (parent p) ≡ some directory
        → Kept d (write_regular_file faults p c size d)
    written d s above =
        subst (λ q. Kept d (write_regular_file faults q c size d)) (sym e.joined)
          (write_regular_file-Post caps.max_file_bytes faults e.above e.name e.plain c size d s
            (ap d.tree (sym e.is_parent) ∙ above) fits)

    placed_file :
        (allow : Bool) (d : Disk) → Safe d → Kept d (place_file allow caps faults p c size d)
    unfolding place_file
    placed_file allow = in_parent p e (write_regular_file faults p c size) written

  -- a step that only reports
  finish :
      {A : Type 0} (a : A) (m : Io (Unit {0})) (d : Disk) → Kept d (m d) → Kept d ((m >> pure a) d)
  finish a m d w =
      proceed-Post caps.max_file_bytes (λ u t. Unit) (m d) _ w
        (λ u d1 s1 e1 g. unchanged caps.max_file_bytes (ok a) d1 s1 tt)

  extract_entry-Kept :
      (allow : Bool) (hdr : Header) (c : Text) (p : Place) (flag : Typeflag) (kind : EntryKind)
      → Entry p
      → kind_for_type flag allow ≡ ok kind
      → FileFits caps kind hdr.size
      → (d : Disk) → Safe d
      → Kept d (extract_entry allow caps faults hdr c p flag d)
  unfolding extract_entry
  extract_entry-Kept allow hdr c p type_dir kind e k f d s =
      finish [] (mkdir_no_symlink_below faults p) d (placed_dir p e d s)
  extract_entry-Kept allow hdr c p type_reg kind e k f d s =
      finish [] (place_file allow caps faults p c (size_of hdr.size)) d (
        placed_file p e c (size_of hdr.size) (reg_fits caps allow kind hdr.size (inl k) f) allow d
          s)
  extract_entry-Kept allow hdr c p type_reg_a kind e k f d s =
      finish [] (place_file allow caps faults p c (size_of hdr.size)) d (
        placed_file p e c (size_of hdr.size) (reg_fits caps allow kind hdr.size (inr k) f) allow d
          s)
  extract_entry-Kept allow hdr c p type_symlink kind e k f d s =
      proceed-Post caps.max_file_bytes _ (lift (validate_symlink_target hdr.name hdr.linkname) d) _
        (lift-Post caps.max_file_bytes faults (validate_symlink_target hdr.name hdr.linkname) d s)
        (λ link d1 s1 e1 g. unchanged caps.max_file_bytes (ok (link ∷ [])) d1 s1 tt)
  extract_entry-Kept allow hdr c p type_link kind e k f d s =
      unchanged caps.max_file_bytes (refused _) d s tt
  extract_entry-Kept allow hdr c p type_char kind e k f d s =
      unchanged caps.max_file_bytes (refused _) d s tt
  extract_entry-Kept allow hdr c p type_block kind e k f d s =
      unchanged caps.max_file_bytes (refused _) d s tt
  extract_entry-Kept allow hdr c p type_fifo kind e k f d s =
      unchanged caps.max_file_bytes (refused _) d s tt
  extract_entry-Kept allow hdr c p (type_other n) kind e k f d s =
      unchanged caps.max_file_bytes (refused _) d s tt

  module _ (allow : Bool) where
    -- the loop over a tar archive
    pub extract_entries-Post :
        (es : List (Option TarEntry)) (n : ℕ) (s : Progress) (links : List PendingSymlink)
        (d : Disk)
        → n ≤ caps.max_entries
        → s.bytes ≤ caps.max_output_bytes
        → Safe d
        → Post caps.max_file_bytes d.tree
            (Counted caps)
            (extract_entries allow caps faults es n s links d)
    unfolding extract_entries
    extract_entries-Post [] n s links d few small safe =
        proceed-Post caps.max_file_bytes (λ u t. Unit)
          (create_verified_symlinks faults s.seen links d) _
          (create_verified_symlinks-Post caps.max_file_bytes faults s.seen links d safe)
          (λ u d1 s1 e1 g. unchanged caps.max_file_bytes (ok (n, s)) d1 s1 (few, small))
    extract_entries-Post (none ∷ es) n s links d few small safe =
        unchanged caps.max_file_bytes (refused io) d safe tt
    extract_entries-Post (some e ∷ es) n s links d few small safe =
        elim (Bool-cases (ltb caps.max_entries (n + 1))) [
          | inl many ↦ rw many (unchanged caps.max_file_bytes (refused too_many_entries) d safe tt)
          | inr room ↦ rw room (
              proceed-Post caps.max_file_bytes _
                (lift (validate_entry_header allow caps e.header s) d) _
                (lift-Post caps.max_file_bytes faults (validate_entry_header allow caps e.header s)
                  d safe)
                (λ o d1 s1 e1 valid.
                  let bounds = validate_bounds caps allow e.header s o small valid in
                  let w = validate-Accepted caps allow e.header s o valid in
                  proceed-Post caps.max_file_bytes _ (lift (contained_path o.0.name) d1) _
                    (lift-Post caps.max_file_bytes faults (contained_path o.0.name) d1 s1)
                    (λ p d2 s2 e2 at.
                      proceed-Post caps.max_file_bytes (λ u t. Unit)
                        (extract_entry allow caps faults o.0 e.content p o.0.typeflag d2) _
                        (extract_entry-Kept allow o.0 e.content p o.0.typeflag o.1
                          (contained_path-Entry o.0.name p at)
                          (ap (λ x. kind_for_type x allow) w.flag ∙ w.kind) bounds.1 d2 s2)
                        (λ new d3 s3 e3 g.
                          extract_entries-Post es (n + 1) o.2 (links ++ new) d3 (ground arith)
                            bounds.0 s3))))
        ]

  at_end-Kept : (e : ZipEntry) (size : ℕ) (d : Disk) → Safe d → Kept d (lift (at_end e size) d)
  at_end-Kept e size d s =
      forget caps.max_file_bytes (lift-Post caps.max_file_bytes faults (at_end e size) d s)

  write_zip_file-Kept :
      (e : ZipEntry) (p : Place) (entry : Entry p) (size : ℕ) (d : Disk)
      → size ≤ caps.max_file_bytes
      → Safe d
      → d.tree (parent p) ≡ some directory
      → Kept d (write_zip_file caps faults e p size d)
  unfolding write_zip_file
  write_zip_file-Kept e p entry size d fits s above = elim (Bool-cases (faults.fails d.calls)) [
    | inl broken ↦ rw broken (record { safe = s; extends = λ q n h. h; gives = tt })
    | inr opened ↦ rw opened (
        proceed-Post caps.max_file_bytes (λ u t. Unit)
          (write_regular_file faults p e.content size
            (record { tree = d.tree; calls = d.calls + 1 }))
          _
          (written p entry e.content size fits (record { tree = d.tree; calls = d.calls + 1 }) s
            above)
          (λ u d1 s1 e1 g. at_end-Kept e size d1 s1))
  ]

  extract_zip_entry-Kept :
      (e : ZipEntry) (hdr : Header) (p : Place) (flag : Typeflag) (kind : EntryKind)
      → Entry p
      → kind_for_type flag false ≡ ok kind
      → FileFits caps kind hdr.size
      → (d : Disk) → Safe d
      → Kept d (extract_zip_entry caps faults e hdr p flag d)
  unfolding extract_zip_entry kind_for_type
  extract_zip_entry-Kept e hdr p type_dir kind entry k f d s = placed_dir p entry d s
  extract_zip_entry-Kept e hdr p type_reg kind entry k f d s =
      in_parent p entry (write_zip_file caps faults e p (size_of hdr.size))
        (λ d1 s1 above.
          write_zip_file-Kept e p entry (size_of hdr.size) d1
            (reg_fits caps false kind hdr.size (inl k) f) s1 above)
        d s
  extract_zip_entry-Kept e hdr p type_reg_a kind entry k f d s =
      in_parent p entry (write_zip_file caps faults e p (size_of hdr.size))
        (λ d1 s1 above.
          write_zip_file-Kept e p entry (size_of hdr.size) d1
            (reg_fits caps false kind hdr.size (inr k) f) s1 above)
        d s
  extract_zip_entry-Kept e hdr p type_symlink kind entry k f d s = cc
  extract_zip_entry-Kept e hdr p type_link kind entry k f d s = cc
  extract_zip_entry-Kept e hdr p type_char kind entry k f d s = cc
  extract_zip_entry-Kept e hdr p type_block kind entry k f d s = cc
  extract_zip_entry-Kept e hdr p type_fifo kind entry k f d s = cc
  extract_zip_entry-Kept e hdr p (type_other n) kind entry k f d s = cc

  -- the loop over a zip archive
  pub extract_zip_entries-Post :
      (es : List ZipEntry) (n : ℕ) (s : Progress) (d : Disk)
      → n ≤ caps.max_entries
      → s.bytes ≤ caps.max_output_bytes
      → Safe d
      → Post caps.max_file_bytes d.tree (Counted caps) (extract_zip_entries caps faults es n s d)
  unfolding extract_zip_entries
  extract_zip_entries-Post [] n s d few small safe =
      unchanged caps.max_file_bytes (ok (n, s)) d safe (few, small)
  extract_zip_entries-Post (e ∷ es) n s d few small safe =
      elim (Bool-cases (ltb caps.max_entries (n + 1))) [
        | inl many ↦ rw many (unchanged caps.max_file_bytes (refused too_many_entries) d safe tt)
        | inr room ↦ rw room (
            proceed-Post caps.max_file_bytes _ (lift (zip_entry_header e.file) d) _
              (lift-Post caps.max_file_bytes faults (zip_entry_header e.file) d safe)
              (λ raw d0 s0 e0 g0.
                proceed-Post caps.max_file_bytes _
                  (lift (validate_entry_header false caps raw s) d0) _
                  (lift-Post caps.max_file_bytes faults (validate_entry_header false caps raw s) d0
                    s0)
                  (λ o d1 s1 e1 valid.
                    let bounds = validate_bounds caps false raw s o small valid in
                    let w = validate-Accepted caps false raw s o valid in
                    proceed-Post caps.max_file_bytes _ (lift (contained_path o.0.name) d1) _
                      (lift-Post caps.max_file_bytes faults (contained_path o.0.name) d1 s1)
                      (λ p d2 s2 e2 at.
                        proceed-Post caps.max_file_bytes (λ u t. Unit)
                          (extract_zip_entry caps faults e o.0 p o.0.typeflag d2) _
                          (extract_zip_entry-Kept e o.0 p o.0.typeflag o.1
                            (contained_path-Entry o.0.name p at)
                            (ap (λ x. kind_for_type x false) w.flag ∙ w.kind) bounds.1 d2 s2)
                          (λ u d3 s3 e3 g.
                            extract_zip_entries-Post es (n + 1) o.2 d3 (ground arith) bounds.0
                              s3)))))
      ]
