-- ===== src/Artifact/Extract/Bounds.antt =====
-- internal/artifact/artifact.go: the size limits that a validated header keeps.
use imoogi_emacs.Prelude.{zero, suc, ◌≤◌, Text, Bool, ◌≡◌, refl, sym, arith, subst, ◌⊎◌, inl, inr}
use imoogi_emacs.Prelude.Int.{ℤ, pos, negsuc}
use imoogi_emacs.Artifact.Paths.{ok, ok_eq, first_step, clean_archive_path}
use imoogi_emacs.Artifact.Headers.{
  Caps, Header, type_reg, type_reg_a, EntryKind, kind_dir, kind_file, kind_symlink, kind_for_type,
  Progress, check_size, check_entry, validate_entry_header,
}
use imoogi_emacs.Artifact.Extract.{size_of}

abbrev pub FileFits : Caps → EntryKind → ℤ → Type 0
FileFits caps kind_file size = size_of size ≤ caps.max_file_bytes
FileFits caps kind size = Unit

module _ (caps : Caps) where
  check_size_bounds :
      (name : Text) (kind : EntryKind) (size : ℤ) (s s' : Progress)
      → s.bytes ≤ caps.max_output_bytes
      → check_size caps name kind size s ≡ ok s'
      → (s'.bytes ≤ caps.max_output_bytes) × FileFits caps kind size
  unfolding check_size
  check_size_bounds name kind_file (negsuc n) s s' b h = cc
  check_size_bounds name kind_file (pos n) s s' b h = ground arith
  check_size_bounds name kind_dir (pos zero) s s' b h = (ground arith, tt)
  check_size_bounds name kind_dir (pos (suc n)) s s' b h = cc
  check_size_bounds name kind_dir (negsuc n) s s' b h = cc
  check_size_bounds name kind_symlink (pos zero) s s' b h = (ground arith, tt)
  check_size_bounds name kind_symlink (pos (suc n)) s s' b h = cc
  check_size_bounds name kind_symlink (negsuc n) s s' b h = cc

  check_entry_sizes :
      (name : Text) (kind : EntryKind) (size : ℤ) (s s' : Progress)
      → check_entry caps name kind size s ≡ ok s'
      → check_size caps name kind size s ≡ ok s'
  unfolding check_entry
  check_entry_sizes name kind size s s' h = ground arith

  -- what validate_entry_header has found when it accepts
  pub record Accepted (allow : Bool) (h : Header) (s : Progress) (o : Header × EntryKind × Progress)
      : Type 0 where
    pub name : clean_archive_path h.name ≡ ok o.0.name
    pub flag : o.0.typeflag ≡ h.typeflag
    pub size : o.0.size ≡ h.size
    pub kind : kind_for_type h.typeflag allow ≡ ok o.1
    pub entered : check_entry caps o.0.name o.1 h.size s ≡ ok o.2

  pub validate-Accepted :
      (allow : Bool) (h : Header) (s : Progress) (o : Header × EntryKind × Progress)
      → validate_entry_header allow caps h s ≡ ok o
      → Accepted allow h s o
  unfolding validate_entry_header
  validate-Accepted allow h s o e =
      let (name, e1, r1) = first_step (clean_archive_path h.name) _ e in
      let (kind, e2, r2) = first_step (kind_for_type h.typeflag allow) _ r1 in
      let (s', e3, r3) = first_step (check_entry caps name kind h.size s) _ r2 in
      subst (Accepted allow h s) (ok_eq r3)
        (record { name = e1; flag = refl; size = refl; kind = e2; entered = e3 })

  -- An accepted header leaves the total within the limit, and so is each file.
  pub validate_bounds :
      (allow : Bool) (h : Header) (s : Progress) (o : Header × EntryKind × Progress)
      → s.bytes ≤ caps.max_output_bytes
      → validate_entry_header allow caps h s ≡ ok o
      → (o.2.bytes ≤ caps.max_output_bytes) × FileFits caps o.1 o.0.size
  validate_bounds allow h s o b e =
      let w = validate-Accepted allow h s o e in
      subst (λ z. (o.2.bytes ≤ caps.max_output_bytes) × FileFits caps o.1 z) (sym w.size)
        (check_size_bounds o.0.name o.1 h.size s o.2 b
          (check_entry_sizes o.0.name o.1 h.size s o.2 w.entered))

  -- a regular file is of the kind file
  pub reg_fits :
      (allow : Bool) (kind : EntryKind) (size : ℤ)
      → (kind_for_type type_reg allow ≡ ok kind) ⊎ (kind_for_type type_reg_a allow ≡ ok kind)
      → FileFits caps kind size
      → size_of size ≤ caps.max_file_bytes
  unfolding kind_for_type
  reg_fits allow kind size (inl k) f = subst (λ z. FileFits caps z size) (sym (ok_eq k)) f
  reg_fits allow kind size (inr k) f = subst (λ z. FileFits caps z size) (sym (ok_eq k)) f
