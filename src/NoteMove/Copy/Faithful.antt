-- ===== src/NoteMove/Copy/Faithful.antt =====
-- internal/notemove/move.go: a copy that succeeds is whole.
use imoogi_emacs.Prelude.{ℕ, ◌+◌, Text, true, false, ◌∷◌, ◌≡◌, refl, ap, ◌∙◌, arith}
use imoogi_emacs.NoteMove.System.{Entries, empty, directory, file, symlink, special, Folder, System}
use imoogi_emacs.NoteMove.Manifest.{below, symlink_entry, file_entry}
use imoogi_emacs.NoteMove.Manifest.Listing.{IsPlain, listing}
use imoogi_emacs.NoteMove.Copy.{
  Step, Copied, join, write_file, copy_file, copy_link, copy_regular, copy_directory, copy_entries,
  copy_tree,
}

module _ (sys : System) where
  -- what a copy is to be: the same entries, with their permissions under the umask
  abbrev pub under_umask : Entries → Entries
  under_umask empty = empty
  under_umask (directory name perm inside rest) =
      directory name (sys.masked perm) (under_umask inside) (under_umask rest)
  under_umask (file name perm time content rest) =
      file name (sys.masked perm) time content (under_umask rest)
  under_umask (symlink name target rest) = symlink name target (under_umask rest)
  under_umask (special name rest) = special name (under_umask rest)

  abbrev pub copy_of : Folder → Folder
  copy_of f = record { perm = f.perm; entries = under_umask f.entries }

  -- A manifest shows no permissions.
  pub listing-under_umask :
      (at : Text) (es : Entries) → listing sys at (under_umask es) ≡ listing sys at es
  unfolding listing
  listing-under_umask at empty = refl
  listing-under_umask at (directory name perm inside rest) =
      rw (listing-under_umask (below at name) inside, listing-under_umask at rest) refl
  listing-under_umask at (file name perm time content rest) =
      ap (λ l. file_entry sys (below at name) content ∷ l) (listing-under_umask at rest)
  listing-under_umask at (symlink name target rest) =
      ap (λ l. symlink_entry (below at name) target ∷ l) (listing-under_umask at rest)
  listing-under_umask at (special name rest) = listing-under_umask at rest

  join_done :
      (s : Step) (c : Copied)
      → (join s c).done ≡ true
      → (s.done ≡ true) × (c.done ≡ true) × ((join s c).made ≡ s.put c.made)
  join_done s c h = ground arith

  join_works : (s : Step) (c : Copied) → s.done ≡ true → c.done ≡ true → (join s c).done ≡ true
  join_works s c h k = rw h k

  copy_regular_done :
      (name : Text) (perm time : ℕ) (content : Text) (n : ℕ)
      → (copy_regular sys name perm time content n).done ≡ true
      → (copy_regular sys name perm time content n).put ≡ file name (sys.masked perm) time content
  unfolding copy_file write_file
  copy_regular_done name perm time content n h = ground arith

  copy_link_done :
      (name target : Text) (n : ℕ)
      → (copy_link sys name target n).done ≡ true
      → (copy_link sys name target n).put ≡ symlink name target
  unfolding copy_link
  copy_link_done name target n h = ground arith

  copy_directory_done :
      (name : Text) (perm n : ℕ) (inside : Copied)
      → (copy_directory sys name perm n inside).done ≡ true
      → (inside.done ≡ true)
        × ((copy_directory sys name perm n inside).put
            ≡ directory name (sys.masked perm) inside.made)
  copy_directory_done name perm n inside h = ground arith

  copy_entries_done :
      (es : Entries) (n : ℕ)
      → (copy_entries sys es n).done ≡ true
      → ((copy_entries sys es n).made ≡ under_umask es) × IsPlain es
  unfolding copy_entries
  copy_entries_done empty n h = (refl, tt)
  copy_entries_done (directory name perm inside rest) n h =
      let s = copy_directory sys name perm n (copy_entries sys inside (n + 3)) in
      let (sd, cd, e) = join_done s (copy_entries sys rest s.calls) h in
      let (id, p) = copy_directory_done name perm n (copy_entries sys inside (n + 3)) sd in
      let (i, ip) = copy_entries_done inside (n + 3) id in
      let (r, rp) = copy_entries_done rest s.calls cd in
      (
        e
            ∙ ap (λ g. g (copy_entries sys rest s.calls).made) p
            ∙ (ap (λ m. directory name (sys.masked perm) m (copy_entries sys rest s.calls).made) i
                ∙ ap (directory name (sys.masked perm) (under_umask inside)) r),
        (ip, rp),
      )
  copy_entries_done (file name perm time content rest) n h =
      let s = copy_regular sys name perm time content n in
      let (sd, cd, e) = join_done s (copy_entries sys rest s.calls) h in
      let (r, rp) = copy_entries_done rest s.calls cd in
      (
        e
            ∙ ap (λ g. g (copy_entries sys rest s.calls).made)
                (copy_regular_done name perm time content n sd)
            ∙ ap (file name (sys.masked perm) time content) r,
        rp,
      )
  copy_entries_done (symlink name target rest) n h =
      let s = copy_link sys name target n in
      let (sd, cd, e) = join_done s (copy_entries sys rest s.calls) h in
      let (r, rp) = copy_entries_done rest s.calls cd in
      (
        e
            ∙ ap (λ g. g (copy_entries sys rest s.calls).made) (copy_link_done name target n sd)
            ∙ ap (symlink name target) r,
        rp,
      )
  copy_entries_done (special name rest) n h = cc

  copy_tree_whole :
      (f : Folder) (n : ℕ)
      → (copy_tree sys f n).0 ≡ true
      → ((copy_entries sys f.entries (n + 4)).done ≡ true)
        × ((copy_tree sys f n).1
            ≡ record { perm = f.perm; entries = (copy_entries sys f.entries (n + 4)).made })
  unfolding copy_tree
  copy_tree_whole f n h = ground arith

  -- A copy that succeeds is the copy that is meant, of a tree of directories, files and links.
  pub copy_tree_done :
      (f : Folder) (n : ℕ)
      → (copy_tree sys f n).0 ≡ true
      → ((copy_tree sys f n).1 ≡ copy_of f) × IsPlain f.entries
  copy_tree_done f n h =
      let (d, e) = copy_tree_whole f n h in
      let (m, p) = copy_entries_done f.entries (n + 4) d in
      (e ∙ ap (λ m. record { perm = f.perm; entries = m }) m, p)

  module _ (works : (n : ℕ) → sys.fails n ≡ false) where
    copy_regular_works :
        (name : Text) (perm time : ℕ) (content : Text) (n : ℕ)
        → (copy_regular sys name perm time content n).done ≡ true
    unfolding copy_file write_file
    copy_regular_works name perm time content n =
        rw
          (
            works n,
            works (n + 1),
            works (n + 1 + 1),
            works (n + 1 + 2),
            works (n + 1 + 2 + 1),
            works (n + 1 + 2 + 2),
            works (n + 1 + 2 + 3),
          )
          refl

    copy_link_works : (name target : Text) (n : ℕ) → (copy_link sys name target n).done ≡ true
    unfolding copy_link
    copy_link_works name target n = rw (works n, works (n + 1), works (n + 2)) refl

    copy_directory_works :
        (name : Text) (perm n : ℕ) (inside : Copied)
        → inside.done ≡ true
        → (copy_directory sys name perm n inside).done ≡ true
    copy_directory_works name perm n inside h = rw (works n, works (n + 1), works (n + 2)) h

    copy_entries_works : (es : Entries) (n : ℕ) → IsPlain es → (copy_entries sys es n).done ≡ true
    unfolding copy_entries
    copy_entries_works empty n p = refl
    copy_entries_works (directory name perm inside rest) n p =
        let c = copy_entries sys inside (n + 3) in
        let s = copy_directory sys name perm n c in
        join_works s (copy_entries sys rest s.calls)
          (copy_directory_works name perm n c (copy_entries_works inside (n + 3) p.0))
          (copy_entries_works rest s.calls p.1)
    copy_entries_works (file name perm time content rest) n p =
        let s = copy_regular sys name perm time content n in
        join_works s (copy_entries sys rest s.calls) (copy_regular_works name perm time content n)
          (copy_entries_works rest s.calls p)
    copy_entries_works (symlink name target rest) n p =
        let s = copy_link sys name target n in
        join_works s (copy_entries sys rest s.calls) (copy_link_works name target n)
          (copy_entries_works rest s.calls p)
    copy_entries_works (special name rest) n p = elim p [ ]

    pub copy_tree_works : (f : Folder) (n : ℕ) → IsPlain f.entries → (copy_tree sys f n).0 ≡ true
    unfolding copy_tree
    copy_tree_works f n p =
        rw (works n, works (n + 1), works (n + 2), works (n + 3))
          (copy_entries_works f.entries (n + 4) p)
