-- ===== src/Artifact/Staging/Links.antt =====
-- internal/artifact/artifact.go: the symbolic links that createVerifiedSymlinks makes lead to files or
-- directories of the staging directory.
use imoogi_emacs.Prelude.{
  ℕ, Text, Option, none, some, List, [], ◌∷◌, ◌++◌, ◌≡◌, refl, sym, ap, subst, ◌∙◌, All,
}
use imoogi_emacs.Prelude.Dict.{Dict, lookup}
use imoogi_emacs.Prelude.Paths.{IsSegment}
use imoogi_emacs.Artifact.Paths.{ok, refused, contained_path, already_exists, PendingSymlink}
use imoogi_emacs.Artifact.Paths.Accepts.{contained_path-segments}
use imoogi_emacs.Artifact.Headers.{EntryKind}
use imoogi_emacs.Artifact.Staging.{
  Node, directory, file, symlink, Place, Disk, Faults, proceed, ◌>>=◌, ◌>>◌, lift, parent, lstat,
  make, mkdir_no_symlink_below, materialized, target_kind, when_absent, target_place,
  create_symlink, create_verified_symlinks,
}
use imoogi_emacs.Artifact.Staging.Trees.{IsReal, IsLinked, IsSafe}
use imoogi_emacs.Artifact.Staging.Safe.{
  Post, proceed-Post, unchanged, forget, lstat-Post, make-Post, mkdir-Post, lift-Post, Standing,
}

-- a path that is not the root is what stands before its last component, and that component
pub unsnoc :
    (a : Text) (l : Place) → (q : Place) × (x : Text) × (a ∷ l ≡ q ++ x ∷ []) × (parent (a ∷ l) ≡ q)
unfolding parent
unsnoc a [] = ([], a, refl, refl)
unsnoc a (b ∷ l) = let (q, x, e, f) = unsnoc b l in (a ∷ q, x, ap (λ r. a ∷ r) e, ap (λ r. a ∷ r) f)

All-unsnoc : (q : Place) (x : Text) → All IsSegment (q ++ x ∷ []) → All IsSegment q × IsSegment x
All-unsnoc [] x h = (tt, h.0)
All-unsnoc (a ∷ q) x h = let (k, l) = All-unsnoc q x h.1 in ((h.0, k), l)

-- a place that contained_path gives, as a directory and a plain name
pub record Entry (p : Place) : Type 0 where
  pub above : Place
  pub name : Text
  pub joined : p ≡ above ++ name ∷ []
  pub is_parent : parent p ≡ above
  pub plain_above : All IsSegment above
  pub plain : IsSegment name

pub contained_path-Entry : (name : Text) (p : Place) → contained_path name ≡ ok p → Entry p
contained_path-Entry name p h =
    let (a, l, e, plain) = contained_path-segments name p h in
    let (q, x, f, g) = unsnoc a l in
    let (k, m) = All-unsnoc q x (subst (All IsSegment) f plain) in
    record {
      above = q;
      name = x;
      joined = e ∙ f;
      is_parent = ap parent e ∙ g;
      plain_above = k;
      plain = m;
    }

module _ (limit : ℕ) (faults : Faults) where
  -- the target was found, and is no link
  abbrev Met : Option Node → Type 0
  Met o = (n : Node) × (o ≡ some n) × IsReal n

  materialized-Post :
      (o : Option Node) (d : Disk)
      → IsSafe limit d.tree
      → Post limit d.tree (λ u t. Met o) (materialized o d)
  materialized-Post none d s = unchanged limit (refused _) d s tt
  materialized-Post (some (symlink c)) d s = unchanged limit (refused _) d s tt
  materialized-Post (some directory) d s = unchanged limit (ok tt) d s (directory, refl, tt)
  materialized-Post (some (file c)) d s = unchanged limit (ok tt) d s (file c, refl, tt)

  module _ (link : PendingSymlink) (at : Place) (e : Entry at)
      (here : contained_path link.name ≡ ok at) (place : Place)
      (there : target_place link ≡ ok place) (n : Node) (real : IsReal n) where
    link_made :
        (o : Option Node) (d : Disk)
        → IsSafe limit d.tree
        → d.tree place ≡ some n
        → d.tree (parent at) ≡ some directory
        → d.tree at ≡ o
        → Post limit d.tree
            (λ u t. Unit)
            (when_absent already_exists o (make faults at (symlink link.target)) d)
    unfolding target_place
    link_made (some m) d s found above absent = unchanged limit (refused _) d s tt
    link_made none d s found above absent =
        let below = ap d.tree (sym e.joined) ∙ absent in
        subst (λ q. Post limit d.tree (λ u t. Unit) (make faults q (symlink link.target) d))
          (sym e.joined)
          (forget limit (
            make-Post limit faults e.above e.name e.plain (symlink link.target) d s
              (ap d.tree (sym e.is_parent) ∙ above) below
              (subst (λ q. IsLinked d.tree q link.target) e.joined
                (record {
                  name = link.name;
                  place = place;
                  node = n;
                  at = here;
                  resolves = there;
                  found = found;
                  real = real;
                }))))

    linking :
        (d : Disk)
        → IsSafe limit d.tree
        → d.tree place ≡ some n
        → Post limit d.tree
            (λ u t. Unit)
            ((mkdir_no_symlink_below faults (parent at)
                >> (lstat faults at >>= λ taken.
                    when_absent already_exists taken (make faults at (symlink link.target))))
              d)
    linking d s found =
        proceed-Post limit (Standing limit (parent at))
          (mkdir_no_symlink_below faults (parent at) d) _
          (mkdir-Post limit faults (parent at) d
            (subst (All IsSegment) (sym e.is_parent) e.plain_above) s)
          (λ u d1 s1 e1 above.
            proceed-Post limit (λ o t. t at ≡ o) (lstat faults at d1) _
              (lstat-Post limit faults at d1 s1)
              (λ o d2 s2 e2 taken.
                link_made o d2 s2 (e2 place n (e1 place n found)) (e2 (parent at) directory above)
                  taken))

  pub create_symlink-Post :
      (seen : Dict EntryKind) (link : PendingSymlink) (d : Disk)
      → IsSafe limit d.tree
      → Post limit d.tree (λ u t. Unit) (create_symlink faults seen link d)
  unfolding create_symlink
  create_symlink-Post seen link d s =
      proceed-Post limit _ (lift (target_kind (lookup link.target_name seen)) d) _
        (lift-Post limit faults (target_kind (lookup link.target_name seen)) d s)
        (λ u d1 s1 e1 g1.
          proceed-Post limit _ (lift (contained_path link.name) d1) _
            (lift-Post limit faults (contained_path link.name) d1 s1)
            (λ at d2 s2 e2 here.
              proceed-Post limit _ (lift (target_place link) d2) _
                (lift-Post limit faults (target_place link) d2 s2)
                (λ place d3 s3 e3 there.
                  proceed-Post limit (λ o t. t place ≡ o) (lstat faults place d3) _
                    (lstat-Post limit faults place d3 s3)
                    (λ o d4 s4 e4 found.
                      checked at (contained_path-Entry link.name at here) here place there o d4 s4
                        found))))
    where
      checked :
          (at : Place)
          → Entry at
          → contained_path link.name ≡ ok at
          → (place : Place) → target_place link ≡ ok place
          → (o : Option Node) (d4 : Disk) → IsSafe limit d4.tree
          → d4.tree place ≡ o
          → Post limit d4.tree
              (λ u t. Unit)
              (proceed (materialized o d4) λ u. do
                mkdir_no_symlink_below faults (parent at)
                taken ← lstat faults at
                when_absent already_exists taken (make faults at (symlink link.target)))
      checked at e here place there none d4 s4 found = unchanged limit (refused _) d4 s4 tt
      checked at e here place there (some (symlink c)) d4 s4 found =
          unchanged limit (refused _) d4 s4 tt
      checked at e here place there (some directory) d4 s4 found =
          linking link at e here place there directory tt d4 s4 found
      checked at e here place there (some (file c)) d4 s4 found =
          linking link at e here place there (file c) tt d4 s4 found

  pub create_verified_symlinks-Post :
      (seen : Dict EntryKind) (links : List PendingSymlink) (d : Disk)
      → IsSafe limit d.tree
      → Post limit d.tree (λ u t. Unit) (create_verified_symlinks faults seen links d)
  unfolding create_verified_symlinks
  create_verified_symlinks-Post seen [] d s = unchanged limit (ok tt) d s tt
  create_verified_symlinks-Post seen (link ∷ links) d s =
      proceed-Post limit _ (create_symlink faults seen link d) _ (create_symlink-Post seen link d s)
        (λ u d1 s1 e1 g1. create_verified_symlinks-Post seen links d1 s1)
