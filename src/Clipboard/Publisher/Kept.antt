-- ===== src/Clipboard/Publisher/Kept.antt =====
-- internal/clipboard/publish.go: what Publish does to the files of the asset root.
use imoogi_emacs.Prelude.{
  Text, Bool, true, false, Option, none, some, List, [], ◌∷◌, ◌≡◌, refl, sym, ◌∙◌, subst, All,
  All-append, All-imp, Option-cases, inl, inr,
}
use imoogi_emacs.Prelude.Dict.{Dict}
use imoogi_emacs.Clipboard.Protocol.{Asset}
use imoogi_emacs.Clipboard.Publisher.{Files, CacheEntry, Room, System}
use imoogi_emacs.Clipboard.Publisher.Sources.{
  Limits, Stat, SourceFile, Checked, refused, sources, preflight_sources,
}
use imoogi_emacs.Clipboard.Publisher.Place.{Placed, publish_one}
use imoogi_emacs.Clipboard.Publisher.Publish.{
  PublishResult, empty_result, Outcome, load_asset_cache, save_asset_cache, conclude, created,
  extended, after_one, publish_each, with_cache, in_root, or_default, after_preflight, publish,
}
use imoogi_emacs.Clipboard.Publisher.Search.{Extends, no_file, Stands, Fresh, Post}
use imoogi_emacs.Clipboard.Publisher.Placing.{publish_one-Post}
use imoogi_emacs.Clipboard.Publisher.Saving.{
  IsKept, abandon-IsKept, SavePost, save_asset_cache-SavePost,
}

module _ (sys : System)
    (temporary_free : (u : Files) (name : Text) → sys.temporary u ≡ some name → u name ≡ none) where
  -- what the loop keeps: nothing that was there is gone, the files made were not there, and the assets
  -- so far stand
  record SoFar (t : Files) (result : PublishResult) (r : Room) : Type 0 where
    extends : Extends t r.files
    fresh : All (λ name. t name ≡ none) result.created_files
    stand : All (λ a. Stands r.files a.relative_path) result.assets

  conclude-IsKept :
      (t : Files) (result : PublishResult) (r : Room) (o : Bool × Room)
      → SoFar t result r
      → SavePost sys temporary_free r.files o
      → IsKept t (conclude sys result o)
  conclude-IsKept t result r (true, r') s p = (
    λ q f other h. p q f other (s.extends q f h),
    All-imp _ result.assets (λ a k other. (k.0, p a.relative_path k.0 other k.1)) s.stand,
    s.fresh,
  )
  conclude-IsKept t result r (false, r') s p =
      abandon-IsKept sys t result r' s.fresh (λ q f h. p q f (s.extends q f h))

  absent_before : (t u : Files) (name : Text) → Extends t u → u name ≡ none → t name ≡ none
  absent_before t u name e free = elim (Option-cases (t name)) [
    | inl a ↦ a
    | inr (f, h) ↦ absurd (no_file (sym free ∙ e name f h))
  ]

  SoFar-extended :
      (t : Files) (result : PublishResult) (r r' : Room) (a : Asset) (name : Option Text)
      → SoFar t result r
      → Post r.files (some (a, name), r')
      → SoFar t (extended result a name) r'
  SoFar-extended t result r r' a name s p = record {
    extends = λ q f h. p.0 q f (s.extends q f h);
    fresh = All-append _ result.created_files (created name) s.fresh (made name p.2);
    stand =
        All-append _ result.assets (a ∷ [])
          (All-imp _ result.assets (λ b k. (k.0, p.0 b.relative_path k.0 k.1)) s.stand) (p.1, tt);
  }
    where
      made : (name : Option Text) → Fresh r.files name → All (λ n. t n ≡ none) (created name)
      made none f = tt
      made (some n) f = (absent_before t r.files n s.extends f, tt)

  module _ (base : Text → Text) (root : Text) where
    after_one-IsKept :
        (t : Files) (result : PublishResult) (r : Room)
        (next : PublishResult → Room → Outcome × Room) (o : Placed × Room)
        → ((result : PublishResult) (r : Room) → SoFar t result r → IsKept t (next result r))
        → SoFar t result r
        → Post r.files o
        → IsKept t (after_one sys result next o)
    after_one-IsKept t result r next (none, r') further s p =
        abandon-IsKept sys t result r' s.fresh (λ q f h. p q f (s.extends q f h))
    after_one-IsKept t result r next (some (a, name), r') further s p =
        further (extended result a name) r' (SoFar-extended t result r r' a name s p)

    publish_each-IsKept :
        (t : Files) (ss : List SourceFile) (result : PublishResult) (r : Room)
        → SoFar t result r
        → IsKept t (publish_each sys base root ss result r)
    unfolding publish_each
    publish_each-IsKept t [] result r s =
        conclude-IsKept t result r (save_asset_cache sys r) s
          (save_asset_cache-SavePost sys temporary_free r)
    publish_each-IsKept t (x ∷ ss) result r s =
        after_one-IsKept t result r (publish_each sys base root ss) (publish_one sys root base x r)
          (publish_each-IsKept t ss) s (publish_one-Post sys root base x r)

    with_cache-IsKept :
        (t : Files) (ss : List SourceFile) (o : Option (Dict CacheEntry) × Room)
        → o.1.files ≡ t
        → IsKept t (with_cache sys base root ss o)
    with_cache-IsKept t ss (none, r) e = subst (Extends t) (sym e) (λ p f h. h)
    with_cache-IsKept t ss (some cache, r) e =
        publish_each-IsKept t ss empty_result (record r { cache = cache })
          (record { extends = subst (Extends t) (sym e) (λ p f h. h); fresh = tt; stand = tt })

  in_root-IsKept :
      (base : Text → Text) (root : Option Text) (ss : List SourceFile) (r : Room)
      → IsKept r.files (in_root sys base root ss r)
  unfolding load_asset_cache
  in_root-IsKept base none ss r = λ p f h. h
  in_root-IsKept base (some root) ss r =
      with_cache-IsKept base root r.files ss (load_asset_cache sys r) refl

  after_preflight-IsKept :
      (base : Text → Text) (root : Option Text) (r : Room) (c : Checked)
      → IsKept r.files (after_preflight sys base root r c)
  after_preflight-IsKept base root r (refused e) = λ p f h. h
  after_preflight-IsKept base root r (sources ss) = in_root-IsKept base root ss r

-- Where CreateTemp gives names that are free, publishing replaces and removes nothing that stood in the
-- asset root, whatever calls fail, except that a success replaces the index. After a success the assets
-- stand there, but for one that bears the name of the index, and the files that were made were not
-- there before.
pub publish-IsKept :
    (sys : System) (limits : Limits) (lstat : Text → Stat) (base : Text → Text) (root : Option Text)
    (paths : List Text) (r : Room)
    → ((u : Files) (name : Text) → sys.temporary u ≡ some name → u name ≡ none)
    → IsKept r.files (publish sys limits lstat base root paths r)
unfolding publish
publish-IsKept sys limits lstat base root paths r free =
    after_preflight-IsKept sys free base root r (preflight_sources (or_default limits) lstat paths)
