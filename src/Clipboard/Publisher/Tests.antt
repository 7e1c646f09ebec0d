-- ===== src/Clipboard/Publisher/Tests.antt =====
-- Publishing of small files, and the theorems at concrete inputs.
use imoogi_emacs.Prelude.{
  ℕ, ◌+◌, ◌≤◌, Text, text, equal, trim_space, Bool, false, ◌==◌, if◌then◌else◌, Option, none, some,
  [], ◌∷◌, ◌≡◌, ◌↔◌, refl, subst, some_eq,
}
use imoogi_emacs.Prelude.Dict.{insert}
use imoogi_emacs.Clipboard.Publisher.{
  File, Files, Room, System, asset_index_filename, sanitized_filename, record_asset, file_sha256,
  remove,
}
use imoogi_emacs.Clipboard.Publisher.Sources.{
  Limits, Stat, regular, sources, check_each, preflight_sources,
}
use imoogi_emacs.Clipboard.Publisher.Place.{
  find_in, find_existing_asset, fill, allocate, publish_one,
}
use imoogi_emacs.Clipboard.Publisher.Publish.{
  Outcome, failed, withdraw_each, compensate, abandon, load_asset_cache, save_to, save_asset_cache,
  publish_each, publish,
}
use imoogi_emacs.Clipboard.Publisher.Bounded.{Match, preflight_sources_iff}
use imoogi_emacs.Clipboard.Publisher.Saving.{IsKept}
use imoogi_emacs.Clipboard.Publisher.Kept.{publish-IsKept}

-- a root that holds nothing
abbrev empty_root : Room
empty_root = record { files = λ p. none; cache = []; calls = 0 }

-- the name t, if it is free
abbrev when_free : Option File → Option Text
when_free none = some (text "t")
when_free (some f) = none

abbrev choose : Files → Option Text
choose u = when_free (u (text "t"))

choose-free : (u : Files) (name : Text) → choose u ≡ some name → u name ≡ none
choose-free u name e = free (u (text "t")) refl e
  where
    free : (o : Option File) → u (text "t") ≡ o → when_free o ≡ some name → u name ≡ none
    free none h k = subst (λ q. u q ≡ none) (some_eq k) h
    free (some f) h k = cc

abbrev system_but : (ℕ → Bool) → System
system_but fails = record {
  fails = fails;
  kept = 1;
  clock = λ n. n;
  listed = λ n. [];
  source = λ n p. some (text "xyz");
  random_hex = λ n. some (text "0a");
  temporary = choose;
  encode = λ m. text "{}";
  decode = λ c. none;
  digits = λ n. (b'0' + n) ∷ [];
  sha256_hex = λ c. c;
}

abbrev lstat : Text → Stat
lstat p = regular 3

abbrev limits : Limits
limits = record { max_files = 2; max_file_bytes = 4; max_batch_bytes = 5 }

abbrev index_published : Room → Outcome × Room
index_published r =
    publish (system_but (λ n. false)) limits lstat (λ p. p) (some (text "/a"))
      (asset_index_filename ∷ []) r

-- A source with the name of the index, in a root without one, is published, and overwritten.
index_overwritten :
    (index_published empty_root).1.files asset_index_filename
    ≡ some (record { content = some (text "{}"); mtime = 9 })
unfolding publish publish_each publish_one find_in find_existing_asset allocate fill
    sanitized_filename record_asset load_asset_cache save_to save_asset_cache check_each
    preflight_sources equal trim_space insert remove file_sha256
index_overwritten = refl

-- the second reading of the source is shorter
abbrev shrinking : System
shrinking = record (system_but (λ n. n == 6)) {
  source = λ n p. if n == 1 then some (text "xyz") else some (text "x");
}

abbrev shrunk : Outcome × Room
shrunk = publish shrinking limits lstat (λ p. p) (some (text "/a")) (text "n" ∷ []) empty_root

-- The copy is short and cannot be removed: the failure reports no file that is left over.
orphan_unreported :
    (shrunk.0 ≡ failed)
    × (shrunk.1.files (text "n") ≡ some (record { content = some (text "x"); mtime = 4 }))
unfolding publish publish_each publish_one find_in find_existing_asset allocate fill abandon
    compensate withdraw_each sanitized_filename record_asset load_asset_cache check_each
    preflight_sources equal trim_space remove file_sha256
orphan_unreported = (refl, refl)

publish-IsKept_example : IsKept empty_root.files (index_published empty_root)
publish-IsKept_example =
    publish-IsKept (system_but (λ n. false)) limits lstat (λ p. p) (some (text "/a"))
      (asset_index_filename ∷ []) empty_root choose-free

preflight_sources_iff_example :
    (preflight_sources limits lstat (text "n" ∷ [])
      ≡ sources (record { path = text "n"; size = 3 } ∷ []))
    ↔ ((1 ≤ 1)
        × (1 ≤ 2)
        × Match limits lstat (text "n" ∷ []) (record { path = text "n"; size = 3 } ∷ [])
        × (3 + 0 ≤ 5))
preflight_sources_iff_example =
    preflight_sources_iff limits lstat (text "n" ∷ []) (record { path = text "n"; size = 3 } ∷ [])
