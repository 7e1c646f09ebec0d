-- ===== src/Clipboard/Verify.antt =====
-- internal/clipboard/service.go: verifyPreparedManifest, which compares what a manifest promises
-- with the files on disk.
use Prim.Native.Nat.{◌/◌, ◌%◌}
use imoogi_emacs.Prelude.{
  ℕ, ◌+◌, Text, equal, Bool, true, false, not, ◌&&◌, ◌||◌, leb, ltb, ◌==◌, length, if◌then◌else◌,
  Option, none, some, List, [], ◌∷◌, ◌++◌,
}
use imoogi_emacs.Clipboard.Protocol.{Asset, Manifest}

is_prefix : Text → Text → Bool
is_prefix [] s = true
is_prefix (x ∷ p) [] = false
is_prefix (x ∷ p) (y ∷ s) = x == y && is_prefix p s

-- strings.Contains
unfoldable pub has_substring : Text → Text → Bool
unfolding is_prefix
has_substring [] p = is_prefix p []
has_substring (x ∷ s) p = is_prefix p (x ∷ s) || has_substring s p

-- url.PathEscape
abbrev path_byte : ℕ → Bool
path_byte c =
    (leb b'A' c && leb c b'Z')
    || (leb b'a' c && leb c b'z')
    || (leb b'0' c && leb c b'9')
    || c == b'-'
    || c == b'_'
    || c == b'.'
    || c == b'~'
    || c == b'$'
    || c == b'&'
    || c == b'+'
    || c == b'='
    || c == b':'
    || c == b'@'

abbrev hex_digit : ℕ → ℕ
hex_digit d = if ltb d 10 then 48 + d else 55 + d

unfoldable pub path_escape : Text → Text
path_escape [] = []
path_escape (c ∷ s) =
    (if path_byte c then c ∷ [] else b'%' ∷ hex_digit (c / 16) ∷ hex_digit (c % 16) ∷ [])
    ++ path_escape s

module _ (sha256_hex : Text → Text) where
  abbrev pub verify_data : Text → Asset → Option Text → Bool
  verify_data document a none = false
  verify_data document a (some content) =
      length content == a.size
      && equal (sha256_hex content) a.sha256
      && (has_substring document a.relative_path
          || has_substring document (path_escape a.relative_path))

  unfoldable pub verify_assets : (Text → Option Text) → Text → List Asset → Bool
  verify_assets read document [] = true
  verify_assets read document (a ∷ assets) =
      verify_data document a (read a.path) && verify_assets read document assets

  abbrev pub verify_document : (Text → Option Text) → List Asset → Option Text → Bool
  unfolding verify_assets
  verify_document read assets none = false
  verify_document read assets (some document) = verify_assets read document assets

  -- verifyPreparedManifest, true where it returns no error
  unfoldable pub verify_prepared : (Text → Option Text) → Manifest → Bool
  unfolding verify_assets
  verify_prepared read m =
      not (equal m.owner.document []) && verify_document read m.assets (read m.owner.document)
