-- ===== src/Prelude/Relative.antt =====
-- filepath.Rel on clean absolute paths, and such paths as lists of their elements.
use mathlib.Core.Path.{◌≡◌, refl, ap}
use mathlib.Core.Bool.{not}
use mathlib.Core.List.{List, [], ◌∷◌, ◌++◌, map}
use package.imoogi_emacs.Prelude.Tests.{if◌then◌else◌}
use package.imoogi_emacs.Prelude.Bytes.{Text, text, equal}
use package.imoogi_emacs.Prelude.Lists.{keep, All, All-imp}
use package.imoogi_emacs.Prelude.Paths.{split, join, IsSegment, split-join}

-- the elements of a path between its slashes
unfoldable pub components : Text → List Text
components p = keep (λ c. not (equal c [])) (split b'/' p)

-- what is left of two paths behind the elements that they share
unfoldable pub apart : List Text → List Text → List Text × List Text
apart [] ts = ([], ts)
apart (b ∷ bs) [] = (b ∷ bs, [])
apart (b ∷ bs) (t ∷ ts) =
    let further = apart bs ts in if equal b t then further else (b ∷ bs, t ∷ ts)

abbrev pub ascent : List Text × List Text → Text
ascent ([], []) = text "."
ascent (bs, ts) = join b'/' (map (λ b. text "..") bs ++ ts)

-- filepath.Rel
unfoldable pub rel : Text → Text → Text
rel base target = ascent (apart (components base) (components target))

-- cs is a path below ps
abbrev pub IsBelow : List Text → List Text → Type 0
IsBelow ps cs = (x : Text) × (xs : List Text) × (cs ≡ ps ++ x ∷ xs)

-- the absolute path of its elements
abbrev pub rooted : List Text → Text
rooted ps = b'/' ∷ join b'/' ps

keep_segments : (ps : List Text) → All IsSegment ps → keep (λ c. not (equal c [])) ps ≡ ps
keep_segments [] h = refl
keep_segments (p ∷ ps) h = rw (keep, h.0.0) (ap (λ l. p ∷ l) (keep_segments ps h.1))

pub components-rooted : (ps : List Text) → All IsSegment ps → components (rooted ps) ≡ ps
unfolding components split join equal
components-rooted [] h = refl
components-rooted (p ∷ ps) h =
    rw (keep, split-join b'/' p ps (All-imp _ (p ∷ ps) (λ q k. k.3) h)) (keep_segments (p ∷ ps) h)
