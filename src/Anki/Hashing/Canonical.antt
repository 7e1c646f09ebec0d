-- ===== src/Anki/Hashing/Canonical.antt =====
-- internal/anki/hashing/hashing.go: the order of the fields and of the tags.
use mathlib.Core.List.{Permᴰ}
use mathlib.Core.Path.{fun_ext, subst₂}
use imoogi_emacs.Prelude.{
  Text, text, text_leb, text_leb_total, text_leb_antisymm, text_leb_trans, equal_iff, equal_sym,
  ◌≡◌, refl, sym, ap, ◌∙◌, subst, Option, none, List, [], ◌∷◌, ◌++◌, arith,
}
use imoogi_emacs.Prelude.Sort.{sort-perm, IsTotal}
use imoogi_emacs.Prelude.Dict.{Dict, lookup}
use imoogi_emacs.Anki.Hashing.{value_or_empty, names, field_block, canonical, hash}

text_order : IsTotal text_leb
text_order = record { total = text_leb_total; antisymm = text_leb_antisymm; trans = text_leb_trans }

-- each field name occurs once, as in a Go map
abbrev pub IsFieldMap : Dict Text → Type 0
IsFieldMap [] = Unit
IsFieldMap ((k, v) ∷ m) = (lookup k m ≡ none) × IsFieldMap m

names-perm : {l m : Dict Text} → Permᴰ l m → Permᴰ (names l) (names m)
names-perm Permᴰ.nil = Permᴰ.nil
names-perm (Permᴰ.cons e p) = Permᴰ.cons (ap (λ f. f.0) e) (names-perm p)
names-perm (Permᴰ.swap e f) = Permᴰ.swap (ap (λ f. f.0) e) (ap (λ f. f.0) f)
names-perm (Permᴰ.trans p q) = Permᴰ.trans (names-perm p) (names-perm q)

-- The maps of a permutation look alike, and the one is a map if the other is.
record SameMap (l m : Dict Text) : Type 0 where
  looks : (k : Text) → lookup k l ≡ lookup k m
  map : IsFieldMap m

lookup-swap :
    (a b : Text × Text) (m : Dict Text) (k : Text)
    → IsFieldMap (a ∷ b ∷ m)
    → lookup k (a ∷ b ∷ m) ≡ lookup k (b ∷ a ∷ m)
unfolding lookup
lookup-swap (i, v) (j, w) m k h = ground (arith, equal_iff i k, equal_iff j k, equal_iff j i)

swap-SameMap :
    (a b : Text × Text) (m : Dict Text) → IsFieldMap (a ∷ b ∷ m) → SameMap (a ∷ b ∷ m) (b ∷ a ∷ m)
unfolding lookup
swap-SameMap (i, v) (j, w) m h = record {
  looks = λ k. lookup-swap (i, v) (j, w) m k h;
  map = ground (arith, equal_sym i j);
}

cons-SameMap :
    (a : Text × Text) (l m : Dict Text) → IsFieldMap (a ∷ l) → SameMap l m → SameMap (a ∷ l) (a ∷ m)
unfolding lookup
cons-SameMap (i, v) l m h s = record {
  looks = λ k. rw (s.looks k, lookup);
  map = (sym (s.looks i) ∙ h.0, s.map);
}

perm-SameMap : {l m : Dict Text} → Permᴰ l m → IsFieldMap l → SameMap l m
perm-SameMap Permᴰ.nil h = record { looks = λ k. refl; map = tt }
perm-SameMap (Permᴰ.cons {a} {b} {l₁} {l₂} e p) h =
    subst (λ x. SameMap (a ∷ l₁) (x ∷ l₂)) e (cons-SameMap a l₁ l₂ h (perm-SameMap p h.1))
perm-SameMap (Permᴰ.swap {a} {b} {a'} {b'} {l} e f) h =
    subst₂ (λ x y. SameMap (a ∷ b ∷ l) (y ∷ x ∷ l)) e f (swap-SameMap a b l h)
perm-SameMap (Permᴰ.trans p q) h =
    let first = perm-SameMap p h in
    let second = perm-SameMap q first.map in
    record { looks = λ k. first.looks k ∙ second.looks k; map = second.map }

-- Two calls with the same note type and deck, the same fields and the same tags, each in any order and
-- each field name once,
-- give the same hash, whatever the hash function.
pub hash-perm :
    (sha256_hex : Text → Text) (note_type deck : Text) {fields fields' : Dict Text}
    {tags tags' : List Text}
    → IsFieldMap fields
    → Permᴰ fields fields'
    → Permᴰ tags tags'
    → hash sha256_hex note_type fields deck tags ≡ hash sha256_hex note_type fields' deck tags'
unfolding hash canonical
hash-perm sha256_hex note_type deck {fields} {fields'} {tags} {tags'} h p q =
    let same_block : field_block fields ≡ field_block fields' =
      fun_ext λ k. ap (λ o. line k o) ((perm-SameMap p h).looks k) in
    rw (sort-perm text_leb text_order (names-perm p), sort-perm text_leb text_order q, same_block)
  where
    line : Text → Option Text → Text
    line name value = text "field" ++ (0 ∷ (name ++ (0 ∷ (value_or_empty value ++ (1 ∷ [])))))
