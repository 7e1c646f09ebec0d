-- ===== src/Anki/Registry/Laws.antt =====
-- internal/anki/registry/registry.go: Lookup after Put and Remove, and the list that All gives.
use imoogi_emacs.Prelude.{
  ℕ, ◌≡◌, refl, ◌∙◌, Bool, false, ◌&&◌, Option, none, some, List, [], ◌∷◌, arith, ◌==◌,
  if◌then◌else◌, any,
}
use imoogi_emacs.Prelude.Sort.{any-sort}
use imoogi_emacs.Anki.Registry.{Entry, Registry, lookup, put, remove, all, by_id, load_onto}

-- Put changes the entry of its own identifier and no other.
pub lookup-put :
    (r : Registry) (e : Entry) (n : ℕ)
    → lookup (put r e) n ≡ (if e.note_id == n then some e else lookup r n)
unfolding lookup put
lookup-put [] e n = refl
lookup-put (x ∷ r) e n = ground (arith, lookup-put r e n)

-- Remove drops the entry of its identifier and keeps every other.
pub lookup-remove :
    (r : Registry) (k n : ℕ) → lookup (remove r k) n ≡ (if k == n then none else lookup r n)
unfolding lookup remove
lookup-remove [] k n = ground arith
lookup-remove (x ∷ r) k n = ground (arith, lookup-remove r k n)

pub note_id-lookup : (r : Registry) (n : ℕ) {e : Entry} → lookup r n ≡ some e → e.note_id ≡ n
unfolding lookup
note_id-lookup [] n h = cc
note_id-lookup (x ∷ r) n {e} h = ground (arith, note_id-lookup r n {e = e})

-- each identifier occurs once, as in a Go map
abbrev pub IsMap : Registry → Type 0
IsMap [] = Unit
IsMap (e ∷ r) = (lookup r e.note_id ≡ none) × IsMap r

pub put-IsMap : (r : Registry) (e : Entry) → IsMap r → IsMap (put r e)
unfolding lookup put
put-IsMap [] e m = (refl, tt)
put-IsMap (x ∷ r) e m = ground (arith, put-IsMap r e, lookup-put r e x.note_id)

pub remove-IsMap : (r : Registry) (k : ℕ) → IsMap r → IsMap (remove r k)
unfolding lookup remove
remove-IsMap [] k m = tt
remove-IsMap (x ∷ r) k m = ground (arith, remove-IsMap r k, lookup-remove r k x.note_id)

pub load_onto-IsMap : (es : List Entry) (r : Registry) → IsMap r → IsMap (load_onto r es)
unfolding load_onto
load_onto-IsMap [] r m = m
load_onto-IsMap (e ∷ es) r m = load_onto-IsMap es (put r e) (put-IsMap r e m)

abbrev pub passes : (Entry → Bool) → Option Entry → Bool
passes p none = false
passes p (some e) = p e

any_absent :
    (p : Entry → Bool) (r : Registry) (n : ℕ)
    → lookup r n ≡ none
    → any (λ e. e.note_id == n && p e) r ≡ false
unfolding lookup
any_absent p [] n h = refl
any_absent p (x ∷ r) n h = ground (arith, any_absent p r n)

any-lookup :
    (p : Entry → Bool) (r : Registry) (n : ℕ)
    → IsMap r
    → any (λ e. e.note_id == n && p e) r ≡ passes p (lookup r n)
unfolding lookup
any-lookup p [] n m = refl
any-lookup p (x ∷ r) n m = ground (arith, any-lookup p r n, any_absent p r n)

-- In a registry with one entry for each identifier, some listed entry of an identifier passes a
-- test exactly when the entry that Lookup finds passes it.
pub any-all :
    (p : Entry → Bool) (r : Registry) (n : ℕ)
    → IsMap r
    → any (λ e. e.note_id == n && p e) (all r) ≡ passes p (lookup r n)
unfolding all
any-all p r n m = any-sort by_id _ r ∙ any-lookup p r n m
