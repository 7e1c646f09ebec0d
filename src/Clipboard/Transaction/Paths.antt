-- ===== src/Clipboard/Transaction/Paths.antt =====
-- internal/clipboard/owner.go: the names that safeComponent makes.
use imoogi_emacs.Prelude.{
  ℕ, Text, text, equal, Bool, false, ◌||◌, ◌==◌, Bool-cases, inl, inr, [], ◌∷◌, map, any, ◌≡◌, refl,
  arith, ==_iff,
}
use imoogi_emacs.Clipboard.Transaction.{safe_byte, safe_name, safe_component}

-- a slash, a backslash or a zero byte
abbrev pub is_separator : ℕ → Bool
is_separator c = c == b'/' || c == 92 || c == 0

-- one component, which stays in the directory that it is joined to
pub record IsComponent (s : Text) : Type 0 where
  pub nonempty : equal s [] ≡ false
  pub not_here : equal s (text ".") ≡ false
  pub not_up : equal s (text "..") ≡ false
  pub plain : any is_separator s ≡ false

any-safe_byte : (s : Text) → any is_separator (map safe_byte s) ≡ false
any-safe_byte [] = refl
any-safe_byte (c ∷ s) = ground (arith, any-safe_byte s, ==_iff c b'/', ==_iff c 92, ==_iff c 0)

invalid-IsComponent : IsComponent (text "invalid")
unfolding equal
invalid-IsComponent = record { nonempty = refl; not_here = refl; not_up = refl; plain = refl }

safe_name-IsComponent : (s : Text) → any is_separator s ≡ false → IsComponent (safe_name s)
safe_name-IsComponent s h =
    elim (Bool-cases (equal s [] || equal s (text ".") || equal s (text ".."))) [
      | inl special ↦ rw special invalid-IsComponent
      | inr usual ↦ rw usual (record {
        nonempty = ground arith;
        not_here = ground arith;
        not_up = ground arith;
        plain = h;
      })
    ]

-- Whatever the name, the component made of it is not empty, not `.` or `..`, and has no slash,
-- backslash or zero byte.
pub safe_component-IsComponent : (value : Text) → IsComponent (safe_component value)
unfolding safe_component
safe_component-IsComponent value = safe_name-IsComponent (map safe_byte value) (any-safe_byte value)
