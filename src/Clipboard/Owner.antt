-- ===== src/Clipboard/Owner.antt =====
-- internal/clipboard/owner.go: ResolveOwner, canonicalForContainment and pathWithin, and ValidateShape of
-- internal/clipboard/protocol.go.
pub mod Contained
mod Tests
use mathlib.Core.List.{reverse}
use imoogi_emacs.Prelude.{
  ℕ, Text, text, equal, Bool, true, false, not, ◌&&◌, ◌||◌, ◌==◌, if◌then◌else◌, Option, none, some,
  List, [], ◌∷◌, ◌++◌, any,
}
use imoogi_emacs.Prelude.Paths.{has_prefix, is_abs, clean, dir, join_path}
use imoogi_emacs.Prelude.Relative.{components, rel, rooted}
use imoogi_emacs.Clipboard.Protocol.{
  OwnerKind, project_notes, standalone, staging, Owner, is_identity,
}
use imoogi_emacs.Clipboard.Transaction.{Place, safe_component}

-- what filepath.EvalSymlinks gives; denied is any error but that nothing is there
pub data Evaluated : Type 0 where
  absent denied : Evaluated
  found : Text → Evaluated

-- filepath.Abs, filepath.EvalSymlinks, and fmt.Sprint of a generation
pub record Links : Type 0 where
  pub abs : Text → Option Text
  pub eval_symlinks : Text → Evaluated
  pub print : ℕ → Text

-- Owner.ValidateShape
unfoldable pub validate_shape : Owner → Bool
validate_shape o = elim o.kind [
  | project_notes ↦ not (equal o.document []) && not (equal o.root [])
  | standalone ↦ not (equal o.document []) && not (equal o.root [])
  | staging ↦
      is_identity (record { session = o.session; buffer = o.buffer; generation = o.generation })
]

-- pathWithin, on what Rel gave
abbrev pub stays : Text → Bool
stays relative =
    not (equal relative (text ".."))
    && not (has_prefix relative (text "../"))
    && not (is_abs relative)

-- pathWithin
unfoldable pub path_within : Text → Text → Bool
path_within root candidate = stays (rel root candidate)

-- the suffix, the outermost element first, joined to what was resolved
abbrev pub rejoin : Text → List Text → Text
rejoin resolved [] = clean resolved
rejoin resolved (p ∷ ps) = rejoin (join_path resolved p) ps

-- the end of a path without the extension of its last element
unfoldable pub without_ext : Text → Text
without_ext [] = []
without_ext (c ∷ s) =
    let rest = without_ext s in
    if c == b'.' && not (any (λ d. d == b'.' || d == b'/') s) then [] else c ∷ rest

module _ (links : Links) where
  abbrev pub on_eval : List Text → Option Text → Evaluated → Option Text
  on_eval below next (found resolved) = some (rejoin resolved below)
  on_eval below next denied = none
  on_eval below next absent = next

  -- the loop of canonicalForContainment on an absolute path, whose elements are listed from the last;
  -- below are those that were taken off
  unfoldable pub climb : Text → List Text → List Text → Option Text
  climb whole [] below = on_eval below (some whole) (links.eval_symlinks (rooted []))
  climb whole (c ∷ cs) below =
      on_eval below (climb whole cs (c ∷ below)) (links.eval_symlinks (rooted (reverse (c ∷ cs))))

  abbrev pub from_abs : Option Text → Option Text
  from_abs none = none
  from_abs (some p) = climb (clean p) (reverse (components (clean p))) []

  -- canonicalForContainment
  unfoldable pub canonical_for_containment : Text → Option Text
  canonical_for_containment path = from_abs (links.abs path)

  abbrev pub on_assets : Text → Option Text → Option Place
  on_assets root none = none
  on_assets root (some assets) =
      if not (path_within root assets) || equal assets root
      then none
      else some (record { asset_root = assets; containment_root = root })

  abbrev pub on_root : Text → Option Text → Option Place
  on_root document none = none
  on_root document (some root) =
      if not (path_within root document) || equal document root
      then none
      else on_assets root (canonical_for_containment (join_path root (text "assets")))

  abbrev pub on_document : Owner → Option Text → Option Place
  on_document o none = none
  on_document o (some document) = on_root document (canonical_for_containment o.root)

  abbrev pub on_standalone_root : Text → Option Text → Option Place
  on_standalone_root expected none = none
  on_standalone_root expected (some root) =
      if not (equal root expected)
      then none
      else some (record { asset_root = root; containment_root = dir expected })

  abbrev pub on_standalone : Owner → Option Text → Option Place
  on_standalone o none = none
  on_standalone o (some document) =
      on_standalone_root (without_ext document ++ text ".assets") (canonical_for_containment o.root)

  abbrev pub below_base : Owner → Option Text → Option Place
  below_base o none = none
  below_base o (some base) =
      let generation =
        join_path
          (join_path (join_path (join_path base (text "sessions")) (safe_component o.session))
            (safe_component o.buffer))
          (links.print o.generation) in
      some (record {
        asset_root = join_path generation (text "assets");
        containment_root = generation;
      })

  abbrev pub by_kind : Text → Owner → OwnerKind → Option Place
  by_kind base o project_notes = on_document o (canonical_for_containment o.document)
  by_kind base o standalone = on_standalone o (canonical_for_containment o.document)
  by_kind base o staging = below_base o (links.abs base)

  -- ResolveOwner; none is an error
  unfoldable pub resolve_owner : Text → Owner → Option Place
  resolve_owner base o = if not (validate_shape o) then none else by_kind base o o.kind
