-- ===== src/Clipboard/Owner/Tests.antt =====
-- The resolution of a project note, and the theorem at a concrete input.
use imoogi_emacs.Prelude.{Text, text, equal, ◌||◌, true, false, none, some, [], ◌≡◌, refl}
use imoogi_emacs.Prelude.Paths.{split, join, has_prefix, is_abs, clean, join_path, descend, prepend}
use imoogi_emacs.Prelude.Relative.{components, apart, rel}
use imoogi_emacs.Clipboard.Protocol.{project_notes, Owner}
use imoogi_emacs.Clipboard.Transaction.{Place}
use imoogi_emacs.Clipboard.Owner.{
  Evaluated, absent, found, Links, validate_shape, path_within, climb, canonical_for_containment,
  resolve_owner,
}

-- the project /p and its document are there, the assets are not yet
abbrev evaluated : Text → Evaluated
evaluated p = elim (equal p (text "/p") || equal p (text "/p/n")) [
  | true ↦ found p
  | false ↦ absent
]

abbrev links : Links
links = record { abs = some; eval_symlinks = evaluated; print = λ n. text "1" }

abbrev note : Owner
note = record {
  kind = project_notes;
  document = text "/p/n";
  root = text "/p";
  session = [];
  buffer = [];
  generation = 0;
}

abbrev place : Place
place = record { asset_root = text "/p/assets"; containment_root = text "/p" }

-- the root is not within itself: a note that is its own project is refused
root-refused : resolve_owner links (text "/s") (record note { document = text "/p" }) ≡ none
unfolding resolve_owner validate_shape canonical_for_containment path_within climb components apart
    rel clean split join descend prepend is_abs has_prefix join_path equal
root-refused = refl
