-- ===== src/Anki/Tests.antt =====
-- The theorems on the registry, the hash and the card options at concrete inputs.
use mathlib.Core.List.{Permᴰ}
use imoogi_emacs.Prelude.{
  ℕ, Text, text, equal, trim_space, to_lower, ◌≡◌, refl, ◌↔◌, true, false, none, some, [], ◌∷◌,
}
use imoogi_emacs.Prelude.Dict
use imoogi_emacs.Prelude.Dict.{Dict}
use imoogi_emacs.Anki.Protocol
use imoogi_emacs.Anki.Registry.{Entry, Registry, lookup, all, load_onto}
use imoogi_emacs.Anki.Registry.File.{Files, readable, Faults, save}
use imoogi_emacs.Anki.Registry.File.RoundTrip.{lookup-load-all}
use imoogi_emacs.Anki.Registry.File.Atomic.{IsAtomic, save-IsAtomic}
use imoogi_emacs.Anki.Registry.Laws.{IsMap}
use imoogi_emacs.Anki.Hashing.{hash}
use imoogi_emacs.Anki.Hashing.Canonical.{IsFieldMap, hash-perm}
use imoogi_emacs.Anki.CardOptions.{
  validate_card_options, read_direction, read_boolean, is_cloze_style, render_type,
}
use imoogi_emacs.Anki.CardOptions.Gate.{IsAdmissible, validate_card_options-IsAdmissible}

abbrev entry : ℕ → Entry
entry n = record {
  note_id = n;
  source_path = text "a.org";
  note_type = text "Basic";
  resolved_deck = text "Default";
  content_hash = text "00";
}

abbrev stored : Registry
stored = entry 3 ∷ entry 1 ∷ []

stored-IsMap : IsMap stored
unfolding lookup
stored-IsMap = (refl, (refl, tt))

abbrev card : Dict Text
card = (text "Front", text "Q") ∷ (text "Back", text "A") ∷ []

card-IsMap : IsFieldMap card
unfolding Dict.lookup equal
card-IsMap = (refl, (refl, tt))

hash-perm_example :
    hash (λ t. t) (text "Basic") card (text "Default") (text "x" ∷ text "y" ∷ [])
    ≡ hash
        (λ t. t)
        (text "Basic")
        ((text "Back", text "A") ∷ (text "Front", text "Q") ∷ [])
        (text "Default")
        (text "y" ∷ text "x" ∷ [])
hash-perm_example =
    hash-perm (λ t. t) (text "Basic") (text "Default") card-IsMap (Permᴰ.swap refl refl)
      (Permᴰ.swap refl refl)

abbrev lines : Protocol.Entry
lines = record {
  key = text "k";
  note_id = none;
  note_type = text "imoogi-Cloze";
  source_path = text "a.org";
  deck = none;
  tags = [];
  title = text "Q";
  body = text "- A";
  direction = some (text "->");
  incremental = none;
  swift = none;
  org_id = [];
}

lines_pass : validate_card_options lines ≡ none
unfolding validate_card_options read_direction read_boolean is_cloze_style render_type equal
    trim_space to_lower
lines_pass = refl

validate_card_options-IsAdmissible_example :
    (validate_card_options lines ≡ none) ↔ IsAdmissible lines
validate_card_options-IsAdmissible_example = validate_card_options-IsAdmissible lines

-- a registry file that cannot be written because the rename fails
abbrev stuck : Faults
stuck = record { create = false; write = false; sync = false; close = false; rename = true }

abbrev kept_file : Files
kept_file = record { target = some (readable (entry 1 ∷ [])); temp = none }

save-IsAtomic_example : IsAtomic stored kept_file (save stuck stored kept_file)
save-IsAtomic_example = save-IsAtomic stored stuck kept_file stored-IsMap

lookup-load-all_example : lookup (load_onto [] (all stored)) 3 ≡ lookup stored 3
lookup-load-all_example = lookup-load-all stored 3 stored-IsMap
