-- ===== src/Anki/CardOptions/Gate.antt =====
-- internal/anki/planner/card_options.go: the entries that validateCardOptions passes.
use imoogi_emacs.Prelude.{◌≡◌, refl, ◌↔◌, Bool, true, false, not, ◌&&◌, ◌||◌, none, arith}
use imoogi_emacs.Anki.Protocol.{Entry}
use imoogi_emacs.Anki.CardOptions.{
  is_cloze_style, read_direction, read_boolean, validate_card_options, read_card_options, multiline,
}

-- whether each of the three values is one that its property accepts
abbrev pub recognized : Entry → Bool
recognized e =
    (read_direction e.direction).ok && (read_boolean e.incremental).ok && (read_boolean e.swift).ok

-- A direction is on exactly when the renderer is told one of the three arrows.
direction_on :
    (e : Entry)
    → multiline (read_card_options e)
      ≡ ((read_direction e.direction).on || (read_boolean e.incremental).on)
unfolding multiline read_card_options read_direction
direction_on e = ground arith

-- the cards that the admitted options may describe
pub record IsAdmissible (e : Entry) : Type 0 where
  pub values : recognized e ≡ true
  pub one_kind : ((read_card_options e).swift && multiline (read_card_options e)) ≡ false
  pub cloze_only :
      (not ((read_card_options e).swift || multiline (read_card_options e))
        || is_cloze_style e.note_type)
      ≡ true

swift_on : (e : Entry) → (read_card_options e).swift ≡ (read_boolean e.swift).on
unfolding read_card_options
swift_on e = refl

-- The gate passes an entry exactly when its three values are recognized, swift is not on beside a
-- multiline option, and an option that is on stands on a cloze type; the options are those that the
-- renderer is then given.
pub validate_card_options-IsAdmissible :
    (e : Entry) → (validate_card_options e ≡ none) ↔ IsAdmissible e
unfolding validate_card_options
validate_card_options-IsAdmissible e = (
  λ h. record {
    values = ground arith;
    one_kind = ground (arith, direction_on e, swift_on e);
    cloze_only = ground (arith, direction_on e, swift_on e);
  },
  λ a. ground (arith, direction_on e, swift_on e, a.values, a.one_kind, a.cloze_only),
)
