-- ===== src/Anki/CardOptions.antt =====
-- internal/anki/planner/card_options.go and planner/multiline.go: the reading and the validation
-- of the three card options, and renderType of planner/planner.go, by which they judge a type.
pub mod Gate
use imoogi_emacs.Prelude.{
  Text, text, equal, to_lower, trim_space, Bool, true, false, not, ◌&&◌, ◌||◌, if◌then◌else◌,
  Option, none, some,
}
use imoogi_emacs.Anki.Protocol.{
  Entry, Code, card_option_invalid, card_option_conflict, card_option_needs_cloze,
}

abbrev pub note_type_basic : Text
note_type_basic = text "Basic"

abbrev pub note_type_cloze : Text
note_type_cloze = text "Cloze"

abbrev pub basic_name : Text
basic_name = text "imoogi-Basic"

abbrev pub cloze_name : Text
cloze_name = text "imoogi-Cloze"

-- renderType
unfoldable pub render_type : Text → Text
render_type note_type =
    if equal note_type basic_name
    then note_type_basic
    else if equal note_type cloze_name
    then note_type_cloze
    else note_type

-- isClozeStyle
unfoldable pub is_cloze_style : Text → Bool
unfolding render_type
is_cloze_style declared = equal (render_type declared) note_type_cloze

pub data Direction : Type 0 where
  none_set rightward leftward both : Direction

pub record CardOptions : Type 0 where
  pub direction : Direction
  pub incremental : Bool
  pub swift : Bool

-- strings.EqualFold against a literal of ASCII letters
abbrev equal_fold : Text → Text → Bool
equal_fold a b = equal (to_lower a) (to_lower b)

-- whether the option is on, and whether the value was recognized
pub record Reading : Type 0 where
  pub on : Bool
  pub ok : Bool

unfoldable pub read_direction : Option Text → Reading
read_direction none = record { on = false; ok = true }
read_direction (some value) =
    let trimmed = trim_space value in
    if equal trimmed (text "->") || equal trimmed (text "<-") || equal trimmed (text "<->")
    then record { on = true; ok = true }
    else if equal_fold trimmed (text "nil")
    then record { on = false; ok = true }
    else record { on = false; ok = false }

unfoldable pub read_boolean : Option Text → Reading
read_boolean none = record { on = false; ok = true }
read_boolean (some value) =
    let trimmed = trim_space value in
    if equal_fold trimmed (text "t")
    then record { on = true; ok = true }
    else if equal_fold trimmed (text "nil")
    then record { on = false; ok = true }
    else record { on = false; ok = false }

-- The one code that a rejected entry earns, or none.
unfoldable pub validate_card_options : Entry → Option Code
validate_card_options e =
    let direction = read_direction e.direction in
    let incremental = read_boolean e.incremental in
    let swift = read_boolean e.swift in
    if not direction.ok || not incremental.ok || not swift.ok
    then some card_option_invalid
    else if swift.on && (direction.on || incremental.on)
    then some card_option_conflict
    else if (direction.on || incremental.on || swift.on) && not (is_cloze_style e.note_type)
    then some card_option_needs_cloze
    else none

-- the arrow of a direction that is on; `switch` with `->` as its default
arrow : Option Text → Direction
arrow none = none_set
arrow (some value) =
    let trimmed = trim_space value in
    if equal trimmed (text "<-")
    then leftward
    else if equal trimmed (text "<->")
    then both
    else rightward

-- readCardOptions
unfoldable pub read_card_options : Entry → CardOptions
unfolding arrow
read_card_options e = record {
  direction = if (read_direction e.direction).on then arrow e.direction else none_set;
  incremental = (read_boolean e.incremental).on;
  swift = (read_boolean e.swift).on;
}

-- the methods of CardOptions that say which card is made
unfoldable pub multiline : CardOptions → Bool
multiline o = elim o.direction [ none_set ↦ o.incremental | _ ↦ true ]
