-- ===== src/Anki/Planner/Fields.antt =====
-- planner/planner.go: resolveFields, resolveDeck, appendSourceLink, and renderError of
-- planner/multiline.go.
pub mod Walks
pub mod Keeps
use Prim.Native.Nat.{◌/◌, ◌%◌}
use imoogi_emacs.Prelude.{
  ℕ, ◌+◌, Text, text, equal, to_lower, Bool, true, false, not, ◌&&◌, ◌||◌, leb, ltb, ◌==◌,
  if◌then◌else◌, Option, none, some, List, [], ◌∷◌, ◌++◌,
}
use imoogi_emacs.Prelude.Dict.{Dict, lookup, insert}
use imoogi_emacs.Anki.Protocol.{
  Code, ankiconnect_error, note_field_missing, cloze_marker_missing, multiline_answer_missing,
  extra_block_unbalanced, swift_arrow_missing, org_parse_error, valid_org_id,
}
use imoogi_emacs.Anki.CardOptions.{note_type_basic, note_type_cloze}
use imoogi_emacs.Anki.Planner.Runner.{
  Env, Runner, RenderError, Outcome, ok, err, Ask, model_field_names,
}

-- resolveDeck
unfoldable pub resolve_deck : Option Text → Text → Text
resolve_deck none default_deck = default_deck
resolve_deck (some deck) default_deck = if not (equal deck []) then deck else default_deck

-- byLower: the last name of a spelling wins
index_names : Dict Text → List Text → Dict Text
index_names by_lower [] = by_lower
index_names by_lower (name ∷ names) = index_names (insert (to_lower name) name by_lower) names

-- clozeExtraAliases
cloze_extra_aliases : Text → List Text
cloze_extra_aliases lowered =
    if equal lowered (text "back extra")
    then text "extra" ∷ []
    else if equal lowered (text "extra")
    then text "back extra" ∷ []
    else []

-- the loop over the aliases, which stops at the first that is found
first_found : Dict Text → Option Text → List Text → Option Text
first_found by_lower found [] = found
first_found by_lower (some actual) (alias ∷ aliases) = some actual
first_found by_lower none (alias ∷ aliases) = first_found by_lower (lookup alias by_lower) aliases

-- the real name of a rendered field
unfoldable pub resolve_name : Dict Text → Text → Option Text
unfolding first_found cloze_extra_aliases
resolve_name by_lower rendered =
    let lowered = to_lower rendered in
    first_found by_lower (lookup lowered by_lower) (cloze_extra_aliases lowered)

-- the loop over the rendered fields
unfoldable pub resolve_each : Dict Text → Dict Text → Dict Text → Outcome (Dict Text)
unfolding resolve_name
resolve_each by_lower resolved [] = ok resolved
resolve_each by_lower resolved ((rendered, value) ∷ fields) =
    elim (resolve_name by_lower rendered) [
      | none ↦ err note_field_missing
      | some actual ↦ resolve_each by_lower (insert actual value resolved) fields
    ]

cache_names : Text → Outcome (List Text) → Ask (List Text)
cache_names note_type (err c) r = (err c, r)
cache_names note_type (ok names) r =
    (ok names, record r { model_fields = insert note_type names r.model_fields })

cached_names : Env → Text → Option (List Text) → Ask (List Text)
unfolding cache_names
cached_names env note_type (some names) r = (ok names, r)
cached_names env note_type none r =
    let (o, r') = model_field_names env ankiconnect_error note_type r in cache_names note_type o r'

-- the names of a note type's fields, asked for once in a run
unfoldable pub field_names : Env → Text → Ask (List Text)
unfolding cached_names
field_names env note_type r = cached_names env note_type (lookup note_type r.model_fields) r

abbrev resolve_in : Dict Text → Outcome (List Text) → Outcome (Dict Text)
resolve_in fields (err c) = err c
resolve_in fields (ok names) = resolve_each (index_names [] names) [] fields

-- resolveFields
unfoldable pub resolve_fields : Env → Text → Dict Text → Ask (Dict Text)
unfolding field_names resolve_each index_names
resolve_fields env note_type fields r =
    let (o, r') = field_names env note_type r in (resolve_in fields o, r')

-- url.QueryEscape
abbrev hex_digit : ℕ → ℕ
hex_digit d = if ltb d 10 then 48 + d else 55 + d

abbrev unreserved : ℕ → Bool
unreserved c =
    (leb b'A' c && leb c b'Z')
    || (leb b'a' c && leb c b'z')
    || (leb b'0' c && leb c b'9')
    || c == b'-'
    || c == b'_'
    || c == b'.'
    || c == b'~'

abbrev escape_byte : ℕ → Text
escape_byte c =
    if unreserved c
    then c ∷ []
    else if c == 32
    then b'+' ∷ []
    else b'%' ∷ hex_digit (c / 16) ∷ hex_digit (c % 16) ∷ []

query_escape : Text → Text
query_escape [] = []
query_escape (c ∷ s) = escape_byte c ++ query_escape s

-- sourceLinkFormat
source_link : Text → Text
unfolding query_escape
source_link org_id =
    text "<div class=\"imoogi-src\"><a href=\"imoogi-anki://open?id="
    ++ (query_escape org_id ++ text "\">Emacs에서 원본 열기</a></div>")

-- sourceLinkField
source_link_field : Text → Option Text
source_link_field shape =
    if equal shape note_type_basic
    then some (text "Back")
    else if equal shape note_type_cloze
    then some (text "Back Extra")
    else none

link_onto : Text → Text → Dict Text → Option Text → Dict Text
unfolding source_link
link_onto name org_id fields none = fields
link_onto name org_id fields (some value) = insert name (value ++ source_link org_id) fields

link_at : Text → Dict Text → Option Text → Dict Text
unfolding link_onto
link_at org_id fields none = fields
link_at org_id fields (some name) =
    if equal org_id [] || not (valid_org_id org_id)
    then fields
    else link_onto name org_id fields (lookup name fields)

-- appendSourceLink
unfoldable pub append_source_link : Text → Text → Dict Text → Dict Text
unfolding link_at source_link_field
append_source_link shape org_id fields = link_at org_id fields (source_link_field shape)

-- renderError: the code, and whether the entry is skipped
unfoldable pub render_error : RenderError → Code × Bool
render_error RenderError.cloze_marker_missing = (cloze_marker_missing, true)
render_error RenderError.multiline_answer_missing = (multiline_answer_missing, true)
render_error RenderError.extra_block_unbalanced = (extra_block_unbalanced, true)
render_error RenderError.swift_arrow_missing = (swift_arrow_missing, true)
render_error RenderError.other = (org_parse_error, false)
