-- ===== src/Tui/SourceForm.antt =====
-- internal/tui/settings.go, pathcomplete.go: the keys of the add and edit form of a source, with the
-- completion of its import field. Texts are bytes. The directory read, and the keys that save, test
-- or import, leave the form for code that is not modelled.
pub mod Completion
pub mod Keys
mod Examples
use tortui.Base.{
  ◌+◌, List, Option, Text, length, ◌%◌, ◌==◌, Bool, [], get_elem?, if◌then◌else◌, ℕ, ℤ, leb,
  text_eq, ◌∷◌, ◌-◌, codes,
}

-- Package utf8's validity, trimLastRune, strings.ToLower, strings.TrimSpace, and splitTorznabURL,
-- whose three results are `none` where it finds no key.
pub record Helpers : Type 0 where
  pub valid : Text → Bool
  pub trim_last_rune : Text → Text
  pub lower : Text → Text
  pub trimmed : Text → Text
  pub split_torznab_url : Text → Option (Text × Text)

pub data Field : Type 0 where
  name_field type_field url_field api_key_field cookie_field definition_field : Field
  import_field aggregator_import_field id_field : Field

-- `idx` is -1 after a completion of the prefix alone.
pub record PathCompletion : Type 0 where
  pub matches : List Text
  pub idx : ℤ
  pub applied : Text

-- The fields that the keys read or write; the cursor is never negative.
pub record Form : Type 0 where
  pub editing_id : Text
  pub name : Text
  pub typ : Text
  pub source_url : Text
  pub api_key : Text
  pub cookie : Text
  pub definition : Text
  pub id_override : Text
  pub import_text : Text
  pub completion : Option PathCompletion
  pub complete_gen : ℕ
  pub cursor : ℕ
  pub reveal : Bool
  pub dirty : Bool
  pub confirm_discard : Bool

unfoldable pub visible_fields : Text → Bool → List Field
visible_fields typ is_new =
    name_field
    ∷ type_field
    ∷ url_field
    ∷ api_key_field
    ∷ cookie_field
    ∷ (if typ == codes "scraper"
        then definition_field ∷ import_field ∷ id_field ∷ []
        else if is_new
        then aggregator_import_field ∷ id_field ∷ []
        else id_field ∷ [])

unfoldable pub form_fields : Form → List Field
unfolding visible_fields
form_fields f = visible_fields f.typ (f.editing_id == [])

unfoldable pub clamp_cursor : Form → Form
unfolding form_fields
clamp_cursor f =
    let n = length (form_fields f) in if leb n f.cursor then record f { cursor = n - 1 } else f

-- `none` for an index out of range, which panics.
unfoldable pub current : Form → Option Field
unfolding form_fields
current f = get_elem? (form_fields f) f.cursor

abbrev pub field_text : Form → Field → Text
field_text f name_field = f.name
field_text f type_field = []
field_text f url_field = f.source_url
field_text f api_key_field = f.api_key
field_text f cookie_field = f.cookie
field_text f definition_field = f.definition
field_text f import_field = f.import_text
field_text f aggregator_import_field = []
field_text f id_field = f.id_override

-- advanceField
unfoldable pub advance_field : Form → Form
unfolding clamp_cursor
advance_field f =
    let g = clamp_cursor f in record g { cursor = (g.cursor + 1) % length (form_fields g) }
