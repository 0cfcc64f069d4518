-- ===== src/Tui/SourceForm/Keys.antt =====
-- internal/tui/settings.go, pathcomplete.go: what a key, or a directory read's result, makes of the
-- form.
pub mod Range
pub mod Panics
pub mod Kept
pub mod Discards
use tortui.Base.{
  Text, ℤ, Bool, List, Option, if◌then◌else◌, none, ℕ, ◌+◌, ◌==◌, codes, length, not, pos, some,
  true, ◌∷◌, ◌%◌, ◌&&◌, [], false, get_elem?, ltb, text_eq, ◌||◌, ◌++◌, ◌-◌, nat_eq, negsuc, suc,
  zero,
}
use tortui.Engine.Paths.{has_prefix}
use tortui.Tui.SourceForm.{
  Field, Form, Helpers, PathCompletion, clamp_cursor, current, field_text, form_fields, type_field,
  advance_field, import_field, name_field, url_field, aggregator_import_field, api_key_field,
  cookie_field, definition_field, id_field,
}
use tortui.Tui.SourceForm.Completion.{apply_completion}

pub data KeyType : Type 0 where
  key_runes key_space key_backspace other_key : KeyType

-- A tea.KeyMsg: its String, its Type, its Runes and their number.
pub record KeyMsg : Type 0 where
  pub string : Text
  pub key_type : KeyType
  pub runes : Text
  pub rune_count : ℕ

-- What the form hands over to.
pub data Action : Type 0 where
  saves tests imports : Action

-- The form that is shown, with the number and the text of a directory read that starts; no form, or
-- the aggregator's in its place.
pub data Next : Type 0 where
  shown : Form → Option (ℕ × Text) → Next
  handed : Action → Form → Next
  discarded replaced panicked : Next

abbrev pub is_import : Field → Bool
is_import import_field = true
is_import name_field = false
is_import type_field = false
is_import url_field = false
is_import api_key_field = false
is_import cookie_field = false
is_import definition_field = false
is_import aggregator_import_field = false
is_import id_field = false

-- (c.idx + 1) % len(c.matches); Go's remainder of a negative number is no index.
abbrev pub next_idx : ℤ → ℕ → Option ℕ
next_idx (pos i) n = some ((i + 1) % n)
next_idx (negsuc zero) n = some (0 % n)
next_idx (negsuc (suc i)) n = none

abbrev pub found_at : ℕ → Option Text → Option (ℕ × Text)
found_at i none = none
found_at i (some t) = some (i, t)

abbrev pub nth_match : PathCompletion → Option ℕ → Option (ℕ × Text)
nth_match c none = none
nth_match c (some i) = found_at i (get_elem? c.matches i)

abbrev pub cycled : Form → PathCompletion → Option (ℕ × Text) → Next
cycled f c none = panicked
cycled f c (some (i, t)) =
    shown
      (record f {
        completion = some (record c { idx = pos i; applied = t });
        import_text = t;
        dirty = true;
      })
      none

abbrev pub read_started : Form → Next
read_started f =
    shown (record f { completion = none; complete_gen = f.complete_gen + 1 })
      (some (f.complete_gen + 1, f.import_text))

abbrev pub import_tab : Form → Option PathCompletion → Next
import_tab f none = read_started f
import_tab f (some c) =
    if ltb 1 (length c.matches) && f.import_text == c.applied
    then cycled f c (nth_match c (next_idx c.idx (length c.matches)))
    else read_started f

-- handleImportTab
unfoldable pub handle_import_tab : Form → Next
handle_import_tab f = import_tab f f.completion

-- A key, or the result of the read with this number.
pub data FormEvent : Type 0 where
  presses : KeyMsg → FormEvent
  reads : ℕ → Text → List Text → FormEvent

module _ (h : Helpers) where
  unfoldable pub is_url_source : Text → Bool
  is_url_source s =
      let l = h.lower (h.trimmed s) in
      has_prefix l (codes "http://") || has_prefix l (codes "https://")

  abbrev pub completed : Form → Text → Text × Option PathCompletion → Next
  completed f text (next, c) =
      if next == [] || next == text
      then shown (advance_field f) none
      else shown (record f { import_text = next; completion = c; dirty = true }) none

  abbrev pub result_at : Form → Text → List Text → Option Field → Next
  result_at f text matches none = panicked
  result_at f text matches (some field) =
      if not (is_import field) || not (f.import_text == text)
      then shown f none
      else completed f text (apply_completion h.valid text matches)

  -- handleFormComplete, while the form is open.
  unfoldable pub handle_form_complete : ℕ → Text → List Text → Form → Next
  handle_form_complete gen text matches f =
      if not (gen == f.complete_gen) then shown f none else result_at f text matches (current f)

  abbrev pub tab_at : Form → Option Field → Next
  tab_at f none = panicked
  tab_at f (some field) =
      if is_import field && not (f.import_text == []) && not (is_url_source f.import_text)
      then handle_import_tab f
      else shown (advance_field f) none

  abbrev pub enter_at : Form → Option Field → Next
  enter_at f none = panicked
  enter_at f (some import_field) =
      if h.trimmed f.import_text == [] then shown f none else handed imports f
  enter_at f (some aggregator_import_field) = replaced
  enter_at f (some name_field) = handed saves f
  enter_at f (some type_field) = handed saves f
  enter_at f (some url_field) = handed saves f
  enter_at f (some api_key_field) = handed saves f
  enter_at f (some cookie_field) = handed saves f
  enter_at f (some definition_field) = handed saves f
  enter_at f (some id_field) = handed saves f

  abbrev pub split_pasted : ℕ → Form → Option (Text × Text) → Form
  split_pasted count f none = f
  split_pasted count f (some (stripped, key)) =
      if ltb 1 count then record f { source_url = stripped; api_key = key } else f

  -- The text that a field gets, and what a pasted feed address becomes.
  abbrev pub edited : ℕ → Form → Field → Text → Next
  edited count f type_field v = shown f none
  edited count f url_field v =
      shown (split_pasted count (record f { source_url = v; dirty = true }) (h.split_torznab_url v))
        none
  edited count f name_field v = shown (record f { name = v; dirty = true }) none
  edited count f api_key_field v = shown (record f { api_key = v; dirty = true }) none
  edited count f cookie_field v = shown (record f { cookie = v; dirty = true }) none
  edited count f definition_field v = shown (record f { definition = v; dirty = true }) none
  edited count f import_field v = shown (record f { import_text = v; dirty = true }) none
  edited count f aggregator_import_field v = shown (record f { dirty = true }) none
  edited count f id_field v = shown (record f { id_override = v; dirty = true }) none

  abbrev pub typed_at : KeyType → KeyMsg → Form → Option Field → Next
  typed_at other_key k f field = shown f none
  typed_at key_runes k f none = panicked
  typed_at key_runes k f (some field) = edited k.rune_count f field (field_text f field ++ k.runes)
  typed_at key_space k f none = panicked
  typed_at key_space k f (some field) =
      edited k.rune_count f field (field_text f field ++ codes " ")
  typed_at key_backspace k f none = panicked
  typed_at key_backspace k f (some field) = edited 0 f field (h.trim_last_rune (field_text f field))

  unfoldable pub toggled_typ : Form → Form
  toggled_typ f = clamp_cursor (record f {
    typ = if f.typ == codes "torznab" then codes "scraper" else codes "torznab";
    dirty = true;
  })

  abbrev pub side_at : KeyMsg → Form → Option Field → Next
  side_at k f none = panicked
  side_at k f (some type_field) = shown (toggled_typ f) none
  side_at k f (some name_field) = typed_at k.key_type k f (some name_field)
  side_at k f (some url_field) = typed_at k.key_type k f (some url_field)
  side_at k f (some api_key_field) = typed_at k.key_type k f (some api_key_field)
  side_at k f (some cookie_field) = typed_at k.key_type k f (some cookie_field)
  side_at k f (some definition_field) = typed_at k.key_type k f (some definition_field)
  side_at k f (some import_field) = typed_at k.key_type k f (some import_field)
  side_at k f (some aggregator_import_field) =
      typed_at k.key_type k f (some aggregator_import_field)
  side_at k f (some id_field) = typed_at k.key_type k f (some id_field)

  unfoldable pub previous_field : Form → Form
  previous_field f =
      let g = clamp_cursor f in
      let n = length (form_fields g) in record g { cursor = (g.cursor + n - 1) % n }

  abbrev pub confirmed : Text → Form → Next
  confirmed s f =
      if s == codes "y" || s == codes "enter"
      then discarded
      else if s == codes "n" || s == codes "esc"
      then shown (record f { confirm_discard = false }) none
      else shown f none

  -- handleSourceFormKey
  unfoldable pub handle_source_form_key : KeyMsg → Form → Next
  handle_source_form_key k f =
      if f.confirm_discard
      then confirmed k.string f
      else if k.string == codes "esc"
      then (if f.dirty then shown (record f { confirm_discard = true }) none else discarded)
      else if k.string == codes "tab"
      then tab_at f (current f)
      else if k.string == codes "down"
      then shown (advance_field f) none
      else if k.string == codes "shift+tab" || k.string == codes "up"
      then shown (previous_field f) none
      else if k.string == codes "ctrl+r"
      then shown (record f { reveal = not f.reveal }) none
      else if k.string == codes "ctrl+s"
      then handed saves f
      else if k.string == codes "enter"
      then enter_at f (current f)
      else if k.string == codes "ctrl+t"
      then handed tests f
      else if k.string == codes "left" || k.string == codes "right" || k.string == codes " "
      then side_at k f (current f)
      else typed_at k.key_type k f (current f)

  unfoldable pub form_step : FormEvent → Form → Next
  unfolding handle_source_form_key handle_form_complete
  form_step (presses k) f = handle_source_form_key k f
  form_step (reads gen text matches) f = handle_form_complete gen text matches f

  -- Until the form is no longer shown.
  unfoldable pub run_form : List FormEvent → Next → Next
  unfolding form_step
  run_form [] n = n
  run_form (e ∷ es) (shown f read) = run_form es (form_step e f)
  run_form (e ∷ es) (handed a f) = handed a f
  run_form (e ∷ es) discarded = discarded
  run_form (e ∷ es) replaced = replaced
  run_form (e ∷ es) panicked = panicked
