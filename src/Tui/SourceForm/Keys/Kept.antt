-- ===== src/Tui/SourceForm/Keys/Kept.antt =====
-- internal/tui/settings.go: the texts of a form that is not dirty.
use tortui.Base.{
  Bool, Text, Bool-cases, Option, if◌then◌else◌, ℕ, ◌≡◌, ◌==◌, false, leb, true, arith, false≢true,
  length, some, ltb, none, sym, ◌&&◌, inl, text_eq, ◌∙◌, inr, nat_eq, refl,
}
use tortui.Tui.SourceForm.{
  Form, Helpers, advance_field, clamp_cursor, PathCompletion, Field, form_fields, type_field,
  name_field, url_field, api_key_field, import_field, aggregator_import_field, cookie_field,
  definition_field, id_field,
}
use tortui.Tui.SourceForm.Keys.{
  Next, previous_field, KeyMsg, KeyType, shown, toggled_typ, cycled, handed, import_tab, discarded,
  replaced, edited, side_at, split_pasted, typed_at, other_key, panicked, key_runes, key_space,
  nth_match, key_backspace, next_idx, replaced,
}

-- What a user can enter.
pub record Entered : Type 0 where
  pub name : Text
  pub typ : Text
  pub source_url : Text
  pub api_key : Text
  pub cookie : Text
  pub definition : Text
  pub id_override : Text
  pub import_text : Text

unfoldable pub entered : Form → Entered
entered f = record {
  name = f.name;
  typ = f.typ;
  source_url = f.source_url;
  api_key = f.api_key;
  cookie = f.cookie;
  definition = f.definition;
  id_override = f.id_override;
  import_text = f.import_text;
}

-- A form that is not dirty holds what it was opened with.
abbrev pub IsKept : Entered → Form → Type 0
IsKept start f = f.dirty ≡ false → entered f ≡ start

-- `D` is what holds where the form is given up.
abbrev pub NextKept : Type 0 → Entered → Next → Type 0
NextKept D start (shown f read) = IsKept start f
NextKept D start (handed a f) = IsKept start f
NextKept D start discarded = D
NextKept D start replaced = D
NextKept D start panicked = Unit

module _ (D : Type 0) (start : Entered) where
  pub clamp_cursor-IsKept : (f : Form) → IsKept start f → IsKept start (clamp_cursor f)
  unfolding clamp_cursor entered
  clamp_cursor-IsKept f v = elim (Bool-cases (leb (length (form_fields f)) f.cursor)) [
    | inl q ↦ simp q v
    | inr q ↦ simp q v
  ]

  pub dirty-IsKept : (f : Form) → f.dirty ≡ true → IsKept start f
  dirty-IsKept f d c = absurd (false≢true (sym c ∙ d))

  pub advance_field-IsKept : (f : Form) → IsKept start f → IsKept start (advance_field f)
  unfolding advance_field entered
  advance_field-IsKept f v = clamp_cursor-IsKept f v

  pub previous_field-IsKept :
      (h : Helpers) (f : Form) → IsKept start f → IsKept start (previous_field h f)
  unfolding previous_field entered
  previous_field-IsKept h f v = clamp_cursor-IsKept f v

  pub cycled-NextKept :
      (f : Form) (c : PathCompletion) (o : Option (ℕ × Text)) → NextKept D start (cycled f c o)
  cycled-NextKept f c none = tt
  cycled-NextKept f c (some (i, t)) = λ d. absurd (false≢true (sym d))

  pub import_tab-NextKept :
      (f : Form) (o : Option PathCompletion) → IsKept start f → NextKept D start (import_tab f o)
  unfolding entered
  import_tab-NextKept f none v = v
  import_tab-NextKept f (some c) v =
      elim (Bool-cases (ltb 1 (length c.matches) && f.import_text == c.applied)) [
        | inl q ↦ simp q (cycled-NextKept f c (nth_match c (next_idx c.idx (length c.matches))))
        | inr q ↦ simp q v
      ]

  pub if-NextKept :
      (b : Bool) (m n : Next)
      → NextKept D start m
      → NextKept D start n
      → NextKept D start (if b then m else n)
  if-NextKept true m n a c = a
  if-NextKept false m n a c = c

  pub if_eq-NextKept :
      (b : Bool) (m n : Next)
      → (b ≡ true → NextKept D start m)
      → (b ≡ false → NextKept D start n)
      → NextKept D start (if b then m else n)
  if_eq-NextKept true m n a c = a refl
  if_eq-NextKept false m n a c = c refl

  module _ (h : Helpers) where
    pub split_pasted-dirty :
        (n : ℕ) (f : Form) (o : Option (Text × Text))
        → f.dirty ≡ true
        → (split_pasted h n f o).dirty ≡ true
    split_pasted-dirty n f none d = d
    split_pasted-dirty n f (some (s, k)) d = ground arith

    pub edited-NextKept :
        (n : ℕ) (f : Form) (field : Field) (t : Text)
        → IsKept start f
        → NextKept D start (edited h n f field t)
    edited-NextKept n f type_field t v = v
    edited-NextKept n f url_field t v = dirty-IsKept _ (
        split_pasted-dirty n (record f { source_url = t; dirty = true }) (h.split_torznab_url t)
          refl)
    edited-NextKept n f name_field t v = dirty-IsKept _ refl
    edited-NextKept n f api_key_field t v = dirty-IsKept _ refl
    edited-NextKept n f cookie_field t v = dirty-IsKept _ refl
    edited-NextKept n f definition_field t v = dirty-IsKept _ refl
    edited-NextKept n f import_field t v = dirty-IsKept _ refl
    edited-NextKept n f aggregator_import_field t v = dirty-IsKept _ refl
    edited-NextKept n f id_field t v = dirty-IsKept _ refl

    pub typed_at-NextKept :
        (kt : KeyType) (k : KeyMsg) (f : Form) (o : Option Field)
        → IsKept start f
        → NextKept D start (typed_at h kt k f o)
    typed_at-NextKept other_key k f o v = v
    typed_at-NextKept key_runes k f none v = tt
    typed_at-NextKept key_space k f none v = tt
    typed_at-NextKept key_backspace k f none v = tt
    typed_at-NextKept key_runes k f (some field) v = edited-NextKept k.rune_count f field _ v
    typed_at-NextKept key_space k f (some field) v = edited-NextKept k.rune_count f field _ v
    typed_at-NextKept key_backspace k f (some field) v = edited-NextKept 0 f field _ v

    pub toggled_typ-dirty : (f : Form) → (toggled_typ h f).dirty ≡ true
    unfolding toggled_typ clamp_cursor
    toggled_typ-dirty f = ground arith

    pub side_at-NextKept :
        (k : KeyMsg) (f : Form) (o : Option Field)
        → IsKept start f
        → NextKept D start (side_at h k f o)
    side_at-NextKept k f none v = tt
    side_at-NextKept k f (some type_field) v = dirty-IsKept (toggled_typ h f) (toggled_typ-dirty f)
    side_at-NextKept k f (some name_field) v = typed_at-NextKept k.key_type k f (some name_field) v
    side_at-NextKept k f (some url_field) v = typed_at-NextKept k.key_type k f (some url_field) v
    side_at-NextKept k f (some api_key_field) v =
        typed_at-NextKept k.key_type k f (some api_key_field) v
    side_at-NextKept k f (some cookie_field) v =
        typed_at-NextKept k.key_type k f (some cookie_field) v
    side_at-NextKept k f (some definition_field) v =
        typed_at-NextKept k.key_type k f (some definition_field) v
    side_at-NextKept k f (some import_field) v =
        typed_at-NextKept k.key_type k f (some import_field) v
    side_at-NextKept k f (some aggregator_import_field) v =
        typed_at-NextKept k.key_type k f (some aggregator_import_field) v
    side_at-NextKept k f (some id_field) v = typed_at-NextKept k.key_type k f (some id_field) v
