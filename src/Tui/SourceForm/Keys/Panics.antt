-- ===== src/Tui/SourceForm/Keys/Panics.antt =====
-- internal/tui/settings.go, pathcomplete.go: the two indexes of the form, the cursor and the match
-- that a completion stands at.
use tortui.Base.{
  List, Option, Bool, Bool-cases, Text, ℕ, if◌then◌else◌, some, ◌∷◌, ◌==◌, [], inl, ltb, none, not,
  true, ◌&&◌, codes, false, inr, ◌||◌, text_eq, subst, sym, nat_eq,
}
use tortui.Tui.SourceForm.{
  Form, Helpers, form_fields, Field, PathCompletion, current, type_field, import_field, name_field,
  url_field, aggregator_import_field, api_key_field, cookie_field, definition_field, id_field,
}
use tortui.Tui.SourceForm.Completion.{apply_completion}
use tortui.Tui.SourceForm.Keys.{
  Next, KeyType, form_step, handle_import_tab, handle_source_form_key, run_form, shown, toggled_typ,
  FormEvent, KeyMsg, completed, confirmed, edited, enter_at, handed, handle_form_complete,
  result_at, split_pasted, tab_at, discarded, replaced, is_import, side_at, typed_at, other_key,
  panicked, is_url_source, key_runes, key_space, key_backspace, presses, reads,
}
use tortui.Tui.SourceForm.Keys.Range.{
  IsCycle, IsInRange, IsSafe, advance_field-IsInRange, apply_completion-IsCycle,
  clamp_cursor-IsInRange, get_elem-lt, import_tab-IsSafe, previous_field-IsInRange,
}

module _ (h : Helpers) where
  completed-IsSafe :
      (f : Form) (text : Text) (r : Text × Option PathCompletion)
      → IsCycle r.1
      → IsInRange f
      → IsSafe (completed h f text r)
  unfolding form_fields
  completed-IsSafe f text (next, c) i v = elim (Bool-cases (next == [] || next == text)) [
    | inl q ↦ simp q (advance_field-IsInRange f v.cycle)
    | inr q ↦ simp q (record { at_field = v.at_field; cycle = i })
  ]

  result_at-IsSafe :
      (f : Form) (text : Text) (ms : List Text) (field : Field)
      → IsInRange f
      → IsSafe (result_at h f text ms (some field))
  result_at-IsSafe f text ms field v =
      elim (Bool-cases (not (is_import field) || not (f.import_text == text))) [
        | inl q ↦ simp q v
        | inr q ↦ simp q (
            completed-IsSafe f text (apply_completion h.valid text ms)
              (apply_completion-IsCycle h.valid text ms) v)
      ]

  tab_at-IsSafe : (f : Form) (field : Field) → IsInRange f → IsSafe (tab_at h f (some field))
  unfolding handle_import_tab
  tab_at-IsSafe f field v =
      elim (Bool-cases
        (is_import field && not (f.import_text == []) && not (is_url_source h f.import_text))) [
          | inl q ↦ simp q (import_tab-IsSafe f f.completion v.cycle v)
          | inr q ↦ simp q (advance_field-IsInRange f v.cycle)
        ]

  enter_at-IsSafe : (f : Form) (field : Field) → IsInRange f → IsSafe (enter_at h f (some field))
  enter_at-IsSafe f import_field v = elim (Bool-cases (h.trimmed f.import_text == [])) [
    | inl q ↦ simp q v
    | inr q ↦ simp q tt
  ]
  enter_at-IsSafe f aggregator_import_field v = tt
  enter_at-IsSafe f name_field v = tt
  enter_at-IsSafe f type_field v = tt
  enter_at-IsSafe f url_field v = tt
  enter_at-IsSafe f api_key_field v = tt
  enter_at-IsSafe f cookie_field v = tt
  enter_at-IsSafe f definition_field v = tt
  enter_at-IsSafe f id_field v = tt

  split_pasted-IsInRange :
      (n : ℕ) (f : Form) (o : Option (Text × Text)) → IsInRange f → IsInRange (split_pasted h n f o)
  unfolding form_fields
  split_pasted-IsInRange n f none v = v
  split_pasted-IsInRange n f (some (stripped, key)) v = elim (Bool-cases (ltb 1 n)) [
    | inl q ↦ simp q (record { at_field = v.at_field; cycle = v.cycle })
    | inr q ↦ simp q v
  ]

  edited-IsSafe :
      (n : ℕ) (f : Form) (field : Field) (t : Text) → IsInRange f → IsSafe (edited h n f field t)
  unfolding form_fields
  edited-IsSafe n f type_field t v = v
  edited-IsSafe n f url_field t v =
      split_pasted-IsInRange n (record f { source_url = t; dirty = true }) (h.split_torznab_url t)
        (record { at_field = v.at_field; cycle = v.cycle })
  edited-IsSafe n f name_field t v = record { at_field = v.at_field; cycle = v.cycle }
  edited-IsSafe n f api_key_field t v = record { at_field = v.at_field; cycle = v.cycle }
  edited-IsSafe n f cookie_field t v = record { at_field = v.at_field; cycle = v.cycle }
  edited-IsSafe n f definition_field t v = record { at_field = v.at_field; cycle = v.cycle }
  edited-IsSafe n f import_field t v = record { at_field = v.at_field; cycle = v.cycle }
  edited-IsSafe n f aggregator_import_field t v = record { at_field = v.at_field; cycle = v.cycle }
  edited-IsSafe n f id_field t v = record { at_field = v.at_field; cycle = v.cycle }

  typed_at-IsSafe :
      (kt : KeyType) (k : KeyMsg) (f : Form) (field : Field)
      → IsInRange f
      → IsSafe (typed_at h kt k f (some field))
  typed_at-IsSafe other_key k f field v = v
  typed_at-IsSafe key_runes k f field v = edited-IsSafe k.rune_count f field _ v
  typed_at-IsSafe key_space k f field v = edited-IsSafe k.rune_count f field _ v
  typed_at-IsSafe key_backspace k f field v = edited-IsSafe 0 f field _ v

  side_at-IsSafe :
      (k : KeyMsg) (f : Form) (field : Field) → IsInRange f → IsSafe (side_at h k f (some field))
  unfolding toggled_typ
  side_at-IsSafe k f type_field v = clamp_cursor-IsInRange _ v.cycle
  side_at-IsSafe k f name_field v = typed_at-IsSafe k.key_type k f name_field v
  side_at-IsSafe k f url_field v = typed_at-IsSafe k.key_type k f url_field v
  side_at-IsSafe k f api_key_field v = typed_at-IsSafe k.key_type k f api_key_field v
  side_at-IsSafe k f cookie_field v = typed_at-IsSafe k.key_type k f cookie_field v
  side_at-IsSafe k f definition_field v = typed_at-IsSafe k.key_type k f definition_field v
  side_at-IsSafe k f import_field v = typed_at-IsSafe k.key_type k f import_field v
  side_at-IsSafe k f aggregator_import_field v =
      typed_at-IsSafe k.key_type k f aggregator_import_field v
  side_at-IsSafe k f id_field v = typed_at-IsSafe k.key_type k f id_field v

  confirmed-IsSafe : (s : Text) (f : Form) → IsInRange f → IsSafe (confirmed h s f)
  unfolding form_fields
  confirmed-IsSafe s f v = elim (Bool-cases (s == codes "y" || s == codes "enter")) [
    | inl q ↦ simp q tt
    | inr q ↦ elim (Bool-cases (s == codes "n" || s == codes "esc")) [
      | inl r ↦ simp (q, r) (record { at_field = v.at_field; cycle = v.cycle })
      | inr r ↦ simp (q, r) v
    ]
  ]

  -- The choice between two safe outcomes.
  if-IsSafe : (b : Bool) (m n : Next) → IsSafe m → IsSafe n → IsSafe (if b then m else n)
  if-IsSafe true m n a c = a
  if-IsSafe false m n a c = c

  key-IsSafe : (k : KeyMsg) (f : Form) → IsInRange f → IsSafe (handle_source_form_key h k f)
  unfolding handle_source_form_key current form_fields
  key-IsSafe k f v =
      let (field, q) = get_elem-lt (form_fields f) f.cursor v.at_field in
      if-IsSafe f.confirm_discard (confirmed h k.string f) _ (confirmed-IsSafe k.string f v) (
        if-IsSafe (k.string == codes "esc") _ _
          (if-IsSafe f.dirty _ discarded (record { at_field = v.at_field; cycle = v.cycle }) tt)
          (if-IsSafe (k.string == codes "tab") (tab_at h f (current f)) _
            (subst (λ o. IsSafe (tab_at h f o)) (sym q) (tab_at-IsSafe f field v))
            (if-IsSafe (k.string == codes "down") _ _ (advance_field-IsInRange f v.cycle) (
              if-IsSafe (k.string == codes "shift+tab" || k.string == codes "up") _ _
                (previous_field-IsInRange h f v.cycle)
                (if-IsSafe (k.string == codes "ctrl+r") _ _
                  (record { at_field = v.at_field; cycle = v.cycle })
                  (if-IsSafe (k.string == codes "ctrl+s") _ _ tt (
                    if-IsSafe (k.string == codes "enter") (enter_at h f (current f)) _
                      (subst (λ o. IsSafe (enter_at h f o)) (sym q) (enter_at-IsSafe f field v))
                      (if-IsSafe (k.string == codes "ctrl+t") _ _ tt (
                        if-IsSafe
                          (k.string == codes "left"
                            || k.string == codes "right"
                            || k.string == codes " ")
                          (side_at h k f (current f)) (typed_at h k.key_type k f (current f))
                          (subst (λ o. IsSafe (side_at h k f o)) (sym q)
                            (side_at-IsSafe k f field v))
                          (subst (λ o. IsSafe (typed_at h k.key_type k f o)) (sym q)
                            (typed_at-IsSafe k.key_type k f field v)))))))))))

  form_step-IsSafe : (e : FormEvent) (f : Form) → IsInRange f → IsSafe (form_step h e f)
  unfolding form_step handle_form_complete current
  form_step-IsSafe (presses k) f v = key-IsSafe k f v
  form_step-IsSafe (reads gen text ms) f v =
      let (field, q) = get_elem-lt (form_fields f) f.cursor v.at_field in
      if-IsSafe (not (gen == f.complete_gen)) (shown f none) _ v
        (subst (λ o. IsSafe (result_at h f text ms o)) (sym q) (result_at-IsSafe f text ms field v))

  -- From a form whose cursor is on a visible field, no keys and no results of directory reads, late or
  -- not, make an index run out of range: the form that is shown has its cursor on a visible field, and
  -- its completion at one of its matches or before the first.
  pub run_form-IsSafe : (es : List FormEvent) (n : Next) → IsSafe n → IsSafe (run_form h es n)
  unfolding run_form
  run_form-IsSafe [] n v = v
  run_form-IsSafe (e ∷ es) (shown f read) v =
      run_form-IsSafe es (form_step h e f) (form_step-IsSafe e f v)
  run_form-IsSafe (e ∷ es) (handed a f) v = tt
  run_form-IsSafe (e ∷ es) discarded v = tt
  run_form-IsSafe (e ∷ es) replaced v = tt
  run_form-IsSafe (e ∷ es) panicked v = v
