-- ===== src/Tui/SourceForm/Keys/Discards.antt =====
-- internal/tui/settings.go: what may be lost when the form is discarded.
use tortui.Base.{
  Text, List, Option, ℕ, ◌≡◌, ◌==◌, false, true, [], codes, false≢true, some, ◌∷◌, none, not, sym,
  ◌||◌, ◌&&◌, inl, text_eq, inr, nat_eq, refl, ◌⊎◌, subst, Bool,
}
use tortui.Tui.SourceForm.{
  Form, Helpers, advance_field, PathCompletion, Field, type_field, current, name_field, url_field,
  api_key_field, import_field, aggregator_import_field, cookie_field, definition_field, id_field,
}
use tortui.Tui.SourceForm.Completion.{apply_completion}
use tortui.Tui.SourceForm.Keys.{
  Next, previous_field, KeyMsg, confirmed, form_step, handle_import_tab, handle_source_form_key,
  run_form, shown, FormEvent, completed, handed, handle_form_complete, import_tab, discarded,
  replaced, enter_at, presses, result_at, side_at, tab_at, typed_at, is_import, panicked, reads,
  imports, is_url_source, saves, tests,
}
use tortui.Tui.SourceForm.Keys.Kept.{
  Entered, entered, IsKept, NextKept, if-NextKept, if_eq-NextKept, advance_field-IsKept,
  import_tab-NextKept, previous_field-IsKept, side_at-NextKept, typed_at-NextKept,
}

module _ (D : Type 0) (start : Entered) where
  module _ (h : Helpers) where
    tab_at-NextKept :
        (f : Form) (o : Option Field) → IsKept start f → NextKept D start (tab_at h f o)
    unfolding handle_import_tab
    tab_at-NextKept f none v = tt
    tab_at-NextKept f (some field) v =
        if-NextKept D start
          (is_import field && not (f.import_text == []) && not (is_url_source h f.import_text))
          (import_tab f f.completion) _ (import_tab-NextKept D start f f.completion v)
          (advance_field-IsKept D start f v)

    enter_at-NextKept :
        (f : Form) (o : Option Field)
        → (o ≡ some aggregator_import_field → D)
        → IsKept start f
        → NextKept D start (enter_at h f o)
    enter_at-NextKept f none at v = tt
    enter_at-NextKept f (some import_field) at v =
        if-NextKept D start (h.trimmed f.import_text == []) (shown f none) (handed imports f) v v
    enter_at-NextKept f (some aggregator_import_field) at v = at refl
    enter_at-NextKept f (some name_field) at v = v
    enter_at-NextKept f (some type_field) at v = v
    enter_at-NextKept f (some url_field) at v = v
    enter_at-NextKept f (some api_key_field) at v = v
    enter_at-NextKept f (some cookie_field) at v = v
    enter_at-NextKept f (some definition_field) at v = v
    enter_at-NextKept f (some id_field) at v = v

    confirmed-NextKept :
        (s : Text) (f : Form)
        → (s == codes "y" || s == codes "enter" ≡ true → D)
        → IsKept start f
        → NextKept D start (confirmed h s f)
    unfolding entered
    confirmed-NextKept s f answered v =
        if_eq-NextKept D start (s == codes "y" || s == codes "enter") discarded _ answered (λ q.
          if-NextKept D start (s == codes "n" || s == codes "esc")
            (shown (record f { confirm_discard = false }) none) (shown f none) v v)

    key-NextKept :
        (k : KeyMsg) (f : Form)
        → (f.confirm_discard ≡ true → k.string == codes "y" || k.string == codes "enter" ≡ true → D)
        → (f.dirty ≡ false → D)
        → (k.string == codes "enter" ≡ true → current f ≡ some aggregator_import_field → D)
        → IsKept start f
        → NextKept D start (handle_source_form_key h k f)
    unfolding handle_source_form_key entered
    key-NextKept k f answered clean at v =
        if_eq-NextKept D start f.confirm_discard (confirmed h k.string f) _
          (λ q. confirmed-NextKept k.string f (answered q) v)
          (λ _.
            if-NextKept D start (k.string == codes "esc") _ _
              (if_eq-NextKept D start f.dirty (shown (record f { confirm_discard = true }) none)
                discarded (λ _. v) clean)
              (if-NextKept D start (k.string == codes "tab") (tab_at h f (current f)) _
                (tab_at-NextKept f (current f) v)
                (if-NextKept D start (k.string == codes "down") (shown (advance_field f) none) _
                  (advance_field-IsKept D start f v)
                  (if-NextKept D start (k.string == codes "shift+tab" || k.string == codes "up")
                    (shown (previous_field h f) none) _ (previous_field-IsKept D start h f v)
                    (if-NextKept D start (k.string == codes "ctrl+r")
                      (shown (record f { reveal = not f.reveal }) none) _ v
                      (if-NextKept D start (k.string == codes "ctrl+s") (handed saves f) _ v (
                        if_eq-NextKept D start (k.string == codes "enter")
                          (enter_at h f (current f)) _
                          (λ q. enter_at-NextKept f (current f) (at q) v)
                          (λ _.
                            if-NextKept D start (k.string == codes "ctrl+t") (handed tests f) _ v (
                              if-NextKept D start
                                (k.string == codes "left"
                                  || k.string == codes "right"
                                  || k.string == codes " ")
                                (side_at h k f (current f)) (typed_at h k.key_type k f (current f))
                                (side_at-NextKept D start h k f (current f) v)
                                (typed_at-NextKept D start h k.key_type k f (current f) v))))))))))

    completed-NextKept :
        (f : Form) (text : Text) (r : Text × Option PathCompletion)
        → IsKept start f
        → NextKept D start (completed h f text r)
    completed-NextKept f text (next, c) v =
        if-NextKept D start (next == [] || next == text) (shown (advance_field f) none) _
          (advance_field-IsKept D start f v) (λ d. absurd (false≢true (sym d)))

    result_at-NextKept :
        (f : Form) (text : Text) (ms : List Text) (o : Option Field)
        → IsKept start f
        → NextKept D start (result_at h f text ms o)
    result_at-NextKept f text ms none v = tt
    result_at-NextKept f text ms (some field) v =
        if-NextKept D start (not (is_import field) || not (f.import_text == text)) (shown f none) _
          v (completed-NextKept f text (apply_completion h.valid text ms) v)

    form_step-NextKept :
        (e : FormEvent) (f : Form) → D → IsKept start f → NextKept D start (form_step h e f)
    unfolding form_step handle_form_complete
    form_step-NextKept (presses k) f d v = key-NextKept k f (λ _ _. d) (λ _. d) (λ _ _. d) v
    form_step-NextKept (reads gen text ms) f d v =
        if-NextKept D start (not (gen == f.complete_gen)) (shown f none) _ v
          (result_at-NextKept f text ms (current f) v)

module _ (start : Entered) (h : Helpers) where
  run_form-NextKept :
      (es : List FormEvent) (n : Next)
      → NextKept Unit start n
      → NextKept Unit start (run_form h es n)
  unfolding run_form
  run_form-NextKept [] n v = v
  run_form-NextKept (e ∷ es) (shown f read) v =
      run_form-NextKept es (form_step h e f) (form_step-NextKept Unit start h e f tt v)
  run_form-NextKept (e ∷ es) (handed a f) v = v
  run_form-NextKept (e ∷ es) discarded v = tt
  run_form-NextKept (e ∷ es) replaced v = tt
  run_form-NextKept (e ∷ es) panicked v = tt

-- The form is no longer there, and was not handed on.
abbrev pub is_gone : Next → Bool
is_gone (shown f read) = false
is_gone (handed a f) = false
is_gone discarded = true
is_gone replaced = true
is_gone panicked = false

NextKept-is_gone :
    (D : Type 0) (start : Entered) (n : Next) → is_gone n ≡ true → NextKept D start n → D
NextKept-is_gone D start (shown f read) gone v = absurd (false≢true gone)
NextKept-is_gone D start (handed a f) gone v = absurd (false≢true gone)
NextKept-is_gone D start discarded gone v = v
NextKept-is_gone D start replaced gone v = v
NextKept-is_gone D start panicked gone v = absurd (false≢true gone)

-- Why a key may give up the form `f`, opened as `opened_form`.
abbrev pub MayGo : Form → Form → KeyMsg → Type 0
MayGo opened_form f k =
    ((f.confirm_discard ≡ true) × (k.string == codes "y" || k.string == codes "enter" ≡ true))
    ⊎ (entered f ≡ entered opened_form)
    ⊎ ((k.string == codes "enter" ≡ true) × (current f ≡ some aggregator_import_field))

-- A form was opened, not dirty, and is still shown. A key that does not hand it over to a save, a
-- test or an import gives it up, or puts the aggregator's in its place, only as the answer "y" or enter to the question whether to discard it,
-- or where every text in it is what it was opened with, or as enter on the field that imports from
-- an aggregator, where it does not ask; whatever keys and completions came before.
pub run_form-is_gone :
    (h : Helpers) (opened_form : Form) (es : List FormEvent) (f : Form) (read : Option (ℕ × Text))
    (k : KeyMsg)
    → opened_form.dirty ≡ false
    → run_form h es (shown opened_form none) ≡ shown f read
    → is_gone (handle_source_form_key h k f) ≡ true
    → MayGo opened_form f k
run_form-is_gone h opened_form es f read k clean run_to gone =
    let start = entered opened_form in
    let kept : NextKept Unit start (shown f read) =
      subst (NextKept Unit start) run_to
        (run_form-NextKept start h es (shown opened_form none) (λ _. refl)) in
    NextKept-is_gone (MayGo opened_form f k) start (handle_source_form_key h k f) gone (
      key-NextKept (MayGo opened_form f k) start h k f (λ q r. inl (q, r)) (λ q. inr (inl (kept q)))
        (λ q r. inr (inr (q, r))) kept)
