-- ===== src/Tui/SourceForm/Keys/Range.antt =====
-- internal/tui/settings.go, pathcomplete.go: a form whose cursor and completion are at what exists.
use tortui.Base.{
  List, Option, ℤ, ◌<◌, Bool, Bool-cases, Text, arith, ℕ, leb, length, pos, some, ◌≤◌, ◌∷◌, ◌==◌,
  [], get_elem?, inl, ltb, negsuc, none, ◌&&◌, inr, suc, ◌≡◌, text_eq, zero, refl, ◌+◌, nat_eq, ◌%◌,
}
use tortui.Tui.SourceForm.{
  Form, Helpers, advance_field, clamp_cursor, form_fields, PathCompletion, visible_fields,
}
use tortui.Tui.SourceForm.Completion.{apply_completion, longest_common_prefix}
use tortui.Tui.SourceForm.Keys.{
  Next, previous_field, read_started, shown, handed, import_tab, cycled, discarded, replaced,
  nth_match, panicked, next_idx,
}

abbrev pub IsIdx : ℤ → ℕ → Type 0
IsIdx (pos i) n = i < n
IsIdx (negsuc zero) n = Unit
IsIdx (negsuc (suc i)) n = ⊥

abbrev pub IsCycle : Option PathCompletion → Type 0
IsCycle none = Unit
IsCycle (some c) = IsIdx c.idx (length c.matches)

pub record IsInRange (f : Form) : Type 0 where
  pub at_field : f.cursor < length (form_fields f)
  pub cycle : IsCycle f.completion

abbrev pub IsSafe : Next → Type 0
IsSafe (shown f read) = IsInRange f
IsSafe (handed a f) = Unit
IsSafe discarded = Unit
IsSafe replaced = Unit
IsSafe panicked = ⊥

pub fields_pos : (f : Form) → 1 ≤ length (form_fields f)
unfolding form_fields visible_fields
fields_pos f = omega arith

pub get_elem-lt :
    {A : Type 0} (xs : List A) (i : ℕ) → i < length xs → (a : A) × (get_elem? xs i ≡ some a)
get_elem-lt [] i h = absurd (omega arith)
get_elem-lt (x ∷ xs) zero h = (x, refl)
get_elem-lt (x ∷ xs) (suc i) h = get_elem-lt xs i (omega arith)

pub clamp_cursor-IsInRange : (f : Form) → IsCycle f.completion → IsInRange (clamp_cursor f)
unfolding clamp_cursor form_fields
clamp_cursor-IsInRange f c = elim (Bool-cases (leb (length (form_fields f)) f.cursor)) [
  | inl q ↦ simp q (record { at_field = omega (arith, fields_pos f); cycle = c })
  | inr q ↦ simp q (record { at_field = ground arith; cycle = c })
]

pub advance_field-IsInRange : (f : Form) → IsCycle f.completion → IsInRange (advance_field f)
unfolding advance_field form_fields
advance_field-IsInRange f c = record {
  at_field = omega (arith, fields_pos (clamp_cursor f));
  cycle = (clamp_cursor-IsInRange f c).cycle;
}

pub previous_field-IsInRange :
    (h : Helpers) (f : Form) → IsCycle f.completion → IsInRange (previous_field h f)
unfolding previous_field form_fields
previous_field-IsInRange h f c = record {
  at_field = omega (arith, fields_pos (clamp_cursor f));
  cycle = (clamp_cursor-IsInRange f c).cycle;
}

pub nth_match-IsSafe :
    (f : Form) (c : PathCompletion) (i : ℕ)
    → IsInRange f
    → i < length c.matches
    → IsSafe (cycled f c (nth_match c (some i)))
unfolding form_fields
nth_match-IsSafe f c i v h =
    let (t, q) = get_elem-lt c.matches i h in simp q (record { at_field = v.at_field; cycle = h })

pub cycled-IsSafe :
    (f : Form) (c : PathCompletion) (z : ℤ)
    → IsInRange f
    → IsIdx z (length c.matches)
    → 1 < length c.matches
    → IsSafe (cycled f c (nth_match c (next_idx z (length c.matches))))
cycled-IsSafe f c (pos i) v h two =
    nth_match-IsSafe f c ((i + 1) % length c.matches) v (omega arith)
cycled-IsSafe f c (negsuc zero) v h two =
    nth_match-IsSafe f c (0 % length c.matches) v (omega arith)
cycled-IsSafe f c (negsuc (suc i)) v h two = absurd h

pub read_started-IsSafe : (f : Form) → IsInRange f → IsSafe (read_started f)
unfolding form_fields
read_started-IsSafe f v = record { at_field = v.at_field; cycle = tt }

pub import_tab-IsSafe :
    (f : Form) (o : Option PathCompletion) → IsCycle o → IsInRange f → IsSafe (import_tab f o)
import_tab-IsSafe f none c v = read_started-IsSafe f v
import_tab-IsSafe f (some c) i v =
    elim (Bool-cases (ltb 1 (length c.matches) && f.import_text == c.applied)) [
      | inl q ↦ simp q (cycled-IsSafe f c c.idx v i (ground arith))
      | inr q ↦ simp q (read_started-IsSafe f v)
    ]

pub apply_completion-IsCycle :
    (valid : Text → Bool) (input : Text) (ms : List Text)
    → IsCycle (apply_completion valid input ms).1
unfolding apply_completion
apply_completion-IsCycle valid input [] = tt
apply_completion-IsCycle valid input (m ∷ []) = tt
apply_completion-IsCycle valid input (m ∷ m' ∷ ms) =
    elim (Bool-cases (ltb (length input) (length (longest_common_prefix valid (m ∷ m' ∷ ms))))) [
      | inl q ↦ simp q tt
      | inr q ↦ simp q (omega arith)
    ]
