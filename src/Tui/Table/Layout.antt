-- ===== src/Tui/Table/Layout.antt =====
-- internal/tui/components/table.go: which columns are shown at a width, and how wide; which rows
-- are shown at a height.
pub mod Drops
pub mod Widths
pub mod Window
use tortui.Base.{
  List, Option, ℕ, ℤ, Bool, false, if◌then◌else◌, length, none, some, suc, ◌∷◌, ◌&&◌, ◌+◌, ◌-◌,
  ◌==◌, [], lt_ℤ, ltb, true, zero, ◌/◌, leb, not, pos, ◌||◌, nat_eq,
}
use tortui.Tui.Table.{Column}

-- flexFloor; minFlexWidth is 3
abbrev pub flex_floor : Column → ℕ
flex_floor c = if ltb 0 c.min_width then c.min_width else 3

abbrev pub least_width : Column → ℕ
least_width c = if c.flex then flex_floor c else c.width

-- The loop of fits.
unfoldable pub least_widths : List Column → ℕ
least_widths [] = 0
least_widths (c ∷ cols) = least_width c + least_widths cols

-- fits
unfoldable pub fits : List Column → ℕ → Bool
unfolding least_widths
fits [] width = true
fits (c ∷ cols) width = leb (length cols + least_widths (c ∷ cols)) width

abbrev pub is_droppable : Column → Bool
is_droppable c = lt_ℤ (pos 0) c.priority

abbrev pub is_better : ℤ → Option (ℕ × ℤ) → Bool
is_better p none = true
is_better p (some (i, q)) = lt_ℤ p q

-- The loop of dropOne: the best index so far and its priority.
unfoldable pub drop_at : ℕ → Option (ℕ × ℤ) → List Column → Option (ℕ × ℤ)
drop_at i best [] = best
drop_at i best (c ∷ cols) =
    drop_at (suc i)
      (if is_droppable c && is_better c.priority best then some (i, c.priority) else best) cols

abbrev pub remove_at : List Column → ℕ → List Column
remove_at [] i = []
remove_at (c ∷ cols) zero = cols
remove_at (c ∷ cols) (suc i) = c ∷ remove_at cols i

-- dropOne: `none` when there is no column to drop.
unfoldable pub drop_one : List Column → Option (List Column)
unfolding drop_at
drop_one cols = elim (drop_at 0 none cols) [ none ↦ none | some (i, _) ↦ some (remove_at cols i) ]

-- The loop of layout, on fuel.
unfoldable pub drop_until_fits : ℕ → List Column → ℕ → List Column
unfolding fits drop_one
drop_until_fits zero cols width = cols
drop_until_fits (suc fuel) cols width =
    if fits cols width
    then cols
    else elim (drop_one cols) [ none ↦ cols | some cols' ↦ drop_until_fits fuel cols' width ]

-- The first loop of widthsFor: what is left for the flexible column. Below zero is zero, which is
-- what the column then gets.
unfoldable pub left_over : List Column → Bool → ℕ → ℕ
left_over [] flexed remaining = remaining
left_over (c ∷ cols) flexed remaining =
    if c.flex && not flexed
    then left_over cols true remaining
    else left_over cols flexed (remaining - c.width)

-- The widths, when the first flexible column gets w.
unfoldable pub widths_with : ℕ → List Column → Bool → List ℕ
widths_with w [] flexed = []
widths_with w (c ∷ cols) flexed =
    if c.flex && not flexed
    then w ∷ widths_with w cols true
    else c.width ∷ widths_with w cols flexed

-- widthsFor
unfoldable pub widths_for : List Column → ℕ → List ℕ
unfolding left_over widths_with
widths_for cols width = widths_with (left_over cols false (width - (length cols - 1))) cols false

-- layout
unfoldable pub layout : List Column → ℕ → List Column × List ℕ
unfolding drop_until_fits widths_for
layout columns width =
    let visible = drop_until_fits (length columns) columns width in
    (visible, widths_for visible width)

-- selected - visibleRows/2, and 0 below that; -1 is no selection.
abbrev pub middle_start : Option ℕ → ℕ → ℕ
middle_start none visible_rows = 0
middle_start (some i) visible_rows = i - visible_rows / 2

-- visibleWindow
unfoldable pub visible_window : ℕ → ℕ → Option ℕ → ℕ × ℕ
visible_window row_count visible_rows selected =
    if visible_rows == 0 || leb row_count visible_rows
    then (0, row_count)
    else (let start = middle_start selected visible_rows in
        let start' =
          if ltb (row_count - visible_rows) start then row_count - visible_rows else start in
        (start', start' + visible_rows))
