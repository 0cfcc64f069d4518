-- ===== src/Tui/Table/Layout/Window.antt =====
-- internal/tui/components/table.go: the rows that are shown.
use tortui.Base.{
  ℕ, ◌<◌, some, ◌≤◌, ◌-◌, ◌≡◌, min, arith, List, Text, Option, contains, Bool, true, length, ◌∷◌,
  Bool-cases, ◌==◌, inl, inr, suc, text_eq, [], refl,
}
use tortui.Tui.Table.Layout.{visible_window}
use tortui.Tui.Table.{Column, Row, row_ids, index_of, new_table, selected_index, Table}
use tortui.Tui.Table.Selection.{Action, run_actions, HasSelection, run_actions-HasSelection}

-- In a view of at least one row, the rows shown are some of the table's, as many as fit, and the
-- selected row is one of them.
pub visible_window-Shows :
    (row_count visible_rows i : ℕ)
    → 0 < visible_rows
    → i < row_count
    → let (start, end) = visible_window row_count visible_rows (some i) in
      (start ≤ i) × (i < end) × (end ≤ row_count) × (end - start ≡ min row_count visible_rows)
unfolding visible_window
visible_window-Shows row_count visible_rows i h k = ground arith

index_of-lt :
    (id : Text) (rows : List Row)
    → contains (row_ids rows) id ≡ true
    → (i : ℕ) × (index_of id rows ≡ some i) × (i < length rows)
index_of-lt id [] h = ground arith
index_of-lt id (r ∷ rows) h = elim (Bool-cases (r.id == id)) [
  | inl q ↦ rw q (0, refl, omega arith)
  | inr q ↦
      let (i, at, low) = index_of-lt id rows (ground arith) in rw (q, at) (suc i, refl, omega arith)
]

selected-contains :
    (t : Table)
    → 0 < length t.rows
    → HasSelection t
    → contains (row_ids t.rows) t.selected_id ≡ true
unfolding HasSelection
selected-contains t some_row (inl (empty, q)) = absurd (ground arith)
selected-contains t some_row (inr h) = h

-- Whatever a screen did to a table with rows, it has a selected row, and a view of at least one row
-- shows it among at most as many rows as there is room for.
pub run_actions-Shows :
    (columns : List Column) (tie : Option (Row → Row → Bool)) (actions : List Action)
    (visible_rows : ℕ)
    → 0 < visible_rows
    → let t = run_actions actions (new_table columns tie) in
      0 < length t.rows
      → (i : ℕ) × (selected_index t ≡ some i)
        × (let (start, end) = visible_window (length t.rows) visible_rows (some i) in
            (start ≤ i) × (i < end) × (end ≤ length t.rows) × (end - start ≤ visible_rows))
run_actions-Shows columns tie actions visible_rows room some_row =
    let t = run_actions actions (new_table columns tie) in
    let (i, at, low) =
      index_of-lt t.selected_id t.rows
        (selected-contains t some_row (run_actions-HasSelection columns tie actions)) in
    let (after, before, inside, size) =
      visible_window-Shows (length t.rows) visible_rows i room low in
    (i, at, (after, before, inside, omega arith))
