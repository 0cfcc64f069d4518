-- ===== src/Tui/Examples.antt =====
-- internal/tui: a table of three columns and two rows, for the tests.
use tortui.Base.{
  List, String, Text, Bool, codes, none, pos, some, ◌∷◌, ◌≡◌, [], false, refl, true, arith, ℕ,
  text_eq, length, ◌≤◌, ◌<◌, ◌-◌,
}
use tortui.Tui.Table.{
  Column, Table, set_rows, sorted_rows, Row, new_table, apply_sort, ensure_selection,
  selected_index,
}
use tortui.Tui.Table.Selection.{
  HasSelection, run_actions, Action, act, sets_rows, moves_down, run_actions-HasSelection, sorts_by,
}
use tortui.Tui.Table.Layout.{fits, least_widths, visible_window}
use tortui.Tui.Table.Layout.Widths.{flexes}
use tortui.Tui.Table.Layout.Window.{run_actions-Shows}

abbrev title_column : Column
title_column = record {
  key = codes "title";
  width = 0;
  flex = true;
  priority = pos 0;
  min_width = 10;
  less = none;
  sort_missing_last = none;
}

abbrev has_no_text : Text → Bool
has_no_text [] = true
has_no_text (c ∷ cs) = false

abbrev trust_column : Column
trust_column = record title_column {
  key = codes "trust";
  width = 6;
  flex = false;
  priority = pos 2;
  sort_missing_last = some has_no_text;
}

abbrev source_column : Column
source_column = record trust_column { key = codes "source"; width = 8; priority = pos 1 }

abbrev three_columns : List Column
three_columns = title_column ∷ trust_column ∷ source_column ∷ []

abbrev row_of : String → String → Row
row_of id trust = record {
  id = codes id;
  cells = codes "t" ∷ codes trust ∷ codes "s" ∷ [];
  sort_key = [];
}

abbrev two_rows : List Row
two_rows = row_of "a" "" ∷ row_of "b" "VIP" ∷ []

abbrev browse : List Action
browse = sets_rows two_rows ∷ moves_down ∷ sorts_by (pos 1) ∷ moves_down ∷ []

run_actions-HasSelection_example : HasSelection (run_actions browse (new_table three_columns none))
run_actions-HasSelection_example = run_actions-HasSelection three_columns none browse

abbrev loaded : Table
loaded = record {
  columns = three_columns;
  tie_break = none;
  rows = two_rows;
  sort_col = none;
  sort_asc = false;
  selected_id = codes "a";
}

two_rows-loaded : run_actions (sets_rows two_rows ∷ []) (new_table three_columns none) ≡ loaded
unfolding run_actions act set_rows new_table apply_sort sorted_rows ensure_selection
two_rows-loaded = refl

run_actions-Shows_example :
    let t = run_actions (sets_rows two_rows ∷ []) (new_table three_columns none) in
    (i : ℕ) × (selected_index t ≡ some i)
    × (let (start, end) = visible_window (length t.rows) 1 (some i) in
        (start ≤ i) × (i < end) × (end ≤ length t.rows) × (end - start ≤ 1))
run_actions-Shows_example =
    run_actions-Shows three_columns none (sets_rows two_rows ∷ []) 1 (omega arith)
      (rw two_rows-loaded (omega arith))

abbrev shown_columns : List Column
shown_columns = title_column ∷ trust_column ∷ []

shown_columns-fit : fits shown_columns 20 ≡ true
unfolding fits least_widths
shown_columns-fit = refl

shown_columns-flex : flexes shown_columns ≡ 1
unfolding flexes
shown_columns-flex = refl
