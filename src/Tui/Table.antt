-- ===== src/Tui/Table.antt =====
-- internal/tui/components/table.go: the table's rows, order, selection and columns. A width is the
-- number of terminal columns, never negative; a row or column index is an Option where the source
-- has -1 for none.
pub mod Selection
pub mod Moves
pub mod Order
pub mod Layout
use tortui.Base.{
  Bool, List, Option, Text, [], none, ℕ, ℤ, false, get_elem?, if◌then◌else◌, map, negsuc, some,
  text_lt, ◌∷◌, ◌==◌, contains, leb, not, pos, stable_sort, suc, length, nat_eq, text_eq, true,
  zero, ◌-◌, ◌&&◌, ◌||◌,
}

-- Column; the title, the alignment and the accent only matter to drawing.
pub record Column : Type 0 where
  pub key : Text
  pub width : ℕ
  pub flex : Bool
  pub priority : ℤ
  pub min_width : ℕ
  pub less : Option (Text → Text → Bool)
  pub sort_missing_last : Option (Text → Bool)

pub record Row : Type 0 where
  pub id : Text
  pub cells : List Text
  pub sort_key : List Text

pub record Table : Type 0 where
  pub columns : List Column
  pub tie_break : Option (Row → Row → Bool)
  pub rows : List Row
  pub sort_col : Option ℕ
  pub sort_asc : Bool
  -- "" is no selection
  pub selected_id : Text

-- NewTable, with the tie break that the caller sets.
unfoldable pub new_table : List Column → Option (Row → Row → Bool) → Table
new_table columns tie_break = record {
  columns = columns;
  tie_break = tie_break;
  rows = [];
  sort_col = none;
  sort_asc = false;
  selected_id = [];
}

abbrev pub nth_text : List Text → ℕ → Text
nth_text xs i = elim (get_elem? xs i) [ none ↦ [] | some x ↦ x ]

-- cellAt
abbrev pub cell_at : Row → ℕ → Text
cell_at r i = nth_text r.cells i

-- sortValueAt
unfoldable pub sort_value_at : Row → ℕ → Text
sort_value_at r i = elim (nth_text r.sort_key i) [ [] ↦ cell_at r i | (x ∷ xs) ↦ x ∷ xs ]

abbrev pub column_less : Column → Text → Text → Bool
column_less col a b = elim col.less [ none ↦ text_lt a b | some less ↦ less a b ]

abbrev pub is_missing : Column → Text → Bool
is_missing col a = elim col.sort_missing_last [ none ↦ false | some missing ↦ missing a ]

-- The tie break, and no order without one.
abbrev pub breaks_tie : Option (Row → Row → Bool) → Row → Row → Bool
breaks_tie none a b = false
breaks_tie (some less) a b = less a b

-- The comparison of two values in the direction of the sort.
abbrev pub directed : Column → Bool → Text → Text → Bool
directed col asc a b = if asc then column_less col a b else column_less col b a

-- The function that applySort gives to sort.SliceStable.
unfoldable pub row_less : Column → ℕ → Bool → Option (Row → Row → Bool) → Row → Row → Bool
unfolding sort_value_at
row_less col i asc tie a b =
    let x = sort_value_at a i in
    let y = sort_value_at b i in
    let mx = is_missing col x in
    let my = is_missing col y in
    if mx && not my || not mx && my
    then my
    else if directed col asc x y
    then true
    else if directed col asc y x
    then false
    else breaks_tie tie a b

-- applySort
unfoldable pub sorted_rows :
    List Column → Option ℕ → Bool → Option (Row → Row → Bool) → List Row → List Row
unfolding row_less
sorted_rows columns none asc tie rows = rows
sorted_rows columns (some i) asc tie rows = elim (get_elem? columns i) [
  | none ↦ rows
  | some col ↦ stable_sort (row_less col i asc tie) rows
]

unfoldable pub apply_sort : Table → Table
unfolding sorted_rows
apply_sort t = record t { rows = sorted_rows t.columns t.sort_col t.sort_asc t.tie_break t.rows }

abbrev pub row_ids : List Row → List Text
row_ids = map (λ (r : Row). r.id)

-- ensureSelection
unfoldable pub ensure_selection : Table → Table
ensure_selection t = elim t.rows [
  | [] ↦ record t { selected_id = [] }
  | (r ∷ rs) ↦
      if contains (row_ids (r ∷ rs)) t.selected_id then t else record t { selected_id = r.id }
]

-- SetRows
unfoldable pub set_rows : List Row → Table → Table
unfolding apply_sort ensure_selection
set_rows rows t = ensure_selection (apply_sort (record t { rows = rows }))

-- t.sortCol == colIndex
abbrev pub is_sorted_by : Option ℕ → ℕ → Bool
is_sorted_by none i = false
is_sorted_by (some j) i = j == i

-- SortBy
unfoldable pub sort_by : ℤ → Table → Table
unfolding apply_sort ensure_selection
sort_by (negsuc n) t = t
sort_by (pos i) t =
    if leb (length t.columns) i
    then t
    else (let same = is_sorted_by t.sort_col i in
        ensure_selection (
          apply_sort
            (record t { sort_col = some i; sort_asc = if same then not t.sort_asc else true })))

-- SelectFirst
unfoldable pub select_first : Table → Table
unfolding ensure_selection
select_first t = ensure_selection (record t { selected_id = [] })

abbrev suc_option : Option ℕ → Option ℕ
suc_option none = none
suc_option (some i) = some (suc i)

-- The loop of SelectedIndex.
abbrev pub index_of : Text → List Row → Option ℕ
index_of id [] = none
index_of id (r ∷ rs) = if r.id == id then some 0 else suc_option (index_of id rs)

-- SelectedIndex
abbrev pub selected_index : Table → Option ℕ
selected_index t = index_of t.selected_id t.rows

abbrev pub select_at : Table → ℕ → Table
select_at t i = elim (get_elem? t.rows i) [ none ↦ t | some r ↦ record t { selected_id = r.id } ]

-- MoveDown
unfoldable pub move_down : Table → Table
move_down t = elim (selected_index t) [
  | none ↦ t
  | some i ↦ if leb (length t.rows - 1) i then t else select_at t (suc i)
]

-- MoveUp
unfoldable pub move_up : Table → Table
move_up t = elim (selected_index t) [ none ↦ t | some zero ↦ t | some (suc i) ↦ select_at t i ]
