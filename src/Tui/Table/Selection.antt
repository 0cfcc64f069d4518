-- ===== src/Tui/Table/Selection.antt =====
-- internal/tui/components/table.go: the selected row, whatever is done to the table.
use tortui.Base.{
  List, ℕ, ◌≡◌, ◌∷◌, [], get_elem?, inl, ℤ, Bool-cases, Option-cases, some, ◌⊎◌, contains, inr,
  negsuc, arith, pos, true, leb, text_eq, text_eqb_iff, length, refl, suc, zero, ◌-◌, if◌then◌else◌,
  not, Text, contains-stable_sort, Option, Bool, none, subst, sym, ap, ◌∙◌,
}
use tortui.Tui.Table.{
  Table, ensure_selection, set_rows, Row, sort_by, select_at, select_first, move_down, move_up,
  row_ids, selected_index, apply_sort, is_sorted_by, new_table, Column, row_less, sorted_rows,
}

-- What a screen does to a table.
pub data Action : Type 0 where
  sets_rows : List Row → Action
  sorts_by : ℤ → Action
  selects_first moves_down moves_up : Action

unfoldable pub act : Action → Table → Table
unfolding set_rows sort_by select_first move_down move_up
act (sets_rows rows) t = set_rows rows t
act (sorts_by i) t = sort_by i t
act selects_first t = select_first t
act moves_down t = move_down t
act moves_up t = move_up t

unfoldable pub run_actions : List Action → Table → Table
unfolding act
run_actions [] t = t
run_actions (a ∷ more) t = run_actions more (act a t)

-- The selection is the id of a row, and "" only in an empty table.
unfoldable pub HasSelection : Table → Type 0
HasSelection t =
    ((t.rows ≡ []) × (t.selected_id ≡ [])) ⊎ (contains (row_ids t.rows) t.selected_id ≡ true)

abbrev first_id : List Row → Text
first_id [] = []
first_id (r ∷ rows) = r.id

-- The selected id if a row has it, and else the id of the first row.
abbrev kept_or_first : Text → List Row → Text
kept_or_first id rows = if contains (row_ids rows) id then id else first_id rows

ensure_selection_lem :
    (t : Table) → ensure_selection t ≡ record t { selected_id = kept_or_first t.selected_id t.rows }
unfolding ensure_selection
ensure_selection_lem t = go t t.rows refl
  where
    go :
        (t : Table) (rows : List Row)
        → t.rows ≡ rows
        → ensure_selection t ≡ record t { selected_id = kept_or_first t.selected_id t.rows }
    go t [] q = rw q refl
    go t (r ∷ rows) q = elim (Bool-cases (contains (row_ids (r ∷ rows)) t.selected_id)) [
      | inl c ↦ rw (q, c) refl
      | inr c ↦ rw (q, c) refl
    ]

kept_or_first-cases :
    (id : Text) (rows : List Row)
    → ((rows ≡ []) × (kept_or_first id rows ≡ []))
      ⊎ (contains (row_ids rows) (kept_or_first id rows) ≡ true)
kept_or_first-cases id [] = inl (refl, refl)
kept_or_first-cases id (r ∷ rows) = ground (arith, text_eqb_iff r.id r.id)

ensure_selection-HasSelection : (t : Table) → HasSelection (ensure_selection t)
unfolding HasSelection
ensure_selection-HasSelection t =
    subst HasSelection (sym (ensure_selection_lem t)) (kept_or_first-cases t.selected_id t.rows)

pub contains-get_elem? :
    (rows : List Row) (i : ℕ) (r : Row)
    → get_elem? rows i ≡ some r
    → contains (row_ids rows) r.id ≡ true
contains-get_elem? [] i r h = ground arith
contains-get_elem? (x ∷ rows) zero r h = ground (arith, text_eqb_iff x.id r.id)
contains-get_elem? (x ∷ rows) (suc i) r h = ground (arith, contains-get_elem? rows i r h)

select_at-HasSelection : (t : Table) (i : ℕ) → HasSelection t → HasSelection (select_at t i)
unfolding HasSelection
select_at-HasSelection t i h = elim (Option-cases (get_elem? t.rows i)) [
  | inl q ↦ rw (select_at, q) h
  | inr (r, q) ↦ rw (select_at, q) (inr (contains-get_elem? t.rows i r q))
]

act-HasSelection : (a : Action) (t : Table) → HasSelection t → HasSelection (act a t)
unfolding act set_rows sort_by select_first move_down move_up
act-HasSelection (sets_rows rows) t h =
    ensure_selection-HasSelection (apply_sort (record t { rows = rows }))
act-HasSelection (sorts_by (negsuc n)) t h = h
act-HasSelection (sorts_by (pos i)) t h = elim (Bool-cases (leb (length t.columns) i)) [
  | inl q ↦ rw q h
  | inr q ↦ rw q (
      let same = is_sorted_by t.sort_col i in
      ensure_selection-HasSelection (
        apply_sort
          (record t { sort_col = some i; sort_asc = if same then not t.sort_asc else true })))
]
act-HasSelection selects_first t h = ensure_selection-HasSelection (record t { selected_id = [] })
act-HasSelection moves_down t h = elim (Option-cases (selected_index t)) [
  | inl q ↦ rw (act, move_down, q) h
  | inr (i, q) ↦ elim (Bool-cases (leb (length t.rows - 1) i)) [
    | inl c ↦ rw (act, move_down, q, c) h
    | inr c ↦ rw (act, move_down, q, c) (select_at-HasSelection t (suc i) h)
  ]
]
act-HasSelection moves_up t h = elim (Option-cases (selected_index t)) [
  | inl q ↦ rw (act, move_up, q) h
  | inr (zero, q) ↦ rw (act, move_up, q) h
  | inr (suc i, q) ↦ rw (act, move_up, q) (select_at-HasSelection t i h)
]

run_actions_from :
    (actions : List Action) (t : Table) → HasSelection t → HasSelection (run_actions actions t)
unfolding run_actions
run_actions_from [] t h = h
run_actions_from (a ∷ more) t h = run_actions_from more (act a t) (act-HasSelection a t h)

-- Whatever a screen does to a new table, the selection is the id of one of its rows, and it is ""
-- only where the table has no rows.
pub run_actions-HasSelection :
    (columns : List Column) (tie : Option (Row → Row → Bool)) (actions : List Action)
    → HasSelection (run_actions actions (new_table columns tie))
unfolding new_table HasSelection
run_actions-HasSelection columns tie actions =
    run_actions_from actions (new_table columns tie) (inl (refl, refl))

sorted_rows-ids :
    (columns : List Column) (col : Option ℕ) (asc : Bool) (tie : Option (Row → Row → Bool))
    (rows : List Row) (id : Text)
    → contains (row_ids (sorted_rows columns col asc tie rows)) id ≡ contains (row_ids rows) id
unfolding sorted_rows
sorted_rows-ids columns none asc tie rows id = refl
sorted_rows-ids columns (some i) asc tie rows id = elim (Option-cases (get_elem? columns i)) [
  | inl q ↦ rw (sorted_rows, q) refl
  | inr (col, q) ↦
      rw (sorted_rows, q)
        (contains-stable_sort (row_less col i asc tie) (λ (r : Row). r.id) rows id)
]

abbrev resorted : Table → Table
resorted t = ensure_selection (apply_sort t)

resorted-selected :
    (t : Table)
    → ((resorted t).selected_id ≡ (
        if contains (row_ids t.rows) t.selected_id
        then t.selected_id
        else first_id (resorted t).rows))
      × ((id : Text) → contains (row_ids (resorted t).rows) id ≡ contains (row_ids t.rows) id)
unfolding apply_sort
resorted-selected t =
    let ids = sorted_rows-ids t.columns t.sort_col t.sort_asc t.tie_break t.rows in
    rw (ensure_selection_lem (apply_sort t))
      (ap (λ c. if c then t.selected_id else first_id (apply_sort t).rows) (ids t.selected_id), ids)

-- Loading rows keeps the selection on the row that has the selected id, wherever it is now, and
-- otherwise moves it to the first row of the sorted ones; the ids shown are those of the rows
-- loaded.
set_rows-selected :
    (rows : List Row) (t : Table)
    → let t' = set_rows rows t in
      (t'.selected_id
        ≡ (if contains (row_ids rows) t.selected_id then t.selected_id else first_id t'.rows))
      × ((id : Text) → contains (row_ids t'.rows) id ≡ contains (row_ids rows) id)
unfolding set_rows
set_rows-selected rows t = resorted-selected (record t { rows = rows })

-- Sorting by a column that the table has keeps the selected row selected, and the rows are the same.
sort_by-selected :
    (i : ℕ) (t : Table)
    → contains (row_ids t.rows) t.selected_id ≡ true
    → ((sort_by (pos i) t).selected_id ≡ t.selected_id)
      × ((id : Text)
          → contains (row_ids (sort_by (pos i) t).rows) id ≡ contains (row_ids t.rows) id)
unfolding sort_by
sort_by-selected i t h = elim (Bool-cases (leb (length t.columns) i)) [
  | inl q ↦ rw q (refl, λ id. refl)
  | inr q ↦
      (let same = is_sorted_by t.sort_col i in
        let asc = if same then not t.sort_asc else true in
        let (s, ids) = resorted-selected (record t { sort_col = some i; sort_asc = asc }) in
        rw q (s ∙ rw h refl, ids))
]
