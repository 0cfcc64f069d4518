-- ===== src/Tui/Table/Moves.antt =====
-- internal/tui/components/table.go: the selected row's index, and moving the selection.
use tortui.Base.{
  List, Text, ℕ, ◌<◌, Distinct, length, ◌≡◌, get_elem?, some, arith, suc, leb, ◌∷◌, ◌-◌, [],
  text_eqb_iff, false, zero, ap, refl, text_eq,
}
use tortui.Tui.Table.{move_up, Row, move_down, Table, index_of, row_ids, selected_index, select_at}
use tortui.Tui.Table.Selection.{contains-get_elem?}

index_of-get :
    (id : Text) (rows : List Row) (i : ℕ)
    → index_of id rows ≡ some i
    → (r : Row) × (get_elem? rows i ≡ some r) × (r.id ≡ id)
index_of-get id [] i h = ground arith
index_of-get id (x ∷ rows) zero h = (x, refl, (text_eqb_iff x.id id).0 (ground arith))
index_of-get id (x ∷ rows) (suc i) h = index_of-get id rows i (ground arith)

index_of-Distinct :
    (rows : List Row) (i : ℕ) (r : Row)
    → Distinct (row_ids rows)
    → get_elem? rows i ≡ some r
    → index_of r.id rows ≡ some i
index_of-Distinct [] i r d h = ground arith
index_of-Distinct (x ∷ rows) zero r d h = ground (arith, text_eqb_iff x.id r.id)
index_of-Distinct (x ∷ rows) (suc i) r d h =
    let rest = index_of-Distinct rows i r d.1 h in
    let here = contains-get_elem? rows i r h in ground (arith, text_eqb_iff x.id r.id)

get_elem?-lt : (rows : List Row) (i : ℕ) → i < length rows → (r : Row) × (get_elem? rows i ≡ some r)
get_elem?-lt [] i h = ground arith
get_elem?-lt (x ∷ rows) zero h = (x, refl)
get_elem?-lt (x ∷ rows) (suc i) h = get_elem?-lt rows i (omega arith)

-- MoveUp undoes MoveDown: where the ids of the rows differ and the selected row is not the last.
pub move_up-move_down :
    (t : Table) (i : ℕ)
    → Distinct (row_ids t.rows)
    → selected_index t ≡ some i
    → suc i < length t.rows
    → move_up (move_down t) ≡ t
unfolding move_up move_down
move_up-move_down t i d s h =
    let (r, here, same) = index_of-get t.selected_id t.rows i s in
    let (r', below) = get_elem?-lt t.rows (suc i) h in
    let back = index_of-Distinct t.rows (suc i) r' d below in
    let low : leb (length t.rows - 1) i ≡ false = ground arith in
    let goes : move_down t ≡ record t { selected_id = r'.id } =
      rw (move_down, select_at, s, low, below) refl in
    rw goes (rw (move_up, select_at, back, here) (ap (λ x. record t { selected_id = x }) same))
