-- ===== src/Tui/Table/Order.antt =====
-- internal/tui/components/table.go: the order of the rows.
use tortui.Base.{Bool, ℕ, ◌≡◌, true, false, List, ◌∷◌, All, []}
use tortui.Tui.Table.{Column, Row, sort_value_at, is_missing}

-- A strict weak order, which sort.SliceStable asks of its function.
pub record IsOrder {A : Type 0} (less : A → A → Bool) : Type 0 where
  pub asym : (a b : A) → less a b ≡ true → less b a ≡ false
  pub cotrans : (a b c : A) → less b a ≡ false → less c b ≡ false → less c a ≡ false

-- Every row after a row without information is without information.
abbrev pub MissingLast : Column → ℕ → List Row → Type 0
MissingLast col i [] = Unit
MissingLast col i (r ∷ rows) =
    (is_missing col (sort_value_at r i) ≡ true
      → All (λ x. is_missing col (sort_value_at x i) ≡ true) rows)
    × MissingLast col i rows
