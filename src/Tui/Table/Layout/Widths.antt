-- ===== src/Tui/Table/Layout/Widths.antt =====
-- internal/tui/components/table.go: the widths of the columns that are shown.
use tortui.Base.{
  List, ℕ, Bool, ◌∷◌, ◌≡◌, ◌≤◌, ◌+◌, arith, false, if◌then◌else◌, true, ◌⊎◌, ◌-◌, [], length, suc,
  refl, inr,
}
use tortui.Tui.Table.Layout.{least_widths, left_over, widths_for, widths_with, fits}
use tortui.Tui.Table.{Column}

unfoldable pub total : List ℕ → ℕ
total [] = 0
total (w ∷ ws) = w + total ws

unfoldable pub flexes : List Column → ℕ
flexes [] = 0
flexes (c ∷ cols) = if c.flex then suc (flexes cols) else flexes cols

unfoldable fixed_widths : List Column → ℕ
fixed_widths [] = 0
fixed_widths (c ∷ cols) = if c.flex then fixed_widths cols else c.width + fixed_widths cols

fixed_widths-le : (cols : List Column) → fixed_widths cols ≤ least_widths cols
unfolding fixed_widths least_widths
fixed_widths-le [] = omega arith
fixed_widths-le (c ∷ cols) = ground (arith, fixed_widths-le cols)

widths_with-fixed :
    (w : ℕ) (cols : List Column) (b : Bool)
    → flexes cols ≡ 0
    → total (widths_with w cols b) ≡ fixed_widths cols
unfolding flexes widths_with fixed_widths total
widths_with-fixed w [] b h = refl
widths_with-fixed w (c ∷ cols) b h = ground (arith, widths_with-fixed w cols b)

widths_with-flex :
    (w : ℕ) (cols : List Column)
    → flexes cols ≡ 1
    → total (widths_with w cols false) ≡ w + fixed_widths cols
unfolding flexes widths_with fixed_widths total
widths_with-flex w [] h = ground arith
widths_with-flex w (c ∷ cols) h =
    ground (arith, widths_with-flex w cols, widths_with-fixed w cols true)

left_over-eq_sub :
    (cols : List Column) (b : Bool) (remaining : ℕ)
    → (flexes cols ≡ 0) ⊎ ((flexes cols ≡ 1) × (b ≡ false))
    → left_over cols b remaining ≡ remaining - fixed_widths cols
unfolding flexes left_over fixed_widths
left_over-eq_sub [] b remaining h = omega arith
left_over-eq_sub (c ∷ cols) b remaining h =
    ground
      (arith, left_over-eq_sub cols true remaining, left_over-eq_sub cols b (remaining - c.width))

-- Columns that fit, one of them flexible, fill the width exactly, with one space between two
-- columns.
pub widths_for-fill :
    (c : Column) (cols : List Column) (width : ℕ)
    → fits (c ∷ cols) width ≡ true
    → flexes (c ∷ cols) ≡ 1
    → total (widths_for (c ∷ cols) width) + length cols ≡ width
unfolding widths_for fits
widths_for-fill c cols width h one =
    let low = fixed_widths-le (c ∷ cols) in
    let left = left_over-eq_sub (c ∷ cols) false (width - length cols) (inr (one, refl)) in
    let all = widths_with-flex (left_over (c ∷ cols) false (width - length cols)) (c ∷ cols) one in
    ground arith
