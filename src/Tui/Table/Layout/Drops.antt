-- ===== src/Tui/Table/Layout/Drops.antt =====
-- internal/tui/components/table.go: the columns that a narrow table drops.
use tortui.Base.{
  List, ℤ, Bool, ℕ, Option, get_elem?, not, ◌≡◌, none, some, true, All, keep, lt_ℤ, ◌⊎◌, ◌+◌, false,
  inl, suc, ◌∷◌, [], length, arith, zero, Bool-cases, ◌&&◌, inr, lt_ℤ_irrefl, refl, subst,
  Option-cases, if◌then◌else◌, ◌≤◌, ◌∙◌, ap, sym,
}
use tortui.Tui.Table.{Column}
use tortui.Tui.Table.Layout.{
  drop_at, is_droppable, remove_at, is_better, drop_one, layout, drop_until_fits, fits,
}

abbrev stays : Column → Bool
stays c = not (is_droppable c)

remove_at-keep :
    (cols : List Column) (i : ℕ) (c : Column)
    → get_elem? cols i ≡ some c
    → is_droppable c ≡ true
    → (keep stays (remove_at cols i) ≡ keep stays cols)
      × (suc (length (remove_at cols i)) ≡ length cols)
remove_at-keep [] i c h d = ground arith
remove_at-keep (x ∷ cols) zero c h d = ground arith
remove_at-keep (x ∷ cols) (suc i) c h d =
    let (rest, shorter) = remove_at-keep cols i c h d in ground arith

drop_at-none :
    (cols : List Column) (i : ℕ) (best : Option (ℕ × ℤ))
    → drop_at i best cols ≡ none
    → (best ≡ none) × All (λ c. is_droppable c ≡ false) cols
unfolding drop_at
drop_at-none [] i best h = (h, tt)
drop_at-none (c ∷ cols) i none h = let (b, rest) = drop_at-none cols (suc i) _ h in ground arith
drop_at-none (c ∷ cols) i (some (k, q)) h =
    let (b, rest) = drop_at-none cols (suc i) _ h in ground arith

-- The best so far, or a column that is looked at.
drop_at-some :
    (cols : List Column) (i : ℕ) (best : Option (ℕ × ℤ)) (j : ℕ) (p : ℤ)
    → drop_at i best cols ≡ some (j, p)
    → (best ≡ some (j, p))
      ⊎ ((k : ℕ) × (c : Column) × (j ≡ i + k)
          × (get_elem? cols k ≡ some c)
          × (is_droppable c ≡ true)
          × (c.priority ≡ p))
unfolding drop_at
drop_at-some [] i best j p h = inl h
drop_at-some (c ∷ cols) i best j p h = elim (drop_at-some cols (suc i) _ j p h) [
  | inl b ↦ elim (Bool-cases (is_droppable c && is_better c.priority best)) [
    | inl q ↦ inr (0, c, ground arith, refl, ground arith, ground arith)
    | inr q ↦ inl (ground arith)
  ]
  | inr (k, x, at, here, d, same) ↦ inr (suc k, x, omega arith, here, d, same)
]

abbrev AtLeast : ℤ → Column → Type 0
AtLeast p c = is_droppable c ≡ true → lt_ℤ c.priority p ≡ false

lt_ℤ_cotrans : (a b c : ℤ) → lt_ℤ a b ≡ false → lt_ℤ b c ≡ false → lt_ℤ a c ≡ false
lt_ℤ_cotrans a b c h k = ground arith

lt_ℤ_asym : (a b : ℤ) → lt_ℤ a b ≡ true → lt_ℤ b a ≡ false
lt_ℤ_asym a b h = ground arith

not_better :
    (c : Column) (best : Option (ℕ × ℤ)) (p : ℤ)
    → ((k : ℕ) (q : ℤ) → best ≡ some (k, q) → lt_ℤ q p ≡ false)
    → is_droppable c && is_better c.priority best ≡ false
    → AtLeast p c
not_better c none p low q d = ground arith
not_better c (some (k, r)) p low q d = lt_ℤ_cotrans c.priority r p (ground arith) (low k r refl)

drop_at-AtLeast :
    (cols : List Column) (i : ℕ) (best : Option (ℕ × ℤ)) (j : ℕ) (p : ℤ)
    → drop_at i best cols ≡ some (j, p)
    → All (AtLeast p) cols × ((k : ℕ) (q : ℤ) → best ≡ some (k, q) → lt_ℤ q p ≡ false)
unfolding drop_at
drop_at-AtLeast [] i best j p h = (tt, λ k q b. ground (arith, lt_ℤ_irrefl p))
drop_at-AtLeast (c ∷ cols) i best j p h =
    elim (Bool-cases (is_droppable c && is_better c.priority best)) [
      | inl q ↦
          let (rest, low) = drop_at-AtLeast cols (suc i) (some (i, c.priority)) j p (
            subst
              (λ b. drop_at (suc i) (if b then some (i, c.priority) else best) cols ≡ some (j, p)) q
              h) in
          let here = low i c.priority refl in
          (
            ((λ d. here), rest),
            (λ k r b. lt_ℤ_cotrans r c.priority p (lt_ℤ_asym c.priority r (ground arith)) here),
          )
      | inr q ↦
          let (rest, low) = drop_at-AtLeast cols (suc i) best j p (
            subst
              (λ b. drop_at (suc i) (if b then some (i, c.priority) else best) cols ≡ some (j, p)) q
              h) in
          ((not_better c best p (λ k r b. low k r b) q, rest), low)
    ]

-- dropOne drops one column, and only if it may be dropped: one whose priority is the lowest of
-- those that may. Otherwise no column may be dropped.
pub drop_one-cases :
    (cols : List Column)
    → ((drop_one cols ≡ none) × All (λ c. is_droppable c ≡ false) cols)
      ⊎ ((i : ℕ) × (c : Column) × (get_elem? cols i ≡ some c)
          × (is_droppable c ≡ true)
          × (drop_one cols ≡ some (remove_at cols i))
          × All (AtLeast c.priority) cols)
unfolding drop_one
drop_one-cases cols = elim (Option-cases (drop_at 0 none cols)) [
  | inl q ↦ inl (rw (drop_one, q) refl, (drop_at-none cols 0 none q).1)
  | inr ((j, p), q) ↦ elim (drop_at-some cols 0 none j p q) [
    | inl b ↦ absurd (ground arith)
    | inr (k, c, at, here, d, same) ↦
        let all = (drop_at-AtLeast cols 0 none j p q).0 in
        inr (
          k,
          c,
          here,
          d,
          rw (drop_one, q) (ap (λ x. some (remove_at cols x)) (omega arith)),
          subst (λ x. All (AtLeast x) cols) (sym same) all,
        )
  ]
]

drop_until_fits-end :
    (fuel : ℕ) (cols : List Column) (width : ℕ)
    → length cols ≤ fuel
    → ((fits (drop_until_fits fuel cols width) width ≡ true)
        ⊎ All (λ c. is_droppable c ≡ false) (drop_until_fits fuel cols width))
      × (keep stays (drop_until_fits fuel cols width) ≡ keep stays cols)
unfolding drop_until_fits
drop_until_fits-end zero [] width h = (inr tt, refl)
drop_until_fits-end zero (c ∷ cols) width h = absurd (omega arith)
drop_until_fits-end (suc fuel) cols width h = elim (Bool-cases (fits cols width)) [
  | inl q ↦ rw q (inl q, refl)
  | inr q ↦ elim (drop_one-cases cols) [
    | inl (d, all) ↦ rw (q, d) (inr all, refl)
    | inr (i, c, at, may, d, low) ↦
        let (kept, shorter) = remove_at-keep cols i c at may in
        let (end, rest) = drop_until_fits-end fuel (remove_at cols i) width (omega arith) in
        rw (q, d) (end, rest ∙ kept)
  ]
]

-- The columns of layout fit the width, or none of them may be dropped; and those that must not be
-- dropped are all there, in order.
pub layout-end :
    (columns : List Column) (width : ℕ)
    → let visible = (layout columns width).0 in
      ((fits visible width ≡ true) ⊎ All (λ c. is_droppable c ≡ false) visible)
      × (keep (λ c. not (is_droppable c)) visible ≡ keep (λ c. not (is_droppable c)) columns)
unfolding layout
layout-end columns width = drop_until_fits-end (length columns) columns width (omega arith)
