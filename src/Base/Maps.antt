-- ===== src/Base/Maps.antt =====
-- Go maps as functions: reading, writing, deleting, and deleting while ranging.
use mathlib.Core.Bool.{Bool}
use mathlib.Core.Option.{Option, none, some}
use tortui.Base.Tests.{Eq, ◌==◌, if◌then◌else◌}

-- `m k` is `m[k]` with its second result.
abbrev pub Map {ℓ κ} : Type ℓ → Type κ → Type (ℓ ⊔ κ)
Map K V = K → Option V

abbrev pub empty_map {ℓ κ} : {K : Type ℓ} {V : Type κ} → Map K V
empty_map k = none

-- for k, v := range m { if !p(k, v) { delete(m, k) } }
abbrev pub retain {ℓ κ} : {K : Type ℓ} {V : Type κ} → (K → V → Bool) → Map K V → Map K V
retain p m k = elim (m k) [ none ↦ none | some v ↦ if p k v then some v else none ]

module _ {ℓ κ} {K : Type ℓ} {V : Type κ} ⦃e : Eq K⦄ where
  -- m[k] = v
  abbrev pub insert : K → V → Map K V → Map K V
  insert k v m j = if k == j then some v else m j

  -- delete(m, k)
  abbrev pub erase : K → Map K V → Map K V
  erase k m j = if k == j then none else m j
