-- ===== src/Base/Lists.antt =====
-- Lists measured by native numbers, predicates on all elements, and membership as a test.
use Prim.Native.Nat.{ℕ, zero, suc, ◌+◌, ◌≤◌}
use mathlib.Core.Path.{◌≡◌, refl}
use mathlib.Core.Logic.{◌⊎◌}
use mathlib.Core.Bool.{Bool, true, false, not, ◌||◌}
use mathlib.Core.List.{List, [], ◌∷◌, ◌++◌}
use mathlib.Core.Option.{Option, none, some}
use native.Mathlib.Omega.{arith}
use tortui.Base.Tests.{Eq, ◌==◌, if◌then◌else◌}

module _ {ℓ} {A : Type ℓ} where
  abbrev pub length : List A → ℕ
  length [] = 0
  length (x ∷ xs) = suc (length xs)

  abbrev pub get_elem? : List A → ℕ → Option A
  get_elem? [] i = none
  get_elem? (x ∷ xs) zero = some x
  get_elem? (x ∷ xs) (suc i) = get_elem? xs i

  -- A write out of bounds changes nothing.
  abbrev pub set : List A → ℕ → A → List A
  set [] i v = []
  set (x ∷ xs) zero v = v ∷ xs
  set (x ∷ xs) (suc i) v = x ∷ set xs i v

  pub length-append : (xs ys : List A) → length (xs ++ ys) ≡ length xs + length ys
  length-append [] ys = omega arith
  length-append (x ∷ xs) ys = omega (arith, length-append xs ys)

  -- The elements that a test keeps, in order.
  abbrev pub keep : (A → Bool) → List A → List A
  keep p [] = []
  keep p (x ∷ xs) = let rest = keep p xs in if p x then x ∷ rest else rest

  pub length-keep-le : (p : A → Bool) (xs : List A) → length (keep p xs) ≤ length xs
  length-keep-le p [] = omega arith
  length-keep-le p (x ∷ xs) = ground (arith, length-keep-le p xs)

module _ {ℓ} {A : Type ℓ} where
  pub length-set : (xs : List A) (i : ℕ) (v : A) → length (set xs i v) ≡ length xs
  length-set [] i v = refl
  length-set (x ∷ xs) zero v = refl
  length-set (x ∷ xs) (suc i) v = omega (arith, length-set xs i v)

-- `P` at every element.
abbrev pub All {ℓ κ} : {A : Type ℓ} → (A → Type κ) → List A → Type κ
All P [] = Unit
All P (x ∷ xs) = P x × All P xs

-- `P` at some element.
abbrev pub Any {ℓ} : {A : Type ℓ} → (A → Type 0) → List A → Type 0
Any P [] = ⊥
Any P (x ∷ xs) = P x ⊎ Any P xs

module _ {ℓ} {A : Type ℓ} ⦃e : Eq A⦄ where
  -- slices.Contains
  abbrev pub contains : List A → A → Bool
  contains [] a = false
  contains (x ∷ xs) a = x == a || contains xs a

module _ {ℓ} {A : Type ℓ} ⦃e : Eq A⦄ where
  pub contains-append :
      (xs : List A) (a b : A) → contains (xs ++ a ∷ []) b ≡ contains xs b || a == b
  contains-append [] a b = ground arith
  contains-append (x ∷ xs) a b = ground (arith, contains-append xs a b)

  -- slices.DeleteFunc with the test `== a`
  abbrev pub without : A → List A → List A
  without a = keep (λ o. not (o == a))

  pub contains-without :
      (xs : List A) (a b : A)
      → contains (without a xs) b ≡ (if a == b then false else contains xs b)
  contains-without [] a b = ground arith
  contains-without (x ∷ xs) a b =
      ground (arith, contains-without xs a b, e.beq_iff x a, e.beq_iff x b, e.beq_iff a b)

  abbrev pub Distinct : List A → Type 0
  Distinct [] = Unit
  Distinct (x ∷ xs) = (contains xs x ≡ false) × Distinct xs

  pub Distinct-append :
      (xs : List A) (a : A) → contains xs a ≡ false → Distinct xs → Distinct (xs ++ a ∷ [])
  Distinct-append [] a h d = (refl, tt)
  Distinct-append (x ∷ xs) a h d = (
    ground (arith, contains-append xs a x, e.beq_iff x a, e.beq_iff a x),
    Distinct-append xs a (ground arith) d.1,
  )

  pub Distinct-without : (xs : List A) (a : A) → Distinct xs → Distinct (without a xs)
  Distinct-without [] a d = tt
  Distinct-without (x ∷ xs) a d =
      ground
        (arith, Distinct-without xs a d.1, contains-without xs a x, e.beq_iff x a, e.beq_iff a x)

  All-contains_of :
      (ys xs : List A)
      → ((a : A) → contains xs a ≡ true → contains ys a ≡ true)
      → All (λ a. contains ys a ≡ true) xs
  All-contains_of ys [] h = tt
  All-contains_of ys (x ∷ xs) h =
      (h x (ground (arith, e.beq_iff x x)), All-contains_of ys xs (λ a m. h a (ground arith)))

  pub All-contains : (xs : List A) → All (λ a. contains xs a ≡ true) xs
  All-contains xs = All-contains_of xs xs (λ a h. h)
