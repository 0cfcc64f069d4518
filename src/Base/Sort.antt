-- ===== src/Base/Sort.antt =====
-- sort.SliceStable and sort.Strings: a stable sort by a `less` function.
use mathlib.Core.Path.{◌≡◌, refl, ap, ◌∙◌}
use mathlib.Core.Logic.{inl, inr}
use mathlib.Core.Bool.{Bool, true, false, ◌||◌}
use mathlib.Core.List.{List, [], ◌∷◌, Perm, map}
use mathlib.Core.List.Perm
use native.Mathlib.Omega.{arith}
use tortui.Base.Tests.{if◌then◌else◌, Bool-cases, Eq, ◌==◌}
use tortui.Base.Lists.{All, contains, Distinct}

module _ {A : Type 0} (less : A → A → Bool) where
  -- Before the first element that is not smaller: an earlier element stays ahead of its equals.
  place : A → List A → List A
  place x [] = x ∷ []
  place x (y ∷ ys) = let rest = place x ys in if less y x then y ∷ rest else x ∷ y ∷ ys

  unfoldable pub stable_sort : List A → List A
  unfolding place
  stable_sort [] = []
  stable_sort (x ∷ xs) = place x (stable_sort xs)

  -- No later element is smaller.
  abbrev pub IsSorted : List A → Type 0
  IsSorted [] = Unit
  IsSorted (x ∷ xs) = All (λ y. less y x ≡ false) xs × IsSorted xs

  place-perm : (x : A) (ys : List A) → Perm (place x ys) (x ∷ ys)
  unfolding place
  place-perm x [] = Perm.refl (x ∷ [])
  place-perm x (y ∷ ys) = elim (Bool-cases (less y x)) [
    | inl e ↦ rw e (Perm.trans (Perm.cons y (place-perm x ys)) (Perm.swap x y ys))
    | inr e ↦ rw e (Perm.refl (x ∷ y ∷ ys))
  ]

  pub stable_sort-perm : (xs : List A) → Perm (stable_sort xs) xs
  unfolding stable_sort
  stable_sort-perm [] = Perm.refl []
  stable_sort-perm (x ∷ xs) =
      Perm.trans (place-perm x (stable_sort xs)) (Perm.cons x (stable_sort-perm xs))

  module _ (asym : (a b : A) → less a b ≡ true → less b a ≡ false)
      (cotrans : (a b c : A) → less b a ≡ false → less c b ≡ false → less c a ≡ false) where
    All-ge :
        (a b : A) (xs : List A)
        → less b a ≡ false
        → All (λ y. less y b ≡ false) xs
        → All (λ y. less y a ≡ false) xs
    All-ge a b [] h k = tt
    All-ge a b (x ∷ xs) h k = (cotrans a b x h k.0, All-ge a b xs h k.1)

    All-place :
        (a x : A) (ys : List A)
        → less x a ≡ false
        → All (λ y. less y a ≡ false) ys
        → All (λ y. less y a ≡ false) (place x ys)
    unfolding place
    All-place a x [] h k = (h, tt)
    All-place a x (y ∷ ys) h k = ground (arith, All-place a x ys h k.1)

    place-IsSorted : (x : A) (ys : List A) → IsSorted ys → IsSorted (place x ys)
    unfolding place
    place-IsSorted x [] s = (tt, tt)
    place-IsSorted x (y ∷ ys) s = elim (Bool-cases (less y x)) [
      | inl e ↦ rw e (All-place y x ys (asym y x e) s.0, place-IsSorted x ys s.1)
      | inr e ↦ rw e ((e, All-ge x y ys e s.0), s)
    ]

    pub stable_sort-IsSorted : (xs : List A) → IsSorted (stable_sort xs)
    unfolding stable_sort
    stable_sort-IsSorted [] = tt
    stable_sort-IsSorted (x ∷ xs) = place-IsSorted x (stable_sort xs) (stable_sort-IsSorted xs)

module _ {A B : Type 0} ⦃e : Eq B⦄ (less : A → A → Bool) (f : A → B) where
  contains-place :
      (x : A) (ys : List A) (b : B)
      → contains (map f (place less x ys)) b ≡ f x == b || contains (map f ys) b
  unfolding place
  contains-place x [] b = refl
  contains-place x (y ∷ ys) b = ground (arith, contains-place x ys b)

  pub contains-stable_sort :
      (xs : List A) (b : B) → contains (map f (stable_sort less xs)) b ≡ contains (map f xs) b
  unfolding stable_sort
  contains-stable_sort [] b = refl
  contains-stable_sort (x ∷ xs) b =
      contains-place x (stable_sort less xs) b ∙ ap (λ c. f x == b || c) (contains-stable_sort xs b)

  Distinct-place :
      (x : A) (ys : List A)
      → contains (map f ys) (f x) ≡ false
      → Distinct (map f ys)
      → Distinct (map f (place less x ys))
  unfolding place
  Distinct-place x [] h d = (refl, tt)
  Distinct-place x (y ∷ ys) h (k, d) = elim (Bool-cases (less y x)) [
    | inl q ↦ rw q (
      ground (arith, contains-place x ys (f y), e.beq_iff (f x) (f y), e.beq_iff (f y) (f x)),
      Distinct-place x ys (ground arith) d,
    )
    | inr q ↦ rw q (h, (k, d))
  ]

  pub Distinct-stable_sort :
      (xs : List A) → Distinct (map f xs) → Distinct (map f (stable_sort less xs))
  unfolding stable_sort
  Distinct-stable_sort [] d = tt
  Distinct-stable_sort (x ∷ xs) (h, d) =
      Distinct-place x (stable_sort less xs) (contains-stable_sort xs (f x) ∙ h)
        (Distinct-stable_sort xs d)
