-- ===== src/Lifecycle/Session/Resume/Unused.antt =====
-- internal/engine/anacrolix/resume.go: the loop of mintIDLocked ends.
use tortui.Base.{
  Text, ℕ, ◌≡◌, contains, true, false, none, ◌==◌, [], ◌∷◌, List, Bool-cases, arith, length, keep,
  not, text_eqb_iff, inl, inr, ◌≢◌, ◌<◌, ◌+◌, suc, text_eq, ◌≤◌, length-keep-le, refl, sym, zero,
  ◌∙◌,
}
use tortui.Lifecycle.Session.Resume.{Ids, Numbering, mint_id, next_unused}

abbrev without : Text → List Text → List Text
without a xs = keep (λ x. not (x == a)) xs

contains-without :
    (a b : Text) (xs : List Text) → (a == b) ≡ false → contains (without a xs) b ≡ contains xs b
contains-without a b [] apart = refl
contains-without a b (x ∷ xs) apart =
    let rest = contains-without a b xs apart in
    ground (arith, text_eqb_iff x a, text_eqb_iff x b, text_eqb_iff a b)

length-without_le : (a : Text) (xs : List Text) → length (without a xs) ≤ length xs
length-without_le a xs = length-keep-le (λ x. not (x == a)) xs

length-without :
    (a : Text) (xs : List Text) → contains xs a ≡ true → length (without a xs) < length xs
length-without a [] h = absurd (ground arith)
length-without a (x ∷ xs) h = elim (Bool-cases (x == a)) [
  | inl q ↦ let le = length-without_le a xs in ground arith
  | inr q ↦ let rest = length-without a xs (ground arith) in ground arith
]

-- A number's text is its own.
module _ (format : ℕ → Text) (own : (m n : ℕ) → (format m == format n) ≡ true → m ≡ n) where
  -- The loop depends on what is tracked under later numbers only.
  next_unused-same :
      (fuel n : ℕ) (xs ys : List Text)
      → ((m : ℕ) → n < m → contains xs (format m) ≡ contains ys (format m))
      → next_unused format xs fuel n ≡ next_unused format ys fuel n
  unfolding next_unused
  next_unused-same zero n xs ys h = refl
  next_unused-same (suc fuel) n xs ys h =
      let rest = next_unused-same fuel (n + 1) xs ys (λ m lt. h m (omega (arith, lt))) in
      let here = h (n + 1) (omega arith) in rw (here, rest) refl

  later_apart : (m n : ℕ) → m < n → (format m == format n) ≡ false
  later_apart m n lt = elim (Bool-cases (format m == format n)) [
    | inl q ↦ absurd (omega (arith, own m n q, lt))
    | inr q ↦ q
  ]

  next_unused-some :
      (fuel n : ℕ) (xs : List Text) → length xs < fuel → next_unused format xs fuel n ≢ none
  unfolding next_unused
  next_unused-some zero n xs lt = absurd (omega (arith, lt))
  next_unused-some (suc fuel) n xs lt = elim (Bool-cases (contains xs (format (n + 1)))) [
    | inr free ↦ λ e. ground (arith, e)
    | inl taken ↦
        let ys = without (format (n + 1)) xs in
        let shorter = length-without (format (n + 1)) xs taken in
        let rest = next_unused-some fuel (n + 1) ys (omega (arith, shorter, lt)) in
        let same = next_unused-same fuel (n + 1) xs ys (λ m above.
          sym (contains-without (format (n + 1)) (format m) xs (later_apart (n + 1) m above))) in
        λ e. rest (sym same ∙ (rw (next_unused, taken) at e))
  ]

-- mintIDLocked gives an ID, whatever is asked for and whatever is tracked, where different numbers
-- have different texts.
pub mint_id-some :
    (names : Numbering) (want : Text) (ids : Ids)
    → ((m n : ℕ) → (names.format m == names.format n) ≡ true → m ≡ n)
    → mint_id names want ids ≢ none
unfolding mint_id
mint_id-some names want ids own =
    let found =
      next_unused-some names.format own (length ids.tracked + 1) ids.next_id ids.tracked
        (omega arith) in
    λ e. ground (arith, e, found)
