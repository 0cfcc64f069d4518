-- ===== src/Tui/SourceForm/Completion/Prefix.antt =====
-- internal/tui/pathcomplete.go: longestCommonPrefix.
use mathlib.Core.List.{append_assoc, append-nil}
use tortui.Base.{
  Text, ◌++◌, Bool, List, [], length, ℕ, ◌≡◌, ◌≢◌, ◌-◌, All, sym, true, ◌∙◌, ◌≤◌, ◌∷◌, ap, arith,
  refl, suc, Bool-cases, nat_eqb_iff, inl, inr, subst, zero, false≢true,
}
use tortui.Engine.Paths.{has_prefix}
use tortui.Tui.SourceForm.Completion.{common_from, longest_common_prefix, shorten, but_last}

-- `p` starts `s`.
abbrev pub IsPrefix : Text → Text → Type 0
IsPrefix p s = (r : Text) × (s ≡ p ++ r)

has_prefix-IsPrefix : (s p : Text) → has_prefix s p ≡ true → IsPrefix p s
unfolding has_prefix
has_prefix-IsPrefix s [] h = (s, refl)
has_prefix-IsPrefix [] (c ∷ p) h = absurd (ground arith)
has_prefix-IsPrefix (x ∷ s) (c ∷ p) h =
    let (r, q) = has_prefix-IsPrefix s p (ground arith) in (r, ground (arith, nat_eqb_iff x c))

IsPrefix-has_prefix : (p r : Text) → has_prefix (p ++ r) p ≡ true
unfolding has_prefix
IsPrefix-has_prefix [] r = refl
IsPrefix-has_prefix (c ∷ p) r = ground (arith, IsPrefix-has_prefix p r)

IsPrefix-trans : (p q s : Text) → IsPrefix p q → IsPrefix q s → IsPrefix p s
IsPrefix-trans p q s (r, a) (t, b) = (r ++ t, b ∙ ap (λ x. x ++ t) a ∙ append_assoc p r t)

but_last-IsPrefix : (p : Text) → IsPrefix (but_last p) p
but_last-IsPrefix [] = ([], refl)
but_last-IsPrefix (c ∷ []) = (c ∷ [], refl)
but_last-IsPrefix (c ∷ d ∷ s) = let (r, q) = but_last-IsPrefix (d ∷ s) in (r, ap (◌∷◌ c) q)

length-but_last : (p : Text) → length (but_last p) ≡ length p - 1
length-but_last [] = omega arith
length-but_last (c ∷ []) = omega arith
length-but_last (c ∷ d ∷ s) = omega (arith, length-but_last (d ∷ s))

-- What starts a text and is not the text starts the text without its last character.
IsPrefix-but_last : (q r : Text) → r ≢ [] → IsPrefix q (but_last (q ++ r))
IsPrefix-but_last q [] h = absurd (h refl)
IsPrefix-but_last [] (c ∷ r) h = (but_last (c ∷ r), refl)
IsPrefix-but_last (x ∷ []) (c ∷ r) h = (but_last (c ∷ r), refl)
IsPrefix-but_last (x ∷ y ∷ q) (c ∷ r) h =
    let (t, e) = IsPrefix-but_last (y ∷ q) (c ∷ r) h in (t, ap (◌∷◌ x) e)

has_prefix_nil : (s : Text) → has_prefix s [] ≡ true
unfolding has_prefix
has_prefix_nil [] = refl
has_prefix_nil (c ∷ s) = refl

shorten-IsPrefix : (n : ℕ) (test : Text → Bool) (p : Text) → IsPrefix (shorten n test p) p
unfolding shorten
shorten-IsPrefix zero test p = ([], sym (append-nil p))
shorten-IsPrefix (suc n) test p = elim (Bool-cases (test p)) [
  | inl q ↦ rw q ([], sym (append-nil p))
  | inr q ↦ rw q (
      IsPrefix-trans (shorten n test (but_last p)) (but_last p) p
        (shorten-IsPrefix n test (but_last p)) (but_last-IsPrefix p))
]

nil_of_length : (p : Text) → length p ≤ 0 → p ≡ []
nil_of_length [] h = refl
nil_of_length (c ∷ p) h = absurd (omega arith)

-- With its length as fuel, the loop ends at a text that passes, or at the empty one.
shorten-test :
    (n : ℕ) (test : Text → Bool) (p : Text)
    → test [] ≡ true
    → length p ≤ n
    → test (shorten n test p) ≡ true
unfolding shorten
shorten-test zero test p t h = ap test (nil_of_length p h) ∙ t
shorten-test (suc n) test p t h = elim (Bool-cases (test p)) [
  | inl q ↦ rw (q, q) refl
  | inr q ↦ rw q (shorten-test n test (but_last p) t (omega (arith, length-but_last p)))
]

-- No prefix that passes is lost.
shorten-longest :
    (n : ℕ) (test : Text → Bool) (q p : Text)
    → test q ≡ true
    → IsPrefix q p
    → IsPrefix q (shorten n test p)
unfolding shorten
shorten-longest zero test q p t h = h
shorten-longest (suc n) test q p t (r, e) = elim (Bool-cases (test p)) [
  | inl y ↦ rw y (r, e)
  | inr y ↦ rw y (
      shorten-longest n test q (but_last p) t (
        subst (λ x. IsPrefix q (but_last x)) (sym e)
          (IsPrefix-but_last q r
            (λ z. false≢true (sym y ∙ ap test (e ∙ ap (λ w. q ++ w) z ∙ append-nil q) ∙ t)))))
]

common_from-IsPrefix :
    (p : Text) (ss : List Text)
    → IsPrefix (common_from p ss) p × All (IsPrefix (common_from p ss)) ss
unfolding common_from
common_from-IsPrefix p [] = (([], sym (append-nil p)), tt)
common_from-IsPrefix p (s ∷ ss) =
    let p' = shorten (length p) (has_prefix s) p in
    let (start, all) = common_from-IsPrefix p' ss in
    (
      IsPrefix-trans (common_from p' ss) p' p start (shorten-IsPrefix (length p) (has_prefix s) p),
      (
        IsPrefix-trans (common_from p' ss) p' s start (
            has_prefix-IsPrefix s p'
              (shorten-test (length p) (has_prefix s) p (has_prefix_nil s) (omega arith))),
        all,
      ),
    )

common_from-longest :
    (q p : Text) (ss : List Text)
    → IsPrefix q p
    → All (IsPrefix q) ss
    → IsPrefix q (common_from p ss)
unfolding common_from
common_from-longest q p [] h k = h
common_from-longest q p (s ∷ ss) h ((r, e), k) =
    common_from-longest q (shorten (length p) (has_prefix s) p) ss
      (shorten-longest (length p) (has_prefix s) q p
        (ap (λ x. has_prefix x q) e ∙ IsPrefix-has_prefix q r) h)
      k

All-IsPrefix-trans :
    (p q : Text) (ss : List Text) → IsPrefix p q → All (IsPrefix q) ss → All (IsPrefix p) ss
All-IsPrefix-trans p q [] h k = tt
All-IsPrefix-trans p q (s ∷ ss) h (a, k) = (IsPrefix-trans p q s h a, All-IsPrefix-trans p q ss h k)

-- longestCommonPrefix of one or more texts starts all of them and is valid UTF-8, where the empty
-- text is, and every valid text that starts all of them starts it.
pub longest_common_prefix-longest :
    (valid : Text → Bool) (s : Text) (ss : List Text) (q : Text)
    → valid [] ≡ true
    → valid q ≡ true
    → All (IsPrefix q) (s ∷ ss)
    → All (IsPrefix (longest_common_prefix valid (s ∷ ss))) (s ∷ ss)
      × (valid (longest_common_prefix valid (s ∷ ss)) ≡ true)
      × IsPrefix q (longest_common_prefix valid (s ∷ ss))
unfolding longest_common_prefix
longest_common_prefix-longest valid s ss q e v (h, k) =
    let p = common_from s ss in
    (
      All-IsPrefix-trans (shorten (length p) valid p) p (s ∷ ss)
          (shorten-IsPrefix (length p) valid p) (common_from-IsPrefix s ss),
      shorten-test (length p) valid p e (omega arith),
      shorten-longest (length p) valid q p v (common_from-longest q s ss h k),
    )
