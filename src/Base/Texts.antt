-- ===== src/Base/Texts.antt =====
-- Texts as lists of code points: equality, and the order that Go's `<` gives valid UTF-8.
use Prim.Native.Nat.{ℕ}
use Prim.Native.Char.{code}
use Prim.Native.String.{String}
use mathlib.Core.Path.{◌≡◌, refl, sym, ap, ◌∙◌}
use mathlib.Core.Logic.{◌↔◌, inl, inr}
use mathlib.Core.Bool.{Bool, true, false, ◌&&◌, ◌||◌}
use mathlib.Core.List.{List, [], ◌∷◌, ◌++◌, append-nil, append_assoc}
use tortui.Base.Lists.{All}
use native.Mathlib.Omega.{arith}
use tortui.Base.Tests.{Eq, ltb, leb, nat_eqb, if◌then◌else◌, Bool-cases}

abbrev pub Text : Type 0
Text = List ℕ

-- The code points of a literal.
abbrev pub codes : String → Text
codes String.[] = []
codes (String.◌∷◌ c s) = code c ∷ codes s

abbrev pub text_eqb : Text → Text → Bool
text_eqb [] [] = true
text_eqb [] (y ∷ ys) = false
text_eqb (x ∷ xs) [] = false
text_eqb (x ∷ xs) (y ∷ ys) = nat_eqb x y && text_eqb xs ys

pub text_eqb_iff : (s t : Text) → (text_eqb s t ≡ true) ↔ (s ≡ t)
text_eqb_iff [] [] = ground arith
text_eqb_iff [] (y ∷ ys) = ground arith
text_eqb_iff (x ∷ xs) [] = ground arith
text_eqb_iff (x ∷ xs) (y ∷ ys) = ground (arith, text_eqb_iff xs ys)

instance abbrev pub text_eq : Eq Text
text_eq = record { beq = text_eqb; beq_iff = text_eqb_iff }

unfoldable pub text_lt : Text → Text → Bool
text_lt xs [] = false
text_lt [] (y ∷ ys) = true
text_lt (x ∷ xs) (y ∷ ys) = ltb x y || (nat_eqb x y && text_lt xs ys)

pub text_lt_irrefl : (s : Text) → text_lt s s ≡ false
unfolding text_lt
text_lt_irrefl [] = refl
text_lt_irrefl (x ∷ xs) = ground (arith, text_lt_irrefl xs)

pub text_lt_trans : (s t u : Text) → text_lt s t ≡ true → text_lt t u ≡ true → text_lt s u ≡ true
unfolding text_lt
text_lt_trans s [] u h k = ground arith
text_lt_trans s (y ∷ ys) [] h k = ground arith
text_lt_trans [] (y ∷ ys) (z ∷ zs) h k = refl
text_lt_trans (x ∷ xs) (y ∷ ys) (z ∷ zs) h k = ground (arith, text_lt_trans xs ys zs)

-- Of two different texts one is smaller.
pub text_lt_total : (s t : Text) → text_lt s t ≡ false → text_lt t s ≡ false → s ≡ t
unfolding text_lt
text_lt_total [] [] h k = refl
text_lt_total [] (y ∷ ys) h k = ground arith
text_lt_total (x ∷ xs) [] h k = ground arith
text_lt_total (x ∷ xs) (y ∷ ys) h k = ground (arith, text_lt_total xs ys)

-- unicode.IsSpace
abbrev pub is_space : ℕ → Bool
is_space c =
    (leb 9 c && leb c 13)
    || nat_eqb c 0x20
    || nat_eqb c 0x85
    || nat_eqb c 0xa0
    || nat_eqb c 0x1680
    || (leb 0x2000 c && leb c 0x200a)
    || nat_eqb c 0x2028
    || nat_eqb c 0x2029
    || nat_eqb c 0x202f
    || nat_eqb c 0x205f
    || nat_eqb c 0x3000

trimmed_left : (ℕ → Bool) → Text → Text
trimmed_left p [] = []
trimmed_left p (c ∷ s) = let rest = trimmed_left p s in if p c then rest else c ∷ s

-- strings.TrimRightFunc
unfoldable pub trimmed_right : (ℕ → Bool) → Text → Text
trimmed_right p [] = []
trimmed_right p (c ∷ s) =
    let rest = trimmed_right p s in if p c && text_eqb rest [] then [] else c ∷ rest

-- strings.TrimSpace
unfoldable pub space_trimmed : Text → Text
unfolding trimmed_left trimmed_right
space_trimmed s = trimmed_left is_space (trimmed_right is_space s)

-- strings.Join
unfoldable pub joined : Text → List Text → Text
joined sep [] = []
joined sep (s ∷ []) = s
joined sep (s ∷ t ∷ rest) = s ++ sep ++ joined sep (t ∷ rest)

abbrev nonempty : Text → List Text → List Text
nonempty [] rest = rest
nonempty (c ∷ s) rest = (c ∷ s) ∷ rest

-- The loop of strings.FieldsFunc: `field` is what has been read of the current field.
fields_from : (ℕ → Bool) → Text → Text → List Text
fields_from p field [] = nonempty field []
fields_from p field (c ∷ s) =
    let rest = fields_from p (if p c then [] else field ++ c ∷ []) s in
    if p c then nonempty field rest else rest

unfoldable pub fields : (ℕ → Bool) → Text → List Text
unfolding fields_from
fields p s = fields_from p [] s

fields_from_lem :
    (p : ℕ → Bool) (field s : Text)
    → All (λ c. p c ≡ false) s
    → fields_from p field s ≡ nonempty (field ++ s) []
unfolding fields_from
fields_from_lem p field [] h = ap (λ f. nonempty f []) (sym (append-nil field))
fields_from_lem p field (c ∷ s) (h, k) = rw h (
    fields_from_lem p (field ++ c ∷ []) s k
    ∙ ap (λ f. nonempty f []) (append_assoc field (c ∷ []) s))

-- A text without separators is one field.
pub fields_lem :
    (p : ℕ → Bool) (c : ℕ) (s : Text)
    → All (λ r. p r ≡ false) (c ∷ s)
    → fields p (c ∷ s) ≡ (c ∷ s) ∷ []
unfolding fields
fields_lem p c s h = fields_from_lem p [] (c ∷ s) h

-- Go's Unicode tables.
pub record Unicode : Type 0 where
  pub to_lower : ℕ → ℕ
  pub is_letter : ℕ → Bool
  pub is_digit : ℕ → Bool

pub text_lt_asym : (s t : Text) → text_lt s t ≡ true → text_lt t s ≡ false
text_lt_asym s t h = elim (Bool-cases (text_lt t s)) [
  | inl e ↦ ground (arith, text_lt_trans s t s h e, text_lt_irrefl s)
  | inr e ↦ e
]

pub text_lt_cotrans :
    (s t u : Text) → text_lt t s ≡ false → text_lt u t ≡ false → text_lt u s ≡ false
text_lt_cotrans s t u h k = elim (Bool-cases (text_lt u s)) [
  | inl e ↦ ground (arith, text_lt_total s t, text_lt_trans u s t)
  | inr e ↦ e
]
