-- ===== src/Indexer/Scraper/Escapes.antt =====
-- internal/indexer/scraper/template.go: escapeSegment over url.PathEscape.
pub mod Segment
use mathlib.Core.List.{append_assoc}
use tortui.Base.{
  List, Text, codes, ℕ, Bool, if◌then◌else◌, ◌≡◌, ◌∷◌, ◌++◌, ◌==◌, [], leb, ltb, refl, ◌&&◌, ◌+◌,
  ◌/◌, text_eq, ◌%◌, ◌||◌, contains, nat_eq, arith, Bool-cases, inl, inr, ap, length-append, sym,
  ◌≢◌, ◌≤◌, length, ◌∙◌, ◌⊎◌, ◌<◌, false, text_eqb_iff,
}

-- utf8.AppendRune
utf8 : ℕ → List ℕ
utf8 c =
    if ltb c 0x80
    then c ∷ []
    else if ltb c 0x800
    then (0xc0 + c / 64) ∷ (0x80 + c % 64) ∷ []
    else if ltb c 0x10000
    then (0xe0 + c / 4096) ∷ (0x80 + c / 64 % 64) ∷ (0x80 + c % 64) ∷ []
    else (0xf0 + c / 262144) ∷ (0x80 + c / 4096 % 64) ∷ (0x80 + c / 64 % 64) ∷ (0x80 + c % 64) ∷ []

-- The bytes that url.PathEscape leaves as they are: letters, digits and "-_.~$&+:=@".
plain : ℕ → Bool
plain b =
    (leb 97 b && leb b 122)
    || (leb 65 b && leb b 90)
    || (leb 48 b && leb b 57)
    || contains (codes "-_.~$&+:=@") b

hex_digit : ℕ → ℕ
hex_digit n = if ltb n 10 then 48 + n else 55 + n

escape_byte : ℕ → Text
unfolding plain hex_digit
escape_byte b = if plain b then b ∷ [] else 37 ∷ hex_digit (b / 16) ∷ hex_digit (b % 16) ∷ []

escape_bytes : List ℕ → Text
unfolding escape_byte
escape_bytes [] = []
escape_bytes (b ∷ bs) = escape_byte b ++ escape_bytes bs

-- url.PathEscape
unfoldable pub path_escape : Text → Text
unfolding utf8 escape_bytes
path_escape [] = []
path_escape (c ∷ s) = escape_bytes (utf8 c) ++ path_escape s

unfoldable pub escape_segment : Text → Text
unfolding path_escape
escape_segment v =
    if v == codes "."
    then codes "%2E"
    else if v == codes ".."
    then codes "%2E%2E"
    else path_escape v

-- How often a character occurs.
unfoldable pub count : ℕ → Text → ℕ
count c [] = 0
count c (x ∷ s) = let rest = count c s in if x == c then rest + 1 else rest

-- No "/", no "?" and no "#".
abbrev pub Clean : Text → Type 0
Clean s = (count 47 s ≡ 0) × (count 63 s ≡ 0) × (count 35 s ≡ 0)

pub count-append : (c : ℕ) (s t : Text) → count c (s ++ t) ≡ count c s + count c t
unfolding count
count-append c [] t = omega arith
count-append c (x ∷ s) t = ground (arith, count-append c s t)

escape_byte-Clean : (b : ℕ) → Clean (escape_byte b)
unfolding escape_byte plain hex_digit count
escape_byte-Clean b = (ground arith, ground arith, ground arith)

Clean-append : (s t : Text) → Clean s → Clean t → Clean (s ++ t)
Clean-append s t (a, b, c) (a', b', c') = (
  omega (arith, count-append 47 s t),
  omega (arith, count-append 63 s t),
  omega (arith, count-append 35 s t),
)

escape_bytes-Clean : (bs : List ℕ) → Clean (escape_bytes bs)
unfolding escape_bytes count
escape_bytes-Clean [] = (refl, refl, refl)
escape_bytes-Clean (b ∷ bs) =
    Clean-append (escape_byte b) (escape_bytes bs) (escape_byte-Clean b) (escape_bytes-Clean bs)

path_escape-Clean : (s : Text) → Clean (path_escape s)
unfolding path_escape count
path_escape-Clean [] = (refl, refl, refl)
path_escape-Clean (c ∷ s) =
    Clean-append (escape_bytes (utf8 c)) (path_escape s) (escape_bytes-Clean (utf8 c))
      (path_escape-Clean s)

pub escape_segment-Clean : (v : Text) → Clean (escape_segment v)
unfolding escape_segment count
escape_segment-Clean v = elim (Bool-cases (v == codes ".")) [
  | inl q ↦ rw q (refl, refl, refl)
  | inr q ↦ elim (Bool-cases (v == codes "..")) [
    | inl r ↦ rw (q, r) (refl, refl, refl)
    | inr r ↦ rw (q, r) (path_escape-Clean v)
  ]
]
