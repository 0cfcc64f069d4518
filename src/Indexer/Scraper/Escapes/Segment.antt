-- ===== src/Indexer/Scraper/Escapes/Segment.antt =====
-- internal/indexer/scraper/template.go: escapeSegment, whose values are one path segment.
use mathlib.Core.List.{append_assoc}
use tortui.Base.{
  Text, ℕ, ◌++◌, ◌==◌, List, ◌≡◌, ◌≢◌, ◌≤◌, [], codes, length, ◌∷◌, Bool-cases, arith, false, inl,
  sym, ◌⊎◌, ◌<◌, ap, inr, length-append, ◌∙◌, ltb, refl, text_eq, text_eqb_iff, ◌+◌, ◌/◌, ◌%◌,
}
use tortui.Indexer.Scraper.Escapes.{
  utf8, plain, escape_byte, escape_bytes, path_escape, path_escape-Clean, escape_segment, Clean,
  count,
}

escape_byte_dot : (b : ℕ) (s t : Text) → escape_byte b ++ s ≡ 46 ∷ t → (b ≡ 46) × (s ≡ t)
unfolding escape_byte
escape_byte_dot b s t h = elim (Bool-cases (plain b)) [
  | inl q ↦ ground (arith, rw q at h)
  | inr q ↦ ground (arith, rw q at h)
]

escape_bytes_dot :
    (b : ℕ) (bs : List ℕ) (s t : Text)
    → escape_bytes (b ∷ bs) ++ s ≡ 46 ∷ t
    → (b ≡ 46) × (escape_bytes bs ++ s ≡ t)
unfolding escape_bytes
escape_bytes_dot b bs s t h =
    escape_byte_dot b (escape_bytes bs ++ s) t
      (sym (append_assoc (escape_byte b) (escape_bytes bs) s) ∙ h)

utf8-cases :
    (c : ℕ) → (b : ℕ) × (bs : List ℕ) × (utf8 c ≡ b ∷ bs) × (((b ≡ c) × (bs ≡ [])) ⊎ (46 < b))
unfolding utf8
utf8-cases c = elim (Bool-cases (ltb c 0x80)) [
  | inl q ↦ (c, [], rw q refl, inl (refl, refl))
  | inr q ↦ elim (Bool-cases (ltb c 0x800)) [
    | inl r ↦ (0xc0 + c / 64, (0x80 + c % 64) ∷ [], rw (q, r) refl, inr (omega arith))
    | inr r ↦ elim (Bool-cases (ltb c 0x10000)) [
      | inl u ↦ (
        0xe0 + c / 4096,
        (0x80 + c / 64 % 64) ∷ (0x80 + c % 64) ∷ [],
        rw (q, r, u) refl,
        inr (omega arith),
      )
      | inr u ↦ (
        0xf0 + c / 262144,
        (0x80 + c / 4096 % 64) ∷ (0x80 + c / 64 % 64) ∷ (0x80 + c % 64) ∷ [],
        rw (q, r, u) refl,
        inr (omega arith),
      )
    ]
  ]
]

-- Only "." itself is written as a text that starts with ".".
dot_head : (c : ℕ) (s t : Text) → escape_bytes (utf8 c) ++ s ≡ 46 ∷ t → (c ≡ 46) × (s ≡ t)
unfolding escape_bytes
dot_head c s t h =
    let (b, bs, q, which) = utf8-cases c in
    let (at_dot, rest) = escape_bytes_dot b bs s t (rw q at h) in
    elim which [
      | inl (same, alone) ↦ (sym same ∙ at_dot, ap (λ l. escape_bytes l ++ s) (sym alone) ∙ rest)
      | inr high ↦ absurd (omega arith)
    ]

escape_byte_pos : (b : ℕ) → 1 ≤ length (escape_byte b)
unfolding escape_byte
escape_byte_pos b = ground arith

utf8_pos : (c : ℕ) → 1 ≤ length (escape_bytes (utf8 c))
unfolding escape_bytes
utf8_pos c =
    let (b, bs, q, _) = utf8-cases c in
    rw q (omega (arith, escape_byte_pos b, length-append (escape_byte b) (escape_bytes bs)))

path_escape_nil : (s : Text) → path_escape s ≡ [] → s ≡ []
unfolding path_escape
path_escape_nil [] h = refl
path_escape_nil (c ∷ s) h =
    absurd (
      omega (arith, utf8_pos c, length-append (escape_bytes (utf8 c)) (path_escape s), ap length h))

dot_tail : (s t : Text) → path_escape s ≡ 46 ∷ t → (u : Text) × (s ≡ 46 ∷ u) × (path_escape u ≡ t)
unfolding path_escape
dot_tail [] t h = absurd (ground arith)
dot_tail (c ∷ s) t h = let (q, r) = dot_head c (path_escape s) t h in (s, ap (λ d. d ∷ s) q, r)

path_escape_not_dot : (v : Text) → v == codes "." ≡ false → path_escape v ≢ codes "."
path_escape_not_dot v q h =
    let (u, shape, rest) = dot_tail v [] h in
    let whole = shape ∙ ap (◌∷◌ 46) (path_escape_nil u rest) in
    ground (arith, text_eqb_iff v (codes "."))

path_escape_not_dots : (v : Text) → v == codes ".." ≡ false → path_escape v ≢ codes ".."
path_escape_not_dots v q h =
    let (u, shape, rest) = dot_tail v (codes ".") h in
    let (w, shape', rest') = dot_tail u [] rest in
    let whole = shape ∙ ap (◌∷◌ 46) (shape' ∙ ap (◌∷◌ 46) (path_escape_nil w rest')) in
    ground (arith, text_eqb_iff v (codes ".."))

-- Whatever a value holds, escapeSegment writes it without "/", "?" and "#", and never as "." or
-- "..", the two segments that the resolution of an address removes.
pub escape_segment-one_segment :
    (v : Text)
    → Clean (escape_segment v) × (escape_segment v ≢ codes ".") × (escape_segment v ≢ codes "..")
unfolding escape_segment count
escape_segment-one_segment v = elim (Bool-cases (v == codes ".")) [
  | inl q ↦ rw q ((refl, refl, refl), λ h. ground arith, λ h. ground arith)
  | inr q ↦ elim (Bool-cases (v == codes "..")) [
    | inl r ↦ rw (q, r) ((refl, refl, refl), λ h. ground arith, λ h. ground arith)
    | inr r ↦
        rw (q, r)
          (path_escape-Clean v, λ h. path_escape_not_dot v q h, λ h. path_escape_not_dots v r h)
  ]
]
