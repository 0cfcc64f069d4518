-- ===== src/Indexer/Scraper/Template/Expansion.antt =====
-- internal/indexer/scraper/template.go: expandWith on a text that checkPlaceholders accepts.
use mathlib.Core.Bool.{and-true, and_assoc}
use mathlib.Core.List.{append_assoc}
use tortui.Base.{
  List, Text, ℕ, Option, [], ◌∷◌, ◌≡◌, ◌++◌, All, Bool, none, some, arith, is_some, length, true,
  ◌+◌, Option-cases, ◌&&◌, ap, inl, inr, length-append, ◌∙◌, ◌≤◌, ◌<◌, refl, suc, zero, sym, ap₂,
}
use tortui.Indexer.Scraper.Template.{
  cut, without_prefix, open_delim, close_delim, written, has_value, name_of, check_loop, cut_here,
  expand_loop, accepted, check_placeholders, check_template, value, Substitution, expand,
  expand_with,
}

-- The text before each placeholder with what stands inside its delimiters, and the last text.
unfoldable pub template_text : List (Text × Text) → Text → Text
template_text [] tail = tail
template_text ((text, raw) ∷ ps) tail =
    text ++ (open_delim ++ (raw ++ (close_delim ++ template_text ps tail)))

module _ (lower : Text → Text) (lookup : Text → Option Text) where
  unfoldable pub filled : Option (Text → Text) → List (Text × Text) → Text → Text
  filled escape [] tail = tail
  filled escape ((text, raw) ∷ ps) tail =
      text ++ (written escape (lookup (name_of lower raw)) ++ filled escape ps tail)

  unfoldable pub all_filled : List (Text × Text) → Bool
  all_filled [] = true
  all_filled ((text, raw) ∷ ps) = has_value (lookup (name_of lower raw)) && all_filled ps

  -- Every placeholder's name is one that is looked up.
  abbrev pub Known : List (Text × Text) → Type 0
  Known = All (λ (text, raw). is_some (lookup (name_of lower raw)) ≡ true)

-- How the loops read a text.
pub data Parse : Text → List (Text × Text) → Text → Type 0 where
  last : {s : Text} → cut open_delim s ≡ none → Parse s [] s
  piece :
      {s text inner raw after tail : Text} {ps : List (Text × Text)}
      → cut open_delim s ≡ some (text, inner)
      → cut close_delim inner ≡ some (raw, after)
      → Parse after ps tail
      → Parse s ((text, raw) ∷ ps) tail

without_prefix_sound : (p s r : Text) → without_prefix p s ≡ some r → s ≡ p ++ r
unfolding without_prefix
without_prefix_sound [] s r h = ground arith
without_prefix_sound (c ∷ p) [] r h = absurd (ground arith)
without_prefix_sound (c ∷ p) (x ∷ s) r h = ground (arith, without_prefix_sound p s r)

cut_here_sound :
    (sep : Text) (c : ℕ) (s : Text) (here : Option Text) (further : Option (Text × Text))
    → ((r : Text) → here ≡ some r → c ∷ s ≡ sep ++ r)
    → ((a b : Text) → further ≡ some (a, b) → s ≡ a ++ (sep ++ b))
    → (a b : Text) → cut_here c here further ≡ some (a, b)
    → c ∷ s ≡ a ++ (sep ++ b)
cut_here_sound sep c s (some r) further f g a b h = ground (arith, f r refl)
cut_here_sound sep c s none none f g a b h = absurd (ground arith)
cut_here_sound sep c s none (some (a', b')) f g a b h = ground (arith, g a' b' refl)

cut_sound : (sep s : Text) (a b : Text) → cut sep s ≡ some (a, b) → s ≡ a ++ (sep ++ b)
unfolding cut
cut_sound sep [] a b h = absurd (ground arith)
cut_sound sep (c ∷ s) a b h =
    cut_here_sound sep c s (without_prefix sep (c ∷ s)) (cut sep s)
      (without_prefix_sound sep (c ∷ s)) (cut_sound sep s) a b h

length-cut :
    (c d : ℕ) (s a b : Text) → cut (c ∷ d ∷ []) s ≡ some (a, b) → length s ≡ length a + 2 + length b
length-cut c d s a b h =
    omega (arith, ap length (cut_sound (c ∷ d ∷ []) s a b h), length-append a (c ∷ d ∷ b))

-- What follows a placeholder is shorter than what it stands in.
length-after :
    (s text inner raw after : Text)
    → cut open_delim s ≡ some (text, inner)
    → cut close_delim inner ≡ some (raw, after)
    → length after + length raw + 4 ≤ length s
length-after s text inner raw after p q =
    omega (arith, length-cut 123 123 s text inner p, length-cut 125 125 inner raw after q)

pub Parse-template_text :
    {s tail : Text} {ps : List (Text × Text)} → Parse s ps tail → s ≡ template_text ps tail
unfolding template_text
Parse-template_text (last p) = refl
Parse-template_text (piece {s} {text} {inner} {raw} {after} p q rest) =
    cut_sound open_delim s text inner p
    ∙ ap (λ t. text ++ (open_delim ++ t))
        (cut_sound close_delim inner raw after q
          ∙ ap (λ t. raw ++ (close_delim ++ t)) (Parse-template_text rest))

pub Parse-tail :
    {s tail : Text} {ps : List (Text × Text)} → Parse s ps tail → cut open_delim tail ≡ none
Parse-tail (last p) = p
Parse-tail (piece p q rest) = Parse-tail rest

module _ (lower : Text → Text) where
  expand_loop-piece :
      (lookup : Text → Option Text) (escape : Option (Text → Text)) (fuel : ℕ)
      (s text inner raw after out : Text) (complete : Bool)
      → cut open_delim s ≡ some (text, inner)
      → cut close_delim inner ≡ some (raw, after)
      → expand_loop lower lookup escape (suc fuel) out complete s
        ≡ expand_loop lower lookup escape fuel
            (out ++ text ++ written escape (lookup (name_of lower raw)))
            (complete && has_value (lookup (name_of lower raw)))
            after
  unfolding expand_loop
  expand_loop-piece lookup escape fuel s text inner raw after out complete p q =
      rw (expand_loop, p) (rw q refl)

  -- The loop of expandWith, from anywhere in the text.
  pub expand_loop-Parse :
      (lookup : Text → Option Text) (escape : Option (Text → Text)) (fuel : ℕ) {s tail : Text}
      {ps : List (Text × Text)} (out : Text) (complete : Bool)
      → Parse s ps tail
      → length s < fuel
      → expand_loop lower lookup escape fuel out complete s
        ≡ some (out ++ filled lower lookup escape ps tail, complete && all_filled lower lookup ps)
  unfolding expand_loop filled all_filled
  expand_loop-Parse lookup escape zero out complete p h = absurd (omega arith)
  expand_loop-Parse lookup escape (suc fuel) out complete (last p) h =
      rw (expand_loop, p) (ap (λ c. some (out ++ _, c)) (sym (and-true complete)))
  expand_loop-Parse lookup escape (suc fuel) out complete
        (piece {s} {text} {inner} {raw} {after} p q rest) h =
      let found = lookup (name_of lower raw) in
      expand_loop-piece lookup escape fuel s text inner raw after out complete p q
      ∙ expand_loop-Parse lookup escape fuel _ _ rest
          (omega (arith, length-after s text inner raw after p q))
      ∙ ap₂ (λ t b. some (t, b))
          (append_assoc (out ++ text) (written escape found) _ ∙ append_assoc out text _)
          (and_assoc complete (has_value found) _)

  -- The loop of checkPlaceholders.
  pub check_loop-Parse :
      (known : Text → Option Text) (fuel : ℕ) (s : Text)
      → check_loop lower known fuel s ≡ accepted
      → (ps : List (Text × Text)) × (tail : Text) × Parse s ps tail × Known lower known ps
  unfolding check_loop
  check_loop-Parse known zero s h = absurd (ground arith)
  check_loop-Parse known (suc fuel) s h = elim (Option-cases (cut open_delim s)) [
    | inl p ↦ ([], s, last p, tt)
    | inr ((text, inner), p) ↦ elim (Option-cases (cut close_delim inner)) [
      | inl q ↦ absurd (ground (arith, rw (check_loop, p, q) at h))
      | inr ((raw, after), q) ↦ elim (Option-cases (known (name_of lower raw))) [
        | inl r ↦ absurd (ground (arith, rw (check_loop, p, q, r) at h))
        | inr (v, r) ↦
            let (ps, tail, parse, ok) =
              check_loop-Parse known fuel after (rw (check_loop, p, q, r) at h) in
            ((text, raw) ∷ ps, tail, piece p q parse, (rw r refl, ok))
      ]
    ]
  ]

  -- A text that is checked is read to its end, and expandWith fills every placeholder of it.
  pub expand_with-Parse :
      (known lookup : Text → Option Text) (escape : Option (Text → Text)) (tmpl : Text)
      → check_placeholders lower known tmpl ≡ accepted
      → (ps : List (Text × Text)) × (tail : Text) × Parse tmpl ps tail
        × Known lower known ps
        × (expand_with lower lookup escape tmpl
            ≡ some (filled lower lookup escape ps tail, all_filled lower lookup ps))
  unfolding check_placeholders expand_with
  expand_with-Parse known lookup escape tmpl h =
      let (ps, tail, parse, ok) = check_loop-Parse known (length tmpl + 1) tmpl h in
      (
        ps,
        tail,
        parse,
        ok,
        expand_loop-Parse lookup escape (length tmpl + 1) [] true parse (omega arith),
      )

  Known-value :
      (sub sub' : Substitution) (ps : List (Text × Text))
      → Known lower (value sub) ps
      → Known lower (value sub') ps
  unfolding value
  Known-value sub sub' [] h = tt
  Known-value sub sub' (p ∷ ps) (h, k) = (ground arith, Known-value sub sub' ps k)

  -- A path or param template that checkTemplate accepts is texts with placeholders between them,
  -- each with a name that the substitution defines, up to a last text without a "{{"; expand keeps
  -- these texts, writes the name's value, escaped, for each placeholder, and reports completeness
  -- exactly when no value is empty. The loop's fuel suffices.
  pub expand-check_template :
      (tmpl : Text) (sub : Substitution) (escape : Option (Text → Text))
      → check_template lower tmpl ≡ accepted
      → (ps : List (Text × Text)) × (tail : Text) × (tmpl ≡ template_text ps tail)
        × (cut open_delim tail ≡ none)
        × Known lower (value sub) ps
        × (expand lower tmpl sub escape
            ≡ some (filled lower (value sub) escape ps tail, all_filled lower (value sub) ps))
  unfolding check_template expand
  expand-check_template tmpl sub escape h =
      let (ps, tail, parse, ok, q) = expand_with-Parse _ (value sub) escape tmpl h in
      (ps, tail, Parse-template_text parse, Parse-tail parse, Known-value _ sub ps ok, q)
