-- ===== src/Indexer/Scraper/Template/Fields.antt =====
-- internal/indexer/scraper/template.go: checkFieldTemplate and fillFieldTemplate.
use mathlib.Core.Option
use tortui.Base.{
  List, Text, Option, [], ◌∷◌, ◌++◌, ◌==◌, ◌≡◌, true, ℕ, length, some, ◌↔◌, ◌≢◌, All, codes,
  is_some, none, refl, ◌+◌, text_eq, ◌*◌, false, ◌≤◌, arith, if◌then◌else◌, Bool, length-append,
  not, text_eqb_iff, ap, Bool-cases, inl, inr,
}
use tortui.Indexer.Scraper.Template.{
  check_field_template, field_value, accepted, check_placeholders, expand_with, cut, open_delim,
  Checked, name_of, close_delim, field_checked, refused, out_of_fuel,
}
use tortui.Indexer.Scraper.Template.Expansion.{
  filled, template_text, Known, expand_with-Parse, Parse-template_text, Parse, last, piece,
}
use tortui.Indexer.Scraper.Escapes.{count, escape_segment, escape_segment-Clean, count-append}

-- The template's own text, without the placeholders.
unfoldable pub literal_text : List (Text × Text) → Text → Text
literal_text [] tail = tail
literal_text ((text, raw) ∷ ps) tail = text ++ literal_text ps tail

field_checked-accepted :
    (tmpl : Text) (c : Checked) (e : Option (Text × Bool))
    → field_checked tmpl c e ≡ accepted
    → c ≡ accepted
field_checked-accepted tmpl accepted e h = refl
field_checked-accepted tmpl (refused p) e h = absurd (ground arith)
field_checked-accepted tmpl out_of_fuel e h = absurd (ground arith)

ne-text_eqb : (s t : Text) → s ≢ t → s == t ≡ false
ne-text_eqb s t h = ground (arith, text_eqb_iff s t)

nonempty_eqb : (v : Text) → v ≢ [] → v == [] ≡ false
nonempty_eqb [] h = absurd (h refl)
nonempty_eqb (c ∷ v) h = refl

module _ (lower : Text → Text) where
  unfoldable pub fill_field_template : Text → Text → Option Text
  fill_field_template tmpl v =
      if v == []
      then some []
      else Option.map (λ (out, _). out)
          (expand_with lower (field_value v) (some escape_segment) tmpl)

  field_value_lem :
      (v name : Text) → is_some (field_value [] name) ≡ true → field_value v name ≡ some v
  unfolding field_value
  field_value_lem v name h = ground arith

  -- A placeholder of a field template is longer than the one character put in its place.
  length-filled :
      (ps : List (Text × Text)) (tail : Text)
      → Known lower (field_value []) ps
      → length (filled lower (field_value (codes "v")) none ps tail) + 3 * length ps
        ≤ length (template_text ps tail)
  unfolding filled template_text field_value
  length-filled [] tail h = omega arith
  length-filled ((text, raw) ∷ ps) tail (h, k) =
      rw (field_value_lem (codes "v") (name_of lower raw) h) (
        omega (
          arith,
          length-filled ps tail k,
          length-append text (codes "v" ++ filled lower (field_value (codes "v")) none ps tail),
          length-append text (open_delim ++ (raw ++ (close_delim ++ template_text ps tail))),
          length-append raw (close_delim ++ template_text ps tail),
        ))

  -- Whether the expansion that checkFieldTemplate tries out leaves the text as it is.
  filled_same :
      {tmpl tail : Text} {ps : List (Text × Text)}
      → Parse tmpl ps tail
      → Known lower (field_value []) ps
      → filled lower (field_value (codes "v")) none ps tail == tmpl
        ≡ not (is_some (cut open_delim tmpl))
  unfolding filled
  filled_same (last {s} p) k = rw p ((text_eqb_iff s s).1 refl)
  filled_same (piece {s} {text} {raw} {tail} {ps} p q rest) k = rw p (
      ne-text_eqb (filled lower (field_value (codes "v")) none ((text, raw) ∷ ps) tail) s (λ e.
        omega (
          arith,
          length-filled ((text, raw) ∷ ps) tail k,
          ap length e,
          ap length (Parse-template_text (piece p q rest)),
        )))

  -- checkFieldTemplate accepts a template exactly when the check of its placeholders does and it
  -- holds a "{{": comparing the expansion of "v" with the text finds every template without one.
  pub check_field_template_iff :
      (tmpl : Text)
      → (check_field_template lower tmpl ≡ accepted) ↔ (
          (check_placeholders lower (field_value []) tmpl ≡ accepted)
          × (is_some (cut open_delim tmpl) ≡ true))
  unfolding check_field_template
  check_field_template_iff tmpl = (
    λ h.
        let c = field_checked-accepted _ _ _ h in
        let (ps, tail, parse, known, q) =
          expand_with-Parse lower (field_value []) (field_value (codes "v")) none tmpl c in
        (
          c,
          elim (Bool-cases (is_some (cut open_delim tmpl))) [
            | inl e ↦ e
            | inr e ↦
                absurd
                  (ground (arith, rw (check_field_template, c, q, filled_same parse known, e) at h))
          ],
        ),
    λ (c, some_found).
        let (ps, tail, parse, known, q) =
          expand_with-Parse lower (field_value []) (field_value (codes "v")) none tmpl c in
        rw (c, q, filled_same parse known, some_found) refl,
  )

  count-filled :
      (c : ℕ) (v : Text) (ps : List (Text × Text)) (tail : Text)
      → Known lower (field_value []) ps
      → count c (escape_segment v) ≡ 0
      → count c (filled lower (field_value v) (some escape_segment) ps tail)
        ≡ count c (literal_text ps tail)
  unfolding filled literal_text field_value
  count-filled c v [] tail h z = refl
  count-filled c v ((text, raw) ∷ ps) tail (h, k) z = rw (field_value_lem v (name_of lower raw) h) (
      omega (
        arith,
        count-filled c v ps tail k z,
        count-append c text
            (escape_segment v ++ filled lower (field_value v) (some escape_segment) ps tail),
        count-append c (escape_segment v)
            (filled lower (field_value v) (some escape_segment) ps tail),
        count-append c text (literal_text ps tail),
      ))

  -- A field template that checkFieldTemplate accepts, filled with a value that is not empty, has
  -- as many "/", "?" and "#" as its own text outside the placeholders: the value adds none, whatever
  -- it is. The fill never runs out of fuel.
  pub fill_field_template-structure :
      (tmpl v : Text)
      → check_field_template lower tmpl ≡ accepted
      → v ≢ []
      → (ps : List (Text × Text)) × (tail : Text) × (out : Text) × (tmpl ≡ template_text ps tail)
        × (fill_field_template tmpl v ≡ some out)
        × All (λ c. count c out ≡ count c (literal_text ps tail)) (codes "/?#")
  unfolding fill_field_template
  fill_field_template-structure tmpl v h nonempty =
      let (ps, tail, parse, known, q) =
        expand_with-Parse lower (field_value []) (field_value v) (some escape_segment) tmpl
          ((check_field_template_iff tmpl).0 h).0 in
      let (a, b, c) = escape_segment-Clean v in
      (
        ps,
        tail,
        filled lower (field_value v) (some escape_segment) ps tail,
        Parse-template_text parse,
        rw (nonempty_eqb v nonempty, q) refl,
        (
          count-filled 47 v ps tail known a,
          (count-filled 63 v ps tail known b, (count-filled 35 v ps tail known c, tt)),
        ),
      )
