-- ===== src/Indexer/Scraper/Template.antt =====
-- internal/indexer/scraper/template.go: the placeholders of a definition's paths, params and
-- fields. `lower` is strings.ToLower. A loop takes fuel above the length of its text.
pub mod Expansion
pub mod Fields
use mathlib.Core.Option
use tortui.Base.{
  Option, Text, ℕ, ℤ, Bool, List, [], codes, if◌then◌else◌, length, none, pos, some, space_trimmed,
  suc, ◌+◌, ◌++◌, ◌/◌, ◌==◌, false, ltb, zero, ◌∷◌, ◌%◌, ◌&&◌, nat_eq, negsuc, not, text_eq, true,
  ◌||◌, is_some,
}
use tortui.Indexer.{Query}

pub data Problem : Type 0 where
  placeholder_unterminated placeholder_unknown template_value_missing : Problem

pub data Checked : Type 0 where
  accepted : Checked
  refused : Problem → Checked
  out_of_fuel : Checked

pub record Substitution : Type 0 where
  pub query : Text
  pub limit : Text
  pub offset : Text

abbrev pub open_delim : Text
open_delim = codes "{{"

abbrev pub close_delim : Text
close_delim = codes "}}"

-- strings.CutPrefix
unfoldable pub without_prefix : Text → Text → Option Text
without_prefix [] s = some s
without_prefix (c ∷ p) [] = none
without_prefix (c ∷ p) (x ∷ s) = let rest = without_prefix p s in if x == c then rest else none

-- What is found here, or further on after `c`.
abbrev pub cut_here : ℕ → Option Text → Option (Text × Text) → Option (Text × Text)
cut_here c (some after) further = some ([], after)
cut_here c none none = none
cut_here c none (some (before, after)) = some (c ∷ before, after)

-- strings.Index with the two slices around what it finds, for a separator that is not empty.
unfoldable pub cut : Text → Text → Option (Text × Text)
cut sep [] = none
cut sep (c ∷ s) = cut_here c (without_prefix sep (c ∷ s)) (cut sep s)

-- strconv.Itoa of a number that is not negative; an int has at most 19 digits.
unfoldable pub decimal : ℕ → ℕ → Text
decimal zero n = []
decimal (suc fuel) n =
    let rest = decimal fuel (n / 10) in
    if ltb n 10 then (48 + n) ∷ [] else rest ++ (48 + n % 10) ∷ []

abbrev itoa_positive : ℤ → Text
itoa_positive (pos n) = if ltb 0 n then decimal 19 n else []
itoa_positive (negsuc n) = []

unfoldable pub substitution_for : Query → Substitution
substitution_for q = record {
  query = space_trimmed q.text;
  limit = itoa_positive q.limit;
  offset = itoa_positive q.offset;
}

-- `none` for a name that the schema does not define.
unfoldable pub value : Substitution → Text → Option Text
value s name =
    if name == codes "query"
    then some s.query
    else if name == codes "limit"
    then some s.limit
    else if name == codes "offset"
    then some s.offset
    else none

unfoldable pub field_value : Text → Text → Option Text
field_value v name = if name == codes "value" then some v else none

-- What is written for a placeholder, and whether there is something to write.
abbrev pub written : Option (Text → Text) → Option Text → Text
written none none = []
written none (some v) = v
written (some escape) none = escape []
written (some escape) (some v) = escape v

abbrev pub has_value : Option Text → Bool
has_value none = false
has_value (some v) = not (v == [])

-- checkFieldTemplate, from what the check of the placeholders and the expansion give.
abbrev pub field_checked : Text → Checked → Option (Text × Bool) → Checked
field_checked tmpl accepted none = out_of_fuel
field_checked tmpl accepted (some (got, _)) =
    if got == tmpl then refused template_value_missing else accepted
field_checked tmpl (refused p) expanded = refused p
field_checked tmpl out_of_fuel expanded = out_of_fuel

module _ (lower : Text → Text) where
  abbrev pub name_of : Text → Text
  name_of raw = lower (space_trimmed raw)

  unfoldable pub check_loop : (Text → Option Text) → ℕ → Text → Checked
  check_loop known zero rest = out_of_fuel
  check_loop known (suc fuel) rest = elim (cut open_delim rest) [
    | none ↦ accepted
    | some (_, inner) ↦ elim (cut close_delim inner) [
      | none ↦ refused placeholder_unterminated
      | some (raw, after) ↦
          let next = check_loop known fuel after in
          elim (known (name_of raw)) [ none ↦ refused placeholder_unknown | some _ ↦ next ]
    ]
  ]

  unfoldable pub check_placeholders : (Text → Option Text) → Text → Checked
  check_placeholders known tmpl = check_loop known (length tmpl + 1) tmpl

  unfoldable pub check_template : Text → Checked
  check_template = check_placeholders (value (record { query = []; limit = []; offset = [] }))

  module _ (lookup : Text → Option Text) (escape : Option (Text → Text)) where
    -- `out` is the strings.Builder.
    unfoldable pub expand_loop : ℕ → Text → Bool → Text → Option (Text × Bool)
    expand_loop zero out complete rest = none
    expand_loop (suc fuel) out complete rest = elim (cut open_delim rest) [
      | none ↦ some (out ++ rest, complete)
      | some (text, inner) ↦ elim (cut close_delim inner) [
        | none ↦ some (out ++ text ++ open_delim ++ inner, complete)
        | some (raw, after) ↦
            let found = lookup (name_of raw) in
            expand_loop fuel (out ++ text ++ written escape found) (complete && has_value found)
              after
      ]
    ]

    unfoldable pub expand_with : Text → Option (Text × Bool)
    expand_with tmpl = expand_loop (length tmpl + 1) [] true tmpl

  unfoldable pub expand : Text → Substitution → Option (Text → Text) → Option (Text × Bool)
  expand tmpl sub escape = expand_with (value sub) escape tmpl

  unfoldable pub check_field_template : Text → Checked
  check_field_template tmpl =
      field_checked tmpl (check_placeholders (field_value []) tmpl)
        (expand_with (field_value (codes "v")) none tmpl)

  -- strings.Contains is whether strings.Index finds something.
  unfoldable pub mentions_offset : Text → Bool
  mentions_offset tmpl =
      is_some (cut (codes "{{offset}}") (lower tmpl))
      || is_some (cut (codes "{{ offset }}") (lower tmpl))

  -- The params of request, as a list in the order of the range; a dropped one is not in it.
  unfoldable pub request_params : List (Text × Text) → Substitution → Option (List (Text × Text))
  request_params [] sub = some []
  request_params ((key, tmpl) ∷ params) sub = elim (expand tmpl sub none) [
    | none ↦ none
    | some (v, complete) ↦
        Option.map (λ rest. if not complete || v == [] then rest else (key, v) ∷ rest)
          (request_params params sub)
  ]
