-- ===== src/Indexer/Scraper/Examples.antt =====
-- internal/indexer/scraper: templates of a definition, for the tests.
use tortui.Base.{
  Text, codes, ◌≡◌, ◌∷◌, [], if◌then◌else◌, ◌≢◌, leb, ◌↔◌, ◌&&◌, ◌+◌, is_some, space_trimmed, List,
  some, false, refl, true, All, none, arith,
}
use tortui.Indexer.Scraper.Template.{
  Substitution, check_field_template, check_template, expand, check_placeholders, expand_with,
  accepted, check_loop, expand_loop, cut, field_value, without_prefix, value, open_delim,
  mentions_offset,
}
use tortui.Indexer.Scraper.Template.Expansion.{
  template_text, Known, filled, all_filled, expand-check_template,
}
use tortui.Indexer.Scraper.Template.Fields.{
  fill_field_template, check_field_template_iff, literal_text, fill_field_template-structure,
}
use tortui.Indexer.Scraper.Escapes.{Clean, escape_segment, path_escape, count}
use tortui.Indexer.Scraper.Escapes.Segment.{escape_segment-one_segment}

-- strings.ToLower on ASCII.
abbrev ascii_lower : Text → Text
ascii_lower [] = []
ascii_lower (c ∷ s) = (if leb 65 c && leb c 90 then c + 32 else c) ∷ ascii_lower s

abbrev query_path : Text
query_path = codes "/find/{{ Query }}/{{offset}}.xml"

abbrev a_b : Substitution
a_b = record { query = codes "a/b"; limit = codes "5"; offset = [] }

expand_run :
    expand ascii_lower query_path a_b (some path_escape) ≡ some (codes "/find/a%2Fb/.xml", false)
unfolding expand expand_with expand_loop cut without_prefix path_escape value space_trimmed
expand_run = refl

expand-check_template_example :
    (ps : List (Text × Text)) × (tail : Text) × (query_path ≡ template_text ps tail)
    × (cut open_delim tail ≡ none)
    × Known ascii_lower (value a_b) ps
    × (expand ascii_lower query_path a_b (some path_escape)
        ≡ some (
          filled ascii_lower (value a_b) (some path_escape) ps tail,
          all_filled ascii_lower (value a_b) ps,
        ))
unfolding check_template check_placeholders check_loop cut without_prefix value space_trimmed
expand-check_template_example =
    expand-check_template ascii_lower query_path a_b (some path_escape) refl

abbrev link : Text
link = codes "/torrent/{{value}}?x=1"

check_field_template_iff_example : (check_field_template ascii_lower link ≡ accepted) ↔ (
    (check_placeholders ascii_lower (field_value []) link ≡ accepted)
    × (is_some (cut open_delim link) ≡ true))
check_field_template_iff_example = check_field_template_iff ascii_lower link

fill_field_template-structure_example :
    (ps : List (Text × Text)) × (tail : Text) × (out : Text) × (link ≡ template_text ps tail)
    × (fill_field_template ascii_lower link (codes "../a?b") ≡ some out)
    × All (λ c. count c out ≡ count c (literal_text ps tail)) (codes "/?#")
unfolding check_field_template check_placeholders check_loop expand_with expand_loop cut
    without_prefix field_value space_trimmed
fill_field_template-structure_example =
    fill_field_template-structure ascii_lower link (codes "../a?b") refl (λ e. ground arith)

fill_run :
    fill_field_template ascii_lower link (codes "../a?b") ≡ some (codes "/torrent/..%2Fa%3Fb?x=1")
unfolding fill_field_template expand_with expand_loop cut without_prefix field_value space_trimmed
    escape_segment path_escape
fill_run = refl

escape_segment-one_segment_example :
    Clean (escape_segment (codes ".."))
    × (escape_segment (codes "..") ≢ codes ".")
    × (escape_segment (codes "..") ≢ codes "..")
escape_segment-one_segment_example = escape_segment-one_segment (codes "..")

-- A space on one side only.
abbrev half_spaced : Text
half_spaced = codes "{{offset }}"

offset_unseen :
    (mentions_offset ascii_lower half_spaced ≡ false)
    × (expand ascii_lower half_spaced (record a_b { offset = codes "20" }) none
        ≡ some (codes "20", true))
unfolding mentions_offset expand expand_with expand_loop cut without_prefix value space_trimmed
offset_unseen = (refl, refl)
