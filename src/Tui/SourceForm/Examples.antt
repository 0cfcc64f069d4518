-- ===== src/Tui/SourceForm/Examples.antt =====
-- internal/tui/settings.go, pathcomplete.go: an add form and some keys, for the tests.
use tortui.Base.{
  refl, All, List, Text, [], codes, true, none, arith, false, ◌∷◌, ◌≡◌, Bool, text_eq, some, pos,
}
use tortui.Engine.Paths.{has_prefix}
use tortui.Tui.SourceForm.{
  Form, Helpers, form_fields, visible_fields, current, advance_field, clamp_cursor,
}
use tortui.Tui.SourceForm.Completion.{
  but_last, longest_common_prefix, apply_completion, common_from, shorten,
}
use tortui.Tui.SourceForm.Completion.Prefix.{IsPrefix, longest_common_prefix-longest}
use tortui.Tui.SourceForm.Keys.{
  run_form, FormEvent, KeyMsg, form_step, shown, handle_source_form_key, key_runes, other_key,
  presses, handle_form_complete, handle_import_tab, reads, previous_field, toggled_typ,
  is_url_source, replaced,
}
use tortui.Tui.SourceForm.Keys.Range.{IsSafe, IsInRange}
use tortui.Tui.SourceForm.Keys.Panics.{run_form-IsSafe}
use tortui.Tui.SourceForm.Keys.Discards.{run_form-is_gone, MayGo}

-- For ASCII in lower case without spaces around it.
abbrev ascii : Helpers
ascii = record {
  valid = λ s. true;
  trim_last_rune = but_last;
  lower = λ s. s;
  trimmed = λ s. s;
  split_torznab_url = λ s. none;
}

abbrev add_form : Form
add_form = record {
  editing_id = [];
  name = [];
  typ = codes "torznab";
  source_url = [];
  api_key = [];
  cookie = [];
  definition = [];
  id_override = [];
  import_text = [];
  completion = none;
  complete_gen = 0;
  cursor = 0;
  reveal = false;
  dirty = false;
  confirm_discard = false;
}

abbrev key : Text → KeyMsg
key s = record { string = s; key_type = other_key; runes = []; rune_count = 0 }

abbrev letter : Text → KeyMsg
letter s = record { string = s; key_type = key_runes; runes = s; rune_count = 1 }

add_form-IsInRange : IsInRange add_form
unfolding form_fields visible_fields
add_form-IsInRange = record { at_field = omega arith; cycle = tt }

-- A scraper form at its import field, whose completion is cycled through.
abbrev completes : List FormEvent
completes =
    presses (key (codes "down"))
    ∷ presses (key (codes "right"))
    ∷ presses (key (codes "up"))
    ∷ presses (key (codes "up"))
    ∷ presses (key (codes "up"))
    ∷ presses (letter (codes "a"))
    ∷ presses (key (codes "tab"))
    ∷ reads 1 (codes "a") (codes "ab.yml" ∷ codes "ac.yml" ∷ [])
    ∷ presses (key (codes "tab"))
    ∷ []

completes_run :
    (f : Form) × (f.import_text ≡ codes "ac.yml")
    × (run_form ascii completes (shown add_form none) ≡ shown f none)
unfolding run_form form_step handle_source_form_key handle_form_complete handle_import_tab current
    form_fields visible_fields advance_field clamp_cursor previous_field toggled_typ
    apply_completion longest_common_prefix common_from shorten is_url_source has_prefix
completes_run = (
  record add_form {
    typ = codes "scraper";
    cursor = 6;
    import_text = codes "ac.yml";
    complete_gen = 1;
    dirty = true;
    completion = some (record {
      matches = codes "ab.yml" ∷ codes "ac.yml" ∷ [];
      idx = pos 1;
      applied = codes "ac.yml";
    });
  },
  refl,
  refl,
)

run_form-IsSafe_example : IsSafe (run_form ascii completes (shown add_form none))
run_form-IsSafe_example = run_form-IsSafe ascii completes (shown add_form none) add_form-IsInRange

abbrev asking : Form
asking = record add_form { name = codes "x"; dirty = true; confirm_discard = true }

-- Enter on the aggregator's field of a form with a name in it.
abandons :
    handle_source_form_key ascii
      (key (codes "enter"))
      (record asking { confirm_discard = false; cursor = 5 })
    ≡ replaced
unfolding handle_source_form_key current form_fields visible_fields
abandons = refl

run_form-is_gone_example : MayGo add_form asking (letter (codes "y"))
unfolding run_form form_step handle_source_form_key current form_fields visible_fields
run_form-is_gone_example =
    run_form-is_gone ascii add_form
      (presses (letter (codes "x")) ∷ presses (key (codes "esc")) ∷ []) asking none
      (letter (codes "y")) refl refl refl

longest_common_prefix-longest_example :
    All
      (IsPrefix (longest_common_prefix (λ s. true) (codes "abc" ∷ codes "abd" ∷ [])))
      (codes "abc" ∷ codes "abd" ∷ [])
    × (◌≡◌ {A = Bool} true true)
    × IsPrefix (codes "a") (longest_common_prefix (λ s. true) (codes "abc" ∷ codes "abd" ∷ []))
longest_common_prefix-longest_example =
    longest_common_prefix-longest (λ s. true) (codes "abc") (codes "abd" ∷ []) (codes "a") refl refl
      ((codes "bc", refl), ((codes "bd", refl), tt))
