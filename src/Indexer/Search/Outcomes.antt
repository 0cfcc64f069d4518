-- ===== src/Indexer/Search/Outcomes.antt =====
-- internal/indexer/registry.go: what SearchAll makes of its goroutines' outcomes.
use mathlib.Core.List.{filter_map}
use mathlib.Core.Option.{Option-elim}
use tortui.Indexer.Search.{
  Outcome, collect, finish, SourceError, found, failed, Answers, Turn, is_empty, outcomes,
  run_turns, search_all, spawn,
}
use tortui.Base.{
  List, Text, Unicode, length, ℕ, ◌≡◌, [], arith, ◌∷◌, ap, refl, some, none, ◌<◌, All, Any, Bool,
  Option, keep, ◌≢◌, false, inl, true, ◌≤◌, ◌⊎◌, false≢true, inr, map, not, Bool-cases, sym,
  stable_sort,
}
use tortui.Indexer.Merge.{Group, merge_results, merge_groups}
use tortui.Indexer.{Mode, Query}
use tortui.Indexer.Registry.{
  all_sources_failed, no_sources, Error, Selection, Registry, select_sources,
}
use tortui.Indexer.Search.Progress.{turns_of, fan_out-total}

abbrev pub is_found : Text × Outcome → Bool
is_found (id, found cached results) = true
is_found (id, failed e) = false

-- A failure that is not a skip.
abbrev pub is_failure : Text × Outcome → Bool
is_failure (id, found cached results) = false
is_failure (id, failed e) = not e.skipped

abbrev pub error_of : Text × Outcome → Option SourceError
error_of (id, found cached results) = none
error_of (id, failed e) = some e

abbrev pub group_of : Text × Outcome → Option Group
group_of (id, found cached results) = some (record { id = id; cached = cached; results = results })
group_of (id, failed e) = none

-- The error that SearchAll returns: nothing was selected; or a source answered; or none did and one
-- failed; or all were skipped.
abbrev pub Ends : List (Text × Outcome) → Option Error → Type 0
Ends os err =
    ((os ≡ []) × (err ≡ some no_sources))
    ⊎ (Any (λ o. is_found o ≡ true) os × (err ≡ none))
    ⊎ (All (λ o. is_found o ≡ false) os
        × Any (λ o. is_failure o ≡ true) os
        × (err ≡ some (all_sources_failed (length (keep is_failure os)) (length os))))
    ⊎ ((length os ≢ 0)
        × All (λ o. is_found o ≡ false) os
        × All (λ o. is_failure o ≡ false) os
        × (err ≡ none))

collect_lem :
    (os : List (Text × Outcome))
    → collect os ≡ record {
      errs = filter_map error_of os;
      groups = filter_map group_of os;
      failures = length (keep is_failure os);
    }
unfolding collect filter_map Option-elim
collect_lem [] = refl
collect_lem ((id, found cached results) ∷ os) = ground (arith, collect_lem os)
collect_lem ((id, failed e) ∷ os) = ground (arith, collect_lem os)

one_or_none :
    (p : Text × Outcome → Bool) (os : List (Text × Outcome))
    → Any (λ o. p o ≡ true) os ⊎ All (λ o. p o ≡ false) os
one_or_none p [] = inr tt
one_or_none p (o ∷ os) = elim (Bool-cases (p o)) [
  | inl here ↦ inl (inl here)
  | inr q ↦ elim (one_or_none p os) [ inl later ↦ inl (inr later) | inr rest ↦ inr (q, rest) ]
]

is_empty-groups :
    (os : List (Text × Outcome))
    → Any (λ o. is_found o ≡ true) os
    → is_empty (filter_map group_of os) ≡ false
unfolding filter_map Option-elim is_empty
is_empty-groups [] any = absurd any
is_empty-groups ((id, found cached results) ∷ os) any = refl
is_empty-groups ((id, failed e) ∷ os) (inl q) = absurd (false≢true q)
is_empty-groups ((id, failed e) ∷ os) (inr any) = is_empty-groups os any

groups-none_found :
    (os : List (Text × Outcome)) → All (λ o. is_found o ≡ false) os → filter_map group_of os ≡ []
unfolding filter_map Option-elim
groups-none_found [] all = refl
groups-none_found ((id, found cached results) ∷ os) all = absurd (false≢true (sym all.0))
groups-none_found ((id, failed e) ∷ os) all = groups-none_found os all.1

keep-Any :
    (p : Text × Outcome → Bool) (os : List (Text × Outcome))
    → Any (λ o. p o ≡ true) os
    → 0 < length (keep p os)
keep-Any p [] any = absurd any
keep-Any p (o ∷ os) (inl q) = rw q (omega arith)
keep-Any p (o ∷ os) (inr any) = let rest = keep-Any p os any in ground arith

keep-none :
    (p : Text × Outcome → Bool) (os : List (Text × Outcome))
    → All (λ o. p o ≡ false) os
    → length (keep p os) ≡ 0
keep-none p [] all = refl
keep-none p (o ∷ os) all = let rest = keep-none p os all.1 in ground arith

finish-Ends :
    (u : Unicode) (mode : Mode) (os : List (Text × Outcome))
    → length os ≢ 0
    → Ends os (finish u mode os).err
unfolding finish is_empty
finish-Ends u mode os some_there = elim (one_or_none is_found os) [
  | inl any ↦ inr (inl (any, rw (collect_lem os, is_empty-groups os any) (ground arith)))
  | inr unanswered ↦ elim (one_or_none is_failure os) [
    | inl any ↦
        let more = keep-Any is_failure os any in
        inr (
          inr (
            inl (
              unanswered,
              any,
              rw (collect_lem os, groups-none_found os unanswered) (ground arith),
            )))
    | inr skipped ↦ inr (
        inr (
          inr (
            some_there,
            unanswered,
            skipped,
            rw (collect_lem os, keep-none is_failure os skipped) refl,
          )))
  ]
]

-- An outcome for each of one selection and more.
some_named :
    (x : Text) (xs : List Text) (os : List (Text × Outcome))
    → map (λ o. o.0) os ≡ x ∷ xs
    → length os ≢ 0
some_named x xs [] h = λ _. ground (arith, h)
some_named x xs (o ∷ os) h = λ e. omega (arith, e)

abbrev nothing_selected : Answers
nothing_selected = record { results = []; source_errs = []; err = some no_sources }

merge_results-nil : (u : Unicode) (mode : Mode) → [] ≡ merge_results u mode []
unfolding merge_results merge_groups stable_sort
merge_results-nil u mode = refl

finish-source_errs :
    (u : Unicode) (mode : Mode) (os : List (Text × Outcome))
    → (finish u mode os).source_errs ≡ filter_map error_of os
unfolding finish
finish-source_errs u mode os = ap (λ c. c.errs) (collect_lem os)

finish-results :
    (u : Unicode) (mode : Mode) (os : List (Text × Outcome))
    → (finish u mode os).results ≡ merge_results u mode (filter_map group_of os)
unfolding finish
finish-results u mode os = ap (λ c. merge_results u mode c.groups) (collect_lem os)

-- SearchAll, where selectSources does not panic, returns after any schedule that gives each selected
-- source's goroutine four turns, with one outcome for each selected source, in selection order. It returns ErrNoSources when none is
-- selected, ErrAllSourcesFailed with the number of failures when no source answered and one failed,
-- a skip being no failure, and otherwise no error. It reports the error of each source that did not
-- answer, once and in that order, and merges the answers of the others, in that order too.
pub search_all-Ends :
    (u : Unicode) (q : Query) (ids : List Text) (ts : List Turn) (r : Registry)
    (sels : List Selection)
    → select_sources ids r ≡ some sels
    → ((i : ℕ) → i < length sels → 4 ≤ turns_of i ts)
    → let w = run_turns ts (record { registry = r; tasks = spawn q sels }) in
      (os : List (Text × Outcome)) × (a : Answers) × (r' : Registry) × (search_all u q ids ts r
        ≡ some (a, r'))
      × (outcomes sels w.tasks ≡ some os)
      × (map (λ o. o.0) os ≡ map (λ s. s.id) sels)
      × Ends os a.err
      × (a.source_errs ≡ filter_map error_of os)
      × (a.results ≡ merge_results u q.mode (filter_map group_of os))
unfolding search_all outcomes filter_map
search_all-Ends u q ids ts r [] chosen turns = (
  [],
  nothing_selected,
  r,
  rw (search_all, chosen) refl,
  refl,
  refl,
  inl (refl, refl),
  refl,
  merge_results-nil u q.mode,
)
search_all-Ends u q ids ts r (sel ∷ sels) chosen turns =
    let w = run_turns ts (record { registry = r; tasks = spawn q (sel ∷ sels) }) in
    let (os, ended, named) = fan_out-total q (sel ∷ sels) r ts turns in
    (
      os,
      finish u q.mode os,
      w.registry,
      rw (search_all, chosen, ended) refl,
      ended,
      named,
      finish-Ends u q.mode os (some_named sel.id (map (λ s. s.id) sels) os named),
      finish-source_errs u q.mode os,
      finish-results u q.mode os,
    )
