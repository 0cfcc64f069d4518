-- ===== src/Indexer/Search.antt =====
-- internal/indexer/registry.go: SearchAll and searchOne. A goroutine of a fan-out is a thread that
-- goes through searchOne from one critical section to the next; a schedule says whose turn it is,
-- what the clock reads then, and what an adapter that is asked answers.
pub mod Honesty
pub mod Outcomes
pub mod Progress
pub mod Sections
use tortui.Indexer.Registry.{
  Registry, Handle, Selection, CacheKey, Error, FetchSlot, adapter_error, select_sources,
  unknown_indexer, cached_results, no_sources, source_panic, throttled, unsupported_mode,
  fetch_gone, no_answer, reserve_fetch, all_sources_failed, fetch_throttled, store_results,
  fetch_claimed,
}
use tortui.Base.{
  Bool, List, Text, Unicode, ℕ, Option, false, get_elem?, if◌then◌else◌, joined, none, true, ◌∷◌,
  [], codes, keep, some, suc, ◌||◌, ltb, set, stable_sort, ◌&&◌, text_lt, length,
}
use tortui.Indexer.{
  Caps, Category, Query, Mode, Result, other, audio, video, image, unnamed, search_mode, text,
  latest_mode, software, dataset,
}
use tortui.Indexer.Registry.Trace.{step, Op}
use tortui.Indexer.Categories.{token}
use tortui.Indexer.Merge.{Group, merge_results}

pub record SourceError : Type 0 where
  pub indexer_id : Text
  pub skipped : Bool
  pub err : Error

-- What one goroutine leaves in groups[i], fromCache[i] and errs[i].
pub data Outcome : Type 0 where
  found : Bool → List Result → Outcome
  failed : SourceError → Outcome

-- What callSearch meets: the adapter's answer, its error, its panic, or the deadline.
pub data Answer : Type 0 where
  replied : List Result → Answer
  refused : Text → Answer
  panicked : Answer
  timed_out : Answer

pub data Thread : Type 0 where
  -- before the cache is read
  ready : Selection → Thread
  -- not in the cache, before the slot is reserved
  missed : Handle → Thread
  -- the slot is reserved, before the adapter has answered
  claimed : Handle → Thread
  -- before the results are stored
  answered : Handle → List Result → Thread
  done : Outcome → Thread

unfoldable pub category_eqb : Category → Category → Bool
category_eqb other other = true
category_eqb audio audio = true
category_eqb video video = true
category_eqb image image = true
category_eqb text text = true
category_eqb software software = true
category_eqb dataset dataset = true
category_eqb _ _ = false

unfoldable pub wanted : List Category → Category → Bool
unfolding category_eqb
wanted [] c = false
wanted (w ∷ ws) c = category_eqb w c || wanted ws c

-- FilterByCategories
unfoldable pub filter_by_categories : List Result → List Category → List Result
unfolding wanted
filter_by_categories results [] = results
filter_by_categories results (w ∷ ws) =
    keep (λ res. category_eqb res.category other || wanted (w ∷ ws) res.category) results

-- `none` is a nil error.
unfoldable pub supports : Caps → Mode → Option Error
supports caps search_mode = if caps.search then none else some unsupported_mode
supports caps latest_mode = if caps.latest then none else some unsupported_mode
supports caps (unnamed m) = some unsupported_mode

distinct_tokens : List Category → List Category → List Text
unfolding wanted token
distinct_tokens seen [] = []
distinct_tokens seen (c ∷ cs) =
    let rest = distinct_tokens (if wanted seen c then seen else c ∷ seen) cs in
    if wanted seen c then rest else token c ∷ rest

unfoldable pub category_key : List Category → Text
unfolding distinct_tokens
category_key cats = joined (codes ",") (stable_sort text_lt (distinct_tokens [] cats))

unfoldable pub new_cache_key : Text → Query → CacheKey
new_cache_key id q = record {
  indexer_id = id;
  mode = q.mode;
  text = q.text;
  categories = category_key q.categories;
  min_seeders = q.min_seeders;
  limit = q.limit;
  offset = q.offset;
}

pub record Task : Type 0 where
  pub query : Query
  pub thread : Thread

fail : Text → Bool → Error → Thread
fail id skipped err = done (failed (record { indexer_id = id; skipped = skipped; err = err }))

after_cache : Handle → Option (List Result) → Thread
after_cache h (some results) = done (found true results)
after_cache h none = missed h

unfoldable pub after_reserve : Handle → FetchSlot → Thread
unfolding fail
after_reserve h fetch_gone = fail h.ix.id false unknown_indexer
after_reserve h fetch_throttled = fail h.ix.id true throttled
after_reserve h fetch_claimed = claimed h

-- callSearch, and what searchOne makes of its results before it stores them.
after_call : Query → Handle → Answer → Thread
unfolding fail
after_call q h (replied results) =
    answered h (if h.ix.caps.categories then results else filter_by_categories results q.categories)
after_call q h (refused message) = fail h.ix.id false (adapter_error message)
after_call q h panicked = fail h.ix.id false source_panic
after_call q h timed_out = fail h.ix.id false no_answer

-- One turn of a thread.
unfoldable pub advance : Query → ℕ → Answer → Registry → Thread → Registry × Thread
unfolding fail after_cache after_reserve after_call
advance q now answer r (ready sel) = elim sel.src [
  | none ↦ (r, fail sel.id false unknown_indexer)
  | some h ↦ elim (supports h.ix.caps q.mode) [
    | some e ↦ (r, fail h.ix.id true e)
    | none ↦
        let (r', hit) = cached_results (new_cache_key h.ix.id q) now r in (r', after_cache h hit)
  ]
]
advance q now answer r (missed h) =
    let (r', slot) = reserve_fetch h.ix.id h.addr now r in (r', after_reserve h slot)
advance q now answer r (claimed h) = (r, after_call q h answer)
advance q now answer r (answered h results) =
    (store_results (new_cache_key h.ix.id q) h.addr results now r, done (found false results))
advance q now answer r (done o) = (r, done o)

-- A turn of the i-th thread, or a call from elsewhere.
pub data Turn : Type 0 where
  thread_turn : ℕ → ℕ → Answer → Turn
  outside : Op → Turn

pub record World : Type 0 where
  pub registry : Registry
  pub tasks : List Task

advance_task : ℕ → Answer → Registry → Task → Registry × Task
advance_task now answer r t =
    let (r', thread) = advance t.query now answer r t.thread in (r', record t { thread = thread })

unfoldable pub turn : Turn → World → World
unfolding advance_task
turn (outside op) w = record w { registry = step op w.registry }
turn (thread_turn i now answer) w = elim (get_elem? w.tasks i) [
  | none ↦ w
  | some t ↦
      let (r, t') = advance_task now answer w.registry t in
      record { registry = r; tasks = set w.tasks i t' }
]

unfoldable pub run_turns : List Turn → World → World
run_turns [] w = w
run_turns (t ∷ ts) w = run_turns ts (turn t w)

-- The goroutines of one SearchAll.
unfoldable pub spawn : Query → List Selection → List Task
spawn q [] = []
spawn q (sel ∷ sels) = record { query = q; thread = ready sel } ∷ spawn q sels

-- What SearchAll returns.
pub record Answers : Type 0 where
  pub results : List Result
  pub source_errs : List SourceError
  pub err : Option Error

pub record Collected : Type 0 where
  pub errs : List SourceError
  pub groups : List Group
  pub failures : ℕ

-- The loop behind wg.Wait.
unfoldable pub collect : List (Text × Outcome) → Collected
collect [] = record { errs = []; groups = []; failures = 0 }
collect ((id, found cached results) ∷ rest) =
    let c = collect rest in
    record c { groups = record { id = id; cached = cached; results = results } ∷ c.groups }
collect ((id, failed e) ∷ rest) =
    let c = collect rest in
    record c { errs = e ∷ c.errs; failures = if e.skipped then c.failures else suc c.failures }

pub is_empty {ℓ} : {A : Type ℓ} → List A → Bool
is_empty [] = true
is_empty (x ∷ xs) = false

-- SearchAll behind wg.Wait.
unfoldable pub finish : Unicode → Mode → List (Text × Outcome) → Answers
unfolding is_empty
finish u mode outcomes =
    let c = collect outcomes in
    record {
      results = merge_results u mode c.groups;
      source_errs = c.errs;
      err =
          if ltb 0 c.failures && is_empty c.groups
          then some (all_sources_failed c.failures (length outcomes))
          else none;
    }

-- The outcomes, once every goroutine has ended.
unfoldable pub outcomes : List Selection → List Task → Option (List (Text × Outcome))
outcomes (sel ∷ sels) (t ∷ ts) =
    let rest = outcomes sels ts in
    elim t.thread [
      | done o ↦ elim rest [ none ↦ none | some os ↦ some ((sel.id, o) ∷ os) ]
      | _ ↦ none
    ]
outcomes _ _ = some []

-- SearchAll under a schedule: `none` when a goroutine has not ended at the schedule's end, or on
-- a panic of selectSources.
unfoldable pub search_all :
    Unicode → Query → List Text → List Turn → Registry → Option (Answers × Registry)
search_all u q ids turns r = elim (select_sources ids r) [
  | none ↦ none
  | some [] ↦ some (record { results = []; source_errs = []; err = some no_sources }, r)
  | some (sel ∷ sels) ↦
      let w = run_turns turns (record { registry = r; tasks = spawn q (sel ∷ sels) }) in
      elim (outcomes (sel ∷ sels) w.tasks) [
        | none ↦ none
        | some os ↦ some (finish u q.mode os, w.registry)
      ]
]
