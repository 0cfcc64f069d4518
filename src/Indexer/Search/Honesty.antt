-- ===== src/Indexer/Search/Honesty.antt =====
-- internal/indexer/registry.go: whom a fan-out asks, and what it hands on of the answers.
use tortui.Indexer.Search.{
  World, advance, category_eqb, filter_by_categories, Thread, Answer, ready, missed, supports,
  wanted, after_reserve, claimed, answered, done, replied, refused, panicked, Task, run_turns,
  spawn, turn, Turn, outside, timed_out, thread_turn,
}
use tortui.Indexer.{Category, Query, Result, other}
use tortui.Base.{
  List, ℕ, All, ◌≡◌, ◌∷◌, [], keep, true, ◌⊎◌, arith, ◌||◌, none, inl, inr, Bool, get_elem?,
  if◌then◌else◌, set, false, some, suc, refl, subst, zero, Option-cases,
}
use tortui.Indexer.Registry.{
  Registry, reserve_fetch, fetch_gone, fetch_throttled, fetch_claimed, Selection,
}

-- A result that a query for these categories may show; `other` is unclassified.
abbrev pub IsWanted : List Category → Result → Type 0
IsWanted [] res = Unit
IsWanted (w ∷ ws) res = (res.category ≡ other) ⊎ (wanted (w ∷ ws) res.category ≡ true)

category_eqb_other : (c : Category) → category_eqb c other ≡ true → c ≡ other
unfolding category_eqb
category_eqb_other c h = ground arith

keep-IsWanted :
    (w : Category) (ws : List Category) (results : List Result)
    → All
        (IsWanted (w ∷ ws))
        (keep (λ res. category_eqb res.category other || wanted (w ∷ ws) res.category) results)
keep-IsWanted w ws [] = tt
keep-IsWanted w ws (res ∷ rest) =
    ground (arith, keep-IsWanted w ws rest, category_eqb_other res.category)

All-IsWanted_nil : (results : List Result) → All (IsWanted []) results
All-IsWanted_nil [] = tt
All-IsWanted_nil (res ∷ rest) = (tt, All-IsWanted_nil rest)

filter_by_categories-IsWanted :
    (results : List Result) (cats : List Category)
    → All (IsWanted cats) (filter_by_categories results cats)
unfolding filter_by_categories
filter_by_categories-IsWanted results [] = All-IsWanted_nil results
filter_by_categories-IsWanted results (w ∷ ws) = keep-IsWanted w ws results

handed-IsWanted :
    (filters : Bool) (results : List Result) (cats : List Category)
    → (filters ≡ true)
      ⊎ All (IsWanted cats) (if filters then results else filter_by_categories results cats)
handed-IsWanted true results cats = inl refl
handed-IsWanted false results cats = inr (filter_by_categories-IsWanted results cats)

-- A source that a thread is about to ask, or has asked, can serve the query's mode, and the
-- answer of one that does not filter by category is filtered.
abbrev pub IsHonest : Query → Thread → Type 0
IsHonest q (ready sel) = Unit
IsHonest q (missed h) = supports h.ix.caps q.mode ≡ none
IsHonest q (claimed h) = supports h.ix.caps q.mode ≡ none
IsHonest q (answered h results) =
    (supports h.ix.caps q.mode ≡ none)
    × ((h.ix.caps.categories ≡ true) ⊎ All (IsWanted q.categories) results)
IsHonest q (done o) = Unit

advance-IsHonest :
    (q : Query) (now : ℕ) (answer : Answer) (r : Registry) (t : Thread)
    → IsHonest q t
    → IsHonest q (advance q now answer r t).1
unfolding advance
advance-IsHonest q now answer r (ready sel) h = ground arith
advance-IsHonest q now answer r (missed x) h =
    elim (reserve_fetch x.ix.id x.addr now r).1 as (λ s. IsHonest q (after_reserve x s)) [
      | fetch_gone ↦ tt
      | fetch_throttled ↦ tt
      | fetch_claimed ↦ h
    ]
advance-IsHonest q now (replied results) r (claimed x) h =
    (h, handed-IsWanted x.ix.caps.categories results q.categories)
advance-IsHonest q now (refused message) r (claimed x) h = tt
advance-IsHonest q now panicked r (claimed x) h = tt
advance-IsHonest q now timed_out r (claimed x) h = tt
advance-IsHonest q now answer r (answered x results) h = tt
advance-IsHonest q now answer r (done o) h = tt

-- What holds of every thread of a world.
abbrev pub AllHonest : List Task → Type 0
AllHonest = All (λ t. IsHonest t.query t.thread)

get_elem?-AllHonest :
    (ts : List Task) (i : ℕ) (t : Task)
    → AllHonest ts
    → get_elem? ts i ≡ some t
    → IsHonest t.query t.thread
get_elem?-AllHonest [] i t h e = cc
get_elem?-AllHonest (x ∷ ts) zero t h e =
    let same : x ≡ t = cc in subst (λ (y : Task). IsHonest y.query y.thread) same h.0
get_elem?-AllHonest (x ∷ ts) (suc i) t h e = get_elem?-AllHonest ts i t h.1 e

set-AllHonest :
    (ts : List Task) (i : ℕ) (t : Task)
    → AllHonest ts
    → IsHonest t.query t.thread
    → AllHonest (set ts i t)
set-AllHonest [] i t h k = tt
set-AllHonest (x ∷ ts) zero t h k = (k, h.1)
set-AllHonest (x ∷ ts) (suc i) t h k = (h.0, set-AllHonest ts i t h.1 k)

turn-AllHonest : (t : Turn) (w : World) → AllHonest w.tasks → AllHonest (turn t w).tasks
unfolding turn
turn-AllHonest (outside op) w h = h
turn-AllHonest (thread_turn i now answer) w h = elim (Option-cases (get_elem? w.tasks i)) [
  | inl e ↦ rw (e, turn) h
  | inr (t, e) ↦
      rw (e, turn)
        (set-AllHonest w.tasks i _ h (
          advance-IsHonest t.query now answer w.registry t.thread
            (get_elem?-AllHonest w.tasks i t h e)))
]

run_turns-AllHonest_from :
    (ts : List Turn) (w : World) → AllHonest w.tasks → AllHonest (run_turns ts w).tasks
unfolding run_turns
run_turns-AllHonest_from [] w h = h
run_turns-AllHonest_from (t ∷ ts) w h =
    run_turns-AllHonest_from ts (turn t w) (turn-AllHonest t w h)

spawn-AllHonest : (q : Query) (sels : List Selection) → AllHonest (spawn q sels)
unfolding spawn
spawn-AllHonest q [] = tt
spawn-AllHonest q (sel ∷ sels) = (tt, spawn-AllHonest q sels)

-- At every point of every schedule: a source is asked only if it declares the query's mode, and
-- an answer that is about to be cached holds only results of the wanted categories or of none,
-- unless its source filters by category itself.
pub run_turns-AllHonest :
    (q : Query) (sels : List Selection) (r : Registry) (ts : List Turn)
    → AllHonest (run_turns ts (record { registry = r; tasks = spawn q sels })).tasks
run_turns-AllHonest q sels r ts = run_turns-AllHonest_from ts _ (spawn-AllHonest q sels)
