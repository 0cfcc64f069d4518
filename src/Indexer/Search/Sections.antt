-- ===== src/Indexer/Search/Sections.antt =====
-- internal/indexer/registry.go: a fan-out's turns as the registry's critical sections.
use tortui.Indexer.Search.{
  World, Thread, Turn, advance, run_turns, turn, outside, Answer, missed, ready, thread_turn,
  claimed, answered, supports, done, new_cache_key, Task,
}
use tortui.Base.{
  List, Option, ℕ, ◌≡◌, ◌∷◌, [], some, ◌∙◌, ◌≤◌, Option-cases, ap, arith, get_elem?, none, inl,
  refl, sym, ap₂, inr, ℤ, ◌<◌,
}
use tortui.Indexer.{Query}
use tortui.Indexer.Registry.Trace.{
  run, run_claims, Claim, Op, Timely, claims, step, begins, claim_of, ends, reads_cache, reserves,
  stores, enables, registers, unregisters,
}
use tortui.Indexer.Registry.{Registry, new_registry}
use tortui.Indexer.Registry.Floor.{Spaced, claims-Spaced}

-- The critical section that a thread's next turn is, if it is one.
pub op_of : Query → ℕ → Thread → Option Op
op_of q now (ready sel) = elim sel.src [
  | none ↦ none
  | some h ↦ elim (supports h.ix.caps q.mode) [
    | some e ↦ none
    | none ↦ some (reads_cache (new_cache_key h.ix.id q) now)
  ]
]
op_of q now (missed h) = some (reserves h.ix.id h.addr now)
op_of q now (claimed h) = none
op_of q now (answered h results) = some (stores (new_cache_key h.ix.id q) h.addr results now)
op_of q now (done o) = none

abbrev pub after_op : Option Op → Registry → Registry
after_op none r = r
after_op (some op) r = step op r

advance-step :
    (q : Query) (now : ℕ) (answer : Answer) (r : Registry) (t : Thread)
    → (advance q now answer r t).0 ≡ after_op (op_of q now t) r
unfolding advance op_of step
advance-step q now answer r (ready sel) = ground arith
advance-step q now answer r (missed h) = refl
advance-step q now answer r (claimed h) = refl
advance-step q now answer r (answered h results) = refl
advance-step q now answer r (done o) = refl

-- A request may go out when a thread whose results were not cached has its slot. It is dated by
-- the slot, as lastFetch is; callSearch is the thread's next turn, and may send it later.
unfoldable pub sent : Thread → Thread → ℕ → List Claim → List Claim
sent (missed h) (claimed _) now log = record { id = h.ix.id; at = now } ∷ log
sent _ _ now log = log

abbrev pub claims_op : Option Op → Registry → List Claim → List Claim
claims_op none r log = log
claims_op (some op) r log = claims op r log

sent-claims_op :
    (q : Query) (now : ℕ) (answer : Answer) (r : Registry) (t : Thread) (log : List Claim)
    → sent t (advance q now answer r t).1 now log ≡ claims_op (op_of q now t) r log
unfolding advance op_of sent claims claim_of
sent-claims_op q now answer r (ready sel) log = ground arith
sent-claims_op q now answer r (missed h) log = ground arith
sent-claims_op q now answer r (claimed h) log = refl
sent-claims_op q now answer r (answered h results) log = refl
sent-claims_op q now answer r (done o) log = refl

-- The critical section of a turn.
pub turn_op : Turn → World → Option Op
turn_op (outside op) w = some op
turn_op (thread_turn i now answer) w = elim (get_elem? w.tasks i) [
  | none ↦ none
  | some t ↦ op_of t.query now t.thread
]

-- The requests so far, newest first: those of the threads, and the claims of other calls.
unfoldable pub requests : Turn → World → List Claim → List Claim
requests (outside op) w log = claims op w.registry log
requests (thread_turn i now answer) w log = elim (get_elem? w.tasks i) [
  | none ↦ log
  | some t ↦ sent t.thread (advance t.query now answer w.registry t.thread).1 now log
]

unfoldable pub run_requests : List Turn → World → List Claim → List Claim
run_requests [] w log = log
run_requests (t ∷ ts) w log = run_requests ts (turn t w) (requests t w log)

turn-after_op : (t : Turn) (w : World) → (turn t w).registry ≡ after_op (turn_op t w) w.registry
unfolding turn turn_op
turn-after_op (outside op) w = refl
turn-after_op (thread_turn i now answer) w = elim (Option-cases (get_elem? w.tasks i)) [
  | inl e ↦ rw (e, turn, turn_op)
  | inr (t, e) ↦ rw (e, turn, turn_op) (advance-step t.query now answer w.registry t.thread)
]

requests-claims_op :
    (t : Turn) (w : World) (log : List Claim)
    → requests t w log ≡ claims_op (turn_op t w) w.registry log
unfolding requests turn_op
requests-claims_op (outside op) w log = refl
requests-claims_op (thread_turn i now answer) w log = elim (Option-cases (get_elem? w.tasks i)) [
  | inl e ↦ rw (e, requests, turn_op)
  | inr (t, e) ↦
      rw (e, requests, turn_op) (sent-claims_op t.query now answer w.registry t.thread log)
]

abbrev prepend : Option Op → List Op → List Op
prepend none ops = ops
prepend (some op) ops = op ∷ ops

-- The critical sections of a schedule.
unfoldable pub sections : List Turn → World → List Op
sections [] w = []
sections (t ∷ ts) w = prepend (turn_op t w) (sections ts (turn t w))

prepend-run :
    (o : Option Op) (ops : List Op) (r : Registry) → run (prepend o ops) r ≡ run ops (after_op o r)
unfolding run
prepend-run none ops r = refl
prepend-run (some op) ops r = refl

prepend-run_claims :
    (o : Option Op) (ops : List Op) (r : Registry) (log : List Claim)
    → run_claims (prepend o ops) r log ≡ run_claims ops (after_op o r) (claims_op o r log)
unfolding run_claims
prepend-run_claims none ops r log = refl
prepend-run_claims (some op) ops r log = refl

-- However the goroutines of any number of fan-outs and other calls interleave, the registry goes
-- through a sequence of its critical sections, and the requests that go out are exactly the
-- slots claimed there.
pub run_turns-run :
    (ts : List Turn) (w : World) (log : List Claim)
    → ((run_turns ts w).registry ≡ run (sections ts w) w.registry)
      × (run_requests ts w log ≡ run_claims (sections ts w) w.registry log)
unfolding run_turns run_requests sections
run_turns-run [] w log = (unfold run in refl, unfold run_claims in refl)
run_turns-run (t ∷ ts) w log =
    let rest = run_turns-run ts (turn t w) (requests t w log) in
    let o = turn_op t w in
    let ops = sections ts (turn t w) in
    (
      rest.0 ∙ ap (run ops) (turn-after_op t w) ∙ sym (prepend-run o ops w.registry),
      rest.1
          ∙ ap₂ (run_claims ops) (turn-after_op t w) (requests-claims_op t w log)
          ∙ sym (prepend-run_claims o ops w.registry log),
    )

-- The clock does not go back along a schedule.
abbrev pub turn_begins : ℕ → Turn → ℕ
turn_begins c (outside op) = begins c op
turn_begins c (thread_turn i now answer) = now

abbrev pub turn_ends : ℕ → Turn → ℕ
turn_ends c (outside op) = ends c op
turn_ends c (thread_turn i now answer) = now

abbrev pub TimelyTurns : ℕ → List Turn → Type 0
TimelyTurns c [] = Unit
TimelyTurns c (t ∷ ts) =
    (c ≤ turn_begins c t) × (turn_begins c t ≤ turn_ends c t) × TimelyTurns (turn_ends c t) ts

Timely-mono : (c d : ℕ) (ops : List Op) → c ≤ d → Timely d ops → Timely c ops
Timely-mono c d [] le h = tt
Timely-mono c d (enables id enabled ∷ ops) le h =
    (omega arith, omega arith, Timely-mono c d ops le h.2)
Timely-mono c d (registers ix now ∷ ops) le h = (omega (arith, h.0), h.1, h.2)
Timely-mono c d (unregisters id prune_now now ∷ ops) le h = (omega (arith, h.0), h.1, h.2)
Timely-mono c d (reads_cache key now ∷ ops) le h = (omega (arith, h.0), h.1, h.2)
Timely-mono c d (reserves id addr now ∷ ops) le h = (omega (arith, h.0), h.1, h.2)
Timely-mono c d (stores key owner results now ∷ ops) le h = (omega (arith, h.0), h.1, h.2)

prepend-Timely :
    (c now : ℕ) (q : Query) (t : Thread) (ops : List Op)
    → c ≤ now
    → Timely now ops
    → Timely c (prepend (op_of q now t) ops)
unfolding op_of
prepend-Timely c now q (ready sel) ops le h = elim (Option-cases sel.src) [
  | inl e ↦ rw (e, op_of) (Timely-mono c now ops le h)
  | inr (x, e) ↦ elim (Option-cases (supports x.ix.caps q.mode)) [
    | inl e' ↦ rw (e, e', op_of) (le, omega arith, h)
    | inr (y, e') ↦ rw (e, e', op_of) (Timely-mono c now ops le h)
  ]
]
prepend-Timely c now q (missed x) ops le h = (le, omega arith, h)
prepend-Timely c now q (claimed x) ops le h = Timely-mono c now ops le h
prepend-Timely c now q (answered x results) ops le h = (le, omega arith, h)
prepend-Timely c now q (done o) ops le h = Timely-mono c now ops le h

sections-Timely : (c : ℕ) (ts : List Turn) (w : World) → TimelyTurns c ts → Timely c (sections ts w)
unfolding sections turn_op
sections-Timely c [] w h = tt
sections-Timely c (outside op ∷ ts) w h =
    (h.0, h.1, sections-Timely (ends c op) ts (turn (outside op) w) h.2)
sections-Timely c (thread_turn i now answer ∷ ts) w h =
    let rest = sections-Timely now ts (turn (thread_turn i now answer) w) h.2 in
    elim (Option-cases (get_elem? w.tasks i)) [
      | inl e ↦ rw (e, turn_op) (Timely-mono c now _ h.0 rest)
      | inr (t, e) ↦ rw (e, turn_op) (prepend-Timely c now t.query t.thread _ h.0 rest)
    ]

-- However any number of fan-outs interleave with each other and with registrations, removals and
-- the rest, while the clock does not go back and is past the zero time: of two requests to one
-- source id the later goes out at least the minimum refresh interval after the earlier one.
pub run_requests-Spaced :
    (timeout cache_ttl min_refresh_interval : ℤ) (c : ℕ) (tasks : List Task) (ts : List Turn)
    → 0 < c
    → TimelyTurns c ts
    → let r = new_registry timeout cache_ttl min_refresh_interval in
      Spaced r.cfg.min_refresh_interval
        (run_requests ts (record { registry = r; tasks = tasks }) [])
run_requests-Spaced timeout cache_ttl min_refresh_interval c tasks ts positive timely =
    let r = new_registry timeout cache_ttl min_refresh_interval in
    let w : World = record { registry = r; tasks = tasks } in
    rw ((run_turns-run ts w []).1) (
      claims-Spaced timeout cache_ttl min_refresh_interval c (sections ts w) positive
        (sections-Timely c ts w timely))
