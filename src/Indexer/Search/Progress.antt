-- ===== src/Indexer/Search/Progress.antt =====
-- internal/indexer/registry.go: how many turns SearchAll's goroutines need.
use tortui.Indexer.Search.{
  World, Thread, advance, outcomes, run_turns, spawn, turn, Answer, Task, Turn, ready, missed,
  thread_turn, claimed, outside, answered, Outcome, done,
}
use tortui.Base.{
  Bool, List, ℕ, if◌then◌else◌, get_elem?, length, ◌≤◌, ◌∷◌, ◌-◌, ◌<◌, arith, suc, ◌≡◌,
  Option-cases, Text, [], ap, nat_eqb, none, some, ◌∙◌, ◌+◌, inl, refl, set, zero, inr, map,
  length-set,
}
use tortui.Indexer.{Query}
use tortui.Indexer.Registry.{Selection, Registry}
use tortui.Indexer.Registry.Trace.{Op}

-- The turns that a goroutine still needs.
abbrev left : Thread → ℕ
left (ready sel) = 4
left (missed h) = 3
left (claimed h) = 2
left (answered h results) = 1
left (done o) = 0

abbrev left_at : List Task → ℕ → ℕ
left_at [] i = 0
left_at (t ∷ ts) zero = left t.thread
left_at (t ∷ ts) (suc i) = left_at ts i

advance-left :
    (q : Query) (now : ℕ) (answer : Answer) (r : Registry) (t : Thread)
    → left (advance q now answer r t).1 ≤ left t - 1
unfolding advance
advance-left q now answer r (ready sel) = ground arith
advance-left q now answer r (missed h) = ground arith
advance-left q now answer r (claimed h) = ground arith
advance-left q now answer r (answered h results) = omega arith
advance-left q now answer r (done o) = omega arith

abbrev one_if : Bool → ℕ
one_if b = if b then 1 else 0

left_at-set :
    (ts : List Task) (i j : ℕ) (t t' : Task)
    → get_elem? ts i ≡ some t
    → left t'.thread ≤ left t.thread - 1
    → left_at (set ts i t') j ≤ left_at ts j - one_if (nat_eqb i j)
left_at-set [] i j t t' e h = cc
left_at-set (x ∷ ts) zero zero t t' e h = ground arith
left_at-set (x ∷ ts) zero (suc j) t t' e h = ground arith
left_at-set (x ∷ ts) (suc i) zero t t' e h = ground arith
left_at-set (x ∷ ts) (suc i) (suc j) t t' e h = ground (arith, left_at-set ts i j t t' e h)

left_at-missing :
    (ts : List Task) (i j : ℕ)
    → get_elem? ts i ≡ none
    → left_at ts j ≤ left_at ts j - one_if (nat_eqb i j)
left_at-missing [] i j e = omega arith
left_at-missing (x ∷ ts) zero j e = cc
left_at-missing (x ∷ ts) (suc i) zero e = ground arith
left_at-missing (x ∷ ts) (suc i) (suc j) e = ground (arith, left_at-missing ts i j e)

-- How often the i-th goroutine has its turn.
abbrev pub turns_of : ℕ → List Turn → ℕ
turns_of i [] = 0
turns_of i (outside op ∷ ts) = turns_of i ts
turns_of i (thread_turn j now answer ∷ ts) = one_if (nat_eqb j i) + turns_of i ts

turn-left :
    (j : ℕ) (now : ℕ) (answer : Answer) (w : World) (i : ℕ)
    → left_at (turn (thread_turn j now answer) w).tasks i ≤ left_at w.tasks i - one_if (nat_eqb j i)
unfolding turn
turn-left j now answer w i = elim (Option-cases (get_elem? w.tasks j)) [
  | inl e ↦ rw (e, turn) (left_at-missing w.tasks j i e)
  | inr (t, e) ↦
      rw (e, turn)
        (left_at-set w.tasks j i t _ e (advance-left t.query now answer w.registry t.thread))
]

turn-left_outside :
    (op : Op) (w : World) (i : ℕ) → left_at (turn (outside op) w).tasks i ≡ left_at w.tasks i
unfolding turn
turn-left_outside op w i = refl

run_turns-left :
    (ts : List Turn) (w : World) (i : ℕ)
    → left_at (run_turns ts w).tasks i ≤ left_at w.tasks i - turns_of i ts
unfolding run_turns
run_turns-left [] w i = omega arith
run_turns-left (outside op ∷ ts) w i =
    omega (arith, turn-left_outside op w i, run_turns-left ts (turn (outside op) w) i)
run_turns-left (thread_turn j now answer ∷ ts) w i =
    omega
      (arith, turn-left j now answer w i, run_turns-left ts (turn (thread_turn j now answer) w) i)

length-turn : (t : Turn) (w : World) → length (turn t w).tasks ≡ length w.tasks
unfolding turn
length-turn (outside op) w = refl
length-turn (thread_turn i now answer) w = elim (Option-cases (get_elem? w.tasks i)) [
  | inl e ↦ rw (e, turn)
  | inr (t, e) ↦ rw (e, turn) (length-set w.tasks i _)
]

length-run_turns : (ts : List Turn) (w : World) → length (run_turns ts w).tasks ≡ length w.tasks
unfolding run_turns
length-run_turns [] w = refl
length-run_turns (t ∷ ts) w = length-run_turns ts (turn t w) ∙ length-turn t w

outcomes-total :
    (sels : List Selection) (ts : List Task)
    → length ts ≡ length sels
    → ((i : ℕ) → i < length ts → left_at ts i ≡ 0)
    → (os : List (Text × Outcome)) × (outcomes sels ts ≡ some os)
      × (map (λ p. p.0) os ≡ map (λ s. s.id) sels)
unfolding outcomes
outcomes-total [] [] e h = ([], refl, refl)
outcomes-total [] (t ∷ ts) e h = absurd (omega arith)
outcomes-total (sel ∷ sels) [] e h = absurd (omega arith)
outcomes-total (sel ∷ sels) (t ∷ ts) e h =
    let (os, e', m) = outcomes-total sels ts (omega arith) (λ i le. h (suc i) (omega arith)) in
    go (t.thread) refl os e' m
  where
    go :
        (x : Thread)
        → t.thread ≡ x
        → (os : List (Text × Outcome)) → outcomes sels ts ≡ some os
        → map (λ p. p.0) os ≡ map (λ s. s.id) sels
        → (os : List (Text × Outcome)) × (outcomes (sel ∷ sels) (t ∷ ts) ≡ some os)
          × (map (λ p. p.0) os ≡ map (λ s. s.id) (sel ∷ sels))
    go (done o) q os e' m = ((sel.id, o) ∷ os, ground arith, ap (λ (xs : List Text). sel.id ∷ xs) m)
    go (ready s) q os e' m = absurd (ground (arith, h 0))
    go (missed s) q os e' m = absurd (ground (arith, h 0))
    go (claimed s) q os e' m = absurd (ground (arith, h 0))
    go (answered s rs) q os e' m = absurd (ground (arith, h 0))

spawn-left : (q : Query) (sels : List Selection) (i : ℕ) → left_at (spawn q sels) i ≤ 4
unfolding spawn
spawn-left q [] i = omega arith
spawn-left q (sel ∷ sels) zero = omega arith
spawn-left q (sel ∷ sels) (suc i) = spawn-left q sels i

length-spawn : (q : Query) (sels : List Selection) → length (spawn q sels) ≡ length sels
unfolding spawn
length-spawn q [] = refl
length-spawn q (sel ∷ sels) = ap suc (length-spawn q sels)

-- Four turns are enough for each goroutine: after any schedule that gives each of them four, in
-- any order and among any other calls, every selected source has exactly one outcome, in
-- selection order.
pub fan_out-total :
    (q : Query) (sels : List Selection) (r : Registry) (ts : List Turn)
    → ((i : ℕ) → i < length sels → 4 ≤ turns_of i ts)
    → (os : List (Text × Outcome)) × (outcomes sels
          (run_turns ts (record { registry = r; tasks = spawn q sels })).tasks
        ≡ some os)
      × (map (λ p. p.0) os ≡ map (λ s. s.id) sels)
fan_out-total q sels r ts h =
    let w : World = record { registry = r; tasks = spawn q sels } in
    let same = length-run_turns ts w ∙ length-spawn q sels in
    outcomes-total sels (run_turns ts w).tasks same
      (λ i le. omega (arith, run_turns-left ts w i, spawn-left q sels i, h i (omega (arith, same))))
