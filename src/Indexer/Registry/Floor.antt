-- ===== src/Indexer/Registry/Floor.antt =====
-- internal/indexer/registry.go: the floor between two requests to one source.
use tortui.Base.{
  ℕ, ℤ, subst, sym, ◌+◌, ◌≤◌, ◌<◌, Text, text_eqb_iff, ◌≡◌, refl, ◌⊎◌, inl, inr, Option, none, ap,
  some, List, [], ◌∷◌, All, arith, text_eq,
}
use tortui.Indexer.{Indexer}
use tortui.Indexer.Registry.{
  Registry, Source, register, unregister, set_enabled, cached_results, store_results, reserve_fetch,
  fetch_claimed, Config, new_registry,
}
use tortui.Indexer.Registry.Trace.{
  Op, registers, unregisters, enables, reads_cache, reserves, stores, step, Claim, claims,
  run_claims, begins, ends, Timely, FetchSlot-cases,
}

-- A request at `t` to a source still bars the next one, or is a whole interval in the past.
abbrev Barred : ℕ → ℕ → ℕ → Option Source → Option ℕ → Type 0
Barred interval c t (some s) retired = (t ≤ s.last_fetch) ⊎ (t + interval ≤ c)
Barred interval c t none (some last) = (t ≤ last) ⊎ (t + interval ≤ c)
Barred interval c t none none = t + interval ≤ c

abbrev Bars : ℕ → Registry → Claim → Type 0
Bars c r k =
    (0 < k.at) × Barred r.cfg.min_refresh_interval c k.at (r.sources k.id) (r.retired_fetch k.id)

register-Bars :
    (ix : Option Indexer) (now : ℕ) (c : ℕ) (r : Registry) (k : Claim)
    → c ≤ now
    → Bars c r k
    → Bars now (register ix now r).0 k
unfolding register
register-Bars none now c r k le h = ground arith
register-Bars (some ix) now c r k le h = ground (arith, text_eqb_iff ix.id k.id)

unregister-Bars :
    (id : Text) (prune_now now c : ℕ) (r : Registry) (k : Claim)
    → c ≤ prune_now
    → prune_now ≤ now
    → Bars c r k
    → Bars now (unregister id prune_now now r).0 k
unfolding unregister
unregister-Bars id prune_now now c r k le le' h = ground (arith, text_eqb_iff id k.id)

reserve-Bars :
    (id : Text) (addr now c : ℕ) (r : Registry) (k : Claim)
    → c ≤ now
    → Bars c r k
    → Bars now (reserve_fetch id addr now r).0 k
unfolding reserve_fetch
reserve-Bars id addr now c r k le h = ground (arith, text_eqb_iff id k.id)

step-Bars :
    (op : Op) (c : ℕ) (r : Registry) (k : Claim)
    → c ≤ begins c op
    → begins c op ≤ ends c op
    → Bars c r k
    → Bars (ends c op) (step op r) k
unfolding step set_enabled cached_results store_results
step-Bars (registers ix now) c r k le le' h = register-Bars ix now c r k le h
step-Bars (unregisters id prune_now now) c r k le le' h =
    unregister-Bars id prune_now now c r k le le' h
step-Bars (enables id enabled) c r k le le' h = ground (arith, text_eqb_iff id k.id)
step-Bars (reads_cache key now) c r k le le' h = ground arith
step-Bars (reserves id addr now) c r k le le' h = reserve-Bars id addr now c r k le h
step-Bars (stores key owner results now) c r k le le' h = ground arith

step-All-Bars :
    (op : Op) (c : ℕ) (r : Registry) (log : List Claim)
    → c ≤ begins c op
    → begins c op ≤ ends c op
    → All (Bars c r) log
    → All (Bars (ends c op) (step op r)) log
step-All-Bars op c r [] le le' h = tt
step-All-Bars op c r (k ∷ log) le le' h =
    (step-Bars op c r k le le' h.0, step-All-Bars op c r log le le' h.1)

-- A claim that is made is an interval after each earlier one of its source.
abbrev After : ℕ → Claim → Claim → Type 0
After interval k j = j.id ≡ k.id → j.at + interval ≤ k.at

reserve-After :
    (id : Text) (addr now c : ℕ) (r : Registry) (j : Claim)
    → c ≤ now
    → Bars c r j
    → (reserve_fetch id addr now r).1 ≡ fetch_claimed
    → j.id ≡ id
    → j.at + r.cfg.min_refresh_interval ≤ now
unfolding reserve_fetch
reserve-After id addr now c r j le h claimed e = ground (arith, ap r.sources e)

reserve-All-After :
    (id : Text) (addr now c : ℕ) (r : Registry) (log : List Claim)
    → c ≤ now
    → (reserve_fetch id addr now r).1 ≡ fetch_claimed
    → All (Bars c r) log
    → All (After r.cfg.min_refresh_interval (record { id = id; at = now })) log
reserve-All-After id addr now c r [] le claimed h = tt
reserve-All-After id addr now c r (j ∷ log) le claimed h = (
  reserve-After id addr now c r j le h.0 claimed,
  reserve-All-After id addr now c r log le claimed h.1,
)

-- The new claim bars in turn.
reserve-Bars_self :
    (id : Text) (addr now : ℕ) (r : Registry)
    → 0 < now
    → (reserve_fetch id addr now r).1 ≡ fetch_claimed
    → Bars now (reserve_fetch id addr now r).0 (record { id = id; at = now })
unfolding reserve_fetch
reserve-Bars_self id addr now r le claimed = ground (arith, text_eqb_iff id id)

-- No two claims of one source are closer than the interval.
abbrev pub Spaced : ℕ → List Claim → Type 0
Spaced interval [] = Unit
Spaced interval (k ∷ log) = All (After interval k) log × Spaced interval log

cfg-step : (op : Op) (r : Registry) → (step op r).cfg ≡ r.cfg
unfolding step register unregister set_enabled cached_results store_results reserve_fetch
cfg-step (registers ix now) r = elim ix as (λ i. (register i now r).0.cfg ≡ r.cfg) [
  | none ↦ refl
  | some x ↦ ground arith
]
cfg-step (unregisters id prune_now now) r = ground arith
cfg-step (enables id enabled) r = ground arith
cfg-step (reads_cache key now) r = ground arith
cfg-step (reserves id addr now) r = ground arith
cfg-step (stores key owner results now) r = ground arith

-- The invariant of a trace: every earlier claim bars, and they are spaced.
record Holds (c : ℕ) (r : Registry) (log : List Claim) : Type 0 where
  bars : All (Bars c r) log
  spaced : Spaced r.cfg.min_refresh_interval log

reserve-Holds :
    (id : Text) (addr now c : ℕ) (r : Registry) (log : List Claim)
    → 0 < c
    → c ≤ now
    → Holds c r log
    → Holds now (step (reserves id addr now) r) (claims (reserves id addr now) r log)
unfolding claims
reserve-Holds id addr now c r log positive le h =
    let op = reserves id addr now in
    let older = step-All-Bars op c r log le (omega arith) h.bars in
    let spaced =
      subst (λ (cfg : Config). Spaced cfg.min_refresh_interval log) (sym (cfg-step op r))
        h.spaced in
    elim (FetchSlot-cases (reserve_fetch id addr now r).1) [
      | inl claimed ↦ rw claimed (record {
        bars = (unfold step in reserve-Bars_self id addr now r (omega arith) claimed, older);
        spaced = (
          subst
              (λ (cfg : Config).
                All (After cfg.min_refresh_interval (record { id = id; at = now })) log)
              (sym (cfg-step op r)) (reserve-All-After id addr now c r log le claimed h.bars),
          spaced,
        );
      })
      | inr refused ↦ rw (refused log id now) (record { bars = older; spaced = spaced })
    ]

keeps-Holds :
    (op : Op) (c : ℕ) (r : Registry) {log : List Claim}
    → c ≤ begins c op
    → begins c op ≤ ends c op
    → Holds c r log
    → Holds (ends c op) (step op r) log
keeps-Holds op c r {log} le le' h = record {
  bars = step-All-Bars op c r log le le' h.bars;
  spaced =
      subst (λ (cfg : Config). Spaced cfg.min_refresh_interval log) (sym (cfg-step op r)) h.spaced;
}

step-Holds :
    (op : Op) (c : ℕ) (r : Registry) (log : List Claim)
    → 0 < c
    → c ≤ begins c op
    → begins c op ≤ ends c op
    → Holds c r log
    → Holds (ends c op) (step op r) (claims op r log)
unfolding step claims
step-Holds (reserves id addr now) c r log positive le le' h =
    reserve-Holds id addr now c r log positive le h
step-Holds (registers ix now) c r log positive le le' h =
    keeps-Holds (registers ix now) c r le le' h
step-Holds (unregisters id prune_now now) c r log positive le le' h =
    keeps-Holds (unregisters id prune_now now) c r le le' h
step-Holds (enables id enabled) c r log positive le le' h =
    keeps-Holds (enables id enabled) c r le le' h
step-Holds (reads_cache key now) c r log positive le le' h =
    keeps-Holds (reads_cache key now) c r le le' h
step-Holds (stores key owner results now) c r log positive le le' h =
    keeps-Holds (stores key owner results now) c r le le' h

run-Spaced :
    (ops : List Op) (c : ℕ) (r : Registry) (log : List Claim)
    → 0 < c
    → Timely c ops
    → Holds c r log
    → Spaced r.cfg.min_refresh_interval (run_claims ops r log)
unfolding run_claims
run-Spaced [] c r log positive timely h = h.spaced
run-Spaced (op ∷ ops) c r log positive timely h =
    subst
      (λ (cfg : Config).
        Spaced cfg.min_refresh_interval (run_claims ops (step op r) (claims op r log)))
      (cfg-step op r)
      (run-Spaced ops (ends c op) (step op r) (claims op r log) (omega (arith, timely.0, timely.1))
        timely.2 (step-Holds op c r log positive timely.0 timely.1 h))

-- Whatever calls a registry serves, in any order and by any number of goroutines, while its clock
-- does not go back and is past the zero time: of two claims of one source id the later is at
-- least the minimum refresh interval after the earlier one. Unregistering the source and
-- registering it again does not shorten the interval.
pub claims-Spaced :
    (timeout cache_ttl min_refresh_interval : ℤ) (c : ℕ) (ops : List Op)
    → 0 < c
    → Timely c ops
    → let r = new_registry timeout cache_ttl min_refresh_interval in
      Spaced r.cfg.min_refresh_interval (run_claims ops r [])
claims-Spaced timeout cache_ttl min_refresh_interval c ops positive timely =
    run-Spaced ops c (new_registry timeout cache_ttl min_refresh_interval) [] positive timely
      (record { bars = tt; spaced = tt })
