-- ===== src/Indexer/Registry/Freshness.antt =====
-- internal/indexer/registry.go: what the cache gives back.
use tortui.Indexer.Registry.{
  Registry, CacheKey, CacheEntry, register, new_registry, unregister, cached_results, set_enabled,
  store_results, reserve_fetch, key_eqb_iff,
}
use tortui.Base.{List, ℤ, ℕ, ◌∷◌, [], ◌≡◌, some, ◌<◌, Any, ◌+◌, arith, subst, none}
use tortui.Indexer.Registry.Trace.{
  Op, run, step, stores, registers, unregisters, enables, reads_cache, reserves,
}
use tortui.Indexer.{Result}

-- A source's answer as it was stored.
pub record Stored : Type 0 where
  pub key : CacheKey
  pub results : List Result
  pub at : ℕ

-- Every answer that was ever handed to storeResults, newest first.
abbrev pub stores_of : Op → List Stored → List Stored
stores_of (stores key owner results now) log =
    record { key = key; results = results; at = now } ∷ log
stores_of _ log = log

unfoldable pub run_stores : List Op → List Stored → List Stored
run_stores [] log = log
run_stores (op ∷ ops) log = run_stores ops (stores_of op log)

abbrev pub IsStored : CacheKey → List Result → ℕ → Stored → Type 0
IsStored key results at s = (s.key ≡ key) × (s.results ≡ results) × (s.at ≡ at)

abbrev Backed : Registry → List Stored → Type 0
Backed r log =
    (key : CacheKey) (e : CacheEntry)
    → r.cache key ≡ some e
    → Any (IsStored key e.results e.fetched) log

step-Backed :
    (op : Op) (r : Registry) (log : List Stored)
    → Backed r log
    → Backed (step op r) (stores_of op log)
unfolding step register unregister set_enabled cached_results store_results reserve_fetch
step-Backed (registers none now) r log b key e h = b key e h
step-Backed (registers (some ix) now) r log b key e h = b key e (ground arith)
step-Backed (unregisters id prune_now now) r log b key e h = b key e (ground arith)
step-Backed (enables id enabled) r log b key e h = b key e (ground arith)
step-Backed (reads_cache k now) r log b key e h = b key e (ground arith)
step-Backed (reserves id addr now) r log b key e h = b key e (ground arith)
step-Backed (stores k owner results now) r log b key e h =
    ground (arith, b key e, key_eqb_iff k key)

run-Backed :
    (ops : List Op) (r : Registry) (log : List Stored)
    → Backed r log
    → Backed (run ops r) (run_stores ops log)
unfolding run run_stores
run-Backed [] r log b = b
run-Backed (op ∷ ops) r log b =
    run-Backed ops (step op r) (stores_of op log) (step-Backed op r log b)

cached_results_hit :
    (key : CacheKey) (now : ℕ) (r : Registry) (results : List Result)
    → (cached_results key now r).1 ≡ some results
    → (e : CacheEntry) × (r.cache key ≡ some e)
      × (e.results ≡ results)
      × (now < e.fetched + r.cfg.cache_ttl)
unfolding cached_results
cached_results_hit key now r results hit = ground arith

-- A cached answer is one that a source gave to this very query, and younger than the cache's
-- time to live.
pub cached_results-fresh :
    (timeout cache_ttl min_refresh_interval : ℤ) (ops : List Op) (key : CacheKey) (now : ℕ)
    (results : List Result)
    → let r = run ops (new_registry timeout cache_ttl min_refresh_interval) in
      (cached_results key now r).1 ≡ some results
      → (at : ℕ) × (now < at + r.cfg.cache_ttl) × Any (IsStored key results at) (run_stores ops [])
cached_results-fresh timeout cache_ttl min_refresh_interval ops key now results hit =
    let r0 = new_registry timeout cache_ttl min_refresh_interval in
    let r = run ops r0 in
    let b = run-Backed ops r0 [] (λ k e h. unfold new_registry in cc) in
    let (e, found, same, young) = cached_results_hit key now r results hit in
    (
      e.fetched,
      young,
      subst (λ rs. Any (IsStored key rs e.fetched) (run_stores ops [])) same (b key e found),
    )
