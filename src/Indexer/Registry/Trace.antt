-- ===== src/Indexer/Registry/Trace.antt =====
-- internal/indexer/registry.go: any interleaving of the registry's callers is a sequence of its
-- critical sections, each at the times that it reads.
use tortui.Base.{◌≡◌, refl, ◌⊎◌, inl, inr, ℕ, ◌≤◌, Text, Bool, Option, List, [], ◌∷◌}
use tortui.Indexer.{Indexer, Result}
use tortui.Indexer.Registry.{
  Registry, CacheKey, FetchSlot, fetch_claimed, fetch_throttled, fetch_gone, register, unregister,
  set_enabled, cached_results, store_results, reserve_fetch,
}

pub data Op : Type 0 where
  registers : Option Indexer → ℕ → Op
  -- the two readings of the clock
  unregisters : Text → ℕ → ℕ → Op
  enables : Text → Bool → Op
  reads_cache : CacheKey → ℕ → Op
  reserves : Text → ℕ → ℕ → Op
  stores : CacheKey → ℕ → List Result → ℕ → Op

unfoldable pub step : Op → Registry → Registry
step (registers ix now) r = (register ix now r).0
step (unregisters id prune_now now) r = (unregister id prune_now now r).0
step (enables id enabled) r = (set_enabled id enabled r).0
step (reads_cache key now) r = (cached_results key now r).0
step (reserves id addr now) r = (reserve_fetch id addr now r).0
step (stores key owner results now) r = store_results key owner results now r

-- A request that may go out: to which source id, and when.
pub record Claim : Type 0 where
  pub id : Text
  pub at : ℕ

unfoldable pub claim_of : Text → ℕ → FetchSlot → List Claim → List Claim
claim_of id now fetch_claimed log = record { id = id; at = now } ∷ log
claim_of id now fetch_throttled log = log
claim_of id now fetch_gone log = log

pub FetchSlot-cases :
    (s : FetchSlot)
    → (s ≡ fetch_claimed) ⊎ ((log : List Claim) (id : Text) (now : ℕ) → claim_of id now s log ≡ log)
unfolding claim_of
FetchSlot-cases fetch_claimed = inl refl
FetchSlot-cases fetch_throttled = inr (λ log id now. refl)
FetchSlot-cases fetch_gone = inr (λ log id now. refl)

-- The claims so far, the newest first.
unfoldable pub claims : Op → Registry → List Claim → List Claim
unfolding claim_of
claims (reserves id addr now) r log = claim_of id now (reserve_fetch id addr now r).1 log
claims _ r log = log

unfoldable pub run : List Op → Registry → Registry
run [] r = r
run (op ∷ ops) r = run ops (step op r)

unfoldable pub run_claims : List Op → Registry → List Claim → List Claim
run_claims [] r log = log
run_claims (op ∷ ops) r log = run_claims ops (step op r) (claims op r log)

-- The clock at the start and at the end of a step that begins no earlier than `c`.
abbrev pub begins : ℕ → Op → ℕ
begins c (registers ix now) = now
begins c (unregisters id prune_now now) = prune_now
begins c (enables id enabled) = c
begins c (reads_cache key now) = now
begins c (reserves id addr now) = now
begins c (stores key owner results now) = now

abbrev pub ends : ℕ → Op → ℕ
ends c (unregisters id prune_now now) = now
ends c op = begins c op

-- The clock does not go back.
abbrev pub Timely : ℕ → List Op → Type 0
Timely c [] = Unit
Timely c (op ∷ ops) = (c ≤ begins c op) × (begins c op ≤ ends c op) × Timely (ends c op) ops
