-- ===== src/Indexer/Http/Backoff.antt =====
-- internal/indexer/httpx/retry.go: what the backoff's loop computes.
use native.Mathlib.Nat.{pow-suc}
use tortui.Indexer.Http.{doubled, backoff_for}
use tortui.Base.{ℕ, ◌*◌, ◌≤◌, ◌^◌, ◌<◌, suc, ◌≡◌, min, ◌-◌, zero, arith}

power_double : (d n : ℕ) → d * 2 ^ suc n ≡ (d * 2) * 2 ^ n
power_double d n = rw (pow-suc 2 n) (omega arith)

power_ge : (d n : ℕ) → d ≤ d * 2 ^ n
power_ge d zero = omega arith
power_ge d (suc n) = omega (arith, power_double d n, power_ge (d * 2) n)

doubled-min :
    (n delay max_delay : ℕ)
    → max_delay ≤ 2 ^ 62
    → doubled n delay max_delay ≡ min (delay * 2 ^ n) max_delay
unfolding doubled
doubled-min zero delay max_delay h = ground arith
doubled-min (suc n) delay max_delay h = ground (
  arith,
  doubled-min n (delay * 2) max_delay h,
  power_double delay n,
  power_ge delay (suc n),
  power_ge (delay * 2) n,
)

-- For a limit of at most 2^62 nanoseconds (146 years), the wait after attempt n is the base times
-- 2^(n-1), or the limit where that is smaller: the loop does not overflow 64 bits.
pub backoff_for-min :
    (n base max_delay : ℕ)
    → max_delay ≤ 2 ^ 62
    → 0 < n
    → backoff_for n base max_delay ≡ min (base * 2 ^ (n - 1)) max_delay
unfolding backoff_for
backoff_for-min n base max_delay h positive = ground (arith, doubled-min (n - 1) base max_delay h)
