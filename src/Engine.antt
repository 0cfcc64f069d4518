-- ===== src/Engine.antt =====
-- internal/engine/engine.go and policy.go: the states of a torrent and the seeding policy. A
-- ratio is a fraction of natural numbers here where the source has a float64.
pub mod Downloads
pub mod Paths
pub mod Listen
pub mod Removal
mod Examples
use tortui.Base.{ℕ, Bool, nat_eqb, ◌||◌, leb, ◌*◌, ◌+◌, true}

pub data State : Type 0 where
  queued checking downloading seeding paused errored : State

pub record Ratio : Type 0 where
  pub num : ℕ
  pub den : ℕ

-- The mode with the field that it reads.
pub data SeedPolicy : Type 0 where
  seed_to_ratio : Ratio → SeedPolicy
  seed_for_duration : ℕ → SeedPolicy
  seed_off : SeedPolicy

-- seedingDone (anacrolix/policy.go). `uploaded / length` is compared by cross multiplication.
unfoldable pub seeding_done : SeedPolicy → ℕ → ℕ → ℕ → ℕ → Bool
seeding_done (seed_to_ratio ratio) uploaded length completed_at now =
    nat_eqb length 0 || leb (ratio.num * length) (uploaded * ratio.den)
seeding_done (seed_for_duration duration) uploaded length completed_at now =
    leb (completed_at + duration) now
seeding_done seed_off uploaded length completed_at now = true
