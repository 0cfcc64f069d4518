-- ===== src/Engine/Downloads/Space/Shortfall.antt =====
-- internal/engine/anacrolix/policy.go: what spaceShortfall and checkSpace decide.
use tortui.Engine.Downloads.Space.{
  space_shortfall, Disk, needed_by, add_need, int64_min, Writer, SharedNeed,
}
use tortui.Base.{
  ℕ, ◌+◌, ◌<◌, Text, List, ◌≡◌, ◌≤◌, ◌-◌, arith, ◌∷◌, Bool-cases, if◌then◌else◌, ◌==◌, [], inl, inr,
  text_eq,
}
use tortui.Engine.Downloads.{Engine}

-- Where need and margin fit an int64, the shortfall is what is missing of them.
pub space_shortfall-eq_sub :
    (free need margin : ℕ)
    → need + margin < int64_min
    → space_shortfall free need margin ≡ need + margin - free
unfolding space_shortfall
space_shortfall-eq_sub free need margin h = ground arith

-- What need and margin exceed int64 together is no shortfall at all, however little is free.
pub space_shortfall_overflow :
    (free need margin : ℕ)
    → need < int64_min
    → margin < int64_min
    → int64_min ≤ need + margin
    → space_shortfall free need margin ≡ 0
unfolding space_shortfall
space_shortfall_overflow free need margin h k over = ground arith

-- What the writers on a filesystem have left to write.
unfoldable pub total_on : Disk → Text → List Writer → ℕ
total_on disk key [] = 0
total_on disk key (w ∷ ws) =
    let rest = total_on disk key ws in
    if disk.filesystem w.dest == key then w.remaining + rest else rest

pub needed_by-bytes :
    (disk : Disk) (key : Text) (ws : List Writer) (others : SharedNeed)
    → others.bytes + total_on disk key ws < int64_min
    → (needed_by disk key ws others).bytes ≡ others.bytes + total_on disk key ws
unfolding needed_by total_on add_need
needed_by-bytes disk key [] others h = omega arith
needed_by-bytes disk key (w ∷ ws) others h = elim (Bool-cases (disk.filesystem w.dest == key)) [
  | inl e ↦ ground (arith, needed_by-bytes disk key ws (add_need w.remaining others))
  | inr e ↦ ground (arith, needed_by-bytes disk key ws others)
]
