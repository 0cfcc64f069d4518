-- ===== src/Engine/Downloads/Space.antt =====
-- internal/engine/anacrolix/policy.go: the free-space checks. An int64 is its bit pattern, so that
-- sums wrap at 64 bits; a negative one is at least 2^63.
pub mod Turns
pub mod Reading
pub mod Recheck
pub mod Pauses
pub mod Shortfall
use tortui.Engine.Downloads.{Engine, Tracked, amend, Torrent, find, insufficient_space, wants_slot}
use tortui.Base.{
  List, Map, Option, Text, ℕ, ◌+◌, Bool, ◌^◌, empty_map, if◌then◌else◌, none, some, suc, true, ◌∷◌,
  ◌%◌, ◌-◌, ◌==◌, false, insert, ltb, not, ◌||◌, ◌&&◌, [], leb, nat_eq, text_eq, is_some,
}
use tortui.Engine.{State, downloading, errored}

abbrev pub int64_min : ℕ
int64_min = 2 ^ 63

-- `a + b` on int64.
abbrev pub add64 : ℕ → ℕ → ℕ
add64 a b = (a + b) % 2 ^ 64

-- spaceShortfall; `free` is a uint64.
unfoldable pub space_shortfall : ℕ → ℕ → ℕ → ℕ
space_shortfall free need margin =
    let want = add64 need margin in
    if want == 0 || leb int64_min want then 0 else if leb want free then 0 else want - free

-- sharedNeed
pub record SharedNeed : Type 0 where
  pub downloads : ℕ
  pub bytes : ℕ

abbrev pub no_need : SharedNeed
no_need = record { downloads = 0; bytes = 0 }

unfoldable pub add_need : ℕ → SharedNeed → SharedNeed
add_need n s = record { downloads = suc s.downloads; bytes = add64 s.bytes n }

-- A writer: its entry, its destination, and what it has left to write.
pub record Writer : Type 0 where
  pub id : Text
  pub dest : Text
  pub remaining : ℕ

-- writingLocked; an entry that was removed is not found.
unfoldable pub is_writing : Tracked → Bool
is_writing tr = elim tr.t [ none ↦ false | some t ↦ t.has_info && wants_slot tr.state ]

-- torrentLength less what is complete.
abbrev remaining_of : Option Torrent → ℕ
remaining_of none = 0
remaining_of (some t) = t.length - t.completed

abbrev is_same_entry : Option Text → Text → Bool
is_same_entry none id = false
is_same_entry (some self) id = id == self

-- writers
unfoldable pub writers : Option Text → List Tracked → List Writer
unfolding is_writing
writers self [] = []
writers self (tr ∷ trs) =
    let rest = writers self trs in
    if is_same_entry self tr.id || not (is_writing tr)
    then rest
    else record { id = tr.id; dest = tr.save_path; remaining = remaining_of tr.t } ∷ rest

-- What the platform says of a destination: its filesystem, and the bytes free there, `none` when
-- the query fails.
pub record Disk : Type 0 where
  pub filesystem : Text → Text
  pub free : Text → Option ℕ

-- The loop of checkSpace over the other writers.
unfoldable pub needed_by : Disk → Text → List Writer → SharedNeed → SharedNeed
unfolding add_need
needed_by disk key [] others = others
needed_by disk key (w ∷ ws) others =
    needed_by disk key ws
      (if disk.filesystem w.dest == key then add_need w.remaining others else others)

pub data SpaceError : Type 0 where
  unreadable : SpaceError
  -- how many bytes are short
  insufficient : ℕ → SpaceError

-- checkSpace: `none` is a nil error.
unfoldable pub check_space : Disk → ℕ → Text → ℕ → Option Text → Engine → Option SpaceError
unfolding writers needed_by space_shortfall
check_space disk margin dest need self e = elim (disk.free dest) [
  | none ↦ some unreadable
  | some free ↦
      let others = needed_by disk (disk.filesystem dest) (writers self e.torrents) no_need in
      let short = space_shortfall free (add64 need others.bytes) margin in
      if ltb 0 short then some (insufficient short) else none
]

-- The first loop of recheckSpace: the free space of each filesystem, read at the first of the
-- writers that is on it.
unfoldable pub free_space : Disk → List Writer → Map Text ℕ → Map Text (Unit {0}) → Map Text ℕ
free_space disk [] free failed = free
free_space disk (w ∷ ws) free failed =
    let k = disk.filesystem w.dest in
    let known = free_space disk ws free failed in
    if is_some (free k) || is_some (failed k) then known else elim (disk.free w.dest) [
      | none ↦ free_space disk ws free (insert k tt failed)
      | some n ↦ free_space disk ws (insert k n free) failed
    ]

abbrev pub is_downloading : State → Bool
is_downloading downloading = true
is_downloading _ = false

-- A download that no longer fits.
unfoldable pub space_paused_tracked : Tracked → Tracked
space_paused_tracked tr = record tr {
  paused = true;
  space_paused = true;
  pre_pause_state = downloading;
  state = errored;
  err = some insufficient_space;
  t = elim tr.t [ none ↦ none | some t ↦ some (record t { download_allowed = false }) ];
}

-- What one writer does in the second loop: nothing, be counted, or be paused.
pub data Verdict : Type 0 where
  skipped counted stopped : Verdict

unfoldable pub verdict : ℕ → Option ℕ → SharedNeed → Writer → Option Tracked → Verdict
unfolding is_writing space_shortfall
verdict margin none others w found = skipped
verdict margin (some n) others w none = skipped
verdict margin (some n) others w (some tr) =
    if not (is_writing tr)
    then skipped
    else if space_shortfall n (add64 others.bytes w.remaining) margin == 0
        || not (is_downloading tr.state)
    then counted
    else stopped

abbrev pub at_filesystem : Map Text SharedNeed → Text → SharedNeed
at_filesystem ahead k = elim (ahead k) [ none ↦ no_need | some s ↦ s ]

-- The second loop of recheckSpace, under Engine.mu.
unfoldable pub recheck_from :
    Disk → Map Text ℕ → ℕ → List Writer → Map Text SharedNeed → Engine → Engine
unfolding verdict space_paused_tracked amend find
recheck_from disk free margin [] ahead e = e
recheck_from disk free margin (w ∷ ws) ahead e =
    let k = disk.filesystem w.dest in
    let others = at_filesystem ahead k in
    elim (verdict margin (free k) others w (find w.id e.torrents)) [
      | skipped ↦ recheck_from disk free margin ws ahead e
      | counted ↦ recheck_from disk free margin ws (insert k (add_need w.remaining others) ahead) e
      | stopped ↦
          recheck_from disk free margin ws ahead
            (record e { torrents = amend w.id space_paused_tracked e.torrents })
    ]

-- recheckSpace: the writers are listed first, and other sections of Engine.mu may run before the
-- second loop; `ws` are the writers listed then.
unfoldable pub recheck : Disk → ℕ → List Writer → Engine → Engine
unfolding free_space recheck_from
recheck disk margin ws e =
    recheck_from disk (free_space disk ws empty_map empty_map) margin ws empty_map e
