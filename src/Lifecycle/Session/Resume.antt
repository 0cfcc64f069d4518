-- ===== src/Lifecycle/Session/Resume.antt =====
-- internal/lifecycle/session.go: Resume, without the roots it adds first and the report of what is
-- missing or failed; and internal/engine/anacrolix/resume.go: the IDs that Restore gives. What
-- happens to each torrent otherwise is an argument.
pub mod Minted
pub mod Unused
pub mod Restored
use tortui.Base.{
  Text, ℕ, Bool, List, Option, false, ltb, true, some, stable_sort, ◌||◌, ◌∷◌, ◌+◌, ◌++◌, [],
  if◌then◌else◌, nat_eqb, ◌&&◌, contains, none, ◌==◌, text_lt, text_eq, get_elem?, keep, not, suc,
  length, zero,
}
use tortui.Lifecycle.Session.{
  Store, TorrentRecord, Session, StoreError, set_torrent, delete_torrent,
}

-- The loop's state: `restored` is restoredIDs, and `dropped` the IDs of report.Dropped with what they
-- are kept as.
pub record Resuming : Type 0 where
  pub store : Store
  pub restored : List Text
  pub dropped : List (Text × Text)

-- AddedAt, then ID.
unfoldable pub is_older : TorrentRecord → TorrentRecord → Bool
is_older a b = ltb a.added_at b.added_at || (nat_eqb a.added_at b.added_at && text_lt a.id b.id)

-- From here on `false` is an error.
abbrev pub dropped_as :
    TorrentRecord → Text → Resuming → Store × Option StoreError → Resuming × Bool
dropped_as rec id z (s, some err) = (record z { store = s }, false)
dropped_as rec id z (s, none) =
    (record z { store = s; dropped = z.dropped ++ (rec.id, id) ∷ [] }, true)

abbrev pub kept_as : Text → Resuming → Store × Option StoreError → Resuming × Bool
kept_as id z (s, some err) = (record z { store = s }, false)
kept_as id z (s, none) = (record z { store = s; restored = z.restored ++ id ∷ [] }, true)

abbrev pub rekeyed : TorrentRecord → Text → Resuming → Store × Option StoreError → Resuming × Bool
rekeyed rec id z (s, some err) = (record z { store = s }, false)
rekeyed rec id z (s, none) = kept_as id z (set_torrent (record rec { id = id }) s)

unfoldable pub resume_one : TorrentRecord → Option Text → Resuming → Resuming × Bool
resume_one rec none z = (z, false)
resume_one rec (some id) z =
    if contains z.restored id
    then dropped_as rec id z
        (if id == rec.id then (z.store, none) else delete_torrent rec.id z.store)
    else if id == rec.id
    then kept_as id z (z.store, none)
    else rekeyed rec id z (delete_torrent rec.id z.store)

-- The engine's torrents, by ID, and the counter of its IDs, which is taken as unbounded.
pub record Ids : Type 0 where
  pub tracked : List Text
  pub next_id : ℕ

-- fmt.Sprintf and fmt.Sscanf of "an-%d"; no ID that is scanned as a negative number moves the
-- counter.
pub record Numbering : Type 0 where
  pub format : ℕ → Text
  pub scan : Text → Option ℕ

-- The loop of mintIDLocked: `none` is out of fuel.
unfoldable pub next_unused : (ℕ → Text) → List Text → ℕ → ℕ → Option (Text × ℕ)
next_unused format tracked zero n = none
next_unused format tracked (suc fuel) n =
    let rest = next_unused format tracked fuel (n + 1) in
    if contains tracked (format (n + 1)) then rest else some (format (n + 1), n + 1)

abbrev moved_past : Option ℕ → ℕ → ℕ
moved_past none next = next
moved_past (some n) next = if ltb next n then n else next

-- mintIDLocked: the ID, and the counter behind it.
unfoldable pub mint_id : Numbering → Text → Ids → Option (Text × ℕ)
unfolding next_unused
mint_id names want ids =
    if not (want == []) && not (contains ids.tracked want)
    then some (want, moved_past (names.scan want) ids.next_id)
    else next_unused names.format ids.tracked (length ids.tracked + 1) ids.next_id

-- How a Restore goes: it ends in an error with nothing tracked; it tracks the torrent, running or
-- errored; it finds the infohash at the i-th torrent that is tracked; or it tracks the torrent,
-- untracks it when it cannot be attached, and tracks it as errored.
pub data Attempt : Type 0 where
  errs tracks retracks : Attempt
  joins : ℕ → Attempt

-- `gone` are torrents that the engine has untracked since the Restore before.
pub record Restoring : Type 0 where
  pub gone : List Text
  pub attempt : Attempt

abbrev track_minted : Ids → Option (Text × ℕ) → Ids × Option Text
track_minted ids none = (ids, none)
track_minted ids (some (id, next)) =
    (record { tracked = ids.tracked ++ id ∷ []; next_id = next }, some id)

abbrev untrack_minted : Ids → Option (Text × ℕ) → Ids
untrack_minted ids none = ids
untrack_minted ids (some (id, next)) = record ids { next_id = next }

abbrev attempted : Numbering → Attempt → Text → Ids → Ids × Option Text
attempted names errs want ids = (ids, none)
attempted names tracks want ids = track_minted ids (mint_id names want ids)
attempted names retracks want ids =
    let ids' = untrack_minted ids (mint_id names want ids) in
    track_minted ids' (mint_id names want ids')
attempted names (joins i) want ids = (ids, get_elem? ids.tracked i)

-- Restore: the ID that it returns, `none` for an error.
unfoldable pub restore : Numbering → Restoring → Text → Ids → Ids × Option Text
unfolding mint_id
restore names r want ids =
    attempted names r.attempt want
      (record ids { tracked = keep (λ id. not (contains r.gone id)) ids.tracked })

-- `i` counts the calls of Restore.
unfoldable pub resume_from :
    Numbering → (ℕ → Restoring) → ℕ → List TorrentRecord → Ids → Resuming → Resuming × Bool
unfolding resume_one restore
resume_from names plan i [] ids z = (z, true)
resume_from names plan i (rec ∷ recs) ids z =
    let (ids', answer) = restore names (plan i) rec.id ids in
    let (z', ok) = resume_one rec answer z in
    let rest = resume_from names plan (i + 1) recs ids' z' in if ok then rest else (z', false)

-- Resume, with what its loop leaves.
unfoldable pub resume_session :
    Numbering → (ℕ → Restoring) → Ids → Session → Session × Resuming × Bool
unfolding resume_from is_older
resume_session names plan ids s =
    let (z, ok) =
      resume_from names plan 0 (stable_sort is_older s.store.torrents) ids
        (record { store = s.store; restored = []; dropped = [] }) in
    (record s { store = z.store; resumed = s.resumed || ok }, z, ok)
