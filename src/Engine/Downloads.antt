-- ===== src/Engine/Downloads.antt =====
-- internal/engine/anacrolix/engine.go and policy.go: the engine's bookkeeping and each of its
-- critical sections. The map `torrents` and the slice `order`, which the source always writes
-- together, are one list in add order. Rate meters and logging are left out.
pub mod Intake
pub mod Slots
pub mod Space
pub mod Refusal
pub mod Fetched
pub mod NoPanic
pub mod Promotion
pub mod Queue
pub mod Bound
pub mod Events
use tortui.Engine.{State, SeedPolicy, checking, downloading, errored, paused, queued, seeding}
use tortui.Base.{
  Bool, List, Option, Text, false, if◌then◌else◌, some, true, ℕ, ◌⊎◌, ◌&&◌, [], contains, is_some,
  none, not, ℤ, ◌∷◌, ◌++◌, ◌==◌, inl, min, suc, ◌||◌, leb, ltb, pos_part, text_eq, zero, inr,
  length,
}

-- What the engine reads and sets of a library torrent.
pub record Torrent : Type 0 where
  pub info_hash : Text
  pub has_info : Bool
  pub length : ℕ
  pub completed : ℕ
  pub written : ℕ
  pub download_allowed : Bool
  pub upload_allowed : Bool

-- `spec` is a spec held in the queue, by its infohash; `url` likewise, empty for none.
pub data Error : Type 0 where
  metadata_timeout empty_info unsafe_path insufficient_space already_added fetch_failed : Error

pub record Tracked : Type 0 where
  pub id : Text
  pub save_path : Text
  pub info_hash : Text
  pub t : Option Torrent
  pub state : State
  pub err : Option Error
  pub paused : Bool
  pub user_paused : Bool
  pub pre_pause_state : State
  pub spec : Option Text
  pub url : Text
  pub completed_at : ℕ
  pub seed_done : Bool
  pub seed_override : Bool
  pub uploaded_before : ℕ
  pub space_paused : Bool
  pub refused : Bool
  pub left_name : Text

pub record Engine : Type 0 where
  pub closed : Bool
  pub max_active : ℕ
  pub seed : SeedPolicy
  pub torrents : List Tracked
  pub queue : List Text

pub data Failure : Type 0 where
  closed_engine not_found not_queued : Failure
  left_data : Text → Text → Failure

-- e.torrents[id]
unfoldable pub find : Text → List Tracked → Option Tracked
find id [] = none
find id (tr ∷ trs) = if tr.id == id then some tr else find id trs

-- A write through the pointer e.torrents[id].
unfoldable pub amend : Text → (Tracked → Tracked) → List Tracked → List Tracked
amend id f [] = []
amend id f (tr ∷ trs) = if tr.id == id then f tr ∷ trs else tr ∷ amend id f trs

unfoldable pub forget : Text → List Tracked → List Tracked
forget id [] = []
forget id (tr ∷ trs) = if tr.id == id then trs else tr ∷ forget id trs

abbrev pub is_queued : State → Bool
is_queued queued = true
is_queued _ = false

abbrev pub is_errored : State → Bool
is_errored errored = true
is_errored _ = false

abbrev pub is_paused : State → Bool
is_paused paused = true
is_paused _ = false

abbrev pub is_seeding : State → Bool
is_seeding seeding = true
is_seeding _ = false

-- Checking or downloading: the states that take a download slot.
abbrev pub wants_slot : State → Bool
wants_slot checking = true
wants_slot downloading = true
wants_slot _ = false

abbrev pub holds_slot : Tracked → Bool
holds_slot tr = not tr.paused && wants_slot tr.state

-- activeLocked
unfoldable pub active : List Tracked → ℕ
active [] = 0
active (tr ∷ trs) = let rest = active trs in if holds_slot tr then suc rest else rest

-- slices.Delete at slices.Index
unfoldable pub remove_first : Text → List Text → List Text
remove_first id [] = []
remove_first id (x ∷ xs) = if x == id then xs else x ∷ remove_first id xs

unfoldable pub enqueue : Text → List Text → List Text
enqueue id q = if contains q id then q else q ++ id ∷ []

abbrev pub gate : Bool → Option Torrent → Option Torrent
gate allowed none = none
gate allowed (some t) = some (record t { download_allowed = allowed; upload_allowed = allowed })

-- pauseLocked, on the torrent.
unfoldable pub paused_tracked : Tracked → Tracked
paused_tracked tr = record tr {
  paused = true;
  pre_pause_state = if is_errored tr.state then tr.pre_pause_state else tr.state;
  state = if is_errored tr.state then tr.state else paused;
  t = gate false tr.t;
}

unfoldable pub pause_locked : Text → Engine → Engine
unfolding paused_tracked remove_first amend
pause_locked id e = record e {
  torrents = amend id paused_tracked e.torrents;
  queue = remove_first id e.queue;
}

-- Pause, up to the promotion that it starts.
unfoldable pub pause : Text → Engine → Engine × Option Failure
unfolding pause_locked find
pause id e = if e.closed then (e, some closed_engine) else elim (find id e.torrents) [
  | none ↦ (e, some not_found)
  | some tr ↦ if tr.paused then (e, none) else (
    let p = pause_locked id e in
        record p { torrents = amend id (λ x. record x { user_paused = true }) p.torrents },
    none,
  )
]

-- The flags and the state that Resume restores.
unfoldable pub resumed_tracked : Tracked → Tracked
resumed_tracked tr =
    let r = record tr { paused = false; user_paused = false } in
    if tr.space_paused
    then record r { space_paused = false; err = none; state = tr.pre_pause_state }
    else if tr.seed_done && not (is_errored tr.state)
    then record r { seed_done = false; seed_override = true; state = seeding }
    else if is_paused tr.state
    then record r { state = tr.pre_pause_state }
    else r

-- Attached, or holding what the queue can start it with.
unfoldable pub startable : Tracked → Bool
startable tr = is_some tr.t || is_some tr.spec || not (tr.url == [])

-- A torrent that would take a slot waits when every slot is taken, with its transfers held.
unfoldable pub settled : Text → Tracked → Engine → Engine
unfolding startable amend enqueue active
settled id r e =
    if startable r
      && (is_queued r.state || (wants_slot r.state && ltb e.max_active (active e.torrents)))
    then record e {
      torrents = amend id (λ x. record x { state = queued }) e.torrents;
      queue = enqueue id e.queue;
    }
    else record e { torrents = amend id (λ x. record x { t = gate true x.t }) e.torrents }

unfoldable pub resume : Text → Engine → Engine × Option Failure
unfolding resumed_tracked settled find amend
resume id e = if e.closed then (e, some closed_engine) else elim (find id e.torrents) [
  | none ↦ (e, some not_found)
  | some tr ↦ if not tr.paused then (e, none) else (
    settled id (resumed_tracked tr) (record e { torrents = amend id resumed_tracked e.torrents }),
    none,
  )
]

-- PauseForShutdown pauses every torrent that is not paused.
unfoldable pub pause_each : List Tracked → Engine → Engine
unfolding pause_locked
pause_each [] e = e
pause_each (tr ∷ trs) e = pause_each trs (if tr.paused then e else pause_locked tr.id e)

unfoldable pub pause_for_shutdown : Engine → Engine × Option Failure
unfolding pause_each
pause_for_shutdown e = if e.closed then (e, some closed_engine) else (pause_each e.torrents e, none)

unfoldable pub insert_at : ℕ → Text → List Text → List Text
insert_at zero id q = id ∷ q
insert_at (suc n) id [] = id ∷ []
insert_at (suc n) id (x ∷ xs) = x ∷ insert_at n id xs

-- MoveInQueue; the position is clamped to the queue's ends.
unfoldable pub move_in_queue : Text → ℤ → Engine → Engine × Option Failure
unfolding insert_at find remove_first
move_in_queue id position e =
    if e.closed then (e, some closed_engine) else elim (find id e.torrents) [
      | none ↦ (e, some not_found)
      | some tr ↦
          if contains e.queue id
          then (
            let rest = remove_first id e.queue in
                record e { queue = insert_at (min (pos_part position) (length rest)) id rest },
            none,
          )
          else (e, some not_queued)
    ]

-- What a promoted torrent is started with.
pub data Start : Type 0 where
  lift_gate : Start
  fetch : Text → Start
  attach_spec : Option Text → Start

unfoldable pub promoted : Tracked → Tracked × Start
promoted tr = elim tr.t [
  | some t ↦ (
    record tr { state = if t.has_info then downloading else checking; t = gate true (some t) },
    lift_gate,
  )
  | none ↦
      if not (tr.url == [])
      then (record tr { state = checking; url = [] }, fetch tr.url)
      else (record tr { state = checking; spec = none }, attach_spec tr.spec)
]

-- promoteOneLocked: `inl` when nothing is promoted, and `none` under `inr` on the panic of a
-- queued id that is not tracked.
unfoldable pub promote_one : Engine → (Unit {0}) ⊎ Option (Engine × Text × Start)
unfolding promoted find amend active
promote_one e = elim e.queue [
  | [] ↦ inl tt
  | id ∷ rest ↦
      if e.closed || leb e.max_active (active e.torrents)
      then inl tt
      else inr (elim (find id e.torrents) [
        | none ↦ none
        | some tr ↦ some (
          record e { queue = rest; torrents = amend id (λ x. (promoted x).0) e.torrents },
          id,
          (promoted tr).1,
        )
      ])
]

-- failLocked, on the torrent.
unfoldable pub failed_tracked : Error → Tracked → Tracked
failed_tracked err tr =
    if is_errored tr.state then tr else record tr { state = errored; err = some err }

-- The critical section of fail.
unfoldable pub fail : Text → Error → Engine → Engine
unfolding failed_tracked amend
fail id err e = record e { torrents = amend id (failed_tracked err) e.torrents }

-- The critical section of refuse; `left` is the name that keepLeftLocked leaves the entry with.
unfoldable pub refuse : Text → Error → Text → Engine → Engine
unfolding failed_tracked amend
refuse id err left e = record e {
  torrents =
      amend id (λ tr. record (failed_tracked err tr) { refused = true; left_name = left })
        e.torrents;
}

-- untrackLocked, and what Remove does to the bookkeeping.
unfoldable pub untrack : Text → Engine → Engine
unfolding forget remove_first
untrack id e = record e { torrents = forget id e.torrents; queue = remove_first id e.queue }

unfoldable pub remove : Text → Engine → Engine × Option Failure
unfolding untrack find
remove id e =
    if e.closed
    then (e, some closed_engine)
    else elim (find id e.torrents) [ none ↦ (e, some not_found) | some tr ↦ (untrack id e, none) ]
