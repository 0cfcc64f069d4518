-- ===== src/Engine/Downloads/Intake.antt =====
-- internal/engine/anacrolix/engine.go and policy.go: how a torrent comes in (findOrTrack, track,
-- claimInfoHashLocked, attach), its info dictionary (awaitInfo), and the seeding policy.
use tortui.Engine.Downloads.{
  Tracked, Torrent, active, amend, Engine, enqueue, Error, Failure, untrack, closed_engine,
  already_added, gate, left_data, fetch_failed, is_queued, is_seeding,
}
use tortui.Base.{
  List, Text, Bool, Option, ◌∷◌, ◌++◌, [], false, if◌then◌else◌, inl, true, ℕ, ◌⊎◌, ◌&&◌, ◌==◌, inr,
  none, not, some, leb, ltb, map, text_eq, ◌||◌, nat_eqb, ◌+◌,
}
use tortui.Engine.{State, seeding_done, SeedPolicy, downloading, paused, checking, queued, seeding}

-- What a claim reads from disk first: whether a refused entry's destination is the one asked for,
-- and whether the data that the entry left is gone (leftView).
pub record LeftView : Type 0 where
  pub same_dir : Text → Bool
  pub gone : Text → Text → Bool

pub data Claim : Type 0 where
  taken : Text → Claim
  left_elsewhere : Text → Text → Claim
  free : List Text → Claim

-- The entry is another one than `self`, for this infohash.
abbrev rivals : Text → Option Text → Tracked → Bool
rivals hex self tr = tr.info_hash == hex && not (is_self self tr.id)
  where
    is_self : Option Text → Text → Bool
    is_self none id = false
    is_self (some s) id = id == s

-- The loop over `order`: the first entry that is not refused, or else the refused ones.
unfoldable pub scan_claim : Text → Option Text → List Tracked → Text ⊎ List Tracked
scan_claim hex self [] = inr []
scan_claim hex self (tr ∷ trs) =
    let rest = scan_claim hex self trs in
    if rivals hex self tr
    then if tr.refused then elim rest [ inl id ↦ inl id | inr out ↦ inr (tr ∷ out) ] else inl tr.id
    else rest

unfoldable pub check_left : LeftView → List Text → List Tracked → Claim
check_left view ids [] = free ids
check_left view ids (tr ∷ trs) =
    let rest = check_left view ids trs in
    if tr.left_name == [] || view.same_dir tr.save_path || view.gone tr.save_path tr.left_name
    then rest
    else left_elsewhere tr.save_path tr.left_name

-- claimInfoHashLocked, before it untracks the refused entries that `free` lists.
unfoldable pub claim_info_hash : Text → Option Text → LeftView → List Tracked → Claim
unfolding scan_claim check_left
claim_info_hash [] self view trs = free []
claim_info_hash (c ∷ hex) self view trs = elim (scan_claim (c ∷ hex) self trs) [
  | inl id ↦ taken id
  | inr refused ↦ check_left view (map (λ tr. tr.id) refused) refused
]

unfoldable pub untrack_all : List Text → Engine → Engine
untrack_all [] e = e
untrack_all (id ∷ ids) e = untrack_all ids (untrack id e)

-- What a restore or an add hands on (provenance, anacrolix/resume.go).
pub record Provenance : Type 0 where
  pub paused : Bool
  pub seed_done : Bool
  pub uploaded : ℕ
  pub completed_at : ℕ

-- newTracked; an unset state is the zero value, StateQueued.
unfoldable pub new_tracked : Text → Text → Provenance → Tracked
new_tracked id dest prov = record {
  id = id;
  save_path = dest;
  info_hash = [];
  t = none;
  state = queued;
  err = none;
  paused = prov.paused || prov.seed_done;
  user_paused = prov.paused;
  pre_pause_state = queued;
  spec = none;
  url = [];
  completed_at = prov.completed_at;
  seed_done = prov.seed_done;
  seed_override = false;
  uploaded_before = prov.uploaded;
  space_paused = false;
  refused = false;
  left_name = [];
}

-- The state that findOrTrack and track give a new entry which does not queue.
unfoldable pub begun : Tracked → Tracked
begun tr =
    if tr.paused
    then record tr { pre_pause_state = checking; state = paused }
    else record tr { state = checking }

pub data Added : Type 0 where
  -- the new entry's id, and whether it is queued
  minted : Text → Bool → Added
  existing : Text → Added
  not_added : Failure → Added

abbrev pub add_new : Text → Text → Tracked → Engine → Engine × Added
add_new hex id tr e =
    let fresh = record tr { info_hash = hex } in
    if not tr.paused && leb e.max_active (active e.torrents)
    then (
      record e {
        torrents = e.torrents ++ record fresh { state = queued; spec = some hex } ∷ [];
        queue = enqueue id e.queue;
      },
      minted id true,
    )
    else (record e { torrents = e.torrents ++ fresh ∷ [] }, minted id false)

unfoldable pub take_claim : Text → Text → Text → Provenance → Engine → Claim → Engine × Added
unfolding untrack_all new_tracked begun active enqueue
take_claim hex id dest prov e (taken other) = (e, existing other)
take_claim hex id dest prov e (left_elsewhere path name) = (e, not_added (left_data path name))
take_claim hex id dest prov e (free stale) =
    add_new hex id (begun (new_tracked id dest prov)) (untrack_all stale e)

-- findOrTrack; `id` is the one that mintIDLocked gives.
unfoldable pub find_or_track : Text → Text → Text → Provenance → LeftView → Engine → Engine × Added
unfolding claim_info_hash take_claim
find_or_track hex id dest prov view e =
    if e.closed
    then (e, not_added closed_engine)
    else take_claim hex id dest prov e (claim_info_hash hex none view e.torrents)

-- track, for an address whose infohash is not known yet: the entry is counted before the test.
unfoldable pub track : Text → Text → Text → Provenance → Engine → Engine × Added
unfolding new_tracked begun active enqueue
track id dest raw_url prov e =
    let tr = begun (new_tracked id dest prov) in
    let grown = e.torrents ++ tr ∷ [] in
    if e.closed
    then (e, not_added closed_engine)
    else if not tr.paused && ltb e.max_active (active grown)
    then (
      record e {
        torrents = e.torrents ++ record tr { state = queued; url = raw_url } ∷ [];
        queue = enqueue id e.queue;
      },
      minted id true,
    )
    else (record e { torrents = grown }, minted id false)

-- claimInfoHash with the entry itself as `self`: what fetchAndAttach does with a fetched .torrent
-- before it attaches it.
abbrev pub after_claim : Engine → Claim → Engine × Option Error
after_claim e (taken other) = (e, some already_added)
after_claim e (left_elsewhere path name) = (e, some fetch_failed)
after_claim e (free stale) = (untrack_all stale e, none)

unfoldable pub claim_fetched : Text → Text → LeftView → Engine → Engine × Option Error
unfolding claim_info_hash untrack_all
claim_fetched hex id view e = after_claim e (claim_info_hash hex (some id) view e.torrents)

-- The critical section of attach that publishes the library's torrent; `held` is whether the
-- torrent joined the client with its transfers held. An entry that was removed meanwhile is not
-- tracked any more, and nothing changes.
unfoldable pub published : Torrent → Bool → Tracked → Tracked
published t held tr = record tr {
  info_hash = t.info_hash;
  t =
      if not held && tr.paused
      then gate false (some t)
      else if held && not tr.paused && not (is_queued tr.state)
      then gate true (some t)
      else some t;
}

unfoldable pub publish : Text → Torrent → Bool → Engine → Engine
unfolding published amend
publish id t held e =
    if e.closed then e else record e { torrents = amend id (published t held) e.torrents }

-- The critical section of awaitInfo once the info dictionary is there and checked.
unfoldable pub informed : Tracked → Tracked
informed tr = record tr {
  state = if is_checking tr.state && not tr.paused then downloading else tr.state;
  pre_pause_state =
      if tr.paused && not (is_queued tr.state) then downloading else tr.pre_pause_state;
  t = if tr.paused || is_queued tr.state then gate false tr.t else tr.t;
}
  where
    is_checking : State → Bool
    is_checking checking = true
    is_checking _ = false

-- applyPolicyLocked
unfoldable pub apply_policy : SeedPolicy → ℕ → Tracked → Tracked
unfolding seeding_done
apply_policy seed now tr = elim tr.t [
  | none ↦ tr
  | some t ↦ if tr.paused || not t.has_info then tr else settle t (complete t)
]
  where
    complete : Torrent → Tracked
    complete t =
        if is_downloading tr.state && ltb 0 t.length && leb t.length t.completed
        then record tr {
          state = seeding;
          completed_at = if nat_eqb tr.completed_at 0 then now else tr.completed_at;
        }
        else tr
      where
        is_downloading : State → Bool
        is_downloading downloading = true
        is_downloading _ = false

    settle : Torrent → Tracked → Tracked
    settle t c =
        if not (is_seeding c.state) || c.seed_override
        then c
        else if seeding_done seed (c.uploaded_before + t.written) t.length c.completed_at now
        then record c {
          paused = true;
          seed_done = true;
          pre_pause_state = seeding;
          state = paused;
          t = some (record t { upload_allowed = false });
        }
        else c
