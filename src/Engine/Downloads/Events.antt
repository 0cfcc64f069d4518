-- ===== src/Engine/Downloads/Events.antt =====
-- internal/engine/anacrolix: the critical sections as events, in the order in which they take
-- Engine.mu.
use tortui.Engine.Downloads.{
  find, Engine, Tracked, Start, pause, resume, Error, remove, startable, Torrent, resumed_tracked,
  pause_for_shutdown, promote_one, move_in_queue, fail, refuse, amend,
}
use tortui.Base.{
  not, List, Option, Text, ◌≡◌, ◌⊎◌, ◌∷◌, Bool, true, inl, some, ℤ, inr, none, ℕ, [], ◌||◌,
}
use tortui.Engine.Downloads.Intake.{
  find_or_track, Provenance, track, LeftView, informed, claim_fetched, publish, apply_policy,
}
use tortui.Engine.Downloads.Space.{Disk, recheck, Writer}

-- One critical section: adds is findOrTrack, adds_url track, attaches the claim of fetchAndAttach,
-- publishes attach, informs awaitInfo, applies
-- applyPolicyLocked, and rechecks the second loop of recheckSpace for writers listed before.
pub data Event : Type 0 where
  adds : Text → Text → Text → Provenance → LeftView → Event
  adds_url : Text → Text → Text → Provenance → Event
  pauses resumes removes informs : Text → Event
  shuts promotes : Event
  moves : Text → ℤ → Event
  fails : Text → Error → Event
  refuses : Text → Error → Text → Event
  attaches : Text → Text → LeftView → Event
  publishes : Text → Torrent → Bool → Event
  applies : ℕ → Text → Event
  rechecks : Disk → ℕ → List Writer → Event

-- The engine that a promotion leaves; an engine that panics stays as it is.
abbrev pub after_promotion : Engine → (Unit {0}) ⊎ Option (Engine × Text × Start) → Engine
after_promotion e (inl _) = e
after_promotion e (inr none) = e
after_promotion e (inr (some (e', _, _))) = e'

unfoldable pub handle : Event → Engine → Engine
unfolding find_or_track track pause resume remove informed pause_for_shutdown promote_one
    move_in_queue fail refuse claim_fetched publish apply_policy amend recheck
handle (adds hex id dest prov view) e = (find_or_track hex id dest prov view e).0
handle (adds_url id dest url prov) e = (track id dest url prov e).0
handle (pauses id) e = (pause id e).0
handle (resumes id) e = (resume id e).0
handle (removes id) e = (remove id e).0
handle (informs id) e = record e { torrents = amend id informed e.torrents }
handle shuts e = (pause_for_shutdown e).0
handle promotes e = after_promotion e (promote_one e)
handle (moves id position) e = (move_in_queue id position e).0
handle (fails id err) e = fail id err e
handle (refuses id err left) e = refuse id err left e
handle (attaches hex id view) e = (claim_fetched hex id view e).0
handle (publishes id t held) e = publish id t held e
handle (rechecks disk margin ws) e = recheck disk margin ws e
handle (applies now id) e = record e { torrents = amend id (apply_policy e.seed now) e.torrents }

unfoldable pub run_events : List Event → Engine → Engine
unfolding handle
run_events [] e = e
run_events (ev ∷ evs) e = run_events evs (handle ev e)

-- A torrent that is resumed is attached or holds what the queue can start it with.
abbrev pub can_start : Option Tracked → Bool
can_start none = true
can_start (some tr) = not tr.paused || startable (resumed_tracked tr)

abbrev pub ResumesStartable : Event → Engine → Type 0
ResumesStartable (resumes id) e = can_start (find id e.torrents) ≡ true
ResumesStartable _ e = Unit

unfoldable pub AllResumesStartable : List Event → Engine → Type 0
unfolding handle
AllResumesStartable [] e = Unit
AllResumesStartable (ev ∷ evs) e = ResumesStartable ev e × AllResumesStartable evs (handle ev e)
