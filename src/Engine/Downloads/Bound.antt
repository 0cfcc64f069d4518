-- ===== src/Engine/Downloads/Bound.antt =====
-- internal/engine/anacrolix: max_active_downloads and the torrents that hold a download slot, under
-- sequences of events.
use tortui.Engine.Downloads.Slots.{
  Fits, slot, resume-Fits, untrack_all-Fits, find_or_track-Fits, track-Fits, pause-Fits,
  active-forget-le, active-amend-le, pause_each-Fits, promote_one-Fits,
}
use tortui.Engine.Downloads.Events.{
  Event, AllResumesStartable, handle, after_promotion, run_events, can_start, ResumesStartable,
  adds, adds_url, pauses, resumes, removes, informs, moves, fails, refuses, attaches, publishes,
  applies, shuts, promotes, rechecks,
}
use tortui.Engine.Downloads.{
  Engine, failed_tracked, resume, Error, Torrent, Tracked, pause_for_shutdown, promote_one, remove,
  find, untrack, move_in_queue, Start, fail, refuse,
}
use tortui.Engine.Downloads.Intake.{
  apply_policy, claim_fetched, informed, published, claim_info_hash, taken, left_elsewhere, free,
  publish, Claim, after_claim,
}
use tortui.Base.{
  Text, Bool, ℕ, ◌≡◌, ◌≤◌, arith, some, true, ◌⊎◌, Option-cases, inl, inr, Bool-cases, List, Option,
  refl, ◌∷◌, [], none,
}
use tortui.Engine.{SeedPolicy}
use tortui.Engine.Downloads.Space.{space_paused_tracked}
use tortui.Engine.Downloads.Space.Pauses.{recheck-kept}

pub slot-failed : (err : Error) (tr : Tracked) → slot (failed_tracked err tr) ≤ slot tr
unfolding failed_tracked
slot-failed err tr = ground arith

slot-informed : (tr : Tracked) → slot (informed tr) ≤ slot tr
unfolding informed
slot-informed tr = ground arith

slot-apply_policy :
    (seed : SeedPolicy) (now : ℕ) (tr : Tracked) → slot (apply_policy seed now tr) ≤ slot tr
unfolding apply_policy
slot-apply_policy seed now tr = ground arith

slot-space_paused : (tr : Tracked) → slot (space_paused_tracked tr) ≤ slot tr
unfolding space_paused_tracked
slot-space_paused tr = ground arith

slot-published : (t : Torrent) (held : Bool) (tr : Tracked) → slot (published t held tr) ≤ slot tr
unfolding published
slot-published t held tr = ground arith

after_claim-Fits : (e : Engine) (c : Claim) → Fits e → Fits (after_claim e c).0
after_claim-Fits e (taken other) h = h
after_claim-Fits e (left_elsewhere path name) h = h
after_claim-Fits e (free stale) h = untrack_all-Fits stale e h

after_promotion-Fits :
    (e : Engine) (o : (Unit {0}) ⊎ Option (Engine × Text × Start))
    → promote_one e ≡ o
    → Fits e
    → Fits (after_promotion e o)
after_promotion-Fits e (inl _) q h = h
after_promotion-Fits e (inr none) q h = h
after_promotion-Fits e (inr (some (e', id, start))) q h = promote_one-Fits e e' id start h q

resumed-Fits :
    (id : Text) (e : Engine) → can_start (find id e.torrents) ≡ true → Fits e → Fits (resume id e).0
unfolding resume
resumed-Fits id e start h = elim (Option-cases (find id e.torrents)) [
  | inl f ↦ ground arith
  | inr (tr, f) ↦ elim (Bool-cases tr.paused) [
    | inl p ↦ resume-Fits id e tr f (ground arith) h
    | inr p ↦ ground arith
  ]
]

handle-Fits : (ev : Event) (e : Engine) → ResumesStartable ev e → Fits e → Fits (handle ev e)
unfolding handle pause_for_shutdown remove untrack move_in_queue fail refuse publish claim_fetched
handle-Fits (adds hex id dest prov view) e r h = find_or_track-Fits hex id dest prov view e h
handle-Fits (adds_url id dest url prov) e r h = track-Fits id dest url prov e h
handle-Fits (pauses id) e r h = pause-Fits id e h
handle-Fits (resumes id) e r h = resumed-Fits id e r h
handle-Fits (removes id) e r h = ground (arith, active-forget-le id e.torrents)
handle-Fits (informs id) e r h = omega (arith, active-amend-le id informed e.torrents slot-informed)
handle-Fits shuts e r h = ground (arith, pause_each-Fits e.torrents e h)
handle-Fits promotes e r h = after_promotion-Fits e (promote_one e) refl h
handle-Fits (moves id position) e r h = ground arith
handle-Fits (fails id err) e r h =
    omega (arith, active-amend-le id (failed_tracked err) e.torrents (slot-failed err))
handle-Fits (refuses id err left) e r h = omega (
  arith,
  active-amend-le id (λ tr. record (failed_tracked err tr) { refused = true; left_name = left })
      e.torrents (slot-failed err),
)
handle-Fits (attaches hex id view) e r h =
    after_claim-Fits e (claim_info_hash hex (some id) view e.torrents) h
handle-Fits (publishes id t held) e r h =
    ground (arith, active-amend-le id (published t held) e.torrents (slot-published t held))
handle-Fits (applies now id) e r h =
    omega (
      arith,
      active-amend-le id (apply_policy e.seed now) e.torrents (slot-apply_policy e.seed now),
    )
handle-Fits (rechecks disk margin ws) e r h =
    recheck-kept Fits
      (λ id x k.
        omega (arith, active-amend-le id space_paused_tracked x.torrents slot-space_paused))
      disk margin ws e h

-- Whatever sequence of adds, fetches, pauses, resumes, removals, failures, refusals, queue moves,
-- promotions, policy ticks and free-space checks runs, the torrents that check or download stay at
-- most max_active, when they are at the start and each torrent that is resumed is one that the
-- queue can start.
pub run_events-Fits :
    (evs : List Event) (e : Engine) → AllResumesStartable evs e → Fits e → Fits (run_events evs e)
unfolding AllResumesStartable run_events
run_events-Fits [] e r h = h
run_events-Fits (ev ∷ evs) e r h = run_events-Fits evs (handle ev e) r.1 (handle-Fits ev e r.0 h)
