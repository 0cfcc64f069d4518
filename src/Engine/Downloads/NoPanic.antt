-- ===== src/Engine/Downloads/NoPanic.antt =====
-- internal/engine/anacrolix/policy.go: promoteOneLocked dereferences e.torrents[id] without a
-- test, which panics on an id that is not tracked.
use tortui.Engine.Downloads.Queue.{
  IsQueue, insert_at-IsQueue, known-remove_first, Distinct-remove_first, removed_first, known,
}
use tortui.Base.{
  List, Text, Bool, Option-cases, ℕ, ℤ, ◌≡◌, ◌⊎◌, ◌∷◌, Option, [], arith, inr, refl, inl, none,
  some, contains, true, subst, min, sym, pos_part, length, text_eq, Bool-cases, Distinct,
}
use tortui.Engine.Downloads.Intake.{
  apply_policy, informed, published, publish, claim_fetched, claim_info_hash,
}
use tortui.Engine.Downloads.{
  failed_tracked, move_in_queue, pause, promote_one, promoted, remove, Engine, Error, Torrent,
  Tracked, pause_for_shutdown, fail, find, refuse, Start, remove_first, amend, pause_locked,
  closed_engine,
}
use tortui.Engine.Downloads.Events.{
  handle, run_events, Event, after_promotion, adds, adds_url, pauses, resumes, removes, informs,
  moves, fails, refuses, attaches, publishes, applies, shuts, promotes, rechecks,
}
use tortui.Engine.{SeedPolicy}
use tortui.Engine.Downloads.Slots.{List-cases}
use tortui.Engine.Downloads.Promotion.{
  if-IsQueue, amend-IsQueue, untrack-IsQueue, find_or_track-IsQueue, pause_locked-IsQueue,
  track-IsQueue, resume-IsQueue, pause_each-IsQueue, after_claim-IsQueue,
}
use tortui.Engine.Downloads.Space.{space_paused_tracked}
use tortui.Engine.Downloads.Space.Pauses.{recheck-kept}

move-IsQueue :
    (id : Text) (position : ℤ) (e : Engine) → IsQueue e → IsQueue (move_in_queue id position e).0
unfolding move_in_queue
move-IsQueue id position e h = elim (Option-cases (find id e.torrents)) [
  | inl f ↦ rw f (if-IsQueue e.closed _ _ h h)
  | inr (tr, f) ↦
      let rest = remove_first id e.queue in
      rw f (
        if-IsQueue e.closed _ _ h (
          if-IsQueue (contains e.queue id) _ _
            (insert_at-IsQueue e.torrents (min (pos_part position) (length rest)) id rest
              (known-remove_first e.torrents id e.queue h.0) (Distinct-remove_first id e.queue h.1)
              (ground arith) (removed_first id e.queue h.1))
            h))
]

remove-IsQueue : (id : Text) (e : Engine) → IsQueue e → IsQueue (remove id e).0
unfolding remove
remove-IsQueue id e h = elim (Option-cases (find id e.torrents)) [
  | inl f ↦ rw f (if-IsQueue e.closed _ _ h h)
  | inr (tr, f) ↦ rw f (if-IsQueue e.closed _ _ h (untrack-IsQueue id e h))
]

pause-IsQueue : (id : Text) (e : Engine) → IsQueue e → IsQueue (pause id e).0
unfolding pause
pause-IsQueue id e h = elim (Option-cases (find id e.torrents)) [
  | inl f ↦ rw f (if-IsQueue e.closed _ _ h h)
  | inr (tr, f) ↦
      let p = pause_locked id e in
      let mark = λ (x : Tracked). record x { user_paused = true } in
      let m : Engine = record p { torrents = amend id mark p.torrents } in
      rw f (
        if-IsQueue e.closed (e, some closed_engine) _ h
          (if-IsQueue tr.paused (e, none) (m, none) h
            (amend-IsQueue id mark p (λ x. refl) (pause_locked-IsQueue id e h))))
]

pub failed_id : (err : Error) (tr : Tracked) → (failed_tracked err tr).id ≡ tr.id
unfolding failed_tracked
failed_id err tr = ground arith

pub policy_id : (seed : SeedPolicy) (now : ℕ) (tr : Tracked) → (apply_policy seed now tr).id ≡ tr.id
unfolding apply_policy
policy_id seed now tr = ground arith

pub informed_id : (tr : Tracked) → (informed tr).id ≡ tr.id
unfolding informed
informed_id tr = refl

pub published_id : (t : Torrent) (held : Bool) (tr : Tracked) → (published t held tr).id ≡ tr.id
unfolding published
published_id t held tr = refl

pub promoted_id : (tr : Tracked) → (promoted tr).0.id ≡ tr.id
unfolding promoted
promoted_id tr = ground arith

-- A promotion that changes the engine takes the first queued id away and starts its torrent.
promoted-IsQueue :
    (e : Engine) (o : (Unit {0}) ⊎ Option (Engine × Text × Start))
    → promote_one e ≡ o
    → IsQueue e
    → IsQueue (after_promotion e o)
unfolding promote_one known
promoted-IsQueue e (inl _) q h = h
promoted-IsQueue e (inr none) q h = h
promoted-IsQueue e (inr (some (e', id, start))) q h = elim (List-cases e.queue) [
  | inl eq ↦ ground arith
  | inr (i, rest, eq) ↦
      let k : known e.torrents (i ∷ rest) ≡ true = subst (λ w. known e.torrents w ≡ true) eq h.0 in
      let d : Distinct (i ∷ rest) = subst Distinct eq h.1 in
      let shorter : IsQueue (record e { queue = rest }) = (ground arith, d.1) in
      let step : IsQueue
          (record e { queue = rest; torrents = amend i (λ x. (promoted x).0) e.torrents }) =
        amend-IsQueue i (λ x. (promoted x).0) (record e { queue = rest }) promoted_id shorter in
      let same : e'
          ≡ record e { queue = rest; torrents = amend i (λ x. (promoted x).0) e.torrents } =
        ground arith in
      subst IsQueue (sym same) step
]

space_paused_id : (tr : Tracked) → (space_paused_tracked tr).id ≡ tr.id
unfolding space_paused_tracked
space_paused_id tr = refl

handle-IsQueue : (ev : Event) (e : Engine) → IsQueue e → IsQueue (handle ev e)
unfolding handle pause_for_shutdown fail refuse publish claim_fetched
handle-IsQueue (adds hex id dest prov view) e h = find_or_track-IsQueue hex id dest prov view e h
handle-IsQueue (adds_url id dest url prov) e h = track-IsQueue id dest url prov e h
handle-IsQueue (pauses id) e h = pause-IsQueue id e h
handle-IsQueue (resumes id) e h = resume-IsQueue id e h
handle-IsQueue (removes id) e h = remove-IsQueue id e h
handle-IsQueue (informs id) e h = amend-IsQueue id informed e informed_id h
handle-IsQueue shuts e h = if-IsQueue e.closed _ _ h (pause_each-IsQueue e.torrents e h)
handle-IsQueue promotes e h = promoted-IsQueue e (promote_one e) refl h
handle-IsQueue (moves id position) e h = move-IsQueue id position e h
handle-IsQueue (fails id err) e h = amend-IsQueue id (failed_tracked err) e (failed_id err) h
handle-IsQueue (refuses id err left) e h =
    amend-IsQueue id (λ tr. record (failed_tracked err tr) { refused = true; left_name = left }) e
      (failed_id err) h
handle-IsQueue (attaches hex id view) e h =
    after_claim-IsQueue e (claim_info_hash hex (some id) view e.torrents) h
handle-IsQueue (publishes id t held) e h = elim (Bool-cases e.closed) [
  | inl b ↦ ground arith
  | inr b ↦ ground (arith, amend-IsQueue id (published t held) e (published_id t held) h)
]
handle-IsQueue (applies now id) e h =
    amend-IsQueue id (apply_policy e.seed now) e (policy_id e.seed now) h
handle-IsQueue (rechecks disk margin ws) e h =
    recheck-kept IsQueue (λ id x k. amend-IsQueue id space_paused_tracked x space_paused_id k) disk
      margin ws e h

run_events-IsQueue : (evs : List Event) (e : Engine) → IsQueue e → IsQueue (run_events evs e)
unfolding run_events
run_events-IsQueue [] e h = h
run_events-IsQueue (ev ∷ evs) e h = run_events-IsQueue evs (handle ev e) (handle-IsQueue ev e h)

promote_one-queue : (e : Engine) → IsQueue e → ¬ (promote_one e ≡ inr none)
unfolding promote_one known
promote_one-queue e h q = elim (List-cases e.queue) [
  | inl eq ↦ ground arith
  | inr (i, rest, eq) ↦
      let k : known e.torrents (i ∷ rest) ≡ true = subst (λ w. known e.torrents w ≡ true) eq h.0 in
      ground arith
]

-- Whatever sequence of events runs from an engine that tracks every id of its queue, once each, a
-- promotion then does not panic.
pub promote_one-total :
    (evs : List Event) (e : Engine) → IsQueue e → ¬ (promote_one (run_events evs e) ≡ inr none)
promote_one-total evs e h = promote_one-queue (run_events evs e) (run_events-IsQueue evs e h)
