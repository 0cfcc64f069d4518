-- ===== src/Engine/Downloads/Promotion.antt =====
-- internal/engine/anacrolix: what each operation does to the queue's ids.
use tortui.Engine.Downloads.Queue.{
  IsQueue, known-forget, known-amend, known-remove_first, Distinct-remove_first, removed_first,
  known-append, enqueue-IsQueue, found-append, found-amend,
}
use tortui.Engine.Downloads.{
  Engine, Tracked, pause_each, pause_locked, settled, untrack, paused_tracked, amend, find,
  remove_first, enqueue, active, gate, resume, closed_engine, startable, is_queued, resumed_tracked,
  wants_slot,
}
use tortui.Base.{
  Text, ◌++◌, List, is_some, ◌≡◌, arith, ◌∷◌, Bool-cases, [], subst, true, inl, not, ◌&&◌, inr,
  refl, leb, none, text_eqb_iff, some, Bool, Option-cases, if◌then◌else◌, false, ◌||◌, ltb,
}
use tortui.Engine.Downloads.Intake.{
  begun, find_or_track, take_claim, track, untrack_all, Claim, Provenance, new_tracked, LeftView,
  add_new, after_claim, taken, left_elsewhere, free, claim_info_hash, not_added,
}
use tortui.Engine.{queued}
use tortui.Engine.Downloads.Slots.{resumed_id}

pub if-IsQueue :
    {A : Type 0} (b : Bool) (x y : Engine × A)
    → IsQueue x.0
    → IsQueue y.0
    → IsQueue (if b then x else y).0
if-IsQueue true x y hx hy = hx
if-IsQueue false x y hx hy = hy

pub untrack-IsQueue : (id : Text) (e : Engine) → IsQueue e → IsQueue (untrack id e)
unfolding untrack
untrack-IsQueue id e h = (
  known-forget id e.torrents (remove_first id e.queue)
      (known-remove_first e.torrents id e.queue h.0) (removed_first id e.queue h.1),
  Distinct-remove_first id e.queue h.1,
)

pub untrack_all-IsQueue : (ids : List Text) (e : Engine) → IsQueue e → IsQueue (untrack_all ids e)
unfolding untrack_all
untrack_all-IsQueue [] e h = h
untrack_all-IsQueue (id ∷ ids) e h = untrack_all-IsQueue ids (untrack id e) (untrack-IsQueue id e h)

pub amend-IsQueue :
    (id : Text) (f : Tracked → Tracked) (e : Engine)
    → ((tr : Tracked) → (f tr).id ≡ tr.id)
    → IsQueue e
    → IsQueue (record e { torrents = amend id f e.torrents })
amend-IsQueue id f e i h = (ground (arith, known-amend id f e.torrents e.queue i), h.1)

-- A new entry, and its id in the queue.
pub grown-IsQueue :
    (tr : Tracked) (e : Engine)
    → IsQueue e
    → IsQueue (record e { torrents = e.torrents ++ tr ∷ [] })
      × IsQueue (record e { torrents = e.torrents ++ tr ∷ []; queue = enqueue tr.id e.queue })
grown-IsQueue tr e h =
    let k = known-append e.torrents tr e.queue h.0 in
    (
      (k, h.1),
      enqueue-IsQueue (e.torrents ++ tr ∷ []) tr.id e.queue k h.1
          (ground (arith, found-append e.torrents tr tr.id, text_eqb_iff tr.id tr.id)),
    )

pub begun_id : (id dest : Text) (prov : Provenance) → (begun (new_tracked id dest prov)).id ≡ id
unfolding begun new_tracked
begun_id id dest prov = ground arith

pub add_new-IsQueue :
    (hex id : Text) (tr : Tracked) (e : Engine)
    → tr.id ≡ id
    → IsQueue e
    → IsQueue (add_new hex id tr e).0
add_new-IsQueue hex id tr e i h =
    subst (λ x. IsQueue (add_new hex x tr e).0) i
      (elim (Bool-cases (not tr.paused && leb e.max_active (active e.torrents))) [
        | inl b ↦
            rw b
              (grown-IsQueue (record tr { info_hash = hex; state = queued; spec = some hex }) e h).1
        | inr b ↦ rw b (grown-IsQueue (record tr { info_hash = hex }) e h).0
      ])

pub take_claim-IsQueue :
    (hex id dest : Text) (prov : Provenance) (e : Engine) (c : Claim)
    → IsQueue e
    → IsQueue (take_claim hex id dest prov e c).0
unfolding take_claim
take_claim-IsQueue hex id dest prov e (taken other) h = h
take_claim-IsQueue hex id dest prov e (left_elsewhere path name) h = h
take_claim-IsQueue hex id dest prov e (free stale) h =
    add_new-IsQueue hex id (begun (new_tracked id dest prov)) (untrack_all stale e)
      (begun_id id dest prov) (untrack_all-IsQueue stale e h)

pub find_or_track-IsQueue :
    (hex id dest : Text) (prov : Provenance) (view : LeftView) (e : Engine)
    → IsQueue e
    → IsQueue (find_or_track hex id dest prov view e).0
unfolding find_or_track
find_or_track-IsQueue hex id dest prov view e h =
    if-IsQueue e.closed (e, not_added closed_engine) _ h
      (take_claim-IsQueue hex id dest prov e (claim_info_hash hex none view e.torrents) h)

pub track-IsQueue :
    (id dest url : Text) (prov : Provenance) (e : Engine)
    → IsQueue e
    → IsQueue (track id dest url prov e).0
unfolding track
track-IsQueue id dest url prov e h =
    let tr = begun (new_tracked id dest prov) in
    let joined : IsQueue (record e {
      torrents = e.torrents ++ record tr { state = queued; url = url } ∷ [];
      queue = enqueue id e.queue;
    }) =
      subst
        (λ x. IsQueue (record e {
          torrents = e.torrents ++ record tr { state = queued; url = url } ∷ [];
          queue = enqueue x e.queue;
        }))
        (begun_id id dest prov) (grown-IsQueue (record tr { state = queued; url = url }) e h).1 in
    if-IsQueue e.closed (e, not_added closed_engine) _ h
      (if-IsQueue _ _ _ joined (grown-IsQueue tr e h).0)

pub after_claim-IsQueue : (e : Engine) (c : Claim) → IsQueue e → IsQueue (after_claim e c).0
after_claim-IsQueue e (taken other) h = h
after_claim-IsQueue e (left_elsewhere path name) h = h
after_claim-IsQueue e (free stale) h = untrack_all-IsQueue stale e h

pub pause_locked-IsQueue : (id : Text) (e : Engine) → IsQueue e → IsQueue (pause_locked id e)
unfolding pause_locked paused_tracked
pause_locked-IsQueue id e h =
    amend-IsQueue id paused_tracked (record e { queue = remove_first id e.queue }) (λ tr. refl)
      (known-remove_first e.torrents id e.queue h.0, Distinct-remove_first id e.queue h.1)

pub pause_each-IsQueue : (trs : List Tracked) (e : Engine) → IsQueue e → IsQueue (pause_each trs e)
unfolding pause_each
pause_each-IsQueue [] e h = h
pause_each-IsQueue (tr ∷ trs) e h = elim (Bool-cases tr.paused) [
  | inl b ↦ rw b (pause_each-IsQueue trs e h)
  | inr b ↦ rw b (pause_each-IsQueue trs (pause_locked tr.id e) (pause_locked-IsQueue tr.id e h))
]

pub settled-IsQueue :
    (id : Text) (r : Tracked) (e : Engine)
    → is_some (find id e.torrents) ≡ true
    → IsQueue e
    → IsQueue (settled id r e)
unfolding settled
settled-IsQueue id r e f h =
    let q = λ (x : Tracked). record x { state = queued } in
    let g = λ (x : Tracked). record x { t = gate true x.t } in
    let asked =
      startable r
      && (is_queued r.state || (wants_slot r.state && ltb e.max_active (active e.torrents))) in
    elim (Bool-cases asked) [
      | inl b ↦ rw b (
          enqueue-IsQueue (amend id q e.torrents) id e.queue
            (ground (arith, known-amend id q e.torrents e.queue (λ tr. refl))) h.1
            (ground (arith, found-amend id q id e.torrents (λ tr. refl))))
      | inr b ↦ rw b (amend-IsQueue id g e (λ tr. refl) h)
    ]

pub resume-IsQueue : (id : Text) (e : Engine) → IsQueue e → IsQueue (resume id e).0
unfolding resume
resume-IsQueue id e h = elim (Option-cases (find id e.torrents)) [
  | inl f ↦ rw f (if-IsQueue e.closed _ _ h h)
  | inr (tr, f) ↦
      let rest : IsQueue (record e { torrents = amend id resumed_tracked e.torrents }) =
        amend-IsQueue id resumed_tracked e resumed_id h in
      rw f (
        if-IsQueue e.closed _ _ h (
          if-IsQueue (not tr.paused) _ _ h (
            settled-IsQueue id (resumed_tracked tr) _
              (ground (arith, found-amend id resumed_tracked id e.torrents resumed_id)) rest)))
]
