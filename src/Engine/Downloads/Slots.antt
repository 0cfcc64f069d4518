-- ===== src/Engine/Downloads/Slots.antt =====
-- internal/engine/anacrolix: what each operation does to the count of torrents that hold a slot.
use tortui.Engine.Downloads.{
  Engine, Tracked, active, find, pause_locked, amend, forget, paused_tracked, untrack, holds_slot,
  pause, pause_each, resume, resumed_tracked, startable, promote_one, settled, Start, gate,
  promoted,
}
use tortui.Base.{
  Text, List, ℕ, ◌≤◌, ◌++◌, Option-cases, arith, if◌then◌else◌, ◌≡◌, ◌∷◌, [], inl, none, some, ◌+◌,
  inr, refl, Bool-cases, ◌==◌, subst, text_eq, true, false, ◌⊎◌,
}
use tortui.Engine.Downloads.Intake.{
  find_or_track, track, untrack_all, Provenance, LeftView, begun, new_tracked, Claim, add_new,
  taken, left_elsewhere, free, claim_info_hash, take_claim,
}
use tortui.Engine.{queued}

abbrev pub slot : Tracked → ℕ
slot tr = if holds_slot tr then 1 else 0

active-amend :
    (id : Text) (f : Tracked → Tracked) (trs : List Tracked) (tr : Tracked)
    → find id trs ≡ some tr
    → active (amend id f trs) + slot tr ≡ active trs + slot (f tr)
unfolding find amend active
active-amend id f [] tr e = cc
active-amend id f (x ∷ trs) tr e = elim (Bool-cases (x.id == id)) [
  | inl q ↦
      let same : x ≡ tr = ground arith in
      subst (λ y. active (amend id f (x ∷ trs)) + slot y ≡ active (x ∷ trs) + slot (f y)) same
        (rw q (ground arith))
  | inr q ↦ rw q (ground (arith, active-amend id f trs tr))
]

amend_missing :
    (id : Text) (f : Tracked → Tracked) (trs : List Tracked)
    → find id trs ≡ none
    → amend id f trs ≡ trs
unfolding find amend
amend_missing id f [] e = refl
amend_missing id f (x ∷ trs) e = ground (arith, amend_missing id f trs)

pub active-amend-le :
    (id : Text) (f : Tracked → Tracked) (trs : List Tracked)
    → ((tr : Tracked) → slot (f tr) ≤ slot tr)
    → active (amend id f trs) ≤ active trs
active-amend-le id f trs h = elim (Option-cases (find id trs)) [
  | inl e ↦ rw (amend_missing id f trs e) (omega arith)
  | inr (tr, e) ↦ omega (arith, active-amend id f trs tr e, h tr)
]

active-append : (trs : List Tracked) (tr : Tracked) → active (trs ++ tr ∷ []) ≡ active trs + slot tr
unfolding active
active-append [] tr = ground arith
active-append (x ∷ trs) tr = ground (arith, active-append trs tr)

pub active-forget-le : (id : Text) (trs : List Tracked) → active (forget id trs) ≤ active trs
unfolding active forget
active-forget-le id [] = omega arith
active-forget-le id (x ∷ trs) = ground (arith, active-forget-le id trs)

abbrev pub Fits : Engine → Type 0
Fits e = active e.torrents ≤ e.max_active

pub untrack_all-Fits : (ids : List Text) (e : Engine) → Fits e → Fits (untrack_all ids e)
unfolding untrack_all untrack
untrack_all-Fits [] e h = h
untrack_all-Fits (id ∷ ids) e h =
    untrack_all-Fits ids (untrack id e) (omega (arith, active-forget-le id e.torrents))

add_new-Fits : (hex id : Text) (tr : Tracked) (e : Engine) → Fits e → Fits (add_new hex id tr e).0
add_new-Fits hex id tr e h = ground (
  arith,
  active-append e.torrents (record tr { info_hash = hex }),
  active-append e.torrents (record tr { info_hash = hex; state = queued; spec = some hex }),
)

take_claim-Fits :
    (hex id dest : Text) (prov : Provenance) (e : Engine) (c : Claim)
    → Fits e
    → Fits (take_claim hex id dest prov e c).0
unfolding take_claim
take_claim-Fits hex id dest prov e (taken other) h = h
take_claim-Fits hex id dest prov e (left_elsewhere path name) h = h
take_claim-Fits hex id dest prov e (free stale) h =
    add_new-Fits hex id (begun (new_tracked id dest prov)) (untrack_all stale e)
      (untrack_all-Fits stale e h)

pub find_or_track-Fits :
    (hex id dest : Text) (prov : Provenance) (view : LeftView) (e : Engine)
    → Fits e
    → Fits (find_or_track hex id dest prov view e).0
unfolding find_or_track
find_or_track-Fits hex id dest prov view e h =
    let c = claim_info_hash hex none view e.torrents in
    ground (arith, take_claim-Fits hex id dest prov e c)

pub track-Fits :
    (id dest raw_url : Text) (prov : Provenance) (e : Engine)
    → Fits e
    → Fits (track id dest raw_url prov e).0
unfolding track
track-Fits id dest raw_url prov e h = ground (
  arith,
  active-append e.torrents (begun (new_tracked id dest prov)),
  active-append e.torrents
      (record (begun (new_tracked id dest prov)) { state = queued; url = raw_url }),
)

pause_locked-Fits : (id : Text) (e : Engine) → Fits e → Fits (pause_locked id e)
unfolding pause_locked paused_tracked
pause_locked-Fits id e h =
    omega (arith, active-amend-le id paused_tracked e.torrents (λ tr. ground arith))

max_active-pause_locked : (id : Text) (e : Engine) → (pause_locked id e).max_active ≡ e.max_active
unfolding pause_locked
max_active-pause_locked id e = refl

pub pause-Fits : (id : Text) (e : Engine) → Fits e → Fits (pause id e).0
unfolding pause
pause-Fits id e h =
    let held = pause_locked-Fits id e h in
    let marked =
      active-amend-le id (λ x. record x { user_paused = true }) (pause_locked id e).torrents
        (λ tr. omega arith) in
    ground (arith, max_active-pause_locked id e)

pub pause_each-Fits : (trs : List Tracked) (e : Engine) → Fits e → Fits (pause_each trs e)
unfolding pause_each
pause_each-Fits [] e h = h
pause_each-Fits (tr ∷ trs) e h = pause_each-Fits trs _ (ground (arith, pause_locked-Fits tr.id e h))

pub resumed_id : (tr : Tracked) → (resumed_tracked tr).id ≡ tr.id
unfolding resumed_tracked
resumed_id tr = ground arith

pub find-amend :
    (id : Text) (f : Tracked → Tracked) (trs : List Tracked) (tr : Tracked)
    → find id trs ≡ some tr
    → (f tr).id ≡ tr.id
    → find id (amend id f trs) ≡ some (f tr)
unfolding find amend
find-amend id f [] tr e h = cc
find-amend id f (x ∷ trs) tr e h = ground (arith, find-amend id f trs tr)

settled-Fits :
    (id : Text) (r : Tracked) (e : Engine)
    → find id e.torrents ≡ some r
    → startable r ≡ true
    → active e.torrents ≤ e.max_active + slot r
    → r.paused ≡ false
    → Fits (settled id r e)
unfolding settled
settled-Fits id r e found start h live = ground (
  arith,
  active-amend id (λ x. record x { state = queued }) e.torrents r found,
  active-amend id (λ x. record x { t = gate true x.t }) e.torrents r found,
)

resumed_paused : (tr : Tracked) → (resumed_tracked tr).paused ≡ false
unfolding resumed_tracked
resumed_paused tr = ground arith

-- A paused torrent that the queue can start does not take a slot beyond the bound: if none is
-- free it waits.
pub resume-Fits :
    (id : Text) (e : Engine) (tr : Tracked)
    → find id e.torrents ≡ some tr
    → startable (resumed_tracked tr) ≡ true
    → Fits e
    → Fits (resume id e).0
unfolding resume
resume-Fits id e tr found start h =
    let r = resumed_tracked tr in
    let e' : Engine = record e { torrents = amend id resumed_tracked e.torrents } in
    elim (Bool-cases tr.paused) [
      | inl p ↦
          let rest : Fits (settled id r e') =
            settled-Fits id r e' (find-amend id resumed_tracked e.torrents tr found (resumed_id tr))
              start (ground (arith, active-amend id resumed_tracked e.torrents tr found))
              (resumed_paused tr) in
          rw (found, resume) (ground arith)
      | inr p ↦ rw (found, resume) (ground arith)
    ]

slot-le : (tr : Tracked) → slot tr ≤ 1
slot-le tr = ground arith

pub List-cases :
    {A : Type 0} (xs : List A) → (xs ≡ []) ⊎ ((x : A) × (rest : List A) × (xs ≡ x ∷ rest))
List-cases [] = inl refl
List-cases (x ∷ xs) = inr (x, xs, refl)

pub promote_one-Fits :
    (e : Engine) (e' : Engine) (id : Text) (start : Start)
    → Fits e
    → promote_one e ≡ inr (some (e', id, start))
    → Fits e'
unfolding promote_one
promote_one-Fits e e' id start h q = elim (List-cases e.queue) [
  | inl eq ↦ ground arith
  | inr (i, rest, eq) ↦ elim (Option-cases (find i e.torrents)) [
    | inl f ↦ ground arith
    | inr (tr, f) ↦
        ground
          (arith, active-amend i (λ x. (promoted x).0) e.torrents tr f, slot-le ((promoted tr).0))
  ]
]
