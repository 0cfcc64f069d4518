-- ===== src/Engine/Downloads/Refusal.antt =====
-- internal/engine/anacrolix: a torrent that is refused while it waits in the queue.
use tortui.Engine.Downloads.{
  find, promote_one, refuse, Engine, promoted, failed_tracked, Tracked, Torrent, Error, active,
  amend, holds_slot,
}
use tortui.Base.{Text, List, ◌≡◌, false, ◌∷◌, some, ltb, true, inr, arith}
use tortui.Engine.{queued}
use tortui.Engine.Downloads.Events.{after_promotion}
use tortui.Engine.Downloads.Slots.{find-amend, active-amend-le}
use tortui.Engine.Downloads.NoPanic.{failed_id, promoted_id}
use tortui.Engine.Downloads.Bound.{slot-failed}

promote_one-first :
    (e : Engine) (id : Text) (rest : List Text) (tr : Tracked)
    → e.closed ≡ false
    → e.queue ≡ id ∷ rest
    → find id e.torrents ≡ some tr
    → ltb (active e.torrents) e.max_active ≡ true
    → promote_one e
      ≡ inr (
          some (
            record e { queue = rest; torrents = amend id (λ x. (promoted x).0) e.torrents },
            id,
            (promoted tr).1,
          ))
unfolding promote_one
promote_one-first e id rest tr up next found free = ground arith

-- A torrent that waits in the queue attached (resumed before its info dictionary arrived), next to
-- start, and is refused there (its metadata timed out) stays in the queue: the next promotion,
-- with a slot free, gives it a slot again, with its error and its refusal kept.
pub promotes_refused :
    (e : Engine) (id left : Text) (rest : List Text) (tr : Tracked) (t : Torrent) (err : Error)
    → e.closed ≡ false
    → e.queue ≡ id ∷ rest
    → find id e.torrents ≡ some tr
    → tr.state ≡ queued
    → tr.paused ≡ false
    → tr.t ≡ some t
    → ltb (active e.torrents) e.max_active ≡ true
    → let e' = after_promotion (refuse id err left e) (promote_one (refuse id err left e)) in
      (r : Tracked) × (find id e'.torrents ≡ some r)
      × (holds_slot r ≡ true)
      × (r.err ≡ some err)
      × (r.refused ≡ true)
unfolding refuse promoted failed_tracked
promotes_refused e id left rest tr t err up next found waits live attached free =
    let f = λ (x : Tracked). record (failed_tracked err x) { refused = true; left_name = left } in
    let g = λ (x : Tracked). (promoted x).0 in
    let once = find-amend id f e.torrents tr found (failed_id err tr) in
    let twice = find-amend id g (amend id f e.torrents) (f tr) once (promoted_id (f tr)) in
    let fewer = active-amend-le id f e.torrents (slot-failed err) in
    let steps =
      promote_one-first (refuse id err left e) id rest (f tr) up next once (ground arith) in
    rw steps (g (f tr), twice, ground arith, ground arith, ground arith)
