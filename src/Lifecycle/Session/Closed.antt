-- ===== src/Lifecycle/Session/Closed.antt =====
-- internal/lifecycle/session.go: a session that has been closed.
use tortui.Base.{List, Text, ℕ, Option, ◌≡◌, ◌∷◌, true, Bool-cases, ◌∙◌, [], inl, refl, inr}
use tortui.Lifecycle.Session.{
  close_session, save, seal_now, Session, set_session_torrent, ResumeData, TorrentRecord,
}

-- A section of Session.mu, with what the engine answers in it, or a seal.
pub data SessionEvent : Type 0 where
  saves closes :
      (Text → Text) → ℕ → (Text → Option ResumeData) → List Text → List Text → SessionEvent
  sets : TorrentRecord → SessionEvent
  seals : SessionEvent

unfoldable pub handle_session : SessionEvent → Session → Session
unfolding save close_session set_session_torrent seal_now
handle_session (saves f now answers ids later) s = save f now answers ids later s
handle_session (closes f now answers ids later) s = close_session f now answers ids later s
handle_session (sets rec) s = (set_session_torrent rec s).0
handle_session seals s = seal_now s

unfoldable pub run_session : List SessionEvent → Session → Session
unfolding handle_session
run_session [] s = s
run_session (ev ∷ evs) s = run_session evs (handle_session ev s)

closed-kept :
    (ev : SessionEvent) (s : Session)
    → s.closed ≡ true
    → ((handle_session ev s).closed ≡ true) × ((handle_session ev s).store ≡ s.store)
unfolding handle_session save close_session set_session_torrent seal_now
closed-kept (saves f now answers ids later) s h = simp h (refl, refl)
closed-kept (closes f now answers ids later) s h = simp h (refl, refl)
closed-kept (sets rec) s h = rw (handle_session, set_session_torrent, h) (refl, refl)
closed-kept seals s h = (refl, refl)

run_session-closed :
    (evs : List SessionEvent) (s : Session) → s.closed ≡ true → (run_session evs s).store ≡ s.store
unfolding run_session
run_session-closed [] s h = refl
run_session-closed (ev ∷ evs) s h =
    let (still, same) = closed-kept ev s h in
    run_session-closed evs (handle_session ev s) still ∙ same

ends :
    (f : Text → Text) (now : ℕ) (answers : Text → Option ResumeData) (ids later : List Text)
    (s : Session)
    → (close_session f now answers ids later s).closed ≡ true
unfolding close_session
ends f now answers ids later s = elim (Bool-cases s.closed) [
  | inl q ↦ simp q refl
  | inr q ↦ simp q refl
]

-- Once a session is closed, or sealed because its close hung, no save, no record and no other close
-- touches its store: Shutdown may then close the store and the engine.
pub run_session-ended :
    (f : Text → Text) (now : ℕ) (answers : Text → Option ResumeData) (ids later : List Text)
    (evs : List SessionEvent) (s : Session)
    → let ended = close_session f now answers ids later s in
      ((run_session evs ended).store ≡ ended.store)
      × ((run_session evs (seal_now s)).store ≡ s.store)
unfolding seal_now
run_session-ended f now answers ids later evs s = (
  run_session-closed evs (close_session f now answers ids later s) (ends f now answers ids later s),
  run_session-closed evs (record s { closed = true }) refl,
)
