-- ===== src/Engine/Downloads/Space/Pauses.antt =====
-- internal/engine/anacrolix/policy.go: what recheckSpace may do to the engine, pause by pause.
use tortui.Base.{Text, Map, ℕ, List, empty_map, ◌∷◌, insert, [], text_eq}
use tortui.Engine.Downloads.{Engine, amend, find}
use tortui.Engine.Downloads.Space.{
  recheck, recheck_from, Disk, space_paused_tracked, Writer, SharedNeed, free_space, Verdict,
  skipped, add_need, at_filesystem, counted, verdict, stopped,
}

abbrev pub space_paused : Text → Engine → Engine
space_paused id e = record e { torrents = amend id space_paused_tracked e.torrents }

Verdict-case :
    (P : Engine → Type 0) (v : Verdict) {a b c : Engine}
    → P a
    → P b
    → P c
    → P (elim v [ skipped ↦ a | counted ↦ b | stopped ↦ c ])
Verdict-case P skipped x y z = x
Verdict-case P counted x y z = y
Verdict-case P stopped x y z = z

module _ (P : Engine → Type 0) (step : (id : Text) (e : Engine) → P e → P (space_paused id e)) where
  recheck_from-kept :
      (disk : Disk) (free : Map Text ℕ) (margin : ℕ) (ws : List Writer)
      (ahead : Map Text SharedNeed) (e : Engine)
      → P e
      → P (recheck_from disk free margin ws ahead e)
  unfolding recheck_from
  recheck_from-kept disk free margin [] ahead e h = h
  recheck_from-kept disk free margin (w ∷ ws) ahead e h =
      let k = disk.filesystem w.dest in
      let ahead' = insert k (add_need w.remaining (at_filesystem ahead k)) ahead in
      Verdict-case P (verdict margin (free k) (at_filesystem ahead k) w (find w.id e.torrents))
        (recheck_from-kept disk free margin ws ahead e h)
        (recheck_from-kept disk free margin ws ahead' e h)
        (recheck_from-kept disk free margin ws ahead (space_paused w.id e) (step w.id e h))

  -- What holds of the engine and survives each pause survives a re-check.
  pub recheck-kept :
      (disk : Disk) (margin : ℕ) (ws : List Writer) (e : Engine)
      → P e
      → P (recheck disk margin ws e)
  unfolding recheck
  recheck-kept disk margin ws e h =
      recheck_from-kept disk (free_space disk ws empty_map empty_map) margin ws empty_map e h
