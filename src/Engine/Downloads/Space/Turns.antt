-- ===== src/Engine/Downloads/Space/Turns.antt =====
-- internal/engine/anacrolix/policy.go: one writer's turn in recheckSpace, and what was counted.
use tortui.Base.{
  List, Map, Option, Text, ℕ, ◌≡◌, ◌==◌, Bool, contains, false, insert, map, refl, some, true, ◌∷◌,
  ◌+◌, All, arith, if◌then◌else◌, none, not, text_eq, ◌⊎◌, ◌&&◌, ◌<◌, Option-cases, ap, inl,
  text_eqb_iff, ◌||◌, ◌∙◌, [], inr, ◌≤◌,
}
use tortui.Engine.Downloads.Space.{
  Disk, Verdict, add_need, space_paused_tracked, verdict, SharedNeed, Writer, is_writing,
  at_filesystem, recheck_from, skipped, add64, counted, stopped, int64_min, is_downloading,
}
use tortui.Engine.Downloads.{Engine, Tracked, amend, find}
use tortui.Engine.Downloads.Fetched.{find-amend_other}
use tortui.Engine.Downloads.Slots.{find-amend}
use tortui.Engine.Downloads.Space.Shortfall.{space_shortfall-eq_sub}

abbrev pub writes : Option Tracked → Bool
writes none = false
writes (some tr) = is_writing tr

-- Of these writers, what those that still write on a filesystem have left to write.
unfoldable pub writing_on : Disk → Text → Engine → List Writer → ℕ
writing_on disk key e [] = 0
writing_on disk key e (w ∷ ws) =
    let rest = writing_on disk key e ws in
    if disk.filesystem w.dest == key && writes (find w.id e.torrents)
    then w.remaining + rest
    else rest

-- An entry that writes is downloading, not checking.
abbrev pub downloads : Option Tracked → Bool
downloads none = true
downloads (some tr) = not (is_writing tr) || is_downloading tr.state

abbrev pub ids : List Writer → List Text
ids = map (λ (w : Writer). w.id)

pub paused_id : (tr : Tracked) → (space_paused_tracked tr).id ≡ tr.id
unfolding space_paused_tracked
paused_id tr = refl

pub paused_writes : (tr : Tracked) → is_writing (space_paused_tracked tr) ≡ false
unfolding space_paused_tracked is_writing
paused_writes tr = ground arith

-- The engine after one writer.
abbrev pub after_verdict : Verdict → Text → Engine → Engine
after_verdict stopped id e = record e { torrents = amend id space_paused_tracked e.torrents }
after_verdict _ id e = e

pub find-after_verdict :
    (v : Verdict) (id j : Text) (e : Engine)
    → (id == j) ≡ false
    → find j (after_verdict v id e).torrents ≡ find j e.torrents
find-after_verdict skipped id j e h = refl
find-after_verdict counted id j e h = refl
find-after_verdict stopped id j e h =
    find-amend_other id j space_paused_tracked e.torrents h paused_id

-- The rest of the loop.
abbrev pub ahead_of : Verdict → Text → ℕ → SharedNeed → Map Text SharedNeed → Map Text SharedNeed
ahead_of counted k n others ahead = insert k (add_need n others) ahead
ahead_of _ k n others ahead = ahead

module _ (disk : Disk) (free : Map Text ℕ) (margin : ℕ) where
  abbrev pub verdict_of : Writer → Map Text SharedNeed → Engine → Verdict
  verdict_of w ahead e =
      verdict margin (free (disk.filesystem w.dest)) (at_filesystem ahead (disk.filesystem w.dest))
        w (find w.id e.torrents)

  pub recheck_from_step :
      (w : Writer) (ws : List Writer) (ahead : Map Text SharedNeed) (e : Engine) (v : Verdict)
      → verdict_of w ahead e ≡ v
      → let k = disk.filesystem w.dest in
        recheck_from disk free margin (w ∷ ws) ahead e
        ≡ recheck_from disk free margin ws
            (ahead_of v k w.remaining (at_filesystem ahead k) ahead)
            (after_verdict v w.id e)
  unfolding recheck_from
  recheck_from_step w ws ahead e skipped q = rw (q, recheck_from)
  recheck_from_step w ws ahead e counted q = rw (q, recheck_from)
  recheck_from_step w ws ahead e stopped q = rw (q, recheck_from)

  -- The loop changes no entry but those of its writers.
  pub find-recheck_from :
      (ws : List Writer) (ahead : Map Text SharedNeed) (e : Engine) (j : Text)
      → contains (ids ws) j ≡ false
      → find j (recheck_from disk free margin ws ahead e).torrents ≡ find j e.torrents
  unfolding recheck_from
  find-recheck_from [] ahead e j h = refl
  find-recheck_from (w ∷ ws) ahead e j h =
      let v = verdict_of w ahead e in
      rw (recheck_from_step w ws ahead e v refl) (
        find-recheck_from ws _ (after_verdict v w.id e) j (ground arith)
        ∙ find-after_verdict v w.id j e (ground arith))

pub skipped_lem :
    (margin n : ℕ) (others : SharedNeed) (w : Writer) (found : Option Tracked)
    → verdict margin (some n) others w found ≡ skipped
    → writes found ≡ false
unfolding verdict
skipped_lem margin n others w none h = refl
skipped_lem margin n others w (some tr) h = ground arith

pub counted_lem :
    (margin n : ℕ) (others : SharedNeed) (w : Writer) (found : Option Tracked)
    → downloads found ≡ true
    → others.bytes + w.remaining + margin < int64_min
    → verdict margin (some n) others w found ≡ counted
    → (writes found ≡ true) × (others.bytes + w.remaining + margin ≤ n)
unfolding verdict
counted_lem margin n others w none d fits h = ground arith
counted_lem margin n others w (some tr) d fits h =
    (ground arith, ground (arith, space_shortfall-eq_sub n (others.bytes + w.remaining) margin))

pub stopped_lem :
    (margin : ℕ) (free : Option ℕ) (others : SharedNeed) (w : Writer) (e : Engine)
    → verdict margin free others w (find w.id e.torrents) ≡ stopped
    → writes (find w.id (after_verdict stopped w.id e).torrents) ≡ false
unfolding verdict
stopped_lem margin free others w e h = elim (Option-cases (find w.id e.torrents)) [
  | inl q ↦ ground arith
  | inr (tr, q) ↦
      let r = find-amend w.id space_paused_tracked e.torrents tr q (paused_id tr) in
      rw r (paused_writes tr)
]

pub Verdict-cases : (v : Verdict) → (v ≡ skipped) ⊎ (v ≡ counted) ⊎ (v ≡ stopped)
Verdict-cases skipped = inl refl
Verdict-cases counted = inr (inl refl)
Verdict-cases stopped = inr (inr refl)

pub All-downloads :
    (v : Verdict) (id : Text) (e : Engine) (ws : List Writer)
    → contains (ids ws) id ≡ false
    → All (λ w. downloads (find w.id e.torrents) ≡ true) ws
    → All (λ w. downloads (find w.id (after_verdict v id e).torrents) ≡ true) ws
All-downloads v id e [] c d = tt
All-downloads v id e (w ∷ ws) c d = (
  rw (find-after_verdict v id w.id e (ground (arith, text_eqb_iff w.id id, text_eqb_iff id w.id)))
      d.0,
  All-downloads v id e ws (ground arith) d.1,
)

unfoldable pub bytes_at : Map Text SharedNeed → Text → ℕ
bytes_at ahead k = (at_filesystem ahead k).bytes

pub bytes_at-counted :
    (j k : Text) (r : ℕ) (ahead : Map Text SharedNeed)
    → (j == k) ≡ true
    → bytes_at (insert j (add_need r (at_filesystem ahead j)) ahead) k ≡ add64 (bytes_at ahead k) r
unfolding bytes_at add_need
bytes_at-counted j k r ahead q =
    rw (bytes_at, q) (ap (λ x. add64 (at_filesystem ahead x).bytes r) ((text_eqb_iff j k).0 q))

pub bytes_at-other :
    (j k : Text) (s : SharedNeed) (ahead : Map Text SharedNeed)
    → (j == k) ≡ false
    → bytes_at (insert j s ahead) k ≡ bytes_at ahead k
unfolding bytes_at
bytes_at-other j k s ahead q = rw (bytes_at, q) refl
