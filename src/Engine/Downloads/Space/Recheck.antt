-- ===== src/Engine/Downloads/Space/Recheck.antt =====
-- internal/engine/anacrolix/policy.go: what recheckSpace leaves writing on a filesystem.
use tortui.Engine.Downloads.Space.{
  Disk, Verdict, Writer, SharedNeed, recheck_from, at_filesystem, stopped, verdict, add_need,
  skipped, counted, int64_min, free_space, recheck,
}
use tortui.Base.{
  List, Map, Text, map, ℕ, ◌≡◌, ◌==◌, false, refl, true, ◌∷◌, arith, contains, some, ◌+◌, text_eq,
  [], ◌<◌, All, ◌≤◌, ◌⊎◌, inl, text_eqb_iff, inr, Bool-cases, Distinct, subst, sym, empty_map,
}
use tortui.Engine.Downloads.{Engine, find}
use tortui.Engine.Downloads.Space.Shortfall.{total_on}
use tortui.Engine.Downloads.Space.Turns.{
  bytes_at, ids, verdict_of, writing_on, downloads, ahead_of, writes, after_verdict, bytes_at-other,
  counted_lem, All-downloads, bytes_at-counted, find-recheck_from, recheck_from_step, skipped_lem,
  stopped_lem,
}
use tortui.Engine.Downloads.Space.Reading.{free_space-read}

module _ (disk : Disk) (free : Map Text ℕ) (margin : ℕ) (k : Text) (n : ℕ) where
  -- What is counted fits with the margin, or nothing is counted.
  abbrev Room : ℕ → Type 0
  Room b = (b + margin ≤ n) ⊎ (b ≡ 0)

  verdict_here :
      (w : Writer) (ahead : Map Text SharedNeed) (e : Engine) (v : Verdict)
      → verdict_of disk free margin w ahead e ≡ v
      → free k ≡ some n
      → (disk.filesystem w.dest == k) ≡ true
      → verdict margin (some n) (at_filesystem ahead k) w (find w.id e.torrents) ≡ v
  verdict_here w ahead e v q known same =
      let found = find w.id e.torrents in
      let j : disk.filesystem w.dest ≡ k = (text_eqb_iff (disk.filesystem w.dest) k).0 same in
      subst (λ x. verdict margin x (at_filesystem ahead k) w found ≡ v) known
        (subst (λ x. verdict margin (free x) (at_filesystem ahead x) w found ≡ v) j q)

  -- A writer on the filesystem that is counted still writes, and fits.
  counted_here :
      (w : Writer) (ahead : Map Text SharedNeed) (e : Engine)
      → verdict_of disk free margin w ahead e ≡ counted
      → free k ≡ some n
      → downloads (find w.id e.torrents) ≡ true
      → (disk.filesystem w.dest == k) ≡ true
      → bytes_at ahead k + w.remaining + margin < int64_min
      → (writes (find w.id e.torrents) ≡ true) × (bytes_at ahead k + w.remaining + margin ≤ n)
  unfolding bytes_at
  counted_here w ahead e q known dl same fits =
      counted_lem margin n (at_filesystem ahead k) w (find w.id e.torrents) dl fits
        (verdict_here w ahead e counted q known same)

  -- A writer's turn leaves room, and what is counted grows by no more than it needs.
  turn-Room :
      (v : Verdict) (w : Writer) (ws : List Writer) (ahead : Map Text SharedNeed) (e : Engine)
      → verdict_of disk free margin w ahead e ≡ v
      → free k ≡ some n
      → downloads (find w.id e.torrents) ≡ true
      → bytes_at ahead k + total_on disk k (w ∷ ws) + margin < int64_min
      → Room (bytes_at ahead k)
      → let j = disk.filesystem w.dest in
        let ahead' = ahead_of v j w.remaining (at_filesystem ahead j) ahead in
        Room (bytes_at ahead' k) × (bytes_at ahead' k + total_on disk k ws + margin < int64_min)
  unfolding total_on
  turn-Room skipped w ws ahead e q known dl fits room = ground arith
  turn-Room stopped w ws ahead e q known dl fits room = ground arith
  turn-Room counted w ws ahead e q known dl fits room =
      let j = disk.filesystem w.dest in
      elim (Bool-cases (j == k)) [
        | inr other ↦ rw (bytes_at-other j k _ ahead other) (ground arith)
        | inl same ↦
            rw (bytes_at-counted j k w.remaining ahead same) (
              let (_, small) = counted_here w ahead e q known dl same (ground arith) in
              ground arith)
      ]

  -- What the writer still writes is what was counted for it.
  turn-writing_on :
      (v : Verdict) (w : Writer) (ws : List Writer) (ahead : Map Text SharedNeed) (e e' : Engine)
      → verdict_of disk free margin w ahead e ≡ v
      → free k ≡ some n
      → downloads (find w.id e.torrents) ≡ true
      → bytes_at ahead k + total_on disk k (w ∷ ws) + margin < int64_min
      → find w.id e'.torrents ≡ find w.id (after_verdict v w.id e).torrents
      → let j = disk.filesystem w.dest in
        let ahead' = ahead_of v j w.remaining (at_filesystem ahead j) ahead in
        bytes_at ahead k + writing_on disk k e' (w ∷ ws)
        ≡ bytes_at ahead' k + writing_on disk k e' ws
  unfolding writing_on total_on
  turn-writing_on skipped w ws ahead e e' q known dl fits here =
      elim (Bool-cases (disk.filesystem w.dest == k)) [
        | inr other ↦ ground arith
        | inl same ↦
            let gone =
              skipped_lem margin n _ w (find w.id e.torrents)
                (verdict_here w ahead e skipped q known same) in
            ground arith
      ]
  turn-writing_on stopped w ws ahead e e' q known dl fits here =
      let gone = stopped_lem margin (free (disk.filesystem w.dest)) _ w e q in ground arith
  turn-writing_on counted w ws ahead e e' q known dl fits here =
      let j = disk.filesystem w.dest in
      elim (Bool-cases (j == k)) [
        | inr other ↦
            rw (bytes_at-other j k (add_need w.remaining (at_filesystem ahead j)) ahead other)
              (ground arith)
        | inl same ↦ rw (bytes_at-counted j k w.remaining ahead same) (
            let (wr, small) = counted_here w ahead e q known dl same (ground arith) in ground arith)
      ]

  nothing_left : (e : Engine) (b : ℕ) → Room b → Room (b + writing_on disk k e [])
  unfolding writing_on
  nothing_left e b room = ground arith

  recheck_from-Room :
      (ws : List Writer) (ahead : Map Text SharedNeed) (e : Engine)
      → free k ≡ some n
      → Distinct (ids ws)
      → All (λ w. downloads (find w.id e.torrents) ≡ true) ws
      → bytes_at ahead k + total_on disk k ws + margin < int64_min
      → Room (bytes_at ahead k)
      → Room (bytes_at ahead k + writing_on disk k (recheck_from disk free margin ws ahead e) ws)
  unfolding total_on recheck_from
  recheck_from-Room [] ahead e known d dl fits room = nothing_left e (bytes_at ahead k) room
  recheck_from-Room (w ∷ ws) ahead e known d dl fits room =
      let v = verdict_of disk free margin w ahead e in
      let j = disk.filesystem w.dest in
      let ahead' = ahead_of v j w.remaining (at_filesystem ahead j) ahead in
      let next = after_verdict v w.id e in
      let e' = recheck_from disk free margin ws ahead' next in
      let (room', fits') = turn-Room v w ws ahead e refl known dl.0 fits room in
      let rest =
        recheck_from-Room ws ahead' next known d.1 (All-downloads v w.id e ws d.0 dl.1) fits'
          room' in
      let here = find-recheck_from disk free margin ws ahead' next w.id d.0 in
      subst (λ x. Room (bytes_at ahead k + writing_on disk k x (w ∷ ws)))
        (sym (recheck_from_step disk free margin w ws ahead e v refl))
        (subst Room (sym (turn-writing_on v w ws ahead e e' refl known dl.0 fits here)) rest)

bytes_at-empty : (k : Text) → bytes_at empty_map k ≡ 0
unfolding bytes_at
bytes_at-empty k = refl

module _ (disk : Disk) (k : Text) where
  writing_on-none :
      (e : Engine) (ws : List Writer)
      → contains (map (λ (w : Writer). disk.filesystem w.dest) ws) k ≡ false
      → writing_on disk k e ws ≡ 0
  unfolding writing_on
  writing_on-none e [] c = refl
  writing_on-none e (w ∷ ws) c = let rest = writing_on-none e ws (ground arith) in ground arith

  -- recheckSpace leaves no filesystem overcommitted: after it, what the writers it looked at still
  -- have to write on a filesystem fits, with the margin, in the free space that the platform
  -- reports there, or they have no bytes left to write there. The writers are different entries,
  -- those of them that write are downloading and not checking, and the bytes add up to less than
  -- 2^63.
  pub recheck-Room :
      (margin n : ℕ) (ws : List Writer) (e : Engine)
      → ((d : Text) → (disk.filesystem d == k) ≡ true → disk.free d ≡ some n)
      → Distinct (ids ws)
      → All (λ w. downloads (find w.id e.torrents) ≡ true) ws
      → total_on disk k ws + margin < int64_min
      → let left = writing_on disk k (recheck disk margin ws e) ws in
        (left + margin ≤ n) ⊎ (left ≡ 0)
  unfolding recheck
  recheck-Room margin n ws e on d dl fits =
      elim (Bool-cases (contains (map (λ (w : Writer). disk.filesystem w.dest) ws) k)) [
        | inr off ↦ inr (writing_on-none (recheck disk margin ws e) ws off)
        | inl here ↦
            let known = free_space-read disk k n ws empty_map empty_map on refl refl here in
            let zero = bytes_at-empty k in
            let fits' : bytes_at empty_map k + total_on disk k ws + margin < int64_min =
              ground arith in
            let room =
              recheck_from-Room disk (free_space disk ws empty_map empty_map) margin k n ws
                empty_map e known d dl fits' (inr zero) in
            ground arith
      ]
