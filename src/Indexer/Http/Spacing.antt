-- ===== src/Indexer/Http/Spacing.antt =====
-- internal/indexer/httpx/ratelimit.go: the slots that the limiter gives to one host.
use tortui.Indexer.Http.{Limiter, claim}
use tortui.Base.{
  ◌+◌, List, Text, ℕ, All, [], arith, empty_map, none, ◌∷◌, ◌≤◌, ◌==◌, some, text_eqb_iff, ◌⊎◌,
  text_eq, ◌≡◌, false,
}

-- A slot: for which host, and when.
pub record Grant : Type 0 where
  pub host : Text
  pub at : ℕ

unfoldable pub granted : Text → ℕ → Limiter → List Grant → List Grant
unfolding claim
granted host now l log = record { host = host; at = now + (claim host now l).1 } ∷ log

-- The slots of a sequence of claims, each with the clock's reading, newest first.
unfoldable pub run_grants : List (Text × ℕ) → Limiter → List Grant → List Grant
unfolding granted
run_grants [] l log = log
run_grants ((host, now) ∷ rest) l log =
    run_grants rest (claim host now l).0 (granted host now l log)

-- A slot is for another host, or at least the interval after the older one.
abbrev pub Apart : ℕ → Grant → Grant → Type 0
Apart interval later earlier =
    ((later.host == earlier.host) ≡ false) ⊎ (earlier.at + interval ≤ later.at)

abbrev pub AllApart : ℕ → List Grant → Type 0
AllApart interval [] = Unit
AllApart interval (g ∷ log) = All (Apart interval g) log × AllApart interval log

abbrev due : Limiter → Text → ℕ
due l host = elim (l.next host) [ none ↦ 0 | some t ↦ t ]

abbrev Held : Limiter → Grant → Type 0
Held l g = g.at + l.interval ≤ due l g.host

claim-Held :
    (host : Text) (now : ℕ) (l : Limiter) (g : Grant) → Held l g → Held (claim host now l).0 g
unfolding claim
claim-Held host now l g h = ground (arith, text_eqb_iff host g.host)

claim-All-Held :
    (host : Text) (now : ℕ) (l : Limiter) (log : List Grant)
    → All (Held l) log
    → All (Held (claim host now l).0) log
claim-All-Held host now l [] h = tt
claim-All-Held host now l (g ∷ log) h =
    (claim-Held host now l g h.0, claim-All-Held host now l log h.1)

claim-Held_self :
    (host : Text) (now : ℕ) (l : Limiter)
    → Held (claim host now l).0 (record { host = host; at = now + (claim host now l).1 })
unfolding claim
claim-Held_self host now l = ground (arith, text_eqb_iff host host)

claim-Apart :
    (host : Text) (now : ℕ) (l : Limiter) (g : Grant)
    → Held l g
    → Apart l.interval (record { host = host; at = now + (claim host now l).1 }) g
unfolding claim
claim-Apart host now l g h = ground (arith, text_eqb_iff host g.host)

claim-All-Apart :
    (host : Text) (now : ℕ) (l : Limiter) (log : List Grant)
    → All (Held l) log
    → All (Apart l.interval (record { host = host; at = now + (claim host now l).1 })) log
claim-All-Apart host now l [] h = tt
claim-All-Apart host now l (g ∷ log) h =
    (claim-Apart host now l g h.0, claim-All-Apart host now l log h.1)

run_grants-AllApart_from :
    (cs : List (Text × ℕ)) (l : Limiter) (log : List Grant)
    → All (Held l) log
    → AllApart l.interval log
    → AllApart l.interval (run_grants cs l log)
unfolding run_grants granted claim
run_grants-AllApart_from [] l log h a = a
run_grants-AllApart_from ((host, now) ∷ rest) l log h a =
    run_grants-AllApart_from rest (claim host now l).0 _
      (claim-Held_self host now l, claim-All-Held host now l log h)
      (claim-All-Apart host now l log h, a)

-- However the clock moves, also back, two slots of one host are at least the interval apart.
pub run_grants-AllApart :
    (interval : ℕ) (cs : List (Text × ℕ))
    → AllApart interval (run_grants cs (record { interval = interval; next = empty_map }) [])
run_grants-AllApart interval cs =
    run_grants-AllApart_from cs (record { interval = interval; next = empty_map }) [] tt tt
