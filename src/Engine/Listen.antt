-- ===== src/Engine/Listen.antt =====
-- internal/engine/listen.go: the probe of the listen port. What the operating system answers to a bind
-- and to a close is an argument, by the number of the call.
mod Examples
use tortui.Base.{
  Bool, List, Option, ℕ, ℤ, ◌*◌, ◌+◌, [], arith, if◌then◌else◌, negsuc, some, suc, true, ◌∷◌, ◌≡◌,
  ◌&&◌, false, nat_eqb, none, pos, ◌∙◌, ◌≤◌, ◌%◌, Bool-cases, ap, ltb, refl, Option-cases, inl,
  zero, inr,
}

pub data Protocol : Type 0 where
  tcp udp : Protocol

-- The port that a bind gets, `none` for an error; whether a close gives no error.
pub record Sockets : Type 0 where
  pub listen : ℕ → Protocol → ℕ → Option ℕ
  pub close : ℕ → Protocol → ℕ → Bool

-- The sockets that are held, the last first, and how many binds were asked for.
pub record Binds : Type 0 where
  pub held : List (Protocol × ℕ)
  pub count : ℕ

pub data Probed : Type 0 where
  bound : ℕ → Bool → Probed
  out_of_range no_random_port : Probed

abbrev pub random_port_attempts : ℕ
random_port_attempts = 32

abbrev pub opposite : Protocol → Protocol
opposite tcp = udp
opposite udp = tcp

abbrev same_protocol : Protocol → Protocol → Bool
same_protocol tcp tcp = true
same_protocol tcp udp = false
same_protocol udp tcp = false
same_protocol udp udp = true

-- The socket that is closed is held no more, whatever the close gives.
unfoldable pub released : Protocol → ℕ → List (Protocol × ℕ) → List (Protocol × ℕ)
released p n [] = []
released p n ((q, m) ∷ held) =
    let rest = released p n held in if same_protocol q p && nat_eqb m n then held else (q, m) ∷ rest

module _ (s : Sockets) where
  abbrev pub opened_as : Protocol → Option ℕ → Binds → Binds
  opened_as p none z = record z { count = z.count + 1 }
  opened_as p (some n) z = record z { held = (p, n) ∷ z.held; count = z.count + 1 }

  abbrev pub open_socket : Protocol → ℕ → Binds → Binds × Option ℕ
  open_socket p n z = let got = s.listen z.count p n in (opened_as p got z, got)

  unfoldable pub close_socket : Protocol → ℕ → Binds → Binds
  unfolding released
  close_socket p n z = record z { held = released p n z.held }

  -- After the first protocol's bind, and after the second's.
  abbrev pub second_bound : Protocol → ℕ → Binds × Option ℕ → Binds × Option ℕ
  second_bound p n (z, none) = (close_socket p n z, none)
  second_bound p n (z, some m) = (
    close_socket p n (close_socket (opposite p) m z),
    if s.close z.count (opposite p) m && s.close z.count p n then some n else none,
  )

  abbrev pub first_bound : Protocol → (ℕ → ℕ) → Binds × Option ℕ → Binds × Option ℕ
  first_bound p asked (z, none) = (z, none)
  first_bound p asked (z, some n) = second_bound p n (open_socket (opposite p) (asked n) z)

  -- randomPair
  unfoldable pub random_pair : Bool → Binds → Binds × Option ℕ
  unfolding close_socket
  random_pair udp_first z =
      let p = if udp_first then udp else tcp in first_bound p (λ n. n) (open_socket p 0 z)

  -- tryBind
  unfoldable pub try_bind : ℕ → Binds → Binds × Option ℕ
  unfolding close_socket
  try_bind port z = first_bound tcp (λ n. port) (open_socket tcp port z)

  -- The loop of probe, with `left` attempts to go.
  unfoldable pub probe_random : ℕ → Bool → ℕ → Binds → Binds × Probed
  unfolding random_pair
  probe_random zero fell_back attempt z = (z, no_random_port)
  probe_random (suc left) fell_back attempt z =
      let (z', candidate) = random_pair (nat_eqb (attempt % 2) 1) z in
      let rest = probe_random left fell_back (attempt + 1) z' in
      elim candidate [ none ↦ rest | some n ↦ (z', bound n fell_back) ]

  abbrev pub probe_tried : ℕ → Binds × Option ℕ → Binds × Probed
  probe_tried port (z, some n) = (z, bound port false)
  probe_tried port (z, none) = probe_random random_port_attempts true 0 z

  -- probe; the port is an int that may be negative.
  unfoldable pub probe : ℤ → Binds → Binds × Probed
  unfolding try_bind probe_random
  probe (negsuc n) z = (z, out_of_range)
  probe (pos port) z =
      if ltb 65535 port
      then (z, out_of_range)
      else if nat_eqb port 0
      then probe_random random_port_attempts false 0 z
      else probe_tried port (try_bind port z)

  -- The same sockets are held, after at most `k` binds more.
  abbrev pub IsClean : ℕ → Binds → Binds → Type 0
  IsClean k z z' = (z'.held ≡ z.held) × (z'.count ≤ z.count + k)

  released-held :
      (p : Protocol) (n : ℕ) (held : List (Protocol × ℕ)) → released p n ((p, n) ∷ held) ≡ held
  unfolding released
  released-held tcp n held = ground arith
  released-held udp n held = ground arith

  second_bound-IsClean :
      (p : Protocol) (n : ℕ) (o : Option ℕ) (z y : Binds)
      → z.held ≡ (p, n) ∷ y.held
      → z.count ≤ y.count + 1
      → IsClean 2 y (second_bound p n (opened_as (opposite p) o z, o)).0
  unfolding close_socket
  second_bound-IsClean p n none z y h c =
      (ap (released p n) h ∙ released-held p n y.held, omega arith)
  second_bound-IsClean p n (some k) z y h c = (
    ap (released p n) (released-held (opposite p) k z.held ∙ h) ∙ released-held p n y.held,
    omega arith,
  )

  first_bound-IsClean :
      (p : Protocol) (asked : ℕ → ℕ) (o : Option ℕ) (z : Binds)
      → IsClean 2 z (first_bound p asked (opened_as p o z, o)).0
  first_bound-IsClean p asked none z = (refl, omega arith)
  first_bound-IsClean p asked (some n) z =
      second_bound-IsClean p n (s.listen (z.count + 1) (opposite p) (asked n))
        (opened_as p (some n) z) z refl (omega arith)

  random_pair-IsClean : (udp_first : Bool) (z : Binds) → IsClean 2 z (random_pair udp_first z).0
  unfolding random_pair
  random_pair-IsClean true z = first_bound-IsClean udp (λ n. n) (s.listen z.count udp 0) z
  random_pair-IsClean false z = first_bound-IsClean tcp (λ n. n) (s.listen z.count tcp 0) z

  IsClean-trans : (j k : ℕ) (x y z : Binds) → IsClean j x y → IsClean k y z → IsClean (j + k) x z
  IsClean-trans j k x y z (a, b) (c, d) = (c ∙ a, omega arith)

  probe_random-IsClean :
      (left : ℕ) (fell_back : Bool) (attempt : ℕ) (z : Binds)
      → IsClean (2 * left) z (probe_random left fell_back attempt z).0
  unfolding probe_random
  probe_random-IsClean zero fell_back attempt z = (refl, omega arith)
  probe_random-IsClean (suc left) fell_back attempt z =
      let (held, count) = random_pair-IsClean (nat_eqb (attempt % 2) 1) z in
      let z' = (random_pair (nat_eqb (attempt % 2) 1) z).0 in
      elim (Option-cases (random_pair (nat_eqb (attempt % 2) 1) z).1) [
        | inl q ↦
            let (held', count') = probe_random-IsClean left fell_back (attempt + 1) z' in
            rw (probe_random, q) (held' ∙ held, omega arith)
        | inr (n, q) ↦ rw (probe_random, q) (held, omega arith)
      ]

  probe_tried-IsClean :
      (port : ℕ) (o : Option ℕ) (z y : Binds)
      → IsClean 2 z y
      → IsClean 66 z (probe_tried port (y, o)).0
  probe_tried-IsClean port (some n) z y (h, c) = (h, omega arith)
  probe_tried-IsClean port none z y c =
      IsClean-trans 2 64 z y (probe_random random_port_attempts true 0 y).0 c
        (probe_random-IsClean random_port_attempts true 0 y)

  -- However the operating system answers, probe ends after at most 66 binds with every socket that it
  -- bound closed again, whether it finds a port or not.
  pub probe-IsClean : (port : ℤ) (z : Binds) → IsClean 66 z (probe port z).0
  unfolding probe try_bind
  probe-IsClean (negsuc n) z = (refl, omega arith)
  probe-IsClean (pos port) z = elim (Bool-cases (ltb 65535 port)) [
    | inl q ↦ rw q (refl, omega arith)
    | inr q ↦ elim (Bool-cases (nat_eqb port 0)) [
      | inl r ↦
          let (held, count) = probe_random-IsClean random_port_attempts false 0 z in
          rw (q, r) (held, omega arith)
      | inr r ↦
          rw (q, r)
            (probe_tried-IsClean port (try_bind port z).1 z (try_bind port z).0
              (first_bound-IsClean tcp (λ n. port) (s.listen z.count tcp port) z))
    ]
  ]
