-- ===== src/Engine/Listen/Examples.antt =====
-- internal/engine/listen.go: a machine with one port taken, for the tests.
use tortui.Base.{refl, [], if◌then◌else◌, pos, nat_eqb, none, ◌≡◌, some, true}
use tortui.Engine.Listen.{
  Binds, IsClean, Sockets, probe, probe_random, probe-IsClean, random_pair, try_bind, tcp, bound,
  udp,
}

-- 6881 is taken, 7000 is free for TCP only, and every other port is free.
abbrev machine : Sockets
machine = record {
  listen = λ n p port.
      if nat_eqb port 6881
      then none
      else if nat_eqb port 0
      then (elim p [ tcp ↦ some 7000 | udp ↦ some 7001 ])
      else (elim p [ tcp ↦ some port | udp ↦ if nat_eqb port 7000 then none else some port ]);
  close = λ n p port. true;
}

abbrev none_held : Binds
none_held = record { held = []; count = 0 }

probe_falls_back : (probe machine (pos 6881) none_held).1 ≡ bound 7001 true
unfolding probe probe_random random_pair try_bind
probe_falls_back = refl

probe-IsClean_example : IsClean machine 66 none_held (probe machine (pos 6881) none_held).0
probe-IsClean_example = probe-IsClean machine (pos 6881) none_held
