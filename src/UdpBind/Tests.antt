-- ===== src/UdpBind/Tests.antt =====
-- The theorems on the bind proxy at concrete inputs.
use straw.Common.{◌≡◌, refl, false, [], ◌∷◌, some, ok, arith}
use straw.Ip.{v4}
use straw.Ip.Socket.{SocketAddr, contains}
use straw.UdpBind.Alloc.{
  PortAllocator, new, allocate, release, scan_ports, scan_ips, take_candidate,
}
use straw.UdpBind.Alloc.Laws.{
  InPool, IsWellFormed, Reachable, made, after_allocate, after_release, allocate-some,
  allocate_free, release-allocate, Reachable-IsWellFormed,
}

-- Two addresses, two ports.
abbrev pool : PortAllocator
pool = record {
  ips = v4 1 ∷ v4 2 ∷ [];
  port_lo = 40_000;
  port_hi = 40_001;
  state = record { in_use = []; next_ip = 0; next_port = 40_000 };
}

abbrev first : SocketAddr
first = record { ip = v4 1; port = 40_000 }

abbrev second : SocketAddr
second = record { ip = v4 2; port = 40_000 }

abbrev pool_after : PortAllocator
pool_after = record {
  ips = v4 1 ∷ v4 2 ∷ [];
  port_lo = 40_000;
  port_hi = 40_001;
  state = record { in_use = first ∷ []; next_ip = 1; next_port = 40_000 };
}

pool-Reachable : Reachable pool
pool-Reachable = made (v4 1 ∷ v4 2 ∷ []) 40_000 40_001 pool (unfold new in refl)

pool-IsWellFormed : IsWellFormed pool
pool-IsWellFormed = Reachable-IsWellFormed pool pool-Reachable

run_first : allocate pool ≡ (ok (some first), pool_after)
unfolding allocate scan_ports scan_ips take_candidate contains
run_first = refl

allocate-some_example :
    (contains [] first ≡ false)
    × InPool pool first
    × (pool_after.state.in_use ≡ first ∷ [])
    × IsWellFormed pool_after
allocate-some_example = allocate-some pool pool-IsWellFormed first pool_after run_first

second-InPool : InPool pool second
second-InPool = record { place = (1, refl); above = omega arith; below = omega arith }

allocate_free_example : (b : SocketAddr) × ((allocate pool).0 ≡ ok (some b))
allocate_free_example =
    allocate_free pool pool-IsWellFormed second second-InPool (unfold contains in refl)

release-allocate_example : (release pool_after first).state.in_use ≡ []
release-allocate_example = release-allocate pool pool-IsWellFormed first pool_after run_first

Reachable-IsWellFormed_example : IsWellFormed (release (allocate pool).1 second)
Reachable-IsWellFormed_example =
    Reachable-IsWellFormed (release (allocate pool).1 second)
      (after_release (allocate pool).1 second (after_allocate pool pool-Reachable))
