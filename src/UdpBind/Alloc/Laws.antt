-- ===== src/UdpBind/Alloc/Laws.antt =====
-- The port pool of src/udp_bind/alloc.rs: what its operations keep and what they give out.
use mathlib.Core.Path.{subst}
use native.Mathlib.Nat.{mod-lt}
use straw.Common.{
  ap, sym, ◌∙◌, ℕ, zero, suc, ◌+◌, ◌-◌, ◌≤◌, ◌<◌, ◌≡◌, refl, List, [], ◌∷◌, false, Bool-cases, inl,
  inr, Option, none, some, Result, ok, err, panic, length, get_elem?, arith, ltb, All,
}
use straw.Ip.{IpAddr}
use straw.Ip.Socket.{
  SocketAddr, contains, remove, IsDistinct, remove-IsDistinct, remove-All, remove-added,
}
use straw.UdpBind.Alloc.{
  PortAllocator, AllocError, new, next_port, scan_ips, scan_ports, take_candidate, with_state,
  allocate, release,
}
use straw.UdpBind.Alloc.Scan.{
  Scanned, scan_ips-Scanned, Scanned-IsFull, IsFree, IsFull, port_after, round_of,
}

-- An address of the pool.
pub record IsPooled (ips : List IpAddr) (port_lo port_hi : ℕ) (a : SocketAddr) : Type 0 where
  pub place : (i : ℕ) × (get_elem? ips i ≡ some a.ip)
  pub above : port_lo ≤ a.port
  pub below : a.port ≤ port_hi

abbrev pub InPool : PortAllocator → SocketAddr → Type 0
InPool self a = IsPooled self.ips self.port_lo self.port_hi a

pub record IsWellFormed (self : PortAllocator) : Type 0 where
  pub ip_inside : self.state.next_ip < length self.ips
  pub port_above : self.port_lo ≤ self.state.next_port
  pub port_below : self.state.next_port ≤ self.port_hi
  pub distinct : IsDistinct self.state.in_use
  pub pooled : All (InPool self) self.state.in_use

-- What a scan over the ports from `port` ends with.
abbrev Outcome :
    PortAllocator → ℕ → ℕ → Result AllocError (Option SocketAddr) × PortAllocator → Type 0
Outcome self rounds port (ok none, self') =
    ((j : ℕ)
      → j < rounds
      → IsFull self.ips self.state.in_use (port_after self.port_lo self.port_hi port j))
    × (self'.state.in_use ≡ self.state.in_use)
    × IsWellFormed self'
Outcome self rounds port (ok (some a), self') =
    (contains self.state.in_use a ≡ false)
    × InPool self a
    × (self'.state.in_use ≡ a ∷ self.state.in_use)
    × IsWellFormed self'
Outcome self rounds port (err e, self') = ⊥
Outcome self rounds port (panic, self') = ⊥

module _ (self : PortAllocator) (w : IsWellFormed self) where
  next_port_inside :
      (port : ℕ)
      → self.port_lo ≤ port
      → port ≤ self.port_hi
      → (self.port_lo ≤ next_port port self.port_lo self.port_hi)
        × (next_port port self.port_lo self.port_hi ≤ self.port_hi)
  unfolding next_port
  next_port_inside port hl hh = ground arith

  IsFull-more :
      (rounds port : ℕ)
      → IsFull self.ips self.state.in_use port
      → ((j : ℕ)
          → j < rounds
          → IsFull self.ips self.state.in_use
              (port_after self.port_lo self.port_hi (next_port port self.port_lo self.port_hi) j))
      → (j : ℕ) → j < suc rounds
      → IsFull self.ips self.state.in_use (port_after self.port_lo self.port_hi port j)
  IsFull-more rounds port hf h zero lt = hf
  IsFull-more rounds port hf h (suc j) lt = h j (omega arith)

  Outcome-more :
      (rounds port : ℕ) (r : Result AllocError (Option SocketAddr) × PortAllocator)
      → IsFull self.ips self.state.in_use port
      → Outcome self rounds (next_port port self.port_lo self.port_hi) r
      → Outcome self (suc rounds) port r
  Outcome-more rounds port (ok none, self') hf (h, same, keep) =
      (IsFull-more rounds port hf h, same, keep)
  Outcome-more rounds port (ok (some a), self') hf h = h
  Outcome-more rounds port (err e, self') hf h = h
  Outcome-more rounds port (panic, self') hf h = h

  -- A free candidate is taken.
  Outcome-found :
      (rounds port idx : ℕ) (c : SocketAddr)
      → self.port_lo ≤ port
      → port ≤ self.port_hi
      → IsFree self.ips self.state.in_use port idx c
      → Outcome self rounds port (ok (some c), with_state self (take_candidate self port idx c))
  unfolding take_candidate
  Outcome-found rounds port idx c hl hh h =
      let pooled : InPool self c = record {
        place = (idx, h.place);
        above = omega (arith, h.at_port);
        below = omega (arith, h.at_port);
      } in
      (
        h.fresh,
        pooled,
        refl,
        record {
          ip_inside = mod-lt (idx + 1) (omega (arith, w.ip_inside));
          port_above = ground (arith, next_port_inside port hl hh);
          port_below = ground (arith, next_port_inside port hl hh);
          distinct = (h.fresh, w.distinct);
          pooled = (pooled, w.pooled);
        },
      )

  scan_ports_step :
      (rounds port : ℕ) (r : Result AllocError (Option (ℕ × SocketAddr)))
      → scan_ips self.ips self.state.in_use self.state.next_ip port (length self.ips) 0 ≡ r
      → self.port_lo ≤ port
      → port ≤ self.port_hi
      → Scanned self.ips self.state.in_use self.state.next_ip port (length self.ips) 0 r
      → Outcome self rounds
          (next_port port self.port_lo self.port_hi)
          (scan_ports self rounds (next_port port self.port_lo self.port_hi))
      → Outcome self (suc rounds) port (scan_ports self (suc rounds) port)
  unfolding scan_ports
  scan_ports_step rounds port (ok none) e hl hh s rest =
      rw (e, scan_ports)
        (Outcome-more rounds port _
          (Scanned-IsFull self.ips self.state.in_use self.state.next_ip port w.ip_inside s) rest)
  scan_ports_step rounds port (ok (some (idx, c))) e hl hh s rest =
      rw (e, scan_ports) (Outcome-found (suc rounds) port idx c hl hh s)
  scan_ports_step rounds port (err x) e hl hh s rest = absurd s
  scan_ports_step rounds port panic e hl hh s rest = absurd s

  scan_ports-Outcome :
      (rounds port : ℕ)
      → self.port_lo ≤ port
      → port ≤ self.port_hi
      → Outcome self rounds port (scan_ports self rounds port)
  unfolding scan_ports
  scan_ports-Outcome zero port hl hh = (
    λ j lt. absurd (omega arith),
    refl,
    record {
      ip_inside = w.ip_inside;
      port_above = hl;
      port_below = hh;
      distinct = w.distinct;
      pooled = w.pooled;
    },
  )
  scan_ports-Outcome (suc rounds) port hl hh =
      let (l, u) = next_port_inside port hl hh in
      scan_ports_step rounds port _ refl hl hh
        (scan_ips-Scanned self.ips self.state.in_use self.state.next_ip port (length self.ips) 0
          (omega (arith, w.ip_inside)))
        (scan_ports-Outcome rounds _ l u)

  allocate-Outcome :
      Outcome self (self.port_hi - self.port_lo + 1) self.state.next_port (allocate self)
  unfolding allocate
  allocate-Outcome = scan_ports-Outcome _ self.state.next_port w.port_above w.port_below

  allocated :
      (r : Result AllocError (Option SocketAddr) × PortAllocator)
      → allocate self ≡ r
      → Outcome self (self.port_hi - self.port_lo + 1) self.state.next_port r
  allocated r e =
      subst (Outcome self (self.port_hi - self.port_lo + 1) self.state.next_port) e allocate-Outcome

  -- In a well-formed pool, an address that `allocate` gives out is one of the pool's that was not in
  -- use; it is in use afterwards, on top of what was, and the pool is well-formed.
  pub allocate-some :
      (a : SocketAddr) (self' : PortAllocator)
      → allocate self ≡ (ok (some a), self')
      → (contains self.state.in_use a ≡ false)
        × InPool self a
        × (self'.state.in_use ≡ a ∷ self.state.in_use)
        × IsWellFormed self'
  allocate-some a self' e = allocated _ e

  free_found :
      (a : SocketAddr) (r : Result AllocError (Option SocketAddr) × PortAllocator)
      → InPool self a
      → contains self.state.in_use a ≡ false
      → Outcome self (self.port_hi - self.port_lo + 1) self.state.next_port r
      → (b : SocketAddr) × (r.0 ≡ ok (some b))
  free_found a (ok none, self') p hf (h, same, keep) =
      let (j, lt, at_port) =
        round_of self.port_lo self.port_hi self.state.next_port a.port w.port_above w.port_below
          p.above p.below in
      let (i, e) = p.place in
      let used = h j lt i a.ip e in
      let no =
        subst (λ q. contains self.state.in_use (record { ip = a.ip; port = q }) ≡ false)
          (sym at_port) hf in
      absurd (cc)
  free_found a (ok (some b), self') p hf o = (b, refl)
  free_found a (err e, self') p hf o = absurd o
  free_found a (panic, self') p hf o = absurd o

  -- In a well-formed pool, while any address of the pool is not in use, `allocate` gives one out.
  pub allocate_free :
      (a : SocketAddr)
      → InPool self a
      → contains self.state.in_use a ≡ false
      → (b : SocketAddr) × ((allocate self).0 ≡ ok (some b))
  allocate_free a p h = free_found a (allocate self) p h allocate-Outcome

  -- In a well-formed pool, releasing what `allocate` gave out puts the set in use back as it was.
  pub release-allocate :
      (a : SocketAddr) (self' : PortAllocator)
      → allocate self ≡ (ok (some a), self')
      → (release self' a).state.in_use ≡ self.state.in_use
  unfolding release
  release-allocate a self' e =
      let (fresh, pooled, same, keep) = allocate-some a self' e in
      ap (λ s. remove s a) same ∙ remove-added self.state.in_use a fresh

  allocate_keeps :
      (r : Result AllocError (Option SocketAddr) × PortAllocator)
      → Outcome self (self.port_hi - self.port_lo + 1) self.state.next_port r
      → IsWellFormed r.1
  allocate_keeps (ok none, self') o = o.2
  allocate_keeps (ok (some a), self') o = o.3
  allocate_keeps (err e, self') o = absurd o
  allocate_keeps (panic, self') o = absurd o

  release_keeps : (a : SocketAddr) → IsWellFormed (release self a)
  unfolding release
  release_keeps a = record {
    ip_inside = w.ip_inside;
    port_above = w.port_above;
    port_below = w.port_below;
    distinct = remove-IsDistinct self.state.in_use a w.distinct;
    pooled = remove-All (InPool self) self.state.in_use a w.pooled;
  }

-- The pools that sessions can bring about.
pub data Reachable : PortAllocator → Type 0 where
  made :
      (ips : List IpAddr) (lo hi : ℕ) (self : PortAllocator)
      → new ips lo hi ≡ ok self
      → Reachable self
  after_allocate : (self : PortAllocator) → Reachable self → Reachable (allocate self).1
  after_release :
      (self : PortAllocator) (a : SocketAddr) → Reachable self → Reachable (release self a)

abbrev Made : Result AllocError PortAllocator → Type 0
Made (ok self) = IsWellFormed self
Made (err e) = Unit {0}
Made panic = Unit {0}

new-Made : (ips : List IpAddr) (lo hi : ℕ) → Made (new ips lo hi)
unfolding new
new-Made [] lo hi = tt
new-Made (ip ∷ ips) lo hi = elim (Bool-cases (ltb hi lo)) [
  | inl h ↦ rw h tt
  | inr h ↦ rw h (record {
    ip_inside = omega arith;
    port_above = omega arith;
    port_below = ground arith;
    distinct = tt;
    pooled = tt;
  })
]

-- Every pool that `new`, `allocate` and `release` bring about is well-formed: its cursor is inside
-- the pool, no address is in use twice, and those in use are the pool's.
pub Reachable-IsWellFormed : (self : PortAllocator) → Reachable self → IsWellFormed self
Reachable-IsWellFormed _ (made ips lo hi self e) = subst Made e (new-Made ips lo hi)
Reachable-IsWellFormed _ (after_allocate self r) =
    let w = Reachable-IsWellFormed self r in
    allocate_keeps self w (allocate self) (allocate-Outcome self w)
Reachable-IsWellFormed _ (after_release self a r) =
    release_keeps self (Reachable-IsWellFormed self r) a
