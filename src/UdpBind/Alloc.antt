-- ===== src/UdpBind/Alloc.antt =====
-- Models src/udp_bind/alloc.rs: one public (IP, port) for each bind session. `HashSet` is a list of
-- addresses; the mutex makes each operation one step.
pub mod Scan
pub mod Laws
use straw.Common.{
  ℕ, zero, suc, ◌+◌, ◌-◌, ◌*◌, ◌%◌, ◌≤◌, ◌<◌, ◌≡◌, List, [], ◌∷◌, Bool, Option, none, some, leb,
  ltb, ◌==◌, if◌then◌else◌, Result, ok, err, panic, length, get_elem?,
}
use straw.Ip.{IpAddr}
use straw.Ip.Socket.{SocketAddr, contains, remove}

pub record State : Type 0 where
  pub in_use : List SocketAddr
  pub next_ip : ℕ
  pub next_port : ℕ

pub record PortAllocator : Type 0 where
  pub ips : List IpAddr
  pub port_lo : ℕ
  pub port_hi : ℕ
  pub state : State

-- The messages of `new`.
pub data AllocError : Type 0 where
  no_public_ip : AllocError
  inverted_port_range : ℕ → ℕ → AllocError

unfoldable pub new : List IpAddr → ℕ → ℕ → Result AllocError PortAllocator
new [] port_lo port_hi = err no_public_ip
new (ip ∷ ips) port_lo port_hi =
    if ltb port_hi port_lo
    then err (inverted_port_range port_lo port_hi)
    else ok (record {
      ips = ip ∷ ips;
      port_lo = port_lo;
      port_hi = port_hi;
      state = record { in_use = []; next_ip = 0; next_port = port_lo };
    })

abbrev pub capacity : PortAllocator → ℕ
capacity self = length self.ips * (self.port_hi - self.port_lo + 1)

unfoldable pub next_port : ℕ → ℕ → ℕ → ℕ
next_port port lo hi = if leb hi port then lo else port + 1

-- `for k in 0..self.ips.len()` at one port, with the rounds that are left: the free candidate and
-- its place. An index out of range panics.
unfoldable pub scan_ips :
    List IpAddr → List SocketAddr → ℕ → ℕ → ℕ → ℕ → Result AllocError (Option (ℕ × SocketAddr))
scan_ips ips in_use start port zero k = ok none
scan_ips ips in_use start port (suc rounds) k =
    let rest = scan_ips ips in_use start port rounds (suc k) in
    let idx = (start + k) % length ips in
    elim (get_elem? ips idx) [
      | none ↦ panic
      | some ip ↦
          let candidate : SocketAddr = record { ip = ip; port = port } in
          if contains in_use candidate then rest else ok (some (idx, candidate))
    ]

-- The assignments on a free candidate.
unfoldable pub take_candidate : PortAllocator → ℕ → ℕ → SocketAddr → State
unfolding next_port
take_candidate self port idx candidate =
    let next_ip = (idx + 1) % length self.ips in
    record {
      in_use = candidate ∷ self.state.in_use;
      next_ip = next_ip;
      next_port = if next_ip == 0 then next_port port self.port_lo self.port_hi else port;
    }

abbrev pub with_state : PortAllocator → State → PortAllocator
with_state self state = record {
  ips = self.ips;
  port_lo = self.port_lo;
  port_hi = self.port_hi;
  state = state;
}

-- `for _ in 0..span`, with the rounds that are left, from the cursor `port`.
unfoldable pub scan_ports :
    PortAllocator → ℕ → ℕ → Result AllocError (Option SocketAddr) × PortAllocator
unfolding scan_ips take_candidate next_port
scan_ports self zero port = (
  ok none,
  with_state self
      (record { in_use = self.state.in_use; next_ip = self.state.next_ip; next_port = port }),
)
scan_ports self (suc rounds) port =
    let rest = scan_ports self rounds (next_port port self.port_lo self.port_hi) in
    elim (scan_ips self.ips self.state.in_use self.state.next_ip port (length self.ips) 0) [
      | ok found ↦ elim found [
        | none ↦ rest
        | some (idx, candidate) ↦
            (ok (some candidate), with_state self (take_candidate self port idx candidate))
      ]
      | err e ↦ (err e, self)
      | panic ↦ (panic, self)
    ]

unfoldable pub allocate : PortAllocator → Result AllocError (Option SocketAddr) × PortAllocator
unfolding scan_ports
allocate self = scan_ports self (self.port_hi - self.port_lo + 1) self.state.next_port

unfoldable pub release : PortAllocator → SocketAddr → PortAllocator
release self addr = with_state self (record {
  in_use = remove self.state.in_use addr;
  next_ip = self.state.next_ip;
  next_port = self.state.next_port;
})

abbrev pub in_use : PortAllocator → ℕ
in_use self = length self.state.in_use
