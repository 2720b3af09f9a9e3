-- ===== src/Ip/Nets.antt =====
-- The prefixes of the ipnet crate, as an interface: what the program calls of it.
pub mod Sample
use straw.Common.{ℕ, Bool, Option, List}
use straw.Ip.{IpAddr}

pub record IpNets : Type 1 where
  pub IpNet : Type 0
  -- `IpNet::new(addr, prefix_len).ok()`
  pub net_of : IpAddr → ℕ → Option IpNet
  -- `contains`, on an address
  pub net_contains : IpNet → IpAddr → Bool
  pub prefix_len : IpNet → ℕ
  pub network : IpNet → IpAddr
  pub broadcast : IpNet → IpAddr
  -- `Ipv4Subnets::new(start, end, 0)` and `Ipv6Subnets::new(start, end, 0)`, collected
  pub subnets : IpAddr → IpAddr → List IpNet
