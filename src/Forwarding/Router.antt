-- ===== src/Forwarding/Router.antt =====
-- Models src/forwarding/router.rs: the table from destination addresses to sessions. A session is known
-- by its number; the prefixes are those of the ipnet crate.
mod Tests
pub mod Lookup
pub mod Ranges
pub mod Guard
use straw.Common.{
  ℕ, ◌+◌, List, [], ◌∷◌, ◌++◌, Bool, true, false, not, ◌&&◌, ◌||◌, ◌==◌, leb, ltb, any, filter,
  length, Option, none, some, if◌then◌else◌,
}
use straw.Ip.{IpAddr, v4, v6, is_ipv4}
use straw.Ip.Nets.{IpNets}
use straw.Ip.Table.{find, insert_ip, retain_ip}
use straw.Capsule.{IpAddressRange}

-- The last of the elements whose key is the largest: `Iterator::max_by_key`, after `best`.
unfoldable pub max_from : {A : Type 0} → (A → ℕ) → A → List A → A
max_from key best [] = best
max_from key best (x ∷ xs) = max_from key (if ltb (key x) (key best) then best else x) xs

unfoldable pub max_by_key : {A : Type 0} → (A → ℕ) → List A → Option A
unfolding max_from
max_by_key key [] = none
max_by_key key (x ∷ xs) = some (max_from key x xs)

module _ (nets : IpNets) where
  pub record RouteEntry : Type 0 where
    pub prefix : nets.IpNet
    pub ip_protocol : ℕ
    pub session_id : ℕ

  pub record RouteTable : Type 0 where
    pub routes : List RouteEntry
    pub client_addrs : List (IpAddr × ℕ)

  pub new : RouteTable
  new = record { routes = []; client_addrs = [] }

  unfoldable pub insert_client_addr : RouteTable → IpAddr → ℕ → RouteTable
  insert_client_addr self addr session = record {
    routes = self.routes;
    client_addrs = insert_ip self.client_addrs addr session;
  }

  unfoldable pub insert_route : RouteTable → RouteEntry → RouteTable
  insert_route self entry = record {
    routes = self.routes ++ entry ∷ [];
    client_addrs = self.client_addrs;
  }

  unfoldable pub of_other : ℕ → RouteEntry → Bool
  of_other session r = not (r.session_id == session)

  unfoldable pub replace_session_routes : RouteTable → ℕ → List RouteEntry → RouteTable
  replace_session_routes self session entries = record {
    routes = filter (of_other session) self.routes ++ entries;
    client_addrs = self.client_addrs;
  }

  unfoldable pub remove_session : RouteTable → ℕ → RouteTable
  remove_session self session = record {
    routes = filter (of_other session) self.routes;
    client_addrs = retain_ip (λ s. not (s == session)) self.client_addrs;
  }

  -- The tests of `lookup` on a route.
  unfoldable pub is_match : IpAddr → ℕ → RouteEntry → Bool
  is_match dst proto r =
      let icmp_proto : ℕ = if is_ipv4 dst then 1 else 58 in
      nets.net_contains r.prefix dst
      && (r.ip_protocol == 0 || r.ip_protocol == proto || proto == icmp_proto)

  unfoldable pub lookup : RouteTable → IpAddr → ℕ → Option ℕ
  lookup self dst proto = elim (find self.client_addrs dst) [
    | some session ↦ some session
    | none ↦
        elim (max_by_key (λ r. nets.prefix_len r.prefix)
          (filter (is_match dst proto) self.routes)) [ some r ↦ some r.session_id | none ↦ none ]
  ]
