-- ===== src/Forwarding/Router/Ranges.antt =====
-- Models `entries_from_client_ranges` of src/forwarding/router.rs.
use straw.Common.{
  ℕ, List, [], ◌∷◌, ◌++◌, Bool, true, false, ◌||◌, leb, any, length, Option, none, some,
  if◌then◌else◌,
}
use straw.Ip.{IpAddr, v4, v6}
use straw.Ip.Nets.{IpNets}
use straw.Capsule.{IpAddressRange}
use straw.Forwarding.Router.{RouteEntry}

abbrev pub max_client_route_prefixes : ℕ
max_client_route_prefixes = 128

module _ (nets : IpNets) where
  unfoldable pub overlaps : nets.IpNet → nets.IpNet → Bool
  overlaps a b = nets.net_contains a (nets.network b) || nets.net_contains b (nets.network a)

  -- The prefixes of a range, none of a malformed one.
  unfoldable pub range_prefixes : IpAddr → IpAddr → Option (List nets.IpNet)
  range_prefixes (v4 start) (v4 end) =
      if leb start end then some (nets.subnets (v4 start) (v4 end)) else none
  range_prefixes (v6 start) (v6 end) =
      if leb start end then some (nets.subnets (v6 start) (v6 end)) else none
  range_prefixes (v4 start) (v6 end) = none
  range_prefixes (v6 start) (v4 end) = none

  unfoldable pub is_denied : List nets.IpNet → nets.IpNet → Bool
  is_denied deny prefix = any (λ d. overlaps d prefix) deny

  -- The inner loop: the entries, and whether the cap was reached.
  unfoldable pub push_prefixes :
      ℕ → ℕ → List (RouteEntry nets) → List nets.IpNet → List (RouteEntry nets) × Bool
  push_prefixes session ip_protocol entries [] = (entries, false)
  push_prefixes session ip_protocol entries (prefix ∷ prefixes) =
      let rest =
        push_prefixes session ip_protocol
          (entries
            ++ record { prefix = prefix; ip_protocol = ip_protocol; session_id = session } ∷ [])
          prefixes in
      if leb max_client_route_prefixes (length entries) then (entries, true) else rest

  -- The outer loop, from the entries so far.
  unfoldable pub push_ranges :
      ℕ → List nets.IpNet → List (RouteEntry nets) → List IpAddressRange → List (RouteEntry nets)
  push_ranges session deny entries [] = entries
  push_ranges session deny entries (range ∷ ranges) =
      elim (range_prefixes range.start_ip range.end_ip) [
        | none ↦ push_ranges session deny entries ranges
        | some prefixes ↦
            let skipped = push_ranges session deny entries ranges in
            let (pushed, full) = push_prefixes session range.ip_protocol entries prefixes in
            let rest = push_ranges session deny pushed ranges in
            if any (is_denied deny) prefixes then skipped else if full then pushed else rest
      ]

  unfoldable pub entries_from_client_ranges :
      ℕ → List IpAddressRange → List nets.IpNet → List (RouteEntry nets)
  unfolding push_ranges
  entries_from_client_ranges session ranges deny = push_ranges session deny [] ranges
