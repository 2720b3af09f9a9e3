-- ===== src/Forwarding/Router/Tests.antt =====
-- Runs of src/forwarding/router.rs on concrete tables, with the prefixes of Ip/Nets/Sample.
use straw.Common.{
  ◌||◌, ◌-◌, ◌≤◌, ◌≡◌, ◌≢◌, refl, List, [], ◌∷◌, true, any, some, All, length, arith,
}
use straw.Ip.{IpAddr, v4, v6, same_ip}
use straw.Ip.Table.{find}
use straw.Ip.Nets.Sample.{
  Prefix, prefixes, prefix_contains, network_of, sample_subnets, one_block, as_prefixes, one_holds,
}
use straw.Capsule.{IpAddressRange}
use straw.Forwarding.Router.{
  RouteTable, max_from, max_by_key, replace_session_routes, remove_session, is_match, lookup,
}
use straw.Forwarding.Router.Lookup.{Answer, lookup-Answer}
use straw.Forwarding.Router.Ranges.{
  overlaps, is_denied, range_prefixes, push_prefixes, push_ranges, entries_from_client_ranges,
}
use straw.Forwarding.Router.Guard.{
  Installable, lookup-remove_session, entries_from_client_ranges-Installable,
  lookup-replace_session_routes,
}

prefixes-overlap :
    (a b : Prefix) (x : IpAddr)
    → prefix_contains a x ≡ true
    → prefix_contains b x ≡ true
    → (prefix_contains a (network_of b) || prefix_contains b (network_of a)) ≡ true
unfolding prefix_contains network_of
prefixes-overlap (v4 a, i) (v4 b, j) (v4 x) ha hb =
    one_holds (32 - j) (32 - i) a b x (ground arith) (ground arith)
prefixes-overlap (v6 a, i) (v6 b, j) (v6 x) ha hb =
    one_holds (128 - j) (128 - i) a b x (ground arith) (ground arith)
prefixes-overlap (v4 a, i) q (v6 x) ha hb = absurd (ground arith)
prefixes-overlap (v6 a, i) q (v4 x) ha hb = absurd (ground arith)
prefixes-overlap (v4 a, i) (v6 b, j) (v4 x) ha hb = absurd (ground arith)
prefixes-overlap (v6 a, i) (v4 b, j) (v6 x) ha hb = absurd (ground arith)

-- 192.168.0.0/16 and 192.168.1.0/24.
abbrev table : RouteTable prefixes
table = record {
  routes =
      record { prefix = (v4 0xc0a80000, 16); ip_protocol = 0; session_id = 0 }
      ∷ record { prefix = (v4 0xc0a80100, 24); ip_protocol = 17; session_id = 4 }
      ∷ [];
  client_addrs = (v4 0x0a640002, 0) ∷ (v4 0x0a640003, 4) ∷ [];
}

longest_wins : lookup prefixes table (v4 0xc0a80107) 17 ≡ some 4
unfolding lookup find is_match prefix_contains same_ip max_by_key max_from
longest_wins = refl

scoped : lookup prefixes table (v4 0xc0a80107) 6 ≡ some 0
unfolding lookup find is_match prefix_contains same_ip max_by_key max_from
scoped = refl

lookup-Answer_example :
    Answer prefixes table (v4 0xc0a80107) 17 (lookup prefixes table (v4 0xc0a80107) 17)
lookup-Answer_example = lookup-Answer prefixes table (v4 0xc0a80107) 17

lookup-remove_session_example :
    lookup prefixes (remove_session prefixes table 4) (v4 0x0a640003) 17 ≢ some 4
lookup-remove_session_example = lookup-remove_session prefixes table 4 (v4 0x0a640003) 17

-- The pool, 10.100.0.0/24; everything; 172.16.0.0/16.
abbrev pool : List Prefix
pool = (v4 0x0a640000, 24) ∷ []

abbrev ranges : List IpAddressRange
ranges =
    record { ip_version = 4; start_ip = v4 0; end_ip = v4 0xffffffff; ip_protocol = 0 }
    ∷ record { ip_version = 4; start_ip = v4 0xac100000; end_ip = v4 0xac10ffff; ip_protocol = 0 }
    ∷ []

one_installed : length (entries_from_client_ranges prefixes 4 ranges pool) ≡ 1
unfolding entries_from_client_ranges push_ranges range_prefixes push_prefixes is_denied overlaps
    prefix_contains network_of sample_subnets one_block as_prefixes
one_installed = refl

entries_from_client_ranges-Installable_example :
    All (Installable prefixes 4 pool) (entries_from_client_ranges prefixes 4 ranges pool)
    × (length (entries_from_client_ranges prefixes 4 ranges pool) ≤ 128)
entries_from_client_ranges-Installable_example =
    entries_from_client_ranges-Installable prefixes 4 ranges pool

pool_holds : any (λ d. prefix_contains d (v4 0x0a640063)) pool ≡ true
unfolding prefix_contains
pool_holds = refl

lookup-replace_session_routes_example :
    lookup prefixes
      (replace_session_routes prefixes table 4 (entries_from_client_ranges prefixes 4 ranges pool))
      (v4 0x0a640063)
      6
    ≡ lookup prefixes (replace_session_routes prefixes table 4 []) (v4 0x0a640063) 6
lookup-replace_session_routes_example =
    lookup-replace_session_routes prefixes prefixes-overlap table 4 ranges pool (v4 0x0a640063) 6
      pool_holds
