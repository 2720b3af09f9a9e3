-- ===== src/Forwarding/Engine/Tests.antt =====
-- Runs of the engine of src/forwarding/mod.rs on a concrete table.
use straw.Common.{ℕ, ◌≡◌, refl, List, [], ◌∷◌, true, none, ok, get}
use straw.Ip.{v4, be_value, be_value_from, same_ip}
use straw.Ip.Nets.Sample.{prefixes, prefix_contains, prefix_of}
use straw.Ip.Table.{find}
use straw.Capsule.{AssignedAddress}
use straw.Capsule.Ranges.{contains as range_contains}
use straw.Forwarding.Packet.{
  parse_packet, parse_v4, validate_source, validate_destination, is_dropped, decrement_ttl,
  decrement_v4, recompute_ipv4_checksum,
}
use straw.Forwarding.Router.{lookup, max_by_key}
use straw.Forwarding.Effects.{Network, Effects}
use straw.Forwarding.Engine.{channel, datagram, ForwardingEngine, EgressPolicy, tun, allows, send}
use straw.Forwarding.Engine.Paths.{
  policy_allows, after_decrement, hop, to_network, route, egress, checked, forward_validated, tally,
  tallied, admit, after_admit, forward_from_client, dispatch_from_network,
}
use straw.Forwarding.Engine.Egress.{Handled}
use straw.Forwarding.Engine.Client.{forward_from_client-Handled}
use straw.Forwarding.Engine.Dispatch.{Dispatched, dispatch_from_network-Dispatched}

-- Everything is taken, and no connection bounds its datagrams.
abbrev network : Network
network = record { accepts = λ sent output. true; max_datagram_size = λ sent conn. none }

abbrev everywhere : EgressPolicy
everywhere = record {
  ranges = record { ip_version = 4; start_ip = v4 0; end_ip = v4 0xffffffff; ip_protocol = 0 } ∷ [];
}

-- Two sessions, 10.100.0.2 on a channel and 10.100.0.3 on a connection.
abbrev engine : ForwardingEngine prefixes
engine = record {
  route_table = record { routes = []; client_addrs = (v4 0x0a640002, 0) ∷ (v4 0x0a640003, 4) ∷ [] };
  session_sinks = (0, channel 7) ∷ (4, datagram 8 1) ∷ [];
  session_notify = [];
  policies = (0, everywhere) ∷ (4, everywhere) ∷ [];
  limiters = [];
  session_mtus = (4, 1200) ∷ [];
  tun_tx = true;
  mtu = 1400;
  icmp_source = record { v4_addr = 0x0a640001; v6_addr = none };
  limits = record { packets_per_sec = 0; bytes_per_sec = 0 };
}

abbrev assigned : List AssignedAddress
assigned =
    record { request_id = 0; ip_version = 4; ip_address = v4 0x0a640002; prefix_length = 32 } ∷ []

abbrev start : Effects
start = record {
  metrics = record {
    sessions_total = 2;
    auth_failures_total = 0;
    packets_hairpin_total = 0;
    packets_tun_out_total = 0;
    packets_to_client_total = 0;
    packets_dropped_total = 0;
    packets_rate_limited_total = 0;
    packets_mtu_dropped_total = 0;
    icmp_errors_sent_total = 0;
    bytes_from_client_total = 0;
    bytes_to_client_total = 0;
  };
  sent = [];
}

-- From 10.100.0.2, to 8.8.8.8 and to 10.100.0.3.
abbrev outward : List ℕ
outward = 69 ∷ 0 ∷ 0 ∷ 20 ∷ 0 ∷ 0 ∷ 0 ∷ 0 ∷ 64 ∷ 17 ∷ 0 ∷ 0 ∷ 10 ∷ 100 ∷ 0 ∷ 2 ∷ 8 ∷ 8 ∷ 8 ∷ 8 ∷ []

abbrev inward : List ℕ
inward = 69 ∷ 0 ∷ 0 ∷ 20 ∷ 0 ∷ 0 ∷ 0 ∷ 0 ∷ 64 ∷ 17 ∷ 0 ∷ 0 ∷ 8 ∷ 8 ∷ 8 ∷ 8 ∷ 10 ∷ 100 ∷ 0 ∷ 2 ∷ []

goes_out : (forward_from_client prefixes network engine 0 assigned outward 0 start).0.0 ≡ ok tun
unfolding forward_from_client admit after_admit tallied tally forward_validated checked egress hop
    after_decrement route to_network send parse_packet parse_v4 be_value be_value_from
    validate_source prefix_contains prefix_of validate_destination is_dropped policy_allows allows
    range_contains decrement_ttl decrement_v4 recompute_ipv4_checksum lookup find same_ip max_by_key
    get
goes_out = refl

forward_from_client-Handled_example :
    Handled prefixes network engine 0 assigned outward start
      (forward_from_client prefixes network engine 0 assigned outward 0 start).0
forward_from_client-Handled_example =
    forward_from_client-Handled prefixes network engine 0 assigned outward 0 start

dispatch_from_network-Dispatched_example :
    Dispatched prefixes network engine inward start
      (dispatch_from_network prefixes network engine inward start)
dispatch_from_network-Dispatched_example =
    dispatch_from_network-Dispatched prefixes network engine inward start
