-- ===== src/Forwarding/Packet/Total.antt =====
-- The functions of src/forwarding/packet.rs do not panic.
use straw.Common.{
  ℕ, zero, suc, ◌≡◌, ◌≢◌, ◌≤◌, inl, inr, refl, List, [], ◌∷◌, All, Result, ok, err, panic, arith,
  and_then, length, ltb, true, Bool-cases,
}
use straw.Error.{ForwardingError}
use straw.Ip.{IpAddr, v6, be_value}
use straw.Ip.Nets.{IpNets}
use straw.Ip.Octets.{IsByte}
use straw.Forwarding.Bytes.{byte, slice}
use straw.Capsule.{AssignedAddress}
use straw.Forwarding.Packet.{
  PacketInfo, options_step, fragment_step, authentication_step, header_step, walk,
  ipv6_final_protocol, parse_v4, parse_v6, parse_packet, validate_source, validate_destination,
  decrement_ttl,
}
use straw.Forwarding.Packet.Hop.{HeaderStep-cases, decrement_ttl-IsHop}

header_step_total : (packet : List ℕ) (next offset : ℕ) → header_step packet next offset ≢ panic
unfolding header_step options_step fragment_step authentication_step
header_step_total packet next offset h = ground (arith, h)

walk_total :
    (rounds : ℕ) (packet : List ℕ) (next offset : ℕ) → walk rounds packet next offset ≢ panic
unfolding walk
walk_total zero packet next offset h = ground (arith, h)
walk_total (suc rounds) packet next offset h =
    elim (HeaderStep-cases (header_step packet next offset)) [
      | inl (x, e) ↦ absurd (let gone = rw (walk, e) at h in ground (arith, gone))
      | inr (inl (a, b, e)) ↦ walk_total rounds packet a b (rw (walk, e) at h)
      | inr (inr (inl (x, e))) ↦ absurd (let gone = rw (walk, e) at h in ground (arith, gone))
      | inr (inr (inr e)) ↦ header_step_total packet next offset e
    ]

parse_v4_total : (packet : List ℕ) → parse_v4 packet ≢ panic
unfolding parse_v4
parse_v4_total packet h = ground (arith, h)

ipv6_final_protocol_total :
    (packet : List ℕ) → 40 ≤ length packet → ipv6_final_protocol packet ≢ panic
unfolding ipv6_final_protocol
ipv6_final_protocol_total packet long h =
    let inside : ltb 6 (length packet) ≡ true = ground arith in
    walk_total 8 packet (byte packet 6) 40 (rw inside at h)

and_then-ok-total :
    {A B : Type 0} (r : Result ForwardingError A) (f : A → B)
    → r ≢ panic
    → and_then r (λ a. ok (f a)) ≢ panic
and_then-ok-total (ok a) f h e = ground (arith, e)
and_then-ok-total (err x) f h e = ground (arith, e)
and_then-ok-total panic f h e = h refl

parse_v6_total : (packet : List ℕ) → parse_v6 packet ≢ panic
unfolding parse_v6
parse_v6_total packet h = elim (Bool-cases (ltb (length packet) 40)) [
  | inl short ↦ absurd (let gone = rw (short, parse_v6) at h in ground (arith, gone))
  | inr long ↦
      and_then-ok-total {B = PacketInfo} (ipv6_final_protocol packet)
        (λ protocol. record {
          version = 6;
          src = v6 (be_value (slice packet 8 24));
          dst = v6 (be_value (slice packet 24 40));
          protocol = protocol;
        })
        (ipv6_final_protocol_total packet (ground (arith, long))) (ground (arith, h, long))
]

pub parse_packet_total : (packet : List ℕ) → parse_packet packet ≢ panic
unfolding parse_packet
parse_packet_total [] h = ground (arith, h)
parse_packet_total (f ∷ r) h = ground (arith, h, parse_v4_total (f ∷ r), parse_v6_total (f ∷ r))

pub validate_source_total :
    (nets : IpNets) (info : PacketInfo) (assigned : List AssignedAddress)
    → validate_source nets info assigned ≢ panic
unfolding validate_source
validate_source_total nets info assigned h = ground (arith, h)

pub validate_destination_total : (dst : IpAddr) → validate_destination dst ≢ panic
unfolding validate_destination
validate_destination_total dst h = ground (arith, h)

pub decrement_ttl_total :
    (packet : List ℕ) (info : PacketInfo)
    → All IsByte packet
    → parse_packet packet ≡ ok info
    → decrement_ttl packet ≢ panic
decrement_ttl_total packet info bytes parses h =
    elim (decrement_ttl-IsHop packet info bytes parses) [
      | inl (_, expired) ↦ absurd (ground (arith, h, expired))
      | inr (packet', hopped, _) ↦ absurd (ground (arith, h, hopped))
    ]
