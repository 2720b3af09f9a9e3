-- ===== src/Forwarding/Packet.antt =====
-- Models the validation and mutation of packets in src/forwarding/packet.rs.
mod Tests
pub mod Hop
pub mod Total
use straw.Common.{
  ℕ, zero, suc, ◌+◌, ◌-◌, ◌*◌, ◌/◌, ◌%◌, ◌^◌, List, [], ◌∷◌, Bool, true, false, not, ◌&&◌, ◌||◌,
  ◌==◌, leb, ltb, if◌then◌else◌, Option, none, some, Result, ok, err, panic, and_then, length, take,
  set, any, bit_and,
}
use straw.Error.{
  ForwardingError, malformed_packet, source_address_violation, ttl_expired, link_local_drop,
}
use straw.Ip.{IpAddr, v4, v6, be_value}
use straw.Ip.Kinds.{is_unspecified, is_loopback, is_broadcast_v4, is_link_local_v4, first_segment}
use straw.Ip.Nets.{IpNets}
use straw.Capsule.{AssignedAddress}
use straw.Forwarding.Bytes.{read, read16, read_slice, read_prefix, write, lower, put16}
use straw.Forwarding.Checksum.{ipv4_checksum}

pub record PacketInfo : Type 0 where
  pub version : ℕ
  pub src : IpAddr
  pub dst : IpAddr
  pub protocol : ℕ

-- One header of the chain: the protocol at its end, or the next header and where it stands.
pub data HeaderStep : Type 0 where
  final : ℕ → HeaderStep
  skip : ℕ → ℕ → HeaderStep

abbrev pub malformed {ℓ} : {A : Type ℓ} → Result ForwardingError A
malformed = err malformed_packet

-- Hop-by-Hop (0), Routing (43) and Destination Options (60): the length is in 8 octets past the first.
unfoldable pub options_step : List ℕ → ℕ → Result ForwardingError HeaderStep
options_step packet offset =
    if ltb (length packet) (offset + 8)
    then malformed
    else read packet (suc offset) λ b.
      let len = 8 + b * 8 in
      if ltb (length packet) (offset + len)
      then malformed
      else read packet offset λ next. ok (skip next (offset + len))

-- Fragment (44): behind a first fragment the chain goes on.
unfoldable pub fragment_step : List ℕ → ℕ → Result ForwardingError HeaderStep
fragment_step packet offset =
    if ltb (length packet) (offset + 8)
    then malformed
    else read16 packet (offset + 2) λ w.
      if not (w / 8 == 0)
      then ok (final 44)
      else read packet offset λ next. ok (skip next (offset + 8))

-- Authentication (51): the length is in 4 octets, plus 2.
unfoldable pub authentication_step : List ℕ → ℕ → Result ForwardingError HeaderStep
authentication_step packet offset =
    if ltb (length packet) (offset + 8)
    then malformed
    else read packet (suc offset) λ b.
      let len = (b + 2) * 4 in
      if ltb (length packet) (offset + len)
      then malformed
      else read packet offset λ next. ok (skip next (offset + len))

unfoldable pub header_step : List ℕ → ℕ → ℕ → Result ForwardingError HeaderStep
unfolding options_step fragment_step authentication_step
header_step packet next offset =
    if next == 0 || next == 43 || next == 60
    then options_step packet offset
    else if next == 44
    then fragment_step packet offset
    else if next == 51
    then authentication_step packet offset
    else ok (final next)

-- `for _ in 0..8`, over the rounds left.
unfoldable pub walk : ℕ → List ℕ → ℕ → ℕ → Result ForwardingError ℕ
walk zero packet next offset = malformed
walk (suc rounds) packet next offset = elim (header_step packet next offset) [
  | ok step ↦ elim step [
    | final protocol ↦ ok protocol
    | skip next' offset' ↦ walk rounds packet next' offset'
  ]
  | err e ↦ err e
  | panic ↦ panic
]

unfoldable pub ipv6_final_protocol : List ℕ → Result ForwardingError ℕ
unfolding walk
ipv6_final_protocol packet = read packet 6 λ next. walk 8 packet next 40

unfoldable pub parse_v4 : List ℕ → Result ForwardingError PacketInfo
parse_v4 packet =
    if ltb (length packet) 20
    then malformed
    else read packet 0 λ first. read16 packet 2 λ total_len.
      let ihl = first % 16 * 4 in
      if ltb ihl 20 || ltb total_len ihl || not (length packet == total_len)
      then malformed
      else read_slice packet 12 16 λ src. read_slice packet 16 20 λ dst. read packet 9 λ protocol.
        ok (record {
          version = 4;
          src = v4 (be_value src);
          dst = v4 (be_value dst);
          protocol = protocol;
        })

unfoldable pub parse_v6 : List ℕ → Result ForwardingError PacketInfo
unfolding ipv6_final_protocol
parse_v6 packet =
    if ltb (length packet) 40
    then malformed
    else read16 packet 4 λ payload_len.
      if not (length packet == 40 + payload_len)
      then malformed
      else read_slice packet 8 24 λ src. read_slice packet 24 40 λ dst.
        and_then (ipv6_final_protocol packet) λ protocol. ok (record {
          version = 6;
          src = v6 (be_value src);
          dst = v6 (be_value dst);
          protocol = protocol;
        })

unfoldable pub parse_packet : List ℕ → Result ForwardingError PacketInfo
unfolding parse_v4 parse_v6
parse_packet [] = malformed
parse_packet (first ∷ rest) =
    if first / 16 == 4
    then parse_v4 (first ∷ rest)
    else if first / 16 == 6
    then parse_v6 (first ∷ rest)
    else malformed

-- `IpNet::new(..).map(|net| net.contains(&info.src)).unwrap_or(false)`
abbrev pub holds : (nets : IpNets) → IpAddr → AssignedAddress → Bool
holds nets src a = elim (nets.net_of a.ip_address a.prefix_length) [
  | none ↦ false
  | some net ↦ nets.net_contains net src
]

unfoldable pub validate_source :
    IpNets → PacketInfo → List AssignedAddress → Result ForwardingError (Unit {0})
validate_source nets info assigned =
    if any (holds nets info.src) assigned then ok tt else err (source_address_violation info.src)

-- The test of `validate_destination`.
unfoldable pub is_dropped : IpAddr → Bool
is_dropped (v4 a) =
    is_loopback (v4 a) || is_link_local_v4 a || is_unspecified (v4 a) || is_broadcast_v4 a
is_dropped (v6 a) =
    is_loopback (v6 a) || is_unspecified (v6 a) || bit_and (first_segment a) 0xffc0 == 0xfe80

unfoldable pub validate_destination : IpAddr → Result ForwardingError (Unit {0})
unfolding is_dropped
validate_destination dst = if is_dropped dst then err link_local_drop else ok tt

-- The slice of the header panics where the header is longer than the packet.
unfoldable pub recompute_ipv4_checksum : List ℕ → Result ForwardingError (List ℕ)
recompute_ipv4_checksum packet = read packet 0 λ first.
    let ihl = first % 16 * 4 in
    write packet 10 0 λ packet.
      write packet 11 0
        λ packet. read_prefix packet ihl λ head. ok (put16 packet 10 (ipv4_checksum head))

unfoldable pub decrement_v4 : List ℕ → Result ForwardingError (List ℕ)
unfolding recompute_ipv4_checksum
decrement_v4 packet =
    if ltb (length packet) 20
    then malformed
    else read packet 8 λ ttl.
      if leb ttl 1
      then err ttl_expired
      else lower ttl λ ttl'. write packet 8 ttl' λ packet. recompute_ipv4_checksum packet

unfoldable pub decrement_v6 : List ℕ → Result ForwardingError (List ℕ)
decrement_v6 packet =
    if ltb (length packet) 40
    then malformed
    else read packet 7 λ hop_limit.
      if leb hop_limit 1
      then err ttl_expired
      else lower hop_limit λ hop_limit'. write packet 7 hop_limit' λ packet. ok packet

-- An error leaves the packet as it was, so only success gives a new one.
unfoldable pub decrement_ttl : List ℕ → Result ForwardingError (List ℕ)
unfolding decrement_v4 decrement_v6
decrement_ttl [] = malformed
decrement_ttl (first ∷ rest) =
    if first / 16 == 4
    then decrement_v4 (first ∷ rest)
    else if first / 16 == 6
    then decrement_v6 (first ∷ rest)
    else malformed
