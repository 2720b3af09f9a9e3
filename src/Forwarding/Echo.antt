-- ===== src/Forwarding/Echo.antt =====
-- Models the ICMP echo builders of src/forwarding/packet.rs.
mod Tests
pub mod Laws
use straw.Common.{
  ℕ, ◌+◌, List, [], ◌∷◌, ◌++◌, Bool, if◌then◌else◌, length, take, drop, set, replicate,
}
use straw.Ip.{IpAddr, v4, v6, octets}
use straw.Forwarding.Bytes.{put, put16}
use straw.Forwarding.Checksum.{ipv4_checksum, icmpv6_checksum}

-- `packet[i..].copy_from_slice(bytes)`, where the rest of the packet is as long as `bytes`.
abbrev pub put_tail : List ℕ → ℕ → List ℕ → List ℕ
put_tail packet i bytes = take i packet ++ bytes

-- The header with its checksum, in a packet that is zero otherwise.
unfoldable pub ipv4_header : ℕ → ℕ → ℕ → ℕ → List ℕ → List ℕ
unfolding put octets
ipv4_header total_len ttl src dst packet =
    let packet = set packet 0 0x45 in
    let packet = put16 packet 2 total_len in
    let packet = set packet 8 ttl in
    let packet = set packet 9 1 in
    let packet = put packet 12 (octets (v4 src)) in
    let packet = put packet 16 (octets (v4 dst)) in put16 packet 10 (ipv4_checksum (take 20 packet))

unfoldable pub build_ipv4_icmp_echo : ℕ → ℕ → Bool → ℕ → ℕ → List ℕ → ℕ → List ℕ
unfolding ipv4_header
build_ipv4_icmp_echo src dst is_reply identifier sequence payload ttl =
    let total_len = 20 + (8 + length payload) in
    let packet = ipv4_header total_len ttl src dst (replicate total_len 0) in
    let packet = set packet 20 (if is_reply then 0 else 8) in
    let packet = put16 packet 24 identifier in
    let packet = put16 packet 26 sequence in
    let packet = put_tail packet 28 payload in put16 packet 22 (ipv4_checksum (drop 20 packet))

unfoldable pub ipv6_header : ℕ → ℕ → ℕ → ℕ → List ℕ → List ℕ
unfolding put octets
ipv6_header icmp_len hop_limit src dst packet =
    let packet = set packet 0 0x60 in
    let packet = put16 packet 4 icmp_len in
    let packet = set packet 6 58 in
    let packet = set packet 7 hop_limit in
    let packet = put packet 8 (octets (v6 src)) in put packet 24 (octets (v6 dst))

unfoldable pub build_ipv6_icmpv6_echo : ℕ → ℕ → Bool → ℕ → ℕ → List ℕ → ℕ → List ℕ
unfolding ipv6_header
build_ipv6_icmpv6_echo src dst is_reply identifier sequence payload hop_limit =
    let icmp_len = 8 + length payload in
    let packet = ipv6_header icmp_len hop_limit src dst (replicate (40 + icmp_len) 0) in
    let packet = set packet 40 (if is_reply then 129 else 128) in
    let packet = put16 packet 44 identifier in
    let packet = put16 packet 46 sequence in
    let packet = put_tail packet 48 payload in
    put16 packet 42 (icmpv6_checksum src dst (drop 40 packet))
