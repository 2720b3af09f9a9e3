-- ===== src/Forwarding/Icmp.antt =====
-- Models src/forwarding/icmp.rs: the ICMP errors that the proxy sends back about dropped packets.
mod Tests
pub mod Format
pub mod Laws
pub mod Total
use straw.Common.{
  ℕ, ◌+◌, ◌*◌, ◌/◌, ◌%◌, min, List, [], ◌∷◌, Bool, true, not, ◌&&◌, ◌||◌, ◌==◌, ltb, if◌then◌else◌,
  Option, none, some, Result, ok, and_then, false, length, take, drop, set, replicate,
}
use straw.Error.{ForwardingError}
use straw.Ip.{IpAddr, v4, v6, be_value, be_bytes}
use straw.Ip.Kinds.{is_unspecified, is_loopback, is_multicast, is_broadcast_v4}
use straw.Forwarding.Bytes.{read, read_slice, read_prefix, put, put16}
use straw.Forwarding.Checksum.{ipv4_checksum, icmpv6_checksum}
use straw.Forwarding.Echo.{ipv4_header, ipv6_header, put_tail}

pub data IcmpErrorKind : Type 0 where
  time_exceeded : IcmpErrorKind
  no_route : IcmpErrorKind
  admin_prohibited : IcmpErrorKind
  packet_too_big : ℕ → IcmpErrorKind

-- The addresses as numbers.
pub record IcmpSource : Type 0 where
  pub v4_addr : ℕ
  pub v6_addr : Option ℕ

unfoldable pub valid_error_target : IpAddr → Bool
valid_error_target (v4 a) =
    not (is_unspecified (v4 a))
    && not (is_loopback (v4 a))
    && not (is_multicast (v4 a))
    && not (is_broadcast_v4 a)
valid_error_target (v6 a) =
    not (is_unspecified (v6 a)) && not (is_loopback (v6 a)) && not (is_multicast (v6 a))

-- Type, code and the rest of the header.
abbrev pub error_v4 : IcmpErrorKind → ℕ × ℕ × List ℕ
error_v4 time_exceeded = (11, 0, 0 ∷ 0 ∷ 0 ∷ 0 ∷ [])
error_v4 no_route = (3, 0, 0 ∷ 0 ∷ 0 ∷ 0 ∷ [])
error_v4 admin_prohibited = (3, 13, 0 ∷ 0 ∷ 0 ∷ 0 ∷ [])
error_v4 (packet_too_big mtu) = (3, 4, 0 ∷ 0 ∷ mtu / 256 % 256 ∷ mtu % 256 ∷ [])

abbrev pub error_v6 : IcmpErrorKind → ℕ × ℕ × List ℕ
error_v6 time_exceeded = (3, 0, 0 ∷ 0 ∷ 0 ∷ 0 ∷ [])
error_v6 no_route = (1, 0, 0 ∷ 0 ∷ 0 ∷ 0 ∷ [])
error_v6 admin_prohibited = (1, 1, 0 ∷ 0 ∷ 0 ∷ 0 ∷ [])
error_v6 (packet_too_big mtu) = (2, 0, 0 ∷ 0 ∷ mtu / 256 % 256 ∷ mtu % 256 ∷ [])

-- `original[9] == 1 && original.len() > ihl && matches!(original[ihl], 3 | 4 | 5 | 11 | 12)`
abbrev pub is_error_v4 : List ℕ → ℕ → Result ForwardingError Bool
is_error_v4 original ihl = read original 9 λ protocol.
    if not (protocol == 1 && ltb ihl (length original))
    then ok false
    else read original ihl λ icmp_type.
      ok (icmp_type == 3 || icmp_type == 4 || icmp_type == 5 || icmp_type == 11 || icmp_type == 12)

-- `original[6] == 58 && original.len() > 40 && original[40] < 128`
abbrev pub is_error_v6 : List ℕ → Result ForwardingError Bool
is_error_v6 original = read original 6 λ next.
    if not (next == 58 && ltb 40 (length original))
    then ok false
    else read original 40 λ icmp_type. ok (ltb icmp_type 128)

-- The packet: header, error, quote.
unfoldable pub write_v4_error : IcmpErrorKind → ℕ → ℕ → List ℕ → List ℕ
unfolding ipv4_header put
write_v4_error kind gateway orig_src quoted =
    let (icmp_type, code, rest_of_header) = error_v4 kind in
    let total_len = 20 + (8 + length quoted) in
    let packet = ipv4_header total_len 64 gateway orig_src (replicate total_len 0) in
    let packet = set packet 20 icmp_type in
    let packet = set packet 21 code in
    let packet = put packet 24 rest_of_header in
    let packet = put_tail packet 28 quoted in put16 packet 22 (ipv4_checksum (drop 20 packet))

-- Such a function answers `none` for no error, and panics where a read is out of range.
unfoldable pub build_v4_error :
    IcmpErrorKind → ℕ → List ℕ → Result ForwardingError (Option (List ℕ))
unfolding write_v4_error valid_error_target
build_v4_error kind gateway original =
    if ltb (length original) 20
    then ok none
    else read original 0 λ first.
      let ihl = first % 16 * 4 in
      if ltb ihl 20 || ltb (length original) ihl
      then ok none
      else read_slice original 12 16 λ src.
        let orig_src = be_value src in
        if not (valid_error_target (v4 orig_src))
        then ok none
        else and_then (is_error_v4 original ihl) λ is_error.
          if is_error
          then ok none
          else read_prefix original (min (length original) (ihl + 8))
              λ quoted. ok (some (write_v4_error kind gateway orig_src quoted))

unfoldable pub write_v6_error : IcmpErrorKind → ℕ → ℕ → List ℕ → List ℕ
unfolding ipv6_header put
write_v6_error kind gateway orig_src quoted =
    let (icmp_type, code, rest_of_header) = error_v6 kind in
    let icmp_len = 8 + length quoted in
    let packet = ipv6_header icmp_len 64 gateway orig_src (replicate (40 + icmp_len) 0) in
    let packet = set packet 40 icmp_type in
    let packet = set packet 41 code in
    let packet = put packet 44 rest_of_header in
    let packet = put_tail packet 48 quoted in
    put16 packet 42 (icmpv6_checksum gateway orig_src (drop 40 packet))

unfoldable pub build_v6_error :
    IcmpErrorKind → ℕ → List ℕ → Result ForwardingError (Option (List ℕ))
unfolding write_v6_error valid_error_target
build_v6_error kind gateway original =
    if ltb (length original) 40
    then ok none
    else read_slice original 8 24 λ src.
      let orig_src = be_value src in
      if not (valid_error_target (v6 orig_src))
      then ok none
      else and_then (is_error_v6 original) λ is_error.
        if is_error
        then ok none
        else read_prefix original (min (length original) 48)
            λ quoted. ok (some (write_v6_error kind gateway orig_src quoted))

unfoldable pub build_icmp_error :
    IcmpErrorKind → IcmpSource → List ℕ → Result ForwardingError (Option (List ℕ))
unfolding build_v4_error build_v6_error
build_icmp_error kind source [] = ok none
build_icmp_error kind source (first ∷ rest) =
    if first / 16 == 4
    then build_v4_error kind source.v4_addr (first ∷ rest)
    else if first / 16 == 6
    then elim source.v6_addr [
      | none ↦ ok none
      | some gateway ↦ build_v6_error kind gateway (first ∷ rest)
    ]
    else ok none
