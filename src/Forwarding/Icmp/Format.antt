-- ===== src/Forwarding/Icmp/Format.antt =====
-- The format of the errors of src/forwarding/icmp.rs.
use straw.Common.{
  ℕ, ◌+◌, ◌*◌, ◌%◌, ◌^◌, ◌≤◌, ◌<◌, ◌≡◌, ◌⊎◌, inl, inr, refl, ap, sym, ◌∙◌, List, ◌∷◌, ◌++◌, true,
  some, ok, length, take, drop, All, All-take, All-drop, min, length-take, length-drop, arith,
}
use straw.Ip.{v4, v6, be_value}
use straw.Ip.Octets.{IsByte, be_value-lt}
use straw.Forwarding.Bytes.{byte, slice, put16, length-put16}
use straw.Forwarding.Checksum.{ipv4_checksum, icmpv6_checksum}
use straw.Forwarding.Checksum.Laws.{ipv4_checksum-put16}
use straw.Forwarding.Packet.{PacketInfo, parse_packet, parse_v4, parse_v6}
use straw.Forwarding.Packet.Hop.{parsed, parsed_v4, parsed_v6}
use straw.Forwarding.Echo.Laws.{
  header_v4_parses, header_v4_verifies, drop-header_v4, header_v6_parses, drop-header_v6,
  message_v6_verifies,
}
use straw.Forwarding.Icmp.{
  IcmpErrorKind, time_exceeded, no_route, admin_prohibited, packet_too_big, IcmpSource,
  valid_error_target, error_v4, error_v6, write_v4_error, write_v6_error, build_icmp_error,
}
use straw.Forwarding.Icmp.Laws.{
  message, filled_v4, write_v4_lem, write_v6_lem, quote_v4, quote_v6, built_v4, built_v6, by_v4,
  by_v6, Built-cases,
}

message_v4_bytes :
    (kind : IcmpErrorKind) (quoted : List ℕ)
    → All IsByte quoted
    → All IsByte (message (error_v4 kind) quoted)
unfolding message
message_v4_bytes time_exceeded quoted h = (
  omega arith,
  (
    omega arith,
    (omega arith, (omega arith, (omega arith, (omega arith, (omega arith, (omega arith, h)))))),
  ),
)
message_v4_bytes no_route quoted h = (
  omega arith,
  (
    omega arith,
    (omega arith, (omega arith, (omega arith, (omega arith, (omega arith, (omega arith, h)))))),
  ),
)
message_v4_bytes admin_prohibited quoted h = (
  omega arith,
  (
    omega arith,
    (omega arith, (omega arith, (omega arith, (omega arith, (omega arith, (omega arith, h)))))),
  ),
)
message_v4_bytes (packet_too_big mtu) quoted h = (
  omega arith,
  (
    omega arith,
    (omega arith, (omega arith, (omega arith, (omega arith, (omega arith, (omega arith, h)))))),
  ),
)

length-message_v4 :
    (kind : IcmpErrorKind) (quoted : List ℕ)
    → length (message (error_v4 kind) quoted) ≡ 8 + length quoted
unfolding message
length-message_v4 time_exceeded quoted = omega arith
length-message_v4 no_route quoted = omega arith
length-message_v4 admin_prohibited quoted = omega arith
length-message_v4 (packet_too_big mtu) quoted = omega arith

format_v4 :
    (kind : IcmpErrorKind) (gateway src : ℕ) (quoted : List ℕ)
    → gateway < 2 ^ 32
    → src < 2 ^ 32
    → All IsByte quoted
    → 28 + length quoted < 2 ^ 16
    → let error = write_v4_error kind gateway src quoted in
      (parse_packet error
        ≡ ok (record { version = 4; src = v4 gateway; dst = v4 src; protocol = 1 }))
      × (ipv4_checksum (take 20 error) ≡ 0)
      × (ipv4_checksum (drop 20 error) ≡ 0)
unfolding filled_v4
format_v4 kind gateway src quoted hg hs hq small =
    let m = message (error_v4 kind) quoted in
    let size : length m ≡ 8 + length quoted = length-message_v4 kind quoted in
    let size' : length (filled_v4 m) ≡ 8 + length quoted =
      length-put16 m 2 (ipv4_checksum m) ∙ size in
    let total_len = 20 + (8 + length quoted) in
    rw (write_v4_lem kind gateway src quoted) (
      header_v4_parses total_len 64 gateway src (filled_v4 m) (omega (arith, size')) (omega arith)
          hg hs,
      header_v4_verifies total_len 64 gateway src (filled_v4 m) (omega arith),
      ap ipv4_checksum (drop-header_v4 total_len 64 gateway src (filled_v4 m))
          ∙ ipv4_checksum-put16 m 1 (message_v4_bytes kind quoted hq) (omega (arith, size))
              (omega (arith, size)) (unfold message in refl) (unfold message in refl),
    )

error_v6_fields :
    (kind : IcmpErrorKind) (quoted : List ℕ)
    → All IsByte quoted
    → let (icmp_type, code, rest) = error_v6 kind in
      (length (rest ++ quoted) ≡ 4 + length quoted)
      × All IsByte (icmp_type ∷ code ∷ (rest ++ quoted))
error_v6_fields time_exceeded quoted h = (
  omega arith,
  (omega arith, (omega arith, (omega arith, (omega arith, (omega arith, (omega arith, h)))))),
)
error_v6_fields no_route quoted h = (
  omega arith,
  (omega arith, (omega arith, (omega arith, (omega arith, (omega arith, (omega arith, h)))))),
)
error_v6_fields admin_prohibited quoted h = (
  omega arith,
  (omega arith, (omega arith, (omega arith, (omega arith, (omega arith, (omega arith, h)))))),
)
error_v6_fields (packet_too_big mtu) quoted h = (
  omega arith,
  (omega arith, (omega arith, (omega arith, (omega arith, (omega arith, (omega arith, h)))))),
)

format_v6 :
    (kind : IcmpErrorKind) (gateway src : ℕ) (quoted : List ℕ)
    → gateway < 2 ^ 128
    → src < 2 ^ 128
    → All IsByte quoted
    → 48 + length quoted < 2 ^ 16
    → let error = write_v6_error kind gateway src quoted in
      (parse_packet error
        ≡ ok (record { version = 6; src = v6 gateway; dst = v6 src; protocol = 58 }))
      × (icmpv6_checksum gateway src (drop 40 error) ≡ 0)
format_v6 kind gateway src quoted hg hs hq small =
    let (icmp_type, code, rest) = error_v6 kind in
    let m = message (error_v6 kind) quoted in
    let c = icmpv6_checksum gateway src m in
    let (size, bytes) = error_v6_fields kind quoted hq in
    let size' : length (put16 m 2 c) ≡ 8 + length quoted =
      length-put16 m 2 c ∙ unfold message in omega (arith, size) in
    rw (write_v6_lem kind gateway src quoted) (
      header_v6_parses (8 + length quoted) 64 gateway src (put16 m 2 c) (omega (arith, size'))
          (omega arith) hg hs,
      ap (icmpv6_checksum gateway src)
            (drop-header_v6 (8 + length quoted) 64 gateway src (put16 m 2 c))
          ∙ unfold message in
            message_v6_verifies gateway src icmp_type code (rest ++ quoted) bytes
              (omega (arith, size)),
    )

-- The source of a packet of bytes is in range, and the quote is short.
source_v4 : (o : List ℕ) → All IsByte o → 20 ≤ length o → be_value (slice o 12 16) < 2 ^ 32
source_v4 o h long =
    let size : length (slice o 12 16) ≡ 4 =
      omega (arith, length-take 4 (drop 12 o), length-drop 12 o) in
    rw size at
      (be_value-lt (slice o 12 16) (All-take IsByte 4 (drop 12 o) (All-drop IsByte 12 o h)))

source_v6 : (o : List ℕ) → All IsByte o → 40 ≤ length o → be_value (slice o 8 24) < 2 ^ 128
source_v6 o h long =
    let size : length (slice o 8 24) ≡ 16 =
      omega (arith, length-take 16 (drop 8 o), length-drop 8 o) in
    rw size at (be_value-lt (slice o 8 24) (All-take IsByte 16 (drop 8 o) (All-drop IsByte 8 o h)))

length-quote_v4 : (o : List ℕ) → length (quote_v4 o) ≤ 68
length-quote_v4 o = omega (arith, length-take (min (length o) (byte o 0 % 16 * 4 + 8)) o)

length-quote_v6 : (o : List ℕ) → length (quote_v6 o) ≤ 48
length-quote_v6 o = omega (arith, length-take (min (length o) 48) o)

parsed_src_v4 :
    (o : List ℕ) (info : PacketInfo)
    → parse_v4 o ≡ ok info
    → info.src ≡ v4 (be_value (slice o 12 16))
unfolding parse_v4
parsed_src_v4 o info e = ground arith

parsed_src_v6 :
    (o : List ℕ) (info : PacketInfo)
    → parse_v6 o ≡ ok info
    → info.src ≡ v6 (be_value (slice o 8 24))
unfolding parse_v6
parsed_src_v6 o info e = ground arith

-- An error that the proxy builds for a packet of bytes that `parse_packet` accepts, from gateways in
-- range, goes to a source address that is a valid target: it parses as an ICMP packet from the gateway
-- of the packet's version to the packet's source, and the checksums of its IPv4 header and of its
-- message verify.
pub build_icmp_error_parses :
    (kind : IcmpErrorKind) (source : IcmpSource) (original error : List ℕ) (info : PacketInfo)
    → source.v4_addr < 2 ^ 32
    → ((g : ℕ) → source.v6_addr ≡ some g → g < 2 ^ 128)
    → All IsByte original
    → parse_packet original ≡ ok info
    → build_icmp_error kind source original ≡ ok (some error)
    → (valid_error_target info.src ≡ true)
      × (((parse_packet error
              ≡ ok (record { version = 4; src = v4 source.v4_addr; dst = info.src; protocol = 1 }))
            × (ipv4_checksum (take 20 error) ≡ 0)
            × (ipv4_checksum (drop 20 error) ≡ 0))
          ⊎ ((gateway : ℕ) × (src : ℕ) × (source.v6_addr ≡ some gateway)
              × (info.src ≡ v6 src)
              × (parse_packet error
                  ≡ ok (record { version = 6; src = v6 gateway; dst = info.src; protocol = 58 }))
              × (icmpv6_checksum gateway src (drop 40 error) ≡ 0)))
build_icmp_error_parses kind source o error info h4 h6 hb e built =
    let (some_bytes, which) = parsed o info e in
    elim which [
      | inl (four, e4) ↦ elim (Built-cases kind source o error built) [
        | by_v4 four' b ↦
            let (long, _, _, _) = parsed_v4 o info e4 in
            let (same, target, _) = built_v4 kind source.v4_addr o error b in
            let from = parsed_src_v4 o info e4 in
            let src = be_value (slice o 12 16) in
            let formed =
              format_v4 kind source.v4_addr src (quote_v4 o) h4 (source_v4 o hb long)
                (All-take IsByte (min (length o) (byte o 0 % 16 * 4 + 8)) o hb)
                (omega (arith, length-quote_v4 o)) in
            (rw from target, inl (rw (from, sym same) formed))
        | by_v6 gateway found six b ↦ absurd (omega arith)
      ]
      | inr (six, e6) ↦ elim (Built-cases kind source o error built) [
        | by_v4 four' b ↦ absurd (omega arith)
        | by_v6 gateway found six' b ↦
            let (long, _) = parsed_v6 o info e6 in
            let (same, target, _) = built_v6 kind gateway o error b in
            let from = parsed_src_v6 o info e6 in
            let src = be_value (slice o 8 24) in
            let formed =
              format_v6 kind gateway src (quote_v6 o) (h6 gateway found) (source_v6 o hb long)
                (All-take IsByte (min (length o) 48) o hb) (omega (arith, length-quote_v6 o)) in
            let (parses, sums) = formed in
            (
              rw from target,
              inr (gateway, src, found, from, rw (from, sym same) parses, rw (sym same) sums),
            )
      ]
    ]
