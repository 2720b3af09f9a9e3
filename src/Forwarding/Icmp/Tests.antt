-- ===== src/Forwarding/Icmp/Tests.antt =====
-- Runs of src/forwarding/icmp.rs at a concrete packet.
use straw.Common.{ℕ, ◌≡◌, ◌⊎◌, refl, List, [], ◌∷◌, true, ok, none, some, take, drop, arith}
use straw.Ip.{v4, v6, be_value, be_value_from}
use straw.Forwarding.Checksum.{ipv4_checksum, icmpv6_checksum}
use straw.Forwarding.Packet.{PacketInfo, parse_packet, parse_v4}
use straw.Forwarding.Icmp.{
  IcmpSource, time_exceeded, no_route, valid_error_target, write_v4_error, build_v4_error,
  build_icmp_error,
}
use straw.Forwarding.Icmp.Laws.{build_icmp_error_silent}
use straw.Forwarding.Icmp.Format.{build_icmp_error_parses}

-- 10.100.0.2 to 8.8.8.8, UDP, no payload.
abbrev packet : List ℕ
packet = 69 ∷ 0 ∷ 0 ∷ 20 ∷ 0 ∷ 0 ∷ 0 ∷ 0 ∷ 1 ∷ 17 ∷ 0 ∷ 0 ∷ 10 ∷ 100 ∷ 0 ∷ 2 ∷ 8 ∷ 8 ∷ 8 ∷ 8 ∷ []

abbrev info : PacketInfo
info = record { version = 4; src = v4 0x0a640002; dst = v4 0x08080808; protocol = 17 }

abbrev gateways : IcmpSource
gateways = record { v4_addr = 0x0a640001; v6_addr = none }

packet_parsed : parse_packet packet ≡ ok info
unfolding parse_packet parse_v4 be_value be_value_from
packet_parsed = refl

abbrev error : List ℕ
error = write_v4_error time_exceeded 0x0a640001 0x0a640002 packet

answered : build_icmp_error time_exceeded gateways packet ≡ ok (some error)
unfolding build_icmp_error build_v4_error valid_error_target be_value be_value_from
answered = refl

build_icmp_error_silent_example : build_icmp_error no_route gateways error ≡ ok none
build_icmp_error_silent_example =
    build_icmp_error_silent time_exceeded no_route gateways gateways packet error answered

build_icmp_error_parses_example :
    (valid_error_target info.src ≡ true)
    × (((parse_packet error
            ≡ ok (record { version = 4; src = v4 0x0a640001; dst = info.src; protocol = 1 }))
          × (ipv4_checksum (take 20 error) ≡ 0)
          × (ipv4_checksum (drop 20 error) ≡ 0))
        ⊎ ((gateway : ℕ) × (src : ℕ) × (none ≡ some gateway)
            × (info.src ≡ v6 src)
            × (parse_packet error
                ≡ ok (record { version = 6; src = v6 gateway; dst = info.src; protocol = 58 }))
            × (icmpv6_checksum gateway src (drop 40 error) ≡ 0)))
build_icmp_error_parses_example =
    build_icmp_error_parses time_exceeded gateways packet error info (omega arith)
      (λ g e. absurd (ground arith)) (omega arith) packet_parsed answered
