-- ===== src/Forwarding/Echo/Tests.antt =====
-- Runs of the echo builders of src/forwarding at concrete arguments.
use straw.Common.{ℕ, ◌≡◌, List, [], ◌∷◌, false, true, ok, take, drop, arith}
use straw.Ip.{v4, v6}
use straw.Forwarding.Checksum.{ipv4_checksum, icmpv6_checksum}
use straw.Forwarding.Packet.{parse_packet}
use straw.Forwarding.Echo.{build_ipv4_icmp_echo, build_ipv6_icmpv6_echo}
use straw.Forwarding.Echo.Laws.{build_ipv4_icmp_echo_lem, build_ipv6_icmpv6_echo_lem}

abbrev payload : List ℕ
payload = 104 ∷ 105 ∷ 33 ∷ []

abbrev request : List ℕ
request = build_ipv4_icmp_echo 0x0a640002 0x08080808 false 7 1 payload 64

build_ipv4_icmp_echo_lem_example :
    (parse_packet request
      ≡ ok (record { version = 4; src = v4 0x0a640002; dst = v4 0x08080808; protocol = 1 }))
    × (ipv4_checksum (take 20 request) ≡ 0)
    × (ipv4_checksum (drop 20 request) ≡ 0)
build_ipv4_icmp_echo_lem_example =
    build_ipv4_icmp_echo_lem 0x0a640002 0x08080808 false 7 1 payload 64 (omega arith) (omega arith)
      (omega arith) (omega arith) (omega arith)

abbrev reply : List ℕ
reply =
    build_ipv6_icmpv6_echo 0xfd000000000000000000000000000001 0xfd000000000000000000000000000002
      true 7 1 payload 64

build_ipv6_icmpv6_echo_lem_example :
    (parse_packet reply
      ≡ ok (record {
        version = 6;
        src = v6 0xfd000000000000000000000000000001;
        dst = v6 0xfd000000000000000000000000000002;
        protocol = 58;
      }))
    × (icmpv6_checksum 0xfd000000000000000000000000000001 0xfd000000000000000000000000000002
          (drop 40 reply)
        ≡ 0)
build_ipv6_icmpv6_echo_lem_example =
    build_ipv6_icmpv6_echo_lem 0xfd000000000000000000000000000001 0xfd000000000000000000000000000002
      true 7 1 payload 64 (omega arith) (omega arith) (omega arith) (omega arith) (omega arith)
