-- ===== src/Datagram/Tests.antt =====
-- The theorems on datagrams at concrete inputs.
use straw.Common.{ℕ, ◌≡◌, leb, length, refl, List, [], ◌∷◌, some, ok, arith}
use straw.Buffer.{done}
use straw.Datagram.{ip_packet, max_ip_packet_size, encode_quic_datagram, decode_quic_datagram}
use straw.Datagram.Laws.{
  fits, decode_quic_datagram-encode_quic_datagram, max_ip_packet_size-encode_quic_datagram,
}
use straw.Datagram.Registry

abbrev packet : List ℕ
packet = 0x45 ∷ 0 ∷ 0 ∷ 0x14 ∷ []

decode_quic_datagram-encode_quic_datagram_example :
    (bytes : List ℕ) × (encode_quic_datagram 70 (ip_packet packet) ≡ ok bytes)
    × (decode_quic_datagram bytes ≡ done (70, ip_packet packet) [])
decode_quic_datagram-encode_quic_datagram_example =
    decode_quic_datagram-encode_quic_datagram 70 (ip_packet packet) (omega arith) (omega arith)

max_ip_packet_size-encode_quic_datagram_example :
    (bytes : List ℕ) × (encode_quic_datagram 70 (ip_packet packet) ≡ ok bytes)
    × (leb (length bytes) 7 ≡ fits (max_ip_packet_size 7 70) (length packet))
max_ip_packet_size-encode_quic_datagram_example =
    max_ip_packet_size-encode_quic_datagram 7 70 packet (omega arith)

-- A new registry knows context 0, and what is registered after it.
default_known : Registry.lookup Registry.new 0 ≡ some Registry.ip_packet
unfolding Registry.lookup Registry.new
default_known = refl

registered_known :
    Registry.lookup (Registry.register Registry.new 2 Registry.ip_packet) 2
    ≡ some Registry.ip_packet
unfolding Registry.lookup Registry.new Registry.register
registered_known = refl
