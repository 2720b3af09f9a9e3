-- ===== src/Forwarding/Packet/Tests.antt =====
-- Runs of src/forwarding/packet.rs at concrete packets.
use straw.Common.{ℕ, ◌≡◌, ◌⊎◌, ◌≤◌, refl, List, [], ◌∷◌, err, ok, arith}
use straw.Error.{ttl_expired}
use straw.Ip.{v4, be_value, be_value_from}
use straw.Forwarding.Bytes.{byte}
use straw.Forwarding.Packet.{PacketInfo, parse_packet, parse_v4, decrement_ttl}
use straw.Forwarding.Packet.Hop.{IsHop, ttl_place, decrement_ttl-IsHop}

-- 10.100.0.2 to 8.8.8.8, UDP, no payload.
abbrev packet : List ℕ
packet = 69 ∷ 0 ∷ 0 ∷ 20 ∷ 0 ∷ 0 ∷ 0 ∷ 0 ∷ 64 ∷ 17 ∷ 0 ∷ 0 ∷ 10 ∷ 100 ∷ 0 ∷ 2 ∷ 8 ∷ 8 ∷ 8 ∷ 8 ∷ []

abbrev info : PacketInfo
info = record { version = 4; src = v4 0x0a640002; dst = v4 0x08080808; protocol = 17 }

packet_parsed : parse_packet packet ≡ ok info
unfolding parse_packet parse_v4 be_value be_value_from
packet_parsed = refl

decrement_ttl-IsHop_example :
    ((byte packet (ttl_place info.version) ≤ 1) × (decrement_ttl packet ≡ err ttl_expired))
    ⊎ ((packet' : List ℕ) × (decrement_ttl packet ≡ ok packet') × IsHop info packet packet')
decrement_ttl-IsHop_example = decrement_ttl-IsHop packet info (omega arith) packet_parsed
