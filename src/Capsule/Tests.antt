-- ===== src/Capsule/Tests.antt =====
-- Runs of the capsule codecs, and their theorems at concrete inputs.
use straw.Common.{ℕ, ◌≡◌, ◌≢◌, refl, List, [], ◌∷◌, ◌++◌, ok, arith}
use straw.Ip.{v4, octets, be_bytes, be_value}
use straw.Buffer.{done, abort}
use straw.Varint.{read_varint, write_varint, varint_len}
use straw.Varint.Shape.{varint_bytes}
use straw.Capsule.Loop.{decode_all, read_all, write_all, sum_all}
use straw.Capsule.Address.{decode_fields, decode_ip_address, validate_prefix_length}
use straw.Capsule.Assign
use straw.Capsule.{Capsule, address_assign, IpAddressRange, RouteAdvertisement}
use straw.Capsule.Route
use straw.Capsule.Route.{IsRange}
use straw.Capsule.Route.Laws.{decode_unsorted_pair, payload_bytes, IsSorted}
use straw.Capsule.Envelope.{
  decode_capsule, encode_capsule, read_envelope, decode_payload, IsSendable,
}
use straw.Capsule.Envelope.Laws.{
  decode_capsule-encode_capsule, decode_capsule-ne-abort, decode_capsule-IsDecoded, IsDecoded,
}
use straw.Capsule.Stream.{new, next_capsule, receive_all}
use straw.Capsule.Stream.Laws.{verdict, next_capsule-verdict, IsIncomplete}
use straw.Capsule.Stream.Chunks.{encode_all, receive_all-stream}

-- 192.0.2.42/32, unprompted.
abbrev one_address : Capsule
one_address = address_assign (record {
  assigned_addresses =
      record { request_id = 0; ip_version = 4; ip_address = v4 0xc000022a; prefix_length = 32 }
      ∷ [];
})

abbrev one_address_bytes : List ℕ
one_address_bytes = 1 ∷ 7 ∷ 0 ∷ 4 ∷ 0xc0 ∷ 0 ∷ 2 ∷ 0x2a ∷ 32 ∷ []

one_address_encoded : encode_capsule one_address [] ≡ ok one_address_bytes
unfolding encode_capsule Assign.encode Assign.payload_len Assign.assigned_address_len
    Assign.encode_assigned_address sum_all write_all varint_len write_varint octets be_bytes
one_address_encoded = refl

one_address_decoded : decode_capsule (one_address_bytes ++ 5 ∷ []) ≡ done one_address (5 ∷ [])
unfolding decode_capsule decode_payload read_envelope read_varint Assign.decode decode_all read_all
    Assign.decode_assigned_address decode_fields decode_ip_address validate_prefix_length be_value
one_address_decoded = refl

one_address-IsSendable : IsSendable one_address
unfolding varint_bytes octets be_bytes
one_address-IsSendable = omega arith

decode_capsule-encode_capsule_example :
    (bytes : List ℕ) × (encode_capsule one_address (9 ∷ []) ≡ ok (9 ∷ bytes))
    × (decode_capsule (bytes ++ 5 ∷ []) ≡ done one_address (5 ∷ []))
decode_capsule-encode_capsule_example =
    decode_capsule-encode_capsule one_address (9 ∷ []) (5 ∷ []) one_address-IsSendable

decode_capsule-ne-abort_example : decode_capsule (1 ∷ 9 ∷ 0 ∷ []) ≢ abort
decode_capsule-ne-abort_example = decode_capsule-ne-abort (1 ∷ 9 ∷ 0 ∷ [])

decode_capsule-IsDecoded_example : IsDecoded one_address
decode_capsule-IsDecoded_example =
    decode_capsule-IsDecoded (one_address_bytes ++ 5 ∷ []) one_address (5 ∷ []) (omega arith)
      one_address_decoded

next_capsule-verdict_example :
    next_capsule (record { buf = 1 ∷ 7 ∷ [] })
    ≡ verdict (record { buf = 1 ∷ 7 ∷ [] }) (read_envelope (1 ∷ 7 ∷ []))
next_capsule-verdict_example = next_capsule-verdict (record { buf = 1 ∷ 7 ∷ [] })

cut_off : IsIncomplete (1 ∷ 7 ∷ [])
unfolding read_envelope read_varint
cut_off p rest e = cc

-- The capsule twice and the start of a third, in chunks that cut across.
abbrev chunks : List (List ℕ)
chunks =
    (1 ∷ [])
    ∷ (7 ∷ 0 ∷ 4 ∷ 0xc0 ∷ 0 ∷ 2 ∷ 0x2a ∷ 32 ∷ 1 ∷ [])
    ∷ []
    ∷ (7 ∷ 0 ∷ 4 ∷ 0xc0 ∷ 0 ∷ 2 ∷ 0x2a ∷ 32 ∷ 1 ∷ 7 ∷ [])
    ∷ []

two_encoded :
    encode_all (one_address ∷ one_address ∷ []) [] ≡ ok (one_address_bytes ++ one_address_bytes)
unfolding encode_all encode_capsule Assign.encode Assign.payload_len Assign.assigned_address_len
    Assign.encode_assigned_address sum_all write_all varint_len write_varint octets be_bytes
two_encoded = refl

receive_all-stream_example :
    receive_all [] new chunks ≡ (ok (one_address ∷ one_address ∷ []), record { buf = 1 ∷ 7 ∷ [] })
receive_all-stream_example =
    receive_all-stream (one_address ∷ one_address ∷ []) (one_address_bytes ++ one_address_bytes)
      (1 ∷ 7 ∷ []) chunks (one_address-IsSendable, (one_address-IsSendable, tt)) two_encoded cut_off
      refl

-- A range for protocol 17 before a higher one for protocol 6.
abbrev udp_range : IpAddressRange
udp_range = record { ip_version = 4; start_ip = v4 1; end_ip = v4 2; ip_protocol = 17 }

abbrev tcp_range : IpAddressRange
tcp_range = record { ip_version = 4; start_ip = v4 5; end_ip = v4 9; ip_protocol = 6 }

udp_range-IsRange : IsRange udp_range
udp_range-IsRange = record {
  start_family = refl;
  end_family = refl;
  start_addr = omega arith;
  end_addr = omega arith;
  ordered = refl;
  protocol = omega arith;
}

tcp_range-IsRange : IsRange tcp_range
tcp_range-IsRange = record {
  start_family = refl;
  end_family = refl;
  start_addr = omega arith;
  end_addr = omega arith;
  ordered = refl;
  protocol = omega arith;
}

decode_unsorted_pair_example :
    let self : RouteAdvertisement = record { ip_address_ranges = udp_range ∷ tcp_range ∷ [] } in
    (Route.decode (payload_bytes self) ≡ ok self) × ¬ IsSorted self
decode_unsorted_pair_example =
    decode_unsorted_pair udp_range tcp_range udp_range-IsRange tcp_range-IsRange refl refl refl
