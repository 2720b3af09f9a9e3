-- ===== src/UdpBind/Context/Tests.antt =====
-- The theorems on compression contexts at concrete inputs.
use mathlib.Core.Path.{◌≡◌, refl}
use straw.Common.{ℕ, List, [], ◌∷◌, ◌++◌, none, some, ok, arith, inl, get, insert, erase, map_err}
use straw.Ip.{v4, be_value}
use straw.Ip.Socket.{SocketAddr}
use straw.Varint.{read_varint}
use straw.Buffer.{done}
use straw.Capsule.Envelope.{read_envelope}
use straw.UdpBind.Address.{get_u8, get_addr}
use straw.UdpBind.Context.{
  compressed, uncompressed, CompressionAssign, ContextTable, BoundDatagram, new, register,
  compressed_context_for, uncompressed_context, find_id, decode_datagram, encode_datagram,
  decode_bound, decode, encode_uncompressed_body, decode_uncompressed_body,
}
use straw.UdpBind.Context.Table.{do_register, IsWellFormed, step, spec, phase, step-spec}
use straw.UdpBind.Context.Datagrams.{
  decode_datagram-encode_datagram, decode_datagram_firewall, uncompressed_body_lem,
}
use straw.UdpBind.Context.Capsules
use straw.UdpBind.Context.Capsules.Laws.{
  decode_observed_address-encode_observed_address, decode_assign-encode_assign,
  decode_context_capsule-encode_context_capsule,
}

-- 192.0.2.1:4433
abbrev remote : SocketAddr
remote = record { ip = v4 0xc0000201; port = 4433 }

abbrev assign : CompressionAssign
assign = record { context_id = 2; binding = compressed remote }

-- Context 4 stands for the remote.
abbrev table : ContextTable
table = record { contexts = (4, compressed remote) ∷ []; pending = [] }

-- Context 2 spells addresses out.
abbrev open_table : ContextTable
open_table = record { contexts = (2, uncompressed) ∷ []; pending = [] }

abbrev datagram : BoundDatagram
datagram = record { context_id = 4; remote = remote; payload = 7 ∷ [] }

new-IsWellFormed : IsWellFormed new
unfolding phase get
new-IsWellFormed = record { even = λ id. inl refl; apart = λ id. inl refl }

step-spec_example :
    ((step new (do_register assign)).0 ≡ (spec (phase new) (do_register assign)).0)
    × (phase (step new (do_register assign)).1 ≡ (spec (phase new) (do_register assign)).1)
    × IsWellFormed (step new (do_register assign)).1
step-spec_example = step-spec new new-IsWellFormed (do_register assign)

registered : (step new (do_register assign)).1.pending ≡ (2, compressed remote) ∷ []
unfolding step register insert get erase
registered = refl

decode_datagram-encode_datagram_example :
    (bytes : List ℕ) × (encode_datagram table 4 remote (7 ∷ []) ≡ ok bytes)
    × (decode_datagram table bytes ≡ ok datagram)
decode_datagram-encode_datagram_example =
    decode_datagram-encode_datagram table 4 remote (7 ∷ []) (compressed remote) (omega arith)
      (unfold get in refl) refl

no_uncompressed : uncompressed_context table ≡ none
unfolding uncompressed_context find_id
no_uncompressed = refl

datagram_decoded : decode_datagram table (4 ∷ 7 ∷ []) ≡ ok datagram
unfolding decode_datagram decode_bound read_varint get
datagram_decoded = refl

decode_datagram_firewall_example : (id : ℕ) × (compressed_context_for table remote ≡ some id)
decode_datagram_firewall_example =
    decode_datagram_firewall table no_uncompressed (4 ∷ 7 ∷ []) datagram datagram_decoded

abbrev body : List ℕ
body = 2 ∷ 4 ∷ 0xc0 ∷ 0 ∷ 2 ∷ 1 ∷ 0x11 ∷ 0x51 ∷ 7 ∷ []

body_read : decode_uncompressed_body body ≡ done (2, remote) (7 ∷ [])
unfolding decode_uncompressed_body read_varint get_u8 get_addr be_value
body_read = refl

uncompressed_body_lem_example :
    (encode_datagram open_table 2 remote (9 ∷ [])
      ≡ map_err decode (encode_uncompressed_body 2 remote (9 ∷ [])))
    × (decode_datagram open_table body
        ≡ ok (record { context_id = 2; remote = remote; payload = 7 ∷ [] }))
uncompressed_body_lem_example =
    uncompressed_body_lem open_table 2 remote (9 ∷ []) body (7 ∷ []) remote (unfold get in refl)
      body_read

decode_observed_address-encode_observed_address_example :
    (bytes body : List ℕ) × (Capsules.encode_observed_address remote (9 ∷ []) ≡ ok (9 ∷ bytes))
    × (read_envelope (bytes ++ 5 ∷ []) ≡ done (Capsules.capsule_observed_address, body) (5 ∷ []))
    × (Capsules.decode_observed_address body ≡ ok remote)
decode_observed_address-encode_observed_address_example =
    decode_observed_address-encode_observed_address remote (9 ∷ []) (5 ∷ []) (omega arith)

decode_assign-encode_assign_example :
    (bytes body : List ℕ) × (Capsules.encode assign (9 ∷ []) ≡ ok (9 ∷ bytes))
    × (read_envelope (bytes ++ 5 ∷ []) ≡ done (Capsules.capsule_compression_assign, body) (5 ∷ []))
    × (Capsules.decode body ≡ ok assign)
decode_assign-encode_assign_example =
    decode_assign-encode_assign assign (9 ∷ []) (5 ∷ []) (omega arith) (omega arith)

bare_id_read_back :
    (bytes body : List ℕ) × (Capsules.encode_context_capsule 0x12 300 (9 ∷ []) ≡ ok (9 ∷ bytes))
    × (read_envelope (bytes ++ 5 ∷ []) ≡ done (0x12, body) (5 ∷ []))
    × (Capsules.decode_context_capsule body ≡ ok 300)
bare_id_read_back =
    decode_context_capsule-encode_context_capsule 0x12 300 (9 ∷ []) (5 ∷ []) (omega arith)
      (omega arith)
