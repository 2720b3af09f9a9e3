-- ===== src/Datagram/Laws.antt =====
-- The datagrams of src/datagram/mod.rs: written and read back, and their size.
use straw.Common.{
  ℕ, ◌+◌, ◌≤◌, ◌≡◌, refl, ap, ◌∙◌, List, [], ◌++◌, append_assoc, Bool, false, leb, length,
  length-append, Option, none, some, ok, arith,
}
use straw.Varint.{varint_max, read_varint}
use straw.Varint.Shape.{varint_bytes, write_varint-bytes}
use straw.Varint.Codec.{varint_len-bytes}
use straw.Varint.Laws.{read_varint-bytes}
use straw.Buffer.{done, pure, ◌>>=◌}
use straw.Buffer.Laws.{>>=-done}
use straw.Datagram.{
  IpProxyingDatagram, ip_packet, decode, datagram_overhead, max_ip_packet_size,
  encode_quic_datagram, decode_quic_datagram,
}

-- Quarter stream id, context id, payload.
abbrev datagram_bytes : ℕ → IpProxyingDatagram → List ℕ
datagram_bytes qsid d = varint_bytes qsid ++ (varint_bytes d.context_id ++ d.payload)

encode_quic_datagram-bytes :
    (qsid : ℕ) (d : IpProxyingDatagram)
    → qsid ≤ varint_max
    → d.context_id ≤ varint_max
    → encode_quic_datagram qsid d ≡ ok (datagram_bytes qsid d)
unfolding encode_quic_datagram
encode_quic_datagram-bytes qsid d h hc =
    rw
      (
        varint_len-bytes qsid h,
        varint_len-bytes d.context_id hc,
        write_varint-bytes [] qsid h,
        write_varint-bytes (varint_bytes qsid) d.context_id hc,
      )
      (ap ok (append_assoc (varint_bytes qsid) (varint_bytes d.context_id) d.payload))

decode-bytes :
    (d : IpProxyingDatagram)
    → d.context_id ≤ varint_max
    → decode (varint_bytes d.context_id ++ d.payload) ≡ done d []
unfolding decode
decode-bytes d hc = >>=-done read_varint _ (read_varint-bytes d.context_id d.payload hc)

-- A datagram whose ids fit varints is encoded, and `decode_quic_datagram` reads the same quarter
-- stream id and datagram from the bytes and leaves none.
pub decode_quic_datagram-encode_quic_datagram :
    (qsid : ℕ) (d : IpProxyingDatagram)
    → qsid ≤ varint_max
    → d.context_id ≤ varint_max
    → (bytes : List ℕ) × (encode_quic_datagram qsid d ≡ ok bytes)
      × (decode_quic_datagram bytes ≡ done (qsid, d) [])
unfolding decode_quic_datagram
decode_quic_datagram-encode_quic_datagram qsid d h hc = (
  datagram_bytes qsid d,
  encode_quic_datagram-bytes qsid d h hc,
  >>=-done read_varint (λ qsid. decode >>= λ d. pure (qsid, d))
        (read_varint-bytes qsid (varint_bytes d.context_id ++ d.payload) h)
      ∙ >>=-done decode (λ d. pure (qsid, d)) (decode-bytes d hc),
)

zero_short : length (varint_bytes 0) ≡ 1
unfolding varint_bytes
zero_short = refl

overhead_bytes :
    (qsid : ℕ) → qsid ≤ varint_max → datagram_overhead qsid ≡ length (varint_bytes qsid) + 1
unfolding datagram_overhead
overhead_bytes qsid h =
    rw (varint_len-bytes qsid h, varint_len-bytes 0 (omega arith), zero_short) refl

-- Whether a packet of a length fits a limit, where there is one.
abbrev pub fits : Option ℕ → ℕ → Bool
fits none len = false
fits (some n) len = leb len n

-- On a quarter stream id that fits a varint, a packet's datagram is encoded, and it is no longer
-- than the maximum exactly if the packet is no longer than `max_ip_packet_size`, where that is not
-- `None`.
pub max_ip_packet_size-encode_quic_datagram :
    (max_datagram_size qsid : ℕ) (packet : List ℕ)
    → qsid ≤ varint_max
    → (bytes : List ℕ) × (encode_quic_datagram qsid (ip_packet packet) ≡ ok bytes)
      × (leb (length bytes) max_datagram_size
          ≡ fits (max_ip_packet_size max_datagram_size qsid) (length packet))
unfolding max_ip_packet_size
max_ip_packet_size-encode_quic_datagram max qsid packet h =
    let bytes = datagram_bytes qsid (ip_packet packet) in
    (
      bytes,
      encode_quic_datagram-bytes qsid (ip_packet packet) h (omega arith),
      ground (
        arith,
        overhead_bytes qsid h,
        length-append (varint_bytes qsid) (varint_bytes 0 ++ packet),
        length-append (varint_bytes 0) packet,
        zero_short,
      ),
    )
