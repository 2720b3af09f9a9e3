-- ===== src/Datagram.antt =====
-- Models src/datagram/mod.rs: HTTP Datagrams that carry IP packets, and the size of packet that
-- fits. The send seam over a QUIC connection is not modelled.
pub mod Laws
pub mod Registry
mod Tests
use straw.Common.{
  ℕ, ◌+◌, ◌-◌, ◌/◌, List, [], ◌++◌, leb, length, Option, none, some, if◌then◌else◌, Result, ok, err,
  panic, unwrap, and_then,
}
use straw.Error.{DecodeError}
use straw.Varint.{read_varint, write_varint, varint_len}
use straw.Buffer.{Read, Reader, done, pure, ◌>>=◌}

abbrev pub context_id_ip_packet : ℕ
context_id_ip_packet = 0

pub record IpProxyingDatagram : Type 0 where
  pub context_id : ℕ
  pub payload : List ℕ

abbrev pub ip_packet : List ℕ → IpProxyingDatagram
ip_packet packet = record { context_id = context_id_ip_packet; payload = packet }

-- `buf.copy_to_bytes(buf.remaining())`
abbrev pub take_rest : Reader (List ℕ)
take_rest bs = done bs []

unfoldable pub decode : Reader IpProxyingDatagram
decode = do
  context_id ← read_varint
  payload ← take_rest
  pure (record { context_id = context_id; payload = payload })

unfoldable pub encode : IpProxyingDatagram → List ℕ → Result DecodeError (List ℕ)
encode self buf =
    and_then (unwrap (write_varint buf self.context_id)) λ buf. ok (buf ++ self.payload)

unfoldable pub encoded_len : IpProxyingDatagram → Result DecodeError ℕ
encoded_len self = and_then (unwrap (varint_len self.context_id)) λ n. ok (n + length self.payload)

-- `unwrap_or(8)`
abbrev pub or_eight : Result DecodeError ℕ → ℕ
or_eight (ok n) = n
or_eight (err e) = 8
or_eight panic = 8

unfoldable pub datagram_overhead : ℕ → ℕ
datagram_overhead qsid = or_eight (varint_len qsid) + or_eight (varint_len context_id_ip_packet)

-- `checked_sub`
abbrev pub checked_sub : ℕ → ℕ → Option ℕ
checked_sub a b = if leb b a then some (a - b) else none

unfoldable pub max_ip_packet_size : ℕ → ℕ → Option ℕ
unfolding datagram_overhead
max_ip_packet_size max_datagram_size qsid = checked_sub max_datagram_size (datagram_overhead qsid)

-- Without the assertion of debug builds that the id is a multiple of 4.
abbrev pub quarter_stream_id : ℕ → ℕ
quarter_stream_id stream_id = stream_id / 4

-- The capacity is computed first, and can panic.
unfoldable pub encode_quic_datagram : ℕ → IpProxyingDatagram → Result DecodeError (List ℕ)
unfolding encode encoded_len
encode_quic_datagram qsid datagram = and_then (unwrap (varint_len qsid)) λ n.
    and_then (encoded_len datagram)
      λ m. and_then (unwrap (write_varint [] qsid)) λ buf. encode datagram buf

unfoldable pub decode_quic_datagram : Reader (ℕ × IpProxyingDatagram)
unfolding decode
decode_quic_datagram = do qsid ← read_varint; datagram ← decode; pure (qsid, datagram)
