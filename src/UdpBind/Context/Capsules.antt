-- ===== src/UdpBind/Context/Capsules.antt =====
-- Models the capsules of src/udp_bind/context.rs: COMPRESSION_ASSIGN, the bare-id capsules and
-- OBSERVED_ADDRESS, with their codepoints from src/codepoints.rs.
pub mod Laws
use straw.Common.{
  ℕ, List, [], ◌∷◌, ◌++◌, ◌==◌, if◌then◌else◌, length, Result, ok, err, panic, unwrap, and_then,
}
use straw.Error.{DecodeError, trailing_bytes}
use straw.Ip.Socket.{SocketAddr}
use straw.Varint.{read_varint, write_varint, varint_len}
use straw.Buffer.{Read, Reader, done, fail, abort, pure, ◌>>=◌}
use straw.UdpBind.Address.{put_addr, get_addr, get_u8}
use straw.UdpBind.Context.{Binding, compressed, uncompressed, CompressionAssign}

abbrev pub capsule_compression_assign : ℕ
capsule_compression_assign = 0x11

abbrev pub capsule_compression_ack : ℕ
capsule_compression_ack = 0x12

abbrev pub capsule_compression_close : ℕ
capsule_compression_close = 0x13

abbrev pub capsule_observed_address : ℕ
capsule_observed_address = 0x14

-- Type, length and body; the `unwrap`s panic on a value that is no varint.
unfoldable pub put_capsule : List ℕ → ℕ → List ℕ → Result DecodeError (List ℕ)
put_capsule buf capsule_type body =
    and_then (unwrap (write_varint buf capsule_type))
      λ buf. and_then (unwrap (write_varint buf (length body))) λ buf. ok (buf ++ body)

-- The check for trailing bytes, behind a body that was read.
abbrev pub whole_body : {A : Type 0} → Read A → Result DecodeError A
whole_body (done a []) = ok a
whole_body (done a (b ∷ rest)) = err (trailing_bytes (length (b ∷ rest)))
whole_body (fail e rest) = err e
whole_body abort = panic

-- What follows the id of a COMPRESSION_ASSIGN; IP version 0 marks an uncompressed context.
unfoldable pub put_binding : List ℕ → Binding → List ℕ
unfolding put_addr
put_binding body uncompressed = body ++ 0 ∷ []
put_binding body (compressed addr) = put_addr body addr

unfoldable pub get_binding : ℕ → Reader Binding
get_binding version =
    if version == 0 then pure uncompressed else do addr ← get_addr version; pure (compressed addr)

unfoldable pub encode : CompressionAssign → List ℕ → Result DecodeError (List ℕ)
unfolding put_binding put_capsule
encode self buf =
    and_then (unwrap (write_varint [] self.context_id))
      λ body. put_capsule buf capsule_compression_assign (put_binding body self.binding)

unfoldable pub read_assign : Reader CompressionAssign
unfolding get_binding
read_assign = do
  context_id ← read_varint
  version ← get_u8
  binding ← get_binding version
  pure (record { context_id = context_id; binding = binding })

unfoldable pub decode : List ℕ → Result DecodeError CompressionAssign
unfolding read_assign
decode body = whole_body (read_assign body)

unfoldable pub encode_context_capsule : ℕ → ℕ → List ℕ → Result DecodeError (List ℕ)
encode_context_capsule capsule_type context_id buf =
    and_then (unwrap (write_varint buf capsule_type)) λ buf.
      and_then (unwrap (varint_len context_id))
        λ len. and_then (unwrap (write_varint buf len)) λ buf. unwrap (write_varint buf context_id)

unfoldable pub decode_context_capsule : List ℕ → Result DecodeError ℕ
decode_context_capsule body = whole_body (read_varint body)

unfoldable pub encode_observed_address : SocketAddr → List ℕ → Result DecodeError (List ℕ)
unfolding put_capsule
encode_observed_address addr buf = put_capsule buf capsule_observed_address (put_addr [] addr)

unfoldable pub decode_observed_address : List ℕ → Result DecodeError SocketAddr
decode_observed_address body = whole_body ((get_u8 >>= get_addr) body)
