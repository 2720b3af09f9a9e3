-- ===== src/UdpBind/Context.antt =====
-- Models the compression contexts of src/udp_bind/context.rs: which id stands for which remote, and
-- the datagrams on them. A `HashMap` is an association list; the order in which Rust's iterates is
-- not specified, here it is the list's.
pub mod Table
mod Tests
pub mod Capsules
pub mod Datagrams
use straw.Common.{
  ℕ, ◌+◌, ◌%◌, ◌≡◌, List, [], ◌∷◌, ◌++◌, Bool, true, false, not, ◌||◌, ◌==◌, if◌then◌else◌, Option,
  none, some, Result, ok, err, panic, and_then, unwrap, expect, get, insert, erase,
}
use straw.Error.{DecodeError}
use straw.Ip.Socket.{SocketAddr, same_addr}
use straw.Varint.{read_varint, write_varint}
use straw.Buffer.{pure, Read, Reader, done, fail, abort, ◌>>=◌}
use straw.UdpBind.Address.{put_addr, get_addr, get_u8}

pub data Binding : Type 0 where
  uncompressed : Binding
  compressed : SocketAddr → Binding

pub record CompressionAssign : Type 0 where
  pub context_id : ℕ
  pub binding : Binding

pub record BoundDatagram : Type 0 where
  pub context_id : ℕ
  pub remote : SocketAddr
  pub payload : List ℕ

pub record ContextTable : Type 0 where
  pub contexts : List (ℕ × Binding)
  pub pending : List (ℕ × Binding)

pub data ContextError : Type 0 where
  not_client_allocated : ℕ → ContextError
  duplicate : ℕ → ContextError
  unknown : ℕ → ContextError
  decode : DecodeError → ContextError

abbrev pub new : ContextTable
new = record { contexts = []; pending = [] }

abbrev pub is_some {ℓ} : {A : Type ℓ} → Option A → Bool
is_some none = false
is_some (some a) = true

unfoldable pub register :
    ContextTable → CompressionAssign → Result ContextError (Unit {0}) × ContextTable
unfolding insert
register self assign =
    if not (assign.context_id % 2 == 0)
    then (err (not_client_allocated assign.context_id), self)
    else if is_some (get self.contexts assign.context_id)
        || is_some (get self.pending assign.context_id)
    then (err (duplicate assign.context_id), self)
    else (
      ok tt,
      record {
        contexts = self.contexts;
        pending = insert self.pending assign.context_id assign.binding;
      },
    )

unfoldable pub ack : ContextTable → ℕ → Result ContextError (Unit {0}) × ContextTable
unfolding insert erase
ack self context_id = elim (get self.pending context_id) [
  | none ↦ (err (unknown context_id), self)
  | some binding ↦ (
    ok tt,
    record {
      contexts = insert self.contexts context_id binding;
      pending = erase self.pending context_id;
    },
  )
]

unfoldable pub close : ContextTable → ℕ → ContextTable
close self context_id = record {
  contexts = erase self.contexts context_id;
  pending = erase self.pending context_id;
}

abbrev pub binding : ContextTable → ℕ → Option Binding
binding self context_id = get self.contexts context_id

-- `Binding::Compressed(addr) if *addr == remote`
abbrev pub is_compressed : SocketAddr → Binding → Bool
is_compressed remote uncompressed = false
is_compressed remote (compressed addr) = same_addr addr remote

abbrev pub is_uncompressed : Binding → Bool
is_uncompressed uncompressed = true
is_uncompressed (compressed addr) = false

-- `iter().find_map(..)` for the id of a binding that passes the test.
unfoldable pub find_id : (Binding → Bool) → List (ℕ × Binding) → Option ℕ
find_id p [] = none
find_id p ((id, b) ∷ m) = if p b then some id else find_id p m

unfoldable pub compressed_context_for : ContextTable → SocketAddr → Option ℕ
unfolding find_id
compressed_context_for self remote = find_id (is_compressed remote) self.contexts

unfoldable pub uncompressed_context : ContextTable → Option ℕ
unfolding find_id
uncompressed_context self = find_id is_uncompressed self.contexts

-- `.map_err(ContextError::Decode)?`
abbrev pub decoding :
    {A : Type 0}
    → Read A
    → (A → List ℕ → Result ContextError BoundDatagram)
    → Result ContextError BoundDatagram
decoding (done a buf) k = k a buf
decoding (fail e buf) k = err (decode e)
decoding abort k = panic

unfoldable pub decode_bound : ContextTable → ℕ → List ℕ → Result ContextError BoundDatagram
decode_bound self context_id buf = elim (binding self context_id) [
  | none ↦ err (unknown context_id)
  | some b ↦ elim b [
    | compressed remote ↦ ok (record { context_id = context_id; remote = remote; payload = buf })
    | uncompressed ↦
        decoding ((get_u8 >>= get_addr) buf)
          λ remote buf. ok (record { context_id = context_id; remote = remote; payload = buf })
  ]
]

unfoldable pub decode_datagram : ContextTable → List ℕ → Result ContextError BoundDatagram
unfolding decode_bound
decode_datagram self buf = decoding (read_varint buf) (decode_bound self)

unfoldable pub encode_datagram :
    ContextTable → ℕ → SocketAddr → List ℕ → Result ContextError (List ℕ)
encode_datagram self context_id remote payload =
    and_then (expect (write_varint [] context_id)) λ buf. elim (binding self context_id) [
      | none ↦ err (unknown context_id)
      | some b ↦ elim b [
        | compressed addr ↦ ok (buf ++ payload)
        | uncompressed ↦ ok (put_addr buf remote ++ payload)
      ]
    ]

-- The framing of an uncompressed context without a table.
unfoldable pub encode_uncompressed_body : ℕ → SocketAddr → List ℕ → Result DecodeError (List ℕ)
encode_uncompressed_body context_id remote payload =
    and_then (unwrap (write_varint [] context_id)) λ buf. ok (put_addr buf remote ++ payload)

unfoldable pub decode_uncompressed_body : Reader (ℕ × SocketAddr)
decode_uncompressed_body = do
  context_id ← read_varint
  remote ← get_u8 >>= get_addr
  pure (context_id, remote)
