-- ===== src/Varint.antt =====
-- Models src/capsule/codec.rs: QUIC variable-length integers (RFC 9000 §16).
pub mod Laws
pub mod Shape
pub mod Reads
pub mod Codec
mod Tests
use straw.Common.{
  ℕ, zero, suc, ◌+◌, ◌-◌, ◌*◌, ◌/◌, ◌%◌, ◌^◌, List, [], ◌∷◌, ◌++◌, bit_and, bit_or, leb, ◌==◌,
  if◌then◌else◌, Result, ok, err, panic,
}
use straw.Error.{DecodeError, underflow, invalid_var_int}
use straw.Buffer.{Reader, pure, ◌>>=◌, ◌>>◌, require, get_u8}

abbrev pub varint_max : ℕ
varint_max = 2 ^ 62 - 1

unfoldable pub varint_len : ℕ → Result DecodeError ℕ
varint_len val =
    if leb val 63
    then ok 1
    else if leb val 16383
    then ok 2
    else if leb val 1_073_741_823
    then ok 4
    else if leb val varint_max
    then ok 8
    else err invalid_var_int

-- `for _ in 1..len { val = (val << 8) | buf.get_u8() as u64 }`, over the rounds left.
unfoldable pub read_tail : ℕ → ℕ → Reader ℕ
read_tail zero val = pure val
read_tail (suc n) val = do b ← get_u8; read_tail n (bit_or (val * 256 % 2 ^ 64) b)

-- What follows the first byte: `len = 1 << (first >> 6)`.
unfoldable pub read_rest : ℕ → Reader ℕ
unfolding read_tail
read_rest first = do
  let len = 2 ^ (first / 64)
  require (len - 1) (λ _. underflow)
  read_tail (len - 1) (bit_and first 0x3f)

unfoldable pub read_varint : Reader ℕ
unfolding read_rest
read_varint = do require 1 (λ _. underflow); first ← get_u8; read_rest first

abbrev byte_at : ℕ → ℕ → ℕ
byte_at val shift = val / 2 ^ shift % 256

unfoldable pub put_varint : ℕ → List ℕ → ℕ → Result DecodeError (List ℕ)
put_varint len buf val =
    if len == 1
    then ok (buf ++ byte_at val 0 ∷ [])
    else if len == 2
    then ok (buf ++ bit_or 0x40 (byte_at val 8) ∷ byte_at val 0 ∷ [])
    else if len == 4
    then ok
        (buf ++ bit_or 0x80 (byte_at val 24) ∷ byte_at val 16 ∷ byte_at val 8 ∷ byte_at val 0 ∷ [])
    else if len == 8
    then ok (
        buf
        ++ bit_or 0xc0 (byte_at val 56)
          ∷ byte_at val 48
          ∷ byte_at val 40
          ∷ byte_at val 32
          ∷ byte_at val 24
          ∷ byte_at val 16
          ∷ byte_at val 8
          ∷ byte_at val 0
          ∷ [])
    else panic

unfoldable pub write_varint : List ℕ → ℕ → Result DecodeError (List ℕ)
unfolding varint_len put_varint
write_varint buf val = elim (varint_len val) [
  | ok len ↦ put_varint len buf val
  | err e ↦ err e
  | panic ↦ panic
]
