-- ===== src/Varint/Codec.antt =====
-- The varint codec as a whole: writing and reading against each other.
use straw.Common.{ℕ, ◌≤◌, ◌≡◌, List, ◌++◌, length, ok, arith}
use straw.Buffer.{done}
use straw.Varint.{varint_len, varint_max, read_varint, write_varint}
use straw.Varint.Shape.{varint_bytes, write_varint-bytes}
use straw.Varint.Laws.{read_varint-bytes}

pub varint_len-bytes : (v : ℕ) → v ≤ varint_max → varint_len v ≡ ok (length (varint_bytes v))
unfolding varint_len varint_bytes
varint_len-bytes v h = ground arith

-- A value up to 2 ^ 62 - 1 is written behind what the buffer holds, in as many bytes as `varint_len`
-- says, and reading those bytes gives the value back and leaves whatever follows them.
pub read_varint-write_varint :
    (buf rest : List ℕ) (v : ℕ)
    → v ≤ varint_max
    → (bytes : List ℕ) × (write_varint buf v ≡ ok (buf ++ bytes))
      × (varint_len v ≡ ok (length bytes))
      × (read_varint (bytes ++ rest) ≡ done v rest)
read_varint-write_varint buf rest v h =
    (varint_bytes v, write_varint-bytes buf v h, varint_len-bytes v h, read_varint-bytes v rest h)
