-- ===== src/Varint/Tests.antt =====
-- Runs of the varint codec, and its theorems at concrete inputs.
use straw.Common.{
  ℕ, ◌^◌, ◌+◌, ◌≤◌, ◌<◌, ◌≡◌, refl, List, [], ◌∷◌, ◌++◌, length, ok, err, arith, All,
}
use straw.Error.{invalid_var_int}
use straw.Ip.Octets.{IsByte}
use straw.Buffer.{done}
use straw.Varint.{varint_len, varint_max, read_varint, write_varint}
use straw.Varint.Codec.{read_varint-write_varint}
use straw.Varint.Reads.{read_varint_result}

-- RFC 9000, appendix A.1.
rfc_eight :
    read_varint (0xc2 ∷ 0x19 ∷ 0x7c ∷ 0x5e ∷ 0xff ∷ 0x14 ∷ 0xe8 ∷ 0x8c ∷ [])
    ≡ done 151_288_809_941_952_652 []
unfolding read_varint
rfc_eight = refl

rfc_two : write_varint [] 15_293 ≡ ok (0x7b ∷ 0xbd ∷ [])
unfolding write_varint
rfc_two = refl

-- A padded form is accepted.
padded : read_varint (0x40 ∷ 0x25 ∷ 9 ∷ []) ≡ done 37 (9 ∷ [])
unfolding read_varint
padded = refl

read_varint-write_varint_example :
    (bytes : List ℕ) × (write_varint (1 ∷ []) 15_293 ≡ ok (1 ∷ bytes))
    × (varint_len 15_293 ≡ ok (length bytes))
    × (read_varint (bytes ++ 9 ∷ []) ≡ done 15_293 (9 ∷ []))
read_varint-write_varint_example = read_varint-write_varint (1 ∷ []) (9 ∷ []) 15_293 (omega arith)

-- The first value that has no encoding.
too_large : write_varint [] (2 ^ 62) ≡ err invalid_var_int
unfolding write_varint
too_large = refl

read_varint_result_example :
    (37 ≤ varint_max)
    × (length {A = ℕ} (9 ∷ []) < length {A = ℕ} (0x40 ∷ 0x25 ∷ 9 ∷ []))
    × ((n : ℕ) × (varint_len 37 ≡ ok n)
        × (length {A = ℕ} (9 ∷ []) + n ≤ length {A = ℕ} (0x40 ∷ 0x25 ∷ 9 ∷ [])))
    × All IsByte (9 ∷ [])
read_varint_result_example =
    read_varint_result (0x40 ∷ 0x25 ∷ 9 ∷ []) 37 (9 ∷ []) (omega arith) padded
