-- ===== src/Varint/Shape.antt =====
-- The bytes that `write_varint` puts out, in plain arithmetic.
use straw.Common.{
  ℕ, ◌+◌, ◌/◌, ◌%◌, ◌^◌, ◌≤◌, ◌<◌, ◌≡◌, refl, List, [], ◌∷◌, ◌++◌, bit_or, ◌==◌, ==_iff,
  if◌then◌else◌, ok, arith, holds_below, holds_below_sound, leb,
}
use straw.Varint.{write_varint, varint_max}

unfoldable pub varint_bytes : ℕ → List ℕ
varint_bytes v =
    if leb v 63
    then v ∷ []
    else if leb v 16383
    then (64 + v / 256) ∷ v % 256 ∷ []
    else if leb v 1_073_741_823
    then (128 + v / 2 ^ 24) ∷ v / 2 ^ 16 % 256 ∷ v / 256 % 256 ∷ v % 256 ∷ []
    else (192 + v / 2 ^ 56)
      ∷ v / 2 ^ 48 % 256
      ∷ v / 2 ^ 40 % 256
      ∷ v / 2 ^ 32 % 256
      ∷ v / 2 ^ 24 % 256
      ∷ v / 2 ^ 16 % 256
      ∷ v / 256 % 256
      ∷ v % 256
      ∷ []

tag_two : (x : ℕ) → x < 64 → bit_or 0x40 x ≡ 64 + x
unfolding holds_below
tag_two x h = (==_iff _ _).0 (holds_below_sound 64 (λ y. bit_or 0x40 y == 64 + y) x refl h)

tag_four : (x : ℕ) → x < 64 → bit_or 0x80 x ≡ 128 + x
unfolding holds_below
tag_four x h = (==_iff _ _).0 (holds_below_sound 64 (λ y. bit_or 0x80 y == 128 + y) x refl h)

tag_eight : (x : ℕ) → x < 64 → bit_or 0xc0 x ≡ 192 + x
unfolding holds_below
tag_eight x h = (==_iff _ _).0 (holds_below_sound 64 (λ y. bit_or 0xc0 y == 192 + y) x refl h)

pub write_varint-bytes :
    (buf : List ℕ) (v : ℕ) → v ≤ varint_max → write_varint buf v ≡ ok (buf ++ varint_bytes v)
unfolding write_varint varint_bytes
write_varint-bytes buf v h =
    ground
      (arith, tag_two (v / 2 ^ 8 % 256), tag_four (v / 2 ^ 24 % 256), tag_eight (v / 2 ^ 56 % 256))
