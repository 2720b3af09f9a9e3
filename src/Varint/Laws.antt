-- ===== src/Varint/Laws.antt =====
-- Reading undoes writing.
use straw.Common.{
  ℕ, suc, ◌+◌, ◌-◌, ◌*◌, ◌/◌, ◌%◌, ◌^◌, ◌≤◌, ◌<◌, ◌≡◌, refl, ◌∙◌, List, [], ◌∷◌, ◌++◌, bit_and,
  ◌==◌, ==_iff, arith, length, holds_below, holds_below_sound, bit_or_byte, ap, All, length-append,
}
use straw.Error.{underflow}
use straw.Buffer.{done}
use straw.Buffer.Laws.{require-enough}
use straw.Varint.{read_tail, read_rest, read_varint, varint_max}
use straw.Ip.{be_value_from}
use straw.Ip.Octets.{IsByte}
use native.Mathlib.Nat.{pow-suc, one-le-pow}
use straw.Varint.Shape.{varint_bytes}

pub low_six : (b : ℕ) → b < 256 → bit_and b 0x3f ≡ b % 64
unfolding holds_below
low_six b h = (==_iff _ _).0 (holds_below_sound 256 (λ y. bit_and y 0x3f == y % 64) b refl h)

-- One round of the loop, where the value does not overflow.
pub read_tail_round :
    (n val b : ℕ) (bs : List ℕ)
    → b < 256
    → val < 2 ^ 56
    → read_tail (suc n) val (b ∷ bs) ≡ read_tail n (val * 256 + b) bs
unfolding read_tail
read_tail_round n val b bs hb hv =
    let e : val * 256 % 2 ^ 64 ≡ val * 256 = omega arith in rw (e, bit_or_byte val b hb)

pub read_varint_first : (f : ℕ) (bs : List ℕ) → read_varint (f ∷ bs) ≡ read_rest f bs
unfolding read_varint
read_varint_first f bs = ground arith

-- The first byte tells how many follow.
read_rest_enough :
    (f k n x : ℕ) (bs : List ℕ)
    → f < 256
    → f / 64 ≡ k
    → 2 ^ k - 1 ≡ n
    → f % 64 ≡ x
    → n ≤ length bs
    → read_rest f bs ≡ read_tail n x bs
unfolding read_rest
read_rest_enough f k n x bs hf ek en ex h =
    rw (ek, en, low_six f hf, ex) (require-enough n (λ _. underflow) (read_tail n x) bs h)

pub mul_mono_left : (x y p : ℕ) → x ≤ y → x * p ≤ y * p
mul_mono_left x y p h = grind arith

bound_over :
    (val b p : ℕ)
    → b < 256
    → 1 ≤ p
    → (val + 1) * (256 * p) ≤ 2 ^ 62
    → (val < 2 ^ 56) × ((val * 256 + b + 1) * p ≤ 2 ^ 62)
bound_over val b p hb hp h = (
  omega (arith, mul_mono_left 1 p ((val + 1) * 256) hp),
  omega (arith, mul_mono_left (val * 256 + b + 1) ((val + 1) * 256) p (omega arith)),
)

pub step_bound :
    (val b n : ℕ)
    → b < 256
    → (val + 1) * 256 ^ suc n ≤ 2 ^ 62
    → (val < 2 ^ 56) × ((val * 256 + b + 1) * 256 ^ n ≤ 2 ^ 62)
step_bound val b n hb h =
    bound_over val b (256 ^ n) hb (omega (arith, one-le-pow n 256))
      (let e : 256 ^ suc n ≡ 256 * 256 ^ n = omega (arith, pow-suc 256 n) in rw e at h)

-- The loop reads bytes as a number in network order.
pub read_tail-bytes :
    (bs : List ℕ) (val : ℕ) (rest : List ℕ)
    → All IsByte bs
    → (val + 1) * 256 ^ length bs ≤ 2 ^ 62
    → read_tail (length bs) val (bs ++ rest) ≡ done (be_value_from val bs) rest
unfolding read_tail be_value_from
read_tail-bytes [] val rest h bound = refl
read_tail-bytes (b ∷ bs) val rest h bound =
    let (small, next) = step_bound val b (length bs) h.0 bound in
    read_tail_round (length bs) val b (bs ++ rest) h.0 small
    ∙ read_tail-bytes bs (val * 256 + b) rest h.1 next

read_varint-tagged :
    (f k x : ℕ) (bs rest : List ℕ)
    → f < 256
    → f / 64 ≡ k
    → 2 ^ k - 1 ≡ length bs
    → f % 64 ≡ x
    → All IsByte bs
    → (x + 1) * 256 ^ length bs ≤ 2 ^ 62
    → read_varint (f ∷ bs ++ rest) ≡ done (be_value_from x bs) rest
read_varint-tagged f k x bs rest hf ek en ex h bound =
    read_varint_first f (bs ++ rest)
    ∙ read_rest_enough f k (length bs) x (bs ++ rest) hf ek en ex
        (omega (arith, length-append bs rest))
    ∙ read_tail-bytes bs x rest h bound

read_one : (v : ℕ) (rest : List ℕ) → v ≤ 63 → read_varint (v ∷ rest) ≡ done v rest
unfolding be_value_from
read_one v rest h =
    read_varint-tagged v 0 v [] rest (omega arith) (omega arith) refl (omega arith) tt (omega arith)

read_two :
    (v : ℕ) (rest : List ℕ)
    → v ≤ 16383
    → read_varint ((64 + v / 256) ∷ v % 256 ∷ rest) ≡ done v rest
unfolding be_value_from
read_two v rest h =
    read_varint-tagged (64 + v / 256) 1 (v / 256) (v % 256 ∷ []) rest (omega arith) (omega arith)
      refl (omega arith) (omega arith) (omega arith)
    ∙ ap (λ x. done x rest) (omega arith)

read_four :
    (v : ℕ) (rest : List ℕ)
    → v ≤ 1_073_741_823
    → read_varint ((128 + v / 2 ^ 24) ∷ v / 2 ^ 16 % 256 ∷ v / 256 % 256 ∷ v % 256 ∷ rest)
      ≡ done v rest
unfolding be_value_from
read_four v rest h =
    read_varint-tagged (128 + v / 2 ^ 24) 2 (v / 2 ^ 24)
      (v / 2 ^ 16 % 256 ∷ v / 256 % 256 ∷ v % 256 ∷ []) rest (omega arith) (omega arith) refl
      (omega arith) (omega arith) (omega arith)
    ∙ ap (λ x. done x rest) (omega arith)

read_eight :
    (v : ℕ) (rest : List ℕ)
    → v ≤ varint_max
    → read_varint (
        (192 + v / 2 ^ 56)
        ∷ v / 2 ^ 48 % 256
        ∷ v / 2 ^ 40 % 256
        ∷ v / 2 ^ 32 % 256
        ∷ v / 2 ^ 24 % 256
        ∷ v / 2 ^ 16 % 256
        ∷ v / 256 % 256
        ∷ v % 256
        ∷ rest)
      ≡ done v rest
unfolding be_value_from
read_eight v rest h =
    read_varint-tagged (192 + v / 2 ^ 56) 3 (v / 2 ^ 56)
      (v / 2 ^ 48 % 256
        ∷ v / 2 ^ 40 % 256
        ∷ v / 2 ^ 32 % 256
        ∷ v / 2 ^ 24 % 256
        ∷ v / 2 ^ 16 % 256
        ∷ v / 256 % 256
        ∷ v % 256
        ∷ [])
      rest (omega arith) (omega arith) refl (omega arith) (omega arith) (omega arith)
    ∙ ap (λ x. done x rest) (omega arith)

pub read_varint-bytes :
    (v : ℕ) (rest : List ℕ) → v ≤ varint_max → read_varint (varint_bytes v ++ rest) ≡ done v rest
unfolding varint_bytes
read_varint-bytes v rest h =
    ground (arith, read_one v rest, read_two v rest, read_four v rest, read_eight v rest)
