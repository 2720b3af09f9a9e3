-- ===== src/Forwarding/Checksum/Laws.antt =====
-- A block with its checksum filled in verifies.
use straw.Common.{
  ℕ, zero, suc, ◌+◌, ◌-◌, ◌*◌, ◌%◌, ◌^◌, ◌≤◌, ◌<◌, ◌≡◌, refl, List, [], ◌∷◌, ◌==◌, if◌then◌else◌,
  length, get_or, All, arith,
}
use straw.Ip.Octets.{IsByte}
use straw.Forwarding.Bytes.{put16, All-put16, length-put16}
use straw.Forwarding.Checksum.{word_sum, fold_carry, ipv4_checksum}

-- The sum without the bound of 32 bits.
unfoldable pub plain_sum : List ℕ → ℕ
plain_sum [] = 0
plain_sum (x ∷ []) = x * 256
plain_sum (x ∷ y ∷ rest) = x * 256 + y + plain_sum rest

plain_sum_le : (l : List ℕ) → All IsByte l → plain_sum l ≤ 0xffff * length l
unfolding plain_sum
plain_sum_le [] h = omega arith
plain_sum_le (x ∷ []) h = omega arith
plain_sum_le (x ∷ y ∷ l) h = omega (arith, plain_sum_le l h.1.1)

word_sum-eq-plain_sum : (l : List ℕ) → plain_sum l < 2 ^ 32 → word_sum l ≡ plain_sum l
unfolding word_sum plain_sum
word_sum-eq-plain_sum [] h = refl
word_sum-eq-plain_sum (x ∷ []) h = refl
word_sum-eq-plain_sum (x ∷ y ∷ l) h = omega (arith, word_sum-eq-plain_sum l (omega arith))

-- The residue modulo 65535, with 65535 for 0 unless the sum is 0.
fold_carry_lem :
    (s : ℕ) → s < 2 ^ 32 → fold_carry 2 s ≡ (if s == 0 then 0 else (s - 1) % 0xffff + 1)
unfolding fold_carry
fold_carry_lem s h = ground arith

pub ipv4_checksum_lem :
    (l : List ℕ)
    → All IsByte l
    → length l < 2 ^ 16
    → ipv4_checksum l
      ≡ (if plain_sum l == 0 then 0xffff else 0xffff - ((plain_sum l - 1) % 0xffff + 1))
unfolding ipv4_checksum
ipv4_checksum_lem l h hl =
    let small : plain_sum l < 2 ^ 32 = omega (arith, plain_sum_le l h) in
    ground (arith, word_sum-eq-plain_sum l small, fold_carry_lem (plain_sum l) small)

-- Twice a number, so that pairs are met in step.
abbrev pub twice : ℕ → ℕ
twice zero = zero
twice (suc k) = suc (suc (twice k))

-- Writing a pair changes the sum by the pair.
plain_sum-put16 :
    (l : List ℕ) (k v : ℕ)
    → v < 2 ^ 16
    → suc (twice k) < length l
    → plain_sum (put16 l (twice k) v) + (get_or l (twice k) 0 * 256 + get_or l (suc (twice k)) 0)
      ≡ plain_sum l + v
unfolding plain_sum
plain_sum-put16 [] k v hv h = absurd (omega arith)
plain_sum-put16 (x ∷ []) zero v hv h = absurd (omega arith)
plain_sum-put16 (x ∷ []) (suc k) v hv h = absurd (omega arith)
plain_sum-put16 (x ∷ y ∷ l) zero v hv h = omega arith
plain_sum-put16 (x ∷ y ∷ l) (suc k) v hv h = omega (arith, plain_sum-put16 l k v hv (omega arith))

ipv4_checksum_lt : (l : List ℕ) → ipv4_checksum l < 2 ^ 16
unfolding ipv4_checksum
ipv4_checksum_lt l = omega arith

-- A block whose checksum field is zero sums to zero once its checksum is put there.
pub ipv4_checksum-put16 :
    (l : List ℕ) (k : ℕ)
    → All IsByte l
    → length l < 2 ^ 16
    → suc (twice k) < length l
    → get_or l (twice k) 0 ≡ 0
    → get_or l (suc (twice k)) 0 ≡ 0
    → ipv4_checksum (put16 l (twice k) (ipv4_checksum l)) ≡ 0
ipv4_checksum-put16 l k h hl hk z z2 =
    let c = ipv4_checksum l in
    let sum = plain_sum-put16 l k c (ipv4_checksum_lt l) hk in
    ground (
      arith,
      sum,
      z,
      z2,
      ipv4_checksum_lem l h hl,
      ipv4_checksum_lem (put16 l (twice k) c) (All-put16 l (twice k) c h)
          (omega (arith, length-put16 l (twice k) c)),
    )
