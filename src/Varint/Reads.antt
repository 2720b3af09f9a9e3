-- ===== src/Varint/Reads.antt =====
-- What `read_varint` does on any input, well formed or not.
use straw.Common.{
  ℕ, zero, suc, ◌+◌, ◌-◌, ◌*◌, ◌/◌, ◌%◌, ◌^◌, ◌≤◌, ◌<◌, ◌≡◌, refl, ◌∙◌, List, [], ◌∷◌, bit_or,
  bit_and, ok, arith, length, ap, All, sym,
}
use straw.Error.{underflow}
use straw.Buffer.{done, get_u8}
use straw.Buffer.Laws
use straw.Buffer.Laws.{
  IsLocal, IsTotal, IsTotalFrom, Takes, Yields, >>=-IsLocal, >>=-Takes, >>=-Yields, >>=-IsTotalFrom,
}
use straw.Ip.Octets.{IsByte}
use straw.Varint.Laws.{low_six, read_tail_round, step_bound, mul_mono_left, read_varint_first}
use native.Mathlib.Nat.{pow-suc, le_trans}
use straw.Varint.Shape.{varint_bytes}
use straw.Varint.Codec.{varint_len-bytes}
use straw.Varint.{read_tail, read_rest, read_varint, varint_max, varint_len}

read_tail-IsLocal : (n val : ℕ) → IsLocal (read_tail n val)
unfolding read_tail
read_tail-IsLocal zero val = Laws.pure-IsLocal val
read_tail-IsLocal (suc n) val =
    >>=-IsLocal get_u8 _ Laws.get_u8-IsLocal (λ b. read_tail-IsLocal n _)

read_tail-Takes : (n val : ℕ) → Takes n (read_tail n val)
unfolding read_tail
read_tail-Takes zero val bs a rest h = ground arith
read_tail-Takes (suc n) val bs a rest h =
    omega (arith, >>=-Takes get_u8 _ 1 n Laws.get_u8-Takes (λ b. read_tail-Takes n _) bs a rest h)

read_tail-IsTotalFrom : (n val : ℕ) → IsTotalFrom n (read_tail n val)
unfolding read_tail
read_tail-IsTotalFrom zero val bs enough h = cc
read_tail-IsTotalFrom (suc n) val [] enough h = absurd (omega arith)
read_tail-IsTotalFrom (suc n) val (b ∷ bs) enough h =
    read_tail-IsTotalFrom n (bit_or (val * 256 % 2 ^ 64) b) bs (omega arith) h

-- `read_varint` never panics.
pub read_varint-IsTotal : IsTotal read_varint
unfolding read_varint
read_varint-IsTotal =
    Laws.require-IsTotal 1 (λ _. underflow) _
      (>>=-IsTotalFrom get_u8 read_rest 1 Laws.get_u8-IsTotalFrom (λ f.
        Laws.require-IsTotal (2 ^ (f / 64) - 1) (λ _. underflow) _
          (read_tail-IsTotalFrom (2 ^ (f / 64) - 1) _)))

read_rest-IsLocal : (f : ℕ) → IsLocal (read_rest f)
unfolding read_rest
read_rest-IsLocal f =
    >>=-IsLocal _ _ (Laws.require-IsLocal (2 ^ (f / 64) - 1) (λ _. underflow))
      (λ _. read_tail-IsLocal _ _)

pub read_varint-IsLocal : IsLocal read_varint
unfolding read_varint
read_varint-IsLocal =
    >>=-IsLocal _ _ (Laws.require-IsLocal 1 (λ _. underflow))
      (λ _. >>=-IsLocal get_u8 read_rest Laws.get_u8-IsLocal read_rest-IsLocal)

-- `n` more bytes multiply the value by 256 ^ n at most.
read_tail-Yields :
    (n val : ℕ)
    → (val + 1) * 256 ^ n ≤ 2 ^ 62
    → Yields (λ v. v < (val + 1) * 256 ^ n) (read_tail n val)
unfolding read_tail
read_tail-Yields zero val bound bs v rest hb h = ground arith
read_tail-Yields (suc n) val bound [] v rest hb h = absurd (cc)
read_tail-Yields (suc n) val bound (b ∷ bs) v rest hb h =
    let (small, next) = step_bound val b n hb.0 bound in
    let (lt, hr) =
      read_tail-Yields n (val * 256 + b) next bs v rest hb.1
        (rw (← read_tail_round n val b bs hb.0 small) h) in
    (
      omega (
        arith,
        lt,
        mul_mono_left (val * 256 + b + 1) ((val + 1) * 256) (256 ^ n) (omega (arith, hb.0)),
        pow-suc 256 n,
        ap (λ t. (val + 1) * t) (pow-suc 256 n),
      ),
      hr,
    )

abbrev field_bound : ℕ → ℕ
field_bound k = 64 * 256 ^ (2 ^ k - 1)

rest_bound :
    (f k : ℕ)
    → f < 256
    → f / 64 ≡ k
    → (field_bound k ≤ 2 ^ 62) × ((bit_and f 0x3f + 1) * 256 ^ (2 ^ k - 1) ≤ field_bound k)
rest_bound f zero hf e = omega (arith, low_six f hf)
rest_bound f (suc zero) hf e = omega (arith, low_six f hf)
rest_bound f (suc (suc zero)) hf e = omega (arith, low_six f hf)
rest_bound f (suc (suc (suc zero))) hf e = omega (arith, low_six f hf)
rest_bound f (suc (suc (suc (suc k)))) hf e = absurd (omega arith)

read_rest-Yields : (f : ℕ) → f < 256 → Yields (λ v. v < field_bound (f / 64)) (read_rest f)
unfolding read_rest
read_rest-Yields f hf bs v rest hb h =
    let (fits, low) = rest_bound f (f / 64) hf refl in
    let (lt, hr) =
      >>=-Yields _ _ (λ _. Unit {0}) (λ v. v < (bit_and f 0x3f + 1) * 256 ^ (2 ^ (f / 64) - 1))
        (Laws.require-Yields (2 ^ (f / 64) - 1) (λ _. underflow))
        (λ _ _. read_tail-Yields _ _ (le_trans low fits)) bs v rest hb h in
    (le_trans lt low, hr)

read_rest-Takes : (f : ℕ) → Takes (2 ^ (f / 64) - 1) (read_rest f)
unfolding read_rest
read_rest-Takes f bs v rest h = omega (
  arith,
  >>=-Takes _ _ 0 (2 ^ (f / 64) - 1) (Laws.require-Takes (2 ^ (f / 64) - 1) (λ _. underflow))
      (λ _. read_tail-Takes _ _) bs v rest h,
)

shortest :
    (k v n rest bs : ℕ)
    → k < 4
    → v < field_bound k
    → rest + (2 ^ k - 1) ≤ bs
    → (v ≤ varint_max) × (rest < suc bs) × (varint_len v ≡ ok n → rest + n ≤ suc bs)
unfolding varint_len
shortest zero v n rest bs hk lt h = ground arith
shortest (suc zero) v n rest bs hk lt h = ground arith
shortest (suc (suc zero)) v n rest bs hk lt h = ground arith
shortest (suc (suc (suc zero))) v n rest bs hk lt h = ground arith
shortest (suc (suc (suc (suc k)))) v n rest bs hk lt h = absurd (omega arith)

-- From a buffer of bytes, a successful read returns a value that fits a varint and leaves a shorter
-- buffer of bytes, and it took at least as many bytes as `varint_len` gives for that value.
pub read_varint_result :
    (bs : List ℕ) (v : ℕ) (rest : List ℕ)
    → All IsByte bs
    → read_varint bs ≡ done v rest
    → (v ≤ varint_max)
      × (length rest < length bs)
      × ((n : ℕ) × (varint_len v ≡ ok n) × (length rest + n ≤ length bs))
      × All IsByte rest
read_varint_result [] v rest hb h = absurd (unfold read_varint in cc)
read_varint_result (f ∷ bs) v rest hb h =
    let e = sym (read_varint_first f bs) ∙ h in
    let (lt, hr) = read_rest-Yields f hb.0 bs v rest hb.1 e in
    let all = λ (n : ℕ).
      shortest (f / 64) v n (length rest) (length bs) (omega (arith, hb.0)) lt
        (read_rest-Takes f bs v rest e) in
    let fits = (all 0).0 in
    let n = length (varint_bytes v) in
    let len = varint_len-bytes v fits in (fits, (all 0).1, (n, len, (all n).2 len), hr)

pub read_varint-Takes : Takes 1 read_varint
read_varint-Takes [] v rest h = absurd (unfold read_varint in cc)
read_varint-Takes (f ∷ bs) v rest h =
    omega (arith, read_rest-Takes f bs v rest (sym (read_varint_first f bs) ∙ h))

pub read_varint-Yields : Yields (λ v. v ≤ varint_max) read_varint
read_varint-Yields bs v rest hb h =
    let (le, _, _, hr) = read_varint_result bs v rest hb h in (le, hr)
