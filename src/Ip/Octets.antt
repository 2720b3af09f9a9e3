-- ===== src/Ip/Octets.antt =====
-- Octets and numbers are two views of one address.
use straw.Common.{
  if◌then◌else◌, ℕ, zero, suc, ◌+◌, ◌*◌, ◌/◌, ◌%◌, ◌^◌, ◌<◌, ◌≡◌, refl, ap, ◌∙◌, List, [], ◌∷◌,
  ◌++◌, length, length-append, All, All-append, append-nil, append_assoc, arith,
}
use straw.Ip.{IpAddr, v4, v6, octets, is_ipv4, be_bytes, be_value_from, be_value}
use native.Mathlib.Nat.{pow-suc}

pub length-be_bytes : (w n : ℕ) → length (be_bytes w n) ≡ w
unfolding be_bytes
length-be_bytes zero n = refl
length-be_bytes (suc w) n =
    omega (arith, length-append (be_bytes w (n / 256)) (n % 256 ∷ []), length-be_bytes w (n / 256))

abbrev pub IsByte : ℕ → Type 0
IsByte b = b < 256

pub be_bytes-IsByte : (w n : ℕ) → All IsByte (be_bytes w n)
unfolding be_bytes
be_bytes-IsByte zero n = tt
be_bytes-IsByte (suc w) n =
    All-append IsByte (be_bytes w (n / 256)) _ (be_bytes-IsByte w (n / 256)) (omega arith)

be_value_from-append :
    (acc : ℕ) (xs ys : List ℕ)
    → be_value_from acc (xs ++ ys) ≡ be_value_from (be_value_from acc xs) ys
unfolding be_value_from
be_value_from-append acc [] ys = refl
be_value_from-append acc (x ∷ xs) ys = be_value_from-append (acc * 256 + x) xs ys

pub be_value-be_bytes : (w n : ℕ) → n < 256 ^ w → be_value (be_bytes w n) ≡ n
unfolding be_value be_value_from be_bytes
be_value-be_bytes zero n h = omega arith
be_value-be_bytes (suc w) n h =
    be_value_from-append 0 (be_bytes w (n / 256)) (n % 256 ∷ [])
    ∙ omega (arith, be_value-be_bytes w (n / 256) (omega (arith, pow-suc 256 w)))

be_bytes_from :
    (bs : List ℕ) (k m acc : ℕ)
    → All IsByte bs
    → m ≡ k + length bs
    → be_bytes m (be_value_from acc bs) ≡ be_bytes k acc ++ bs
unfolding be_value_from
be_bytes_from [] k m acc h e = let e' : m ≡ k = omega arith in rw (e', append-nil)
be_bytes_from (b ∷ bs) k m acc h e =
    be_bytes_from bs (suc k) m (acc * 256 + b) h.1 (omega arith)
    ∙ ap (λ t. t ++ bs) last
    ∙ append_assoc (be_bytes k acc) (b ∷ []) bs
  where
    quotient : (acc * 256 + b) / 256 ≡ acc
    quotient = omega arith

    digit : (acc * 256 + b) % 256 ≡ b
    digit = omega arith

    last : be_bytes (suc k) (acc * 256 + b) ≡ be_bytes k acc ++ b ∷ []
    last = unfold be_bytes in rw (quotient, digit)

-- The octets of the number that bytes spell are those bytes.
pub be_bytes-be_value : (bs : List ℕ) → All IsByte bs → be_bytes (length bs) (be_value bs) ≡ bs
unfolding be_value
be_bytes-be_value bs h = unfold be_bytes in be_bytes_from bs 0 (length bs) 0 h (omega arith)

be_value_from-lt :
    (bs : List ℕ) (acc k m : ℕ)
    → All IsByte bs
    → acc < 256 ^ k
    → m ≡ k + length bs
    → be_value_from acc bs < 256 ^ m
unfolding be_value_from
be_value_from-lt [] acc k m h lt e = let e' : m ≡ k = omega arith in rw e' lt
be_value_from-lt (b ∷ bs) acc k m h lt e =
    be_value_from-lt bs (acc * 256 + b) (suc k) m h.1 (omega (arith, pow-suc 256 k)) (omega arith)

pub be_value-lt : (bs : List ℕ) → All IsByte bs → be_value bs < 256 ^ length bs
unfolding be_value
be_value-lt bs h = be_value_from-lt bs 0 0 (length bs) h (omega arith) (omega arith)

pub length-octets : (a : IpAddr) → length (octets a) ≡ (if is_ipv4 a then 4 else 16)
unfolding octets
length-octets (v4 a) = length-be_bytes 4 a
length-octets (v6 a) = length-be_bytes 16 a
