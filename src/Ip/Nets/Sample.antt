-- ===== src/Ip/Nets/Sample.antt =====
-- Prefixes to run the models on: an address and a length. Of the ranges, those that are one prefix are
-- taken apart.
use straw.Common.{
  ℕ, zero, suc, ◌+◌, ◌-◌, ◌*◌, ◌/◌, ◌%◌, ◌^◌, ◌≤◌, ◌<◌, ◌≡◌, ap, sym, ◌∙◌, List, [], ◌∷◌, Bool,
  true, false, ◌==◌, ◌&&◌, ◌||◌, leb, Bool-cases, if◌then◌else◌, Option, none, some, inl, inr,
  arith,
}
use straw.Ip.{IpAddr, v4, v6}
use straw.Ip.Nets.{IpNets}
use native.Mathlib.Nat.{div-div-eq-div-mul, mul-div-mul_left, pow-suc, one-le-pow, mul_comm}

abbrev pub Prefix : Type 0
Prefix = IpAddr × ℕ

abbrev block : ℕ → ℕ → ℕ
block size a = a / 2 ^ size * 2 ^ size

unfoldable pub prefix_contains : Prefix → IpAddr → Bool
prefix_contains (v4 a, len) (v4 x) = a / 2 ^ (32 - len) == x / 2 ^ (32 - len)
prefix_contains (v6 a, len) (v6 x) = a / 2 ^ (128 - len) == x / 2 ^ (128 - len)
prefix_contains (v4 a, len) (v6 x) = false
prefix_contains (v6 a, len) (v4 x) = false

unfoldable pub network_of : Prefix → IpAddr
network_of (v4 a, len) = v4 (block (32 - len) a)
network_of (v6 a, len) = v6 (block (128 - len) a)

unfoldable pub broadcast_of : Prefix → IpAddr
broadcast_of (v4 a, len) = v4 (block (32 - len) a + 2 ^ (32 - len) - 1)
broadcast_of (v6 a, len) = v6 (block (128 - len) a + 2 ^ (128 - len) - 1)

unfoldable pub prefix_of : IpAddr → ℕ → Option Prefix
prefix_of (v4 a) len = if leb len 32 then some (v4 a, len) else none
prefix_of (v6 a) len = if leb len 128 then some (v6 a, len) else none

-- The length of the prefix with this first and last number, searched by its size.
unfoldable pub one_block : ℕ → ℕ → ℕ → ℕ → List ℕ
one_block zero width a b = if a == b then width ∷ [] else []
one_block (suc s) width a b =
    let rest = one_block s width a b in
    if a % 2 ^ suc s == 0 && b + 1 == a + 2 ^ suc s then (width - suc s) ∷ [] else rest

unfoldable pub as_prefixes : IpAddr → List ℕ → List Prefix
as_prefixes a [] = []
as_prefixes a (len ∷ lens) = (a, len) ∷ as_prefixes a lens

unfoldable pub sample_subnets : IpAddr → IpAddr → List Prefix
sample_subnets (v4 a) (v4 b) = as_prefixes (v4 a) (one_block 32 32 a b)
sample_subnets (v6 a) (v6 b) = as_prefixes (v6 a) (one_block 128 128 a b)
sample_subnets (v4 a) (v6 b) = []
sample_subnets (v6 a) (v4 b) = []

abbrev pub prefixes : IpNets
prefixes = record {
  IpNet = Prefix;
  net_of = prefix_of;
  net_contains = prefix_contains;
  prefix_len = λ p. p.1;
  network = network_of;
  broadcast = broadcast_of;
  subnets = sample_subnets;
}

pow-add : (s d : ℕ) → 2 ^ (d + s) ≡ 2 ^ s * 2 ^ d
pow-add zero d = let e : d + 0 ≡ d = omega arith in rw e (omega arith)
pow-add (suc s) d =
    let e : d + suc s ≡ suc (d + s) = omega arith in
    rw (e, pow-suc 2 s, pow-suc 2 (d + s), pow-add s d) (omega arith)

pow_pos : (s : ℕ) → 0 < 2 ^ s
pow_pos s = one-le-pow s 2 (omega arith)

-- The shorter of two prefixes that share `x` has the first number of the longer one.
nested :
    (s d a b x : ℕ)
    → a / 2 ^ (d + s) ≡ x / 2 ^ (d + s)
    → b / 2 ^ s ≡ x / 2 ^ s
    → a / 2 ^ (d + s) ≡ block s b / 2 ^ (d + s)
nested s d a b x ha hb =
    let size = pow-add s d in
    ha
    ∙ ap (λ n. x / n) size
    ∙ sym (div-div-eq-div-mul x (2 ^ s) (2 ^ d))
    ∙ ap (λ n. n / 2 ^ d) (sym hb)
    ∙ sym (mul-div-mul_left (b / 2 ^ s) (2 ^ d) (pow_pos s))
    ∙ ap (λ n. n / (2 ^ s * 2 ^ d)) (mul_comm (2 ^ s) (b / 2 ^ s))
    ∙ ap (λ n. block s b / n) (sym size)

nested_le :
    (s t a b x : ℕ)
    → s ≤ t
    → a / 2 ^ t ≡ x / 2 ^ t
    → b / 2 ^ s ≡ x / 2 ^ s
    → a / 2 ^ t ≡ block s b / 2 ^ t
nested_le s t a b x le ha hb =
    let sum : t - s + s ≡ t = omega arith in rw sum at (nested s (t - s) a b x (rw sum ha) hb)

pub one_holds :
    (s t a b x : ℕ)
    → (a / 2 ^ t ≡ x / 2 ^ t)
    → (b / 2 ^ s ≡ x / 2 ^ s)
    → ((a / 2 ^ t == block s b / 2 ^ t) || (b / 2 ^ s == block t a / 2 ^ s)) ≡ true
one_holds s t a b x ha hb = elim (Bool-cases (leb s t)) [
  | inl le ↦ let e = nested_le s t a b x (ground arith) ha hb in ground (arith, e)
  | inr gt ↦ let e = nested_le t s b a x (ground arith) hb ha in ground (arith, e)
]
