-- ===== src/Capsule/Route/Order.antt =====
-- Comparing octets is comparing numbers.
use straw.Common.{
  ℕ, zero, suc, ◌^◌, ◌/◌, ◌%◌, ◌<◌, ◌≡◌, refl, ap, ◌∙◌, compare, then_with, cmp_bytes,
  cmp_bytes-append, compare-digits, arith,
}
use native.Mathlib.Nat.{pow-suc}
use straw.Ip.{IpAddr, v4, v6, octets, be_bytes, IsAddr}
use straw.Ip.Octets.{length-be_bytes}
use straw.Capsule.Route.{cmp_ip_addr, ip_cmp}

cmp_bytes-be_bytes :
    (w a b : ℕ) → a < 256 ^ w → b < 256 ^ w → cmp_bytes (be_bytes w a) (be_bytes w b) ≡ compare a b
unfolding be_bytes
cmp_bytes-be_bytes zero a b ha hb = unfold cmp_bytes in ground arith
cmp_bytes-be_bytes (suc w) a b ha hb =
    cmp_bytes-append (be_bytes w (a / 256)) (be_bytes w (b / 256)) _ _
      (omega (arith, length-be_bytes w (a / 256), length-be_bytes w (b / 256)))
    ∙ ap (λ c. then_with c (compare (a % 256) (b % 256)))
        (cmp_bytes-be_bytes w (a / 256) (b / 256) (omega (arith, pow-suc 256 w))
          (omega (arith, pow-suc 256 w)))
    ∙ compare-digits a b

pub cmp_ip_addr-ip_cmp : (a b : IpAddr) → IsAddr a → IsAddr b → cmp_ip_addr a b ≡ ip_cmp a b
unfolding cmp_ip_addr octets
cmp_ip_addr-ip_cmp (v4 a) (v4 b) ha hb = cmp_bytes-be_bytes 4 a b ha hb
cmp_ip_addr-ip_cmp (v4 a) (v6 b) ha hb = refl
cmp_ip_addr-ip_cmp (v6 a) (v4 b) ha hb = refl
cmp_ip_addr-ip_cmp (v6 a) (v6 b) ha hb = cmp_bytes-be_bytes 16 a b ha hb
