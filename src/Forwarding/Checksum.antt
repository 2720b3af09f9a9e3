-- ===== src/Forwarding/Checksum.antt =====
-- Models the Internet checksum of src/forwarding/packet.rs (RFC 1071).
pub mod Laws
use straw.Common.{
  ℕ, zero, suc, ◌+◌, ◌-◌, ◌*◌, ◌/◌, ◌%◌, ◌^◌, List, [], ◌∷◌, ◌++◌, ltb, if◌then◌else◌, length,
}
use straw.Ip.{IpAddr, v6, octets, be_bytes}

-- The sum of the big-endian pairs in 32 bits; a last single byte is the high one of a pair.
unfoldable pub word_sum : List ℕ → ℕ
word_sum [] = 0
word_sum (x ∷ []) = x * 256
word_sum (x ∷ y ∷ rest) = (x * 256 + y + word_sum rest) % 2 ^ 32

-- `while sum > 0xffff { sum = (sum & 0xffff) + (sum >> 16) }`, over the rounds left.
unfoldable pub fold_carry : ℕ → ℕ → ℕ
fold_carry zero sum = sum
fold_carry (suc rounds) sum =
    let folded = fold_carry rounds (sum % 2 ^ 16 + sum / 2 ^ 16) in
    if ltb 0xffff sum then folded else sum

-- Two rounds bring every 32-bit sum down to 16 bits.
unfoldable pub ipv4_checksum : List ℕ → ℕ
unfolding word_sum fold_carry
ipv4_checksum data_bytes = 0xffff - fold_carry 2 (word_sum data_bytes) % 2 ^ 16

-- The IPv6 pseudo-header in front of the message.
unfoldable pub icmpv6_checksum : ℕ → ℕ → List ℕ → ℕ
unfolding ipv4_checksum octets
icmpv6_checksum src dst icmp = ipv4_checksum (
    octets (v6 src) ++ octets (v6 dst) ++ be_bytes 4 (length icmp) ++ (0 ∷ 0 ∷ 0 ∷ 58 ∷ []) ++ icmp)
