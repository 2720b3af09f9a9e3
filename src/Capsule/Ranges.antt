-- ===== src/Capsule/Ranges.antt =====
-- Models the range operations of src/capsule/mod.rs: which packets a range takes in, and merging.
pub mod Laws
mod Tests
use straw.Common.{
  ℕ, ◌+◌, ◌-◌, ◌^◌, min, List, [], ◌∷◌, Bool, true, false, ◌&&◌, ◌||◌, ◌==◌, leb, ltb,
  if◌then◌else◌, sort_by,
}
use straw.Ip.{IpAddr, v4, v6}
use straw.Capsule.{IpAddressRange}
use straw.Capsule.Route.{derived_cmp}

abbrev pub ip_key : IpAddr → ℕ
ip_key (v4 a) = a
ip_key (v6 a) = a

-- The version that the address must have, and the protocol number of its ICMP.
abbrev pub family_of : IpAddr → ℕ × ℕ
family_of (v4 a) = (4, 1)
family_of (v6 a) = (6, 58)

unfoldable pub contains : IpAddressRange → IpAddr → ℕ → Bool
contains self addr proto =
    let (version, icmp_proto) = family_of addr in
    self.ip_version == version
    && ((self.ip_protocol == 0 || self.ip_protocol == proto || proto == icmp_proto)
        && (leb (ip_key self.start_ip) (ip_key addr) && leb (ip_key addr) (ip_key self.end_ip)))

-- Whether a range joins the last one merged; the sum saturates at 128 bits.
unfoldable pub joins : IpAddressRange → IpAddressRange → Bool
joins last range =
    last.ip_version == range.ip_version
    && (last.ip_protocol == range.ip_protocol
        && leb (ip_key range.start_ip) (min (ip_key last.end_ip + 1) (2 ^ 128 - 1)))

unfoldable pub extended : IpAddressRange → IpAddressRange → IpAddressRange
extended last range =
    if ltb (ip_key last.end_ip) (ip_key range.end_ip)
    then record {
      ip_version = last.ip_version;
      start_ip = last.start_ip;
      end_ip = range.end_ip;
      ip_protocol = last.ip_protocol;
    }
    else last

-- The rounds of the loop from a `merged` that ends in `last`.
unfoldable pub merge_from : IpAddressRange → List IpAddressRange → List IpAddressRange
unfolding joins extended
merge_from last [] = last ∷ []
merge_from last (range ∷ rest) =
    let joined = merge_from (extended last range) rest in
    let apart = merge_from range rest in if joins last range then joined else last ∷ apart

unfoldable pub merge_sorted : List IpAddressRange → List IpAddressRange
unfolding merge_from
merge_sorted [] = []
merge_sorted (range ∷ rest) = merge_from range rest

unfoldable pub merge_ranges : List IpAddressRange → List IpAddressRange
unfolding sort_by merge_sorted
merge_ranges ranges = merge_sorted (sort_by derived_cmp ranges)
