-- ===== src/Capsule/Route.antt =====
-- Models src/capsule/route_advertisement.rs: the ROUTE_ADVERTISEMENT capsule (RFC 9484 §4.7.3).
pub mod Order
pub mod Entry
pub mod Laws
use straw.Common.{
  ℕ, ◌+◌, ◌≤◌, ◌≡◌, List, [], ◌∷◌, ◌++◌, Bool, true, not, ◌&&◌, ◌||◌, ◌==◌, if◌then◌else◌, Result,
  ok, err, unwrap, and_then, length, compare, Ordering, then_with, is_lt, is_gt, cmp_bytes, sort_by,
  Increasing,
}
use straw.Error.{DecodeError, underflow, invalid_var_int}
use straw.Ip.{IpAddr, v4, v6, octets, IsAddr}
use straw.Ip.Octets.{IsByte}
use straw.Varint.{write_varint, varint_max}
use straw.Buffer.{Reader, pure, check, require, get_u8, ◌>>=◌, ◌>>◌}
use straw.Capsule.{IpAddressRange, RouteAdvertisement, capsule_route_advertisement}
use straw.Capsule.Loop.{decode_all, write_all, sum_all}
use straw.Capsule.Address.{decode_ip_address, version_of}

unfoldable pub cmp_ip_addr : IpAddr → IpAddr → Ordering
unfolding cmp_bytes octets
cmp_ip_addr (v4 a) (v4 b) = cmp_bytes (octets (v4 a)) (octets (v4 b))
cmp_ip_addr (v6 a) (v6 b) = cmp_bytes (octets (v6 a)) (octets (v6 b))
cmp_ip_addr (v4 a) (v6 b) = Ordering.lt
cmp_ip_addr (v6 a) (v4 b) = Ordering.gt

-- `Ord` of the standard library's addresses: the families in order, then the number.
abbrev pub ip_cmp : IpAddr → IpAddr → Ordering
ip_cmp (v4 a) (v4 b) = compare a b
ip_cmp (v6 a) (v6 b) = compare a b
ip_cmp (v4 a) (v6 b) = Ordering.lt
ip_cmp (v6 a) (v4 b) = Ordering.gt

-- The `Ord` that `IpAddressRange` derives: field by field, as declared.
abbrev pub derived_cmp : IpAddressRange → IpAddressRange → Ordering
derived_cmp a b = then_with (compare a.ip_version b.ip_version) (
    then_with (ip_cmp a.start_ip b.start_ip)
      (then_with (ip_cmp a.end_ip b.end_ip) (compare a.ip_protocol b.ip_protocol)))

-- `(ip_version, ip_protocol, &start_ip)` compared as tuples.
abbrev pub key_cmp : IpAddressRange → IpAddressRange → Ordering
key_cmp a b =
    then_with (compare a.ip_version b.ip_version)
      (then_with (compare a.ip_protocol b.ip_protocol) (ip_cmp a.start_ip b.start_ip))

-- The comparison of `sort_ranges`.
unfoldable pub sort_cmp : IpAddressRange → IpAddressRange → Ordering
unfolding cmp_ip_addr
sort_cmp a b =
    then_with (compare a.ip_version b.ip_version)
      (then_with (compare a.ip_protocol b.ip_protocol) (cmp_ip_addr a.start_ip b.start_ip))

unfoldable pub sort_ranges : List IpAddressRange → List IpAddressRange
unfolding sort_by sort_cmp
sort_ranges ranges = sort_by sort_cmp ranges

unfoldable pub decode_ip_address_range : Reader IpAddressRange
decode_ip_address_range = do
  require 1 (λ _. underflow)
  ip_version ← get_u8
  start_ip ← decode_ip_address ip_version
  end_ip ← decode_ip_address ip_version
  check (not (is_gt (cmp_ip_addr start_ip end_ip))) invalid_var_int
  require 1 (λ _. underflow)
  ip_protocol ← get_u8
  pure (record {
    ip_version = ip_version;
    start_ip = start_ip;
    end_ip = end_ip;
    ip_protocol = ip_protocol;
  })

-- One window: an error if the derived order and the key order both fail to increase.
abbrev pub out_of_order : IpAddressRange → IpAddressRange → Bool
out_of_order a b = not (is_lt (derived_cmp a b)) && not (is_lt (key_cmp a b))

-- `for window in ranges.windows(2)`: whether some window is refused.
unfoldable pub any_out_of_order : List IpAddressRange → Bool
any_out_of_order [] = Bool.false
any_out_of_order (a ∷ []) = Bool.false
any_out_of_order (a ∷ b ∷ rest) = out_of_order a b || any_out_of_order (b ∷ rest)

unfoldable pub decode : List ℕ → Result DecodeError RouteAdvertisement
decode payload = and_then (decode_all decode_ip_address_range payload) λ ranges.
    if any_out_of_order ranges
    then err invalid_var_int
    else ok (record { ip_address_ranges = ranges })

unfoldable pub range_bytes : IpAddressRange → List ℕ
range_bytes r = r.ip_version ∷ (octets r.start_ip ++ (octets r.end_ip ++ r.ip_protocol ∷ []))

unfoldable pub encode_ip_address_range : IpAddressRange → List ℕ → Result DecodeError (List ℕ)
encode_ip_address_range r buf =
    ok
      ((((buf ++ r.ip_version ∷ []) ++ octets r.start_ip) ++ octets r.end_ip) ++ r.ip_protocol ∷ [])

unfoldable pub ip_address_range_len : IpAddressRange → Result DecodeError ℕ
ip_address_range_len r =
    let ip_len = if r.ip_version == 4 then 4 else 16 in ok (1 + ip_len + ip_len + 1)

unfoldable pub encode_payload : RouteAdvertisement → List ℕ → Result DecodeError (List ℕ)
encode_payload self buf = write_all encode_ip_address_range (sort_ranges self.ip_address_ranges) buf

unfoldable pub encode : RouteAdvertisement → List ℕ → Result DecodeError (List ℕ)
encode self buf =
    let sorted = sort_ranges self.ip_address_ranges in
    and_then (sum_all ip_address_range_len sorted) λ len.
      and_then (unwrap (write_varint buf capsule_route_advertisement)) λ buf.
        and_then (unwrap (write_varint buf len)) λ buf. write_all encode_ip_address_range sorted buf

-- A range that the wire format can carry.
pub record IsRange (r : IpAddressRange) : Type 0 where
  pub start_family : version_of r.start_ip ≡ r.ip_version
  pub end_family : version_of r.end_ip ≡ r.ip_version
  pub start_addr : IsAddr r.start_ip
  pub end_addr : IsAddr r.end_ip
  pub ordered : is_gt (ip_cmp r.start_ip r.end_ip) ≡ Bool.false
  pub protocol : IsByte r.ip_protocol
