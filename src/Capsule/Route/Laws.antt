-- ===== src/Capsule/Route/Laws.antt =====
-- The ROUTE_ADVERTISEMENT codec: which lists are accepted, the round trip, and sorting.
use straw.Common.{
  ℕ, ◌≤◌, ◌≡◌, refl, ap, ◌∙◌, ◌≢◌, List, [], ◌∷◌, ◌++◌, append_assoc, false, ok, panic, arith,
  length, All, compare, Ordering, Increasing, sort_by-Increasing,
}
use straw.Ip.Octets.{IsByte}
use straw.Varint.{varint_max}
use straw.Varint.Shape.{varint_bytes, write_varint-bytes}
use straw.Capsule.{IpAddressRange, RouteAdvertisement, capsule_route_advertisement}
use straw.Capsule.Loop.{
  concat_map, decode_all-ne-panic, decode_all-valid, decode_all-bytes, write_all-bytes,
  sum_all-bytes,
}
use straw.Capsule.Route.{
  decode, encode, ip_cmp, key_cmp, sort_cmp, sort_ranges, any_out_of_order, range_bytes, IsRange,
  decode_ip_address_range, encode_ip_address_range, ip_address_range_len,
}
use straw.Capsule.Route.Order.{cmp_ip_addr-ip_cmp}
use straw.Capsule.Route.Entry.{
  decode_ip_address_range-Takes, decode_ip_address_range-IsTotal, decode_ip_address_range-Yields,
  decode_ip_address_range-bytes, encode_ip_address_range-bytes, ip_address_range_len-bytes,
}

abbrev pub payload_bytes : RouteAdvertisement → List ℕ
payload_bytes self = concat_map range_bytes self.ip_address_ranges

-- In the order that RFC 9484 asks for.
abbrev pub IsSorted : RouteAdvertisement → Type 0
IsSorted self = Increasing key_cmp self.ip_address_ranges

abbrev pub IsSendable : RouteAdvertisement → Type 0
IsSendable self =
    All IsRange self.ip_address_ranges × IsSorted self × (length (payload_bytes self) ≤ varint_max)

any_out_of_order-Increasing :
    (ranges : List IpAddressRange) → Increasing key_cmp ranges → any_out_of_order ranges ≡ false
unfolding any_out_of_order
any_out_of_order-Increasing [] h = refl
any_out_of_order-Increasing (a ∷ []) h = refl
any_out_of_order-Increasing (a ∷ b ∷ rest) h =
    ground (arith, any_out_of_order-Increasing (b ∷ rest) h.1)

sort_cmp-key_cmp : (a b : IpAddressRange) → IsRange a → IsRange b → sort_cmp a b ≡ key_cmp a b
unfolding sort_cmp
sort_cmp-key_cmp a b ha hb =
    rw (cmp_ip_addr-ip_cmp a.start_ip b.start_ip ha.start_addr hb.start_addr)

sorted-Increasing :
    (ranges : List IpAddressRange)
    → All IsRange ranges
    → Increasing key_cmp ranges
    → Increasing sort_cmp ranges
sorted-Increasing [] v h = tt
sorted-Increasing (a ∷ []) v h = tt
sorted-Increasing (a ∷ b ∷ rest) v h =
    (sort_cmp-key_cmp a b v.0 v.1.0 ∙ h.0, sorted-Increasing (b ∷ rest) v.1 h.1)

pub decode_of_ranges :
    (self : RouteAdvertisement)
    → All IsRange self.ip_address_ranges
    → any_out_of_order self.ip_address_ranges ≡ false
    → decode (payload_bytes self) ≡ ok self
unfolding decode
decode_of_ranges self v h = rw (
  decode_all-bytes IsRange range_bytes decode_ip_address_range decode_ip_address_range-bytes
      decode_ip_address_range-Takes self.ip_address_ranges v,
  h,
)

pub decode-bytes :
    (self : RouteAdvertisement)
    → All IsRange self.ip_address_ranges
    → IsSorted self
    → decode (payload_bytes self) ≡ ok self
decode-bytes self v s = decode_of_ranges self v (any_out_of_order-Increasing _ s)

pub encode-bytes :
    (self : RouteAdvertisement) (buf : List ℕ)
    → All IsRange self.ip_address_ranges
    → IsSorted self
    → length (payload_bytes self) ≤ varint_max
    → encode self buf
      ≡ ok (
          buf
          ++ (varint_bytes capsule_route_advertisement
              ++ (varint_bytes (length (payload_bytes self)) ++ payload_bytes self)))
unfolding encode sort_ranges
encode-bytes self buf v s fits =
    rw
      (
        sort_by-Increasing sort_cmp self.ip_address_ranges (sorted-Increasing _ v s),
        sum_all-bytes IsRange range_bytes ip_address_range_len ip_address_range_len-bytes
            self.ip_address_ranges v,
        write_varint-bytes buf capsule_route_advertisement (omega arith),
        write_varint-bytes (buf ++ varint_bytes capsule_route_advertisement)
            (length (payload_bytes self)) fits,
        write_all-bytes IsRange range_bytes encode_ip_address_range encode_ip_address_range-bytes
            self.ip_address_ranges _ v,
      )
      (ap ok (simp append_assoc))

pub decode-ne-panic : (payload : List ℕ) → decode payload ≢ panic
unfolding decode
decode-ne-panic payload = ground (
  arith,
  decode_all-ne-panic decode_ip_address_range decode_ip_address_range-IsTotal
      decode_ip_address_range-Takes payload,
)

-- A payload of bytes that `decode` accepts holds ranges of one family each, start not above end, no
-- window refused.
pub decode-valid :
    (payload : List ℕ) (self : RouteAdvertisement)
    → All IsByte payload
    → decode payload ≡ ok self
    → All IsRange self.ip_address_ranges × (any_out_of_order self.ip_address_ranges ≡ false)
unfolding decode
decode-valid payload self hb h = (
  decode_all-valid decode_ip_address_range IsRange decode_ip_address_range-Yields payload
      self.ip_address_ranges hb (ground arith),
  ground arith,
)

-- Two valid ranges of one version whose starts increase while the protocols fall are accepted by
-- `decode`, though they are not in the order of RFC 9484.
pub decode_unsorted_pair :
    (a b : IpAddressRange)
    → IsRange a
    → IsRange b
    → a.ip_version ≡ b.ip_version
    → ip_cmp a.start_ip b.start_ip ≡ Ordering.lt
    → compare a.ip_protocol b.ip_protocol ≡ Ordering.gt
    → let self : RouteAdvertisement = record { ip_address_ranges = a ∷ b ∷ [] } in
      (decode (payload_bytes self) ≡ ok self) × ¬ IsSorted self
decode_unsorted_pair a b ha hb ev es ep = (
  decode_of_ranges (record { ip_address_ranges = a ∷ b ∷ [] }) (ha, (hb, tt))
      (unfold any_out_of_order in ground arith),
  λ s. ground (arith, s.0),
)
