-- ===== src/Capsule/Route/Entry.antt =====
-- Reading and writing one address range.
use straw.Common.{
  ℕ, ◌≡◌, ap, ◌∙◌, List, [], ◌∷◌, ◌++◌, append_assoc, not, true, false, ◌==◌, if◌then◌else◌, ok,
  arith, length, length-append, is_gt,
}
use straw.Error.{underflow, invalid_var_int}
use straw.Ip.{IpAddr, v4, v6, octets, IsAddr}
use straw.Ip.Octets.{IsByte, length-octets}
use straw.Buffer.{done, check, get_u8}
use straw.Buffer.Laws
use straw.Buffer.Laws.{
  IsLocal, IsTotal, Takes, Yields, >>=-Takes, >>=-IsTotalFrom, >>=-done, >>=-Yields, require-enough,
}
use straw.Capsule.{IpAddressRange}
use straw.Capsule.Address.{
  decode_ip_address, version_of, decode_ip_address-IsTotal, decode_ip_address-Takes,
  decode_ip_address-Yields, decode_ip_address-octets,
}
use straw.Capsule.Route.{
  cmp_ip_addr, ip_cmp, decode_ip_address_range, encode_ip_address_range, ip_address_range_len,
  range_bytes, IsRange,
}
use straw.Capsule.Route.Order.{cmp_ip_addr-ip_cmp}

pub decode_ip_address_range-Takes : Takes 1 decode_ip_address_range
unfolding decode_ip_address_range
decode_ip_address_range-Takes = >>=-Takes _ _ 0 1 (Laws.require-Takes 1 (λ _. underflow)) (λ _.
    >>=-Takes get_u8 _ 1 0 Laws.get_u8-Takes (λ ver. Laws.Takes-less 4 0 _ (omega arith) (
      >>=-Takes (decode_ip_address ver) _ 4 0 (decode_ip_address-Takes ver) (λ start.
        Laws.Takes-less 4 0 _ (omega arith) (
          >>=-Takes (decode_ip_address ver) _ 4 0 (decode_ip_address-Takes ver) (λ end.
            >>=-Takes _ _ 0 0 (Laws.check-Takes _ invalid_var_int) (λ _.
              >>=-Takes _ _ 0 0 (Laws.require-Takes 1 (λ _. underflow)) (λ _.
                Laws.Takes-less 1 0 _ (omega arith)
                  (>>=-Takes get_u8 _ 1 0 Laws.get_u8-Takes (λ p. Laws.pure-Takes _))))))))))

pub decode_ip_address_range-IsTotal : IsTotal decode_ip_address_range
unfolding decode_ip_address_range
decode_ip_address_range-IsTotal =
    Laws.require-IsTotal 1 (λ _. underflow) _
      (>>=-IsTotalFrom get_u8 _ 1 Laws.get_u8-IsTotalFrom (λ ver.
        >>=-IsTotalFrom (decode_ip_address ver) _ 0 (decode_ip_address-IsTotal ver) (λ start.
          >>=-IsTotalFrom (decode_ip_address ver) _ 0 (decode_ip_address-IsTotal ver) (λ end.
            >>=-IsTotalFrom _ _ 0 (Laws.check-IsTotal _ invalid_var_int) (λ _.
              Laws.require-IsTotal 1 (λ _. underflow) _
                (>>=-IsTotalFrom get_u8 _ 1 Laws.get_u8-IsTotalFrom (λ p. Laws.pure-IsTotal _)))))))

not_gt :
    (a b : IpAddr)
    → IsAddr a
    → IsAddr b
    → not (is_gt (cmp_ip_addr a b)) ≡ true
    → is_gt (ip_cmp a b) ≡ false
not_gt a b ha hb h = ground (arith, cmp_ip_addr-ip_cmp a b ha hb)

pub decode_ip_address_range-Yields : Yields IsRange decode_ip_address_range
unfolding decode_ip_address_range
decode_ip_address_range-Yields =
    >>=-Yields _ _ (λ _. Unit {0}) IsRange (Laws.require-Yields 1 (λ _. underflow))
      (λ _ _. >>=-Yields get_u8 _ IsByte IsRange Laws.get_u8-Yields (λ ver _.
        >>=-Yields (decode_ip_address ver) _ _ IsRange (decode_ip_address-Yields ver) (λ start hs.
          >>=-Yields (decode_ip_address ver) _ _ IsRange (decode_ip_address-Yields ver) (λ end he.
            >>=-Yields _ _ (λ _. not (is_gt (cmp_ip_addr start end)) ≡ true) IsRange
              (Laws.check-Yields _ invalid_var_int)
              (λ _ hc.
                >>=-Yields _ _ (λ _. Unit {0}) IsRange (Laws.require-Yields 1 (λ _. underflow))
                  (λ _ _. >>=-Yields get_u8 _ IsByte IsRange Laws.get_u8-Yields (λ p hp.
                    Laws.pure-Yields IsRange _ (record {
                      start_family = hs.1;
                      end_family = he.1;
                      start_addr = hs.0;
                      end_addr = he.0;
                      ordered = not_gt start end hs.0 he.0 hc;
                      protocol = hp;
                    }))))))))

pub decode_ip_address_range-bytes :
    (r : IpAddressRange) (rest : List ℕ)
    → IsRange r
    → decode_ip_address_range (range_bytes r ++ rest) ≡ done r rest
unfolding decode_ip_address_range range_bytes
decode_ip_address_range-bytes r rest v =
    require-enough 1 (λ _. underflow) _ (range_bytes r ++ rest) (omega arith)
    ∙ >>=-done (decode_ip_address r.ip_version) _ start
    ∙ >>=-done (decode_ip_address r.ip_version) _ end
    ∙ >>=-done (check (not (is_gt (cmp_ip_addr r.start_ip r.end_ip))) invalid_var_int) _ ordered
    ∙ require-enough 1 (λ _. underflow) _ (r.ip_protocol ∷ rest) (omega arith)
  where
    start :
        decode_ip_address r.ip_version
          ((octets r.start_ip ++ (octets r.end_ip ++ r.ip_protocol ∷ [])) ++ rest)
        ≡ done r.start_ip (octets r.end_ip ++ r.ip_protocol ∷ rest)
    start = rw (← v.start_family) (
        ap (decode_ip_address (version_of r.start_ip)) (simp append_assoc)
        ∙ decode_ip_address-octets r.start_ip _ v.start_addr)

    end :
        decode_ip_address r.ip_version (octets r.end_ip ++ r.ip_protocol ∷ rest)
        ≡ done r.end_ip (r.ip_protocol ∷ rest)
    end = rw (← v.end_family) (decode_ip_address-octets r.end_ip _ v.end_addr)

    ordered :
        check (not (is_gt (cmp_ip_addr r.start_ip r.end_ip))) invalid_var_int (r.ip_protocol ∷ rest)
        ≡ done tt (r.ip_protocol ∷ rest)
    ordered = rw (cmp_ip_addr-ip_cmp r.start_ip r.end_ip v.start_addr v.end_addr, v.ordered)

pub encode_ip_address_range-bytes :
    (r : IpAddressRange) (buf : List ℕ)
    → IsRange r
    → encode_ip_address_range r buf ≡ ok (buf ++ range_bytes r)
unfolding encode_ip_address_range range_bytes
encode_ip_address_range-bytes r buf v = ap ok (simp append_assoc)

family_length :
    (a : IpAddr) (ver : ℕ) → version_of a ≡ ver → length (octets a) ≡ (if ver == 4 then 4 else 16)
family_length (v4 a) ver e = ground (arith, length-octets (v4 a))
family_length (v6 a) ver e = ground (arith, length-octets (v6 a))

pub ip_address_range_len-bytes :
    (r : IpAddressRange) → IsRange r → ip_address_range_len r ≡ ok (length (range_bytes r))
unfolding ip_address_range_len range_bytes
ip_address_range_len-bytes r v = ap ok (
    omega (
      arith,
      family_length r.start_ip r.ip_version v.start_family,
      family_length r.end_ip r.ip_version v.end_family,
      length-append (octets r.start_ip) (octets r.end_ip ++ r.ip_protocol ∷ []),
      length-append (octets r.end_ip) (r.ip_protocol ∷ []),
    ))
