-- ===== src/Capsule/Fields.antt =====
-- Laws of the fields that assigned and requested addresses share.
use straw.Common.{
  ℕ, ◌+◌, ◌≡◌, ◌∙◌, length-append, List, [], ◌∷◌, ◌++◌, append_assoc, ◌==◌, if◌then◌else◌, ok,
  arith, length,
}
use straw.Error.{underflow}
use straw.Ip.{IpAddr, v4, v6, octets}
use straw.Ip.Octets.{IsByte, length-octets}
use straw.Buffer.{done, get_u8, lift}
use straw.Buffer.Laws
use straw.Buffer.Laws.{
  require-enough, IsLocal, IsTotal, Takes, Yields, >>=-IsLocal, >>=-Takes, >>=-IsTotalFrom,
  >>=-done, >>=-Yields,
}
use straw.Capsule.Address.{
  decode_ip_address, decode_ip_address-IsLocal, decode_ip_address-IsTotal, decode_ip_address-Takes,
  decode_ip_address-Yields, decode_ip_address-octets, validate_prefix_length,
  validate_prefix_length_iff, validate_prefix_length-ne-panic, decode_fields, IsFields, field_bytes,
}

pub decode_fields-IsLocal : IsLocal decode_fields
unfolding decode_fields
decode_fields-IsLocal = >>=-IsLocal _ _ (Laws.require-IsLocal 1 (λ _. underflow)) (λ _.
    >>=-IsLocal get_u8 _ Laws.get_u8-IsLocal (λ ver.
      >>=-IsLocal (decode_ip_address ver) _ (decode_ip_address-IsLocal ver) (λ ip.
        >>=-IsLocal _ _ (Laws.require-IsLocal 1 (λ _. underflow)) (λ _.
          >>=-IsLocal get_u8 _ Laws.get_u8-IsLocal (λ p.
            >>=-IsLocal _ _ (Laws.lift-IsLocal (validate_prefix_length ver p))
              (λ _. Laws.pure-IsLocal _))))))

pub decode_fields-IsTotal : IsTotal decode_fields
unfolding decode_fields
decode_fields-IsTotal =
    Laws.require-IsTotal 1 (λ _. underflow) _
      (>>=-IsTotalFrom get_u8 _ 1 Laws.get_u8-IsTotalFrom (λ ver.
        >>=-IsTotalFrom (decode_ip_address ver) _ 0 (decode_ip_address-IsTotal ver) (λ ip.
          Laws.require-IsTotal 1 (λ _. underflow) _
            (>>=-IsTotalFrom get_u8 _ 1 Laws.get_u8-IsTotalFrom (λ p.
              >>=-IsTotalFrom (lift (validate_prefix_length ver p)) _ 0
                (Laws.lift-IsTotal _ (validate_prefix_length-ne-panic ver p))
                (λ _. Laws.pure-IsTotal _))))))

pub decode_fields-Yields : Yields IsFields decode_fields
unfolding decode_fields
decode_fields-Yields =
    >>=-Yields _ _ (λ _. Unit {0}) IsFields (Laws.require-Yields 1 (λ _. underflow))
      (λ _ _. >>=-Yields get_u8 _ IsByte IsFields Laws.get_u8-Yields (λ ver _.
        >>=-Yields (decode_ip_address ver) _ _ IsFields (decode_ip_address-Yields ver) (λ ip hip.
          >>=-Yields _ _ (λ _. Unit {0}) IsFields (Laws.require-Yields 1 (λ _. underflow))
            (λ _ _. >>=-Yields get_u8 _ IsByte IsFields Laws.get_u8-Yields (λ p _.
              >>=-Yields (lift (validate_prefix_length ver p)) _
                (λ _. validate_prefix_length ver p ≡ ok tt) IsFields
                (Laws.lift-Yields _ _ (λ _ e. e))
                (λ _ e.
                  Laws.pure-Yields IsFields (ver, ip, p)
                    (hip.1, hip.0, (validate_prefix_length_iff ip p).1 (rw hip.1 e))))))))

pub decode_fields-bytes :
    (ver : ℕ) (ip : IpAddr) (p : ℕ) (rest : List ℕ)
    → IsFields (ver, ip, p)
    → decode_fields (field_bytes ver ip p ++ rest) ≡ done (ver, ip, p) rest
unfolding decode_fields
decode_fields-bytes ver ip p rest (ev, ha, hp) =
    require-enough 1 (λ _. underflow) _ (field_bytes ver ip p ++ rest) (omega arith)
    ∙ >>=-done (decode_ip_address ver) _ address
    ∙ require-enough 1 (λ _. underflow) _ (p ∷ rest) (omega arith)
    ∙ >>=-done (lift (validate_prefix_length ver p)) _ valid
  where
    address : decode_ip_address ver ((octets ip ++ p ∷ []) ++ rest) ≡ done ip (p ∷ rest)
    address = rw (← ev, append_assoc) (decode_ip_address-octets ip (p ∷ rest) ha)

    valid : lift (validate_prefix_length ver p) rest ≡ done tt rest
    valid = rw (← ev, (validate_prefix_length_iff ip p).0 hp)

pub decode_fields-Takes : Takes 0 decode_fields
unfolding decode_fields
decode_fields-Takes bs a rest h = omega (
  arith,
  >>=-Takes _ _ 0 0 (Laws.require-Takes 1 (λ _. underflow))
      (λ _. Laws.Takes-less 1 0 _ (omega arith) (
        >>=-Takes get_u8 _ 1 0 Laws.get_u8-Takes (λ ver. Laws.Takes-less 4 0 _ (omega arith) (
          >>=-Takes (decode_ip_address ver) _ 4 0 (decode_ip_address-Takes ver) (λ ip.
            >>=-Takes _ _ 0 0 (Laws.require-Takes 1 (λ _. underflow)) (λ _.
              Laws.Takes-less 1 0 _ (omega arith) (
                >>=-Takes get_u8 _ 1 0 Laws.get_u8-Takes (λ p.
                  >>=-Takes _ _ 0 0 (Laws.lift-Takes (validate_prefix_length ver p))
                    (λ _. Laws.pure-Takes _)))))))))
      bs a rest h,
)

pub length-field_bytes :
    (ver : ℕ) (ip : IpAddr) (p : ℕ)
    → IsFields (ver, ip, p)
    → length (field_bytes ver ip p) ≡ 1 + (if ver == 4 then 4 else 16) + 1
length-field_bytes ver (v4 a) p (ev, ha, hp) =
    ground (arith, length-octets (v4 a), length-append (octets (v4 a)) (p ∷ []))
length-field_bytes ver (v6 a) p (ev, ha, hp) =
    ground (arith, length-octets (v6 a), length-append (octets (v6 a)) (p ∷ []))
