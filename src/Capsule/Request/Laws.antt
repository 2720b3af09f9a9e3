-- ===== src/Capsule/Request/Laws.antt =====
-- The ADDRESS_REQUEST codec: round trip, totality and what a decoded capsule satisfies.
use straw.Common.{
  ℕ, not, true, ◌≤◌, ◌≡◌, ap, ◌∙◌, ◌≢◌, List, [], ◌++◌, append_assoc, ◌==◌, ok, panic, arith,
  length, length-append, All,
}
use straw.Error.{invalid_var_int}
use straw.Ip.Octets.{IsByte}
use straw.Varint.{read_varint, varint_max}
use straw.Varint.Shape.{varint_bytes, write_varint-bytes}
use straw.Varint.Laws.{read_varint-bytes}
use straw.Varint.Reads.{read_varint-IsTotal, read_varint-Takes, read_varint-Yields}
use straw.Varint.Codec.{varint_len-bytes}
use straw.Buffer.{done, check}
use straw.Buffer.Laws
use straw.Buffer.Laws.{
  IsLocal, IsTotal, Takes, Yields, >>=-IsLocal, >>=-Takes, >>=-IsTotalFrom, >>=-done, >>=-Yields,
  Read-cases,
}
use straw.Capsule.{RequestedAddress, AddressRequest, capsule_address_request}
use straw.Capsule.Loop.{
  concat_map, decode_all-ne-panic, decode_all-valid, decode_all-bytes, write_all-bytes,
  sum_all-bytes,
}
use straw.Capsule.Address.{decode_fields, IsFields, field_bytes}
use straw.Capsule.Fields.{
  decode_fields-IsTotal, decode_fields-Yields, decode_fields-bytes, decode_fields-Takes,
  length-field_bytes,
}
use straw.Capsule.Request.{
  decode_requested_address, decode, encode_requested_address, requested_address_len, payload_len,
  encode_payload, encode, IsEntry, entry_bytes,
}

decode_requested_address-Takes : Takes 1 decode_requested_address
unfolding decode_requested_address
decode_requested_address-Takes = >>=-Takes read_varint _ 1 0 read_varint-Takes (λ id.
    >>=-Takes _ _ 0 0 (Laws.check-Takes _ invalid_var_int)
      (λ _. >>=-Takes decode_fields _ 0 0 decode_fields-Takes (λ f. Laws.pure-Takes _)))

decode_requested_address-IsTotal : IsTotal decode_requested_address
unfolding decode_requested_address
decode_requested_address-IsTotal = >>=-IsTotalFrom read_varint _ 0 read_varint-IsTotal (λ id.
    >>=-IsTotalFrom _ _ 0 (Laws.check-IsTotal _ invalid_var_int)
      (λ _. >>=-IsTotalFrom decode_fields _ 0 decode_fields-IsTotal (λ f. Laws.pure-IsTotal _)))

decode_requested_address-Yields : Yields IsEntry decode_requested_address
unfolding decode_requested_address
decode_requested_address-Yields =
    >>=-Yields read_varint _ (λ v. v ≤ varint_max) IsEntry read_varint-Yields
      (λ id hid.
        >>=-Yields _ _ (λ _. not (id == 0) ≡ true) IsEntry (Laws.check-Yields _ invalid_var_int)
          (λ _ hc.
            >>=-Yields decode_fields _ IsFields IsEntry decode_fields-Yields
              (λ f hf. Laws.pure-Yields IsEntry _ (ground arith, hid, hf))))

decode_requested_address-bytes :
    (a : RequestedAddress) (rest : List ℕ)
    → IsEntry a
    → decode_requested_address (entry_bytes a ++ rest) ≡ done a rest
unfolding decode_requested_address
decode_requested_address-bytes a rest (nz, hid, hf) =
    >>=-done read_varint _ id
    ∙ >>=-done (check (not (a.request_id == 0)) invalid_var_int) _ nonzero
    ∙ >>=-done decode_fields _
        (decode_fields-bytes a.ip_version a.ip_address a.prefix_length rest hf)
  where
    fields : List ℕ
    fields = field_bytes a.ip_version a.ip_address a.prefix_length

    id : read_varint (entry_bytes a ++ rest) ≡ done a.request_id (fields ++ rest)
    id =
        ap read_varint (append_assoc (varint_bytes a.request_id) fields rest)
        ∙ read_varint-bytes a.request_id (fields ++ rest) hid

    nonzero :
        check (not (a.request_id == 0)) invalid_var_int (fields ++ rest) ≡ done tt (fields ++ rest)
    nonzero = ground arith

encode_requested_address-bytes :
    (a : RequestedAddress) (buf : List ℕ)
    → IsEntry a
    → encode_requested_address a buf ≡ ok (buf ++ entry_bytes a)
unfolding encode_requested_address
encode_requested_address-bytes a buf (nz, hid, hf) =
    rw (write_varint-bytes buf a.request_id hid) (ap ok (simp append_assoc))

requested_address_len-bytes :
    (a : RequestedAddress) → IsEntry a → requested_address_len a ≡ ok (length (entry_bytes a))
unfolding requested_address_len
requested_address_len-bytes a (nz, hid, hf) = ground (
  arith,
  varint_len-bytes a.request_id hid,
  length-append (varint_bytes a.request_id) (field_bytes a.ip_version a.ip_address a.prefix_length),
  length-field_bytes a.ip_version a.ip_address a.prefix_length hf,
)

abbrev pub payload_bytes : AddressRequest → List ℕ
payload_bytes self = concat_map entry_bytes self.requested_addresses

-- A capsule that `encode` can write and `decode` accepts.
abbrev pub IsWritable : AddressRequest → Type 0
IsWritable self =
    (self.requested_addresses ≢ [])
    × All IsEntry self.requested_addresses
    × (length (payload_bytes self) ≤ varint_max)

pub decode-bytes : (self : AddressRequest) → IsWritable self → decode (payload_bytes self) ≡ ok self
unfolding decode
decode-bytes self (some_entry, v, fits) =
    rw
      (decode_all-bytes IsEntry entry_bytes decode_requested_address decode_requested_address-bytes
        decode_requested_address-Takes self.requested_addresses v)
      (ground arith)

pub encode-bytes :
    (self : AddressRequest) (buf : List ℕ)
    → IsWritable self
    → encode self buf
      ≡ ok (
          buf
          ++ (varint_bytes capsule_address_request
              ++ (varint_bytes (length (payload_bytes self)) ++ payload_bytes self)))
unfolding encode encode_payload payload_len
encode-bytes self buf (some_entry, v, fits) =
    rw
      (
        sum_all-bytes IsEntry entry_bytes requested_address_len requested_address_len-bytes
            self.requested_addresses v,
        write_varint-bytes buf capsule_address_request (omega arith),
        write_varint-bytes (buf ++ varint_bytes capsule_address_request)
            (length (payload_bytes self)) fits,
        write_all-bytes IsEntry entry_bytes encode_requested_address encode_requested_address-bytes
            self.requested_addresses _ v,
      )
      (ap ok (simp append_assoc))

pub decode-ne-panic : (payload : List ℕ) → decode payload ≢ panic
unfolding decode
decode-ne-panic payload = ground (
  arith,
  decode_all-ne-panic decode_requested_address decode_requested_address-IsTotal
      decode_requested_address-Takes payload,
)

pub decode-valid :
    (payload : List ℕ) (self : AddressRequest)
    → All IsByte payload
    → decode payload ≡ ok self
    → (self.requested_addresses ≢ []) × All IsEntry self.requested_addresses
unfolding decode
decode-valid payload self hb h = (
  ground arith,
  decode_all-valid decode_requested_address IsEntry decode_requested_address-Yields payload
      self.requested_addresses hb (ground arith),
)
