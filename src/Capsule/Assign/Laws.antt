-- ===== src/Capsule/Assign/Laws.antt =====
-- The ADDRESS_ASSIGN codec: round trip, totality and what a decoded capsule satisfies.
use straw.Common.{
  ℕ, ◌≤◌, ◌≡◌, ap, ◌∙◌, ◌≢◌, List, ◌++◌, append_assoc, ok, panic, arith, length, length-append, All,
}
use straw.Ip.Octets.{IsByte}
use straw.Varint.{read_varint, varint_max}
use straw.Varint.Shape.{varint_bytes, write_varint-bytes}
use straw.Varint.Laws.{read_varint-bytes}
use straw.Varint.Reads.{read_varint-IsTotal, read_varint-Takes, read_varint-Yields}
use straw.Varint.Codec.{varint_len-bytes}
use straw.Buffer.{done}
use straw.Buffer.Laws
use straw.Buffer.Laws.{
  IsLocal, IsTotal, Takes, Yields, >>=-IsLocal, >>=-Takes, >>=-IsTotalFrom, >>=-done, >>=-Yields,
  Read-cases,
}
use straw.Capsule.{AssignedAddress, AddressAssign, capsule_address_assign}
use straw.Capsule.Loop.{
  concat_map, decode_all-ne-panic, decode_all-valid, decode_all-bytes, write_all-bytes,
  sum_all-bytes,
}
use straw.Capsule.Address.{decode_fields, IsFields, field_bytes}
use straw.Capsule.Fields.{
  decode_fields-IsTotal, decode_fields-Yields, decode_fields-bytes, decode_fields-Takes,
  length-field_bytes,
}
use straw.Capsule.Assign.{
  decode_assigned_address, decode, encode_assigned_address, assigned_address_len, payload_len,
  encode, IsEntry, entry_bytes,
}

decode_assigned_address-Takes : Takes 1 decode_assigned_address
unfolding decode_assigned_address
decode_assigned_address-Takes =
    >>=-Takes read_varint _ 1 0 read_varint-Takes
      (λ id. >>=-Takes decode_fields _ 0 0 decode_fields-Takes (λ f. Laws.pure-Takes _))

decode_assigned_address-IsTotal : IsTotal decode_assigned_address
unfolding decode_assigned_address
decode_assigned_address-IsTotal =
    >>=-IsTotalFrom read_varint _ 0 read_varint-IsTotal
      (λ id. >>=-IsTotalFrom decode_fields _ 0 decode_fields-IsTotal (λ f. Laws.pure-IsTotal _))

decode_assigned_address-Yields : Yields IsEntry decode_assigned_address
unfolding decode_assigned_address
decode_assigned_address-Yields =
    >>=-Yields read_varint _ (λ v. v ≤ varint_max) IsEntry read_varint-Yields
      (λ id hid.
        >>=-Yields decode_fields _ IsFields IsEntry decode_fields-Yields
          (λ f hf. Laws.pure-Yields IsEntry _ (hid, hf)))

decode_assigned_address-bytes :
    (a : AssignedAddress) (rest : List ℕ)
    → IsEntry a
    → decode_assigned_address (entry_bytes a ++ rest) ≡ done a rest
unfolding decode_assigned_address
decode_assigned_address-bytes a rest (hid, hf) =
    >>=-done read_varint _ id
    ∙ >>=-done decode_fields _
        (decode_fields-bytes a.ip_version a.ip_address a.prefix_length rest hf)
  where
    fields : List ℕ
    fields = field_bytes a.ip_version a.ip_address a.prefix_length

    id : read_varint (entry_bytes a ++ rest) ≡ done a.request_id (fields ++ rest)
    id =
        ap read_varint (append_assoc (varint_bytes a.request_id) fields rest)
        ∙ read_varint-bytes a.request_id (fields ++ rest) hid

encode_assigned_address-bytes :
    (a : AssignedAddress) (buf : List ℕ)
    → IsEntry a
    → encode_assigned_address a buf ≡ ok (buf ++ entry_bytes a)
unfolding encode_assigned_address
encode_assigned_address-bytes a buf (hid, hf) =
    rw (write_varint-bytes buf a.request_id hid) (ap ok (simp append_assoc))

assigned_address_len-bytes :
    (a : AssignedAddress) → IsEntry a → assigned_address_len a ≡ ok (length (entry_bytes a))
unfolding assigned_address_len
assigned_address_len-bytes a (hid, hf) = ground (
  arith,
  varint_len-bytes a.request_id hid,
  length-append (varint_bytes a.request_id) (field_bytes a.ip_version a.ip_address a.prefix_length),
  length-field_bytes a.ip_version a.ip_address a.prefix_length hf,
)

abbrev pub payload_bytes : AddressAssign → List ℕ
payload_bytes self = concat_map entry_bytes self.assigned_addresses

-- A capsule that `encode` can write.
abbrev pub IsWritable : AddressAssign → Type 0
IsWritable self = All IsEntry self.assigned_addresses × (length (payload_bytes self) ≤ varint_max)

pub decode-bytes : (self : AddressAssign) → IsWritable self → decode (payload_bytes self) ≡ ok self
unfolding decode
decode-bytes self (v, fits) = rw (
    decode_all-bytes IsEntry entry_bytes decode_assigned_address decode_assigned_address-bytes
      decode_assigned_address-Takes self.assigned_addresses v)

pub encode-bytes :
    (self : AddressAssign) (buf : List ℕ)
    → IsWritable self
    → encode self buf
      ≡ ok (
          buf
          ++ (varint_bytes capsule_address_assign
              ++ (varint_bytes (length (payload_bytes self)) ++ payload_bytes self)))
unfolding encode payload_len
encode-bytes self buf (v, fits) =
    rw
      (
        sum_all-bytes IsEntry entry_bytes assigned_address_len assigned_address_len-bytes
            self.assigned_addresses v,
        write_varint-bytes buf capsule_address_assign (omega arith),
        write_varint-bytes (buf ++ varint_bytes capsule_address_assign)
            (length (payload_bytes self)) fits,
        write_all-bytes IsEntry entry_bytes encode_assigned_address encode_assigned_address-bytes
            self.assigned_addresses _ v,
      )
      (ap ok (simp append_assoc))

pub decode-ne-panic : (payload : List ℕ) → decode payload ≢ panic
unfolding decode
decode-ne-panic payload = ground (
  arith,
  decode_all-ne-panic decode_assigned_address decode_assigned_address-IsTotal
      decode_assigned_address-Takes payload,
)

pub decode-valid :
    (payload : List ℕ) (self : AddressAssign)
    → All IsByte payload
    → decode payload ≡ ok self
    → All IsEntry self.assigned_addresses
unfolding decode
decode-valid payload self hb h =
    decode_all-valid decode_assigned_address IsEntry decode_assigned_address-Yields payload
      self.assigned_addresses hb (ground arith)
