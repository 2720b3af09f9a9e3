-- ===== src/Capsule/Assign.antt =====
-- Models src/capsule/address_assign.rs: the ADDRESS_ASSIGN capsule (RFC 9484 §4.7.1).
pub mod Laws
use straw.Common.{
  ℕ, ◌+◌, ◌≤◌, List, [], ◌∷◌, ◌++◌, ◌==◌, if◌then◌else◌, Result, ok, unwrap, and_then, length,
}
use straw.Error.{DecodeError}
use straw.Ip.{octets}
use straw.Varint.{read_varint, write_varint, varint_len, varint_max}
use straw.Varint.Shape.{varint_bytes}
use straw.Buffer.{Reader, pure, ◌>>=◌}
use straw.Capsule.{AssignedAddress, AddressAssign, capsule_address_assign}
use straw.Capsule.Loop.{decode_all, write_all, sum_all}
use straw.Capsule.Address.{decode_fields, IsFields, field_bytes}

unfoldable pub decode_assigned_address : Reader AssignedAddress
decode_assigned_address = do
  request_id ← read_varint
  (ip_version, ip_address, prefix_length) ← decode_fields
  pure (record {
    request_id = request_id;
    ip_version = ip_version;
    ip_address = ip_address;
    prefix_length = prefix_length;
  })

unfoldable pub decode : List ℕ → Result DecodeError AddressAssign
decode payload =
    and_then (decode_all decode_assigned_address payload)
      (λ items. ok (record { assigned_addresses = items }))

unfoldable pub encode_assigned_address : AssignedAddress → List ℕ → Result DecodeError (List ℕ)
encode_assigned_address addr buf =
    and_then (unwrap (write_varint buf addr.request_id)) λ buf.
      ok (((buf ++ addr.ip_version ∷ []) ++ octets addr.ip_address) ++ addr.prefix_length ∷ [])

unfoldable pub assigned_address_len : AssignedAddress → Result DecodeError ℕ
assigned_address_len addr =
    and_then (unwrap (varint_len addr.request_id))
      λ n. ok (n + 1 + (if addr.ip_version == 4 then 4 else 16) + 1)

unfoldable pub payload_len : AddressAssign → Result DecodeError ℕ
payload_len self = sum_all assigned_address_len self.assigned_addresses

unfoldable pub encode_payload : AddressAssign → List ℕ → Result DecodeError (List ℕ)
encode_payload self buf = write_all encode_assigned_address self.assigned_addresses buf

unfoldable pub encode : AddressAssign → List ℕ → Result DecodeError (List ℕ)
encode self buf = and_then (payload_len self) λ len.
    and_then (unwrap (write_varint buf capsule_address_assign)) λ buf.
      and_then (unwrap (write_varint buf len))
        λ buf. write_all encode_assigned_address self.assigned_addresses buf

-- An entry that the wire format can carry.
abbrev pub IsEntry : AssignedAddress → Type 0
IsEntry a = (a.request_id ≤ varint_max) × IsFields (a.ip_version, a.ip_address, a.prefix_length)

abbrev pub entry_bytes : AssignedAddress → List ℕ
entry_bytes a = varint_bytes a.request_id ++ field_bytes a.ip_version a.ip_address a.prefix_length
