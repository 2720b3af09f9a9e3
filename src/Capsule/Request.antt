-- ===== src/Capsule/Request.antt =====
-- Models src/capsule/address_request.rs: the ADDRESS_REQUEST capsule (RFC 9484 §4.7.2).
pub mod Laws
use straw.Common.{
  ℕ, ◌+◌, ◌≤◌, List, [], ◌∷◌, ◌++◌, ◌==◌, if◌then◌else◌, Result, ok, err, not, ◌≢◌, unwrap,
  and_then, length,
}
use straw.Error.{DecodeError, underflow, invalid_var_int}
use straw.Ip.{octets}
use straw.Varint.{read_varint, write_varint, varint_len, varint_max}
use straw.Varint.Shape.{varint_bytes}
use straw.Buffer.{Reader, pure, check, ◌>>=◌, ◌>>◌}
use straw.Capsule.{RequestedAddress, AddressRequest, capsule_address_request}
use straw.Capsule.Loop.{decode_all, write_all, sum_all}
use straw.Capsule.Address.{decode_fields, IsFields, field_bytes}

unfoldable pub decode_requested_address : Reader RequestedAddress
decode_requested_address = do
  request_id ← read_varint
  check (not (request_id == 0)) invalid_var_int
  (ip_version, ip_address, prefix_length) ← decode_fields
  pure (record {
    request_id = request_id;
    ip_version = ip_version;
    ip_address = ip_address;
    prefix_length = prefix_length;
  })

unfoldable pub decode : List ℕ → Result DecodeError AddressRequest
decode payload = and_then (decode_all decode_requested_address payload) λ items. elim items [
  | [] ↦ err underflow
  | a ∷ rest ↦ ok (record { requested_addresses = a ∷ rest })
]

unfoldable pub encode_requested_address : RequestedAddress → List ℕ → Result DecodeError (List ℕ)
encode_requested_address addr buf =
    and_then (unwrap (write_varint buf addr.request_id)) λ buf.
      ok (((buf ++ addr.ip_version ∷ []) ++ octets addr.ip_address) ++ addr.prefix_length ∷ [])

unfoldable pub requested_address_len : RequestedAddress → Result DecodeError ℕ
requested_address_len addr =
    and_then (unwrap (varint_len addr.request_id))
      λ n. ok (n + 1 + (if addr.ip_version == 4 then 4 else 16) + 1)

unfoldable pub payload_len : AddressRequest → Result DecodeError ℕ
payload_len self = sum_all requested_address_len self.requested_addresses

unfoldable pub encode_payload : AddressRequest → List ℕ → Result DecodeError (List ℕ)
encode_payload self buf = write_all encode_requested_address self.requested_addresses buf

unfoldable pub encode : AddressRequest → List ℕ → Result DecodeError (List ℕ)
unfolding encode_payload
encode self buf = and_then (payload_len self) λ len.
    and_then (unwrap (write_varint buf capsule_address_request))
      λ buf. and_then (unwrap (write_varint buf len)) λ buf. encode_payload self buf

-- An entry that the wire format can carry.
abbrev pub IsEntry : RequestedAddress → Type 0
IsEntry a =
    (a.request_id ≢ 0)
    × (a.request_id ≤ varint_max)
    × IsFields (a.ip_version, a.ip_address, a.prefix_length)

abbrev pub entry_bytes : RequestedAddress → List ℕ
entry_bytes a = varint_bytes a.request_id ++ field_bytes a.ip_version a.ip_address a.prefix_length
