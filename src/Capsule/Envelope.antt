-- ===== src/Capsule/Envelope.antt =====
-- Models the capsule envelope of src/capsule/mod.rs: `decode_capsule` and `encode_capsule`.
pub mod Laws
use straw.Common.{
  ℕ, ◌≤◌, ◌≡◌, ◌≢◌, List, ◌++◌, ◌==◌, if◌then◌else◌, Result, ok, unwrap, and_then, length,
}
use straw.Error.{DecodeError, buffer_too_short}
use straw.Varint.{read_varint, write_varint, varint_max}
use straw.Varint.Shape.{varint_bytes}
use straw.Buffer.{Reader, pure, require, copy_to_bytes, lift, ◌>>=◌, ◌>>◌}
use straw.Capsule.{
  Capsule, address_assign, address_request, route_advertisement, unknown, capsule_address_assign,
  capsule_address_request, capsule_route_advertisement,
}
use straw.Capsule.Assign
use straw.Capsule.Assign.Laws as AssignLaws
use straw.Capsule.Request
use straw.Capsule.Request.Laws as RequestLaws
use straw.Capsule.Route
use straw.Capsule.Route.Laws as RouteLaws

-- Type, length and payload.
unfoldable pub read_envelope : Reader (ℕ × List ℕ)
read_envelope = do
  capsule_type ← read_varint
  capsule_length ← read_varint
  require capsule_length (buffer_too_short capsule_length)
  payload ← copy_to_bytes capsule_length
  pure (capsule_type, payload)

-- The match on the type.
unfoldable pub decode_payload : ℕ → List ℕ → Result DecodeError Capsule
decode_payload capsule_type payload =
    if capsule_type == capsule_address_assign
    then and_then (Assign.decode payload) (λ c. ok (address_assign c))
    else if capsule_type == capsule_address_request
    then and_then (Request.decode payload) (λ c. ok (address_request c))
    else if capsule_type == capsule_route_advertisement
    then and_then (Route.decode payload) (λ c. ok (route_advertisement c))
    else ok (unknown capsule_type payload)

unfoldable pub decode_capsule : Reader Capsule
decode_capsule = do
  (capsule_type, payload) ← read_envelope
  lift (decode_payload capsule_type payload)

unfoldable pub encode_capsule : Capsule → List ℕ → Result DecodeError (List ℕ)
encode_capsule (address_assign c) buf = Assign.encode c buf
encode_capsule (address_request c) buf = Request.encode c buf
encode_capsule (route_advertisement c) buf = Route.encode c buf
encode_capsule (unknown type_id payload) buf =
    and_then (unwrap (write_varint buf type_id))
      λ buf. and_then (unwrap (write_varint buf (length payload))) λ buf. ok (buf ++ payload)

abbrev pub type_of : Capsule → ℕ
type_of (address_assign c) = capsule_address_assign
type_of (address_request c) = capsule_address_request
type_of (route_advertisement c) = capsule_route_advertisement
type_of (unknown type_id payload) = type_id

abbrev pub payload_of : Capsule → List ℕ
payload_of (address_assign c) = AssignLaws.payload_bytes c
payload_of (address_request c) = RequestLaws.payload_bytes c
payload_of (route_advertisement c) = RouteLaws.payload_bytes c
payload_of (unknown type_id payload) = payload

-- The bytes of a capsule: type, length, payload.
unfoldable pub capsule_bytes : Capsule → List ℕ
capsule_bytes c = varint_bytes (type_of c) ++ (varint_bytes (length (payload_of c)) ++ payload_of c)

-- A capsule that can go over the wire: its payload fits a varint length and is one that its type's
-- decoder accepts; an unknown capsule does not carry a known type.
abbrev pub IsSendable : Capsule → Type 0
IsSendable (address_assign c) = AssignLaws.IsWritable c
IsSendable (address_request c) = RequestLaws.IsWritable c
IsSendable (route_advertisement c) = RouteLaws.IsSendable c
IsSendable (unknown type_id payload) =
    (type_id ≢ capsule_address_assign)
    × (type_id ≢ capsule_address_request)
    × (type_id ≢ capsule_route_advertisement)
    × (type_id ≤ varint_max)
    × (length payload ≤ varint_max)
