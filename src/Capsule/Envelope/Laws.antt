-- ===== src/Capsule/Envelope/Laws.antt =====
-- The envelope: round trip of every capsule, and that a decision about a payload needs no more
-- bytes.
use straw.Ip.Octets.{IsByte}
use straw.Capsule.{capsule_address_assign, capsule_address_request, capsule_route_advertisement}
use straw.Capsule.Assign
use straw.Capsule.Request
use straw.Capsule.Route
use straw.Common.{
  All, false, [], ℕ, ◌≤◌, ◌+◌, ◌≡◌, refl, ap, ◌∙◌, ◌≢◌, List, ◌++◌, append_assoc, ok, panic, length,
  length-append, arith,
}
use straw.Error.{buffer_too_short}
use straw.Varint.{read_varint, varint_max}
use straw.Varint.Shape.{varint_bytes, write_varint-bytes}
use straw.Varint.Laws.{read_varint-bytes}
use straw.Varint.Reads.{
  read_varint-IsLocal, read_varint-IsTotal, read_varint-Takes, read_varint-Yields,
}
use straw.Buffer.{done, abort, copy_to_bytes, lift}
use straw.Buffer.Laws
use straw.Buffer.Laws.{
  IsLocal, IsTotal, Takes, Yields, >>=-Yields, >>=-IsLocal, >>=-Takes, >>=-IsTotalFrom, >>=-done,
  require-enough,
}
use straw.Capsule.{Capsule, address_assign, address_request, route_advertisement, unknown}
use straw.Capsule.Assign.Laws as AssignLaws
use straw.Capsule.Request.Laws as RequestLaws
use straw.Capsule.Route.Laws as RouteLaws
use straw.Capsule.Envelope.{
  read_envelope, decode_payload, decode_capsule, encode_capsule, type_of, payload_of, capsule_bytes,
  IsSendable,
}

pub read_envelope-IsLocal : IsLocal read_envelope
unfolding read_envelope
read_envelope-IsLocal = >>=-IsLocal read_varint _ read_varint-IsLocal (λ t.
    >>=-IsLocal read_varint _ read_varint-IsLocal (λ n.
      >>=-IsLocal _ _ (Laws.require-IsLocal n (buffer_too_short n)) (λ _.
        >>=-IsLocal (copy_to_bytes n) _ (Laws.copy_to_bytes-IsLocal n)
          (λ p. Laws.pure-IsLocal (t, p)))))

pub read_envelope-Takes : Takes 1 read_envelope
unfolding read_envelope
read_envelope-Takes = >>=-Takes read_varint _ 1 0 read_varint-Takes (λ t.
    Laws.Takes-less 1 0 _ (omega arith) (
      >>=-Takes read_varint _ 1 0 read_varint-Takes (λ n.
        >>=-Takes _ _ 0 0 (Laws.require-Takes n (buffer_too_short n)) (λ _.
          Laws.Takes-less (n + 0) 0 _ (omega arith) (
            >>=-Takes (copy_to_bytes n) _ n 0 (Laws.copy_to_bytes-Takes n)
              (λ p. Laws.pure-Takes (t, p)))))))

pub read_envelope-IsTotal : IsTotal read_envelope
unfolding read_envelope
read_envelope-IsTotal = >>=-IsTotalFrom read_varint _ 0 read_varint-IsTotal (λ t.
    >>=-IsTotalFrom read_varint _ 0 read_varint-IsTotal (λ n.
      Laws.require-IsTotal n (buffer_too_short n) _ (
        >>=-IsTotalFrom (copy_to_bytes n) _ n (Laws.copy_to_bytes-IsTotalFrom n)
          (λ p. Laws.pure-IsTotal (t, p)))))

pub decode_payload-ne-panic : (t : ℕ) (payload : List ℕ) → decode_payload t payload ≢ panic
unfolding decode_payload
decode_payload-ne-panic t payload = ground (
  arith,
  AssignLaws.decode-ne-panic payload,
  RequestLaws.decode-ne-panic payload,
  RouteLaws.decode-ne-panic payload,
)

-- `decode_capsule` neither panics nor runs on: every byte string gives a capsule or a decode error.
pub decode_capsule-ne-abort : (bs : List ℕ) → decode_capsule bs ≢ abort
unfolding decode_capsule
decode_capsule-ne-abort bs =
    >>=-IsTotalFrom read_envelope _ 0 read_envelope-IsTotal
      (λ e. Laws.lift-IsTotal _ (decode_payload-ne-panic e.0 e.1)) bs (omega arith)

read_envelope-Yields : Yields (λ e. All IsByte e.1) read_envelope
unfolding read_envelope
read_envelope-Yields =
    >>=-Yields read_varint _ (λ v. v ≤ varint_max) (λ e. All IsByte e.1) read_varint-Yields
      (λ t _.
        >>=-Yields read_varint _ (λ v. v ≤ varint_max) (λ e. All IsByte e.1) read_varint-Yields
          (λ n _.
            >>=-Yields _ _ (λ _. Unit {0}) (λ e. All IsByte e.1)
              (Laws.require-Yields n (buffer_too_short n))
              (λ _ _.
                >>=-Yields (copy_to_bytes n) _ _ (λ e. All IsByte e.1) (Laws.copy_to_bytes-Yields n)
                  (λ p hp. Laws.pure-Yields (λ e. All IsByte e.1) (t, p) hp.0))))

-- What the decoders guarantee of a capsule that arrived.
abbrev pub IsDecoded : Capsule → Type 0
IsDecoded (address_assign c) = All Assign.IsEntry c.assigned_addresses
IsDecoded (address_request c) =
    (c.requested_addresses ≢ []) × All Request.IsEntry c.requested_addresses
IsDecoded (route_advertisement c) =
    All Route.IsRange c.ip_address_ranges × (Route.any_out_of_order c.ip_address_ranges ≡ false)
IsDecoded (unknown type_id payload) =
    (type_id ≢ capsule_address_assign)
    × (type_id ≢ capsule_address_request)
    × (type_id ≢ capsule_route_advertisement)

decode_payload-IsDecoded :
    (t : ℕ) (payload : List ℕ) (c : Capsule)
    → All IsByte payload
    → decode_payload t payload ≡ ok c
    → IsDecoded c
unfolding decode_payload
decode_payload-IsDecoded t payload (address_assign c) hb e =
    AssignLaws.decode-valid payload c hb (ground arith)
decode_payload-IsDecoded t payload (address_request c) hb e =
    RequestLaws.decode-valid payload c hb (ground arith)
decode_payload-IsDecoded t payload (route_advertisement c) hb e =
    RouteLaws.decode-valid payload c hb (ground arith)
decode_payload-IsDecoded t payload (unknown u p) hb e = ground arith

pub read_envelope-bytes :
    (t : ℕ) (payload rest : List ℕ)
    → t ≤ varint_max
    → length payload ≤ varint_max
    → read_envelope ((varint_bytes t ++ (varint_bytes (length payload) ++ payload)) ++ rest)
      ≡ done (t, payload) rest
unfolding read_envelope
read_envelope-bytes t payload rest ht hl =
    >>=-done read_varint _ type
    ∙ >>=-done read_varint _ (read_varint-bytes (length payload) (payload ++ rest) hl)
    ∙ require-enough (length payload) (buffer_too_short (length payload)) _ (payload ++ rest)
        (omega (arith, length-append payload rest))
    ∙ >>=-done (copy_to_bytes (length payload)) _
        (Laws.copy_to_bytes-append (length payload) payload rest refl)
  where
    tail : List ℕ
    tail = varint_bytes (length payload) ++ payload ++ rest

    type :
        read_varint ((varint_bytes t ++ (varint_bytes (length payload) ++ payload)) ++ rest)
        ≡ done t (varint_bytes (length payload) ++ (payload ++ rest))
    type = ap read_varint (simp append_assoc) ∙ read_varint-bytes t _ ht

pub decode_payload-payload_of :
    (c : Capsule) → IsSendable c → decode_payload (type_of c) (payload_of c) ≡ ok c
unfolding decode_payload
decode_payload-payload_of (address_assign c) v = rw (AssignLaws.decode-bytes c v)
decode_payload-payload_of (address_request c) v = rw (RequestLaws.decode-bytes c v)
decode_payload-payload_of (route_advertisement c) v = rw (RouteLaws.decode-bytes c v.0 v.1)
decode_payload-payload_of (unknown t payload) v = ground arith

sendable_bounds :
    (c : Capsule) → IsSendable c → (type_of c ≤ varint_max) × (length (payload_of c) ≤ varint_max)
sendable_bounds (address_assign c) v = (omega arith, v.1)
sendable_bounds (address_request c) v = (omega arith, v.2)
sendable_bounds (route_advertisement c) v = (omega arith, v.2)
sendable_bounds (unknown t payload) v = (v.3, v.4)

pub read_envelope-capsule_bytes :
    (c : Capsule) (rest : List ℕ)
    → IsSendable c
    → read_envelope (capsule_bytes c ++ rest) ≡ done (type_of c, payload_of c) rest
unfolding capsule_bytes
read_envelope-capsule_bytes c rest v =
    let (ht, hl) = sendable_bounds c v in read_envelope-bytes (type_of c) (payload_of c) rest ht hl

-- A capsule that `decode_capsule` returns from bytes satisfies its type's rules: address entries
-- have the family of their version, an address and a prefix in range, and for requests a nonzero id
-- and at least one entry; ranges are of one family with start not above end, and none is out of
-- order by the check of the code; an unknown capsule has another type.
pub decode_capsule-IsDecoded :
    (bs : List ℕ) (c : Capsule) (rest : List ℕ)
    → All IsByte bs
    → decode_capsule bs ≡ done c rest
    → IsDecoded c
unfolding decode_capsule
decode_capsule-IsDecoded bs c rest hb e =
    (>>=-Yields read_envelope _ (λ e. All IsByte e.1) IsDecoded read_envelope-Yields
      (λ (t, p) hp.
        Laws.lift-Yields IsDecoded (decode_payload t p)
          (λ a ea. decode_payload-IsDecoded t p a hp ea))
      bs c rest hb e).0

pub decode_capsule-bytes :
    (c : Capsule) (rest : List ℕ)
    → IsSendable c
    → decode_capsule (capsule_bytes c ++ rest) ≡ done c rest
unfolding decode_capsule
decode_capsule-bytes c rest v =
    >>=-done read_envelope _ (read_envelope-capsule_bytes c rest v)
    ∙ ap (λ r. lift r rest) (decode_payload-payload_of c v)

pub encode_capsule-bytes :
    (c : Capsule) (buf : List ℕ) → IsSendable c → encode_capsule c buf ≡ ok (buf ++ capsule_bytes c)
unfolding encode_capsule capsule_bytes
encode_capsule-bytes (address_assign c) buf v = AssignLaws.encode-bytes c buf v
encode_capsule-bytes (address_request c) buf v = RequestLaws.encode-bytes c buf v
encode_capsule-bytes (route_advertisement c) buf v = RouteLaws.encode-bytes c buf v.0 v.1 v.2
encode_capsule-bytes (unknown t payload) buf v =
    rw
      (
        write_varint-bytes buf t v.3,
        write_varint-bytes (buf ++ varint_bytes t) (length payload) v.4,
      )
      (ap ok (simp append_assoc))

-- For a sendable capsule `encode_capsule` succeeds and appends bytes to the buffer, and reading
-- those bytes gives the capsule back and leaves whatever follows them.
pub decode_capsule-encode_capsule :
    (c : Capsule) (buf rest : List ℕ)
    → IsSendable c
    → (bytes : List ℕ) × (encode_capsule c buf ≡ ok (buf ++ bytes))
      × (decode_capsule (bytes ++ rest) ≡ done c rest)
decode_capsule-encode_capsule c buf rest v =
    (capsule_bytes c, encode_capsule-bytes c buf v, decode_capsule-bytes c rest v)
