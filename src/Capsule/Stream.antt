-- ===== src/Capsule/Stream.antt =====
-- Models `CapsuleBuffer` of src/capsule/mod.rs: capsules out of a stream that arrives in chunks, and
-- the loops that drain it (`process_next_capsules` of src/client.rs, the capsule arm of
-- src/session/handler.rs).
pub mod Laws
pub mod Chunks
use straw.Common.{
  ℕ, zero, suc, ◌+◌, List, [], ◌∷◌, ◌++◌, ltb, length, Option, none, some, if◌then◌else◌, Result,
  ok, err, panic,
}
use straw.Error.{DecodeError}
use straw.Varint.{read_varint}
use straw.Buffer.{Read, done, fail, abort}
use straw.Capsule.{Capsule}
use straw.Capsule.Envelope.{decode_capsule}

pub record CapsuleBuffer : Type 0 where
  pub buf : List ℕ

abbrev pub new : CapsuleBuffer
new = record { buf = [] }

-- `push` copies the chunk piece by piece, which appends it.
abbrev pub push : CapsuleBuffer → List ℕ → CapsuleBuffer
push self chunk = record { buf = self.buf ++ chunk }

-- The decode behind the checks. It reads from the buffer itself, also when it fails.
unfoldable pub decode_buffered :
    CapsuleBuffer → Read Capsule → Result DecodeError (Option Capsule) × CapsuleBuffer
decode_buffered self (done c rest) = (ok (some c), record { buf = rest })
decode_buffered self (fail e rest) = (err e, record { buf = rest })
decode_buffered self abort = (panic, self)

unfoldable pub next_capsule : CapsuleBuffer → Result DecodeError (Option Capsule) × CapsuleBuffer
unfolding decode_buffered
next_capsule self = elim (read_varint self.buf) [
  | done capsule_type view ↦ elim (read_varint view) [
    | done capsule_length view' ↦
        if ltb (length view') capsule_length
        then (ok none, self)
        else decode_buffered self (decode_capsule self.buf)
    | fail e rest ↦ (ok none, self)
    | abort ↦ (panic, self)
  ]
  | fail e rest ↦ (ok none, self)
  | abort ↦ (panic, self)
]

-- `while let Some(capsule) = buffer.next_capsule()? { seen.push(capsule) }`. Each round takes a byte
-- at least; out of fuel, `panic`.
unfoldable pub drain :
    ℕ → List Capsule → CapsuleBuffer → Result DecodeError (List Capsule) × CapsuleBuffer
drain zero seen self = (panic, self)
drain (suc fuel) seen self =
    let (r, self') = next_capsule self in
    elim r [
      | ok found ↦ elim found [
        | none ↦ (ok seen, self')
        | some c ↦ drain fuel (seen ++ c ∷ []) self'
      ]
      | err e ↦ (err e, self')
      | panic ↦ (panic, self')
    ]

-- One chunk: push it, then drain.
unfoldable pub receive :
    List Capsule → CapsuleBuffer → List ℕ → Result DecodeError (List Capsule) × CapsuleBuffer
unfolding drain
receive seen self chunk = drain (suc (length (self.buf ++ chunk))) seen (push self chunk)

-- The chunks of a stream in turn, until one is refused.
unfoldable pub receive_all :
    List Capsule → CapsuleBuffer → List (List ℕ) → Result DecodeError (List Capsule) × CapsuleBuffer
receive_all seen self [] = (ok seen, self)
receive_all seen self (chunk ∷ chunks) =
    let (r, self') = receive seen self chunk in
    elim r [
      | ok seen' ↦ receive_all seen' self' chunks
      | err e ↦ (err e, self')
      | panic ↦ (panic, self')
    ]
