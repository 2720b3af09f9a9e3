-- ===== src/Capsule/Stream/Laws.antt =====
-- `next_capsule` decides as the envelope does.
use straw.Common.{
  ℕ, ◌≡◌, refl, ap, ◌∙◌, ◌≢◌, inl, inr, List, ltb, leb, leb→le, take, drop, Bool-cases, true, false,
  length, Option, none, some, Result, ok, err, panic, arith,
}
use straw.Error.{DecodeError, buffer_too_short}
use straw.Varint.{read_varint}
use straw.Varint.Reads.{read_varint-IsTotal}
use straw.Buffer.{Read, done, fail, abort, ◌>>=◌, ◌>>◌, lift, require, copy_to_bytes}
use straw.Buffer.Laws.{Read-cases, >>=-done, require-enough}
use straw.Capsule.{Capsule}
use straw.Capsule.Envelope.{decode_capsule, decode_payload, read_envelope}
use straw.Capsule.Stream.{CapsuleBuffer, next_capsule, decode_buffered}

-- A whole envelope leaves the buffer, and its payload gives the capsule or the error.
abbrev pub answered :
    CapsuleBuffer
    → List ℕ
    → Result DecodeError Capsule
    → Result DecodeError (Option Capsule) × CapsuleBuffer
answered self rest (ok c) = (ok (some c), record { buf = rest })
answered self rest (err e) = (err e, record { buf = rest })
answered self rest panic = (panic, self)

-- The specification of one call: nothing until the envelope is whole, then its payload's verdict.
unfoldable pub verdict :
    CapsuleBuffer → Read (ℕ × List ℕ) → Result DecodeError (Option Capsule) × CapsuleBuffer
verdict self (done (t, payload) rest) = answered self rest (decode_payload t payload)
verdict self (fail e rest) = (ok none, self)
verdict self abort = (panic, self)

decode_buffered-lift :
    (self : CapsuleBuffer) (rest : List ℕ) (r : Result DecodeError Capsule)
    → decode_buffered self (lift r rest) ≡ answered self rest r
unfolding decode_buffered
decode_buffered-lift self rest (ok c) = refl
decode_buffered-lift self rest (err e) = refl
decode_buffered-lift self rest panic = refl

module _ (self : CapsuleBuffer) (t : ℕ) (mid : List ℕ) (e : read_varint self.buf ≡ done t mid) where
  envelope_whole :
      (n : ℕ) (view : List ℕ)
      → read_varint mid ≡ done n view
      → leb n (length view) ≡ true
      → read_envelope self.buf ≡ done (t, take n view) (drop n view)
  unfolding read_envelope
  envelope_whole n view e2 h =
      >>=-done read_varint _ e
      ∙ >>=-done read_varint _ e2
      ∙ require-enough n (buffer_too_short n) _ view (leb→le n (length view) h)
      ∙ >>=-done (copy_to_bytes n) _ (copied n view h)
    where
      copied :
          (n : ℕ) (view : List ℕ)
          → leb n (length view) ≡ true
          → copy_to_bytes n view ≡ done (take n view) (drop n view)
      copied n view h = rw (h, copy_to_bytes)

  envelope_partial :
      (n : ℕ) (view : List ℕ)
      → read_varint mid ≡ done n view
      → leb n (length view) ≡ false
      → read_envelope self.buf ≡ fail (buffer_too_short n (length view)) view
  unfolding read_envelope
  envelope_partial n view e2 h =
      >>=-done read_varint _ e ∙ >>=-done read_varint _ e2 ∙ rw (h, require, ◌>>=◌, ◌>>◌)

  verdict_whole :
      (n : ℕ) (view : List ℕ)
      → read_varint mid ≡ done n view
      → leb n (length view) ≡ true
      → next_capsule self ≡ verdict self (read_envelope self.buf)
  unfolding next_capsule verdict decode_capsule
  verdict_whole n view e2 h =
      let lt : ltb (length view) n ≡ false = ground arith in
      let whole : read_envelope self.buf ≡ done (t, take n view) (drop n view) =
        envelope_whole n view e2 h in
      rw (whole, e, next_capsule, e2, lt)
        (ap (decode_buffered self) (>>=-done read_envelope _ whole)
          ∙ decode_buffered-lift self (drop n view) (decode_payload t (take n view)))

  verdict_partial :
      (n : ℕ) (view : List ℕ)
      → read_varint mid ≡ done n view
      → leb n (length view) ≡ false
      → next_capsule self ≡ verdict self (read_envelope self.buf)
  unfolding next_capsule verdict
  verdict_partial n view e2 h =
      let lt : ltb (length view) n ≡ true = ground arith in
      let short : read_envelope self.buf ≡ fail (buffer_too_short n (length view)) view =
        envelope_partial n view e2 h in
      rw (short, e, next_capsule, e2, lt)

  verdict_length_fails :
      (x : DecodeError) (view : List ℕ)
      → read_varint mid ≡ fail x view
      → next_capsule self ≡ verdict self (read_envelope self.buf)
  unfolding next_capsule verdict read_envelope
  verdict_length_fails x view e2 = rw (e, next_capsule, e2, ◌>>=◌)

-- One call waits, with the buffer as it was, while the envelope is not whole or cannot be read;
-- then the envelope leaves the buffer and its payload gives the capsule or the error.
pub next_capsule-verdict :
    (self : CapsuleBuffer) → next_capsule self ≡ verdict self (read_envelope self.buf)
next_capsule-verdict self = elim (Read-cases (read_varint self.buf)) [
  | inl (t, mid, e) ↦ elim (Read-cases (read_varint mid)) [
    | inl (n, view, e2) ↦ elim (Bool-cases (leb n (length view))) [
      | inl h ↦ verdict_whole self t mid e n view e2 h
      | inr h ↦ verdict_partial self t mid e n view e2 h
    ]
    | inr (inl (x, view, e2)) ↦ verdict_length_fails self t mid e x view e2
    | inr (inr e2) ↦ absurd (read_varint-IsTotal mid (omega arith) e2)
  ]
  | inr (inl (x, mid, e)) ↦ unfold next_capsule verdict read_envelope in rw (e, next_capsule, ◌>>=◌)
  | inr (inr e) ↦ absurd (read_varint-IsTotal self.buf (omega arith) e)
]

pub verdict-done :
    (self : CapsuleBuffer) (t : ℕ) (payload rest : List ℕ) (c : Capsule)
    → decode_payload t payload ≡ ok c
    → verdict self (done (t, payload) rest) ≡ (ok (some c), record { buf = rest })
unfolding verdict
verdict-done self t payload rest c e = rw e

pub verdict-fail :
    (self : CapsuleBuffer) (e : DecodeError) (rest : List ℕ)
    → verdict self (fail e rest) ≡ (ok none, self)
unfolding verdict
verdict-fail self e rest = refl

-- No whole capsule yet.
abbrev pub IsIncomplete : List ℕ → Type 0
IsIncomplete bs = (p : ℕ × List ℕ) (rest : List ℕ) → read_envelope bs ≢ done p rest
