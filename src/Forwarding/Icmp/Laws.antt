-- ===== src/Forwarding/Icmp/Laws.antt =====
-- The errors of src/forwarding/icmp.rs: well-formed, sent to the right host, and never about another
-- error.
use straw.Common.{
  ℕ, ◌+◌, ◌*◌, ◌/◌, ◌%◌, ◌≡◌, min, refl, sym, List, [], ◌∷◌, ◌++◌, true, false, ◌==◌, Bool-cases,
  none, some, ok, Option-cases, inl, inr, length, ltb, take, arith,
}
use straw.Ip.{v4, v6, be_bytes, be_value}
use straw.Forwarding.Bytes.{put, put16, byte, slice}
use straw.Forwarding.Checksum.{ipv4_checksum, icmpv6_checksum}
use straw.Forwarding.Echo.Laws.{bare_v4, head_v4, header_lem, bare_v6, header_v6_lem}
use straw.Forwarding.Icmp.{
  IcmpErrorKind, time_exceeded, no_route, admin_prohibited, packet_too_big, IcmpSource,
  valid_error_target, error_v4, error_v6, is_error_v4, is_error_v6, write_v4_error, build_v4_error,
  write_v6_error, build_v6_error, build_icmp_error,
}

-- The message before its checksum.
unfoldable pub message : ℕ × ℕ × List ℕ → List ℕ → List ℕ
message (kind, code, rest) quoted = kind ∷ code ∷ 0 ∷ 0 ∷ (rest ++ quoted)

unfoldable pub filled_v4 : List ℕ → List ℕ
filled_v4 m = put16 m 2 (ipv4_checksum m)

pub write_v4_lem :
    (kind : IcmpErrorKind) (gateway src : ℕ) (quoted : List ℕ)
    → write_v4_error kind gateway src quoted
      ≡ head_v4 (20 + (8 + length quoted)) 64 gateway src
        ++ filled_v4 (message (error_v4 kind) quoted)
unfolding write_v4_error bare_v4 head_v4 be_bytes put message filled_v4
write_v4_lem time_exceeded gateway src quoted =
    rw (header_lem (20 + (8 + length quoted)) 64 gateway src (length quoted)) refl
write_v4_lem no_route gateway src quoted =
    rw (header_lem (20 + (8 + length quoted)) 64 gateway src (length quoted)) refl
write_v4_lem admin_prohibited gateway src quoted =
    rw (header_lem (20 + (8 + length quoted)) 64 gateway src (length quoted)) refl
write_v4_lem (packet_too_big mtu) gateway src quoted =
    rw (header_lem (20 + (8 + length quoted)) 64 gateway src (length quoted)) refl

pub write_v6_lem :
    (kind : IcmpErrorKind) (gateway src : ℕ) (quoted : List ℕ)
    → let m = message (error_v6 kind) quoted in
      write_v6_error kind gateway src quoted
      ≡ bare_v6 (8 + length quoted) 64 gateway src (put16 m 2 (icmpv6_checksum gateway src m))
unfolding write_v6_error bare_v6 be_bytes put message
write_v6_lem time_exceeded gateway src quoted =
    rw (header_v6_lem (8 + length quoted) 64 gateway src (length quoted)) refl
write_v6_lem no_route gateway src quoted =
    rw (header_v6_lem (8 + length quoted) 64 gateway src (length quoted)) refl
write_v6_lem admin_prohibited gateway src quoted =
    rw (header_v6_lem (8 + length quoted) 64 gateway src (length quoted)) refl
write_v6_lem (packet_too_big mtu) gateway src quoted =
    rw (header_v6_lem (8 + length quoted) 64 gateway src (length quoted)) refl

-- The quoted part of the original: its header and 8 bytes.
abbrev pub quote_v4 : List ℕ → List ℕ
quote_v4 original = take (min (length original) (byte original 0 % 16 * 4 + 8)) original

abbrev pub quote_v6 : List ℕ → List ℕ
quote_v6 original = take (min (length original) 48) original

pub built_v4 :
    (kind : IcmpErrorKind) (gateway : ℕ) (o error : List ℕ)
    → build_v4_error kind gateway o ≡ ok (some error)
    → (write_v4_error kind gateway (be_value (slice o 12 16)) (quote_v4 o) ≡ error)
      × (valid_error_target (v4 (be_value (slice o 12 16))) ≡ true)
      × (is_error_v4 o (byte o 0 % 16 * 4) ≡ ok false)
unfolding build_v4_error
built_v4 kind gateway o error e = ground arith

pub built_v6 :
    (kind : IcmpErrorKind) (gateway : ℕ) (o error : List ℕ)
    → build_v6_error kind gateway o ≡ ok (some error)
    → (write_v6_error kind gateway (be_value (slice o 8 24)) (quote_v6 o) ≡ error)
      × (valid_error_target (v6 (be_value (slice o 8 24))) ≡ true)
      × (is_error_v6 o ≡ ok false)
unfolding build_v6_error
built_v6 kind gateway o error e = ground arith

-- What is marked as an error is not answered.
answer_v4 :
    (kind : IcmpErrorKind) (source : IcmpSource) (o : List ℕ)
    → byte o 0 ≡ 69
    → is_error_v4 o 20 ≡ ok true
    → build_icmp_error kind source o ≡ ok none
unfolding build_icmp_error build_v4_error
answer_v4 kind source [] first e = refl
answer_v4 kind source (x ∷ rest) first e = ground arith

silent_v6 :
    (kind : IcmpErrorKind) (gateway : ℕ) (o : List ℕ)
    → is_error_v6 o ≡ ok true
    → build_v6_error kind gateway o ≡ ok none
unfolding build_v6_error
silent_v6 kind gateway o e = elim (Bool-cases (ltb (length o) 40)) [
  | inl short ↦ rw (short, build_v6_error) refl
  | inr long ↦ elim (Bool-cases (valid_error_target (v6 (be_value (slice o 8 24))))) [
    | inl target ↦ ground (arith, long, target, e)
    | inr off ↦ ground (arith, long, off)
  ]
]

answer_v6 :
    (kind : IcmpErrorKind) (source : IcmpSource) (o : List ℕ)
    → byte o 0 ≡ 96
    → is_error_v6 o ≡ ok true
    → build_icmp_error kind source o ≡ ok none
unfolding build_icmp_error
answer_v6 kind source [] first e = refl
answer_v6 kind source (x ∷ rest) first e =
    let six : (x / 16 == 4) ≡ false = ground (arith, first) in
    let six' : (x / 16 == 6) ≡ true = ground (arith, first) in
    elim (Option-cases source.v6_addr) [
      | inl absent ↦ rw (six, six', absent, build_icmp_error) refl
      | inr (gateway, found) ↦
          rw (six, six', found, build_icmp_error) (silent_v6 kind gateway (x ∷ rest) e)
    ]

marked_v4 :
    (kind : IcmpErrorKind) (gateway src : ℕ) (quoted : List ℕ)
    → let o = write_v4_error kind gateway src quoted in
      (byte o 0 ≡ 69) × (is_error_v4 o 20 ≡ ok true)
unfolding head_v4 bare_v4 be_bytes message filled_v4
marked_v4 time_exceeded gateway src quoted =
    rw (write_v4_lem time_exceeded gateway src quoted) (refl, ground arith)
marked_v4 no_route gateway src quoted =
    rw (write_v4_lem no_route gateway src quoted) (refl, ground arith)
marked_v4 admin_prohibited gateway src quoted =
    rw (write_v4_lem admin_prohibited gateway src quoted) (refl, ground arith)
marked_v4 (packet_too_big mtu) gateway src quoted =
    rw (write_v4_lem (packet_too_big mtu) gateway src quoted) (refl, ground arith)

marked_v6 :
    (kind : IcmpErrorKind) (gateway src : ℕ) (quoted : List ℕ)
    → let o = write_v6_error kind gateway src quoted in (byte o 0 ≡ 96) × (is_error_v6 o ≡ ok true)
unfolding bare_v6 be_bytes message
marked_v6 time_exceeded gateway src quoted =
    rw (write_v6_lem time_exceeded gateway src quoted) (refl, ground arith)
marked_v6 no_route gateway src quoted =
    rw (write_v6_lem no_route gateway src quoted) (refl, ground arith)
marked_v6 admin_prohibited gateway src quoted =
    rw (write_v6_lem admin_prohibited gateway src quoted) (refl, ground arith)
marked_v6 (packet_too_big mtu) gateway src quoted =
    rw (write_v6_lem (packet_too_big mtu) gateway src quoted) (refl, ground arith)

-- Which version answered.
pub data Built (kind : IcmpErrorKind) (source : IcmpSource) (o error : List ℕ) : Type 0 where
  by_v4 :
      (byte o 0 / 16 ≡ 4)
      → (build_v4_error kind source.v4_addr o ≡ ok (some error))
      → Built kind source o error
  by_v6 :
      (gateway : ℕ)
      → (source.v6_addr ≡ some gateway)
      → (byte o 0 / 16 ≡ 6)
      → (build_v6_error kind gateway o ≡ ok (some error))
      → Built kind source o error

pub Built-cases :
    (kind : IcmpErrorKind) (source : IcmpSource) (o error : List ℕ)
    → build_icmp_error kind source o ≡ ok (some error)
    → Built kind source o error
unfolding build_icmp_error
Built-cases kind source [] error e = ground arith
Built-cases kind source (x ∷ rest) error e = elim (Bool-cases (x / 16 == 4)) [
  | inl four ↦ by_v4 (ground arith) (rw four at e)
  | inr four ↦ elim (Bool-cases (x / 16 == 6)) [
    | inl six ↦ elim (Option-cases source.v6_addr) [
      | inl absent ↦ absurd (let gone = rw (four, six, absent) at e in ground (arith, gone))
      | inr (gateway, found) ↦ by_v6 gateway found (ground arith) (rw (four, six, found) at e)
    ]
    | inr six ↦ absurd (let gone = rw (four, six) at e in ground (arith, gone))
  ]
]

-- An error that the proxy builds is never answered with an error, whatever kind of error and whatever
-- gateways the second call is made with.
pub build_icmp_error_silent :
    (kind kind' : IcmpErrorKind) (source source' : IcmpSource) (original error : List ℕ)
    → build_icmp_error kind source original ≡ ok (some error)
    → build_icmp_error kind' source' error ≡ ok none
build_icmp_error_silent kind kind' source source' original error e =
    elim (Built-cases kind source original error e) [
      | by_v4 four built ↦
          let (same, _, _) = built_v4 kind source.v4_addr original error built in
          let (first, mark) =
            marked_v4 kind source.v4_addr (be_value (slice original 12 16)) (quote_v4 original) in
          rw (sym same) (answer_v4 kind' source' _ first mark)
      | by_v6 gateway found six built ↦
          let (same, _, _) = built_v6 kind gateway original error built in
          let (first, mark) =
            marked_v6 kind gateway (be_value (slice original 8 24)) (quote_v6 original) in
          rw (sym same) (answer_v6 kind' source' _ first mark)
    ]
