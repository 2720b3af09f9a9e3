-- ===== src/Forwarding/Echo/Laws.antt =====
-- Packets that the builders of src/forwarding make, parsed and verified.
use straw.Common.{
  ℕ, ◌+◌, ◌/◌, ◌%◌, ◌^◌, ◌<◌, ◌≡◌, refl, ap, ◌∙◌, List, [], ◌∷◌, ◌++◌, Bool, if◌then◌else◌, ok,
  length, take, drop, replicate, replicate_add, All, All-append, arith,
}
use straw.Ip.{v4, v6, octets, be_bytes}
use straw.Ip.Octets.{IsByte, be_value-be_bytes, be_bytes-IsByte}
use straw.Forwarding.Bytes.{put, put16}
use straw.Forwarding.Checksum.{ipv4_checksum, icmpv6_checksum}
use straw.Forwarding.Checksum.Laws.{ipv4_checksum-put16}
use straw.Forwarding.Packet.{
  parse_packet, parse_v4, parse_v6, ipv6_final_protocol, walk, header_step,
}
use straw.Forwarding.Echo.{ipv4_header, build_ipv4_icmp_echo, ipv6_header, build_ipv6_icmpv6_echo}

-- The header before its checksum.
unfoldable pub bare_v4 : ℕ → ℕ → ℕ → ℕ → List ℕ → List ℕ
bare_v4 total_len ttl src dst rest =
    0x45
    ∷ 0
    ∷ (total_len / 256 % 256)
    ∷ (total_len % 256)
    ∷ 0
    ∷ 0
    ∷ 0
    ∷ 0
    ∷ ttl
    ∷ 1
    ∷ 0
    ∷ 0
    ∷ (be_bytes 4 src ++ (be_bytes 4 dst ++ rest))

zeros_v4 :
    (n : ℕ)
    → replicate {A = ℕ} (20 + (8 + n)) 0 ≡ replicate 20 0 ++ (replicate 8 0 ++ replicate n 0)
zeros_v4 n = replicate_add 20 (8 + n) 0 ∙ ap (λ t. replicate 20 0 ++ t) (replicate_add 8 n 0)

pub header_lem :
    (total_len ttl src dst : ℕ) (n : ℕ)
    → ipv4_header total_len ttl src dst (replicate (20 + (8 + n)) 0)
      ≡ put16
          (bare_v4 total_len ttl src dst (replicate 8 0 ++ replicate n 0))
          10
          (ipv4_checksum (bare_v4 total_len ttl src dst []))
unfolding ipv4_header bare_v4 put octets be_bytes
header_lem total_len ttl src dst n = rw (zeros_v4 n) refl

unfoldable pub head_v4 : ℕ → ℕ → ℕ → ℕ → List ℕ
unfolding bare_v4
head_v4 total_len ttl src dst =
    put16 (bare_v4 total_len ttl src dst []) 10 (ipv4_checksum (bare_v4 total_len ttl src dst []))

-- The ICMP message before its checksum.
abbrev bare_echo : ℕ → ℕ → ℕ → List ℕ → List ℕ
bare_echo kind identifier sequence payload =
    kind
    ∷ 0
    ∷ 0
    ∷ 0
    ∷ (identifier / 256 % 256)
    ∷ (identifier % 256)
    ∷ (sequence / 256 % 256)
    ∷ (sequence % 256)
    ∷ payload

build_v4_lem :
    (src dst : ℕ) (is_reply : Bool) (identifier sequence : ℕ) (payload : List ℕ) (ttl : ℕ)
    → let total_len = 20 + (8 + length payload) in
      let echo = bare_echo (if is_reply then 0 else 8) identifier sequence payload in
      build_ipv4_icmp_echo src dst is_reply identifier sequence payload ttl
      ≡ head_v4 total_len ttl src dst ++ put16 echo 2 (ipv4_checksum echo)
unfolding build_ipv4_icmp_echo bare_v4 head_v4 be_bytes
build_v4_lem src dst is_reply identifier sequence payload ttl =
    rw (header_lem (20 + (8 + length payload)) ttl src dst (length payload)) refl

bare_v4_bytes :
    (total_len ttl src dst : ℕ) → IsByte ttl → All IsByte (bare_v4 total_len ttl src dst [])
unfolding bare_v4 be_bytes
bare_v4_bytes total_len ttl src dst h = omega arith

-- A header in front of a message: its checksum verifies, and it is parsed with the message behind it.
pub header_v4_verifies :
    (total_len ttl src dst : ℕ) (message : List ℕ)
    → IsByte ttl
    → ipv4_checksum (take 20 (head_v4 total_len ttl src dst ++ message)) ≡ 0
unfolding head_v4 bare_v4 be_bytes
header_v4_verifies total_len ttl src dst message h =
    ipv4_checksum-put16 (bare_v4 total_len ttl src dst []) 5 (bare_v4_bytes total_len ttl src dst h)
      (omega arith) (omega arith) refl refl

pub drop-header_v4 :
    (total_len ttl src dst : ℕ) (message : List ℕ)
    → drop 20 (head_v4 total_len ttl src dst ++ message) ≡ message
unfolding head_v4 bare_v4 be_bytes
drop-header_v4 total_len ttl src dst message = refl

pub header_v4_parses :
    (total_len ttl src dst : ℕ) (message : List ℕ)
    → total_len ≡ 20 + length message
    → total_len < 2 ^ 16
    → src < 2 ^ 32
    → dst < 2 ^ 32
    → parse_packet (head_v4 total_len ttl src dst ++ message)
      ≡ ok (record { version = 4; src = v4 src; dst = v4 dst; protocol = 1 })
unfolding head_v4 bare_v4 parse_packet parse_v4
header_v4_parses total_len ttl src dst message size small hs hd =
    let es = be_value-be_bytes 4 src hs in
    let ed = be_value-be_bytes 4 dst hd in unfold be_bytes in ground (arith, es, ed)

-- A message with the header in front that the builders write.
unfoldable pub bare_v6 : ℕ → ℕ → ℕ → ℕ → List ℕ → List ℕ
bare_v6 icmp_len hop_limit src dst rest =
    0x60
    ∷ 0
    ∷ 0
    ∷ 0
    ∷ (icmp_len / 256 % 256)
    ∷ (icmp_len % 256)
    ∷ 58
    ∷ hop_limit
    ∷ (be_bytes 16 src ++ (be_bytes 16 dst ++ rest))

zeros_v6 :
    (n : ℕ)
    → replicate {A = ℕ} (40 + (8 + n)) 0 ≡ replicate 40 0 ++ (replicate 8 0 ++ replicate n 0)
zeros_v6 n = replicate_add 40 (8 + n) 0 ∙ ap (λ t. replicate 40 0 ++ t) (replicate_add 8 n 0)

pub header_v6_lem :
    (icmp_len hop_limit src dst : ℕ) (n : ℕ)
    → ipv6_header icmp_len hop_limit src dst (replicate (40 + (8 + n)) 0)
      ≡ bare_v6 icmp_len hop_limit src dst (replicate 8 0 ++ replicate n 0)
unfolding ipv6_header bare_v6 put octets be_bytes
header_v6_lem icmp_len hop_limit src dst n = rw (zeros_v6 n) refl

build_v6_lem :
    (src dst : ℕ) (is_reply : Bool) (identifier sequence : ℕ) (payload : List ℕ) (hop_limit : ℕ)
    → let icmp_len = 8 + length payload in
      let echo = bare_echo (if is_reply then 129 else 128) identifier sequence payload in
      build_ipv6_icmpv6_echo src dst is_reply identifier sequence payload hop_limit
      ≡ bare_v6 icmp_len hop_limit src dst (put16 echo 2 (icmpv6_checksum src dst echo))
unfolding build_ipv6_icmpv6_echo bare_v6 be_bytes
build_v6_lem src dst is_reply identifier sequence payload hop_limit =
    rw (header_v6_lem (8 + length payload) hop_limit src dst (length payload)) refl

pub header_v6_parses :
    (icmp_len hop_limit src dst : ℕ) (message : List ℕ)
    → icmp_len ≡ length message
    → icmp_len < 2 ^ 16
    → src < 2 ^ 128
    → dst < 2 ^ 128
    → parse_packet (bare_v6 icmp_len hop_limit src dst message)
      ≡ ok (record { version = 6; src = v6 src; dst = v6 dst; protocol = 58 })
unfolding bare_v6 parse_packet parse_v6 ipv6_final_protocol walk header_step
header_v6_parses icmp_len hop_limit src dst message size small hs hd =
    let es = be_value-be_bytes 16 src hs in
    let ed = be_value-be_bytes 16 dst hd in unfold be_bytes in ground (arith, es, ed)

pub drop-header_v6 :
    (icmp_len hop_limit src dst : ℕ) (message : List ℕ)
    → drop 40 (bare_v6 icmp_len hop_limit src dst message) ≡ message
unfolding bare_v6 be_bytes
drop-header_v6 icmp_len hop_limit src dst message = refl

-- A message whose checksum field is zero sums to zero under its pseudo-header once its checksum is put
-- there.
pub message_v6_verifies :
    (src dst kind code : ℕ) (rest : List ℕ)
    → All IsByte (kind ∷ code ∷ rest)
    → 44 + length rest < 2 ^ 16
    → let message = kind ∷ code ∷ 0 ∷ 0 ∷ rest in
      icmpv6_checksum src dst (put16 message 2 (icmpv6_checksum src dst message)) ≡ 0
unfolding icmpv6_checksum octets
message_v6_verifies src dst kind code rest h small =
    let message = kind ∷ code ∷ 0 ∷ 0 ∷ rest in
    let before =
      ((be_bytes 16 src ++ be_bytes 16 dst) ++ be_bytes 4 (length message))
      ++ (0 ∷ 0 ∷ 0 ∷ 58 ∷ []) in
    let bytes : All IsByte (before ++ message) =
      All-append IsByte before message
        (All-append IsByte ((be_bytes 16 src ++ be_bytes 16 dst) ++ be_bytes 4 (length message))
          (0 ∷ 0 ∷ 0 ∷ 58 ∷ [])
          (All-append IsByte (be_bytes 16 src ++ be_bytes 16 dst) (be_bytes 4 (length message))
            (All-append IsByte (be_bytes 16 src) (be_bytes 16 dst) (be_bytes-IsByte 16 src)
              (be_bytes-IsByte 16 dst))
            (be_bytes-IsByte 4 (length message)))
          (omega arith))
        (h.0, (h.1.0, (omega arith, (omega arith, h.1.1)))) in
    unfold be_bytes in
    ipv4_checksum-put16 (before ++ message) 21 bytes (omega arith) (omega arith) refl refl

-- An IPv4 echo packet with 32-bit addresses, payload bytes, a TTL of one byte and a length below 2 ^ 16
-- parses as ICMP from its source to its destination, and the checksums of its header and of its
-- message verify.
pub build_ipv4_icmp_echo_lem :
    (src dst : ℕ) (is_reply : Bool) (identifier sequence : ℕ) (payload : List ℕ) (ttl : ℕ)
    → src < 2 ^ 32
    → dst < 2 ^ 32
    → All IsByte payload
    → IsByte ttl
    → 28 + length payload < 2 ^ 16
    → let packet = build_ipv4_icmp_echo src dst is_reply identifier sequence payload ttl in
      (parse_packet packet ≡ ok (record { version = 4; src = v4 src; dst = v4 dst; protocol = 1 }))
      × (ipv4_checksum (take 20 packet) ≡ 0)
      × (ipv4_checksum (drop 20 packet) ≡ 0)
build_ipv4_icmp_echo_lem src dst is_reply identifier sequence payload ttl hs hd hp ht small =
    let total_len = 20 + (8 + length payload) in
    let kind : ℕ = if is_reply then 0 else 8 in
    let small_kind : IsByte kind = ground arith in
    let echo = bare_echo kind identifier sequence payload in
    let message = put16 echo 2 (ipv4_checksum echo) in
    let same : build_ipv4_icmp_echo src dst is_reply identifier sequence payload ttl
        ≡ head_v4 total_len ttl src dst ++ message =
      build_v4_lem src dst is_reply identifier sequence payload ttl in
    rw same (
      header_v4_parses total_len ttl src dst message (omega arith) (omega arith) hs hd,
      header_v4_verifies total_len ttl src dst message ht,
      ap ipv4_checksum (drop-header_v4 total_len ttl src dst message)
          ∙ ipv4_checksum-put16 echo 1
              (
                small_kind,
                (
                  omega arith,
                  (
                    omega arith,
                    (omega arith, (omega arith, (omega arith, (omega arith, (omega arith, hp))))),
                  ),
                ),
              )
              (omega arith) (omega arith) refl refl,
    )

-- An IPv6 echo packet with 128-bit addresses, payload bytes, a hop limit of one byte and a length below
-- 2 ^ 16 parses as ICMPv6 from its source to its destination, and the checksum of its message
-- verifies.
pub build_ipv6_icmpv6_echo_lem :
    (src dst : ℕ) (is_reply : Bool) (identifier sequence : ℕ) (payload : List ℕ) (hop_limit : ℕ)
    → src < 2 ^ 128
    → dst < 2 ^ 128
    → All IsByte payload
    → IsByte hop_limit
    → 48 + length payload < 2 ^ 16
    → let packet = build_ipv6_icmpv6_echo src dst is_reply identifier sequence payload hop_limit in
      (parse_packet packet ≡ ok (record { version = 6; src = v6 src; dst = v6 dst; protocol = 58 }))
      × (icmpv6_checksum src dst (drop 40 packet) ≡ 0)
build_ipv6_icmpv6_echo_lem src dst is_reply identifier sequence payload hop_limit hs hd hp ht
      small =
    let icmp_len = 8 + length payload in
    let kind : ℕ = if is_reply then 129 else 128 in
    let small_kind : IsByte kind = ground arith in
    let rest =
      identifier / 256 % 256
      ∷ (identifier % 256 ∷ (sequence / 256 % 256 ∷ (sequence % 256 ∷ payload))) in
    let echo = bare_echo kind identifier sequence payload in
    let message = put16 echo 2 (icmpv6_checksum src dst echo) in
    rw (build_v6_lem src dst is_reply identifier sequence payload hop_limit) (
      header_v6_parses icmp_len hop_limit src dst message (omega arith) (omega arith) hs hd,
      ap (icmpv6_checksum src dst) (drop-header_v6 icmp_len hop_limit src dst message)
          ∙ message_v6_verifies src dst kind 0 rest
              (
                small_kind,
                (omega arith, (omega arith, (omega arith, (omega arith, (omega arith, hp))))),
              )
              (omega arith),
    )
