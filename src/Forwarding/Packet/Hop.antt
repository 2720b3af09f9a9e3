-- ===== src/Forwarding/Packet/Hop.antt =====
-- One hop: what `decrement_ttl` of src/forwarding/packet.rs changes.
use straw.Common.{
  ℕ, zero, suc, ◌+◌, ◌-◌, ◌*◌, ◌/◌, ◌%◌, ◌≤◌, ◌<◌, ◌≡◌, ◌≢◌, refl, ap, ◌∙◌, List, [], ◌∷◌, Bool,
  true, false, ◌&&◌, ◌⊎◌, Bool-cases, inl, inr, leb, ltb, ◌==◌, ◌||◌, if◌then◌else◌, Result, ok,
  err, panic, length, length-set, length-take, All-take, take, drop, set, All, arith,
}
use straw.Error.{ForwardingError, ttl_expired}
use straw.Ip.Octets.{IsByte}
use straw.Forwarding.Bytes.{
  drop-set_before, byte, be16, put16, get_or-set, get_or-set_same, take-set, All-set, length-put16,
  get_or-take, get_or-IsByte,
}
use straw.Forwarding.Checksum.{ipv4_checksum}
use straw.Forwarding.Checksum.Laws.{ipv4_checksum-put16}
use straw.Forwarding.Packet.{
  HeaderStep, final, skip, header_step, options_step, fragment_step, authentication_step, walk,
  ipv6_final_protocol, PacketInfo, parse_packet, parse_v4, parse_v6, decrement_ttl, decrement_v4,
  decrement_v6,
}

-- The place of the TTL or the hop limit.
abbrev pub ttl_place : ℕ → ℕ
ttl_place version = if version == 4 then 8 else 7

-- The header of an IPv4 packet.
abbrev pub header : List ℕ → List ℕ
header packet = take (byte packet 0 % 16 * 4) packet

-- The bytes that one hop writes: the TTL and, for IPv4, the checksum.
abbrev pub is_touched : ℕ → ℕ → Bool
is_touched version i = i == ttl_place version || (version == 4 && (i == 10 || i == 11))

pub record IsHop (info : PacketInfo) (packet packet' : List ℕ) : Type 0 where
  pub same_length : length packet' ≡ length packet
  pub one_less : suc (byte packet' (ttl_place info.version)) ≡ byte packet (ttl_place info.version)
  pub others : (i : ℕ) → (is_touched info.version i ≡ true) ⊎ (byte packet' i ≡ byte packet i)
  pub same_info : parse_packet packet' ≡ ok info
  pub checksum : (if info.version == 4 then ipv4_checksum (header packet') else 0) ≡ 0

-- What a parse tells of the packet.
pub parsed_v4 :
    (p : List ℕ) (info : PacketInfo)
    → parse_v4 p ≡ ok info
    → (20 ≤ length p)
      × (20 ≤ byte p 0 % 16 * 4)
      × (byte p 0 % 16 * 4 ≤ length p)
      × (info.version ≡ 4)
unfolding parse_v4
parsed_v4 p info e = ground arith

pub parsed_v6 :
    (p : List ℕ) (info : PacketInfo) → parse_v6 p ≡ ok info → (40 ≤ length p) × (info.version ≡ 6)
unfolding parse_v6
parsed_v6 p info e = ground arith

pub parsed :
    (p : List ℕ) (info : PacketInfo)
    → parse_packet p ≡ ok info
    → (0 < length p)
      × (((byte p 0 / 16 ≡ 4) × (parse_v4 p ≡ ok info))
          ⊎ ((byte p 0 / 16 ≡ 6) × (parse_v6 p ≡ ok info)))
unfolding parse_packet
parsed [] info e = absurd (cc)
parsed (f ∷ r) info e = (omega arith, ground arith)

parse_packet-v4 : (p : List ℕ) → 0 < length p → byte p 0 / 16 ≡ 4 → parse_packet p ≡ parse_v4 p
unfolding parse_packet
parse_packet-v4 [] h e = absurd (omega arith)
parse_packet-v4 (f ∷ r) h e = ground arith

parse_packet-v6 : (p : List ℕ) → 0 < length p → byte p 0 / 16 ≡ 6 → parse_packet p ≡ parse_v6 p
unfolding parse_packet
parse_packet-v6 [] h e = absurd (omega arith)
parse_packet-v6 (f ∷ r) h e = ground arith

decrement_ttl-v4 :
    (p : List ℕ) → 0 < length p → byte p 0 / 16 ≡ 4 → decrement_ttl p ≡ decrement_v4 p
unfolding decrement_ttl
decrement_ttl-v4 [] h e = absurd (omega arith)
decrement_ttl-v4 (f ∷ r) h e = ground arith

decrement_ttl-v6 :
    (p : List ℕ) → 0 < length p → byte p 0 / 16 ≡ 6 → decrement_ttl p ≡ decrement_v6 p
unfolding decrement_ttl
decrement_ttl-v6 [] h e = absurd (omega arith)
decrement_ttl-v6 (f ∷ r) h e = ground arith

-- Packets that agree where the parse looks.
parse_v4_agree :
    (p q : List ℕ)
    → length p ≡ length q
    → byte p 0 ≡ byte q 0
    → be16 p 2 ≡ be16 q 2
    → byte p 9 ≡ byte q 9
    → drop 12 p ≡ drop 12 q
    → drop 16 p ≡ drop 16 q
    → parse_v4 p ≡ parse_v4 q
unfolding parse_v4
parse_v4_agree p q hl h0 h2 h9 hs hd = rw (hl, h0, h2, h9, hs, hd) refl

module _ (p : List ℕ) where
  -- The packet with the TTL lowered and the checksum field cleared.
  abbrev lowered : List ℕ
  lowered = set (set (set p 8 (byte p 8 - 1)) 10 0) 11 0

  abbrev hopped : List ℕ
  hopped = put16 lowered 10 (ipv4_checksum (take (byte p 0 % 16 * 4) lowered))

  length-lowered : length lowered ≡ length p
  length-lowered = omega (
    arith,
    length-set {0} (set (set p 8 (byte p 8 - 1)) 10 0) 11 0,
    length-set {0} (set p 8 (byte p 8 - 1)) 10 0,
    length-set {0} p 8 (byte p 8 - 1),
  )

  byte-lowered : (i : ℕ) → i ≢ 8 → i ≢ 10 → i ≢ 11 → byte lowered i ≡ byte p i
  byte-lowered i h8 h10 h11 =
      get_or-set _ 11 0 i h11 ∙ get_or-set _ 10 0 i h10 ∙ get_or-set p 8 _ i h8

  byte-hopped : (i : ℕ) → i ≢ 8 → i ≢ 10 → i ≢ 11 → byte hopped i ≡ byte p i
  byte-hopped i h8 h10 h11 =
      get_or-set _ 11 _ i h11 ∙ get_or-set _ 10 _ i h10 ∙ byte-lowered i h8 h10 h11

  drop-hopped : (n : ℕ) → 11 < n → drop n hopped ≡ drop n p
  drop-hopped n h =
      drop-set_before n _ 11 _ (omega arith)
      ∙ drop-set_before n _ 10 _ (omega arith)
      ∙ drop-set_before n _ 11 _ (omega arith)
      ∙ drop-set_before n _ 10 _ (omega arith)
      ∙ drop-set_before n p 8 _ (omega arith)

  -- A header of 20 bytes at least that the packet holds.
  module _ (wide : 20 ≤ byte p 0 % 16 * 4) (held : byte p 0 % 16 * 4 ≤ length p)
      (bytes : All IsByte p) where
    lowered_bytes : All IsByte lowered
    lowered_bytes = All-set _ 11 0 (omega arith) (
        All-set _ 10 0 (omega arith) (All-set p 8 _ (omega (arith, get_or-IsByte p 8 bytes)) bytes))

    checksum-hopped : ipv4_checksum (header hopped) ≡ 0
    checksum-hopped =
        let ihl = byte p 0 % 16 * 4 in
        let block = take ihl lowered in
        let size : length block ≡ ihl =
          omega (arith, length-take {0} ihl lowered, length-lowered) in
        let c = ipv4_checksum block in
        let head : header hopped ≡ put16 block 10 c =
          ap (λ b. take (b % 16 * 4) hopped)
            (byte-hopped 0 (omega arith) (omega arith) (omega arith))
          ∙ take-set ihl _ 11 _
          ∙ ap (λ l. set l 11 (c % 256)) (take-set ihl lowered 10 _) in
        ap ipv4_checksum head
        ∙ ipv4_checksum-put16 block 5 (All-take IsByte ihl lowered lowered_bytes) (omega arith)
            (omega arith)
            (get_or-take ihl lowered 10 (omega arith)
              ∙ get_or-set (set (set p 8 (byte p 8 - 1)) 10 0) 11 0 10 (omega arith)
              ∙ get_or-set_same (set p 8 (byte p 8 - 1)) 10 0
                  (omega (arith, length-set {0} p 8 (byte p 8 - 1))))
            (get_or-take ihl lowered 11 (omega arith)
              ∙ get_or-set_same (set (set p 8 (byte p 8 - 1)) 10 0) 11 0 (
                  omega (
                    arith,
                    length-lowered,
                    length-set {0} (set (set p 8 (byte p 8 - 1)) 10 0) 11 0,
                  )))

    ttl-hopped : byte hopped 8 ≡ byte p 8 - 1
    ttl-hopped =
        let first = set p 8 (byte p 8 - 1) in
        let c = ipv4_checksum (take (byte p 0 % 16 * 4) lowered) in
        get_or-set (set lowered 10 (c / 256 % 256)) 11 (c % 256) 8 (omega arith)
        ∙ get_or-set lowered 10 (c / 256 % 256) 8 (omega arith)
        ∙ get_or-set (set first 10 0) 11 0 8 (omega arith)
        ∙ get_or-set first 10 0 8 (omega arith)
        ∙ get_or-set_same p 8 (byte p 8 - 1) (omega arith)

    IsHop-v4 :
        (info : PacketInfo)
        → byte p 0 / 16 ≡ 4
        → parse_v4 p ≡ ok info
        → info.version ≡ 4
        → 1 < byte p 8
        → IsHop info p hopped
    IsHop-v4 info four e version live =
        let at0 = byte-hopped 0 (omega arith) (omega arith) (omega arith) in
        let at2 = byte-hopped 2 (omega arith) (omega arith) (omega arith) in
        let at3 = byte-hopped 3 (omega arith) (omega arith) (omega arith) in
        let at9 = byte-hopped 9 (omega arith) (omega arith) (omega arith) in
        let size : length hopped ≡ length p = length-put16 lowered 10 _ ∙ length-lowered in
        let at8 = ttl-hopped in
        record {
          same_length = size;
          one_less = rw version (omega (arith, at8));
          others = λ i. elim (Bool-cases (is_touched info.version i)) [
            | inl h ↦ inl h
            | inr h ↦ inr (byte-hopped i (ground arith) (ground arith) (ground arith))
          ];
          same_info =
              parse_packet-v4 hopped (omega (arith, size)) (omega (arith, at0, four))
              ∙ parse_v4_agree hopped p size at0 (omega (arith, at2, at3)) at9
                  (drop-hopped 12 (omega arith)) (drop-hopped 16 (omega arith))
              ∙ e;
          checksum = rw version checksum-hopped;
        }

header_step_agree :
    (p q : List ℕ) (next offset : ℕ)
    → length p ≡ length q
    → ((i : ℕ) → 8 ≤ i → byte p i ≡ byte q i)
    → 40 ≤ offset
    → header_step p next offset ≡ header_step q next offset
unfolding header_step options_step fragment_step authentication_step
header_step_agree p q next offset hl hb ho =
    let b0 = hb offset (omega arith) in
    let b1 = hb (suc offset) (omega arith) in
    let b2 = hb (offset + 2) (omega arith) in
    let b3 = hb (suc (offset + 2)) (omega arith) in rw (hl, b0, b1, b2, b3) refl

pub HeaderStep-cases :
    (r : Result ForwardingError HeaderStep)
    → ((x : ℕ) × (r ≡ ok (final x)))
      ⊎ (((a : ℕ) × (b : ℕ) × (r ≡ ok (skip a b)))
          ⊎ (((x : ForwardingError) × (r ≡ err x)) ⊎ (r ≡ panic)))
HeaderStep-cases (ok (final x)) = inl (x, refl)
HeaderStep-cases (ok (skip a b)) = inr (inl (a, b, refl))
HeaderStep-cases (err x) = inr (inr (inl (x, refl)))
HeaderStep-cases panic = inr (inr (inr refl))

-- The chain runs forward.
further :
    (q : List ℕ) (next offset a b : ℕ)
    → 40 ≤ offset
    → header_step q next offset ≡ ok (skip a b)
    → 40 ≤ b
unfolding header_step options_step fragment_step authentication_step
further q next offset a b h e = ground arith

walk_agree :
    (rounds : ℕ) (p q : List ℕ) (next offset : ℕ)
    → length p ≡ length q
    → ((i : ℕ) → 8 ≤ i → byte p i ≡ byte q i)
    → 40 ≤ offset
    → walk rounds p next offset ≡ walk rounds q next offset
unfolding walk
walk_agree zero p q next offset hl hb ho = refl
walk_agree (suc n) p q next offset hl hb ho =
    let same = header_step_agree p q next offset hl hb ho in
    elim (HeaderStep-cases (header_step q next offset)) [
      | inl (x, e) ↦ rw (same, walk, e) refl
      | inr (inl (a, b, e)) ↦
          rw (same, walk, e) (walk_agree n p q a b hl hb (further q next offset a b ho e))
      | inr (inr (inl (x, e))) ↦ rw (same, walk, e) refl
      | inr (inr (inr e)) ↦ rw (same, walk, e) refl
    ]

module _ (p : List ℕ) where
  abbrev hopped_v6 : List ℕ
  hopped_v6 = set p 7 (byte p 7 - 1)

  byte-hopped_v6 : (i : ℕ) → i ≢ 7 → byte hopped_v6 i ≡ byte p i
  byte-hopped_v6 i h = get_or-set p 7 (byte p 7 - 1) i h

  parse-hopped_v6 : parse_v6 hopped_v6 ≡ parse_v6 p
  unfolding parse_v6 ipv6_final_protocol
  parse-hopped_v6 =
      let size = length-set {0} p 7 (byte p 7 - 1) in
      let b4 = byte-hopped_v6 4 (omega arith) in
      let b5 = byte-hopped_v6 5 (omega arith) in
      let b6 = byte-hopped_v6 6 (omega arith) in
      let d8 = drop-set_before 8 p 7 (byte p 7 - 1) (omega arith) in
      let d24 = drop-set_before 24 p 7 (byte p 7 - 1) (omega arith) in
      let w =
        walk_agree 8 hopped_v6 p (byte p 6) 40 size (λ i h. byte-hopped_v6 i (omega arith))
          (omega arith) in
      rw (size, b4, b5, b6, d8, d24, w) refl

  IsHop-v6 :
      (info : PacketInfo)
      → 40 ≤ length p
      → byte p 0 / 16 ≡ 6
      → parse_v6 p ≡ ok info
      → info.version ≡ 6
      → 1 < byte p 7
      → IsHop info p hopped_v6
  IsHop-v6 info long six e version live =
      let size = length-set {0} p 7 (byte p 7 - 1) in
      let at0 = byte-hopped_v6 0 (omega arith) in
      let at7 = get_or-set_same p 7 (byte p 7 - 1) (omega arith) in
      record {
        same_length = size;
        one_less = rw version (omega (arith, at7));
        others = λ i. elim (Bool-cases (is_touched info.version i)) [
          | inl h ↦ inl h
          | inr h ↦ inr (byte-hopped_v6 i (ground arith))
        ];
        same_info =
            parse_packet-v6 hopped_v6 (omega (arith, size)) (omega (arith, at0, six))
            ∙ parse-hopped_v6
            ∙ e;
        checksum = rw version refl;
      }

decrement_v4-hopped :
    (p : List ℕ)
    → 20 ≤ length p
    → byte p 0 % 16 * 4 ≤ length p
    → leb (byte p 8) 1 ≡ false
    → decrement_v4 p ≡ ok (hopped p)
unfolding decrement_v4
decrement_v4-hopped p long held live =
    let first = set p 8 (byte p 8 - 1) in
    let enough : ltb (length p) 20 ≡ false = ground arith in
    let in0 : ltb 0 (length p) ≡ true = ground arith in
    let in8 : ltb 8 (length p) ≡ true = ground arith in
    let in10 : ltb 10 (length p) ≡ true = ground arith in
    let in11 : ltb 11 (length p) ≡ true = ground arith in
    let positive : ltb 0 (byte p 8) ≡ true = ground arith in
    let inside : leb (byte p 0 % 16 * 4) (length p) ≡ true = ground arith in
    rw
      (
        enough,
        in8,
        live,
        positive,
        length-set {0} (set first 10 0) 11 0,
        length-set {0} first 10 0,
        length-set {0} p 8 (byte p 8 - 1),
        in0,
        in10,
        in11,
        get_or-set p 8 (byte p 8 - 1) 0 (omega arith),
        inside,
      )
      refl

-- A packet of bytes that `parse_packet` accepts either has a TTL or hop limit of 1 at most, and
-- `decrement_ttl` answers that it expired, or gives a packet of the same length that parses alike, has
-- a TTL or hop limit one less and, for IPv4, a header whose checksum verifies, and no other byte
-- changed.
pub decrement_ttl-IsHop :
    (packet : List ℕ) (info : PacketInfo)
    → All IsByte packet
    → parse_packet packet ≡ ok info
    → ((byte packet (ttl_place info.version) ≤ 1) × (decrement_ttl packet ≡ err ttl_expired))
      ⊎ ((packet' : List ℕ) × (decrement_ttl packet ≡ ok packet') × IsHop info packet packet')
unfolding decrement_v4 decrement_v6
decrement_ttl-IsHop p info hb e =
    let (some_bytes, which) = parsed p info e in
    elim which [
      | inl (four, e4) ↦
          let (long, wide, held, version) = parsed_v4 p info e4 in
          elim (Bool-cases (leb (byte p 8) 1)) [
            | inl h ↦
                inl (rw version (ground arith), decrement_ttl-v4 p some_bytes four ∙ ground arith)
            | inr h ↦ inr (
              hopped p,
              decrement_ttl-v4 p some_bytes four ∙ decrement_v4-hopped p long held h,
              IsHop-v4 p wide held hb info four e4 version (ground arith),
            )
          ]
      | inr (six, e6) ↦
          let (long, version) = parsed_v6 p info e6 in
          elim (Bool-cases (leb (byte p 7) 1)) [
            | inl h ↦
                inl (rw version (ground arith), decrement_ttl-v6 p some_bytes six ∙ ground arith)
            | inr h ↦ inr (
              hopped_v6 p,
              decrement_ttl-v6 p some_bytes six ∙ ground arith,
              IsHop-v6 p info long six e6 version (ground arith),
            )
          ]
    ]
