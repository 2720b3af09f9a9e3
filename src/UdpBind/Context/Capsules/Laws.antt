-- ===== src/UdpBind/Context/Capsules/Laws.antt =====
-- The capsules of src/udp_bind/context.rs, written and read back.
use straw.Common.{
  inl, inr, ℕ, ◌≤◌, ◌≡◌, refl, sym, ap, ◌∙◌, List, [], ◌∷◌, ◌++◌, append_assoc, append-nil, length,
  length-append, ok, arith,
}
use straw.Ip.{IpAddr, v4, v6, octets, be_bytes}
use straw.Ip.Socket.{SocketAddr, IsSocketAddr}
use straw.Varint.{varint_max, read_varint}
use straw.Varint.Shape.{varint_bytes, write_varint-bytes}
use straw.Varint.Codec.{varint_len-bytes}
use straw.Varint.Laws.{read_varint-bytes}
use straw.Buffer.{Reader, pure, done, ◌>>=◌}
use straw.Buffer.Laws.{Read-cases, >>=-done}
use straw.Capsule.Envelope.{read_envelope}
use straw.Capsule.Envelope.Laws.{read_envelope-bytes}
use straw.UdpBind.Address.{put_addr, addr_bytes, get_addr, get_u8, get_addr-bytes, get_u8-bytes}
use straw.UdpBind.Context.{Binding, compressed, uncompressed, CompressionAssign}
use straw.UdpBind.Context.Capsules.{
  capsule_compression_assign, capsule_observed_address, put_capsule, whole_body, put_binding,
  get_binding, encode, read_assign, decode, encode_context_capsule, decode_context_capsule,
  encode_observed_address, decode_observed_address,
}

varint_short : (v : ℕ) → length (varint_bytes v) ≤ 8
unfolding varint_bytes
varint_short v = ground arith

ip_short : (ip : IpAddr) (port : ℕ) → length (addr_bytes (record { ip = ip; port = port })) ≤ 19
unfolding addr_bytes octets be_bytes
ip_short (v4 a) port = omega arith
ip_short (v6 a) port = omega arith

addr_short : (a : SocketAddr) → length (addr_bytes a) ≤ 19
addr_short a = ip_short a.ip a.port

abbrev envelope_bytes : ℕ → List ℕ → List ℕ
envelope_bytes t body = varint_bytes t ++ (varint_bytes (length body) ++ body)

put_capsule-bytes :
    (buf : List ℕ) (t : ℕ) (body : List ℕ)
    → t ≤ varint_max
    → length body ≤ varint_max
    → put_capsule buf t body ≡ ok (buf ++ envelope_bytes t body)
unfolding put_capsule
put_capsule-bytes buf t body ht hb =
    rw (write_varint-bytes buf t ht, write_varint-bytes (buf ++ varint_bytes t) (length body) hb)
      (ap ok (simp append_assoc))

read_addr :
    (addr : SocketAddr) → IsSocketAddr addr → (get_u8 >>= get_addr) (addr_bytes addr) ≡ done addr []
read_addr addr h =
    ap (get_u8 >>= get_addr) (sym (append-nil (addr_bytes addr))) ∙ get_addr-bytes addr [] h

-- An observed address with its number and port in range is written as a capsule behind what the
-- buffer holds; reading the envelope gives its type and body and leaves what follows, and the body
-- gives the address back.
pub decode_observed_address-encode_observed_address :
    (addr : SocketAddr) (buf rest : List ℕ)
    → IsSocketAddr addr
    → (bytes body : List ℕ) × (encode_observed_address addr buf ≡ ok (buf ++ bytes))
      × (read_envelope (bytes ++ rest) ≡ done (capsule_observed_address, body) rest)
      × (decode_observed_address body ≡ ok addr)
unfolding encode_observed_address decode_observed_address put_addr
decode_observed_address-encode_observed_address addr buf rest h =
    let body = addr_bytes addr in
    let short : length body ≤ varint_max = omega (arith, addr_short addr) in
    (
      envelope_bytes capsule_observed_address body,
      body,
      put_capsule-bytes buf capsule_observed_address body (omega arith) short,
      read_envelope-bytes capsule_observed_address body rest (omega arith) short,
      ap whole_body (read_addr addr h),
    )

-- What COMPRESSION_ASSIGN carries behind the id.
abbrev binding_bytes : Binding → List ℕ
binding_bytes uncompressed = 0 ∷ []
binding_bytes (compressed addr) = addr_bytes addr

-- A binding that the wire can carry.
abbrev pub IsBinding : Binding → Type 0
IsBinding uncompressed = Unit {0}
IsBinding (compressed addr) = IsSocketAddr addr

put_binding-bytes : (body : List ℕ) (b : Binding) → put_binding body b ≡ body ++ binding_bytes b
unfolding put_binding put_addr
put_binding-bytes body uncompressed = refl
put_binding-bytes body (compressed addr) = refl

binding_short : (b : Binding) → length (binding_bytes b) ≤ 19
binding_short uncompressed = omega arith
binding_short (compressed addr) = addr_short addr

get_ip_binding :
    (ip : IpAddr) (port : ℕ)
    → let addr : SocketAddr = record { ip = ip; port = port } in
      IsSocketAddr addr → (get_u8 >>= get_binding) (addr_bytes addr) ≡ done (compressed addr) []
unfolding addr_bytes get_binding
get_ip_binding (v4 a) port h =
    let tail = octets (v4 a) ++ be_bytes 2 port in
    >>=-done get_u8 get_binding (get_u8-bytes 4 tail)
    ∙ >>=-done (get_addr 4) (λ addr. pure (compressed addr))
        (sym (>>=-done get_u8 get_addr (get_u8-bytes 4 tail))
          ∙ read_addr (record { ip = v4 a; port = port }) h)
get_ip_binding (v6 a) port h =
    let tail = octets (v6 a) ++ be_bytes 2 port in
    >>=-done get_u8 get_binding (get_u8-bytes 6 tail)
    ∙ >>=-done (get_addr 6) (λ addr. pure (compressed addr))
        (sym (>>=-done get_u8 get_addr (get_u8-bytes 6 tail))
          ∙ read_addr (record { ip = v6 a; port = port }) h)

get_binding-bytes :
    (b : Binding) → IsBinding b → (get_u8 >>= get_binding) (binding_bytes b) ≡ done b []
get_binding-bytes uncompressed h =
    >>=-done get_u8 get_binding (get_u8-bytes 0 []) ∙ (unfold get_binding in refl)
get_binding-bytes (compressed addr) h = get_ip_binding addr.ip addr.port h

bind_assoc :
    {A B C : Type 0} (m : Reader A) (f : A → Reader B) (g : B → Reader C) (bs : List ℕ)
    → ((m >>= f) >>= g) bs ≡ (m >>= λ a. f a >>= g) bs
bind_assoc m f g bs = elim (Read-cases (m bs)) [
  | inl (a, rest, e) ↦ rw (e, ◌>>=◌) refl
  | inr (inl (x, rest, e)) ↦ rw (e, ◌>>=◌) refl
  | inr (inr e) ↦ rw (e, ◌>>=◌) refl
]

read_assign-bytes :
    (a : CompressionAssign)
    → a.context_id ≤ varint_max
    → IsBinding a.binding
    → read_assign (varint_bytes a.context_id ++ binding_bytes a.binding) ≡ done a []
unfolding read_assign
read_assign-bytes a h hb =
    >>=-done read_varint _ (read_varint-bytes a.context_id (binding_bytes a.binding) h)
    ∙ sym (
        bind_assoc get_u8 get_binding
          (λ b. pure (record { context_id = a.context_id; binding = b })) (binding_bytes a.binding))
    ∙ >>=-done (get_u8 >>= get_binding)
        (λ b. pure (record { context_id = a.context_id; binding = b }))
        (get_binding-bytes a.binding hb)

-- A registration with an id that fits a varint, and an address and port in range if it is
-- compressed, is written as a capsule behind what the buffer holds; reading the envelope gives its
-- type and body and leaves what follows, and the body gives the registration back.
pub decode_assign-encode_assign :
    (a : CompressionAssign) (buf rest : List ℕ)
    → a.context_id ≤ varint_max
    → IsBinding a.binding
    → (bytes body : List ℕ) × (encode a buf ≡ ok (buf ++ bytes))
      × (read_envelope (bytes ++ rest) ≡ done (capsule_compression_assign, body) rest)
      × (decode body ≡ ok a)
unfolding encode decode
decode_assign-encode_assign a buf rest h hb =
    let body = varint_bytes a.context_id ++ binding_bytes a.binding in
    let short : length body ≤ varint_max = omega (
      arith,
      length-append (varint_bytes a.context_id) (binding_bytes a.binding),
      varint_short a.context_id,
      binding_short a.binding,
    ) in
    (
      envelope_bytes capsule_compression_assign body,
      body,
      rw
          (
            write_varint-bytes [] a.context_id h,
            put_binding-bytes (varint_bytes a.context_id) a.binding,
          )
          (put_capsule-bytes buf capsule_compression_assign body (omega arith) short),
      read_envelope-bytes capsule_compression_assign body rest (omega arith) short,
      ap whole_body (read_assign-bytes a h hb),
    )

-- A bare id that fits a varint is written as a capsule of a type that fits one, behind what the
-- buffer holds; reading the envelope gives that type and a body and leaves what follows, and the
-- body gives the id.
pub decode_context_capsule-encode_context_capsule :
    (t id : ℕ) (buf rest : List ℕ)
    → t ≤ varint_max
    → id ≤ varint_max
    → (bytes body : List ℕ) × (encode_context_capsule t id buf ≡ ok (buf ++ bytes))
      × (read_envelope (bytes ++ rest) ≡ done (t, body) rest)
      × (decode_context_capsule body ≡ ok id)
unfolding encode_context_capsule decode_context_capsule
decode_context_capsule-encode_context_capsule t id buf rest ht h =
    let body = varint_bytes id in
    let short : length body ≤ varint_max = omega (arith, varint_short id) in
    (
      envelope_bytes t body,
      body,
      rw
          (
            write_varint-bytes buf t ht,
            varint_len-bytes id h,
            write_varint-bytes (buf ++ varint_bytes t) (length body) short,
            write_varint-bytes ((buf ++ varint_bytes t) ++ varint_bytes (length body)) id h,
          )
          (ap ok (simp append_assoc)),
      read_envelope-bytes t body rest ht short,
      ap whole_body (ap read_varint (sym (append-nil body)) ∙ read_varint-bytes id [] h),
    )
