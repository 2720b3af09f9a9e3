-- ===== src/UdpBind/Context/Datagrams.antt =====
-- The datagrams of src/udp_bind/context.rs: written and read back, and which remotes they reach.
use mathlib.Core.Path.{subst}
use straw.Buffer.Laws.{>>=-eq-done, Read-cases}
use straw.Common.{
  map_err, and_then, expect, unwrap, ℕ, ◌≤◌, ◌≡◌, refl, sym, ap, ◌∙◌, List, [], ◌∷◌, ◌++◌,
  append_assoc, Bool, true, Bool-cases, inl, inr, ◌==◌, none, some, Option-cases, Result, ok, err,
  panic, get, arith,
}
use straw.Error.{DecodeError}
use straw.Ip.Socket.{SocketAddr, IsSocketAddr, same_addr, same_addr_refl}
use straw.Varint.{varint_max, read_varint, write_varint}
use straw.Varint.Shape.{varint_bytes, write_varint-bytes}
use straw.Varint.Laws.{read_varint-bytes}
use straw.Buffer.{pure, done, ◌>>=◌}
use straw.UdpBind.Address.{put_addr, addr_bytes, get_addr, get_u8, get_addr-bytes}
use straw.UdpBind.Context.{
  encode_uncompressed_body, decode_uncompressed_body, decode, Binding, compressed, uncompressed,
  ContextTable, ContextError, BoundDatagram, unknown, binding, is_compressed, is_uncompressed,
  find_id, compressed_context_for, uncompressed_context, decode_bound, decode_datagram,
  encode_datagram,
}

-- A datagram to `remote` can go over a context with this binding.
abbrev pub Reaches : Binding → SocketAddr → Type 0
Reaches uncompressed remote = IsSocketAddr remote
Reaches (compressed addr) remote = addr ≡ remote

-- What comes between the id and the payload.
abbrev prefix : Binding → SocketAddr → List ℕ
prefix uncompressed remote = addr_bytes remote
prefix (compressed addr) remote = []

module _ (self : ContextTable) (id : ℕ) (remote : SocketAddr) (payload : List ℕ) where
  encoded :
      (b : Binding)
      → id ≤ varint_max
      → binding self id ≡ some b
      → encode_datagram self id remote payload
        ≡ ok (varint_bytes id ++ (prefix b remote ++ payload))
  unfolding encode_datagram put_addr
  encoded uncompressed h e =
      rw (write_varint-bytes [] id h, e)
        (ap ok (append_assoc (varint_bytes id) (addr_bytes remote) payload))
  encoded (compressed addr) h e = rw (write_varint-bytes [] id h, e) refl

  decoded :
      (b : Binding)
      → binding self id ≡ some b
      → Reaches b remote
      → decode_bound self id (prefix b remote ++ payload)
        ≡ ok (record { context_id = id; remote = remote; payload = payload })
  unfolding decode_bound
  decoded uncompressed e h = rw (e, decode_bound, get_addr-bytes remote payload h) refl
  decoded (compressed addr) e h =
      rw (e, decode_bound)
        (ap (λ r. ok (record { context_id = id; remote = r; payload = payload })) h)

  -- On an active context whose id fits a varint, and that is bound to the remote or is uncompressed
  -- with the remote's address and port in range, `encode_datagram` gives bytes that
  -- `decode_datagram` reads back as the same id, remote and payload.
  pub decode_datagram-encode_datagram :
      (b : Binding)
      → id ≤ varint_max
      → binding self id ≡ some b
      → Reaches b remote
      → (bytes : List ℕ) × (encode_datagram self id remote payload ≡ ok bytes)
        × (decode_datagram self bytes
            ≡ ok (record { context_id = id; remote = remote; payload = payload }))
  unfolding decode_datagram
  decode_datagram-encode_datagram b h e hr = (
    varint_bytes id ++ (prefix b remote ++ payload),
    encoded b h e,
    rw (read_varint-bytes id (prefix b remote ++ payload) h) (decoded b e hr),
  )

find_id-get :
    (p : Binding → Bool) (m : List (ℕ × Binding)) (id : ℕ) (b : Binding)
    → get m id ≡ some b
    → p b ≡ true
    → (k : ℕ) × (find_id p m ≡ some k)
unfolding find_id get
find_id-get p [] id b e h = absurd (cc)
find_id-get p ((j, c) ∷ m) id b e h = elim (Bool-cases (p c)) [
  | inl q ↦ (j, rw q refl)
  | inr q ↦ elim (Bool-cases (j == id)) [
    | inl s ↦ absurd (ground arith)
    | inr s ↦ rw q (find_id-get p m id b (ground arith) h)
  ]
]

abbrev remote_or : SocketAddr → Result ContextError BoundDatagram → SocketAddr
remote_or r (ok d) = d.remote
remote_or r (err e) = r
remote_or r panic = r

module _ (self : ContextTable) (hu : uncompressed_context self ≡ none) where
  bound_remote :
      (id : ℕ) (rest : List ℕ) (d : BoundDatagram) (b : Binding)
      → binding self id ≡ some b
      → decode_bound self id rest ≡ ok d
      → (k : ℕ) × (compressed_context_for self d.remote ≡ some k)
  unfolding decode_bound compressed_context_for uncompressed_context
  bound_remote id rest d uncompressed e h =
      let (k, found) = find_id-get is_uncompressed self.contexts id uncompressed e refl in
      absurd (cc)
  bound_remote id rest d (compressed r) e h =
      let read : BoundDatagram = record { context_id = id; remote = r; payload = rest } in
      let made : ◌≡◌ {A = Result ContextError BoundDatagram} (ok read) (ok d) =
        sym (rw (e, decode_bound) refl) ∙ h in
      let same : r ≡ d.remote = ap (remote_or r) made in
      find_id-get (is_compressed d.remote) self.contexts id (compressed r) e
        (subst (λ x. same_addr r x ≡ true) same (same_addr_refl r))

  unknown_bound :
      (id : ℕ) (rest : List ℕ)
      → binding self id ≡ none
      → decode_bound self id rest ≡ err (unknown id)
  unfolding decode_bound
  unknown_bound id rest n = rw (n, decode_bound) refl

  -- While no context is uncompressed, a datagram decodes only to a remote that has a compressed
  -- context.
  pub decode_datagram_firewall :
      (buf : List ℕ) (d : BoundDatagram)
      → decode_datagram self buf ≡ ok d
      → (id : ℕ) × (compressed_context_for self d.remote ≡ some id)
  unfolding decode_datagram
  decode_datagram_firewall buf d e = elim (Read-cases (read_varint buf)) [
    | inl (id, rest, q) ↦ elim (Option-cases (binding self id)) [
      | inl n ↦ absurd (ground (arith, q, e, unknown_bound id rest n))
      | inr (b, s) ↦ bound_remote id rest d b s (ground (arith, q, e))
    ]
    | inr (inl (x, rest, q)) ↦ absurd (ground (arith, q, e))
    | inr (inr q) ↦ absurd (ground (arith, q, e))
  ]

decode_bound_uncompressed :
    (self : ContextTable) (id : ℕ) (mid rest : List ℕ) (from : SocketAddr)
    → binding self id ≡ some uncompressed
    → (get_u8 >>= get_addr) mid ≡ done from rest
    → decode_bound self id mid ≡ ok (record { context_id = id; remote = from; payload = rest })
unfolding decode_bound
decode_bound_uncompressed self id mid rest from e h = rw (e, decode_bound, h) refl

put_after :
    (remote : SocketAddr) (payload : List ℕ) (r : Result DecodeError (List ℕ))
    → ◌≡◌ {A = Result ContextError (List ℕ)}
        (and_then (expect r) (λ buf. ok (put_addr buf remote ++ payload)))
        (map_err decode (and_then (unwrap r) (λ buf. ok (put_addr buf remote ++ payload))))
put_after remote payload (ok a) = refl
put_after remote payload (err x) = refl
put_after remote payload panic = refl

-- On an id that a table binds uncompressed, the framing without a table writes what
-- `encode_datagram` writes, and what it reads from a body is what `decode_datagram` reads.
pub uncompressed_body_lem :
    (self : ContextTable) (id : ℕ) (remote : SocketAddr) (payload body rest : List ℕ)
    (from : SocketAddr)
    → binding self id ≡ some uncompressed
    → decode_uncompressed_body body ≡ done (id, from) rest
    → (encode_datagram self id remote payload
        ≡ map_err decode (encode_uncompressed_body id remote payload))
      × (decode_datagram self body ≡ ok (record { context_id = id; remote = from; payload = rest }))
unfolding encode_datagram encode_uncompressed_body decode_datagram decode_uncompressed_body
    decode_bound
uncompressed_body_lem self id remote payload body rest from e h =
    let (k, mid, q, h2) =
      >>=-eq-done read_varint (λ id. (get_u8 >>= get_addr) >>= λ remote. pure (id, remote)) body
        h in
    let (r, left, q2, h3) = >>=-eq-done (get_u8 >>= get_addr) (λ remote. pure (k, remote)) mid h2 in
    let same : (k ≡ id) × (r ≡ from) × (left ≡ rest) = (cc, cc, cc) in
    (
      rw e (put_after remote payload (write_varint [] id)),
      rw q (
          decode_bound_uncompressed self k mid left r (ap (binding self) same.0 ∙ e) q2
          ∙ ap ok (λ i. record { context_id = same.0 i; remote = same.1 i; payload = same.2 i })),
    )
