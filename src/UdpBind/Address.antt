-- ===== src/UdpBind/Address.antt =====
-- Models the address codec of src/udp_bind/context.rs: version, address and port.
use straw.Common.{
  ℕ, ◌<◌, ◌^◌, ◌≡◌, ap, ◌∙◌, List, ◌∷◌, ◌++◌, append_assoc, length-append, ◌==◌, if◌then◌else◌,
  arith,
}
use straw.Error.{underflow, invalid_ip_version}
use straw.Ip.{IpAddr, v4, v6, IsAddr, be_value, be_bytes, octets}
use straw.Ip.Octets.{be_value-be_bytes, length-be_bytes}
use straw.Ip.Socket.{SocketAddr, IsSocketAddr}
use straw.Buffer.{Reader, done, pure, ◌>>=◌, ◌>>◌, require, throw, copy_to_bytes, get_u8 as take_u8}
use straw.Buffer.Laws
use straw.Buffer.Laws.{require-enough, >>=-done}

-- The bytes that `put_addr` appends.
unfoldable pub addr_bytes : SocketAddr → List ℕ
addr_bytes addr =
    let port = be_bytes 2 addr.port in
    elim addr.ip [ v4 a ↦ 4 ∷ octets (v4 a) ++ port | v6 a ↦ 6 ∷ octets (v6 a) ++ port ]

unfoldable pub put_addr : List ℕ → SocketAddr → List ℕ
unfolding addr_bytes
put_addr buf addr = buf ++ addr_bytes addr

unfoldable pub get_u8 : Reader ℕ
get_u8 = do require 1 (λ _. underflow); take_u8

unfoldable pub get_slice : ℕ → Reader (List ℕ)
get_slice n = do require n (λ _. underflow); copy_to_bytes n

unfoldable pub get_port : IpAddr → Reader SocketAddr
get_port ip = do
  require 2 (λ _. underflow)
  o ← copy_to_bytes 2
  pure (record { ip = ip; port = be_value o })

-- One arm of the match on the version, and the port.
unfoldable pub get_ip : ℕ → (ℕ → IpAddr) → Reader SocketAddr
unfolding get_slice get_port
get_ip width make = do o ← get_slice width; get_port (make (be_value o))

unfoldable pub get_addr : ℕ → Reader SocketAddr
unfolding get_ip
get_addr version =
    if version == 4
    then get_ip 4 v4
    else if version == 6
    then get_ip 16 v6
    else throw (invalid_ip_version version)

get_slice-bytes :
    (w n : ℕ) (rest : List ℕ) → get_slice w (be_bytes w n ++ rest) ≡ done (be_bytes w n) rest
unfolding get_slice
get_slice-bytes w n rest =
    require-enough w (λ _. underflow) _ _
      (omega (arith, length-append (be_bytes w n) rest, length-be_bytes w n))
    ∙ Laws.copy_to_bytes-append w (be_bytes w n) rest (length-be_bytes w n)

get_port-bytes :
    (ip : IpAddr) (port : ℕ) (rest : List ℕ)
    → port < 2 ^ 16
    → get_port ip (be_bytes 2 port ++ rest) ≡ done (record { ip = ip; port = port }) rest
unfolding get_port
get_port-bytes ip port rest h =
    require-enough 2 (λ _. underflow)
      (copy_to_bytes 2 >>= λ o. pure (record { ip = ip; port = be_value o }))
      (be_bytes 2 port ++ rest)
      (omega (arith, length-append (be_bytes 2 port) rest, length-be_bytes 2 port))
    ∙ >>=-done (copy_to_bytes 2)
        (λ o. pure {A = SocketAddr} (record { ip = ip; port = be_value o }))
        (Laws.copy_to_bytes-append 2 (be_bytes 2 port) rest (length-be_bytes 2 port))
    ∙ ap (λ p. done (record { ip = ip; port = p }) rest) (be_value-be_bytes 2 port h)

get_ip-bytes :
    (w n port : ℕ) (make : ℕ → IpAddr) (rest : List ℕ)
    → n < 256 ^ w
    → port < 2 ^ 16
    → get_ip w make ((be_bytes w n ++ be_bytes 2 port) ++ rest)
      ≡ done (record { ip = make n; port = port }) rest
unfolding get_ip
get_ip-bytes w n port make rest hn hp =
    >>=-done (get_slice w) _ (
      ap (get_slice w) (append_assoc (be_bytes w n) (be_bytes 2 port) rest)
      ∙ get_slice-bytes w n (be_bytes 2 port ++ rest))
    ∙ ap (λ k. get_port (make k) (be_bytes 2 port ++ rest)) (be_value-be_bytes w n hn)
    ∙ get_port-bytes (make n) port rest hp

pub get_u8-bytes : (b : ℕ) (bs : List ℕ) → get_u8 (b ∷ bs) ≡ done b bs
unfolding get_u8
get_u8-bytes b bs = require-enough 1 (λ _. underflow) take_u8 (b ∷ bs) (omega arith)

read_ip-bytes :
    (ip : IpAddr) (port : ℕ) (rest : List ℕ)
    → IsAddr ip
    → port < 2 ^ 16
    → let addr : SocketAddr = record { ip = ip; port = port } in
      (get_u8 >>= get_addr) (addr_bytes addr ++ rest) ≡ done addr rest
unfolding get_addr addr_bytes octets
read_ip-bytes (v4 a) port rest ha hp =
    >>=-done get_u8 get_addr (get_u8-bytes _ _) ∙ get_ip-bytes 4 a port v4 rest ha hp
read_ip-bytes (v6 a) port rest ha hp =
    >>=-done get_u8 get_addr (get_u8-bytes _ _) ∙ get_ip-bytes 16 a port v6 rest ha hp

-- The version byte, and then the address, read what `put_addr` wrote.
pub get_addr-bytes :
    (addr : SocketAddr) (rest : List ℕ)
    → IsSocketAddr addr
    → (get_u8 >>= get_addr) (addr_bytes addr ++ rest) ≡ done addr rest
get_addr-bytes addr rest (ha, hp) = read_ip-bytes addr.ip addr.port rest ha hp
