-- ===== src/Capsule/Address.antt =====
-- Models the helpers of src/capsule/address_assign.rs that the address capsules share.
use mathlib.Core.Path.{subst}
use straw.Common.{
  ℕ, ◌+◌, ◌≤◌, ◌<◌, ◌^◌, ◌≡◌, ap, ◌∙◌, length-append, ◌≢◌, List, [], ◌∷◌, ◌++◌, ◌==◌, ltb,
  if◌then◌else◌, Result, ok, err, panic, arith,
}
use straw.Error.{
  DecodeError, underflow, invalid_ip_version, invalid_prefix_length, buffer_too_short,
}
use straw.Ip.{IpAddr, v4, v6, IsAddr, be_value, be_bytes, octets}
use straw.Ip.Octets.{length-be_bytes, be_value-be_bytes, be_value-lt}
use straw.Buffer.{Reader, done, pure, ◌>>=◌, ◌>>◌, require, throw, copy_to_bytes, get_u8, lift}
use straw.Buffer.Laws
use straw.Buffer.Laws.{
  IsLocal, IsTotal, Takes, Yields, >>=-IsLocal, >>=-Takes, >>=-IsTotalFrom, require-enough,
  >>=-done, >>=-Yields,
}

-- One arm of the match on the version: `width` octets.
read_octets : ℕ → (ℕ → IpAddr) → Reader IpAddr
read_octets width make = do
  require width (buffer_too_short width)
  o ← copy_to_bytes width
  pure (make (be_value o))

unfoldable pub decode_ip_address : ℕ → Reader IpAddr
unfolding read_octets
decode_ip_address ip_version =
    if ip_version == 4
    then read_octets 4 v4
    else if ip_version == 6
    then read_octets 16 v6
    else throw (invalid_ip_version ip_version)

unfoldable pub validate_prefix_length : ℕ → ℕ → Result DecodeError (Unit {0})
validate_prefix_length ip_version prefix_len =
    if ip_version == 4
    then (if ltb 32 prefix_len then err (invalid_prefix_length ip_version prefix_len) else ok tt)
    else if ip_version == 6
    then (if ltb 128 prefix_len then err (invalid_prefix_length ip_version prefix_len) else ok tt)
    else err (invalid_ip_version ip_version)

-- The version byte names the address's family.
abbrev pub version_of : IpAddr → ℕ
version_of (v4 a) = 4
version_of (v6 a) = 6

abbrev pub max_prefix : IpAddr → ℕ
max_prefix (v4 a) = 32
max_prefix (v6 a) = 128

read_octets-IsLocal : (w : ℕ) (make : ℕ → IpAddr) → IsLocal (read_octets w make)
unfolding read_octets
read_octets-IsLocal w make = >>=-IsLocal _ _ (Laws.require-IsLocal w (buffer_too_short w)) (λ _.
    >>=-IsLocal (copy_to_bytes w) _ (Laws.copy_to_bytes-IsLocal w)
      (λ o. Laws.pure-IsLocal (make (be_value o))))

read_octets-Takes : (w : ℕ) (make : ℕ → IpAddr) → Takes w (read_octets w make)
unfolding read_octets
read_octets-Takes w make bs a rest h = omega (
  arith,
  >>=-Takes _ _ 0 (w + 0) (Laws.require-Takes w (buffer_too_short w))
      (λ _.
        >>=-Takes (copy_to_bytes w) _ w 0 (Laws.copy_to_bytes-Takes w)
          (λ o. Laws.pure-Takes (make (be_value o))))
      bs a rest h,
)

read_octets-IsTotal : (w : ℕ) (make : ℕ → IpAddr) → IsTotal (read_octets w make)
unfolding read_octets
read_octets-IsTotal w make = Laws.require-IsTotal w (buffer_too_short w) _ (
    >>=-IsTotalFrom (copy_to_bytes w) _ w (Laws.copy_to_bytes-IsTotalFrom w)
      (λ o. Laws.pure-IsTotal (make (be_value o))))

pub decode_ip_address-IsLocal : (ver : ℕ) → IsLocal (decode_ip_address ver)
unfolding decode_ip_address
decode_ip_address-IsLocal ver =
    Laws.if-IsLocal _ _ _ (read_octets-IsLocal 4 v4)
      (Laws.if-IsLocal _ _ _ (read_octets-IsLocal 16 v6) (Laws.throw-IsLocal _))

pub decode_ip_address-Takes : (ver : ℕ) → Takes 4 (decode_ip_address ver)
unfolding decode_ip_address
decode_ip_address-Takes ver = Laws.if-Takes 4 _ _ _ (read_octets-Takes 4 v4) (
    Laws.if-Takes 4 _ _ _ (Laws.Takes-less 16 4 _ (omega arith) (read_octets-Takes 16 v6))
      (Laws.throw-Takes 4 _))

pub decode_ip_address-IsTotal : (ver : ℕ) → IsTotal (decode_ip_address ver)
unfolding decode_ip_address
decode_ip_address-IsTotal ver =
    Laws.if-IsTotal _ _ _ (read_octets-IsTotal 4 v4)
      (Laws.if-IsTotal _ _ _ (read_octets-IsTotal 16 v6) (Laws.throw-IsTotal _))

read_octets-Yields :
    (P : IpAddr → Type 0) (w : ℕ) (make : ℕ → IpAddr)
    → ((n : ℕ) → n < 256 ^ w → P (make n))
    → Yields P (read_octets w make)
unfolding read_octets
read_octets-Yields P w make hp =
    >>=-Yields _ _ (λ _. Unit {0}) P (Laws.require-Yields w (buffer_too_short w))
      (λ _ _. >>=-Yields (copy_to_bytes w) _ _ P (Laws.copy_to_bytes-Yields w) (λ o h.
        Laws.pure-Yields P _ (hp _ (subst (λ k. be_value o < 256 ^ k) h.1 (be_value-lt o h.0)))))

-- The decoded address is of the version's family and in range.
pub decode_ip_address-Yields :
    (ver : ℕ) → Yields (λ a. IsAddr a × (version_of a ≡ ver)) (decode_ip_address ver)
unfolding decode_ip_address
decode_ip_address-Yields ver =
    Laws.if-Yields _ (ver == 4) _ _ (λ e. read_octets-Yields _ 4 v4 (λ n lt. (lt, ground arith)))
      (λ _.
        Laws.if-Yields _ (ver == 6) _ _
          (λ e. read_octets-Yields _ 16 v6 (λ n lt. (lt, ground arith)))
          (λ _. Laws.throw-Yields _ _))

read_octets-be_bytes :
    (w n : ℕ) (make : ℕ → IpAddr) (rest : List ℕ)
    → n < 256 ^ w
    → read_octets w make (be_bytes w n ++ rest) ≡ done (make n) rest
unfolding read_octets
read_octets-be_bytes w n make rest h =
    require-enough w (buffer_too_short w) _ _
      (omega (arith, length-append (be_bytes w n) rest, length-be_bytes w n))
    ∙ >>=-done (copy_to_bytes w) _
        (Laws.copy_to_bytes-append w (be_bytes w n) rest (length-be_bytes w n))
    ∙ ap (λ k. done (make k) rest) (be_value-be_bytes w n h)

pub decode_ip_address-octets :
    (a : IpAddr) (rest : List ℕ)
    → IsAddr a
    → decode_ip_address (version_of a) (octets a ++ rest) ≡ done a rest
unfolding decode_ip_address octets
decode_ip_address-octets (v4 a) rest h = read_octets-be_bytes 4 a v4 rest h
decode_ip_address-octets (v6 a) rest h = read_octets-be_bytes 16 a v6 rest h

pub validate_prefix_length_iff :
    (a : IpAddr) (p : ℕ)
    → (p ≤ max_prefix a → validate_prefix_length (version_of a) p ≡ ok tt)
      × (validate_prefix_length (version_of a) p ≡ ok tt → p ≤ max_prefix a)
unfolding validate_prefix_length
validate_prefix_length_iff (v4 a) p = (λ h. ground arith, λ h. ground arith)
validate_prefix_length_iff (v6 a) p = (λ h. ground arith, λ h. ground arith)

pub validate_prefix_length-ne-panic : (ver p : ℕ) → validate_prefix_length ver p ≢ panic
unfolding validate_prefix_length
validate_prefix_length-ne-panic ver p = ground arith

-- The fields behind the request id: version, address and prefix length. Assigned and requested
-- addresses share this text.
unfoldable pub decode_fields : Reader (ℕ × IpAddr × ℕ)
decode_fields = do
  require 1 (λ _. underflow)
  ip_version ← get_u8
  ip_address ← decode_ip_address ip_version
  require 1 (λ _. underflow)
  prefix_length ← get_u8
  lift (validate_prefix_length ip_version prefix_length)
  pure (ip_version, ip_address, prefix_length)

-- The fields that an encoder may be given.
abbrev pub IsFields : ℕ × IpAddr × ℕ → Type 0
IsFields (ip_version, ip_address, prefix_length) =
    (version_of ip_address ≡ ip_version)
    × IsAddr ip_address
    × (prefix_length ≤ max_prefix ip_address)

abbrev pub field_bytes : ℕ → IpAddr → ℕ → List ℕ
field_bytes ip_version ip_address prefix_length =
    ip_version ∷ (octets ip_address ++ prefix_length ∷ [])
