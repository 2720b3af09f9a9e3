-- ===== src/Error.antt =====
-- Models src/error.rs: the error values that the decoders and the forwarding path return.
use straw.Common.{ℕ}
use straw.Ip.{IpAddr}

-- Errors of capsule and varint decoding.
pub data DecodeError : Type 0 where
  underflow : DecodeError
  invalid_ip_version : ℕ → DecodeError
  invalid_prefix_length : ℕ → ℕ → DecodeError
  invalid_var_int : DecodeError
  buffer_too_short : ℕ → ℕ → DecodeError
  trailing_bytes : ℕ → DecodeError

-- Errors of packet forwarding.
pub data ForwardingError : Type 0 where
  malformed_packet : ForwardingError
  source_address_violation : IpAddr → ForwardingError
  ttl_expired : ForwardingError
  link_local_drop : ForwardingError
  mtu_exceeded : ForwardingError
  no_route : ForwardingError
  not_allowed : IpAddr → ForwardingError
  congested : ForwardingError
  rate_limited : ForwardingError
