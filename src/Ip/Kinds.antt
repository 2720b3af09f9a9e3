-- ===== src/Ip/Kinds.antt =====
-- The classes of addresses that Rust's standard library tells apart.
use straw.Common.{ℕ, ◌-◌, ◌/◌, ◌^◌, Bool, ◌==◌}
use straw.Ip.{IpAddr, v4, v6}

abbrev pub is_unspecified : IpAddr → Bool
is_unspecified (v4 a) = a == 0
is_unspecified (v6 a) = a == 0

-- 127.0.0.0/8 and ::1.
abbrev pub is_loopback : IpAddr → Bool
is_loopback (v4 a) = a / 2 ^ 24 == 127
is_loopback (v6 a) = a == 1

-- 224.0.0.0/4 and ff00::/8.
abbrev pub is_multicast : IpAddr → Bool
is_multicast (v4 a) = a / 2 ^ 28 == 14
is_multicast (v6 a) = a / 2 ^ 120 == 255

-- `Ipv4Addr::is_broadcast` and `Ipv4Addr::is_link_local`, 169.254.0.0/16.
abbrev pub is_broadcast_v4 : ℕ → Bool
is_broadcast_v4 a = a == 2 ^ 32 - 1

abbrev pub is_link_local_v4 : ℕ → Bool
is_link_local_v4 a = a / 2 ^ 16 == 0xa9fe

-- `segments()[0]`
abbrev pub first_segment : ℕ → ℕ
first_segment a = a / 2 ^ 112
