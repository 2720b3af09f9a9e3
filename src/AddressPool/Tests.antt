-- ===== src/AddressPool/Tests.antt =====
-- Runs of src/address_pool.rs on 10.100.0.0/30 and fd00::/64.
use straw.Common.{◌≡◌, refl, [], ◌∷◌, none, some}
use straw.Ip.{v4, v6, same_ip}
use straw.Ip.Nets.Sample.{prefixes, prefix_contains, network_of, broadcast_of}
use straw.Ip.Table.{find}
use straw.Capsule.{RequestedAddress}
use straw.AddressPool.{
  AddressPool, next_fresh, next, next_unallocated, stop_v4, grant, record_allocation, allocate_v4,
  in_pool, ipv4_gateway, is_available, try_allocate_specific, is_specific, allocate_for_request,
}
use straw.AddressPool.Unique.{Answered, allocate_for_request-Answered}
use straw.AddressPool.Exhaust.{UsedUp, allocate_v4-UsedUp}

abbrev pool : AddressPool prefixes
pool = record {
  v4_pool = record { net = (v4 0x0a640000, 30); cursor = 0; free = [] };
  v6_pool =
      some (record { net = (v6 0xfd000000000000000000000000000000, 64); cursor = 0; free = [] });
  allocations = [];
  allocated = [];
}

-- Its one host is held.
abbrev full : AddressPool prefixes
full = record pool {
  v4_pool = record { net = (v4 0x0a640000, 30); cursor = 3; free = [] };
  allocations = (0, v4 0x0a640002 ∷ []) ∷ [];
  allocated = (v4 0x0a640002, 0) ∷ [];
}

first_host :
    (allocate_v4 prefixes pool 0).0
    ≡ some
        (record { request_id = 0; ip_version = 4; ip_address = v4 0x0a640002; prefix_length = 32 })
unfolding allocate_v4 next_unallocated next next_fresh stop_v4 network_of broadcast_of grant find
first_host = refl

none_left : (allocate_v4 prefixes full 4).0 ≡ none
unfolding allocate_v4 next_unallocated next next_fresh stop_v4 network_of broadcast_of grant
none_left = refl

allocate_v4-UsedUp_example :
    UsedUp prefixes (stop_v4 prefixes) (allocate_v4 prefixes full 4).1.v4_pool
allocate_v4-UsedUp_example = allocate_v4-UsedUp prefixes full 4 none_left

-- The IPv6 gateway, fd00::1, by its address.
abbrev gateway_request : RequestedAddress
gateway_request = record {
  request_id = 3;
  ip_version = 6;
  ip_address = v6 0xfd000000000000000000000000000001;
  prefix_length = 128;
}

gateway_given :
    (allocate_for_request prefixes pool 0 gateway_request).0
    ≡ some (record {
      request_id = 3;
      ip_version = 6;
      ip_address = v6 0xfd000000000000000000000000000001;
      prefix_length = 128;
    })
unfolding allocate_for_request try_allocate_specific is_available is_specific in_pool ipv4_gateway
    prefix_contains find same_ip record_allocation
gateway_given = refl

allocate_for_request-Answered_example :
    Answered prefixes pool 0 (allocate_for_request prefixes pool 0 gateway_request)
allocate_for_request-Answered_example =
    allocate_for_request-Answered prefixes pool 0 gateway_request
