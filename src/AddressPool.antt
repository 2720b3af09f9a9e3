-- ===== src/AddressPool.antt =====
-- Models src/address_pool.rs: which addresses sessions get. Each locked part of a method is one step, and
-- the methods run one after the other; sessions are known by their numbers, addresses by theirs.
mod Tests
pub mod Exhaust
pub mod Unique
use straw.Common.{
  ℕ, zero, suc, ◌+◌, ◌-◌, ◌^◌, min, List, [], ◌∷◌, ◌++◌, Bool, true, false, not, ◌&&◌, ◌||◌, ◌==◌,
  leb, ltb, length, if◌then◌else◌, Option, none, some, get, erase, insert,
}
use straw.Ip.{IpAddr, v4, v6, same_ip}
use straw.Ip.Kinds.{is_unspecified}
use straw.Ip.Nets.{IpNets}
use straw.Ip.Table.{find, insert_ip, erase_ip}
use straw.Capsule.{AssignedAddress, RequestedAddress}

-- `u32::from` and `u128::from`
abbrev pub number : IpAddr → ℕ
number (v4 a) = a
number (v6 a) = a

-- `BTreeSet::insert`; `pop_first` takes the first.
unfoldable pub insert_free : ℕ → List ℕ → List ℕ
insert_free a [] = a ∷ []
insert_free a (b ∷ free) =
    let rest = insert_free a free in
    if ltb a b then a ∷ b ∷ free else if a == b then b ∷ free else b ∷ rest

-- The loop of both `next` functions over the rounds left, until `stop` holds of the cursor: the address
-- found, and the cursor.
unfoldable pub next_fresh : ℕ → (ℕ → Bool) → ℕ → ℕ → Option ℕ × ℕ
next_fresh zero stop base cursor = (none, cursor)
next_fresh (suc rounds) stop base cursor =
    let rest = next_fresh rounds stop base (suc cursor) in
    if stop cursor
    then (none, cursor)
    else if leb (suc cursor) 2
    then rest
    else (some (base + cursor), suc cursor)

module _ (nets : IpNets) where
  -- `V4Pool` and `V6Pool`.
  pub record Pool : Type 0 where
    pub net : nets.IpNet
    pub cursor : ℕ
    pub free : List ℕ

  pub record AddressPool : Type 0 where
    pub v4_pool : Pool
    pub v6_pool : Option Pool
    pub allocations : List (ℕ × List IpAddr)
    pub allocated : List (IpAddr × ℕ)

  unfoldable pub new : nets.IpNet → Option nets.IpNet → AddressPool
  new ipv4 ipv6 = record {
    v4_pool = record { net = ipv4; cursor = 0; free = [] };
    v6_pool = elim ipv6 [
      | none ↦ none
      | some net ↦ some (record { net = net; cursor = 0; free = [] })
    ];
    allocations = [];
    allocated = [];
  }

  abbrev pub base_of : nets.IpNet → ℕ
  base_of net = number (nets.network net)

  -- `base.checked_add(cursor)` fails, or the broadcast address is reached.
  unfoldable pub stop_v4 : nets.IpNet → ℕ → Bool
  stop_v4 net cursor =
      leb (2 ^ 32) (base_of net + cursor)
      || leb (number (nets.broadcast net)) (base_of net + cursor)

  abbrev pub max_hosts : nets.IpNet → ℕ
  max_hosts net =
      if leb 128 (nets.prefix_len net) then 1 else 2 ^ min (128 - nets.prefix_len net) 64

  unfoldable pub stop_v6 : nets.IpNet → ℕ → Bool
  stop_v6 net cursor = leb (max_hosts net) cursor || leb (2 ^ 128) (base_of net + cursor)

  -- A released address first; the loop skips two cursors at most.
  unfoldable pub next : (nets.IpNet → ℕ → Bool) → Pool → Option ℕ × Pool
  next stop self = elim self.free [
    | a ∷ rest ↦ (some a, record self { free = rest })
    | [] ↦
        let (found, cursor) = next_fresh 3 (stop self.net) (base_of self.net) self.cursor in
        (found, record self { cursor = cursor })
  ]

  -- The loop of both `allocate` functions over the rounds left: past what is allocated.
  unfoldable pub next_unallocated :
      ℕ → (nets.IpNet → ℕ → Bool) → (ℕ → IpAddr) → List (IpAddr × ℕ) → Pool → Option ℕ × Pool
  next_unallocated zero stop to_ip allocated pool = (none, pool)
  next_unallocated (suc rounds) stop to_ip allocated pool =
      let (found, pool') = next stop pool in
      elim found [
        | none ↦ (none, pool')
        | some a ↦ elim (find allocated (to_ip a)) [
          | none ↦ (some a, pool')
          | some _ ↦ next_unallocated rounds stop to_ip allocated pool'
        ]
      ]

  unfoldable pub push_allocation : List (ℕ × List IpAddr) → ℕ → IpAddr → List (ℕ × List IpAddr)
  push_allocation allocations session addr = elim (get allocations session) [
    | none ↦ insert allocations session (addr ∷ [])
    | some addrs ↦ insert allocations session (addrs ++ addr ∷ [])
  ]

  unfoldable pub record_allocation : AddressPool → ℕ → IpAddr → AddressPool
  record_allocation self session addr = record self {
    allocated = insert_ip self.allocated addr session;
    allocations = push_allocation self.allocations session addr;
  }

  abbrev pub assigned_v4 : ℕ → AssignedAddress
  assigned_v4 a = record { request_id = 0; ip_version = 4; ip_address = v4 a; prefix_length = 32 }

  abbrev pub assigned_v6 : ℕ → AssignedAddress
  assigned_v6 a = record { request_id = 0; ip_version = 6; ip_address = v6 a; prefix_length = 128 }

  -- The end of both `allocate` functions: the address found is recorded.
  unfoldable pub grant :
      AddressPool → ℕ → (ℕ → AssignedAddress) → Option ℕ → Option AssignedAddress × AddressPool
  grant self session assigned none = (none, self)
  grant self session assigned (some a) =
      (some (assigned a), record_allocation self session (assigned a).ip_address)

  -- Each round takes a released address or moves the cursor, which `stop` bounds.
  unfoldable pub allocate_v4 : AddressPool → ℕ → Option AssignedAddress × AddressPool
  allocate_v4 self session =
      let (found, pool) =
        next_unallocated (length self.v4_pool.free + (2 ^ 32 + 1)) stop_v4 v4 self.allocated
          self.v4_pool in
      grant (record self { v4_pool = pool }) session assigned_v4 found

  unfoldable pub allocate_from_v6 :
      AddressPool → ℕ → Option Pool → Option AssignedAddress × AddressPool
  allocate_from_v6 self session none = (none, self)
  allocate_from_v6 self session (some pool) =
      let (found, pool) =
        next_unallocated (length pool.free + (2 ^ 64 + 1)) stop_v6 v6 self.allocated pool in
      grant (record self { v6_pool = some pool }) session assigned_v6 found

  unfoldable pub allocate_v6 : AddressPool → ℕ → Option AssignedAddress × AddressPool
  allocate_v6 self session = allocate_from_v6 self session self.v6_pool

  -- The gateways are the first hosts. `base + 1` overflows in Rust at the last address.
  unfoldable pub ipv4_gateway : AddressPool → ℕ × ℕ
  ipv4_gateway self = (base_of self.v4_pool.net + 1, nets.prefix_len self.v4_pool.net)

  unfoldable pub ipv6_gateway : AddressPool → Option (ℕ × ℕ)
  ipv6_gateway self = elim self.v6_pool [
    | none ↦ none
    | some pool ↦ some (base_of pool.net + 1, nets.prefix_len pool.net)
  ]

  unfoldable pub pool_nets : AddressPool → List nets.IpNet
  pool_nets self = elim self.v6_pool [
    | none ↦ self.v4_pool.net ∷ []
    | some pool ↦ self.v4_pool.net ∷ pool.net ∷ []
  ]

  unfoldable pub in_pool : AddressPool → IpAddr → Bool
  in_pool self (v4 a) =
      nets.net_contains self.v4_pool.net (v4 a)
      && (not (a == base_of self.v4_pool.net)
          && not (a == number (nets.broadcast self.v4_pool.net)))
  in_pool self (v6 a) = elim self.v6_pool [
    | none ↦ false
    | some pool ↦ nets.net_contains pool.net (v6 a)
  ]

  -- Whether the address is free for the asking.
  unfoldable pub is_available : AddressPool → IpAddr → Bool
  is_available self addr =
      in_pool self addr
      && (not (same_ip addr (v4 (ipv4_gateway self).0))
          && elim (find self.allocated addr) [ none ↦ true | some _ ↦ false ])

  unfoldable pub try_allocate_specific : AddressPool → ℕ → IpAddr → Bool × AddressPool
  try_allocate_specific self session addr =
      if is_available self addr then (true, record_allocation self session addr) else (false, self)

  abbrev pub full_prefix : IpAddr → ℕ
  full_prefix (v4 _) = 32
  full_prefix (v6 _) = 128

  unfoldable pub is_specific : RequestedAddress → Bool
  is_specific request =
      not (is_unspecified request.ip_address)
      && request.prefix_length == full_prefix request.ip_address

  unfoldable pub allocate_by_version : AddressPool → ℕ → ℕ → Option AssignedAddress × AddressPool
  allocate_by_version self session version =
      if version == 4
      then allocate_v4 self session
      else if version == 6
      then allocate_v6 self session
      else (none, self)

  abbrev pub with_request_id : ℕ → Option AssignedAddress → Option AssignedAddress
  with_request_id id none = none
  with_request_id id (some assigned) = some (record assigned { request_id = id })

  unfoldable pub allocate_any :
      AddressPool → ℕ → RequestedAddress → Option AssignedAddress × AddressPool
  allocate_any self session request =
      let (assigned, self) = allocate_by_version self session request.ip_version in
      (with_request_id request.request_id assigned, self)

  unfoldable pub allocate_for_request :
      AddressPool → ℕ → RequestedAddress → Option AssignedAddress × AddressPool
  allocate_for_request self session request =
      let (granted, self') = try_allocate_specific self session request.ip_address in
      if is_specific request && granted
      then (
        some (record {
          request_id = request.request_id;
          ip_version = request.ip_version;
          ip_address = request.ip_address;
          prefix_length = request.prefix_length;
        }),
        self',
      )
      else allocate_any self session request

  unfoldable pub release_one : AddressPool → IpAddr → AddressPool
  release_one self (v4 a) = record self {
    allocated = erase_ip self.allocated (v4 a);
    v4_pool = record self.v4_pool { free = insert_free a self.v4_pool.free };
  }
  release_one self (v6 a) = record self {
    allocated = erase_ip self.allocated (v6 a);
    v6_pool = elim self.v6_pool [
      | none ↦ none
      | some pool ↦ some (record pool { free = insert_free a pool.free })
    ];
  }

  unfoldable pub release_all : AddressPool → List IpAddr → AddressPool
  release_all self [] = self
  release_all self (addr ∷ addrs) = release_all (release_one self addr) addrs

  unfoldable pub release : AddressPool → ℕ → AddressPool
  release self session = elim (get self.allocations session) [
    | none ↦ self
    | some addrs ↦ release_all (record self { allocations = erase self.allocations session }) addrs
  ]
