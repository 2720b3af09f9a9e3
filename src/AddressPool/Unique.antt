-- ===== src/AddressPool/Unique.antt =====
-- That src/address_pool.rs gives no address to two sessions.
use straw.Common.{
  ℕ, zero, suc, ◌+◌, ◌^◌, ◌≡◌, ◌≢◌, inl, inr, refl, ap, sym, ◌∙◌, List, Bool, true, ◌==◌, length,
  Bool-cases, Option-cases, Option, none, some, arith,
}
use straw.Ip.{IpAddr, v4, v6}
use straw.Ip.Nets.{IpNets}
use straw.Ip.Table.{find, find-insert_ip, find-insert_ip_other}
use straw.Capsule.{AssignedAddress, RequestedAddress}
use straw.AddressPool.{
  Pool, AddressPool, next, next_unallocated, stop_v4, stop_v6, record_allocation, assigned_v4,
  assigned_v6, grant, allocate_v4, allocate_from_v6, allocate_v6, is_available,
  try_allocate_specific, is_specific, allocate_by_version, with_request_id, allocate_any,
  allocate_for_request,
}

module _ (nets : IpNets) where
  -- What a grant says: the address was nobody's, it is the session's now, and all others are whose they
  -- were.
  pub record Grants (self : AddressPool nets) (session : ℕ) (addr : IpAddr)
      (self' : AddressPool nets) : Type 0 where
    pub was_free : find self.allocated addr ≡ none
    pub is_held : find self'.allocated addr ≡ some session
    pub kept :
        (other : IpAddr) → other ≢ addr → find self'.allocated other ≡ find self.allocated other

  -- An answer either grants its address, or nothing is held differently.
  pub Answered : AddressPool nets → ℕ → Option AssignedAddress × AddressPool nets → Type 0
  Answered self session (some assigned, self') = Grants self session assigned.ip_address self'
  Answered self session (none, self') = self'.allocated ≡ self.allocated

  record_allocation-Grants :
      (self start : AddressPool nets) (session : ℕ) (addr : IpAddr)
      → start.allocated ≡ self.allocated
      → find self.allocated addr ≡ none
      → Grants self session addr (record_allocation nets start session addr)
  unfolding record_allocation
  record_allocation-Grants self start session addr same free = record {
    was_free = free;
    is_held = find-insert_ip start.allocated addr session;
    kept = λ other h.
        find-insert_ip_other start.allocated addr session other h ∙ ap (λ m. find m other) same;
  }

  -- What `next_unallocated` finds is not allocated.
  Fresh : (ℕ → IpAddr) → List (IpAddr × ℕ) → Option ℕ × Pool nets → Type 0
  Fresh to_ip allocated (none, pool) = Unit {0}
  Fresh to_ip allocated (some a, pool) = find allocated (to_ip a) ≡ none

  next_unallocated-Fresh :
      (rounds : ℕ) (stop : nets.IpNet → ℕ → Bool) (to_ip : ℕ → IpAddr)
      (allocated : List (IpAddr × ℕ)) (pool : Pool nets)
      → Fresh to_ip allocated (next_unallocated nets rounds stop to_ip allocated pool)
  unfolding next_unallocated
  next_unallocated-Fresh zero stop to_ip allocated pool = unfold Fresh in tt
  next_unallocated-Fresh (suc rounds) stop to_ip allocated pool =
      elim (Option-cases (next nets stop pool).0) [
        | inl absent ↦ rw (absent, next_unallocated) (unfold Fresh in tt)
        | inr (a, found) ↦ elim (Option-cases (find allocated (to_ip a))) [
          | inl free ↦ rw (found, free, next_unallocated) (unfold Fresh in free)
          | inr (holder, held) ↦
              rw (found, held, next_unallocated)
                (next_unallocated-Fresh rounds stop to_ip allocated (next nets stop pool).1)
        ]
      ]

  grant-Answered :
      (self start : AddressPool nets) (session : ℕ) (to_ip : ℕ → IpAddr)
      (assigned : ℕ → AssignedAddress) (o : Option ℕ) (pool : Pool nets)
      → start.allocated ≡ self.allocated
      → ((a : ℕ) → to_ip a ≡ (assigned a).ip_address)
      → Fresh to_ip self.allocated (o, pool)
      → Answered self session (grant nets start session assigned o)
  unfolding grant Answered Fresh
  grant-Answered self start session to_ip assigned none pool same is fresh = same
  grant-Answered self start session to_ip assigned (some a) pool same is fresh =
      record_allocation-Grants self start session (assigned a).ip_address same
        (ap (λ x. find self.allocated x) (sym (is a)) ∙ fresh)

  allocate_v4-Answered :
      (self : AddressPool nets) (session : ℕ)
      → Answered self session (allocate_v4 nets self session)
  unfolding allocate_v4
  allocate_v4-Answered self session =
      let rounds = length self.v4_pool.free + (2 ^ 32 + 1) in
      let end = next_unallocated nets rounds (stop_v4 nets) v4 self.allocated self.v4_pool in
      grant-Answered self (record self { v4_pool = end.1 }) session v4 (assigned_v4 nets) end.0
        end.1 refl (λ a. refl)
        (next_unallocated-Fresh rounds (stop_v4 nets) v4 self.allocated self.v4_pool)

  allocate_from_v6-Answered :
      (self : AddressPool nets) (session : ℕ) (o : Option (Pool nets))
      → Answered self session (allocate_from_v6 nets self session o)
  unfolding allocate_from_v6
  allocate_from_v6-Answered self session none = unfold Answered in refl
  allocate_from_v6-Answered self session (some pool) =
      let rounds = length pool.free + (2 ^ 64 + 1) in
      let end = next_unallocated nets rounds (stop_v6 nets) v6 self.allocated pool in
      grant-Answered self (record self { v6_pool = some end.1 }) session v6 (assigned_v6 nets) end.0
        end.1 refl (λ a. refl) (next_unallocated-Fresh rounds (stop_v6 nets) v6 self.allocated pool)

  allocate_by_version-Answered :
      (self : AddressPool nets) (session version : ℕ)
      → Answered self session (allocate_by_version nets self session version)
  unfolding allocate_by_version allocate_v6
  allocate_by_version-Answered self session version = elim (Bool-cases (version == 4)) [
    | inl four ↦ rw (four, allocate_by_version) (allocate_v4-Answered self session)
    | inr other ↦ elim (Bool-cases (version == 6)) [
      | inl six ↦
          rw (other, six, allocate_by_version) (allocate_from_v6-Answered self session self.v6_pool)
      | inr neither ↦ rw (other, neither, allocate_by_version) (unfold Answered in refl)
    ]
  ]

  with_request_id-Answered :
      (self : AddressPool nets) (session id : ℕ) (end : Option AssignedAddress × AddressPool nets)
      → Answered self session end
      → Answered self session (with_request_id nets id end.0, end.1)
  unfolding Answered
  with_request_id-Answered self session id (none, self') h = h
  with_request_id-Answered self session id (some assigned, self') h = h

  is_available-free :
      (self : AddressPool nets) (addr : IpAddr)
      → is_available nets self addr ≡ true
      → find self.allocated addr ≡ none
  unfolding is_available
  is_available-free self addr h = elim (Option-cases (find self.allocated addr)) [
    | inl free ↦ free
    | inr (holder, held) ↦ absurd (ground (arith, h, held))
  ]

  -- A session that asks for an address either gets one that no session held, which is its own from then
  -- on, all others staying whose they were; or gets none, and no address changes hands.
  pub allocate_for_request-Answered :
      (self : AddressPool nets) (session : ℕ) (request : RequestedAddress)
      → Answered self session (allocate_for_request nets self session request)
  unfolding allocate_for_request try_allocate_specific allocate_any
  allocate_for_request-Answered self session request =
      elim (Bool-cases (is_specific nets request)) [
        | inr unspecific ↦ rw unspecific (
            with_request_id-Answered self session request.request_id _
              (allocate_by_version-Answered self session request.ip_version))
        | inl specific ↦ elim (Bool-cases (is_available nets self request.ip_address)) [
          | inr taken ↦
              rw (specific, taken)
                (with_request_id-Answered self session request.request_id _
                  (allocate_by_version-Answered self session request.ip_version))
          | inl available ↦
              rw (specific, available)
                (unfold Answered in
                  record_allocation-Grants self self session request.ip_address refl
                    (is_available-free self request.ip_address available))
        ]
      ]
