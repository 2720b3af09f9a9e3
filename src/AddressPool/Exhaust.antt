-- ===== src/AddressPool/Exhaust.antt =====
-- That src/address_pool.rs refuses an address only when the pool is used up.
use straw.Common.{
  ℕ, zero, suc, ◌+◌, ◌-◌, ◌^◌, ◌≤◌, ◌<◌, ◌≡◌, ◌⊎◌, inl, inr, refl, List, [], ◌∷◌, Bool, true, false,
  leb, length, Bool-cases, Option-cases, Option, none, some, arith,
}
use straw.Ip.{IpAddr, v4}
use straw.Ip.Nets.{IpNets}
use straw.Ip.Table.{find}
use straw.AddressPool.{
  Pool, AddressPool, next_fresh, next, next_unallocated, base_of, stop_v4, assigned_v4, grant,
  allocate_v4,
}

-- The search ends where the range stops, or with an address and a cursor further on.
data FreshEnd (stop : ℕ → Bool) (cursor : ℕ) : Option ℕ × ℕ → Type 0 where
  stopped : (c : ℕ) → stop c ≡ true → FreshEnd stop cursor (none, c)
  moved : (a last : ℕ) → cursor ≤ last → stop last ≡ false → FreshEnd stop cursor (some a, suc last)

later :
    (stop : ℕ → Bool) (cursor : ℕ) (end : Option ℕ × ℕ)
    → FreshEnd stop (suc cursor) end
    → FreshEnd stop cursor end
later stop cursor _ (stopped c h) = stopped c h
later stop cursor _ (moved a last le h) = moved a last (omega arith) h

-- Three rounds are enough for the two that are skipped.
next_fresh-FreshEnd :
    (rounds : ℕ) (stop : ℕ → Bool) (base cursor : ℕ)
    → 3 ≤ rounds + cursor
    → 0 < rounds
    → FreshEnd stop cursor (next_fresh rounds stop base cursor)
unfolding next_fresh
next_fresh-FreshEnd zero stop base cursor enough some_left = absurd (omega arith)
next_fresh-FreshEnd (suc rounds) stop base cursor enough some_left =
    elim (Bool-cases (stop cursor)) [
      | inl at_end ↦ rw (at_end, next_fresh) (stopped cursor at_end)
      | inr inside ↦ elim (Bool-cases (leb (suc cursor) 2)) [
        | inl reserved ↦
            rw (inside, reserved, next_fresh)
              (later stop cursor _
                (next_fresh-FreshEnd rounds stop base (suc cursor) (omega arith) (ground arith)))
        | inr usable ↦
            rw (inside, usable, next_fresh) (moved (base + cursor) cursor (omega arith) inside)
      ]
    ]

-- Nothing released is left, and the cursor stands where the range stops.
pub UsedUp : (nets : IpNets) → (nets.IpNet → ℕ → Bool) → Pool nets → Type 0
UsedUp nets stop pool = (pool.free ≡ []) × (stop pool.net pool.cursor ≡ true)

module _ (nets : IpNets) (stop : nets.IpNet → ℕ → Bool) (limit : nets.IpNet → ℕ)
    (bounded : (net : nets.IpNet) (c : ℕ) → stop net c ≡ false → c < limit net) where
  measure : Pool nets → ℕ
  measure pool = length pool.free + (limit pool.net - pool.cursor)

  -- `next` ends with a pool used up, or with less left.
  NextEnd : Pool nets → Option ℕ × Pool nets → Type 0
  NextEnd pool end =
      ((end.0 ≡ none) × UsedUp nets stop end.1)
      ⊎ ((a : ℕ) × (end.0 ≡ some a) × (measure end.1 < measure pool))

  FreshEnd-NextEnd :
      (net : nets.IpNet) (cursor : ℕ) (end : Option ℕ × ℕ)
      → FreshEnd (stop net) cursor end
      → NextEnd
          (record { net = net; cursor = cursor; free = [] })
          (end.0, record { net = net; cursor = end.1; free = [] })
  unfolding NextEnd UsedUp measure
  FreshEnd-NextEnd net cursor _ (stopped c h) = inl (refl, (refl, h))
  FreshEnd-NextEnd net cursor _ (moved a last le h) =
      inr (a, refl, omega (arith, bounded net last h))

  next-free :
      (net : nets.IpNet) (cursor : ℕ) (free : List ℕ)
      → let pool : Pool nets = record { net = net; cursor = cursor; free = free } in
        NextEnd pool (next nets stop pool)
  unfolding next
  next-free net cursor [] =
      FreshEnd-NextEnd net cursor _
        (next_fresh-FreshEnd 3 (stop net) (base_of nets net) cursor (omega arith) (omega arith))
  next-free net cursor (a ∷ rest) = unfold NextEnd measure in inr (a, refl, omega arith)

  next-NextEnd : (pool : Pool nets) → NextEnd pool (next nets stop pool)
  next-NextEnd pool = next-free pool.net pool.cursor pool.free

  -- The end of the search: an address, or a pool used up.
  Searched : Option ℕ × Pool nets → Type 0
  Searched (none, pool) = UsedUp nets stop pool
  Searched (some a, pool) = Unit {0}

  next_unallocated-Searched :
      (rounds : ℕ) (to_ip : ℕ → IpAddr) (allocated : List (IpAddr × ℕ)) (pool : Pool nets)
      → measure pool < rounds
      → Searched (next_unallocated nets rounds stop to_ip allocated pool)
  unfolding next_unallocated NextEnd
  next_unallocated-Searched zero to_ip allocated pool h = absurd (omega arith)
  next_unallocated-Searched (suc rounds) to_ip allocated pool h = elim (next-NextEnd pool) [
    | inl (absent, used) ↦ rw (absent, next_unallocated) (unfold Searched in used)
    | inr (a, found, less) ↦ elim (Option-cases (find allocated (to_ip a))) [
      | inl free ↦ rw (found, free, next_unallocated) (unfold Searched in tt)
      | inr (holder, held) ↦
          rw (found, held, next_unallocated)
            (next_unallocated-Searched rounds to_ip allocated (next nets stop pool).1 (omega arith))
    ]
  ]

  Searched-UsedUp :
      (end : Option ℕ × Pool nets) → Searched end → end.0 ≡ none → UsedUp nets stop end.1
  unfolding Searched
  Searched-UsedUp (none, pool) h e = h
  Searched-UsedUp (some a, pool) h e = absurd (ground (arith, e))

module _ (nets : IpNets) where
  -- Every address that the IPv4 pool hands out of itself is taken.
  stop_v4-bound : (net : nets.IpNet) (c : ℕ) → stop_v4 nets net c ≡ false → c < 2 ^ 32
  unfolding stop_v4
  stop_v4-bound net c h = ground (arith, h)

  grant-none :
      (self : AddressPool nets) (session : ℕ) (o : Option ℕ)
      → (grant nets self session (assigned_v4 nets) o).0 ≡ none
      → (o ≡ none) × ((grant nets self session (assigned_v4 nets) o).1 ≡ self)
  unfolding grant
  grant-none self session none h = (refl, refl)
  grant-none self session (some a) h = absurd (ground (arith, h))

  -- Where `allocate_v4` gives no address, the pool has no released address left, and the address at its
  -- cursor is not below the broadcast address, or is past the address space.
  pub allocate_v4-UsedUp :
      (self : AddressPool nets) (session : ℕ)
      → (allocate_v4 nets self session).0 ≡ none
      → UsedUp nets (stop_v4 nets) (allocate_v4 nets self session).1.v4_pool
  unfolding allocate_v4
  allocate_v4-UsedUp self session h =
      let rounds = length self.v4_pool.free + (2 ^ 32 + 1) in
      let limit = λ (net : nets.IpNet). 2 ^ 32 in
      let end = next_unallocated nets rounds (stop_v4 nets) v4 self.allocated self.v4_pool in
      let searched =
        next_unallocated-Searched nets (stop_v4 nets) limit stop_v4-bound rounds v4 self.allocated
          self.v4_pool (unfold measure in omega arith) in
      let (absent, same) = grant-none (record self { v4_pool = end.1 }) session end.0 h in
      rw same (Searched-UsedUp nets (stop_v4 nets) limit stop_v4-bound end searched absent)
