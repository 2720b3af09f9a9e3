-- ===== src/Forwarding/Limiter/Bounds.antt =====
-- How much the buckets of src/forwarding/limiter.rs let through.
use native.Mathlib.Nat.{mul-le-mul_left}
use straw.Common.{
  ap, max, ℕ, suc, ◌+◌, ◌-◌, ◌*◌, ◌/◌, ◌≤◌, ◌<◌, ◌≡◌, Bool, List, [], ◌∷◌, if◌then◌else◌, arith,
  All,
}
use straw.Forwarding.Limiter.{
  RateLimits, BucketState, SessionLimiter, new, add, refilled, refill, try_consume_at,
}

-- A packet: its length and when it comes.
pub record Attempt : Type 0 where
  pub bytes : ℕ
  pub now : ℕ

-- What a run of attempts lets through, in packets and bytes.
pub record Traffic : Type 0 where
  pub packets : ℕ
  pub bytes : ℕ

abbrev count : Bool → ℕ → Traffic → Traffic
count admitted bytes t =
    if admitted then record { packets = suc t.packets; bytes = bytes + t.bytes } else t

unfoldable pub admitted : SessionLimiter → List Attempt → Traffic
admitted self [] = record { packets = 0; bytes = 0 }
admitted self (a ∷ rest) =
    let (ok, self') = try_consume_at self a.bytes a.now in count ok a.bytes (admitted self' rest)

-- A refill adds no more than the time that passed is worth.
add_le : (rate elapsed : ℕ) → 1_000_000_000 * add elapsed rate ≤ rate * elapsed
unfolding add
add_le rate elapsed =
    let h : rate * (elapsed / 1000 * 1000) ≤ rate * elapsed = mul-le-mul_left rate (omega arith) in
    omega (arith, h)

add_since_le :
    (rate last now : ℕ)
    → last ≤ now
    → 1_000_000_000 * add (now - last) rate + rate * last ≤ rate * now
add_since_le rate last now h =
    let e : now ≡ last + (now - last) = omega arith in
    let d : rate * now ≡ rate * (last + (now - last)) = ap (λ n. rate * n) e in
    omega (arith, add_le rate (now - last), d)

-- What one attempt does to one dimension: it costs `cost` where it is admitted, and the time that
-- passed pays for it.
abbrev Paid : ℕ → ℕ → ℕ → ℕ → ℕ → ℕ → Type 0
Paid rate tokens last cost tokens' last' =
    1_000_000_000 * (tokens' + cost) + rate * last ≤ 1_000_000_000 * tokens + rate * last'

refill_packets :
    (limits : RateLimits) (s : BucketState) (now : ℕ)
    → Paid limits.packets_per_sec s.packet_tokens s.last_refill 0
        (refill limits s now).packet_tokens
        (refill limits s now).last_refill
unfolding refill refilled
refill_packets limits s now = ground (arith, add_since_le limits.packets_per_sec s.last_refill now)

refill_bytes :
    (limits : RateLimits) (s : BucketState) (now : ℕ)
    → Paid limits.bytes_per_sec s.byte_tokens s.last_refill 0
        (refill limits s now).byte_tokens
        (refill limits s now).last_refill
unfolding refill refilled
refill_bytes limits s now = ground (arith, add_since_le limits.bytes_per_sec s.last_refill now)

refill_last :
    (limits : RateLimits) (s : BucketState) (now : ℕ)
    → (refill limits s now).last_refill ≡ max s.last_refill now
unfolding refill
refill_last limits s now = ground arith

module _ (self : SessionLimiter) (bytes now : ℕ) where
  try_packets :
      0 < self.limits.packets_per_sec
      → let (ok, self') = try_consume_at self bytes now in
        Paid self.limits.packets_per_sec self.state.packet_tokens self.state.last_refill
          (if ok then 1 else 0)
          self'.state.packet_tokens
          self'.state.last_refill
  unfolding try_consume_at
  try_packets h = ground (arith, refill_packets self.limits self.state now)

  try_bytes :
      0 < self.limits.bytes_per_sec
      → let (ok, self') = try_consume_at self bytes now in
        Paid self.limits.bytes_per_sec self.state.byte_tokens self.state.last_refill
          (if ok then bytes else 0)
          self'.state.byte_tokens
          self'.state.last_refill
  unfolding try_consume_at
  try_bytes h = ground (arith, refill_bytes self.limits self.state now)

  try_limits : (try_consume_at self bytes now).1.limits ≡ self.limits
  unfolding try_consume_at
  try_limits = ground arith

  try_last_le :
      (end : ℕ)
      → self.state.last_refill ≤ end
      → now ≤ end
      → (try_consume_at self bytes now).1.state.last_refill ≤ end
  unfolding try_consume_at
  try_last_le end h h2 = ground (arith, refill_last self.limits self.state now)

-- The run up to `end` is paid by the tokens there were and the time since the last refill.
admitted_packets :
    (self : SessionLimiter) (attempts : List Attempt) (end : ℕ)
    → 0 < self.limits.packets_per_sec
    → self.state.last_refill ≤ end
    → All (λ a. a.now ≤ end) attempts
    → 1_000_000_000 * (admitted self attempts).packets
        + self.limits.packets_per_sec * self.state.last_refill
      ≤ 1_000_000_000 * self.state.packet_tokens + self.limits.packets_per_sec * end
unfolding admitted
admitted_packets self [] end h hl ha = omega (arith, mul-le-mul_left self.limits.packets_per_sec hl)
admitted_packets self (a ∷ rest) end h hl ha =
    let same = try_limits self a.bytes a.now in
    let self' = (try_consume_at self a.bytes a.now).1 in
    let tail =
      admitted_packets self' rest end (rw same h) (try_last_le self a.bytes a.now end hl ha.0)
        ha.1 in
    ground (arith, tail, same, try_packets self a.bytes a.now h)

admitted_bytes :
    (self : SessionLimiter) (attempts : List Attempt) (end : ℕ)
    → 0 < self.limits.bytes_per_sec
    → self.state.last_refill ≤ end
    → All (λ a. a.now ≤ end) attempts
    → 1_000_000_000 * (admitted self attempts).bytes
        + self.limits.bytes_per_sec * self.state.last_refill
      ≤ 1_000_000_000 * self.state.byte_tokens + self.limits.bytes_per_sec * end
unfolding admitted
admitted_bytes self [] end h hl ha = omega (arith, mul-le-mul_left self.limits.bytes_per_sec hl)
admitted_bytes self (a ∷ rest) end h hl ha =
    let same = try_limits self a.bytes a.now in
    let self' = (try_consume_at self a.bytes a.now).1 in
    let tail =
      admitted_bytes self' rest end (rw same h) (try_last_le self a.bytes a.now end hl ha.0) ha.1 in
    ground (arith, tail, same, try_bytes self a.bytes a.now h)

module _ (limits : RateLimits) (start end : ℕ) (attempts : List Attempt) where
  -- Where a packet rate is set, of attempts that come no later than `end`, which is no earlier than
  -- the limiter was made, a new limiter lets through at most one second's burst of packets and what
  -- the rate is worth from then to `end`.
  pub admitted_packets_within :
      0 < limits.packets_per_sec
      → start ≤ end
      → All (λ a. a.now ≤ end) attempts
      → 1_000_000_000 * (admitted (new limits start) attempts).packets
        ≤ limits.packets_per_sec * (1_000_000_000 + (end - start))
  unfolding new
  admitted_packets_within hp h ha =
      let e : end ≡ start + (end - start) = omega arith in
      omega (
        arith,
        admitted_packets (new limits start) attempts end hp h ha,
        ap (λ n. limits.packets_per_sec * n) e,
      )

  -- Where a byte rate is set, of attempts that come no later than `end`, which is no earlier than
  -- the limiter was made, a new limiter lets through at most one second's burst of bytes and what
  -- the rate is worth from then to `end`.
  pub admitted_bytes_within :
      0 < limits.bytes_per_sec
      → start ≤ end
      → All (λ a. a.now ≤ end) attempts
      → 1_000_000_000 * (admitted (new limits start) attempts).bytes
        ≤ limits.bytes_per_sec * (1_000_000_000 + (end - start))
  unfolding new
  admitted_bytes_within hb h ha =
      let e : end ≡ start + (end - start) = omega arith in
      omega (
        arith,
        admitted_bytes (new limits start) attempts end hb h ha,
        ap (λ n. limits.bytes_per_sec * n) e,
      )
