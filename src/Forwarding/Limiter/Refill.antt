-- ===== src/Forwarding/Limiter/Refill.antt =====
-- When the buckets of src/forwarding/limiter.rs fill up again.
use native.Mathlib.Nat.{mul-le-mul_left}
use straw.Common.{ℕ, ◌-◌, ◌*◌, ◌/◌, ◌^◌, ◌≤◌, ◌<◌, ◌≡◌, refl, true, false, List, [], ◌∷◌, arith}
use straw.Forwarding.Limiter.{SessionLimiter, add, refilled, refill, try_consume_at}
use straw.Forwarding.Limiter.Bounds.{Attempt, admitted}

-- Each attempt comes so soon after the one before that the time between is worth less than a packet.
abbrev pub IsDense : ℕ → ℕ → List Attempt → Type 0
IsDense rate last [] = Unit {0}
IsDense rate last (a ∷ rest) =
    (last ≤ a.now) × (rate * (a.now - last) < 1_000_000_000) × IsDense rate a.now rest

add_dense : (rate elapsed : ℕ) → rate * elapsed < 1_000_000_000 → add elapsed rate ≡ 0
unfolding add
add_dense rate elapsed h =
    let le : rate * (elapsed / 1000 * 1000) ≤ rate * elapsed = mul-le-mul_left rate (omega arith) in
    omega (arith, le)

try_starved :
    (self : SessionLimiter) (bytes now : ℕ)
    → 0 < self.limits.packets_per_sec
    → self.state.packet_tokens ≡ 0
    → self.state.last_refill ≤ now
    → self.limits.packets_per_sec * (now - self.state.last_refill) < 1_000_000_000
    → let (ok, self') = try_consume_at self bytes now in
      (ok ≡ false)
      × (self'.limits ≡ self.limits)
      × (self'.state.packet_tokens ≡ 0)
      × (self'.state.last_refill ≡ now)
unfolding try_consume_at refill refilled
try_starved self bytes now h h0 hl hd =
    ground (arith, add_dense self.limits.packets_per_sec (now - self.state.last_refill) hd)

-- Where a packet rate is set and no packet token is left, a run of attempts each less than a
-- packet's worth of time behind the one before lets no packet through, however long it lasts.
pub admitted_starved :
    (self : SessionLimiter) (attempts : List Attempt)
    → 0 < self.limits.packets_per_sec
    → self.state.packet_tokens ≡ 0
    → IsDense self.limits.packets_per_sec self.state.last_refill attempts
    → (admitted self attempts).packets ≡ 0
unfolding admitted
admitted_starved self [] h h0 hd = refl
admitted_starved self (a ∷ rest) h h0 hd =
    let (refused, same, empty, moved) = try_starved self a.bytes a.now h h0 hd.0 hd.1 in
    let self' = (try_consume_at self a.bytes a.now).1 in
    let tail = admitted_starved self' rest (rw same h) empty (rw (same, moved) hd.2) in
    ground (arith, tail, refused)

refilled_second :
    (tokens elapsed rate : ℕ)
    → 1_000_000_000 ≤ elapsed
    → tokens ≤ rate
    → rate * elapsed < 2 ^ 63 * 1_000_000_000
    → refilled tokens elapsed rate ≡ rate
unfolding refilled add
refilled_second tokens elapsed rate h ht hb =
    let le : rate * (elapsed / 1000 * 1000) ≤ rate * elapsed = mul-le-mul_left rate (omega arith) in
    let ge : rate * 1_000_000 ≤ rate * (elapsed / 1000) = mul-le-mul_left rate (omega arith) in
    omega (arith, le, ge)

-- After a second or more without an attempt, a packet no longer than the byte rate, where that is
-- set, is admitted, if the buckets hold no more than their rates and either rate times the elapsed
-- time in nanoseconds is below 2 ^ 63 * 10 ^ 9.
pub try_consume_rested :
    (self : SessionLimiter) (bytes now : ℕ)
    → let limits = self.limits in
      let elapsed = now - self.state.last_refill in
      1_000_000_000 ≤ elapsed
      → self.state.packet_tokens ≤ limits.packets_per_sec
      → self.state.byte_tokens ≤ limits.bytes_per_sec
      → limits.packets_per_sec * elapsed < 2 ^ 63 * 1_000_000_000
      → limits.bytes_per_sec * elapsed < 2 ^ 63 * 1_000_000_000
      → (0 < limits.bytes_per_sec → bytes ≤ limits.bytes_per_sec)
      → (try_consume_at self bytes now).0 ≡ true
unfolding try_consume_at refill
try_consume_rested self bytes now h hp hb op ob hl = ground (
  arith,
  refilled_second self.state.packet_tokens _ self.limits.packets_per_sec h hp op,
  refilled_second self.state.byte_tokens _ self.limits.bytes_per_sec h hb ob,
)
