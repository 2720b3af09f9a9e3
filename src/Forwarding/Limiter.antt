-- ===== src/Forwarding/Limiter.antt =====
-- Models src/forwarding/limiter.rs: the token buckets of a session. An `Instant` is a number of
-- nanoseconds; `duration_since` is 0 for a later one. `u64` sums wrap.
pub mod Bounds
pub mod Refill
use straw.Common.{
  ℕ, ◌+◌, ◌-◌, ◌*◌, ◌/◌, ◌%◌, ◌^◌, min, Bool, true, false, not, ◌&&◌, ◌||◌, ◌==◌, leb, ltb,
  if◌then◌else◌,
}

pub record RateLimits : Type 0 where
  pub packets_per_sec : ℕ
  pub bytes_per_sec : ℕ

abbrev pub is_unlimited : RateLimits → Bool
is_unlimited self = self.packets_per_sec == 0 && self.bytes_per_sec == 0

pub record BucketState : Type 0 where
  pub packet_tokens : ℕ
  pub byte_tokens : ℕ
  pub last_refill : ℕ

pub record SessionLimiter : Type 0 where
  pub limits : RateLimits
  pub state : BucketState

-- `now` stands for the clock that the constructor reads.
unfoldable pub new : RateLimits → ℕ → SessionLimiter
new limits now = record {
  limits = limits;
  state = record {
    packet_tokens = limits.packets_per_sec;
    byte_tokens = limits.bytes_per_sec;
    last_refill = now;
  };
}

-- `|rate| (rate as u128 * elapsed.as_micros() / 1_000_000) as u64`
unfoldable pub add : ℕ → ℕ → ℕ
add elapsed rate = rate * (elapsed / 1000) / 1_000_000 % 2 ^ 64

unfoldable pub refilled : ℕ → ℕ → ℕ → ℕ
unfolding add
refilled tokens elapsed rate = min ((tokens + add elapsed rate) % 2 ^ 64) rate

unfoldable pub refill : RateLimits → BucketState → ℕ → BucketState
unfolding refilled
refill limits state now =
    let elapsed = now - state.last_refill in
    if elapsed == 0 then state else record {
      packet_tokens = refilled state.packet_tokens elapsed limits.packets_per_sec;
      byte_tokens = refilled state.byte_tokens elapsed limits.bytes_per_sec;
      last_refill = now;
    }

-- One dimension: whether it admits, and what it has left.
abbrev pub has_tokens : ℕ → ℕ → ℕ → Bool
has_tokens rate tokens cost = rate == 0 || leb cost tokens

abbrev pub spend : ℕ → ℕ → ℕ → ℕ
spend rate tokens cost = if ltb 0 rate then tokens - cost else tokens

unfoldable pub try_consume_at : SessionLimiter → ℕ → ℕ → Bool × SessionLimiter
unfolding refill
try_consume_at self bytes now =
    if is_unlimited self.limits
    then (true, self)
    else let state = refill self.limits self.state now in
      let packets_ok = has_tokens self.limits.packets_per_sec state.packet_tokens 1 in
      let bytes_ok = has_tokens self.limits.bytes_per_sec state.byte_tokens bytes in
      if not (packets_ok && bytes_ok)
      then (false, record { limits = self.limits; state = state })
      else (
        true,
        record {
          limits = self.limits;
          state = record {
            packet_tokens = spend self.limits.packets_per_sec state.packet_tokens 1;
            byte_tokens = spend self.limits.bytes_per_sec state.byte_tokens bytes;
            last_refill = state.last_refill;
          };
        },
      )
