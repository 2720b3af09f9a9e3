-- ===== src/Forwarding/Tests.antt =====
-- The theorems on the forwarding path at concrete inputs.
use straw.Common.{◌+◌, ◌*◌, ◌≤◌, ◌≡◌, refl, true, List, [], ◌∷◌, arith}
use straw.Forwarding.Limiter.{
  RateLimits, SessionLimiter, new, try_consume_at, refill, refilled, add,
}
use straw.Forwarding.Limiter.Bounds.{
  Attempt, admitted, admitted_packets_within, admitted_bytes_within,
}
use straw.Forwarding.Limiter.Refill.{admitted_starved, try_consume_rested}

-- 100 packets and 1000 bytes a second.
abbrev limits : RateLimits
limits = record { packets_per_sec = 100; bytes_per_sec = 1000 }

-- Packets every 5 milliseconds.
abbrev attempts : List Attempt
attempts =
    record { bytes = 100; now = 5_000_000 }
    ∷ record { bytes = 100; now = 10_000_000 }
    ∷ record { bytes = 100; now = 15_000_000 }
    ∷ []

abbrev empty : SessionLimiter
empty = record {
  limits = limits;
  state = record { packet_tokens = 0; byte_tokens = 1000; last_refill = 0 };
}

admitted_all : (admitted (new limits 0) attempts).packets ≡ 3
unfolding admitted new try_consume_at refill refilled add
admitted_all = refl

admitted_packets_within_example :
    1_000_000_000 * (admitted (new limits 0) attempts).packets ≤ 100 * (1_000_000_000 + 15_000_000)
admitted_packets_within_example =
    admitted_packets_within limits 0 15_000_000 attempts (omega arith) (omega arith) (omega arith)

admitted_bytes_within_example :
    1_000_000_000 * (admitted (new limits 0) attempts).bytes ≤ 1000 * (1_000_000_000 + 15_000_000)
admitted_bytes_within_example =
    admitted_bytes_within limits 0 15_000_000 attempts (omega arith) (omega arith) (omega arith)

admitted_starved_example : (admitted empty attempts).packets ≡ 0
admitted_starved_example = admitted_starved empty attempts (omega arith) refl (omega arith)

try_consume_rested_example : (try_consume_at empty 800 1_500_000_000).0 ≡ true
try_consume_rested_example =
    try_consume_rested empty 800 1_500_000_000 (omega arith) (omega arith) (omega arith)
      (omega arith) (omega arith) (λ _. omega arith)
