-- ===== src/Forwarding/Engine/Total.antt =====
-- The engine of src/forwarding/mod.rs on any bytes: it does not panic, and counts each packet once.
use straw.Common.{ℕ, ◌+◌, ◌%◌, ◌^◌, ◌≡◌, ◌≢◌, Result, ok, err, panic}
use straw.Error.{ForwardingError, no_route}
use straw.Ip.Nets.{IpNets}
use straw.Forwarding.Icmp.{no_route as icmp_no_route}
use straw.Forwarding.Effects.{Network, Effects, Step}

-- The counters of where packets ended up.
abbrev pub ends : Effects → ℕ × ℕ × ℕ × ℕ
ends fx = (
  fx.metrics.packets_hairpin_total, fx.metrics.packets_tun_out_total,
  fx.metrics.packets_dropped_total, fx.metrics.packets_rate_limited_total,
)

-- All packets counted.
pub counted : Effects → ℕ
counted fx =
    let m = fx.metrics in
    (m.packets_hairpin_total + m.packets_tun_out_total + m.packets_dropped_total
      + m.packets_rate_limited_total)
    % 2 ^ 64

-- No panic, and these counters as they were.
data Tame {A : Type 0} (fx : Effects) : Result ForwardingError A × Effects → Type 0 where
  fine : (a : A) (fx' : Effects) → ends fx' ≡ ends fx → Tame fx (ok a, fx')
  failed : (e : ForwardingError) (fx' : Effects) → ends fx' ≡ ends fx → Tame fx (err e, fx')

abbrev IsTame : {A : Type 0} → Step A → Type 0
IsTame m = (fx : Effects) → Tame fx (m fx)

module _ (nets : IpNets) (network : Network) where
  Counted : {A : Type 0} → Effects → Result ForwardingError A × Effects → Type 0
  Counted fx end = (end.0 ≢ panic) × (counted end.1 ≡ (counted fx + 1) % 2 ^ 64)
