-- ===== src/Forwarding/Effects.antt =====
-- What handling a packet changes outside the tables: the counters of src/metrics.rs, and what is sent.
-- Channels and connections are known by numbers; that they take a packet is theirs to say.
use straw.Common.{ℕ, ◌+◌, ◌%◌, ◌^◌, List, ◌∷◌, Bool, Option, Result, ok, err, panic}
use straw.Error.{ForwardingError}

pub record Metrics : Type 0 where
  pub sessions_total : ℕ
  pub auth_failures_total : ℕ
  pub packets_hairpin_total : ℕ
  pub packets_tun_out_total : ℕ
  pub packets_to_client_total : ℕ
  pub packets_dropped_total : ℕ
  pub packets_rate_limited_total : ℕ
  pub packets_mtu_dropped_total : ℕ
  pub icmp_errors_sent_total : ℕ
  pub bytes_from_client_total : ℕ
  pub bytes_to_client_total : ℕ

-- `fetch_add` wraps.
abbrev pub plus : ℕ → ℕ → ℕ
plus counter n = (counter + n) % 2 ^ 64

abbrev pub incr : ℕ → ℕ
incr counter = plus counter 1

-- A packet that went into a channel, a datagram on a connection, a packet to the TUN device.
pub data Output : Type 0 where
  channel_output : ℕ → List ℕ → Output
  datagram_output : ℕ → List ℕ → Output
  tun_output : List ℕ → Output

-- Channels and connections, after what was sent: `try_send` and `send_datagram` succeed or not, and a
-- connection may know its largest datagram.
pub record Network : Type 0 where
  pub accepts : List Output → Output → Bool
  pub max_datagram_size : List Output → ℕ → Option ℕ

-- `sent` has the last output first.
pub record Effects : Type 0 where
  pub metrics : Metrics
  pub sent : List Output

abbrev pub Step : Type 0 → Type 0
Step A = Effects → Result ForwardingError A × Effects

-- `?` behind a call with effects, and on a result without.
abbrev pub then_do : {A B : Type 0} → Step A → (A → Step B) → Step B
then_do m k fx =
    let (r, fx') = m fx in elim r [ ok a ↦ k a fx' | err e ↦ (err e, fx') | panic ↦ (panic, fx') ]

abbrev pub lift : {A : Type 0} → Result ForwardingError A → Step A
lift r fx = (r, fx)

abbrev pub count : (Metrics → Metrics) → Effects → Effects
count f fx = record { metrics = f fx.metrics; sent = fx.sent }

abbrev pub emit : Output → Effects → Effects
emit output fx = record { metrics = fx.metrics; sent = output ∷ fx.sent }
