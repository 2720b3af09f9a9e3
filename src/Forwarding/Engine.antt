-- ===== src/Forwarding/Engine.antt =====
-- Models the engine of src/forwarding/mod.rs: its tables, and how a packet reaches a session.
mod Tests
pub mod Paths
pub mod Delivery
pub mod Egress
pub mod Client
pub mod Dispatch
pub mod Total
use straw.Common.{
  ℕ, ◌+◌, ◌%◌, ◌^◌, List, [], ◌∷◌, ◌++◌, Bool, true, false, any, ltb, not, length, if◌then◌else◌,
  Option, none, some, Result, ok, err, panic, expect, get, erase, insert,
}
use straw.Error.{ForwardingError, mtu_exceeded, no_route, congested}
use straw.Ip.{IpAddr}
use straw.Ip.Nets.{IpNets}
use straw.Capsule.{IpAddressRange}
use straw.Capsule.Ranges.{contains}
use straw.Datagram.{ip_packet, encode_quic_datagram}
use straw.Forwarding.Limiter.{RateLimits, SessionLimiter, is_unlimited}
use straw.Forwarding.Limiter
use straw.Forwarding.Icmp.{IcmpErrorKind, IcmpSource, build_icmp_error}
use straw.Forwarding.Packet.{PacketInfo}
use straw.Forwarding.Router.{RouteTable}
use straw.Forwarding.Effects.{
  Metrics, plus, incr, Output, channel_output, datagram_output, Network, Effects, Step, then_do,
  lift, count, emit,
}

pub data SessionSink : Type 0 where
  channel : ℕ → SessionSink
  datagram : ℕ → ℕ → SessionSink

pub data Forwarded : Type 0 where
  hairpin : ℕ → Forwarded
  tun : Forwarded

pub record EgressPolicy : Type 0 where
  pub ranges : List IpAddressRange

unfoldable pub allows : EgressPolicy → IpAddr → ℕ → Bool
allows self dst proto = any (λ r. contains r dst proto) self.ranges

module _ (nets : IpNets) where
  -- The metrics stand in the effects. `session_mtus` has what the shared numbers hold now, `tun_tx` whether
  -- there is a TUN device, and `session_notify` a number for each signal.
  pub record ForwardingEngine : Type 0 where
    pub route_table : RouteTable nets
    pub session_sinks : List (ℕ × SessionSink)
    pub session_notify : List (ℕ × ℕ)
    pub policies : List (ℕ × EgressPolicy)
    pub limiters : List (ℕ × SessionLimiter)
    pub session_mtus : List (ℕ × ℕ)
    pub tun_tx : Bool
    pub mtu : ℕ
    pub icmp_source : IcmpSource
    pub limits : RateLimits

  unfoldable pub new : RouteTable nets → Bool → ℕ → IcmpSource → RateLimits → ForwardingEngine
  new route_table tun_tx mtu icmp_source limits = record {
    route_table = route_table;
    session_sinks = [];
    session_notify = [];
    policies = [];
    limiters = [];
    session_mtus = [];
    tun_tx = tun_tx;
    mtu = mtu;
    icmp_source = icmp_source;
    limits = limits;
  }

  -- `notify` is the new signal, which the caller gets back; `now` the clock that the limiter reads.
  unfoldable pub register_session :
      ForwardingEngine → ℕ → SessionSink → EgressPolicy → ℕ → ℕ → ℕ → ForwardingEngine
  register_session self id sink policy mtu notify now = record self {
    session_sinks = insert self.session_sinks id sink;
    policies = insert self.policies id policy;
    session_mtus = insert self.session_mtus id mtu;
    limiters =
        if not (is_unlimited self.limits)
        then insert self.limiters id (Limiter.new self.limits now)
        else self.limiters;
    session_notify = insert self.session_notify id notify;
  }

  -- With the signal that is fired, if there is one.
  unfoldable pub unregister_session : ForwardingEngine → ℕ → ForwardingEngine × Option ℕ
  unregister_session self id = (
    record self {
      session_sinks = erase self.session_sinks id;
      policies = erase self.policies id;
      session_mtus = erase self.session_mtus id;
      limiters = erase self.limiters id;
      session_notify = erase self.session_notify id;
    },
    get self.session_notify id,
  )

  unfoldable pub session_mtu : ForwardingEngine → ℕ → ℕ
  session_mtu self id = elim (get self.session_mtus id) [ some m ↦ m | none ↦ self.mtu ]

  unfoldable pub session_accepts : ForwardingEngine → ℕ → PacketInfo → Bool
  session_accepts self target info = elim (get self.policies target) [
    | some p ↦ allows p info.src info.protocol
    | none ↦ false
  ]

  module _ (network : Network) where
    -- `try_send` and `send_datagram`: the output goes out, or the sender is told of congestion.
    unfoldable pub send : Output → Step (Unit {0})
    send output fx =
        if network.accepts fx.sent output then (ok tt, emit output fx) else (err congested, fx)

    unfoldable pub count_mtu_dropped : Effects → Effects
    count_mtu_dropped fx =
        count (λ m. record m { packets_mtu_dropped_total = incr m.packets_mtu_dropped_total }) fx

    -- `if let Some(max) = conn.max_datagram_size() && wire.len() > max`
    unfoldable pub is_oversize : List Output → ℕ → List ℕ → Bool
    is_oversize sent conn wire = elim (network.max_datagram_size sent conn) [
      | some max ↦ ltb max (length wire)
      | none ↦ false
    ]

    unfoldable pub send_datagram : ℕ → List ℕ → Step (Unit {0})
    send_datagram conn wire fx =
        if is_oversize fx.sent conn wire
        then (err mtu_exceeded, count_mtu_dropped fx)
        else send (datagram_output conn wire) fx

    unfoldable pub put_in_sink : SessionSink → List ℕ → Step (Unit {0})
    put_in_sink (channel tx) packet = send (channel_output tx packet)
    put_in_sink (datagram conn qsid) packet =
        then_do (lift (expect (encode_quic_datagram qsid (ip_packet packet))))
          λ wire. send_datagram conn wire

    unfoldable pub count_delivered : ℕ → Step (Unit {0})
    count_delivered len fx = (
      ok tt,
      count
          (λ m. record m {
            packets_to_client_total = incr m.packets_to_client_total;
            bytes_to_client_total = plus m.bytes_to_client_total len;
          })
          fx,
    )

    unfoldable pub deliver_to_session : ForwardingEngine → ℕ → List ℕ → Step (Unit {0})
    deliver_to_session self id packet fx = elim (get self.session_sinks id) [
      | none ↦ (err no_route, fx)
      | some sink ↦ then_do (put_in_sink sink packet) (λ _. count_delivered (length packet)) fx
    ]

    -- An error of the delivery is dropped; a panic is not.
    unfoldable pub after_icmp :
        Result ForwardingError (Unit {0}) × Effects → Result ForwardingError (Unit {0}) × Effects
    after_icmp (ok _, fx) =
        (ok tt, count (λ m. record m { icmp_errors_sent_total = incr m.icmp_errors_sent_total }) fx)
    after_icmp (err _, fx) = (ok tt, fx)
    after_icmp (panic, fx) = (panic, fx)

    unfoldable pub send_icmp_error : ForwardingEngine → ℕ → IcmpErrorKind → List ℕ → Step (Unit {0})
    send_icmp_error self to kind original fx =
        elim (build_icmp_error kind self.icmp_source original) [
          | ok built ↦ elim built [
            | none ↦ (ok tt, fx)
            | some icmp_packet ↦ after_icmp (deliver_to_session self to icmp_packet fx)
          ]
          | err e ↦ (err e, fx)
          | panic ↦ (panic, fx)
        ]
