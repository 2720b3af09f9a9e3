-- ===== src/Forwarding/Engine/Paths.antt =====
-- Models the packet paths of src/forwarding/mod.rs.
use straw.Common.{
  ℕ, ◌%◌, ◌^◌, List, Bool, true, false, ltb, not, length, if◌then◌else◌, Option, none, some, Result,
  ok, err, panic, get, insert,
}
use straw.Error.{ForwardingError, ttl_expired, mtu_exceeded, no_route, not_allowed, rate_limited}
use straw.Ip.Nets.{IpNets}
use straw.Capsule.{AssignedAddress}
use straw.Forwarding.Limiter.{SessionLimiter, try_consume_at}
use straw.Forwarding.Packet.{
  PacketInfo, parse_packet, validate_source, validate_destination, decrement_ttl,
}
use straw.Forwarding.Icmp.{
  IcmpErrorKind, time_exceeded, no_route as icmp_no_route, admin_prohibited, packet_too_big,
}
use straw.Forwarding.Router.{lookup}
use straw.Forwarding.Effects.{
  Metrics, plus, incr, tun_output, Network, Effects, Step, then_do, lift, count,
}
use straw.Forwarding.Engine.{
  ForwardingEngine, Forwarded, hairpin, tun, allows, session_mtu, session_accepts, send,
  deliver_to_session, send_icmp_error, count_mtu_dropped,
}

unfoldable pub is_expired : ForwardingError → Bool
is_expired ttl_expired = true
is_expired _ = false

-- The counter for where a packet ended up.
unfoldable pub tally : Result ForwardingError Forwarded → Metrics → Metrics
tally (ok (hairpin _)) m = record m { packets_hairpin_total = incr m.packets_hairpin_total }
tally (ok tun) m = record m { packets_tun_out_total = incr m.packets_tun_out_total }
tally (err _) m = record m { packets_dropped_total = incr m.packets_dropped_total }
tally panic m = m

module _ (nets : IpNets) (network : Network) where
  -- An error answered with an ICMP error to `from`.
  unfoldable pub refuse :
      {A : Type 0} → ForwardingEngine nets → ℕ → IcmpErrorKind → List ℕ → ForwardingError → Step A
  refuse self from kind original e =
      then_do (send_icmp_error nets network self from kind original) λ _. lift (err e)

  unfoldable pub policy_allows : ForwardingEngine nets → ℕ → PacketInfo → Bool
  policy_allows self from info = elim (get self.policies from) [
    | some p ↦ allows p info.dst info.protocol
    | none ↦ false
  ]

  -- What follows the decrement: only an expired TTL is answered.
  unfoldable pub after_decrement :
      ForwardingEngine nets → ℕ → List ℕ → Result ForwardingError (List ℕ) → Step (List ℕ)
  after_decrement self from packet (ok packet') = lift (ok packet')
  after_decrement self from packet (err e) =
      if is_expired e then refuse self from time_exceeded packet e else lift (err e)
  after_decrement self from packet panic = lift panic

  unfoldable pub hop : ForwardingEngine nets → ℕ → List ℕ → Step (List ℕ)
  hop self from packet = after_decrement self from packet (decrement_ttl packet)

  unfoldable pub to_session : ForwardingEngine nets → ℕ → ℕ → PacketInfo → List ℕ → Step Forwarded
  to_session self from target info packet fx =
      let peer_mtu = session_mtu nets self target in
      if not (session_accepts nets self target info)
      then refuse self from admin_prohibited packet (not_allowed info.dst) fx
      else if ltb peer_mtu (length packet)
      then refuse self from (packet_too_big (peer_mtu % 2 ^ 16)) packet mtu_exceeded
          (count_mtu_dropped nets network fx)
      else then_do (deliver_to_session nets network self target packet)
          (λ _. lift (ok (hairpin target))) fx

  unfoldable pub to_network : ForwardingEngine nets → ℕ → List ℕ → Step Forwarded
  to_network self from packet =
      if self.tun_tx
      then then_do (send nets network (tun_output packet)) (λ _. lift (ok tun))
      else refuse self from icmp_no_route packet no_route

  unfoldable pub route : ForwardingEngine nets → ℕ → PacketInfo → List ℕ → Step Forwarded
  route self from info packet = elim (lookup nets self.route_table info.dst info.protocol) [
    | some target ↦ to_session self from target info packet
    | none ↦ to_network self from packet
  ]

  -- `forward_validated` from the egress policy on, and from the MTU on.
  unfoldable pub egress : ForwardingEngine nets → ℕ → PacketInfo → List ℕ → Step Forwarded
  egress self from info packet =
      if not (policy_allows self from info)
      then refuse self from admin_prohibited packet (not_allowed info.dst)
      else then_do (hop self from packet) λ packet'. route self from info packet'

  unfoldable pub checked : ForwardingEngine nets → ℕ → PacketInfo → List ℕ → Step Forwarded
  checked self from info packet =
      if ltb self.mtu (length packet)
      then refuse self from (packet_too_big (self.mtu % 2 ^ 16)) packet mtu_exceeded
      else then_do (lift (validate_destination info.dst)) λ _. egress self from info packet

  unfoldable pub forward_validated :
      ForwardingEngine nets → ℕ → List AssignedAddress → List ℕ → Step Forwarded
  forward_validated self from assigned packet =
      then_do (lift (parse_packet packet)) λ info.
        then_do (lift (validate_source nets info assigned)) λ _. checked self from info packet

  -- Whether the session's limiter, if there is one, admits the packet at `now`.
  unfoldable pub admit :
      ForwardingEngine nets → ℕ → ℕ → ℕ → Option SessionLimiter → Bool × ForwardingEngine nets
  admit self from len now none = (true, self)
  admit self from len now (some limiter) =
      let (admitted, limiter') = try_consume_at limiter len now in
      (admitted, record self { limiters = insert self.limiters from limiter' })

  unfoldable pub tallied :
      Result ForwardingError Forwarded × Effects → Result ForwardingError Forwarded × Effects
  tallied (result, fx) = (result, count (tally result) fx)

  abbrev pub count_received : ℕ → Metrics → Metrics
  count_received len m = record m { bytes_from_client_total = plus m.bytes_from_client_total len }

  abbrev pub count_limited : Metrics → Metrics
  count_limited m = record m { packets_rate_limited_total = incr m.packets_rate_limited_total }

  unfoldable pub after_admit :
      ℕ
      → List AssignedAddress
      → List ℕ
      → Effects
      → Bool × ForwardingEngine nets
      → (Result ForwardingError Forwarded × Effects) × ForwardingEngine nets
  after_admit from assigned packet fx (true, self) =
      (tallied (forward_validated self from assigned packet fx), self)
  after_admit from assigned packet fx (false, self) =
      ((err rate_limited, count count_limited fx), self)

  -- The answer and the effects, and the engine with the limiter that the packet went through.
  unfoldable pub forward_from_client :
      ForwardingEngine nets
      → ℕ
      → List AssignedAddress
      → List ℕ
      → ℕ
      → Effects
      → (Result ForwardingError Forwarded × Effects) × ForwardingEngine nets
  forward_from_client self from assigned packet now fx =
      let fx = count (count_received (length packet)) fx in
      after_admit from assigned packet fx
        (admit self from (length packet) now (get self.limiters from))

  -- `dispatch_from_network` once the routes name a session.
  unfoldable pub dispatch_to : ForwardingEngine nets → PacketInfo → List ℕ → ℕ → Step ℕ
  dispatch_to self info packet target fx =
      if not (session_accepts nets self target info)
      then (err (not_allowed info.src), fx)
      else if ltb (session_mtu nets self target) (length packet)
      then (err mtu_exceeded, count_mtu_dropped nets network fx)
      else then_do (lift (decrement_ttl packet))
          (λ packet'.
            then_do (deliver_to_session nets network self target packet') λ _. lift (ok target))
          fx

  unfoldable pub dispatch_by : ForwardingEngine nets → PacketInfo → List ℕ → Option ℕ → Step ℕ
  dispatch_by self info packet none = lift (err no_route)
  dispatch_by self info packet (some target) = dispatch_to self info packet target

  unfoldable pub dispatch_from_network : ForwardingEngine nets → List ℕ → Step ℕ
  dispatch_from_network self packet =
      then_do (lift (parse_packet packet))
        λ info. dispatch_by self info packet (lookup nets self.route_table info.dst info.protocol)
