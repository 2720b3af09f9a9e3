-- ===== src/Forwarding/Engine/Dispatch.antt =====
-- `dispatch_from_network` of src/forwarding/mod.rs.
use straw.Common.{
  ℕ, ◌≤◌, ◌≡◌, refl, List, Bool, true, false, not, ltb, length, if◌then◌else◌, Option, none, some,
  Result, ok, err, panic, arith,
}
use straw.Error.{ForwardingError, mtu_exceeded, no_route, not_allowed}
use straw.Ip.Nets.{IpNets}
use straw.Forwarding.Packet.{PacketInfo, parse_packet, decrement_ttl}
use straw.Forwarding.Router.{lookup}
use straw.Forwarding.Effects.{Network, Effects, then_do, lift}
use straw.Forwarding.Engine.{
  ForwardingEngine, session_mtu, session_accepts, deliver_to_session, count_mtu_dropped,
}
use straw.Forwarding.Engine.Paths.{dispatch_to, dispatch_by, dispatch_from_network}
use straw.Forwarding.Engine.Delivery.{
  then_lift, then_step, Reached, Delivery, not_sent, reached, unencoded,
  deliver_to_session-Delivery,
}

module _ (nets : IpNets) (network : Network) (self : ForwardingEngine nets) (packet : List ℕ) where
  -- How the dispatch of a packet from the network may end.
  pub data Dispatched (fx : Effects) : Result ForwardingError ℕ × Effects → Type 0 where
    discarded :
        (e : ForwardingError) (fx' : Effects) → fx'.sent ≡ fx.sent → Dispatched fx (err e, fx')
    aborted : (fx' : Effects) → fx'.sent ≡ fx.sent → Dispatched fx (panic, fx')
    forwarded :
        (info : PacketInfo) (packet' : List ℕ) (target : ℕ) (fx' : Effects)
        → parse_packet packet ≡ ok info
        → lookup nets self.route_table info.dst info.protocol ≡ some target
        → session_accepts nets self target info ≡ true
        → length packet ≤ session_mtu nets self target
        → decrement_ttl packet ≡ ok packet'
        → Reached nets network self target packet' fx fx'
        → Dispatched fx (ok target, fx')

  if-Dispatched :
      (b : Bool) (fx : Effects) (m n : Result ForwardingError ℕ × Effects)
      → (b ≡ true → Dispatched fx m)
      → (b ≡ false → Dispatched fx n)
      → Dispatched fx (if b then m else n)
  if-Dispatched true fx m n hm hn = hm refl
  if-Dispatched false fx m n hm hn = hn refl

  dispatch_to-Dispatched :
      (info : PacketInfo) (target : ℕ) (fx : Effects)
      → parse_packet packet ≡ ok info
      → lookup nets self.route_table info.dst info.protocol ≡ some target
      → Dispatched fx (dispatch_to nets network self info packet target fx)
  unfolding dispatch_to count_mtu_dropped
  dispatch_to-Dispatched info target fx parses found =
      if-Dispatched (not (session_accepts nets self target info)) fx _ _
        (λ out. discarded (not_allowed info.src) fx refl)
        (λ accepted.
          if-Dispatched (ltb (session_mtu nets self target) (length packet)) fx _ _
            (λ big. discarded mtu_exceeded _ refl)
            (λ fits.
              then_lift (Dispatched fx) (decrement_ttl packet)
                (λ packet'.
                  then_do (deliver_to_session nets network self target packet')
                    λ _. lift (ok target))
                fx (λ e _. discarded e fx refl) (λ _. aborted fx refl)
                (λ packet' hopped.
                  then_step (Dispatched fx) (Delivery nets network self target packet' fx)
                    (deliver_to_session nets network self target packet') (λ _. lift (ok target)) fx
                    (deliver_to_session-Delivery nets network self target packet' fx)
                    (λ e fx' d. undelivered packet' e fx' d) (λ fx' d. lost packet' fx' d)
                    (λ u fx' d. arrived packet' u fx' (ground arith) (ground arith) hopped d))))
    where
      undelivered :
          (packet' : List ℕ) (e : ForwardingError) (fx' : Effects)
          → Delivery nets network self target packet' fx (err e, fx')
          → Dispatched fx (err e, fx')
      undelivered packet' e fx' (not_sent _ _ same) = discarded e fx' same

      lost :
          (packet' : List ℕ) (fx' : Effects)
          → Delivery nets network self target packet' fx (panic, fx')
          → Dispatched fx (panic, fx')
      lost packet' fx' (unencoded _ same) = aborted fx' same

      arrived :
          (packet' : List ℕ) (u : Unit {0}) (fx' : Effects)
          → session_accepts nets self target info ≡ true
          → length packet ≤ session_mtu nets self target
          → decrement_ttl packet ≡ ok packet'
          → Delivery nets network self target packet' fx (ok u, fx')
          → Dispatched fx (ok target, fx')
      arrived packet' u fx' accepted fits hopped (reached _ r) =
          forwarded info packet' target fx' parses found accepted fits hopped r

  dispatch_by-Dispatched :
      (info : PacketInfo) (o : Option ℕ) (fx : Effects)
      → parse_packet packet ≡ ok info
      → lookup nets self.route_table info.dst info.protocol ≡ o
      → Dispatched fx (dispatch_by nets network self info packet o fx)
  unfolding dispatch_by
  dispatch_by-Dispatched info none fx parses found = discarded no_route fx refl
  dispatch_by-Dispatched info (some target) fx parses found =
      dispatch_to-Dispatched info target fx parses found

  -- The dispatch of a packet from the network sends nothing, with an error or a panic, or sends just that
  -- packet as `decrement_ttl` makes it, to the sink of the session that the routes name for its
  -- destination, where that session's policy accepts its source and its MTU its length.
  pub dispatch_from_network-Dispatched :
      (fx : Effects) → Dispatched fx (dispatch_from_network nets network self packet fx)
  unfolding dispatch_from_network
  dispatch_from_network-Dispatched fx =
      then_lift (Dispatched fx) (parse_packet packet)
        (λ info.
          dispatch_by nets network self info packet
            (lookup nets self.route_table info.dst info.protocol))
        fx (λ e _. discarded e fx refl) (λ _. aborted fx refl)
        (λ info parses.
          dispatch_by-Dispatched info (lookup nets self.route_table info.dst info.protocol) fx
            parses refl)
