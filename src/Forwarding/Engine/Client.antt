-- ===== src/Forwarding/Engine/Client.antt =====
-- `forward_from_client` of src/forwarding/mod.rs: what it lets out, and what it counts.
use straw.Common.{
  ℕ, ◌≡◌, refl, ap, ◌∙◌, List, ◌∷◌, Bool, true, false, length, Option, none, some, Result, get,
  insert,
}
use straw.Error.{ForwardingError, rate_limited}
use straw.Ip.Nets.{IpNets}
use straw.Capsule.{AssignedAddress}
use straw.Forwarding.Limiter.{SessionLimiter, try_consume_at}
use straw.Forwarding.Packet.{PacketInfo}
use straw.Forwarding.Effects.{Metrics, tun_output, Network, Effects, count}
use straw.Forwarding.Engine.{ForwardingEngine, Forwarded, session_mtu, session_accepts}
use straw.Forwarding.Engine.Paths.{
  tally, policy_allows, forward_validated, admit, after_admit, tallied, count_received,
  forward_from_client,
}
use straw.Forwarding.Engine.Delivery.{Reached}
use straw.Forwarding.Engine.Egress.{
  Allowed, Handled, dropped, aborted, answered, to_tun, to_peer, forward_validated-Handled,
}

module _ (nets : IpNets) (network : Network) where
  module _ (self : ForwardingEngine nets) (from : ℕ) (assigned : List AssignedAddress)
      (packet : List ℕ) where
    -- Limiters and counters do not matter to what is let out.
    Reached-same :
        (l : List (ℕ × SessionLimiter)) (id : ℕ) (sent : List ℕ) (fx start end end' : Effects)
        → start.sent ≡ fx.sent
        → end'.sent ≡ end.sent
        → Reached nets network (record self { limiters = l }) id sent start end
        → Reached nets network self id sent fx end'
    Reached-same l id sent fx start end end' same same' r = record {
      sink = r.sink;
      output = r.output;
      registered = r.registered;
      carries = r.carries;
      sent_once = same' ∙ r.sent_once ∙ ap (λ t. r.output ∷ t) same;
    }

    Allowed-same :
        (l : List (ℕ × SessionLimiter)) (info : PacketInfo) (packet' : List ℕ)
        → Allowed nets network (record self { limiters = l }) from assigned packet info packet'
        → Allowed nets network self from assigned packet info packet'
    unfolding policy_allows
    Allowed-same l info packet' a = record {
      trusted = a.trusted;
      fits = a.fits;
      kept = a.kept;
      in_policy = a.in_policy;
      hopped = a.hopped;
    }

    Handled-same :
        (l : List (ℕ × SessionLimiter)) (f : Metrics → Metrics) (fx start : Effects)
        (end : Result ForwardingError Forwarded × Effects)
        → start.sent ≡ fx.sent
        → Handled nets network (record self { limiters = l }) from assigned packet start end
        → Handled nets network self from assigned packet fx (end.0, count f end.1)
    unfolding session_mtu session_accepts
    Handled-same l f fx start _ same (dropped e fx' h) = dropped e (count f fx') (h ∙ same)
    Handled-same l f fx start _ same (aborted fx' h) = aborted (count f fx') (h ∙ same)
    Handled-same l f fx start _ same (answered e fx' info kind about error t which built r) =
        answered e (count f fx') info kind about error t which built
          (Reached-same l from error fx start fx' (count f fx') same refl r)
    Handled-same l f fx start _ same (to_tun info packet' fx' a absent device sent) =
        to_tun info packet' (count f fx') (Allowed-same l info packet' a) absent device
          (sent ∙ ap (λ t. tun_output packet' ∷ t) same)
    Handled-same l f fx start _ same (to_peer info packet' target fx' a found accepted small r) =
        to_peer info packet' target (count f fx') (Allowed-same l info packet' a) found accepted
          small (Reached-same l target packet' fx start fx' (count f fx') same refl r)

    after_admit-Handled :
        (admitted : Bool) (l : List (ℕ × SessionLimiter)) (fx start : Effects)
        → start.sent ≡ fx.sent
        → Handled nets network self from assigned packet fx
            (after_admit nets network from assigned packet start
              (admitted, record self { limiters = l })).0
    unfolding after_admit tallied
    after_admit-Handled true l fx start same =
        let end =
          forward_validated nets network (record self { limiters = l }) from assigned packet
            start in
        Handled-same l (tally end.0) fx start end same (
          forward_validated-Handled nets network (record self { limiters = l }) from assigned packet
            start)
    after_admit-Handled false l fx start same = dropped rate_limited _ same

    admit-Handled :
        (o : Option SessionLimiter) (now : ℕ) (fx start : Effects)
        → start.sent ≡ fx.sent
        → Handled nets network self from assigned packet fx
            (after_admit nets network from assigned packet start
              (admit nets network self from (length packet) now o)).0
    unfolding admit
    admit-Handled none now fx start same = after_admit-Handled true self.limiters fx start same
    admit-Handled (some limiter) now fx start same =
        let end = try_consume_at limiter (length packet) now in
        after_admit-Handled end.0 (insert self.limiters from end.1) fx start same

    -- Whatever bytes a session sends, the handling ends in one of these ways. It sends nothing, with an
    -- error or a panic; or it ends in an error and sends one ICMP error, to that session's own sink, about
    -- a well-formed packet from an address assigned to it; or it sends just that packet as `decrement_ttl`
    -- makes it, of a length within the MTU, to a destination that is not dropped and that the session's
    -- policy allows: to the TUN device where no route matches, or to the sink of the session that the
    -- routes name, where that session's policy accepts the source and its MTU the length.
    pub forward_from_client-Handled :
        (now : ℕ) (fx : Effects)
        → Handled nets network self from assigned packet fx
            (forward_from_client nets network self from assigned packet now fx).0
    unfolding forward_from_client
    forward_from_client-Handled now fx =
        admit-Handled (get self.limiters from) now fx
          (count (count_received nets network (length packet)) fx) refl
