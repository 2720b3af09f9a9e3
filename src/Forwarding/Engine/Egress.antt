-- ===== src/Forwarding/Engine/Egress.antt =====
-- What the engine of src/forwarding/mod.rs lets out for a client's packet.
use straw.Common.{
  ℕ, ◌%◌, ◌^◌, ◌≤◌, ◌≡◌, ◌⊎◌, inl, inr, refl, ap, ◌∙◌, List, ◌∷◌, true, false, ltb, not, any,
  length, Bool-cases, Option-cases, none, some, Result, ok, err, panic, arith,
}
use straw.Error.{ForwardingError, mtu_exceeded, no_route, not_allowed}
use straw.Ip.Nets.{IpNets}
use straw.Capsule.{AssignedAddress}
use straw.Forwarding.Packet.{
  PacketInfo, parse_packet, holds, validate_source, is_dropped, validate_destination, decrement_ttl,
}
use straw.Forwarding.Icmp.{
  IcmpErrorKind, time_exceeded, no_route as icmp_no_route, admin_prohibited, packet_too_big,
  build_icmp_error,
}
use straw.Forwarding.Icmp.Total.{build_icmp_error-cases}
use straw.Forwarding.Router.{lookup}
use straw.Forwarding.Effects.{tun_output, Network, Effects, then_do, lift}
use straw.Forwarding.Engine.{
  ForwardingEngine, Forwarded, hairpin, tun, session_mtu, session_accepts, send, after_icmp,
  deliver_to_session, send_icmp_error, count_mtu_dropped,
}
use straw.Forwarding.Engine.Paths.{
  is_expired, refuse, policy_allows, after_decrement, hop, to_session, to_network, route, egress,
  checked, forward_validated,
}
use straw.Forwarding.Engine.Delivery.{
  then_lift, then_step, by_test, Reached, Delivery, not_sent, reached, unencoded, Sends, send-Sends,
  deliver_to_session-Delivery,
}

module _ (nets : IpNets) (network : Network) where
  -- The packet is well-formed, from an address of the session.
  pub Trusted : List AssignedAddress → List ℕ → PacketInfo → Type 0
  Trusted assigned packet info =
      (parse_packet packet ≡ ok info) × (any (holds nets info.src) assigned ≡ true)

  -- The packet may go on, as `packet'` with its TTL one less.
  pub record Allowed (self : ForwardingEngine nets) (from : ℕ) (assigned : List AssignedAddress)
      (packet : List ℕ) (info : PacketInfo) (packet' : List ℕ) : Type 0 where
    pub trusted : Trusted assigned packet info
    pub fits : length packet ≤ self.mtu
    pub kept : is_dropped info.dst ≡ false
    pub in_policy : policy_allows nets network self from info ≡ true
    pub hopped : decrement_ttl packet ≡ ok packet'

  -- How the handling of a packet may end: with nothing sent; with one ICMP error to the session that
  -- sent a trusted packet; with the packet to the TUN device, or to the session that the routes name.
  pub data Handled (self : ForwardingEngine nets) (from : ℕ) (assigned : List AssignedAddress)
      (packet : List ℕ) (fx : Effects) : Result ForwardingError Forwarded × Effects → Type 0 where
    dropped :
        (e : ForwardingError) (fx' : Effects)
        → fx'.sent ≡ fx.sent
        → Handled self from assigned packet fx (err e, fx')
    aborted :
        (fx' : Effects) → fx'.sent ≡ fx.sent → Handled self from assigned packet fx (panic, fx')
    answered :
        (e : ForwardingError) (fx' : Effects) (info : PacketInfo) (kind : IcmpErrorKind)
        (about error : List ℕ)
        → Trusted assigned packet info
        → (about ≡ packet) ⊎ (decrement_ttl packet ≡ ok about)
        → build_icmp_error kind self.icmp_source about ≡ ok (some error)
        → Reached nets network self from error fx fx'
        → Handled self from assigned packet fx (err e, fx')
    to_tun :
        (info : PacketInfo) (packet' : List ℕ) (fx' : Effects)
        → Allowed self from assigned packet info packet'
        → lookup nets self.route_table info.dst info.protocol ≡ none
        → self.tun_tx ≡ true
        → fx'.sent ≡ tun_output packet' ∷ fx.sent
        → Handled self from assigned packet fx (ok tun, fx')
    to_peer :
        (info : PacketInfo) (packet' : List ℕ) (target : ℕ) (fx' : Effects)
        → Allowed self from assigned packet info packet'
        → lookup nets self.route_table info.dst info.protocol ≡ some target
        → session_accepts nets self target info ≡ true
        → length packet' ≤ session_mtu nets self target
        → Reached nets network self target packet' fx fx'
        → Handled self from assigned packet fx (ok (hairpin target), fx')

  module _ (self : ForwardingEngine nets) (from : ℕ) (assigned : List AssignedAddress)
      (packet : List ℕ) where
    -- A refusal sends at most the ICMP error.
    Answers :
        IcmpErrorKind → List ℕ → Effects → Result ForwardingError (Unit {0}) × Effects → Type 0
    Answers kind about fx (ok _, fx') =
        (fx'.sent ≡ fx.sent)
        ⊎ ((error : List ℕ) × (build_icmp_error kind self.icmp_source about ≡ ok (some error))
            × Reached nets network self from error fx fx')
    Answers kind about fx (err e, fx') = ⊥
    Answers kind about fx (panic, fx') = fx'.sent ≡ fx.sent

    after_icmp-Answers :
        (kind : IcmpErrorKind) (about error : List ℕ) (fx : Effects)
        (end : Result ForwardingError (Unit {0}) × Effects)
        → build_icmp_error kind self.icmp_source about ≡ ok (some error)
        → Delivery nets network self from error fx end
        → Answers kind about fx (after_icmp nets network end)
    unfolding after_icmp Answers
    after_icmp-Answers kind about error fx _ built (not_sent e fx' same) = inl same
    after_icmp-Answers kind about error fx _ built (reached fx' r) = inr (
      error,
      built,
      record {
        sink = r.sink;
        output = r.output;
        registered = r.registered;
        carries = r.carries;
        sent_once = r.sent_once;
      },
    )
    after_icmp-Answers kind about error fx _ built (unencoded fx' same) = same

    send_icmp_error-Answers :
        (kind : IcmpErrorKind) (about : List ℕ) (fx : Effects)
        → Answers kind about fx (send_icmp_error nets network self from kind about fx)
    unfolding send_icmp_error
    send_icmp_error-Answers kind about fx =
        elim (build_icmp_error-cases kind self.icmp_source about) [
          | inl silent ↦ rw (silent, send_icmp_error) (unfold Answers in inl refl)
          | inr (error, built) ↦
              rw (built, send_icmp_error)
                (after_icmp-Answers kind about error fx _ built
                  (deliver_to_session-Delivery nets network self from error fx))
        ]

    -- A trusted packet refused, after effects that sent nothing.
    refuse-Handled :
        (info : PacketInfo) (kind : IcmpErrorKind) (about : List ℕ) (e : ForwardingError)
        (fx start : Effects)
        → Trusted assigned packet info
        → (about ≡ packet) ⊎ (decrement_ttl packet ≡ ok about)
        → start.sent ≡ fx.sent
        → Handled self from assigned packet fx (refuse nets network self from kind about e start)
    unfolding refuse Answers
    refuse-Handled info kind about e fx start t which same =
        then_step (Handled self from assigned packet fx) (Answers kind about start)
          (send_icmp_error nets network self from kind about) (λ _. lift (err e)) start
          (send_icmp_error-Answers kind about start) (λ e' fx' h. absurd h)
          (λ fx' h. aborted fx' (h ∙ same)) (λ u fx' h. refused fx' h)
      where
        refused :
            (fx' : Effects)
            → (fx'.sent ≡ start.sent)
              ⊎ ((error : List ℕ) × (build_icmp_error kind self.icmp_source about ≡ ok (some error))
                  × Reached nets network self from error start fx')
            → Handled self from assigned packet fx (err e, fx')
        refused fx' (inl quiet) = dropped e fx' (quiet ∙ same)
        refused fx' (inr (error, built, r)) =
            answered e fx' info kind about error t which built (record {
              sink = r.sink;
              output = r.output;
              registered = r.registered;
              carries = r.carries;
              sent_once = r.sent_once ∙ ap (λ l. r.output ∷ l) same;
            })

    to_session-Handled :
        (info : PacketInfo) (packet' : List ℕ) (target : ℕ) (fx : Effects)
        → Allowed self from assigned packet info packet'
        → lookup nets self.route_table info.dst info.protocol ≡ some target
        → Handled self from assigned packet fx
            (to_session nets network self from target info packet' fx)
    unfolding to_session
    to_session-Handled info packet' target fx a found =
        elim (Bool-cases (session_accepts nets self target info)) [
          | inr out ↦
              rw (out, to_session)
                (refuse-Handled info admin_prohibited packet' (not_allowed info.dst) fx fx a.trusted
                  (inr a.hopped) refl)
          | inl accepted ↦ elim (Bool-cases (ltb (session_mtu nets self target) (length packet'))) [
            | inl big ↦
                rw (accepted, big, to_session)
                  (refuse-Handled info (packet_too_big (session_mtu nets self target % 2 ^ 16))
                    packet' mtu_exceeded fx (count_mtu_dropped nets network fx) a.trusted
                    (inr a.hopped) (unfold count_mtu_dropped in refl))
            | inr small ↦
                rw (accepted, small, to_session)
                  (then_step (Handled self from assigned packet fx)
                    (Delivery nets network self target packet' fx)
                    (deliver_to_session nets network self target packet')
                    (λ _. lift (ok (hairpin target))) fx
                    (deliver_to_session-Delivery nets network self target packet' fx)
                    (λ e fx' d. failed e fx' d) (λ fx' d. lost fx' d)
                    (λ u fx' d. arrived u fx' accepted (ground arith) d))
          ]
        ]
      where
        failed :
            (e : ForwardingError) (fx' : Effects)
            → Delivery nets network self target packet' fx (err e, fx')
            → Handled self from assigned packet fx (err e, fx')
        failed e fx' (not_sent _ _ same) = dropped e fx' same

        lost :
            (fx' : Effects)
            → Delivery nets network self target packet' fx (panic, fx')
            → Handled self from assigned packet fx (panic, fx')
        lost fx' (unencoded _ same) = aborted fx' same

        arrived :
            (u : Unit {0}) (fx' : Effects)
            → session_accepts nets self target info ≡ true
            → length packet' ≤ session_mtu nets self target
            → Delivery nets network self target packet' fx (ok u, fx')
            → Handled self from assigned packet fx (ok (hairpin target), fx')
        arrived u fx' accepted small (reached _ r) =
            to_peer info packet' target fx' a found accepted small r

    to_network-Handled :
        (info : PacketInfo) (packet' : List ℕ) (fx : Effects)
        → Allowed self from assigned packet info packet'
        → lookup nets self.route_table info.dst info.protocol ≡ none
        → Handled self from assigned packet fx (to_network nets network self from packet' fx)
    unfolding to_network Sends
    to_network-Handled info packet' fx a absent =
        by_test (Handled self from assigned packet fx) self.tun_tx _ _ fx
          (λ device.
            then_step (Handled self from assigned packet fx)
              (Sends nets network (tun_output packet') fx) (send nets network (tun_output packet'))
              (λ _. lift (ok tun)) fx (send-Sends nets network (tun_output packet') fx)
              (λ e fx' same. dropped e fx' same) (λ fx' never. absurd never)
              (λ u fx' sent. to_tun info packet' fx' a absent device sent))
          (λ without.
            refuse-Handled info icmp_no_route packet' no_route fx fx a.trusted (inr a.hopped) refl)

    route-Handled :
        (info : PacketInfo) (packet' : List ℕ) (fx : Effects)
        → Allowed self from assigned packet info packet'
        → Handled self from assigned packet fx (route nets network self from info packet' fx)
    unfolding route
    route-Handled info packet' fx a =
        elim (Option-cases (lookup nets self.route_table info.dst info.protocol)) [
          | inl absent ↦ rw (absent, route) (to_network-Handled info packet' fx a absent)
          | inr (target, found) ↦
              rw (found, route) (to_session-Handled info packet' target fx a found)
        ]

    validate_source-holds :
        (info : PacketInfo)
        → validate_source nets info assigned ≡ ok tt
        → any (holds nets info.src) assigned ≡ true
    unfolding validate_source
    validate_source-holds info h = ground (arith, h)

    validate_destination-kept :
        (info : PacketInfo) → validate_destination info.dst ≡ ok tt → is_dropped info.dst ≡ false
    unfolding validate_destination
    validate_destination-kept info h = ground (arith, h)

    Hops : Effects → Result ForwardingError (List ℕ) × Effects → Type 0
    Hops fx (ok packet', fx') = (decrement_ttl packet ≡ ok packet') × (fx' ≡ fx)
    Hops fx (err e, fx') = Handled self from assigned packet fx (err e, fx')
    Hops fx (panic, fx') = Handled self from assigned packet fx (panic, fx')

    -- A refusal of any type has the end that one of the right type has.
    refuse-Hops :
        (kind : IcmpErrorKind) (e : ForwardingError) (fx : Effects)
        → Handled self from assigned packet fx (refuse nets network self from kind packet e fx)
        → Hops fx (refuse nets network self from kind packet e fx)
    unfolding refuse Hops
    refuse-Hops kind e fx h = go (send_icmp_error nets network self from kind packet fx) h
      where
        go :
            (end : Result ForwardingError (Unit {0}) × Effects)
            → Handled self from assigned packet fx (then_do (λ _. end) (λ _. lift (err e)) fx)
            → Hops fx (then_do (λ _. end) (λ _. lift (err e)) fx)
        go (ok u, fx') h = h
        go (err _, fx') h = h
        go (panic, fx') h = h

    after_decrement-Hops :
        (info : PacketInfo) (fx : Effects) (r : Result ForwardingError (List ℕ))
        → Trusted assigned packet info
        → decrement_ttl packet ≡ r
        → Hops fx (after_decrement nets network self from packet r fx)
    unfolding after_decrement
    after_decrement-Hops info fx (ok packet') t e = unfold Hops in (e, refl)
    after_decrement-Hops info fx (err x) t e =
        by_test (Hops fx) (is_expired x) _ _ fx
          (λ expired.
            refuse-Hops time_exceeded x fx
              (refuse-Handled info time_exceeded packet x fx fx t (inl refl) refl))
          (λ other. unfold Hops in dropped x fx refl)
    after_decrement-Hops info fx panic t e = unfold Hops in aborted fx refl

    hop-Hops :
        (info : PacketInfo) (fx : Effects)
        → Trusted assigned packet info
        → Hops fx (hop nets network self from packet fx)
    unfolding hop
    hop-Hops info fx t = after_decrement-Hops info fx (decrement_ttl packet) t refl

    egress-Handled :
        (info : PacketInfo) (fx : Effects)
        → Trusted assigned packet info
        → length packet ≤ self.mtu
        → is_dropped info.dst ≡ false
        → Handled self from assigned packet fx (egress nets network self from info packet fx)
    unfolding egress Hops
    egress-Handled info fx t fits kept =
        let P = Handled self from assigned packet fx in
        by_test P (not (policy_allows nets network self from info)) _ _ fx
          (λ out.
            refuse-Handled info admin_prohibited packet (not_allowed info.dst) fx fx t (inl refl)
              refl)
          (λ inside.
            then_step P (Hops fx) (hop nets network self from packet)
              (λ packet'. route nets network self from info packet') fx (hop-Hops info fx t)
              (λ e fx' h. h) (λ fx' h. h)
              (λ packet' fx' h.
                let (hopped, same) = h in
                rw same (
                  route-Handled info packet' fx (record {
                    trusted = t;
                    fits = fits;
                    kept = kept;
                    in_policy = ground arith;
                    hopped = hopped;
                  }))))

    checked-Handled :
        (info : PacketInfo) (fx : Effects)
        → Trusted assigned packet info
        → Handled self from assigned packet fx (checked nets network self from info packet fx)
    unfolding checked
    checked-Handled info fx t =
        let P = Handled self from assigned packet fx in
        by_test P (ltb self.mtu (length packet)) _ _ fx
          (λ big.
            refuse-Handled info (packet_too_big (self.mtu % 2 ^ 16)) packet mtu_exceeded fx fx t
              (inl refl) refl)
          (λ fits.
            then_lift P (validate_destination info.dst)
              (λ _. egress nets network self from info packet) fx (λ e _. dropped e fx refl)
              (λ _. aborted fx refl)
              (λ v kept.
                egress-Handled info fx t (ground arith) (validate_destination-kept info kept)))

    pub forward_validated-Handled :
        (fx : Effects)
        → Handled self from assigned packet fx
            (forward_validated nets network self from assigned packet fx)
    unfolding forward_validated Trusted
    forward_validated-Handled fx =
        let P = Handled self from assigned packet fx in
        then_lift P (parse_packet packet)
          (λ info.
            then_do (lift (validate_source nets info assigned))
              (λ _. checked nets network self from info packet))
          fx (λ e _. dropped e fx refl) (λ _. aborted fx refl)
          λ info parses.
            then_lift P (validate_source nets info assigned)
              (λ _. checked nets network self from info packet) fx (λ e _. dropped e fx refl)
              (λ _. aborted fx refl)
              λ u valid. checked-Handled info fx (parses, validate_source-holds info valid)
