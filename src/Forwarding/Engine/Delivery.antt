-- ===== src/Forwarding/Engine/Delivery.antt =====
-- How the engine of src/forwarding/mod.rs delivers to a session, and the steps of its paths in cases.
use straw.Common.{
  ℕ, ◌≡◌, inl, inr, refl, List, ◌∷◌, Bool, true, false, length, Bool-cases, Option-cases,
  if◌then◌else◌, some, Result, ok, err, panic, expect, get, arith,
}
use straw.Error.{ForwardingError, no_route}
use straw.Ip.Nets.{IpNets}
use straw.Datagram.{ip_packet, encode_quic_datagram}
use straw.Forwarding.Effects.{
  Output, channel_output, datagram_output, Network, Effects, Step, then_do, lift,
}
use straw.Forwarding.Engine.{
  SessionSink, channel, datagram, ForwardingEngine, send, is_oversize, send_datagram, put_in_sink,
  count_delivered, deliver_to_session, count_mtu_dropped,
}

-- A step in cases, whatever is said of its end.
module _ {A B : Type 0} (P : Result ForwardingError B × Effects → Type 0) where
  pub then_lift :
      (r : Result ForwardingError A) (k : A → Step B) (fx : Effects)
      → ((e : ForwardingError) → r ≡ err e → P (err e, fx))
      → (r ≡ panic → P (panic, fx))
      → ((a : A) → r ≡ ok a → P (k a fx))
      → P (then_do (lift r) k fx)
  then_lift (ok a) k fx he hp ha = ha a refl
  then_lift (err e) k fx he hp ha = he e refl
  then_lift panic k fx he hp ha = hp refl

  pub then_step :
      (Q : Result ForwardingError A × Effects → Type 0) (m : Step A) (k : A → Step B) (fx : Effects)
      → Q (m fx)
      → ((e : ForwardingError) (fx' : Effects) → Q (err e, fx') → P (err e, fx'))
      → ((fx' : Effects) → Q (panic, fx') → P (panic, fx'))
      → ((a : A) (fx' : Effects) → Q (ok a, fx') → P (k a fx'))
      → P (then_do m k fx)
  then_step Q m k fx q he hp ha = go (m fx) q
    where
      go : (end : Result ForwardingError A × Effects) → Q end → P (then_do (λ _. end) k fx)
      go (ok a, fx') q = ha a fx' q
      go (err e, fx') q = he e fx' q
      go (panic, fx') q = hp fx' q

module _ {B : Type 0} (P : Result ForwardingError B × Effects → Type 0) where
  pub by_test :
      (b : Bool) (m n : Step B) (fx : Effects)
      → (b ≡ true → P (m fx))
      → (b ≡ false → P (n fx))
      → P ((if b then m else n) fx)
  by_test true m n fx ht hf = ht refl
  by_test false m n fx ht hf = hf refl

-- What a sink is given for a packet.
pub Carries : SessionSink → List ℕ → Output → Type 0
Carries (channel tx) packet output = output ≡ channel_output tx packet
Carries (datagram conn qsid) packet output =
    (wire : List ℕ) × (encode_quic_datagram qsid (ip_packet packet) ≡ ok wire)
    × (output ≡ datagram_output conn wire)

expect-ok : {E F A : Type 0} (r : Result E A) (a : A) → expect {F = F} r ≡ ok a → r ≡ ok a
expect-ok (ok b) a h = ground (arith, h)
expect-ok (err e) a h = absurd (ground (arith, h))
expect-ok panic a h = absurd (ground (arith, h))

module _ (nets : IpNets) (network : Network) where
  -- One more output went out, to the sink of the session.
  pub record Reached (self : ForwardingEngine nets) (id : ℕ) (packet : List ℕ) (fx fx' : Effects)
      : Type 0 where
    pub sink : SessionSink
    pub output : Output
    pub registered : get self.session_sinks id ≡ some sink
    pub carries : Carries sink packet output
    pub sent_once : fx'.sent ≡ output ∷ fx.sent

  pub data Delivery (self : ForwardingEngine nets) (id : ℕ) (packet : List ℕ) (fx : Effects)
      : Result ForwardingError (Unit {0}) × Effects → Type 0 where
    not_sent :
        (e : ForwardingError) (fx' : Effects)
        → fx'.sent ≡ fx.sent
        → Delivery self id packet fx (err e, fx')
    reached :
        (fx' : Effects) → Reached self id packet fx fx' → Delivery self id packet fx (ok tt, fx')
    unencoded : (fx' : Effects) → fx'.sent ≡ fx.sent → Delivery self id packet fx (panic, fx')

  -- How sending an output ends, and putting a packet in a sink.
  unfoldable pub Sends : Output → Effects → Result ForwardingError (Unit {0}) × Effects → Type 0
  Sends output fx (ok _, fx') = fx'.sent ≡ output ∷ fx.sent
  Sends output fx (err e, fx') = fx'.sent ≡ fx.sent
  Sends output fx (panic, fx') = ⊥

  pub send-Sends : (output : Output) (fx : Effects) → Sends output fx (send nets network output fx)
  unfolding send
  send-Sends output fx = elim (Bool-cases (network.accepts fx.sent output)) [
    | inl h ↦ rw h (unfold Sends in refl)
    | inr h ↦ rw h (unfold Sends in refl)
  ]

  Puts : SessionSink → List ℕ → Effects → Result ForwardingError (Unit {0}) × Effects → Type 0
  Puts sink packet fx (ok _, fx') =
      (output : Output) × Carries sink packet output × (fx'.sent ≡ output ∷ fx.sent)
  Puts sink packet fx (err e, fx') = fx'.sent ≡ fx.sent
  Puts sink packet fx (panic, fx') = fx'.sent ≡ fx.sent

  Puts-Sends :
      (sink : SessionSink) (packet : List ℕ) (output : Output) (fx : Effects)
      (end : Result ForwardingError (Unit {0}) × Effects)
      → Carries sink packet output
      → Sends output fx end
      → Puts sink packet fx end
  unfolding Puts Sends
  Puts-Sends sink packet output fx (ok u, fx') c h = (output, c, h)
  Puts-Sends sink packet output fx (err e, fx') c h = h
  Puts-Sends sink packet output fx (panic, fx') c h = absurd h

  put_in_sink-Puts :
      (sink : SessionSink) (packet : List ℕ) (fx : Effects)
      → Puts sink packet fx (put_in_sink nets network sink packet fx)
  unfolding put_in_sink Carries
  put_in_sink-Puts (channel tx) packet fx =
      Puts-Sends (channel tx) packet (channel_output tx packet) fx _ refl
        (send-Sends (channel_output tx packet) fx)
  put_in_sink-Puts (datagram conn qsid) packet fx =
      then_lift (Puts (datagram conn qsid) packet fx)
        (expect (encode_quic_datagram qsid (ip_packet packet)))
        (λ wire. send_datagram nets network conn wire) fx (λ e h. unfold Puts in refl)
        (λ h. unfold Puts in refl)
        (λ wire h.
          unfold send_datagram in
          elim (Bool-cases (is_oversize nets network fx.sent conn wire)) [
            | inl over ↦ rw over (unfold Puts count_mtu_dropped in refl)
            | inr fits ↦ rw fits (
                Puts-Sends (datagram conn qsid) packet (datagram_output conn wire) fx _
                  (wire, expect-ok _ wire h, refl) (send-Sends (datagram_output conn wire) fx))
          ])

  pub deliver_to_session-Delivery :
      (self : ForwardingEngine nets) (id : ℕ) (packet : List ℕ) (fx : Effects)
      → Delivery self id packet fx (deliver_to_session nets network self id packet fx)
  unfolding deliver_to_session Puts count_delivered
  deliver_to_session-Delivery self id packet fx = elim (Option-cases (get self.session_sinks id)) [
    | inl absent ↦ rw (absent, deliver_to_session) (not_sent no_route fx refl)
    | inr (sink, found) ↦
        rw (found, deliver_to_session)
          (then_step (Delivery self id packet fx) (Puts sink packet fx)
            (put_in_sink nets network sink packet)
            (λ _. count_delivered nets network (length packet)) fx (put_in_sink-Puts sink packet fx)
            (λ e fx' h. not_sent e fx' h) (λ fx' h. unencoded fx' h)
            (λ u fx' h.
              let (output, carries, sent) = h in
              reached _ (record {
                sink = sink;
                output = output;
                registered = found;
                carries = carries;
                sent_once = sent;
              })))
  ]
