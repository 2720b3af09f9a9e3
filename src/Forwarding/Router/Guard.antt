-- ===== src/Forwarding/Router/Guard.antt =====
-- What the guards of src/forwarding/router.rs ensure: which sessions a look-up can name, and which routes
-- a client can install.
use straw.Common.{
  ℕ, ◌≤◌, ◌≡◌, ◌≢◌, inl, inr, refl, ap, sym, ◌∙◌, List, [], ◌∷◌, ◌++◌, Bool, true, false, not, ◌==◌,
  ◌||◌, leb, any, filter, filter-append, filter_none, All-filter, All, All-append, length,
  length-append, Option, none, some, Option-cases, Bool-cases, arith,
}
use straw.Ip.{IpAddr, same_ip}
use straw.Ip.Nets.{IpNets}
use straw.Ip.Table.{find, retain_ip}
use straw.Capsule.{IpAddressRange}
use straw.Forwarding.Router.{
  max_by_key, RouteEntry, RouteTable, of_other, replace_session_routes, remove_session, is_match,
  lookup,
}
use straw.Forwarding.Router.Lookup.{Answer, by_client, by_route, no_match, lookup-Answer}
use straw.Forwarding.Router.Ranges.{
  max_client_route_prefixes, overlaps, range_prefixes, is_denied, push_prefixes, push_ranges,
  entries_from_client_ranges,
}

All-middle :
    {A : Type 0} (P : A → Type 0) (before : List A) (x : A) (after : List A)
    → All P (before ++ x ∷ after)
    → P x
All-middle P [] x after h = h.0
All-middle P (y ∷ before) x after h = All-middle P before x after h.1

find-retain_ip :
    {V : Type 0} (keep : V → Bool) (m : List (IpAddr × V)) (a : IpAddr) (v : V)
    → find (retain_ip keep m) a ≡ some v
    → keep v ≡ true
unfolding find retain_ip
find-retain_ip keep [] a v e = absurd (ground arith)
find-retain_ip keep ((b, w) ∷ m) a v e = elim (Bool-cases (keep w)) [
  | inr h ↦ find-retain_ip keep m a v (rw h at e)
  | inl h ↦ elim (Bool-cases (same_ip b a)) [
    | inl same ↦
        let held = rw (h, same) at e in let is_w : w ≡ v = ground (arith, held) in rw (sym is_w) h
    | inr other ↦ find-retain_ip keep m a v (rw (h, other) at e)
  ]
]

module _ (nets : IpNets) where
  Answer-other :
      (self : RouteTable nets) (session : ℕ) (dst : IpAddr) (proto : ℕ) (o : Option ℕ)
      → Answer nets (remove_session nets self session) dst proto o
      → o ≢ some session
  unfolding remove_session
  Answer-other self session dst proto _ (by_client s e) same =
      let kept = find-retain_ip (λ t. not (t == session)) self.client_addrs dst s e in
      absurd (ground (arith, kept))
  Answer-other self session dst proto _ (by_route r e l) same =
      let kept =
        All-filter (of_other nets session) (λ q. of_other nets session q ≡ true) (λ q h. h)
          self.routes in
      let here =
        All-middle (λ q. of_other nets session q ≡ true) l.before r l.after (rw l.split at kept) in
      absurd (unfold of_other in ground (arith, here))
  Answer-other self session dst proto _ (no_match e h) same = absurd (ground arith)

  -- Once a session is removed, no look-up answers with it.
  pub lookup-remove_session :
      (self : RouteTable nets) (session : ℕ) (dst : IpAddr) (proto : ℕ)
      → lookup nets (remove_session nets self session) dst proto ≢ some session
  lookup-remove_session self session dst proto =
      Answer-other self session dst proto _
        (lookup-Answer nets (remove_session nets self session) dst proto)

  -- A route that a client may install: its own, and clear of the denied prefixes.
  pub Installable : ℕ → List nets.IpNet → RouteEntry nets → Type 0
  Installable session deny r = (r.session_id ≡ session) × (is_denied nets deny r.prefix ≡ false)

  Guarded : ℕ → List nets.IpNet → List (RouteEntry nets) → Type 0
  Guarded session deny entries = All (Installable session deny) entries × (length entries ≤ 128)

  push_prefixes-Guarded :
      (session ip_protocol : ℕ) (deny : List nets.IpNet) (entries : List (RouteEntry nets))
      (prefixes : List nets.IpNet)
      → Guarded session deny entries
      → any (is_denied nets deny) prefixes ≡ false
      → Guarded session deny (push_prefixes nets session ip_protocol entries prefixes).0
  unfolding push_prefixes
  push_prefixes-Guarded session ip_protocol deny entries [] h clear = h
  push_prefixes-Guarded session ip_protocol deny entries (prefix ∷ prefixes) h clear =
      elim (Bool-cases (leb max_client_route_prefixes (length entries))) [
        | inl full ↦ rw full h
        | inr room ↦
            let entry : RouteEntry nets = record {
              prefix = prefix;
              ip_protocol = ip_protocol;
              session_id = session;
            } in
            let clear_first : is_denied nets deny prefix ≡ false = ground arith in
            let clear_rest : any (is_denied nets deny) prefixes ≡ false = ground arith in
            rw room (
              push_prefixes-Guarded session ip_protocol deny (entries ++ entry ∷ []) prefixes
                (unfold Guarded Installable in
                  (
                    All-append (Installable session deny) entries (entry ∷ []) h.0
                        ((refl, clear_first), tt),
                    ground (arith, length-append entries (entry ∷ [])),
                  ))
                clear_rest)
      ]

  push_ranges-Guarded :
      (session : ℕ) (deny : List nets.IpNet) (entries : List (RouteEntry nets))
      (ranges : List IpAddressRange)
      → Guarded session deny entries
      → Guarded session deny (push_ranges nets session deny entries ranges)
  unfolding push_ranges
  push_ranges-Guarded session deny entries [] h = h
  push_ranges-Guarded session deny entries (range ∷ ranges) h =
      elim (Option-cases (range_prefixes nets range.start_ip range.end_ip)) [
        | inl malformed ↦
            rw (malformed, push_ranges) (push_ranges-Guarded session deny entries ranges h)
        | inr (prefixes, e) ↦ elim (Bool-cases (any (is_denied nets deny) prefixes)) [
          | inl denied ↦
              rw (e, denied, push_ranges) (push_ranges-Guarded session deny entries ranges h)
          | inr clear ↦
              let next =
                push_prefixes-Guarded session range.ip_protocol deny entries prefixes h clear in
              elim (Bool-cases (push_prefixes nets session range.ip_protocol entries prefixes).1) [
                | inl full ↦ rw (e, clear, full, push_ranges) next
                | inr room ↦
                    rw (e, clear, room, push_ranges)
                      (push_ranges-Guarded session deny
                        (push_prefixes nets session range.ip_protocol entries prefixes).0 ranges
                        next)
              ]
        ]
      ]

  -- The routes made from a client's ranges are at most 128, all toward the client's own session, and none
  -- overlaps a denied prefix.
  pub entries_from_client_ranges-Installable :
      (session : ℕ) (ranges : List IpAddressRange) (deny : List nets.IpNet)
      → All (Installable session deny) (entries_from_client_ranges nets session ranges deny)
        × (length (entries_from_client_ranges nets session ranges deny) ≤ 128)
  unfolding entries_from_client_ranges Guarded
  entries_from_client_ranges-Installable session ranges deny =
      push_ranges-Guarded session deny [] ranges (tt, omega arith)

  denied_clear :
      ((a b : nets.IpNet) (x : IpAddr)
        → nets.net_contains a x ≡ true
        → nets.net_contains b x ≡ true
        → (nets.net_contains a (nets.network b) || nets.net_contains b (nets.network a)) ≡ true)
      → (deny : List nets.IpNet) (prefix : nets.IpNet) (x : IpAddr)
      → any (λ d. nets.net_contains d x) deny ≡ true
      → is_denied nets deny prefix ≡ false
      → nets.net_contains prefix x ≡ false
  unfolding is_denied
  denied_clear law [] prefix x inside clear = absurd (ground arith)
  denied_clear law (d ∷ deny) prefix x inside clear =
      elim (Bool-cases (nets.net_contains prefix x)) [
        | inr out ↦ out
        | inl shared ↦ elim (Bool-cases (nets.net_contains d x)) [
          | inl held ↦
              absurd (let o = law d prefix x held shared in unfold overlaps in ground (arith, o))
          | inr other ↦ denied_clear law deny prefix x (ground arith) (ground arith)
        ]
      ]

  no_match-All :
      ((a b : nets.IpNet) (x : IpAddr)
        → nets.net_contains a x ≡ true
        → nets.net_contains b x ≡ true
        → (nets.net_contains a (nets.network b) || nets.net_contains b (nets.network a)) ≡ true)
      → (session : ℕ) (deny : List nets.IpNet) (dst : IpAddr) (proto : ℕ)
      → any (λ d. nets.net_contains d dst) deny ≡ true
      → (entries : List (RouteEntry nets)) → All (Installable session deny) entries
      → All (λ r. is_match nets dst proto r ≡ false) entries
  unfolding Installable is_match
  no_match-All law session deny dst proto inside [] h = tt
  no_match-All law session deny dst proto inside (r ∷ rs) h =
      let out = denied_clear law deny r.prefix dst inside h.0.1 in
      (ground (arith, out), no_match-All law session deny dst proto inside rs h.1)

  -- The answer from what the two tables have.
  abbrev answer : Option ℕ → Option (RouteEntry nets) → Option ℕ
  answer client route = elim client [
    | some session ↦ some session
    | none ↦ elim route [ some r ↦ some r.session_id | none ↦ none ]
  ]

  lookup-same :
      (a b : RouteTable nets) (dst : IpAddr) (proto : ℕ)
      → a.client_addrs ≡ b.client_addrs
      → filter (is_match nets dst proto) a.routes ≡ filter (is_match nets dst proto) b.routes
      → lookup nets a dst proto ≡ lookup nets b dst proto
  unfolding lookup
  lookup-same a b dst proto e e' =
      let best = λ (rs : List (RouteEntry nets)). max_by_key (λ r. nets.prefix_len r.prefix) rs in
      ap (λ addrs. answer (find addrs dst) (best (filter (is_match nets dst proto) a.routes))) e
      ∙ ap (λ rs. answer (find b.client_addrs dst) (best rs)) e'

  -- Where of any two prefixes that share an address one contains the network address of the other: for a
  -- destination inside a denied prefix, the routes that a client installs from its ranges change no
  -- look-up.
  pub lookup-replace_session_routes :
      ((a b : nets.IpNet) (x : IpAddr)
        → nets.net_contains a x ≡ true
        → nets.net_contains b x ≡ true
        → (nets.net_contains a (nets.network b) || nets.net_contains b (nets.network a)) ≡ true)
      → (self : RouteTable nets) (session : ℕ) (ranges : List IpAddressRange)
        (deny : List nets.IpNet) (dst : IpAddr) (proto : ℕ)
      → any (λ d. nets.net_contains d dst) deny ≡ true
      → lookup nets
          (replace_session_routes nets self session
            (entries_from_client_ranges nets session ranges deny))
          dst
          proto
        ≡ lookup nets (replace_session_routes nets self session []) dst proto
  unfolding replace_session_routes
  lookup-replace_session_routes law self session ranges deny dst proto inside =
      let entries = entries_from_client_ranges nets session ranges deny in
      let old = filter (of_other nets session) self.routes in
      let m = is_match nets dst proto in
      let none_match = filter_none m entries (
        no_match-All law session deny dst proto inside entries
          (entries_from_client_ranges-Installable session ranges deny).0) in
      lookup-same (replace_session_routes nets self session entries)
        (replace_session_routes nets self session []) dst proto refl
        (filter-append m old entries
          ∙ ap (λ t. filter m old ++ t) none_match
          ∙ sym (filter-append m old []))
