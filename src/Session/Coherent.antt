-- ===== src/Session/Coherent.antt =====
-- The invariant of the session table of src/session/mod.rs.
use straw.Common.{
  ℕ, ◌≤◌, ◌<◌, ◌≡◌, ◌⊎◌, inl, inr, refl, ap, sym, ◌∙◌, List, [], ◌∷◌, false, ◌==◌, ltb, length,
  Bool-cases, Option, none, some, get, erase, insert, get-erase_at, get-insert_at, ==_refl, arith,
}
use straw.Capsule.{AssignedAddress, IpAddressRange}
use straw.Session.{
  TunnelSession, SessionManager, new_manager, is_full, insert_session, modify, with_session,
  set_assigned, set_client_routes, set_proxy_addresses, touch, remove,
}

length-erase : {V : Type 0} (m : List (ℕ × V)) (k : ℕ) → length (erase m k) ≤ length m
unfolding erase
length-erase [] k = omega arith
length-erase ((j, v) ∷ m) k = ground (arith, length-erase m k)

length-erase_found :
    {V : Type 0} (m : List (ℕ × V)) (k : ℕ) (v : V)
    → get m k ≡ some v
    → length (erase m k) < length m
unfolding erase get
length-erase_found [] k v e = absurd (ground (arith, e))
length-erase_found ((j, w) ∷ m) k v e = elim (Bool-cases (j == k)) [
  | inl same ↦ rw same (omega (arith, length-erase m k))
  | inr other ↦ rw other (omega (arith, length-erase_found m k v (rw other at e)))
]

module _ (RequestScope AuthContext : Type 0) where
  -- What is done to the table; an insert that is refused leaves it.
  pub data Op : Type 0 where
    insert_op : TunnelSession RequestScope AuthContext → Op
    set_assigned_op : ℕ → List AssignedAddress → Op
    set_client_routes_op : ℕ → List IpAddressRange → Op
    set_proxy_addresses_op : ℕ → List AssignedAddress → Op
    touch_op : ℕ → ℕ → Op
    remove_op : ℕ → Op

  abbrev or_same :
      SessionManager RequestScope AuthContext
      → Option (SessionManager RequestScope AuthContext)
      → SessionManager RequestScope AuthContext
  or_same self none = self
  or_same self (some self') = self'

  unfoldable pub apply :
      SessionManager RequestScope AuthContext → Op → SessionManager RequestScope AuthContext
  apply self (insert_op s) = or_same self (insert_session RequestScope AuthContext self s)
  apply self (set_assigned_op id addrs) = set_assigned RequestScope AuthContext self id addrs
  apply self (set_client_routes_op id routes) =
      set_client_routes RequestScope AuthContext self id routes
  apply self (set_proxy_addresses_op id addrs) =
      set_proxy_addresses RequestScope AuthContext self id addrs
  apply self (touch_op id now) = touch RequestScope AuthContext self id now
  apply self (remove_op id) = remove RequestScope AuthContext self id

  unfoldable pub apply_all :
      SessionManager RequestScope AuthContext → List Op → SessionManager RequestScope AuthContext
  apply_all self [] = self
  apply_all self (op ∷ ops) = apply_all (apply self op) ops

  -- Each session's snapshot has its addresses.
  pub Snapshots :
      List (ℕ × TunnelSession RequestScope AuthContext) → List (ℕ × List AssignedAddress) → Type 0
  Snapshots sessions assigned =
      (id : ℕ) (s : TunnelSession RequestScope AuthContext)
      → get sessions id ≡ some s
      → get assigned id ≡ some s.assigned_addresses

  snapshot_of : Option (TunnelSession RequestScope AuthContext) → Option (List AssignedAddress)
  snapshot_of none = none
  snapshot_of (some s) = some s.assigned_addresses

  -- The entry at `id` is replaced, and its snapshot is that of the new one.
  Snapshots-insert :
      (sessions : List (ℕ × TunnelSession RequestScope AuthContext))
      (assigned assigned' : List (ℕ × List AssignedAddress)) (id : ℕ)
      (s : TunnelSession RequestScope AuthContext)
      → Snapshots sessions assigned
      → get assigned' id ≡ some s.assigned_addresses
      → ((j : ℕ) → (j == id) ≡ false → get assigned' j ≡ get assigned j)
      → Snapshots (insert sessions id s) assigned'
  unfolding Snapshots snapshot_of
  Snapshots-insert sessions assigned assigned' id s h here others j t e =
      elim (Bool-cases (j == id)) [
        | inl same ↦
            let is_id : j ≡ id = ground (arith, same) in
            let found = sym (rw same at (get-insert_at sessions id s j)) ∙ e in
            ap (λ k. get assigned' k) is_id ∙ here ∙ ap snapshot_of found
        | inr other ↦ others j other ∙ h j t (sym (rw other at (get-insert_at sessions id s j)) ∙ e)
      ]

  Snapshots-modify :
      (sessions : List (ℕ × TunnelSession RequestScope AuthContext))
      (assigned : List (ℕ × List AssignedAddress)) (id : ℕ)
      (change : TunnelSession RequestScope AuthContext → TunnelSession RequestScope AuthContext)
      (o : Option (TunnelSession RequestScope AuthContext))
      → get sessions id ≡ o
      → ((s : TunnelSession RequestScope AuthContext)
          → (change s).assigned_addresses ≡ s.assigned_addresses)
      → Snapshots sessions assigned
      → Snapshots (modify RequestScope AuthContext sessions id change o) assigned
  unfolding modify
  Snapshots-modify sessions assigned id change none e keeps h = h
  Snapshots-modify sessions assigned id change (some s) e keeps h =
      Snapshots-insert sessions assigned assigned id (change s) h
        (unfold Snapshots in h id s e ∙ ap some (sym (keeps s))) (λ j other. refl)

  Snapshots-assign :
      (sessions : List (ℕ × TunnelSession RequestScope AuthContext))
      (assigned : List (ℕ × List AssignedAddress)) (id : ℕ) (addrs : List AssignedAddress)
      (o : Option (TunnelSession RequestScope AuthContext))
      → get sessions id ≡ o
      → Snapshots sessions assigned
      → Snapshots
          (modify RequestScope AuthContext sessions id
            (λ s. record s { assigned_addresses = addrs })
            o)
          (insert assigned id addrs)
  unfolding modify Snapshots
  Snapshots-assign sessions assigned id addrs none e h = λ j t f. elim (Bool-cases (j == id)) [
    | inl same ↦ absurd (
        let is_id : j ≡ id = ground (arith, same) in
        let gone = ap (λ k. get sessions k) (sym is_id) in ground (arith, e, f, gone))
    | inr other ↦ rw other at (get-insert_at assigned id addrs j) ∙ h j t f
  ]
  Snapshots-assign sessions assigned id addrs (some s) e h =
      Snapshots-insert sessions assigned (insert assigned id addrs) id
        (record s { assigned_addresses = addrs }) h
        (rw (==_refl id) at (get-insert_at assigned id addrs id))
        (λ j other. rw other at (get-insert_at assigned id addrs j))

  Snapshots-erase :
      (sessions : List (ℕ × TunnelSession RequestScope AuthContext))
      (assigned : List (ℕ × List AssignedAddress)) (id : ℕ)
      → Snapshots sessions assigned
      → Snapshots (erase sessions id) (erase assigned id)
  unfolding Snapshots
  Snapshots-erase sessions assigned id h j t e = elim (Bool-cases (j == id)) [
    | inl same ↦
        absurd (let gone = rw same at (get-erase_at sessions id j) in ground (arith, gone, e))
    | inr other ↦
        rw other at (get-erase_at assigned id j)
        ∙ h j t (sym (rw other at (get-erase_at sessions id j)) ∙ e)
  ]

  -- No more sessions than the limit, where there is one.
  pub HasRoom : SessionManager RequestScope AuthContext → Type 0
  HasRoom self = (self.max_sessions ≡ 0) ⊎ (length self.sessions ≤ self.max_sessions)

  pub Coherent : SessionManager RequestScope AuthContext → Type 0
  Coherent self = Snapshots self.sessions self.assigned × HasRoom self

  length-modify :
      (sessions : List (ℕ × TunnelSession RequestScope AuthContext)) (id : ℕ)
      (change : TunnelSession RequestScope AuthContext → TunnelSession RequestScope AuthContext)
      (o : Option (TunnelSession RequestScope AuthContext))
      → get sessions id ≡ o
      → length (modify RequestScope AuthContext sessions id change o) ≤ length sessions
  unfolding modify insert
  length-modify sessions id change none e = omega arith
  length-modify sessions id change (some s) e = omega (arith, length-erase_found sessions id s e)

  HasRoom-fewer :
      (self self' : SessionManager RequestScope AuthContext)
      → self'.max_sessions ≡ self.max_sessions
      → length self'.sessions ≤ length self.sessions
      → HasRoom self
      → HasRoom self'
  unfolding HasRoom
  HasRoom-fewer self self' same fewer (inl none_set) = inl (same ∙ none_set)
  HasRoom-fewer self self' same fewer (inr fits) = inr (omega arith)

  with_session-Coherent :
      (self : SessionManager RequestScope AuthContext) (id : ℕ)
      (change : TunnelSession RequestScope AuthContext → TunnelSession RequestScope AuthContext)
      → ((s : TunnelSession RequestScope AuthContext)
          → (change s).assigned_addresses ≡ s.assigned_addresses)
      → Coherent self
      → Coherent (with_session RequestScope AuthContext self id change)
  unfolding with_session Coherent
  with_session-Coherent self id change keeps (snapshots, room) = (
    Snapshots-modify self.sessions self.assigned id change (get self.sessions id) refl keeps
        snapshots,
    HasRoom-fewer self _ refl (length-modify self.sessions id change (get self.sessions id) refl)
        room,
  )

  HasRoom-insert :
      (self : SessionManager RequestScope AuthContext) (s : TunnelSession RequestScope AuthContext)
      → is_full RequestScope AuthContext self ≡ false
      → HasRoom (record self {
        assigned = insert self.assigned s.id s.assigned_addresses;
        sessions = insert self.sessions s.id s;
      })
  unfolding HasRoom is_full insert
  HasRoom-insert self s free = elim (Bool-cases (ltb 0 self.max_sessions)) [
    | inl limited ↦ inr (ground (arith, free, limited, length-erase self.sessions s.id))
    | inr unlimited ↦ inl (ground (arith, unlimited))
  ]

  insert_session-Coherent :
      (self : SessionManager RequestScope AuthContext) (s : TunnelSession RequestScope AuthContext)
      → Coherent self
      → Coherent (or_same self (insert_session RequestScope AuthContext self s))
  unfolding insert_session Coherent
  insert_session-Coherent self s (snapshots, room) =
      elim (Bool-cases (is_full RequestScope AuthContext self)) [
        | inl full ↦ rw full (snapshots, room)
        | inr free ↦ rw free (
            (
              Snapshots-insert self.sessions self.assigned
                  (insert self.assigned s.id s.assigned_addresses) s.id s snapshots
                  (rw (==_refl s.id) at
                    (get-insert_at self.assigned s.id s.assigned_addresses s.id))
                  (λ j other.
                    rw other at (get-insert_at self.assigned s.id s.assigned_addresses j)),
              HasRoom-insert self s free,
            ))
      ]

  apply-Coherent :
      (self : SessionManager RequestScope AuthContext) (op : Op)
      → Coherent self
      → Coherent (apply self op)
  unfolding apply Coherent set_assigned set_client_routes set_proxy_addresses touch remove
  apply-Coherent self (insert_op s) h = insert_session-Coherent self s h
  apply-Coherent self (set_assigned_op id addrs) h = (
    Snapshots-assign self.sessions self.assigned id addrs (get self.sessions id) refl h.0,
    HasRoom-fewer self _ refl
        (length-modify self.sessions id (λ s. record s { assigned_addresses = addrs })
          (get self.sessions id) refl)
        h.1,
  )
  apply-Coherent self (set_client_routes_op id routes) h =
      with_session-Coherent self id _ (λ s. refl) h
  apply-Coherent self (set_proxy_addresses_op id addrs) h =
      with_session-Coherent self id _ (λ s. refl) h
  apply-Coherent self (touch_op id now) h = with_session-Coherent self id _ (λ s. refl) h
  apply-Coherent self (remove_op id) h = (
    Snapshots-erase self.sessions self.assigned id h.0,
    HasRoom-fewer self _ refl (length-erase self.sessions id) h.1,
  )

  apply_all-Coherent_from :
      (self : SessionManager RequestScope AuthContext) (ops : List Op)
      → Coherent self
      → Coherent (apply_all self ops)
  unfolding apply_all
  apply_all-Coherent_from self [] h = h
  apply_all-Coherent_from self (op ∷ ops) h =
      apply_all-Coherent_from (apply self op) ops (apply-Coherent self op h)

  -- After any sequence of operations on a new table, each session's snapshot has just the addresses
  -- assigned to it, and there are no more sessions than the limit, where one is set.
  pub apply_all-Coherent :
      (max_sessions : ℕ) (ops : List Op)
      → Coherent (apply_all (new_manager RequestScope AuthContext max_sessions) ops)
  unfolding new_manager
  apply_all-Coherent max_sessions ops = apply_all-Coherent_from _ ops (
      unfold Coherent Snapshots HasRoom get in
      ((λ id s e. absurd (ground (arith, e))), inr (omega arith)))
