-- ===== src/Session.antt =====
-- Models src/session/mod.rs: the table of sessions. A session is known by its number; the scope and the
-- way of authentication are carried along, whatever they are. An `Instant` is a number of nanoseconds.
pub mod Coherent
mod Tests
use straw.Common.{
  ℕ, ◌+◌, ◌-◌, ◌*◌, ◌/◌, ◌%◌, ◌^◌, bit_and, bit_or, List, [], ◌∷◌, Bool, true, false, ◌&&◌, ◌==◌,
  leb, ltb, length, if◌then◌else◌, Option, none, some, get, erase, insert,
}
use straw.Capsule.{AssignedAddress, IpAddressRange}

-- `(conn_seq << 40) | (stream_id & ((1 << 40) - 1))`; a shift of a `u64` drops the high bits.
unfoldable pub compose : ℕ → ℕ → ℕ
compose conn_seq stream_id = bit_or (conn_seq * 2 ^ 40 % 2 ^ 64) (bit_and stream_id (2 ^ 40 - 1))

unfoldable pub stream_id : ℕ → ℕ
stream_id id = bit_and id (2 ^ 40 - 1)

unfoldable pub conn_seq : ℕ → ℕ
conn_seq id = id / 2 ^ 40

module _ (RequestScope AuthContext : Type 0) where
  pub record TunnelSession : Type 0 where
    pub id : ℕ
    pub scope : RequestScope
    pub assigned_addresses : List AssignedAddress
    pub advertised_routes : List IpAddressRange
    pub client_routes : List IpAddressRange
    pub proxy_addresses : List AssignedAddress
    pub auth : AuthContext
    pub last_activity : ℕ

  unfoldable pub new_session : ℕ → RequestScope → AuthContext → ℕ → TunnelSession
  new_session id scope auth now = record {
    id = id;
    scope = scope;
    assigned_addresses = [];
    advertised_routes = [];
    client_routes = [];
    proxy_addresses = [];
    auth = auth;
    last_activity = now;
  }

  pub record SessionManager : Type 0 where
    pub sessions : List (ℕ × TunnelSession)
    pub assigned : List (ℕ × List AssignedAddress)
    pub max_sessions : ℕ

  unfoldable pub new_manager : ℕ → SessionManager
  new_manager max_sessions = record { sessions = []; assigned = []; max_sessions = max_sessions }

  unfoldable pub is_full : SessionManager → Bool
  is_full self = ltb 0 self.max_sessions && leb self.max_sessions (length self.sessions)

  -- `none` where the limit is reached: `ProxyError::InvalidRequest`.
  unfoldable pub insert_session : SessionManager → TunnelSession → Option SessionManager
  insert_session self session =
      if is_full self
      then none
      else some (record self {
        assigned = insert self.assigned session.id session.assigned_addresses;
        sessions = insert self.sessions session.id session;
      })

  -- `if let Some(mut s) = self.sessions.get_mut(&id)`
  unfoldable pub modify :
      List (ℕ × TunnelSession)
      → ℕ
      → (TunnelSession → TunnelSession)
      → Option TunnelSession
      → List (ℕ × TunnelSession)
  modify sessions id change none = sessions
  modify sessions id change (some s) = insert sessions id (change s)

  unfoldable pub with_session :
      SessionManager → ℕ → (TunnelSession → TunnelSession) → SessionManager
  with_session self id change = record self {
    sessions = modify self.sessions id change (get self.sessions id);
  }

  -- The snapshot is written whether the session is there or not.
  unfoldable pub set_assigned : SessionManager → ℕ → List AssignedAddress → SessionManager
  set_assigned self id addrs = record self {
    sessions =
        modify self.sessions id (λ s. record s { assigned_addresses = addrs })
          (get self.sessions id);
    assigned = insert self.assigned id addrs;
  }

  unfoldable pub set_client_routes : SessionManager → ℕ → List IpAddressRange → SessionManager
  set_client_routes self id routes = with_session self id (λ s. record s { client_routes = routes })

  unfoldable pub set_proxy_addresses : SessionManager → ℕ → List AssignedAddress → SessionManager
  set_proxy_addresses self id addrs =
      with_session self id (λ s. record s { proxy_addresses = addrs })

  unfoldable pub assigned_snapshot : SessionManager → ℕ → Option (List AssignedAddress)
  assigned_snapshot self id = get self.assigned id

  unfoldable pub touch : SessionManager → ℕ → ℕ → SessionManager
  touch self id now = with_session self id (λ s. record s { last_activity = now })

  unfoldable pub remove : SessionManager → ℕ → SessionManager
  remove self id = record self {
    sessions = erase self.sessions id;
    assigned = erase self.assigned id;
  }

  unfoldable pub idle_in : ℕ → ℕ → List (ℕ × TunnelSession) → List ℕ
  idle_in now max_idle [] = []
  idle_in now max_idle ((_, s) ∷ sessions) =
      let rest = idle_in now max_idle sessions in
      if ltb max_idle (now - s.last_activity) then s.id ∷ rest else rest

  unfoldable pub idle_sessions : SessionManager → ℕ → ℕ → List ℕ
  idle_sessions self now max_idle = idle_in now max_idle self.sessions
