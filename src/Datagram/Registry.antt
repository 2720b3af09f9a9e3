-- ===== src/Datagram/Registry.antt =====
-- Models src/datagram/context.rs: which context ids of a session are known.
use straw.Common.{ℕ, List, [], Option, get, insert}
use straw.Datagram.{context_id_ip_packet}

pub data ContextKind : Type 0 where
  ip_packet : ContextKind

pub record ContextRegistry : Type 0 where
  pub contexts : List (ℕ × ContextKind)

unfoldable pub new : ContextRegistry
unfolding insert
new = record { contexts = insert [] context_id_ip_packet ip_packet }

unfoldable pub lookup : ContextRegistry → ℕ → Option ContextKind
unfolding get
lookup self context_id = get self.contexts context_id

unfoldable pub register : ContextRegistry → ℕ → ContextKind → ContextRegistry
unfolding insert
register self context_id kind = record { contexts = insert self.contexts context_id kind }
