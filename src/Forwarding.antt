-- ===== src/Forwarding.antt =====
-- The forwarding path of src/forwarding: packets and ICMP (`Packet`, `Echo`, `Icmp` over `Bytes` and
-- `Checksum`), the rate limiter, the router, and the engine with its effects.
pub mod Bytes
pub mod Checksum
pub mod Limiter
pub mod Packet
pub mod Echo
pub mod Icmp
pub mod Router
pub mod Effects
pub mod Engine
mod Tests
