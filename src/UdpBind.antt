-- ===== src/UdpBind.antt =====
-- The CONNECT-UDP bind proxy of src/udp_bind: `Alloc` models its port pool.
pub mod Alloc
pub mod Address
pub mod Context
mod Tests
