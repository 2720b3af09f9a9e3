-- ===== src/Lib.antt =====
-- Models and proofs for straw, a proxy for IP and UDP over HTTP/3 (MASQUE: RFC 9484 CONNECT-IP and
-- CONNECT-UDP bind) in Rust.
--
-- The parts and how they interact. A client opens a request stream; capsules go over that stream
-- and datagrams beside it. Every number on the wire is a varint, so both stand on the varint codec.
-- The session reads capsules through a buffer that takes the stream in chunks. IP packets come as
-- datagrams and go to the forwarding engine: the session's rate limiter, the checks of source,
-- size, destination and egress policy, one hop, and then the router, which names another session or
-- none, so that the packet goes to that session's sink or to the TUN device. Drops that a router
-- would report are answered with an ICMP error. The session table holds each session with a snapshot
-- of its addresses, which the engine's caller hands to it, and the address pool gives those
-- addresses. A bind session takes an address from the port pool, registers compression contexts by
-- capsule, and frames its UDP payloads by them.
--
-- Which file models what:
-- - Common and its children: what the models share. Tests has Boolean tests on native numbers,
--   Lists lists, Bits laws of `|`, Outcome the results of fallible calls (`panic` is an `unwrap` on
--   an error), Order Rust's `Ordering` and stable sorting, Assoc hash maps as association lists.
-- - Ip: IP addresses as a family and a number, Ip/Octets their bytes, Ip/Socket socket addresses
--   and sets of them, Ip/Kinds the tests such as `is_loopback`, Ip/Table maps from addresses, all
--   of the standard library. Ip/Nets has the prefixes of the ipnet crate as an interface,
--   Ip/Nets/Sample prefixes to run the models on.
-- - Error: src/error.rs.
-- - Buffer: `bytes::Buf` as the list of the bytes that remain, with reads that can fail;
--   Buffer/Laws what a chain of reads takes, yields and depends on.
-- - Varint: src/capsule/codec.rs. Shape has the bytes written, Laws and Reads the reading, Codec
--   both.
-- - Capsule: the types of src/capsule/mod.rs. Loop has the loops over entries, Address and Fields
--   what the address capsules share, Assign src/capsule/address_assign.rs, Request
--   src/capsule/address_request.rs, Route src/capsule/route_advertisement.rs, Envelope
--   `decode_capsule` and `encode_capsule`, Ranges `contains` and `merge_ranges`, Stream
--   `CapsuleBuffer` with the loop of src/client.rs that drains it.
-- - Datagram: src/datagram/mod.rs, Datagram/Registry src/datagram/context.rs.
-- - Forwarding: Limiter is src/forwarding/limiter.rs; Packet and Echo are src/forwarding/packet.rs,
--   over Bytes and Checksum; Icmp is src/forwarding/icmp.rs, with the answers of its builders in
--   Icmp/Total; Router with Router/Ranges is src/forwarding/router.rs. Engine and Engine/Paths are
--   `ForwardingEngine` of src/forwarding/mod.rs, and Effects has what a packet changes outside the
--   tables: the counters of src/metrics.rs and the packets sent. Engine/Delivery, Egress, Client,
--   Dispatch and Total have the proofs about the paths.
-- - AddressPool: src/address_pool.rs; AddressPool/Unique and Exhaust have the proofs.
-- - Session: src/session/mod.rs; Session/Coherent has its invariant.
-- - UdpBind: Alloc is src/udp_bind/alloc.rs; Address, Context, Context/Capsules are
--   src/udp_bind/context.rs, with the codepoints of src/codepoints.rs.
-- Tests files run the models on concrete inputs.
--
-- State is passed explicitly: a method that takes `&mut self` returns the new state, and one behind
-- a mutex is one step. A `Buf` is a list, so that a read past its end, which panics in Rust, is
-- `abort`; a packet of bytes is indexed and sliced by `read` and its kin of Forwarding/Bytes, which
-- panic past its end. A step of the engine takes the effects so far to a result and the effects
-- after it. That a channel or a connection takes a packet, and how long its datagrams may be, is a
-- parameter, the record `Network`. Integers are natural numbers, with `% 2 ^ w` where the code can
-- wrap.
--
-- Fuel: the loop over a payload's entries gets as many rounds as the payload has bytes, and
-- draining a buffer one more than the buffer has; each round takes a byte, so the fuel does not run
-- out. The scans of the port pool and the walk over the IPv6 extension headers have the rounds of
-- the Rust loops, the search for an address in a pool has more rounds than the pool has addresses,
-- and two rounds fold the carries of every 32-bit sum of a checksum. All other loops are
-- structural.
--
-- Not modelled: everything that is asynchronous I/O (the QUIC endpoints, sockets, TUN devices and
-- the tasks around them), configuration and command lines, the vendored h3, and, so far, the
-- handler of a session's capsules, URI templates and the peer-to-peer paths.
pub mod Common
pub mod Ip
pub mod Error
pub mod Buffer
pub mod Varint
pub mod Capsule
pub mod Datagram
pub mod AddressPool
pub mod Forwarding
pub mod Session
pub mod UdpBind
