-- ===== src/Capsule.antt =====
-- Models the data types of src/capsule/mod.rs. The children model the codecs: `Address` and
-- `Assign` src/capsule/address_assign.rs, `Request` src/capsule/address_request.rs, `Route`
-- src/capsule/route_advertisement.rs, `Ranges`, `Envelope` and `Stream` the rest of
-- src/capsule/mod.rs.
pub mod Loop
pub mod Address
pub mod Fields
pub mod Assign
pub mod Request
pub mod Route
pub mod Ranges
pub mod Envelope
pub mod Stream
mod Tests
use straw.Common.{ℕ, List}
use straw.Ip.{IpAddr}

abbrev pub capsule_address_assign : ℕ
capsule_address_assign = 1

abbrev pub capsule_address_request : ℕ
capsule_address_request = 2

abbrev pub capsule_route_advertisement : ℕ
capsule_route_advertisement = 3

pub record AssignedAddress : Type 0 where
  pub request_id : ℕ
  pub ip_version : ℕ
  pub ip_address : IpAddr
  pub prefix_length : ℕ

pub record AddressAssign : Type 0 where
  pub assigned_addresses : List AssignedAddress

pub record RequestedAddress : Type 0 where
  pub request_id : ℕ
  pub ip_version : ℕ
  pub ip_address : IpAddr
  pub prefix_length : ℕ

pub record AddressRequest : Type 0 where
  pub requested_addresses : List RequestedAddress

pub record IpAddressRange : Type 0 where
  pub ip_version : ℕ
  pub start_ip : IpAddr
  pub end_ip : IpAddr
  pub ip_protocol : ℕ

pub record RouteAdvertisement : Type 0 where
  pub ip_address_ranges : List IpAddressRange

pub data Capsule : Type 0 where
  address_assign : AddressAssign → Capsule
  address_request : AddressRequest → Capsule
  route_advertisement : RouteAdvertisement → Capsule
  unknown : ℕ → List ℕ → Capsule
