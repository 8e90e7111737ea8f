-- ===== src/Net.antt =====
-- Addresses of `std::net`. IPv4 text is defined; IPv6 text is a pair of functions with the laws of
-- the standard library's documentation that the crate relies on.
pub mod Ipv4
pub mod Ipv6
