-- ===== src/Tests.antt =====
-- Runs of the code at concrete inputs, and the theorems at inputs that meet their hypotheses.
mod Ipv6
mod Socks5
mod HttpProxy
mod Routing
mod Sources
mod Session
mod World
mod Tunnel
mod Association
mod Upstream
mod Settings
