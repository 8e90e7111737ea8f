-- ===== src/Socks5.antt =====
-- src/socks5.rs: the constants, the errors (one constructor for each message) and the commands.
-- The functions and their theorems are in the children.
pub mod Handshake
pub mod Datagram
pub mod RoundTrip
pub mod Requests
use ws2tcp_local_core.Base.{ℕ, [], ◌∷◌}
use ws2tcp_local_core.Text.{Text, Bytes}

abbrev pub socks5_version : ℕ
socks5_version = 0x05

abbrev pub cmd_connect : ℕ
cmd_connect = 0x01

abbrev pub cmd_udp_associate : ℕ
cmd_udp_associate = 0x03

abbrev pub atyp_ipv4 : ℕ
atyp_ipv4 = 0x01

abbrev pub atyp_domain : ℕ
atyp_domain = 0x03

abbrev pub atyp_ipv6 : ℕ
atyp_ipv6 = 0x04

abbrev pub auth_no_auth : ℕ
auth_no_auth = 0x00

abbrev pub auth_no_acceptable : ℕ
auth_no_acceptable = 0xFF

abbrev pub success_reply : Bytes
success_reply = socks5_version ∷ 0 ∷ 0 ∷ atyp_ipv4 ∷ 0 ∷ 0 ∷ 0 ∷ 0 ∷ 0 ∷ 0 ∷ []

abbrev pub general_failure_reply : Bytes
general_failure_reply = socks5_version ∷ 1 ∷ 0 ∷ atyp_ipv4 ∷ 0 ∷ 0 ∷ 0 ∷ 0 ∷ 0 ∷ 0 ∷ []

pub record Socks5Request : Type 0 where
  pub authority : Text

pub data Socks5Command : Type 0 where
  connect : Socks5Request → Socks5Command
  udp_associate : Socks5Command

pub data Error : Type 0 where
  read_greeting read_methods write_rejection no_supported_method write_selection : Error
  read_header read_ipv4 read_domain_length read_domain read_ipv6 read_port not_utf8 : Error
  bad_greeting_version bad_request_version bad_command bad_address_type : ℕ → Error
  short_datagram fragmented truncated_ipv4 truncated_length truncated_domain : Error
  truncated_ipv6 truncated_port : Error
