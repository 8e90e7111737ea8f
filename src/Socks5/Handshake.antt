-- ===== src/Socks5/Handshake.antt =====
-- `read_socks5_request` and the functions below it: src/socks5.rs.
use ws2tcp_local_core.Base.{ℕ, get_or, ◌+◌, ◌*◌, ◌||◌, [], ◌∷◌, ◌++◌, ok_or, ◌==◌, if◌then◌else◌}
use ws2tcp_local_core.Text.{Text, Bytes}
use ws2tcp_local_core.Text.Utf8.{from_utf8}
use ws2tcp_local_core.Text.Split.{contains}
use ws2tcp_local_core.Text.Number.{decimal}
use ws2tcp_local_core.Net.Ipv4
use ws2tcp_local_core.Net.Ipv4.{Ipv4}
use ws2tcp_local_core.Net.Ipv6.{Ipv6Text}
use ws2tcp_local_core.Stream.{Exec, ◌>>=◌, ◌>>◌, pure, fail, lift, guard, read_exact, write_all}
use ws2tcp_local_core.Socks5.{
  socks5_version, cmd_connect, cmd_udp_associate, atyp_ipv4, atyp_domain, atyp_ipv6, auth_no_auth,
  auth_no_acceptable, Socks5Command, connect, udp_associate, Error, read_greeting, read_methods,
  write_rejection, no_supported_method, write_selection, read_header, read_ipv4, read_domain_length,
  read_domain, read_ipv6, read_port, not_utf8, bad_greeting_version, bad_request_version,
  bad_command, bad_address_type,
}

-- `[u8; n]` element; the arrays are read whole, so the index is in range
abbrev at : Bytes → ℕ → ℕ
at xs i = get_or xs i 0

abbrev pub from_be_bytes : Bytes → ℕ
from_be_bytes port = at port 0 * 256 + at port 1

unfoldable pub negotiate_auth : Exec Error (Unit {0})
negotiate_auth = do
  header ← read_exact 2 read_greeting
  guard (at header 0 == socks5_version) (bad_greeting_version (at header 0))
  methods ← read_exact (at header 1) read_methods
  if contains auth_no_auth methods
      then write_all (socks5_version ∷ auth_no_auth ∷ []) write_selection
      else (write_all (socks5_version ∷ auth_no_acceptable ∷ []) write_rejection
          >> fail no_supported_method)

module _ (ipv6 : Ipv6Text) where
  unfoldable pub read_address : ℕ → Exec Error Text
  read_address address_type =
      if address_type == atyp_ipv4
      then (do octets ← read_exact 4 read_ipv4; pure (Ipv4.display (Ipv4.from_octets octets)))
      else if address_type == atyp_domain
      then (do
        len ← read_exact 1 read_domain_length
        domain ← read_exact (at len 0) read_domain
        lift (ok_or not_utf8 (from_utf8 domain)))
      else if address_type == atyp_ipv6
      then (do octets ← read_exact 16 read_ipv6; pure (b'[' ∷ (ipv6.display octets ++ b']' ∷ [])))
      else fail (bad_address_type address_type)

  unfoldable pub read_command : Exec Error Socks5Command
  read_command = do
    header ← read_exact 4 read_header
    guard (at header 0 == socks5_version) (bad_request_version (at header 0))
    guard (at header 1 == cmd_connect || at header 1 == cmd_udp_associate)
        (bad_command (at header 1))
    host ← read_address (at header 3)
    port ← read_exact 2 read_port
    pure (
        if at header 1 == cmd_udp_associate
        then udp_associate
        else connect (record { authority = host ++ (b':' ∷ decimal (from_be_bytes port)) }))

  unfoldable pub read_socks5_request : Exec Error Socks5Command
  read_socks5_request = negotiate_auth >> read_command
