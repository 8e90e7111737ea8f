-- ===== src/Socks5/Datagram.antt =====
-- The UDP ASSOCIATE reply and the UDP datagrams: `udp_associate_reply`, `parse_udp_datagram` and
-- `build_udp_datagram` of src/socks5.rs.
use ws2tcp_local_core.Base.{
  ℕ, ◌+◌, ◌-◌, ◌*◌, ◌/◌, ◌%◌, not, [], ◌∷◌, ◌++◌, Option, none, some, Result, ok, err, ok_or,
  bail_if, ◌>>=◌, ◌>>◌, ◌==◌, if◌then◌else◌, ltb, leb, length, take, drop, get_or,
}
use ws2tcp_local_core.Text.{Text, Bytes}
use ws2tcp_local_core.Text.Utf8.{from_utf8, as_bytes}
use ws2tcp_local_core.Text.Split.{strip_prefix, strip_suffix}
use ws2tcp_local_core.Net.Ipv4
use ws2tcp_local_core.Net.Ipv4.{Ipv4}
use ws2tcp_local_core.Net.Ipv6.{Ipv6Text}
use ws2tcp_local_core.Socks5.{
  socks5_version, atyp_ipv4, atyp_domain, atyp_ipv6, Error, not_utf8, bad_address_type,
  short_datagram, fragmented, truncated_ipv4, truncated_length, truncated_domain, truncated_ipv6,
  truncated_port,
}

-- `SocketAddr`: an IP address and a port; an IPv6 one has its `flowinfo` and `scope_id` behind them.
pub data SocketAddr : Type 0 where
  v4 : Ipv4 → ℕ → SocketAddr
  v6 : Bytes → ℕ → ℕ → ℕ → SocketAddr

abbrev pub to_be_bytes : ℕ → Bytes
to_be_bytes port = (port / 256) ∷ (port % 256) ∷ []

unfoldable pub udp_associate_reply : SocketAddr → Bytes
udp_associate_reply (v4 ip port) =
    socks5_version ∷ 0 ∷ 0 ∷ atyp_ipv4 ∷ (Ipv4.octets ip ++ to_be_bytes port)
udp_associate_reply (v6 ip port flowinfo scope_id) =
    socks5_version ∷ 0 ∷ 0 ∷ atyp_ipv6 ∷ (ip ++ to_be_bytes port)

-- `data.get(start..end)`, for a start that is not past the end
unfoldable pub slice : ℕ → ℕ → Bytes → Option Bytes
slice start end bytes =
    if leb end (length bytes) then some (take (end - start) (drop start bytes)) else none

-- the host as it is shown, and the offset behind it
pub record Parsed : Type 0 where
  pub host : Text
  pub offset : ℕ

pub record Datagram : Type 0 where
  pub host : Text
  pub port : ℕ
  pub payload : Bytes

abbrev pub host_at : ℕ → Text → Result Error Parsed
host_at end host = ok (record { host = host; offset = end })

-- `host.strip_prefix('[').and_then(|h| h.strip_suffix(']')).unwrap_or(host)`
unfoldable pub unbracketed : Text → Text
unfolding strip_prefix strip_suffix
unbracketed host = elim (strip_prefix (b'[' ∷ []) host) [
  | none ↦ host
  | some h ↦ elim (strip_suffix b']' h) [ none ↦ host | some inner ↦ inner ]
]

-- the datagram with an address type and the bytes of an address
abbrev pub datagram : ℕ → Bytes → ℕ → Bytes → Bytes
datagram address_type address port payload =
    0x00 ∷ 0x00 ∷ 0x00 ∷ address_type ∷ (address ++ (to_be_bytes port ++ payload))

module _ (ipv6 : Ipv6Text) where
  -- the `match address_type` of `parse_udp_datagram`, at offset 4
  unfoldable pub parse_udp_host : ℕ → Bytes → Result Error Parsed
  parse_udp_host address_type bytes =
      if address_type == atyp_ipv4
      then (do
        octets ← ok_or truncated_ipv4 (slice 4 8 bytes)
        host_at 8 (Ipv4.display (Ipv4.from_octets octets)))
      else if address_type == atyp_domain
      then (do
        len ← ok_or truncated_length (slice 4 5 bytes)
        let end = 5 + get_or len 0 0
        domain ← ok_or truncated_domain (slice 5 end bytes)
        host ← ok_or not_utf8 (from_utf8 domain)
        host_at end host)
      else if address_type == atyp_ipv6
      then (do
        octets ← ok_or truncated_ipv6 (slice 4 20 bytes)
        host_at 20 (b'[' ∷ (ipv6.display octets ++ b']' ∷ [])))
      else err (bad_address_type address_type)

  unfoldable pub parse_udp_datagram : Bytes → Result Error Datagram
  parse_udp_datagram bytes = do
    bail_if (ltb (length bytes) 4) short_datagram
    bail_if (not (get_or bytes 2 0 == 0x00)) fragmented
    parsed ← parse_udp_host (get_or bytes 3 0) bytes
    port ← ok_or truncated_port (slice parsed.offset (parsed.offset + 2) bytes)
    ok (record {
      host = parsed.host;
      port = get_or port 0 0 * 256 + get_or port 1 0;
      payload = drop (parsed.offset + 2) bytes;
    })

  -- The last branch asserts that the name has at most 255 bytes: `none` is its panic.
  unfoldable pub build_udp_datagram : Text → ℕ → Bytes → Option Bytes
  build_udp_datagram host port payload = elim (Ipv4.parse host) [
    | some ip ↦ some (datagram atyp_ipv4 (Ipv4.octets ip) port payload)
    | none ↦ elim (ipv6.parse (unbracketed host)) [
      | some octets ↦ some (datagram atyp_ipv6 octets port payload)
      | none ↦
          let name = as_bytes host in
          if leb (length name) 255
          then some (datagram atyp_domain ((length name % 256) ∷ name) port payload)
          else none
    ]
  ]
