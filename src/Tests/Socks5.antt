-- ===== src/Tests/Socks5.antt =====
-- The SOCKS5 handshake and datagrams: a client's session byte by byte, and the witnesses.
use ws2tcp_local_core.Base.{◌≡◌, refl, [], ◌∷◌, ◌++◌, some, ok, err, arith, true, false}
use ws2tcp_local_core.Text.{Text, Bytes, lit}
use ws2tcp_local_core.Text.Utf8.{as_bytes}
use ws2tcp_local_core.Text.Split.{contains}
use ws2tcp_local_core.Socks5.{no_supported_method}
use ws2tcp_local_core.Socks5.Handshake.{read_socks5_request}
use ws2tcp_local_core.Socks5.Datagram.{build_udp_datagram, parse_udp_datagram}
use ws2tcp_local_core.Socks5.RoundTrip.{canonical_host, parse_udp_datagram-build_udp_datagram}
use ws2tcp_local_core.Socks5.Requests.{
  stream, greeting, request, IsTarget, domain, asked, read_socks5_request_accepts,
  read_socks5_request_refuses,
}
use ws2tcp_local_core.Tests.Ipv6.{colons}

abbrev example_com : Text
example_com = lit "example.com"

parse_udp_datagram-build_udp_datagram_example :
    (d : Bytes) × (build_udp_datagram colons (lit "8.8.8.8") 53 (lit "payload") ≡ some d)
    × (parse_udp_datagram colons d
        ≡ ok (record {
          host = canonical_host colons (lit "8.8.8.8");
          port = 53;
          payload = lit "payload";
        }))
unfolding as_bytes
parse_udp_datagram-build_udp_datagram_example =
    parse_udp_datagram-build_udp_datagram colons (lit "8.8.8.8") 53 (lit "payload") (omega arith)
      (omega arith) (omega arith)

offered : contains 0 (0 ∷ []) ≡ true
unfolding contains
offered = refl

refused : contains 0 (2 ∷ []) ≡ false
unfolding contains
refused = refl

fits : IsTarget (domain example_com)
unfolding IsTarget as_bytes
fits = omega arith

read_socks5_request_accepts_example :
    read_socks5_request colons
      (stream (greeting (0 ∷ []) ++ (request 1 (domain example_com) 443 ++ lit "x")) [] 1)
    ≡ (ok (asked colons 1 (domain example_com) 443), stream (lit "x") (5 ∷ 0 ∷ []) 0)
read_socks5_request_accepts_example =
    read_socks5_request_accepts colons (0 ∷ []) 1 (domain example_com) 443 (lit "x") [] 0 offered
      refl fits (omega arith)

read_socks5_request_refuses_example :
    read_socks5_request colons (stream (greeting (2 ∷ []) ++ lit "rest") [] 3)
    ≡ (err no_supported_method, stream (lit "rest") (5 ∷ 255 ∷ []) 2)
read_socks5_request_refuses_example =
    read_socks5_request_refuses colons (2 ∷ []) (lit "rest") [] 2 refused
