-- ===== src/Tunnel/Handlers.antt =====
-- The entry points of src/tunnel.rs: `handle_client`, `handle_socks_client`, and `handle_gateway` and
-- `handle_direct`, which serve their requests. The bytes that follow are relayed by the loops, whose
-- start is the outcome here. The fuel of `connect_gateway` is two turns, which is enough.
use ws2tcp_local_core.Base.{
  ℕ, zero, suc, Bool, true, false, [], ◌∷◌, ◌++◌, Option, none, some, Result, ok, err,
}
use ws2tcp_local_core.Text.{Text, Bytes, lit}
use ws2tcp_local_core.Text.Utf8.{as_bytes}
use ws2tcp_local_core.Net.Ipv6.{Ipv6Text}
use ws2tcp_local_core.Url.{UrlParser}
use ws2tcp_local_core.Stream.{Stream}
use ws2tcp_local_core.HttpProxy.{ProxyRequest, authority, initial_client_bytes, is_connect}
use ws2tcp_local_core.HttpProxy
use ws2tcp_local_core.HttpProxy.Read.{Reads, read_proxy_request}
use ws2tcp_local_core.Socks5.{
  Socks5Command, connect, udp_associate, success_reply, general_failure_reply,
}
use ws2tcp_local_core.Socks5
use ws2tcp_local_core.Socks5.Handshake.{read_socks5_request}
use ws2tcp_local_core.Routing.Authority.{host_from_authority, split_authority}
use ws2tcp_local_core.Routing.Authority as Authorities
use ws2tcp_local_core.Gateway.{target_url}
use ws2tcp_local_core.Upstream.{UpstreamProxy}
use ws2tcp_local_core.Upstream
use ws2tcp_local_core.Upstream.Connect.{Contacts, Network, tcp, dial}
use ws2tcp_local_core.Upstream.Connect as ThroughProxy
use ws2tcp_local_core.Tunnel.{
  World, Link, Config, ReplyStyle, http_connect, http_plain, socks5, Error, bad_request,
  bad_authority, unconnected, reply_failed, panicked,
}
use ws2tcp_local_core.Tunnel.Connect.{GatewayStream}
use ws2tcp_local_core.Tunnel.Opening.{connect_gateway}

-- the client's side: the bytes written, and how many more writes it takes
pub record Client : Type 0 where
  pub sent : Bytes
  pub writable : ℕ

-- How a request is served: the loop starts, through the gateway or with the target, with the bytes
-- that it has to send first; or the handler fails.
pub data Served : Type 0 where
  through_gateway : GatewayStream → Bytes → Served
  direct : Stream → Bytes → Served
  associated : Served
  fails_with : Error → Served

abbrev pub Outcome : Type 0
Outcome = Served × Client × Link

-- `write_all`
abbrev pub write_when : ℕ → Bytes → Client → Bool × Client
write_when zero bytes c = (false, c)
write_when (suc n) bytes c = (true, record { sent = c.sent ++ bytes; writable = n })

abbrev pub write : Bytes → Client → Bool × Client
write bytes c = write_when c.writable bytes c

abbrev crlf : Text
crlf = b'\r' ∷ b'\n' ∷ []

abbrev pub http_success : Bytes
http_success = lit "HTTP/1.1 200 Connection Established" ++ (crlf ++ crlf)

unfoldable pub http_error : Text → Bytes
http_error status = as_bytes (
    lit "HTTP/1.1 "
    ++ (status
        ++ (crlf
            ++ (lit "Connection: close" ++ (crlf ++ (lit "Content-Length: 0" ++ (crlf ++ crlf)))))))

unfoldable pub write_success : ReplyStyle → Client → Bool × Client
write_success http_connect c = write http_success c
write_success http_plain c = (true, c)
write_success socks5 c = write success_reply c

unfoldable pub write_error : ReplyStyle → Client → Client
write_error http_connect c = (write (http_error (lit "502 Bad Gateway")) c).1
write_error http_plain c = (write (http_error (lit "502 Bad Gateway")) c).1
write_error socks5 c = (write general_failure_reply c).1

-- `reply.write_success(..).await?` before the loop starts
abbrev pub then_serve : Served → Bool × Client → Link → Outcome
then_serve served (true, c) l = (served, c, l)
then_serve served (false, c) l = (fails_with reply_failed, c, l)

-- what a panic leaves: no reply
abbrev pub reply_error : Error → ReplyStyle → Client → Client
reply_error panicked reply c = c
reply_error e reply c = write_error reply c

module _ (world : World) (config : Config) where
  abbrev pub on_gateway :
      Bytes → ReplyStyle → Client → Option (Result Error GatewayStream × Link) → Link → Outcome
  on_gateway initial reply c none l = (fails_with panicked, c, l)
  on_gateway initial reply c (some (ok stream, after)) l =
      then_serve (through_gateway stream initial) (write_success reply c) after
  on_gateway initial reply c (some (err e, after)) l = (fails_with e, reply_error e reply c, after)

  unfoldable pub handle_gateway : Text → Bytes → ReplyStyle → Client → Link → Outcome
  handle_gateway target initial reply c l =
      on_gateway initial reply c
        (connect_gateway world config 2 (target_url config.gateway target) l) l

  abbrev pub on_target :
      Bytes → ReplyStyle → Client → Result Upstream.Error Stream × Contacts → Link → Outcome
  on_target initial reply c (ok stream, made) l =
      then_serve (direct stream initial) (write_success reply c) (record l { contacts = made })
  on_target initial reply c (err e, made) l =
      (fails_with unconnected, write_error reply c, record l { contacts = made })

  -- `TcpStream::connect` takes the text of the authority apart itself
  abbrev pub dial_target :
      Option UpstreamProxy
      → Text
      → Result Authorities.Error (Text × ℕ)
      → Contacts
      → Result Upstream.Error Stream × Contacts
  dial_target none target (ok (host, port)) made = dial world.network host port made
  dial_target none target (err _) made = (err Upstream.unreachable, made)
  dial_target (some proxy) target (ok (host, port)) made =
      ThroughProxy.connect world.network proxy host port made
  dial_target (some proxy) target (err _) made = (err Upstream.no_host, made)

  unfoldable pub handle_direct : Text → Bytes → ReplyStyle → Client → Link → Outcome
  handle_direct target initial reply c l =
      on_target initial reply c
        (dial_target config.upstream_proxy target (split_authority target) l.contacts) l

  -- the branch on `should_proxy`
  abbrev pub by_rules : Bool → Text → Bytes → ReplyStyle → Client → Link → Outcome
  by_rules true target initial reply c l = handle_gateway target initial reply c l
  by_rules false target initial reply c l = handle_direct target initial reply c l

  abbrev pub by_host :
      Result Authorities.Error Text → Text → Bytes → ReplyStyle → Client → Link → Outcome
  by_host (err _) target initial reply c l = (fails_with bad_authority, c, l)
  by_host (ok host) target initial reply c l =
      by_rules (config.should_proxy_host host) target initial reply c l

  abbrev pub reply_of : Bool → ReplyStyle
  reply_of true = http_connect
  reply_of false = http_plain

  abbrev pub on_request : Result HttpProxy.Error (ProxyRequest × Reads) → Client → Link → Outcome
  on_request (err _) c l =
      (fails_with bad_request, (write (http_error (lit "400 Bad Request")) c).1, l)
  on_request (ok (request, left)) c l =
      by_host (host_from_authority (authority request)) (authority request)
        (initial_client_bytes request) (reply_of (is_connect request)) c l

  unfoldable pub handle_client : UrlParser → Reads → Client → Link → Outcome
  handle_client parse_url reads c l = on_request (read_proxy_request parse_url reads) c l

  abbrev pub as_client : Stream → Client
  as_client s = record { sent = s.sent; writable = s.writable }

  abbrev pub on_command : Result Socks5.Error Socks5Command × Stream → Link → Outcome
  on_command (err _, s) l =
      (fails_with bad_request, (write general_failure_reply (as_client s)).1, l)
  on_command (ok (connect request), s) l =
      by_host (host_from_authority request.authority) request.authority [] socks5 (as_client s) l
  on_command (ok udp_associate, s) l = (associated, as_client s, l)

  unfoldable pub handle_socks_client : Ipv6Text → Stream → Link → Outcome
  handle_socks_client ipv6 stream l = on_command (read_socks5_request ipv6 stream) l
