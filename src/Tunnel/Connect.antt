-- ===== src/Tunnel/Connect.antt =====
-- `connect_websocket` of src/tunnel.rs: over HTTP/3 where that can be tried, else over TCP, through the
-- upstream proxy when there is one.
use ws2tcp_local_core.Base.{
  ℕ, Bool, true, false, [], ◌∷◌, Option, none, some, Result, ok, err, length, if◌then◌else◌, ◌==◌,
}
use ws2tcp_local_core.Text.{Text, lit, equal, trim_start, trim_end}
use ws2tcp_local_core.Effects.{Exec, ◌>>=◌, pure, fail}
use ws2tcp_local_core.Stream.{Stream}
use ws2tcp_local_core.Websocket.{WsError, no_host_name, io, other_kind, Uri, Request}
use ws2tcp_local_core.Http3.{Mode, off, preferred, only}
use ws2tcp_local_core.Http3.Connect as OverQuic
use ws2tcp_local_core.Upstream.{UpstreamProxy}
use ws2tcp_local_core.Upstream
use ws2tcp_local_core.Upstream.Connect.{Contact, quic, Contacts, Network, dial}
use ws2tcp_local_core.Upstream.Connect as ThroughProxy
use ws2tcp_local_core.Tunnel.{World, Link}

-- the transport under a gateway websocket
pub data GatewayStream : Type 0 where
  tcp http3 : GatewayStream

unfoldable pub gateway_transport : GatewayStream → Text
gateway_transport tcp = lit "tcp"
gateway_transport http3 = lit "quic"

abbrev pub is_wss : Request → Bool
is_wss request = elim request.uri.scheme_str [ none ↦ false | some s ↦ equal s (lit "wss") ]

-- whether HTTP/3 is tried, and with no fallback
unfoldable pub tries_http3 : Mode → Option UpstreamProxy → Bool → Option Bool
tries_http3 off _ _ = none
tries_http3 _ (some _) _ = none
tries_http3 _ none false = none
tries_http3 preferred none true = some false
tries_http3 only none true = some true

abbrev pub port_of : Uri → ℕ
port_of uri = elim uri.port_u16 [
  | some port ↦ port
  | none ↦ elim uri.scheme_str [ none ↦ 80 | some s ↦ if equal s (lit "wss") then 443 else 80 ]
]

abbrev pub host_or_empty : Option Text → Text
host_or_empty none = []
host_or_empty (some host) = host

-- `trim_start_matches('[').trim_end_matches(']')`
abbrev unbracketed : Text → Text
unbracketed host = trim_end (λ c. c == b']') (trim_start (λ c. c == b'[') host)

-- an `io::Error` of the dial
abbrev pub as_io : Result Upstream.Error Stream × Contacts → Link → Result WsError Stream × Link
as_io (ok stream, made) l = (ok stream, record l { contacts = made })
as_io (err e, made) l = (err (io other_kind), record l { contacts = made })

module _ (world : World) where
  abbrev pub dial_gateway : Option UpstreamProxy → Text → ℕ → Exec Link WsError Stream
  dial_gateway (some proxy) host port l =
      as_io (ThroughProxy.connect world.network proxy host port l.contacts) l
  dial_gateway none host port l = as_io (dial world.network (unbracketed host) port l.contacts) l

  abbrev pub finished : Result WsError (Unit {0}) → Result WsError GatewayStream
  finished (ok _) = ok tcp
  finished (err e) = err e

  -- `client_async_tls_with_config`
  abbrev pub shake : Request → Bool → Stream → Exec Link WsError GatewayStream
  shake request insecure stream l = (
    finished (world.handshake (length l.handshakes) request insecure stream),
    record l { handshakes = request ∷ l.handshakes },
  )

  abbrev pub dial_named :
      Request → Bool → Option UpstreamProxy → Option Text → Exec Link WsError GatewayStream
  dial_named request insecure proxy none = fail no_host_name
  dial_named request insecure proxy (some host) = do
    stream ← dial_gateway proxy host (port_of request.uri)
    shake request insecure stream

  unfoldable pub over_tcp : Request → Bool → Option UpstreamProxy → Exec Link WsError GatewayStream
  over_tcp request insecure proxy = dial_named request insecure proxy request.uri.host

  -- `http3::connect`, with its QUIC peer among the contacts
  abbrev pub over_quic : Request → Bool → Bool → Exec Link WsError (Option ℕ)
  over_quic request insecure is_only l =
      let (r, after) = OverQuic.connect world.quic request insecure is_only l.http3 in
      (
        r,
        record l {
          http3 = after;
          contacts = quic (host_or_empty request.uri.host) (port_of request.uri) ∷ l.contacts;
        },
      )

  abbrev pub or_tcp :
      Request → Bool → Option UpstreamProxy → Option ℕ → Exec Link WsError GatewayStream
  or_tcp request insecure proxy (some stream) = pure http3
  or_tcp request insecure proxy none = over_tcp request insecure proxy

  abbrev pub as_tried :
      Request → Bool → Option UpstreamProxy → Option Bool → Exec Link WsError GatewayStream
  as_tried request insecure proxy none = over_tcp request insecure proxy
  as_tried request insecure proxy (some is_only) = do
    stream ← over_quic request insecure is_only
    or_tcp request insecure proxy stream

  unfoldable pub connect_websocket :
      Request → Bool → Mode → Option UpstreamProxy → Exec Link WsError GatewayStream
  connect_websocket request insecure mode proxy =
      as_tried request insecure proxy (tries_http3 mode proxy (is_wss request))
