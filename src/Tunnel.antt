-- ===== src/Tunnel.antt =====
-- src/tunnel.rs: the configuration, the websocket request, the state that a tunnel works on and how the
-- client is answered. The children: `Connect` opens a websocket, `Opening` retries it with a new
-- token, `Relay` is a TCP tunnel through the gateway, `Association` a SOCKS5 UDP association with
-- its tunnels in `UdpTarget`, `Handlers` are the entry points. The others are about them.
pub mod Connect
pub mod Opening
pub mod Attempts
pub mod Reached
pub mod Association
pub mod Senders
pub mod Asked
pub mod Destinations
pub mod Ended
pub mod UdpTarget
pub mod UdpHandlers
pub mod UdpBuilt
pub mod UdpRelayed
pub mod Handlers
pub mod Served
pub mod Replies
pub mod Sent
pub mod Relay
pub mod Carried
pub mod Relayed
pub mod Clean
pub mod Delivery
use ws2tcp_local_core.Base.{
  ℕ, zero, suc, ◌*◌, Bool, true, false, List, [], ◌∷◌, ◌++◌, Option, none, some, Result, ok, err,
  ◌>>=◌, ok_or, if◌then◌else◌,
}
use ws2tcp_local_core.Text.{Text, Bytes, lit, equal}
use ws2tcp_local_core.Text.Utf8.{as_bytes}
use ws2tcp_local_core.Session.{RequestError}
use ws2tcp_local_core.Session
use ws2tcp_local_core.Session.Auth.{GatewayAuth}
use ws2tcp_local_core.Http3.{Mode, Quic}
use ws2tcp_local_core.Http3
use ws2tcp_local_core.Upstream.{UpstreamProxy}
use ws2tcp_local_core.Upstream.Connect.{Contacts, Network}
use ws2tcp_local_core.Websocket.{WsError, Headers, Request}
use ws2tcp_local_core.Stream.{Stream}
use ws2tcp_local_core.Gateway.{Gateway}
use ws2tcp_local_core.Socks5.{success_reply, general_failure_reply}

abbrev pub udp_idle_timeout : ℕ
udp_idle_timeout = 60 * 1000000000

abbrev pub udp_datagram_buffer : ℕ
udp_datagram_buffer = 65536

-- `Config`, less the rules, which are a test of a host here; the n-th look at the HTTP/3 switch
-- finds `http3 n`
pub record Config : Type 0 where
  pub gateway : Gateway
  pub auth : GatewayAuth
  pub buffer_size : ℕ
  pub should_proxy_host : Text → Bool
  pub insecure : Bool
  pub http3 : ℕ → Mode
  pub upstream_proxy : Option UpstreamProxy
  pub headers : Headers

-- The world: the token service, the QUIC library, the network, the websocket library's request for
-- a URL, and its handshake over a stream, the n-th.
pub record World : Type 0 where
  pub service : Session.Service
  pub quic : Quic
  pub network : Network
  pub into_client_request : Text → Option Request
  pub handshake : ℕ → Request → Bool → Stream → Result WsError (Unit {0})

-- What a tunnel changes outside itself: the token session, the HTTP/3 connections, the contacts
-- made, the websocket requests sent over TCP, the last first, and how often one was tried.
pub record Link : Type 0 where
  pub session : Session.World
  pub http3 : Http3.State
  pub contacts : Contacts
  pub handshakes : List Request
  pub tries : ℕ

pub data Error : Type 0 where
  bad_url bad_authorization panicked : Error
  unauthenticated : RequestError → Error
  websocket : WsError → Error
  bad_request bad_authority unconnected reply_failed : Error
  bind_failed no_relay_address receive_failed unresolved : Error
  read_client_failed write_client_failed read_gateway_failed write_gateway_failed : Error
  write_target_failed copy_failed : Error

-- `HeaderMap::insert`
unfoldable pub without : Text → Headers → Headers
unfolding equal
without name [] = []
without name ((n, v) ∷ headers) = elim (equal name n) [
  | true ↦ without name headers
  | false ↦ (n, v) ∷ without name headers
]

unfoldable pub insert : Headers → Text → Text → Headers
insert headers name value = without name headers ++ ((name, value) ∷ [])

-- `HeaderMap::get`
unfoldable pub get : Text → Headers → Option Text
get name [] = none
get name ((n, v) ∷ headers) = elim (equal name n) [ true ↦ some v | false ↦ get name headers ]

unfoldable pub insert_all : Headers → Headers → Headers
insert_all headers [] = headers
insert_all headers ((name, value) ∷ rest) = insert_all (insert headers name value) rest

module _ (world : World) where
  abbrev pub with_authorization : Option Text → Headers → Result Error Headers
  with_authorization none headers = ok headers
  with_authorization (some value) headers =
      if world.service.is_header value
      then ok (insert headers (lit "authorization") value)
      else err bad_authorization

  unfoldable pub build_gateway_request : Text → Option Text → Headers → Result Error Request
  build_gateway_request ws_url authorization headers = do
    request ← ok_or bad_url (world.into_client_request ws_url)
    authorized ← with_authorization authorization request.headers
    ok (record request { headers = insert_all authorized headers })

pub data ReplyStyle : Type 0 where
  http_connect http_plain socks5 : ReplyStyle
