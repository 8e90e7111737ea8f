-- ===== src/Tests/World.antt =====
-- A world for the tunnels: a gateway that rejects the first token and takes the next, an HTTP proxy, a
-- QUIC library that never connects, and a network that always does.
use ws2tcp_local_core.Base.{
  ℕ, zero, suc, ◌*◌, true, false, [], ◌∷◌, ◌++◌, none, some, Result, ok, err,
}
use ws2tcp_local_core.Text.{Text, Bytes, lit}
use ws2tcp_local_core.Stream.{Stream}
use ws2tcp_local_core.Session.{second}
use ws2tcp_local_core.Session.Auth.{token}
use ws2tcp_local_core.Http3.{Mode, off, only, Quic}
use ws2tcp_local_core.Http3
use ws2tcp_local_core.Url.{Url}
use ws2tcp_local_core.Upstream.{UpstreamProxy, closed}
use ws2tcp_local_core.Upstream
use ws2tcp_local_core.Upstream.Connect.{Network}
use ws2tcp_local_core.Websocket.{WsError, http, Uri, Request}
use ws2tcp_local_core.Tunnel.{World, Link, Config}
use ws2tcp_local_core.Tests.Session.{running, at_time}

abbrev pub crlf : Text
crlf = b'\r' ∷ b'\n' ∷ []

abbrev pub accepted_connect : Bytes
accepted_connect = lit "HTTP/1.1 200 OK" ++ (crlf ++ crlf)

-- a proxy that answers CONNECT and sends what follows
abbrev pub open_stream : Stream
open_stream = record { unread = accepted_connect ++ lit "tunnel"; sent = []; writable = 9 }

abbrev pub network : Network
network = record {
  connect_tcp = λ n host port. some open_stream;
  lookup_host = λ n host port. some ((host, port) ∷ []);
  connect_socks5 = λ n credentials target stream. some stream;
  in_time = λ n. true;
  ending = λ n. closed;
  encode = λ bytes. bytes;
}

abbrev pub no_quic : Quic
no_quic = record {
  clock = λ n. n * second;
  lookup_host = λ host port. none;
  connect_quic = λ n addr host insecure. false;
  is_closed = λ connection n. false;
  recv_response = λ n connection request. none;
}

abbrev pub gateway_uri : Uri
gateway_uri = record {
  scheme_str = some (lit "wss");
  authority = some (lit "gateway");
  host = some (lit "gateway");
  port_u16 = none;
  path_and_query = none;
}

abbrev pub gateway_request : Request
gateway_request = record { uri = gateway_uri; headers = [] }

-- the first handshake is refused
abbrev pub first_refused : ℕ → Result WsError (Unit {0})
first_refused zero = err (http 401)
first_refused (suc n) = ok tt

abbrev pub world : World
world = record {
  service = running;
  quic = no_quic;
  network = network;
  into_client_request = λ url. some gateway_request;
  handshake = λ n request insecure stream. first_refused n;
}

abbrev pub http3_state : Http3.State
http3_state = record { sessions = []; fallback_until = none; reads = 0; dials = 0; sends = 0 }

abbrev pub link : Link
link = record {
  session = at_time 1;
  http3 = http3_state;
  contacts = [];
  handshakes = [];
  tries = 0;
}

abbrev pub proxy_url : Url
proxy_url = record {
  scheme = lit "http";
  username = [];
  password = none;
  host_str = some (lit "proxy");
  port = some 3128;
  port_or_known_default = some 3128;
  path = lit "/";
  query = none;
  fragment = none;
  as_str = lit "http://proxy:3128/";
}

abbrev pub proxy : UpstreamProxy
proxy = record {
  kind = Upstream.http;
  host = lit "proxy";
  port = 3128;
  credentials = none;
  url = proxy_url;
}

abbrev pub config : Config
config = record {
  gateway = record { base = lit "wss://gateway" };
  auth = token;
  buffer_size = 4;
  should_proxy_host = λ host. true;
  insecure = false;
  http3 = λ n. off;
  upstream_proxy = some proxy;
  headers = [];
}
