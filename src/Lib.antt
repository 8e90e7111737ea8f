-- ===== src/Lib.antt =====
-- ws2tcp-local-core listens for SOCKS5 and HTTP proxy clients, decides by routing rules whether a
-- host goes through the gateway, and opens a WebSocket tunnel to the gateway, with an Authorization
-- that a token session keeps fresh; other hosts it connects to itself. This library models the parts
-- that read what clients send, decide, relay, and keep state.
--
--   Base, Text, Net, Stream, Effects, Url, Websocket: lists, results, `str`, IP addresses, a TCP stream that is read
--     in exact counts, actions on a state, a parsed URL, and the messages and errors of a websocket: what
--     the crate uses of its libraries.
--   Socks5 (src/socks5.rs): `Handshake` is `read_socks5_request` and what it calls, `Datagram` the
--     UDP associate reply and the two datagram functions. `tunnel.rs` calls both.
--   HttpProxy (src/http_proxy.rs): `Read` is `read_proxy_request`, `Parse` the request line
--     and the targets, `Header` the header that is forwarded, `Authority` the checks of `host:port`.
--   Routing (src/routing_rules.rs): `Authority` takes `host:port` apart, `Domains` are the rule lists
--     and `DomainRules::matches`, `Sources` and `Cache` where the list comes from, `Loader` the
--     `AutoRuleLoader`, `Tasks` the state that `set_mode` and the refresh loops share.
--   Session (src/session.rs): `Response` is `TokenResponse::into_tokens`, `Renew` the operations of
--     `TokenSession`, `Background` the turns of `keep_fresh`, `Auth` is `GatewayAuth`.
--   Gateway (src/gateway.rs, src/auth.rs): the URLs of the gateway and the Basic credentials.
--   Http3 (src/http3.rs): `Sessions` are the cached connections, `Connect` is `connect` with what it
--     calls; `Fallback` and `Periods` are about them.
--   Upstream (src/upstream.rs): `UpstreamProxy::parse`, in `Answer` and `Status` the CONNECT handshake,
--     in `Connect` the connection through the proxy.
--   Tunnel (src/tunnel.rs): `Connect` is `connect_websocket`, `Opening` is `connect_gateway`, `Relay` the
--     loop of `proxy`, `Association` and `UdpTarget` the loops of a UDP association, which `UdpHandlers`
--     starts, `Handlers` are
--     `handle_client`, `handle_socks_client`, `handle_gateway` and `handle_direct`. It uses the readers of
--     HttpProxy and Socks5, the authorities of Routing, and Session, Http3 and Upstream.
--   Settings (src/settings.rs): `Settings::resolve` and `add_header`.
--   GatewayCheck (src/gateway_check.rs): `check_gateway`.
--   Service (src/service.rs): the HTTP/3 mode, and in `Startup` the authentication at startup.
--
-- A text is the list of its Unicode scalar values and a byte string the list of its bytes, each a
-- native number. Errors are constructors, one for each message. The SOCKS5 reader and the session
-- pass their state on explicitly; the tasks of the routing rules are a step relation, one access
-- of the shared state for a step. The loops over `select!` run on a list of events, in any order; a
-- number says how many more writes a peer takes. `decimal` runs on fuel for 20 digits, more than a 64 bit
-- number needs, and `connect_gateway` on fuel for its turns, of which two are enough; the loops that read
-- a request and an answer end with their input.
--
-- Parameters are what is not the crate's code: the text of IPv6 addresses (`Ipv6Text`, with its
-- round trip), `Url::parse`, the base64 decoder, and for the session a `Service`: the clock, the
-- gateway's answers, the JSON parser and `HeaderValue::from_str`; for the rule list the HTTP client
-- (`Network`) and the disk, a state whose operations can fail. The network is
-- a function of how many contacts were made before; the QUIC, SOCKS, websocket, TOML and header
-- libraries and the file system are functions too. The token requests go out through the session's own
-- HTTP client, which is a library's: they are kept in the state of the session, and the contacts of a
-- tunnel do not hold them.
--
-- Not modelled: logging, the texts of errors, the sockets and TLS; the listeners and the tasks that
-- serve clients; the
-- poll functions of `GatewayStream`, which pass on to the transport; the snapshot of the HTTP/3
-- connections and the tasks that pump their bytes; the construction of the HTTP client of the session
-- and the rules, the cache directory, and the probe of its access.
mod Base
pub mod Text
pub mod Net
pub mod Effects
pub mod Websocket
pub mod Http3
pub mod Upstream
pub mod Stream
pub mod Url
pub mod Socks5
pub mod HttpProxy
pub mod Routing
pub mod Session
pub mod Gateway
pub mod Settings
pub mod Tunnel
pub mod GatewayCheck
pub mod Service
mod Tests
