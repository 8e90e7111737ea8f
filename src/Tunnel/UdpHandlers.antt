-- ===== src/Tunnel/UdpHandlers.antt =====
-- The UDP side of src/tunnel.rs up to its loops: `handle_socks_udp_associate` opens the relay socket and
-- replies, `run_udp_target` takes the way that the rules give and opens it, for a destination. The
-- sockets of the system are parameters.
use ws2tcp_local_core.Base.{
  ℕ, Bool, true, false, List, [], ◌∷◌, Option, none, some, Result, ok, err,
}
use ws2tcp_local_core.Text.{Text}
use ws2tcp_local_core.Net.Ipv6.{Ipv6Text}
use ws2tcp_local_core.Socks5.{general_failure_reply}
use ws2tcp_local_core.Socks5.Datagram.{SocketAddr, v4, v6, udp_associate_reply}
use ws2tcp_local_core.Gateway.{target_url_udp}
use ws2tcp_local_core.Upstream.Connect.{udp, lookup}
use ws2tcp_local_core.Tunnel.{
  World, Link, Config, Error, bind_failed, no_relay_address, reply_failed, unresolved, unconnected,
  panicked,
}
use ws2tcp_local_core.Tunnel.Connect.{GatewayStream}
use ws2tcp_local_core.Tunnel.Opening.{connect_gateway}
use ws2tcp_local_core.Tunnel.Handlers.{Client, write}
use ws2tcp_local_core.Tunnel.Association.{Association, new_association, key_of}
use ws2tcp_local_core.Tunnel.Association
use ws2tcp_local_core.Tunnel.UdpTarget.{Target, Event, turn_gateway, turn_direct}
use ws2tcp_local_core.Tunnel.UdpTarget

abbrev loopback_v4 : SocketAddr
loopback_v4 = v4 (record { a = 127; b = 0; c = 0; d = 1 }) 0

abbrev loopback_v6 : SocketAddr
loopback_v6 = v6 (0 ∷ 0 ∷ 0 ∷ 0 ∷ 0 ∷ 0 ∷ 0 ∷ 0 ∷ 0 ∷ 0 ∷ 0 ∷ 0 ∷ 0 ∷ 0 ∷ 0 ∷ 1 ∷ []) 0 0 0

-- `bind_addr`: the loopback address of the peer's family
unfoldable pub bind_addr : SocketAddr → SocketAddr
bind_addr (v4 _ _) = loopback_v4
bind_addr (v6 _ _ _ _) = loopback_v6

-- `bind` of an address gives a socket or not, and the socket its local address or not
abbrev pub Binds : Type 0
Binds = SocketAddr → Option (Option SocketAddr)

module _ (ipv6 : Ipv6Text) (events : List Association.Event) where
  abbrev pub after_reply : Bool × Client → Association.Turn × Client
  after_reply (true, c) = (Association.run ipv6 events new_association, c)
  after_reply (false, c) = (Association.returns (err reply_failed) new_association, c)

  abbrev pub on_socket : Option (Option SocketAddr) → Client → Association.Turn × Client
  on_socket none c =
      (Association.returns (err bind_failed) new_association, (write general_failure_reply c).1)
  on_socket (some none) c = (Association.returns (err no_relay_address) new_association, c)
  on_socket (some (some relay_addr)) c = after_reply (write (udp_associate_reply relay_addr) c)

  unfoldable pub handle_socks_udp_associate :
      Binds → SocketAddr → Client → Association.Turn × Client
  handle_socks_udp_associate binds peer_addr c = on_socket (binds (bind_addr peer_addr)) c

-- The UDP sockets: the addresses of a name, whether a socket of the family can be bound, and
-- whether it can be connected.
pub record UdpSockets : Type 0 where
  pub lookup_host : Text → Option (List SocketAddr)
  pub can_bind : Bool → Bool
  pub can_connect : SocketAddr → Bool

abbrev is_ipv6 : SocketAddr → Bool
is_ipv6 (v4 _ _) = false
is_ipv6 (v6 _ _ _ _) = true

abbrev first_of : Option (List SocketAddr) → Result Error SocketAddr
first_of none = err unresolved
first_of (some []) = err unresolved
first_of (some (a ∷ _)) = ok a

abbrev opened : Bool → Bool → Result Error (Unit {0})
opened false _ = err bind_failed
opened true false = err unconnected
opened true true = ok tt

-- a socket that is connected to the resolved address
unfoldable pub open_direct : UdpSockets → Text → Result Error (Unit {0})
open_direct sockets authority = elim (first_of (sockets.lookup_host authority)) [
  | err e ↦ err e
  | ok resolved ↦ opened (sockets.can_bind (is_ipv6 resolved)) (sockets.can_connect resolved)
]

module _ (world : World) (config : Config) (sockets : UdpSockets) (ipv6 : Ipv6Text) where
  abbrev pub with_gateway :
      Text
      → ℕ
      → List Event
      → Target
      → Option (Result Error GatewayStream × Link)
      → Link
      → UdpTarget.Turn × Link
  with_gateway host port events s none l = (UdpTarget.returns (err panicked) s, l)
  with_gateway host port events s (some (err e, after)) l = (UdpTarget.returns (err e) s, after)
  with_gateway host port events s (some (ok stream, after)) l =
      (UdpTarget.run (turn_gateway ipv6 host port) events s, after)

  unfoldable pub run_udp_target_gateway :
      Text → ℕ → List Event → Target → Link → UdpTarget.Turn × Link
  run_udp_target_gateway host port events s l =
      with_gateway host port events s
        (connect_gateway world config 2 (target_url_udp config.gateway (key_of host port)) l) l

  abbrev pub with_socket : Text → ℕ → List Event → Target → Result Error (Unit {0}) → UdpTarget.Turn
  with_socket host port events s (err e) = UdpTarget.returns (err e) s
  with_socket host port events s (ok _) = UdpTarget.run (turn_direct ipv6 host port) events s

  -- the name is resolved and the peer is reached from this machine
  abbrev pub reached : Text → ℕ → Result Error (Unit {0}) → Link → Link
  reached host port (err e) l = record l { contacts = lookup host port ∷ l.contacts }
  reached host port (ok _) l = record l { contacts = udp host port ∷ lookup host port ∷ l.contacts }

  unfoldable pub run_udp_target_direct :
      Text → ℕ → List Event → Target → Link → UdpTarget.Turn × Link
  run_udp_target_direct host port events s l =
      let r = open_direct sockets (key_of host port) in
      (with_socket host port events s r, reached host port r l)

  abbrev pub by_rules : Bool → Text → ℕ → List Event → Target → Link → UdpTarget.Turn × Link
  by_rules true host port events s l = run_udp_target_gateway host port events s l
  by_rules false host port events s l = run_udp_target_direct host port events s l

  unfoldable pub run_udp_target : Text → ℕ → List Event → Target → Link → UdpTarget.Turn × Link
  run_udp_target host port events s l =
      by_rules (config.should_proxy_host host) host port events s l
