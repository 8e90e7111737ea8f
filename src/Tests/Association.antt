-- ===== src/Tests/Association.antt =====
-- A UDP association with two destinations, one of them ended, and the witnesses.
use ws2tcp_local_core.Base.{◌≡◌, refl, List, [], ◌∷◌, ◌++◌, none, some}
use ws2tcp_local_core.Text.{Text, Bytes, lit}
use ws2tcp_local_core.Socks5.Datagram.{SocketAddr, v4}
use ws2tcp_local_core.Tunnel.Association.{Association, Event, datagram, target_ended, control, run}
use ws2tcp_local_core.Websocket.{binary, text, ping}
use ws2tcp_local_core.Socks5.{general_failure_reply}
use ws2tcp_local_core.Tunnel.UdpHandlers.{handle_socks_udp_associate}
use ws2tcp_local_core.Tunnel.UdpTarget.{Target, turn_gateway}
use ws2tcp_local_core.Tunnel.UdpTarget
use ws2tcp_local_core.Tunnel.UdpRelayed.{IsAnswered, turn_gateway-IsAnswered}
use ws2tcp_local_core.Tunnel.UdpBuilt.{EndsGateway, given_by_gateway}
use ws2tcp_local_core.Tests.Ipv6.{colons}

abbrev client : SocketAddr
client = v4 (record { a = 127; b = 0; c = 0; d = 1 }) 5000

abbrev stranger : SocketAddr
stranger = v4 (record { a = 127; b = 0; c = 0; d = 1 }) 6000

-- a datagram to 8.8.8.x:53
abbrev to_dns : Text → Bytes → Bytes
to_dns x payload = 0 ∷ 0 ∷ 0 ∷ 1 ∷ 8 ∷ 8 ∷ 8 ∷ (x ++ (0 ∷ 53 ∷ payload))

abbrev events : List Event
events =
    datagram (to_dns (8 ∷ []) (lit "q")) client
    ∷ datagram (to_dns (4 ∷ []) (lit "r")) client
    ∷ datagram (to_dns (8 ∷ []) (lit "no")) stranger
    ∷ target_ended 0
    ∷ datagram (to_dns (8 ∷ []) (lit "s")) client
    ∷ control 0
    ∷ []

-- the association after the task of 8.8.8.8:53 has ended
abbrev lost : Association
lost = record {
  targets = (lit "8.8.8.8:53", 0) ∷ [];
  client_addr = some client;
  spawned =
      record { key = lit "8.8.8.8:53"; host = lit "8.8.8.8"; port = 53; client_addr = client } ∷ [];
  gone = 0 ∷ [];
  queued = (0, lit "q") ∷ [];
}

abbrev quiet_target : Target
quiet_target = record {
  frames = [];
  payloads = [];
  datagrams = [];
  target_writes = 4;
  client_writes = 4;
}

abbrev gateway_events : List UdpTarget.Event
gateway_events =
    UdpTarget.inbound (some (lit "query"))
    ∷ UdpTarget.received (binary (lit "one"))
    ∷ UdpTarget.received (ping (lit "p"))
    ∷ UdpTarget.received (text (lit "two"))
    ∷ UdpTarget.idle
    ∷ []

turn_gateway-IsAnswered_example :
    IsAnswered colons
      (lit "8.8.8.8")
      53
      given_by_gateway
      (EndsGateway colons (lit "8.8.8.8") 53)
      (turn_gateway colons (lit "8.8.8.8") 53)
      gateway_events
      quiet_target
      (UdpTarget.run (turn_gateway colons (lit "8.8.8.8") 53) gateway_events quiet_target)
turn_gateway-IsAnswered_example =
    turn_gateway-IsAnswered colons (lit "8.8.8.8") 53 gateway_events quiet_target refl

-- the relay socket cannot be bound
refuses_association :
    (handle_socks_udp_associate colons events
      (λ addr. none)
      client
      (record { sent = []; writable = 1 })).1.sent
    ≡ general_failure_reply
unfolding handle_socks_udp_associate
refuses_association = refl
