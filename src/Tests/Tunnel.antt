-- ===== src/Tests/Tunnel.antt =====
-- A tunnel at concrete inputs, and the witnesses.
use ws2tcp_local_core.Base.{◌≡◌, refl, true, false, List, [], ◌∷◌, none, some, Result, ok, arith}
use ws2tcp_local_core.Text.{Text, lit, equal}
use ws2tcp_local_core.HttpProxy.{connect, authority}
use ws2tcp_local_core.Routing.Authority.{host_from_authority}
use ws2tcp_local_core.Websocket.{binary, text, ping}
use ws2tcp_local_core.Tunnel.{Link, Error}
use ws2tcp_local_core.Tunnel.Connect.{GatewayStream}
use ws2tcp_local_core.Tunnel.Opening.{connect_gateway}
use ws2tcp_local_core.Tunnel.Reached.{Reaches, QuicAlone, connect_websocket-QuicAlone}
use ws2tcp_local_core.Tunnel.Connect.{connect_websocket}
use ws2tcp_local_core.Http3.{only}
use ws2tcp_local_core.Tunnel.Attempts.{connect_gateway-Returns}
use ws2tcp_local_core.Tunnel.Relay.{Relay, Event, client_ready, received, proxy, run}
use ws2tcp_local_core.Tunnel.Carried.{carried, ahead}
use ws2tcp_local_core.Tunnel.Relayed.{IsFront, all_up, all_down, state_of, proxy-IsFront}
use ws2tcp_local_core.Tunnel.Delivery.{Delivers, run-delivers}
use ws2tcp_local_core.Tunnel.Handlers.{Client, handle_client}
use ws2tcp_local_core.Tunnel.Served.{IsServed, handle_client-IsServed}
use ws2tcp_local_core.Tests.HttpProxy.{no_url, example_authority, connect_reads, accepted}
use ws2tcp_local_core.Tests.World.{world, config, link, gateway_request}

-- a client that sends five bytes, through a buffer of four
abbrev sending : Relay
sending = record {
  reads = some (lit "hello") ∷ [];
  frames = [];
  written = [];
  gateway_writes = 8;
  client_writes = 8;
  can_shutdown = true;
}

abbrev events : List Event
events =
    client_ready
    ∷ received (binary (lit "re"))
    ∷ received (ping (lit "p"))
    ∷ client_ready
    ∷ received (text (lit "ply"))
    ∷ client_ready
    ∷ client_ready
    ∷ client_ready
    ∷ client_ready
    ∷ []

proxy-IsFront_example :
    let t = state_of (proxy 4 (lit "first") events sending) in
    IsFront (carried t.frames) (all_up 4 (lit "first") events sending)
    × IsFront t.written (all_down 4 (lit "first") events sending)
proxy-IsFront_example = proxy-IsFront 4 (lit "first") events sending

abbrev busy : Relay
busy = record sending { gateway_writes = 9; client_writes = 9 }

run-delivers_example : Delivers busy (run 4 events busy)
unfolding ahead
run-delivers_example = run-delivers 3 events busy tt tt (omega arith) (omega arith) (omega arith)

connect_gateway-Returns_example :
    (r : Result Error GatewayStream) × (after : Link) × (connect_gateway world config 2
        (lit "wss://gateway/tcp:example.com:443")
        link
      ≡ some (r, after))
    × Reaches config.upstream_proxy 2 link after
connect_gateway-Returns_example =
    connect_gateway-Returns world config 0 (lit "wss://gateway/tcp:example.com:443") link

connect_websocket-QuicAlone_example :
    QuicAlone link (connect_websocket world gateway_request false only none link).1
unfolding equal
connect_websocket-QuicAlone_example =
    connect_websocket-QuicAlone world gateway_request false link refl

abbrev waiting : Client
waiting = record { sent = []; writable = 1 }

handle_client-IsServed_example :
    (host : Text) × (host_from_authority example_authority ≡ ok host)
    × IsServed
        (config.should_proxy_host host)
        config.upstream_proxy
        link
        (handle_client world config no_url connect_reads waiting link)
unfolding authority
handle_client-IsServed_example =
    handle_client-IsServed world config no_url connect_reads []
      (connect example_authority (lit "hello")) waiting link accepted
