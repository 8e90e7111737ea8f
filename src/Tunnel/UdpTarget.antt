-- ===== src/Tunnel/UdpTarget.antt =====
-- The tunnels of a UDP association: `run_udp_target` of src/tunnel.rs with its loops through the gateway and
-- direct, and `send_udp_datagram_to_client`. `select!` gives the events in any order.
use ws2tcp_local_core.Base.{ℕ, zero, suc, List, [], ◌∷◌, ◌++◌, Option, none, some, Result, ok, err}
use ws2tcp_local_core.Text.{Text, Bytes}
use ws2tcp_local_core.Net.Ipv6.{Ipv6Text}
use ws2tcp_local_core.Socks5.Datagram.{build_udp_datagram}
use ws2tcp_local_core.Websocket.{Message, binary, text, ping, pong, close, frame}
use ws2tcp_local_core.Tunnel.{
  Error, panicked, read_gateway_failed, write_gateway_failed, write_target_failed,
  write_client_failed, receive_failed,
}

-- The frames sent to the gateway or, direct, the payloads sent to the target, and the datagrams sent
-- to the client, all in their order; how many more sends each side takes.
pub record Target : Type 0 where
  pub frames : List Message
  pub payloads : List Bytes
  pub datagrams : List Bytes
  pub target_writes : ℕ
  pub client_writes : ℕ

-- what `inbound` gives (none when it closes), what the gateway gives, what the target's socket
-- gives, or nothing for a minute
pub data Event : Type 0 where
  inbound : Option Bytes → Event
  received : Message → Event
  broken ended idle : Event
  answered : Option Bytes → Event

pub data Turn : Type 0 where
  goes_on : Target → Turn
  returns : Result Error (Unit {0}) → Target → Turn

abbrev pub framed_when : ℕ → Message → Target → Turn
framed_when zero m s = returns (err write_gateway_failed) s
framed_when (suc n) m s = goes_on (record s { frames = s.frames ++ (m ∷ []); target_writes = n })

-- `ws_writer.send(..).await?`
abbrev pub send_frame : Message → Target → Turn
send_frame m s = framed_when s.target_writes m s

abbrev pub closed_when : ℕ → Target → Target
closed_when zero s = s
closed_when (suc n) s = record s { frames = s.frames ++ (close ∷ []); target_writes = n }

-- `let _ = ws_writer.send(Message::Close(None)).await; break`
abbrev pub close_gateway : Target → Turn
close_gateway s = returns (ok tt) (closed_when s.target_writes s)

abbrev pub payload_when : ℕ → Bytes → Target → Turn
payload_when zero payload s = returns (err write_target_failed) s
payload_when (suc n) payload s =
    goes_on (record s { payloads = s.payloads ++ (payload ∷ []); target_writes = n })

-- `upstream.send(..).await?`
abbrev pub send_payload : Bytes → Target → Turn
send_payload payload s = payload_when s.target_writes payload s

abbrev pub datagram_when : ℕ → Bytes → Target → Turn
datagram_when zero bytes s = returns (err write_client_failed) s
datagram_when (suc n) bytes s =
    goes_on (record s { datagrams = s.datagrams ++ (bytes ∷ []); client_writes = n })

abbrev pub send_built : Option Bytes → Target → Turn
send_built none s = returns (err panicked) s
send_built (some bytes) s = datagram_when s.client_writes bytes s

module _ (ipv6 : Ipv6Text) (host : Text) (port : ℕ) where
  unfoldable pub send_udp_datagram_to_client : Bytes → Target → Turn
  send_udp_datagram_to_client payload s = send_built (build_udp_datagram ipv6 host port payload) s

  abbrev pub on_message : Message → Target → Turn
  on_message (binary bytes) s = send_udp_datagram_to_client bytes s
  on_message (text bytes) s = send_udp_datagram_to_client bytes s
  on_message (ping payload) s = send_frame (pong payload) s
  on_message (pong _) s = goes_on s
  on_message frame s = goes_on s
  on_message close s = returns (ok tt) s

  -- one turn of the loop of `run_udp_target_gateway`
  unfoldable pub turn_gateway : Event → Target → Turn
  turn_gateway (inbound none) s = returns (ok tt) s
  turn_gateway (inbound (some payload)) s = send_frame (binary payload) s
  turn_gateway (received m) s = on_message m s
  turn_gateway broken s = returns (err read_gateway_failed) s
  turn_gateway ended s = returns (ok tt) s
  turn_gateway idle s = close_gateway s
  turn_gateway (answered _) s = goes_on s

  -- one turn of the loop of `run_udp_target_direct`
  unfoldable pub turn_direct : Event → Target → Turn
  turn_direct (inbound none) s = returns (ok tt) s
  turn_direct (inbound (some payload)) s = send_payload payload s
  turn_direct (answered none) s = returns (err receive_failed) s
  turn_direct (answered (some bytes)) s = send_udp_datagram_to_client bytes s
  turn_direct idle s = returns (ok tt) s
  turn_direct (received _) s = goes_on s
  turn_direct broken s = goes_on s
  turn_direct ended s = goes_on s

abbrev pub next : (Target → Turn) → Turn → Turn
next f (goes_on s) = f s
next f (returns r s) = returns r s

-- a loop over events
unfoldable pub run : (Event → Target → Turn) → List Event → Target → Turn
run turn [] s = goes_on s
run turn (e ∷ events) s = next (run turn events) (turn e s)
