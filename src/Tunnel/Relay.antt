-- ===== src/Tunnel/Relay.antt =====
-- `proxy` of src/tunnel.rs: the loop of a TCP tunnel through the gateway. `select!` takes the events in
-- any order, so a run is given by the list of them. How many more writes the gateway and the client
-- take is part of the state, as is whether the client's side can be shut down.
use ws2tcp_local_core.Base.{
  ℕ, zero, suc, Bool, true, false, List, [], ◌∷◌, ◌++◌, Option, none, some, Result, ok, err, length,
  leb, take, drop,
}
use ws2tcp_local_core.Text.{Bytes}
use ws2tcp_local_core.HttpProxy.Read.{Reads}
use ws2tcp_local_core.Websocket.{Message, binary, text, ping, pong, close, frame}
use ws2tcp_local_core.Tunnel.{
  Error, read_client_failed, write_client_failed, read_gateway_failed, write_gateway_failed,
}

-- `read` into a buffer of `size` bytes, and the reads left: a longer chunk is read in parts, and the
-- input stays at its end
unfoldable pub read_into : ℕ → Reads → Option Bytes × Reads
read_into size [] = (some [], [])
read_into size (none ∷ reads) = (none, reads)
read_into size (some chunk ∷ reads) = elim (leb (length chunk) size) [
  | true ↦ (some chunk, reads)
  | false ↦ (some (take size chunk), some (drop size chunk) ∷ reads)
]

-- the tunnel: what the client will send, the frames sent to the gateway and the bytes written to the
-- client, both in their order
pub record Relay : Type 0 where
  pub reads : Reads
  pub frames : List Message
  pub written : Bytes
  pub gateway_writes : ℕ
  pub client_writes : ℕ
  pub can_shutdown : Bool

-- the client can be read, or what `ws_reader.next()` gives: a message, an error or the end
pub data Event : Type 0 where
  client_ready broken ended : Event
  received : Message → Event

-- the loop goes on, or the function returns
pub data Turn : Type 0 where
  goes_on : Relay → Turn
  returns : Result Error (Unit {0}) → Relay → Turn

abbrev pub sent_when : ℕ → Message → Relay → Turn
sent_when zero m s = returns (err write_gateway_failed) s
sent_when (suc n) m s = goes_on (record s { frames = s.frames ++ (m ∷ []); gateway_writes = n })

-- `ws_writer.send(..).await?`
abbrev pub send_frame : Message → Relay → Turn
send_frame m s = sent_when s.gateway_writes m s

abbrev pub written_when : ℕ → Bytes → Relay → Turn
written_when zero bytes s = returns (err write_client_failed) s
written_when (suc n) bytes s =
    goes_on (record s { written = s.written ++ bytes; client_writes = n })

-- `client_writer.write_all(..).await?`
abbrev pub write_client : Bytes → Relay → Turn
write_client bytes s = written_when s.client_writes bytes s

abbrev pub closed_when : ℕ → Relay → Relay
closed_when zero s = s
closed_when (suc n) s = record s { frames = s.frames ++ (close ∷ []); gateway_writes = n }

-- `let _ = ws_writer.send(Message::Close(None)).await; break`
abbrev pub close_gateway : Relay → Turn
close_gateway s = returns (ok tt) (closed_when s.gateway_writes s)

abbrev pub shut_when : Bool → Relay → Turn
shut_when true s = returns (ok tt) s
shut_when false s = returns (err write_client_failed) s

-- `client_writer.shutdown().await?; break`
abbrev pub shutdown_client : Relay → Turn
shutdown_client s = shut_when s.can_shutdown s

abbrev pub forward : Option Bytes → Relay → Turn
forward none s = returns (err read_client_failed) s
forward (some []) s = close_gateway s
forward (some (b ∷ chunk)) s = send_frame (binary (b ∷ chunk)) s

abbrev pub on_message : Message → Relay → Turn
on_message (binary bytes) s = write_client bytes s
on_message (text bytes) s = write_client bytes s
on_message (ping payload) s = send_frame (pong payload) s
on_message (pong _) s = goes_on s
on_message frame s = goes_on s
on_message close s = shutdown_client s

abbrev pub read_client : Option Bytes × Reads → Relay → Turn
read_client (chunk, left) s = forward chunk (record s { reads = left })

-- one turn of the loop, with a buffer of `size` bytes
unfoldable pub turn : ℕ → Event → Relay → Turn
turn size client_ready s = read_client (read_into size s.reads) s
turn size (received m) s = on_message m s
turn size broken s = returns (err read_gateway_failed) s
turn size ended s = shutdown_client s

abbrev pub next : (Relay → Turn) → Turn → Turn
next f (goes_on s) = f s
next f (returns r s) = returns r s

unfoldable pub run : ℕ → List Event → Relay → Turn
run size [] s = goes_on s
run size (e ∷ events) s = next (run size events) (turn size e s)

abbrev pub send_initial : Bytes → Relay → Turn
send_initial [] s = goes_on s
send_initial (b ∷ bytes) s = send_frame (binary (b ∷ bytes)) s

-- `proxy`, up to the end of the events
unfoldable pub proxy : ℕ → Bytes → List Event → Relay → Turn
proxy size initial events s = next (run size events) (send_initial initial s)
