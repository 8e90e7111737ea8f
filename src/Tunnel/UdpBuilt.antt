-- ===== src/Tunnel/UdpBuilt.antt =====
-- What one turn of a UDP tunnel of src/tunnel.rs adds to what the client was sent, and what ends a
-- tunnel.
use mathlib.Core.List.{append-nil}
use mathlib.Core.Path.{subst}
use ws2tcp_local_core.Base.{
  ℕ, zero, suc, ◌≡◌, ◌⊎◌, inl, inr, refl, sym, List, [], ◌∷◌, ◌++◌, Option, none, some,
}
use ws2tcp_local_core.Text.{Text, Bytes}
use ws2tcp_local_core.Net.Ipv6.{Ipv6Text}
use ws2tcp_local_core.Socks5.Datagram.{build_udp_datagram}
use ws2tcp_local_core.Websocket.{Message, binary, text, ping, pong, close, frame}
use ws2tcp_local_core.Tunnel.UdpTarget.{
  Target, Event, inbound, received, broken, ended, idle, answered, Turn, goes_on, returns,
  framed_when, closed_when, payload_when, datagram_when, send_built, send_udp_datagram_to_client,
  turn_gateway, turn_direct,
}

-- the payload of an event for the client, in each of the loops
abbrev pub given_by_gateway : Event → List Bytes
given_by_gateway (received (binary bytes)) = bytes ∷ []
given_by_gateway (received (text bytes)) = bytes ∷ []
given_by_gateway _ = []

abbrev pub given_directly : Event → List Bytes
given_directly (answered (some bytes)) = bytes ∷ []
given_directly _ = []

abbrev pub all_given : (Event → List Bytes) → List Event → List Bytes
all_given given [] = []
all_given given (e ∷ es) = given e ++ all_given given es

module _ (ipv6 : Ipv6Text) (host : Text) (port : ℕ) where
  -- each datagram is built from the payload in its place
  abbrev pub Built : List Bytes → List Bytes → Type 0
  Built [] [] = Unit
  Built (d ∷ ds) (p ∷ ps) = (build_udp_datagram ipv6 host port p ≡ some d) × Built ds ps
  Built _ _ = ⊥

  append-Built :
      (ds ps : List Bytes) (d p : Bytes)
      → Built ds ps
      → build_udp_datagram ipv6 host port p ≡ some d
      → Built (ds ++ (d ∷ [])) (ps ++ (p ∷ []))
  append-Built [] [] d p h e = (e, tt)
  append-Built [] (_ ∷ _) d p h e = absurd h
  append-Built (_ ∷ _) [] d p h e = absurd h
  append-Built (c ∷ ds) (q ∷ ps) d p (first, others) e = (first, append-Built ds ps d p others e)

  -- a datagram for the client cannot be sent: the client takes none, or it cannot be built
  abbrev pub IsUnsent : Bytes → Target → Type 0
  IsUnsent payload s = (s.client_writes ≡ 0) ⊎ (build_udp_datagram ipv6 host port payload ≡ none)

  -- the events that end a tunnel through the gateway, with what the sides still take
  abbrev pub EndsGateway : Event → Target → Type 0
  EndsGateway (inbound none) s = Unit
  EndsGateway (inbound (some _)) s = s.target_writes ≡ 0
  EndsGateway (received (binary bytes)) s = IsUnsent bytes s
  EndsGateway (received (text bytes)) s = IsUnsent bytes s
  EndsGateway (received (ping _)) s = s.target_writes ≡ 0
  EndsGateway (received (pong _)) s = ⊥
  EndsGateway (received frame) s = ⊥
  EndsGateway (received close) s = Unit
  EndsGateway broken s = Unit
  EndsGateway ended s = Unit
  EndsGateway idle s = Unit
  EndsGateway (answered _) s = ⊥

  -- the events that end a direct one
  abbrev pub EndsDirectly : Event → Target → Type 0
  EndsDirectly (inbound none) s = Unit
  EndsDirectly (inbound (some _)) s = s.target_writes ≡ 0
  EndsDirectly (answered none) s = Unit
  EndsDirectly (answered (some bytes)) s = IsUnsent bytes s
  EndsDirectly idle s = Unit
  EndsDirectly (received _) s = ⊥
  EndsDirectly broken s = ⊥
  EndsDirectly ended s = ⊥

  -- The client was sent the first payloads, up to where a turn returned, for the reason `End`.
  unfoldable pub IsBuilt : List Bytes → List Bytes → Type 0 → Turn → Type 0
  IsBuilt front more End (goes_on s) = Built s.datagrams (front ++ more)
  IsBuilt front more End (returns r s) = Built s.datagrams front × End

  send-IsBuilt :
      (front : List Bytes) (payload : Bytes) (s : Target)
      → Built s.datagrams front
      → IsBuilt front
          (payload ∷ [])
          (IsUnsent payload s)
          (send_udp_datagram_to_client ipv6 host port payload s)
  unfolding IsBuilt send_udp_datagram_to_client
  send-IsBuilt front payload s h = by_datagram (build_udp_datagram ipv6 host port payload) refl
    where
      by_writes :
          (n : ℕ) (d : Bytes)
          → s.client_writes ≡ n
          → build_udp_datagram ipv6 host port payload ≡ some d
          → IsBuilt front (payload ∷ []) (IsUnsent payload s) (datagram_when n d s)
      by_writes zero d w e = (h, inl w)
      by_writes (suc n) d w e = append-Built s.datagrams front d payload h e

      by_datagram :
          (o : Option Bytes)
          → build_udp_datagram ipv6 host port payload ≡ o
          → IsBuilt front (payload ∷ []) (IsUnsent payload s) (send_built o s)
      by_datagram none e = (h, inr e)
      by_datagram (some d) e = by_writes s.client_writes d refl e

  quiet :
      (front : List Bytes) (s : Target) → Built s.datagrams front → Built s.datagrams (front ++ [])
  quiet front s h = subst (Built s.datagrams) (sym (append-nil front)) h

  framed-IsBuilt :
      (front : List Bytes) (n : ℕ) (m : Message) (s : Target)
      → s.target_writes ≡ n
      → Built s.datagrams front
      → IsBuilt front [] (s.target_writes ≡ 0) (framed_when n m s)
  unfolding IsBuilt
  framed-IsBuilt front zero m s w h = (h, w)
  framed-IsBuilt front (suc n) m s w h = quiet front s h

  pub turn_gateway-IsBuilt :
      (front : List Bytes) (e : Event) (s : Target)
      → Built s.datagrams front
      → IsBuilt front (given_by_gateway e) (EndsGateway e s) (turn_gateway ipv6 host port e s)
  unfolding turn_gateway IsBuilt
  turn_gateway-IsBuilt front (inbound none) s h = (h, tt)
  turn_gateway-IsBuilt front (inbound (some payload)) s h =
      framed-IsBuilt front s.target_writes (binary payload) s refl h
  turn_gateway-IsBuilt front (received (binary bytes)) s h = send-IsBuilt front bytes s h
  turn_gateway-IsBuilt front (received (text bytes)) s h = send-IsBuilt front bytes s h
  turn_gateway-IsBuilt front (received (ping payload)) s h =
      framed-IsBuilt front s.target_writes (pong payload) s refl h
  turn_gateway-IsBuilt front (received (pong _)) s h = quiet front s h
  turn_gateway-IsBuilt front (received frame) s h = quiet front s h
  turn_gateway-IsBuilt front (received close) s h = (h, tt)
  turn_gateway-IsBuilt front broken s h = (h, tt)
  turn_gateway-IsBuilt front ended s h = (h, tt)
  turn_gateway-IsBuilt front idle s h = (by_writes s.target_writes, tt)
    where
      by_writes : (n : ℕ) → Built (closed_when n s).datagrams front
      by_writes zero = h
      by_writes (suc n) = h
  turn_gateway-IsBuilt front (answered _) s h = quiet front s h

  pub turn_direct-IsBuilt :
      (front : List Bytes) (e : Event) (s : Target)
      → Built s.datagrams front
      → IsBuilt front (given_directly e) (EndsDirectly e s) (turn_direct ipv6 host port e s)
  unfolding turn_direct IsBuilt
  turn_direct-IsBuilt front (inbound none) s h = (h, tt)
  turn_direct-IsBuilt front (inbound (some payload)) s h = by_writes s.target_writes refl
    where
      by_writes :
          (n : ℕ)
          → s.target_writes ≡ n
          → IsBuilt front [] (s.target_writes ≡ 0) (payload_when n payload s)
      by_writes zero w = (h, w)
      by_writes (suc n) w = quiet front s h
  turn_direct-IsBuilt front (answered none) s h = (h, tt)
  turn_direct-IsBuilt front (answered (some bytes)) s h = send-IsBuilt front bytes s h
  turn_direct-IsBuilt front idle s h = (h, tt)
  turn_direct-IsBuilt front (received _) s h = quiet front s h
  turn_direct-IsBuilt front broken s h = quiet front s h
  turn_direct-IsBuilt front ended s h = quiet front s h
