-- ===== src/Tunnel/Relayed.antt =====
-- What `proxy` of src/tunnel.rs relays: the client's bytes to the gateway and the gateway's to the
-- client, in their order, whatever the interleaving.
use mathlib.Core.Path.{subst}
use mathlib.Core.List.{append-nil, append_assoc}
use ws2tcp_local_core.Base.{
  ℕ, zero, suc, ◌≡◌, refl, sym, ap, ◌∙◌, Bool, true, false, List, [], ◌∷◌, ◌++◌, Option, none, some,
  Result, ok,
}
use ws2tcp_local_core.Text.{Bytes}
use ws2tcp_local_core.HttpProxy.Read.{Reads}
use ws2tcp_local_core.Websocket.{Message, binary, text, ping, pong, close, frame}
use ws2tcp_local_core.Tunnel.{Error}
use ws2tcp_local_core.Tunnel.Relay.{
  read_into, Relay, Event, client_ready, received, broken, ended, Turn, goes_on, returns, sent_when,
  send_frame, written_when, write_client, closed_when, close_gateway, shut_when, shutdown_client,
  read_client, turn, next, run, send_initial, proxy,
}
use ws2tcp_local_core.Tunnel.Carried.{
  ahead, carried, delivered, carried-sent, carried-control, read_into-ahead, up, delivered-cons,
}

-- a front of a list of bytes
pub record IsFront (bytes whole : Bytes) : Type 0 where
  pub rest : Bytes
  pub splits : whole ≡ bytes ++ rest

-- Of `above` and `below`, what goes on has relayed all but what is ahead of it and `more`; what
-- returns has relayed a front of each.
IsRelayed : Bytes → Bytes → Bytes → Turn → Type 0
IsRelayed above below more (goes_on s) = (up s ≡ above) × (s.written ++ more ≡ below)
IsRelayed above below more (returns r s) =
    IsFront (carried s.frames) above × IsFront s.written below

module _ (above below more : Bytes) where
  -- what returns from a state that holds all
  returns-IsRelayed :
      (r : Result Error (Unit {0})) (s : Relay)
      → up s ≡ above
      → s.written ++ more ≡ below
      → IsRelayed above below more (returns r s)
  unfolding IsRelayed
  returns-IsRelayed r s h k =
      (record { rest = ahead s.reads; splits = sym h }, record { rest = more; splits = sym k })

  -- a frame that carries `bytes` more, with what was ahead
  send_frame-IsRelayed :
      (m : Message) (s : Relay)
      → carried (s.frames ++ (m ∷ [])) ++ ahead s.reads ≡ above
      → IsFront (carried s.frames) above
      → s.written ++ more ≡ below
      → IsRelayed above below more (send_frame m s)
  unfolding IsRelayed
  send_frame-IsRelayed m s h f k = by_writes s.gateway_writes
    where
      by_writes : (n : ℕ) → IsRelayed above below more (sent_when n m s)
      by_writes zero = (f, record { rest = more; splits = sym k })
      by_writes (suc n) = (h, k)

  close_gateway-IsRelayed :
      (s : Relay)
      → IsFront (carried s.frames) above
      → s.written ++ more ≡ below
      → IsRelayed above below more (close_gateway s)
  unfolding IsRelayed carried
  close_gateway-IsRelayed s f k = by_writes s.gateway_writes
    where
      closed : above ≡ carried (s.frames ++ (close ∷ [])) ++ f.rest
      closed = f.splits ∙ ap (λ l. l ++ f.rest) (sym (carried-control s.frames close refl))

      by_writes : (n : ℕ) → IsRelayed above below more (returns (ok tt) (closed_when n s))
      by_writes zero = (f, record { rest = more; splits = sym k })
      by_writes (suc n) =
          (record { rest = f.rest; splits = closed }, record { rest = more; splits = sym k })

  shutdown_client-IsRelayed :
      (s : Relay)
      → up s ≡ above
      → s.written ++ more ≡ below
      → IsRelayed above below more (shutdown_client s)
  shutdown_client-IsRelayed s h k = by_side s.can_shutdown
    where
      by_side : (b : Bool) → IsRelayed above below more (shut_when b s)
      by_side true = returns-IsRelayed (ok tt) s h k
      by_side false = returns-IsRelayed _ s h k

  write_client-IsRelayed :
      (bytes : Bytes) (s : Relay)
      → up s ≡ above
      → s.written ++ (bytes ++ more) ≡ below
      → IsRelayed above below more (write_client bytes s)
  unfolding IsRelayed
  write_client-IsRelayed bytes s h k = by_writes s.client_writes
    where
      by_writes : (n : ℕ) → IsRelayed above below more (written_when n bytes s)
      by_writes zero = (
        record { rest = ahead s.reads; splits = sym h },
        record { rest = bytes ++ more; splits = sym k },
      )
      by_writes (suc n) = (h, append_assoc s.written bytes more ∙ k)

  control-IsRelayed :
      (m : Message) (s : Relay)
      → carried (m ∷ []) ≡ []
      → up s ≡ above
      → s.written ++ more ≡ below
      → IsRelayed above below more (send_frame m s)
  control-IsRelayed m s e h k =
      send_frame-IsRelayed m s (ap (λ l. l ++ ahead s.reads) (carried-control s.frames m e) ∙ h)
        (record { rest = ahead s.reads; splits = sym h }) k

  read_client-IsRelayed :
      (size : ℕ) (s : Relay)
      → up s ≡ above
      → s.written ++ more ≡ below
      → IsRelayed above below more (read_client (read_into size s.reads) s)
  read_client-IsRelayed size s h k = by_read (read_into size s.reads) refl
    where
      front : IsFront (carried s.frames) above
      front = record { rest = ahead s.reads; splits = sym h }

      by_read :
          (x : Option Bytes × Reads)
          → read_into size s.reads ≡ x
          → IsRelayed above below more (read_client x s)
      by_read (none, left) e = unfold IsRelayed in (front, record { rest = more; splits = sym k })
      by_read (some [], left) e = close_gateway-IsRelayed (record s { reads = left }) front k
      by_read (some (b ∷ chunk), left) e =
          send_frame-IsRelayed (binary (b ∷ chunk)) (record s { reads = left })
            (carried-sent s.frames (b ∷ chunk) (ahead left)
              ∙ ap (λ l. carried s.frames ++ l) (sym (read_into-ahead size s.reads left b chunk e))
              ∙ h)
            front k

  turn-IsRelayed :
      (size : ℕ) (e : Event) (s : Relay)
      → up s ≡ above
      → s.written ++ (delivered (e ∷ []) ++ more) ≡ below
      → IsRelayed above below more (turn size e s)
  unfolding turn delivered carried
  turn-IsRelayed size client_ready s h k = read_client-IsRelayed size s h k
  turn-IsRelayed size broken s h k = returns-IsRelayed _ s h k
  turn-IsRelayed size ended s h k = shutdown_client-IsRelayed s h k
  turn-IsRelayed size (received (binary bytes)) s h k =
      write_client-IsRelayed bytes s h
        (ap (λ l. s.written ++ (l ++ more)) (sym (append-nil bytes)) ∙ k)
  turn-IsRelayed size (received (text bytes)) s h k =
      write_client-IsRelayed bytes s h
        (ap (λ l. s.written ++ (l ++ more)) (sym (append-nil bytes)) ∙ k)
  turn-IsRelayed size (received (ping payload)) s h k = control-IsRelayed (pong payload) s refl h k
  turn-IsRelayed size (received (pong _)) s h k = unfold IsRelayed in (h, k)
  turn-IsRelayed size (received frame) s h k = unfold IsRelayed in (h, k)
  turn-IsRelayed size (received close) s h k = shutdown_client-IsRelayed s h k

run-IsRelayed :
    (size : ℕ) (events : List Event) (s : Relay) (above below : Bytes)
    → up s ≡ above
    → s.written ++ delivered events ≡ below
    → IsRelayed above below [] (run size events s)
unfolding run delivered IsRelayed
run-IsRelayed size [] s above below h k = (h, k)
run-IsRelayed size (e ∷ events) s above below h k =
    by_turn (turn size e s)
      (turn-IsRelayed above below (delivered events) size e s h
        (ap (λ l. s.written ++ l) (sym (delivered-cons e events)) ∙ k))
      (λ s'. run-IsRelayed size events s' above below)
  where
    by_turn :
        (t : Turn)
        → IsRelayed above below (delivered events) t
        → ((s' : Relay)
            → up s' ≡ above
            → s'.written ++ delivered events ≡ below
            → IsRelayed above below [] (run size events s'))
        → IsRelayed above below [] (next (run size events) t)
    by_turn (goes_on s') (h', k') go = go s' h' k'
    by_turn (returns r s') x go = x

-- the state at the end of a run
abbrev pub state_of : Turn → Relay
state_of (goes_on s) = s
state_of (returns r s) = s

module _ (size : ℕ) (initial : Bytes) (events : List Event) (s : Relay) where
  -- what the gateway and the client are to get
  abbrev pub all_up : Bytes
  all_up = carried s.frames ++ (initial ++ ahead s.reads)

  abbrev pub all_down : Bytes
  all_down = s.written ++ delivered events

  send_initial-IsRelayed :
      (bytes : Bytes)
      → IsRelayed
          (carried s.frames ++ (bytes ++ ahead s.reads))
          all_down
          (delivered events)
          (send_initial bytes s)
  unfolding IsRelayed
  send_initial-IsRelayed [] = (refl, refl)
  send_initial-IsRelayed (b ∷ bytes) =
      send_frame-IsRelayed _ all_down (delivered events) (binary (b ∷ bytes)) s
        (carried-sent s.frames (b ∷ bytes) (ahead s.reads))
        (record { rest = (b ∷ bytes) ++ ahead s.reads; splits = refl }) refl

  proxy-IsRelayed : IsRelayed all_up all_down [] (proxy size initial events s)
  unfolding proxy
  proxy-IsRelayed = by_turn (send_initial initial s) (send_initial-IsRelayed initial)
    where
      by_turn :
          (t : Turn)
          → IsRelayed all_up all_down (delivered events) t
          → IsRelayed all_up all_down [] (next (run size events) t)
      by_turn (goes_on s') h =
          unfold IsRelayed in run-IsRelayed size events s' all_up all_down h.0 h.1
      by_turn (returns r s') h = unfold IsRelayed in h

  -- However the events are interleaved and however the tunnel ends, the frames sent carry a front of
  -- the bytes that came with the request and of those that the client sends, and what was written to
  -- the client is a front of what the gateway sent.
  pub proxy-IsFront :
      let t = state_of (proxy size initial events s) in
      IsFront (carried t.frames) all_up × IsFront t.written all_down
  proxy-IsFront = by_turn (proxy size initial events s) proxy-IsRelayed
    where
      by_turn :
          (t : Turn)
          → IsRelayed all_up all_down [] t
          → IsFront (carried (state_of t).frames) all_up × IsFront (state_of t).written all_down
      by_turn (goes_on s') h =
          unfold IsRelayed in
          (
            record { rest = ahead s'.reads; splits = sym h.0 },
            record { rest = []; splits = sym h.1 },
          )
      by_turn (returns r s') h = unfold IsRelayed in h

  -- While the tunnel goes on, every byte of the client is in a frame or still to be read, and every
  -- byte that the gateway sent has been written to the client.
  pub proxy-whole :
      (t : Relay)
      → proxy size initial events s ≡ goes_on t
      → (carried t.frames ++ ahead t.reads ≡ all_up) × (t.written ≡ all_down)
  proxy-whole t e =
      let h = subst (IsRelayed all_up all_down []) e proxy-IsRelayed in
      unfold IsRelayed in (h.0, sym (append-nil t.written) ∙ h.1)
