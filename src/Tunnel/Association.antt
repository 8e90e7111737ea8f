-- ===== src/Tunnel/Association.antt =====
-- The loop of `handle_socks_udp_associate` in src/tunnel.rs: the datagrams of the client are handed to a
-- tunnel for each destination. `select!` and the tasks give the events, in any order. A task is known
-- by its number; a datagram for one that has ended is dropped, and a full channel only makes the loop
-- wait, so it is left out.
use ws2tcp_local_core.Base.{
  ℕ, zero, suc, Bool, true, false, ◌&&◌, List, [], ◌∷◌, ◌++◌, Option, none, some, Result, ok, err,
  length, ◌==◌, any,
}
use ws2tcp_local_core.Text.{Text, Bytes, lit, equal}
use ws2tcp_local_core.Text.Number.{decimal}
use ws2tcp_local_core.Net.Ipv4
use ws2tcp_local_core.Net.Ipv6.{Ipv6Text}
use ws2tcp_local_core.Socks5
use ws2tcp_local_core.Socks5.Datagram.{SocketAddr, v4, v6, Datagram, parse_udp_datagram}
use ws2tcp_local_core.Tunnel.{Error, receive_failed}

-- `==` of two socket addresses
unfoldable pub same_addr : SocketAddr → SocketAddr → Bool
same_addr (v4 a m) (v4 b n) = equal (Ipv4.octets a) (Ipv4.octets b) && m == n
same_addr (v6 a m f s) (v6 b n g t) = equal a b && m == n && f == g && s == t
same_addr _ _ = false

-- a task of `run_udp_target`
pub record Target : Type 0 where
  pub key : Text
  pub host : Text
  pub port : ℕ
  pub client_addr : SocketAddr

-- The senders by their keys, the client that the association is pinned to, the tasks spawned, the
-- last one first (the number of one is how many came before), those that have ended, and the
-- payloads handed over, the last one first, with the numbers of their tasks.
pub record Association : Type 0 where
  pub targets : List (Text × ℕ)
  pub client_addr : Option SocketAddr
  pub spawned : List Target
  pub gone : List ℕ
  pub queued : List (ℕ × Bytes)

abbrev pub new_association : Association
new_association = record { targets = []; client_addr = none; spawned = []; gone = []; queued = [] }

-- the control connection gives bytes (none at its end) or fails, nothing comes for a minute, the
-- socket fails or gives a datagram, or a task ends
pub data Event : Type 0 where
  control : ℕ → Event
  control_failed idle socket_failed : Event
  datagram : Bytes → SocketAddr → Event
  target_ended : ℕ → Event

pub data Turn : Type 0 where
  goes_on : Association → Turn
  returns : Result Error (Unit {0}) → Association → Turn

-- `targets.get(&key)`
unfoldable pub get : Text → List (Text × ℕ) → Option ℕ
get key [] = none
get key ((k, n) ∷ rest) = elim (equal key k) [ true ↦ some n | false ↦ get key rest ]

-- `format!("{host}:{port}")`
unfoldable pub key_of : Text → ℕ → Text
key_of host port = host ++ (lit ":" ++ decimal port)

abbrev pub hand_when : Bool → ℕ → Bytes → Association → Association
hand_when true n payload s = s
hand_when false n payload s = record s { queued = (n, payload) ∷ s.queued }

-- `let _ = sender.send(payload.to_vec()).await`
abbrev pub hand_over : ℕ → Bytes → Association → Association
hand_over n payload s = hand_when (any (λ m. n == m) s.gone) n payload s

-- a new tunnel, for a destination that has none
abbrev pub spawn : Text → Datagram → SocketAddr → Association → Association
spawn key d from s = record s {
  targets = (key, length s.spawned) ∷ s.targets;
  spawned = record { key = key; host = d.host; port = d.port; client_addr = from } ∷ s.spawned;
}

abbrev pub relay_to : Option ℕ → Text → Datagram → SocketAddr → Association → Association
relay_to (some n) key d from s = hand_over n d.payload s
relay_to none key d from s = hand_over (length s.spawned) d.payload (spawn key d from s)

abbrev pub relay_parsed : Result Socks5.Error Datagram → SocketAddr → Association → Association
relay_parsed (err _) from s = s
relay_parsed (ok d) from s =
    let key = key_of d.host d.port in relay_to (get key s.targets) key d from s

abbrev pub when_same : Bool → Result Socks5.Error Datagram → SocketAddr → Association → Association
when_same false parsed from s = s
when_same true parsed from s = relay_parsed parsed from s

-- the match on `client_addr`
abbrev pub pinned :
    Option SocketAddr → Result Socks5.Error Datagram → SocketAddr → Association → Association
pinned (some expected) parsed from s = when_same (same_addr expected from) parsed from s
pinned none parsed from s = relay_parsed parsed from (record s { client_addr = some from })

abbrev pub on_control : ℕ → Association → Turn
on_control zero s = returns (ok tt) s
on_control (suc n) s = goes_on s

module _ (ipv6 : Ipv6Text) where
  -- one turn of the loop
  unfoldable pub turn : Event → Association → Turn
  turn (control n) s = on_control n s
  turn control_failed s = returns (ok tt) s
  turn idle s = returns (ok tt) s
  turn socket_failed s = returns (err receive_failed) s
  turn (datagram bytes from) s =
      goes_on (pinned s.client_addr (parse_udp_datagram ipv6 bytes) from s)
  turn (target_ended n) s = goes_on (record s { gone = n ∷ s.gone })

  abbrev pub next : (Association → Turn) → Turn → Turn
  next f (goes_on s) = f s
  next f (returns r s) = returns r s

  unfoldable pub run : List Event → Association → Turn
  run [] s = goes_on s
  run (e ∷ events) s = next (run events) (turn e s)
