-- ===== src/Http3/Sessions.antt =====
-- The cached connections of src/http3.rs: `session`, `establish` and the dial of `connect_quic`.
use ws2tcp_local_core.Base.{suc, Bool, true, false, List, [], ◌∷◌, Option, none, some, ok, err}
use ws2tcp_local_core.Text.{Text}
use ws2tcp_local_core.Effects.{Exec, ◌>>=◌}
use ws2tcp_local_core.Websocket.{WsError, io, other_kind}
use ws2tcp_local_core.Http3.{Key, key_eq, Session, Quic, State}

-- `io_error`
abbrev pub io_error : WsError
io_error = io other_kind

-- `HashMap::get` and `HashMap::remove`
unfoldable pub get : Key → List (Key × Session) → Option Session
get k [] = none
get k ((l, x) ∷ rest) = elim (key_eq k l) [ true ↦ some x | false ↦ get k rest ]

unfoldable pub remove : Key → List (Key × Session) → List (Key × Session)
remove k [] = []
remove k ((l, x) ∷ rest) = elim (key_eq k l) [
  | true ↦ remove k rest
  | false ↦ (l, x) ∷ remove k rest
]

abbrev pub forget : Key → State → State
forget k s = record s { sessions = remove k s.sessions }

module _ (quic : Quic) where
  -- the loop of `establish` over the addresses
  unfoldable pub dial_each : Key → List Text → Exec State WsError Session
  dial_each k [] s = (err io_error, s)
  dial_each k (addr ∷ addrs) s =
      let dialed = record s { dials = suc s.dials } in
      elim (quic.connect_quic s.dials addr k.host k.insecure) [
        | true ↦ (ok (record { connection = s.dials }), dialed)
        | false ↦ dial_each k addrs dialed
      ]

  unfoldable pub establish : Key → Exec State WsError Session
  establish k s = elim (quic.lookup_host k.host k.port) [
    | none ↦ (err io_error, s)
    | some addrs ↦ dial_each k addrs s
  ]

  -- `sessions.insert`, and that the connection is new
  abbrev pub keep : Key → Session → Exec State WsError (Session × Bool)
  keep k x s = (ok (x, false), record s { sessions = (k, x) ∷ remove k s.sessions })

  abbrev pub renewed : Key → Exec State WsError (Session × Bool)
  renewed k = do x ← establish k; keep k x

  abbrev pub use_open : Key → Session → Bool → Exec State WsError (Session × Bool)
  use_open k x false s = (ok (x, true), s)
  use_open k x true s = renewed k (forget k s)

  abbrev pub use_cached : Key → Option Session → Exec State WsError (Session × Bool)
  use_cached k none s = renewed k s
  use_cached k (some x) s = use_open k x (quic.is_closed x.connection s.sends) s

  -- the connection, and whether it was cached
  unfoldable pub session : Key → Exec State WsError (Session × Bool)
  session k s = use_cached k (get k s.sessions) s
