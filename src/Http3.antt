-- ===== src/Http3.antt =====
-- src/http3.rs: the HTTP/3 mode, and how the websocket of a tunnel is opened over HTTP/3. The state
-- is that of the two statics, the cached connections and the end of the TCP period; the QUIC and
-- HTTP/3 libraries are a parameter. Times are nanoseconds. Left out: the count of the tunnels and
-- the snapshot for display, and the tasks that pump a stream's bytes.
pub mod Sessions
pub mod Connect
pub mod Fallback
pub mod Periods
use ws2tcp_local_core.Base.{
  ℕ, ◌*◌, Bool, true, false, ◌&&◌, List, [], ◌∷◌, Option, none, some, ◌==◌,
}
use ws2tcp_local_core.Text.{Text, lit, equal}
use ws2tcp_local_core.Websocket.{Headers}

pub data Mode : Type 0 where
  off preferred only : Mode

-- what the config file can hold for the mode
pub data Raw : Type 0 where
  bool : Bool → Raw
  name : Text → Raw

abbrev named : Bool → Bool → Bool → Option Mode
named true _ _ = some off
named false true _ = some preferred
named false false true = some only
named false false false = none

-- `Mode::deserialize`
unfoldable pub deserialize : Raw → Option Mode
deserialize (bool true) = some preferred
deserialize (bool false) = some off
deserialize (name n) = named (equal n (lit "off")) (equal n (lit "on")) (equal n (lit "only"))

abbrev pub fallback_period : ℕ
fallback_period = 60 * 1000000000

-- `SessionKey`
pub record Key : Type 0 where
  pub host : Text
  pub port : ℕ
  pub insecure : Bool

abbrev bool_eq : Bool → Bool → Bool
bool_eq true b = b
bool_eq false true = false
bool_eq false false = true

unfoldable pub key_eq : Key → Key → Bool
key_eq k l = equal k.host l.host && k.port == l.port && bool_eq k.insecure l.insecure

-- a connection, by its number
pub record Session : Type 0 where
  pub connection : ℕ

-- The extended CONNECT request of a tunnel.
pub record ConnectRequest : Type 0 where
  pub uri : Text
  pub headers : Headers

-- The libraries: the n-th reading of the clock, the addresses of a host, whether the n-th QUIC
-- handshake ends in time, whether a connection has a close reason when n requests were sent, and the
-- status that answers the n-th request, if it comes in time.
pub record Quic : Type 0 where
  pub clock : ℕ → ℕ
  pub lookup_host : Text → ℕ → Option (List Text)
  pub connect_quic : ℕ → Text → Text → Bool → Bool
  pub is_closed : ℕ → ℕ → Bool
  pub recv_response : ℕ → ℕ → ConnectRequest → Option ℕ

pub record State : Type 0 where
  pub sessions : List (Key × Session)
  pub fallback_until : Option ℕ
  pub reads : ℕ
  pub dials : ℕ
  pub sends : ℕ

-- `reset_sessions`
unfoldable pub reset_sessions : State → State
reset_sessions s = record s { sessions = []; fallback_until = none }
