-- ===== src/Tunnel/Destinations.antt =====
-- What holds of a UDP association (`handle_socks_udp_associate` in src/tunnel.rs): one tunnel for each
-- destination, each datagram of the client in the tunnel of its destination, and no one else's.
use ws2tcp_local_core.Base.{List}
use ws2tcp_local_core.Text.{Text, Bytes}
use ws2tcp_local_core.Socks5
use ws2tcp_local_core.Socks5.Datagram.{Datagram}
use ws2tcp_local_core.Tunnel.Association.{Association, Turn, goes_on, returns}
use ws2tcp_local_core.Tunnel.Senders.{IsWell}
use ws2tcp_local_core.Tunnel.Asked.{Handed}

-- the association serves what was asked for
pub record Serving (s : Association) (asked : List (Text × Bytes)) : Type 0 where
  pub well : IsWell s
  pub relayed : Handed s.spawned s.gone s.queued asked

-- the association at the end of a run
abbrev pub state_of : Turn → Association
state_of (goes_on s) = s
state_of (returns r s) = s
