-- ===== src/Routing/Authority.antt =====
-- `host_from_authority` and `split_authority` of src/routing_rules.rs.
use ws2tcp_local_core.Base.{ℕ, [], ◌∷◌, Option, none, some, Result, ok, ok_or, ◌>>=◌}
use ws2tcp_local_core.Text.{Text, lit}
use ws2tcp_local_core.Text.Split.{strip_prefix, split_once_at, rsplit_once}
use ws2tcp_local_core.Text.Number.{parse_u16}

pub data Error : Type 0 where
  bad_ipv6_authority no_port bad_port : Error

unfoldable pub host_from_authority : Text → Result Error Text
host_from_authority authority = elim (strip_prefix (b'[' ∷ []) authority) [
  | some rest ↦ do parts ← ok_or bad_ipv6_authority (split_once_at (lit "]:") rest); ok parts.0
  | none ↦ do parts ← ok_or no_port (rsplit_once b':' authority); ok parts.0
]

abbrev port_of : Option (Text × Text) → Option ℕ
port_of none = none
port_of (some (_, port)) = parse_u16 port

unfoldable pub split_authority : Text → Result Error (Text × ℕ)
split_authority authority = do
  host ← host_from_authority authority
  port ← ok_or bad_port (port_of (rsplit_once b':' authority))
  ok (host, port)
