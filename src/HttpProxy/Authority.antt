-- ===== src/HttpProxy/Authority.antt =====
-- The checks and forms of `host:port` in src/http_proxy.rs.
use ws2tcp_local_core.Base.{
  ℕ, true, false, ◌&&◌, ◌||◌, not, [], ◌∷◌, ◌++◌, none, some, Result, ok, err, ok_or, bail_if,
  ◌>>=◌, ◌>>◌, any,
}
use ws2tcp_local_core.Text.{Text, lit, is_whitespace, is_empty, trim}
use ws2tcp_local_core.Text.Split.{
  contains, strip_prefix, strip_suffix, starts_with, split_once_at, rsplit_once,
}
use ws2tcp_local_core.Text.Number.{decimal, parse_u16}
use ws2tcp_local_core.HttpProxy.{
  Error, empty_host, bad_ipv6_host, unbracketed_ipv6_host, empty_authority, not_host_port,
  bad_ipv6_authority, empty_part, no_port, unbracketed_ipv6, invalid_port,
}

unfoldable pub parse_port : Text → Result Error (Unit {0})
parse_port port = elim (parse_u16 port) [ none ↦ err (invalid_port port) | some _ ↦ ok tt ]

-- behind `[`
bracketed : Text → Result Error (Unit {0})
bracketed rest = do
  parts ← ok_or bad_ipv6_authority (split_once_at (lit "]:") rest)
  bail_if (is_empty parts.0 || is_empty parts.1) empty_part
  parse_port parts.1

plain : Text → Result Error (Unit {0})
plain authority = do
  parts ← ok_or no_port (rsplit_once b':' authority)
  bail_if (is_empty parts.0 || is_empty parts.1) empty_part
  bail_if (contains b':' parts.0) unbracketed_ipv6
  parse_port parts.1

unfoldable pub validate_authority : Text → Result Error (Unit {0})
unfolding bracketed plain
validate_authority authority = do
  bail_if (is_empty authority) empty_authority
  bail_if (contains b'/' authority || contains b'@' authority || any is_whitespace authority)
      not_host_port
  elim (strip_prefix (b'[' ∷ []) authority) [ some rest ↦ bracketed rest | none ↦ plain authority ]

-- the `Host` header behind `[`
bracketed_host : Text → Result Error Text
bracketed_host rest = elim (split_once_at (lit "]:") rest) [
  | some (ipv6_host, port) ↦ parse_port port >> ok (b'[' ∷ (ipv6_host ++ (b']' ∷ b':' ∷ port)))
  | none ↦ do
    ipv6_host ← ok_or bad_ipv6_host (strip_suffix b']' rest)
    ok (b'[' ∷ (ipv6_host ++ lit "]:80"))
]

plain_host : Text → Result Error Text
plain_host host = elim (rsplit_once b':' host) [
  | some (host_part, port) ↦ do
    bail_if (contains b':' host_part) unbracketed_ipv6_host
    parse_port port
    ok (host_part ++ (b':' ∷ port))
  | none ↦ do bail_if (contains b':' host) unbracketed_ipv6_host; ok (host ++ lit ":80")
]

trimmed_host : Text → Result Error Text
trimmed_host host = do
  bail_if (is_empty host) empty_host
  elim (strip_prefix (b'[' ∷ []) host) [ some rest ↦ bracketed_host rest | none ↦ plain_host host ]

unfoldable pub normalize_http_authority : Text → Result Error Text
unfolding trimmed_host bracketed_host plain_host
normalize_http_authority host = trimmed_host (trim host)

unfoldable pub format_authority : Text → ℕ → Text
format_authority host port = elim (contains b':' host && not (starts_with (b'[' ∷ []) host)) [
  | true ↦ b'[' ∷ (host ++ (b']' ∷ b':' ∷ decimal port))
  | false ↦ host ++ (b':' ∷ decimal port)
]
