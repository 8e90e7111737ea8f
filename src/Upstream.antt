-- ===== src/Upstream.antt =====
-- src/upstream.rs: the upstream proxy, how its URL is parsed and how it is shown. The children:
-- `Answer` and `Status` are the CONNECT handshake with an HTTP proxy, `Connect` opens a connection
-- through the proxy; `Header`, `Connected`, `Through` and `Parsed` are about them. Parsing URLs and percent-decoding are libraries'.
pub mod Status
pub mod Answer
pub mod Header
pub mod Connect
pub mod Through
pub mod Parsed
pub mod Connected
use ws2tcp_local_core.Base.{
  ℕ, ◌*◌, Bool, true, false, ◌||◌, ◌&&◌, not, List, ◌++◌, [], Option, none, some, Result, ok, err,
  ok_or, ◌>>=◌, ◌>>◌, bail_if, if◌then◌else◌,
}
use ws2tcp_local_core.Text.{Text, Bytes, lit, equal, is_empty, trim}
use ws2tcp_local_core.Text.Split.{contains, strip_prefix, strip_suffix}
use ws2tcp_local_core.Text.Number.{decimal}
use ws2tcp_local_core.Url.{Url, UrlParser}

abbrev pub max_connect_response_bytes : ℕ
max_connect_response_bytes = 8 * 1024

abbrev pub default_http_port : ℕ
default_http_port = 80

abbrev pub default_socks_port : ℕ
default_socks_port = 1080

pub data Kind : Type 0 where
  http socks5 socks5h : Kind

unfoldable pub scheme : Kind → Text
scheme http = lit "http"
scheme socks5 = lit "socks5"
scheme socks5h = lit "socks5h"

pub record UpstreamProxy : Type 0 where
  pub kind : Kind
  pub host : Text
  pub port : ℕ
  pub credentials : Option (Text × Text)
  pub url : Url

pub data Error : Type 0 where
  invalid_url bad_scheme has_path no_host bad_credentials : Error
  unreachable unresolved no_address socks_failed send_failed read_failed closed : Error
  response_too_large not_http unauthenticated refused timed_out : Error

abbrev pub of_scheme : Bool → Bool → Bool → Result Error Kind
of_scheme true _ _ = ok http
of_scheme false true _ = ok socks5
of_scheme false false true = ok socks5h
of_scheme false false false = err bad_scheme

unfoldable pub parse_kind : Text → Result Error Kind
parse_kind s = of_scheme (equal s (lit "http")) (equal s (lit "socks5")) (equal s (lit "socks5h"))

abbrev pub is_some : Option Text → Bool
is_some none = false
is_some (some _) = true

unfoldable pub non_empty : Option Text → Option Text
non_empty none = none
non_empty (some host) = if is_empty host then none else some host

abbrev or_same : Text → Option Text → Text
or_same host none = host
or_same host (some inner) = inner

abbrev suffix_of : Option Text → Option Text
suffix_of none = none
suffix_of (some rest) = strip_suffix b']' rest

-- a host without the brackets of an IPv6 literal
unfoldable pub unbracketed : Text → Text
unbracketed host = or_same host (suffix_of (strip_prefix (lit "[") host))

unfoldable pub default_port : Kind → ℕ
default_port http = default_http_port
default_port socks5 = default_socks_port
default_port socks5h = default_socks_port

abbrev pub or_port : ℕ → Option ℕ → ℕ
or_port n none = n
or_port n (some port) = port

abbrev pub or_empty : Option Text → Text
or_empty none = []
or_empty (some s) = s

-- a path, a query or a fragment
abbrev pub has_rest : Url → Bool
has_rest url =
    not (is_empty url.path || equal url.path (lit "/")) || is_some url.query || is_some url.fragment

module _ (parse_url : UrlParser) (decode : Text → Option Text) where
  abbrev pub decoded : Url → Result Error (Option (Text × Text))
  decoded url = do
    username ← ok_or bad_credentials (decode url.username)
    password ← ok_or bad_credentials (decode (or_empty url.password))
    ok (some (username, password))

  abbrev unless_empty : Bool → Url → Result Error (Option (Text × Text))
  unless_empty true url = ok none
  unless_empty false url = decoded url

  -- `decode` is `percent_decode_str` and `decode_utf8`
  unfoldable pub credentials_of : Url → Result Error (Option (Text × Text))
  credentials_of url = unless_empty (is_empty url.username && not (is_some url.password)) url

  unfoldable pub parse : Text → Result Error UpstreamProxy
  parse input = do
    url ← ok_or invalid_url (parse_url (trim input))
    kind ← parse_kind url.scheme
    bail_if (has_rest url) has_path
    host ← ok_or no_host (non_empty url.host_str)
    credentials ← credentials_of url
    ok (record {
      kind = kind;
      host = unbracketed host;
      port = or_port (default_port kind) url.port;
      credentials = credentials;
      url = url;
    })

  abbrev present : Result Error UpstreamProxy → Result Error (Option UpstreamProxy)
  present (ok proxy) = ok (some proxy)
  present (err e) = err e

  abbrev unless_blank : Text → Bool → Result Error (Option UpstreamProxy)
  unless_blank input true = ok none
  unless_blank input false = present (parse input)

  unfoldable pub parse_optional : Option Text → Result Error (Option UpstreamProxy)
  parse_optional none = ok none
  parse_optional (some input) = unless_blank (trim input) (is_empty (trim input))

-- `host:port`, an IPv6 literal in brackets
unfoldable pub host_port : Text → ℕ → Text
unfolding contains
host_port host port = elim (contains b':' host) [
  | true ↦ lit "[" ++ (host ++ (lit "]:" ++ decimal port))
  | false ↦ host ++ (lit ":" ++ decimal port)
]

-- `Display`
unfoldable pub display : UpstreamProxy → Text
display p = scheme p.kind ++ (lit "://" ++ host_port p.host p.port)

abbrev hidden : Option (Text × Text) → Text
hidden none = []
hidden (some _) = lit ", credentials: <hidden>"

-- `Debug`
unfoldable pub debug : UpstreamProxy → Text
debug p = lit "UpstreamProxy(" ++ (display p ++ (hidden p.credentials ++ lit ")"))
