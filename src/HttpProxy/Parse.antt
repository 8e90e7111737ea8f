-- ===== src/HttpProxy/Parse.antt =====
-- `parse_proxy_request` and the functions below it: src/http_proxy.rs.
use ws2tcp_local_core.Base.{
  ℕ, Bool, true, false, ◌||◌, not, List, [], ◌∷◌, ◌++◌, Option, none, some, Result, ok, err, ok_or,
  bail_if, ◌>>=◌, ◌>>◌, if◌then◌else◌,
}
use ws2tcp_local_core.Text.{Text, Bytes, lit, is_empty, equal}
use ws2tcp_local_core.Text.Utf8.{as_bytes}
use ws2tcp_local_core.Text.Split.{starts_with}
use ws2tcp_local_core.Text.Lines.{lines, split_whitespace}
use ws2tcp_local_core.Url.{UrlParser}
use ws2tcp_local_core.HttpProxy.{
  ProxyRequest, connect, http, Error, empty_request, no_method, no_target, no_version,
  too_many_fields, invalid_target, not_http_scheme, has_userinfo, no_host, host_missing,
  invalid_version,
}
use ws2tcp_local_core.HttpProxy.Authority.{
  validate_authority, normalize_http_authority, format_authority,
}
use ws2tcp_local_core.HttpProxy.Header.{find_header_value, rewrite_http_proxy_header}

-- method, target and version
pub record RequestLine : Type 0 where
  pub method : Text
  pub target : Text
  pub version : Text

unfoldable pub of_fields : List Text → Result Error RequestLine
of_fields [] = err no_method
of_fields (_ ∷ []) = err no_target
of_fields (_ ∷ _ ∷ []) = err no_version
of_fields (m ∷ t ∷ v ∷ []) = ok (record { method = m; target = t; version = v })
of_fields (_ ∷ _ ∷ _ ∷ _ ∷ _) = err too_many_fields

unfoldable pub parse_request_line : Text → Result Error RequestLine
parse_request_line line = of_fields (split_whitespace line)

-- the target's authority, and the target in origin form
pub record Origin : Type 0 where
  pub authority : Text
  pub form : Text

abbrev or_slash : Text → Text
or_slash [] = lit "/"
or_slash (c ∷ s) = c ∷ s

abbrev with_query : Text → Option Text → Text
with_query form none = form
with_query form (some query) = form ++ (b'?' ∷ query)

abbrev or_80 : Option ℕ → ℕ
or_80 none = 80
or_80 (some port) = port

abbrev is_some {ℓ} : {A : Type ℓ} → Option A → Bool
is_some none = false
is_some (some _) = true

-- `lines().next()`
abbrev pub first_line : List Text → Option Text
first_line [] = none
first_line (l ∷ _) = some l

module _ (parse_url : UrlParser) where
  unfoldable pub parse_absolute_http_target : Text → Result Error Origin
  parse_absolute_http_target target = do
    url ← ok_or invalid_target (parse_url target)
    bail_if (not (equal url.scheme (lit "http"))) not_http_scheme
    bail_if (not (is_empty url.username) || is_some url.password) has_userinfo
    host ← ok_or no_host url.host_str
    ok (record {
      authority = format_authority host (or_80 url.port_or_known_default);
      form = with_query (or_slash url.path) url.query;
    })

  unfoldable pub origin_of : Text → Text → Result Error Origin
  origin_of header target =
      if starts_with (lit "http://") target || starts_with (lit "https://") target
      then parse_absolute_http_target target
      else (do
        host ← ok_or host_missing (find_header_value header (lit "host"))
        authority ← normalize_http_authority host
        ok (record { authority = authority; form = target }))

  unfoldable pub parse_http_proxy_request : Text → RequestLine → Bytes → Result Error ProxyRequest
  parse_http_proxy_request header line leftover = do
    origin ← origin_of header line.target
    validate_authority origin.authority
    rewritten ←
        rewrite_http_proxy_header header line.method origin.form line.version origin.authority
    ok (http origin.authority (as_bytes rewritten ++ leftover))

  unfoldable pub parse_proxy_request : Text → Bytes → Result Error ProxyRequest
  parse_proxy_request header leftover = do
    request_line ← ok_or empty_request (first_line (lines header))
    line ← parse_request_line request_line
    bail_if (not (starts_with (lit "HTTP/") line.version)) (invalid_version line.version)
    if equal line.method (lit "CONNECT")
        then (validate_authority line.target >> ok (connect line.target leftover))
        else parse_http_proxy_request header line leftover
