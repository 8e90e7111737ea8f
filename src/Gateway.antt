-- ===== src/Gateway.antt =====
-- `Gateway` of src/gateway.rs and the Basic credentials of src/auth.rs. The URL of the base is parsed
-- by a library; the text of the URL with another scheme is a parameter as well.
use ws2tcp_local_core.Base.{
  ℕ, Bool, true, false, ◌||◌, not, ◌++◌, Option, none, some, Result, ok, err, ok_or, ◌>>=◌, ◌>>◌,
  bail_if, ◌==◌, if◌then◌else◌,
}
use ws2tcp_local_core.Text.{Text, Bytes, lit, equal, trim_end}
use ws2tcp_local_core.Text.Split.{contains}
use ws2tcp_local_core.Text.Utf8.{as_bytes}
use ws2tcp_local_core.Url.{Url, UrlParser}

pub record Gateway : Type 0 where
  pub base : Text

pub data Error : Type 0 where
  invalid_url bad_scheme has_query bad_credential : Error

abbrev is_some {ℓ} : {A : Type ℓ} → Option A → Bool
is_some none = false
is_some (some _) = true

abbrev is_slash : ℕ → Bool
is_slash c = c == b'/'

unfoldable pub parse : UrlParser → Text → Result Error Gateway
parse parse_url input = do
  url ← ok_or invalid_url (parse_url input)
  bail_if (not (equal url.scheme (lit "ws") || equal url.scheme (lit "wss"))) bad_scheme
  bail_if (is_some url.query || is_some url.fragment) has_query
  ok (record { base = trim_end is_slash input })

unfoldable pub health_check_url : Gateway → Text
health_check_url g = g.base ++ lit "/"

-- `auth_url`: none where the base is no URL, which panics; `with_scheme` is `set_scheme` and `as_str`
unfoldable pub auth_url : UrlParser → (Text → Url → Text) → Gateway → Text → Option Text
auth_url parse_url with_scheme g endpoint = elim (parse_url g.base) [
  | none ↦ none
  | some url ↦
      let scheme = if equal url.scheme (lit "wss") then lit "https" else lit "http" in
      some (trim_end is_slash (with_scheme scheme url) ++ (lit "/auth/" ++ endpoint))
]

unfoldable pub target_url : Gateway → Text → Text
target_url g authority = g.base ++ (lit "/tcp:" ++ authority)

unfoldable pub target_url_udp : Gateway → Text → Text
target_url_udp g authority = g.base ++ (lit "/udp:" ++ authority)

-- `build_basic_auth_header`; `encode` is base64
unfoldable pub build_basic_auth_header : (Bytes → Text) → Text → Result Error Text
build_basic_auth_header encode credential =
    if contains b':' credential
    then ok (lit "Basic " ++ encode (as_bytes credential))
    else err bad_credential

-- `remote_basic_auth`, from the command line or else the environment
unfoldable pub remote_basic_auth :
    (Bytes → Text) → Option Text → Option Text → Result Error (Option Text)
remote_basic_auth encode (some value) environment = do
  header ← build_basic_auth_header encode value
  ok (some header)
remote_basic_auth encode none none = ok none
remote_basic_auth encode none (some value) = do
  header ← build_basic_auth_header encode value
  ok (some header)
