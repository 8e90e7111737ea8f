-- ===== src/Settings/Added.antt =====
-- `Settings::add_header` of src/settings.rs.
use ws2tcp_local_core.Base.{
  Bool, true, false, ◌||◌, not, [], ◌∷◌, ◌++◌, Option, Result, ok, ok_or, ◌>>=◌, ◌>>◌, bail_if,
}
use ws2tcp_local_core.Text.{Text, Bytes, lit, equal, trim}
use ws2tcp_local_core.Text.Split.{starts_with}
use ws2tcp_local_core.Text.Utf8.{as_bytes}
use ws2tcp_local_core.Websocket.{Headers}
use ws2tcp_local_core.Settings.{Error, Settings, bad_header_name, bad_header_value, reserved_header}

-- `HeaderName::from_bytes`, which gives the name in lower case, and `HeaderValue::from_str`
pub record HeaderParser : Type 0 where
  pub from_bytes : Bytes → Option Text
  pub is_value : Text → Bool

unfoldable pub is_reserved : Text → Bool
unfolding starts_with
is_reserved name =
    equal name (lit "host")
    || equal name (lit "connection")
    || equal name (lit "upgrade")
    || starts_with (lit "sec-websocket-") name

-- `retain`
unfoldable pub without : Text → Headers → Headers
without name [] = []
without name ((n, v) ∷ headers) = elim (equal n name) [
  | true ↦ without name headers
  | false ↦ (n, v) ∷ without name headers
]

unfoldable pub add_header : HeaderParser → Text → Text → Settings → Result Error Settings
add_header parser name value s = do
  parsed ← ok_or bad_header_name (parser.from_bytes (as_bytes (trim name)))
  bail_if (not (parser.is_value value)) bad_header_value
  bail_if (is_reserved parsed) reserved_header
  ok (record s { headers = without parsed s.headers ++ ((parsed, value) ∷ []) })
