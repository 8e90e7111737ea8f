-- ===== src/Settings/Resolve.antt =====
-- `Settings::resolve` of src/settings.rs and what it calls.
use ws2tcp_local_core.Base.{
  ℕ, ◌*◌, Bool, true, false, ◌||◌, not, List, [], ◌∷◌, ◌++◌, Option, none, some, Result, ok, err,
  ok_or, ◌>>=◌, ◌>>◌, bail_if, ◌==◌, if◌then◌else◌,
}
use ws2tcp_local_core.Text.{Text, lit, equal, is_empty, trim}
use ws2tcp_local_core.Text.Split.{starts_with, strip_suffix}
use ws2tcp_local_core.Url.{Url, UrlParser}
use ws2tcp_local_core.Http3.{off}
use ws2tcp_local_core.Upstream.{UpstreamProxy, parse_optional}
use ws2tcp_local_core.Routing.Tasks.{auto}
use ws2tcp_local_core.Session.{second}
use ws2tcp_local_core.Settings.{
  Error, FileSettings, Settings, SettingsOverrides, bad_gfwlist_url, bad_upstream_proxy,
  default_buffer_size, default_gateway, default_gfwlist_urls, default_listen,
  default_rule_refresh_interval_secs, http3_only_set, no_buffer, no_file, no_interval, no_listen,
  or, token, unparsable, unreadable, unwrap_or,
}

-- the file system, for a Unix path, and the TOML parser
pub record Files : Type 0 where
  pub read_to_string : Text → Option Text
  pub parent : Text → Option Text
  pub from_str : Text → Option FileSettings

unfoldable pub read_file_settings : Files → Text → Result Error FileSettings
read_file_settings files path = do
  contents ← ok_or unreadable (files.read_to_string path)
  ok_or unparsable (files.from_str contents)

-- `Path::join` of a relative path
abbrev join : Text → Text → Text
join [] path = path
join (c ∷ dir) path = elim (strip_suffix b'/' (c ∷ dir)) [
  | none ↦ (c ∷ dir) ++ (lit "/" ++ path)
  | some _ ↦ (c ∷ dir) ++ path
]

unfoldable pub resolve_config_relative_path : Text → Option Text → Text
unfolding starts_with
resolve_config_relative_path path none = path
resolve_config_relative_path path (some dir) = elim (starts_with (lit "/") path) [
  | true ↦ path
  | false ↦ join dir path
]

-- the entries that are not blank, trimmed
unfoldable pub trimmed : List Text → List Text
trimmed [] = []
trimmed (url ∷ urls) = elim (is_empty (trim url)) [
  | true ↦ trimmed urls
  | false ↦ trim url ∷ trimmed urls
]

abbrev pub is_some : Option Text → Bool
is_some none = false
is_some (some _) = true

-- `matches!(parsed.scheme(), "http" | "https")` with a host
abbrev pub is_web : Url → Bool
is_web url = elim (equal url.scheme (lit "http") || equal url.scheme (lit "https")) [
  | true ↦ is_some url.host_str
  | false ↦ false
]

module _ (parse_url : UrlParser) where
  unfoldable pub check_urls : List Text → Result Error (Unit {0})
  check_urls [] = ok tt
  check_urls (url ∷ urls) = do
    parsed ← ok_or bad_gfwlist_url (parse_url url)
    bail_if (not (is_web parsed)) bad_gfwlist_url
    check_urls urls

  abbrev pub or_default : List Text → Result Error (List Text)
  or_default [] = ok default_gfwlist_urls
  or_default (url ∷ urls) = check_urls (url ∷ urls) >> ok (url ∷ urls)

  unfoldable pub resolve_gfwlist_urls : Option (List Text) → Result Error (List Text)
  resolve_gfwlist_urls urls = or_default (trimmed (unwrap_or urls []))

abbrev pub is_zero : ℕ → Bool
is_zero n = n == 0

abbrev pub was_http3_only : Option Bool → Bool
was_http3_only (some true) = true
was_http3_only _ = false

-- the config file, and where its relative paths start
abbrev pub from_config : Files → Option Text → Result Error (FileSettings × Option Text)
from_config files none = ok (no_file, none)
from_config files (some path) = do
  file ← read_file_settings files path
  ok (file, files.parent path)

abbrev pub upstream_of :
    UrlParser → (Text → Option Text) → Option Text → Result Error (Option UpstreamProxy)
upstream_of parse_url decode input = elim (parse_optional parse_url decode input) [
  | ok proxy ↦ ok proxy
  | err _ ↦ err bad_upstream_proxy
]

abbrev relative : Option Text → Option Text → Option Text
relative none dir = none
relative (some path) dir = some (resolve_config_relative_path path dir)

unfoldable pub resolve :
    Files → UrlParser → (Text → Option Text) → SettingsOverrides → Result Error Settings
resolve files parse_url decode overrides = do
  config ← from_config files overrides.config
  let file = config.0
  listen ← ok_or no_listen (or (or overrides.listen file.listen) default_listen)
  let buffer_size = unwrap_or (or overrides.buffer_size file.buffer_size) default_buffer_size
  bail_if (is_zero buffer_size) no_buffer
  let secs =
      unwrap_or (or overrides.rule_refresh_interval_secs file.rule_refresh_interval_secs)
        default_rule_refresh_interval_secs
  bail_if (is_zero secs) no_interval
  bail_if (was_http3_only file.http3_only) http3_only_set
  urls ← resolve_gfwlist_urls parse_url (or overrides.gfwlist_urls file.gfwlist_urls)
  proxy ← upstream_of parse_url decode (or overrides.upstream_proxy file.upstream_proxy)
  ok (record {
    listen = listen;
    socks_listen = or overrides.socks_listen file.socks_listen;
    gateway = unwrap_or (or overrides.gateway file.gateway) default_gateway;
    basic_auth = or overrides.basic_auth file.basic_auth;
    buffer_size = buffer_size;
    log_level = or overrides.log_level file.log_level;
    custom_domain_rules =
        or overrides.custom_domain_rules (relative file.custom_domain_rules config.1);
    rule_refresh_interval = secs * second;
    gfwlist_urls = urls;
    proxy_mode = unwrap_or (or overrides.proxy_mode file.proxy_mode) auto;
    insecure = if overrides.insecure then true else unwrap_or file.insecure false;
    http3 = unwrap_or (or overrides.http3 file.http3) off;
    auth_mode = unwrap_or (or overrides.auth_mode file.auth_mode) token;
    upstream_proxy = proxy;
    headers = [];
  })
