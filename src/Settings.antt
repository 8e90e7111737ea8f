-- ===== src/Settings.antt =====
-- src/settings.rs: what the proxy is set up with, from the command line, the config file and the
-- defaults. The file system, the TOML and URL parsers and the checks of header names and values are
-- parameters. The children: `Resolve` gives the settings and
-- `Added` adds a header; `Valid` and `Named` say what holds of them.
pub mod Resolve
pub mod Added
pub mod Valid
pub mod Named
use ws2tcp_local_core.Base.{
  ℕ, ◌*◌, Bool, true, false, ◌||◌, not, List, [], ◌∷◌, ◌++◌, map, Option, none, some, Result, ok,
  err, ok_or, ◌>>=◌, ◌>>◌, bail_if, ◌==◌, if◌then◌else◌,
}
use ws2tcp_local_core.Text.{Text, Bytes, lit, equal, is_empty, trim}
use ws2tcp_local_core.Text.Split.{starts_with, strip_suffix}
use ws2tcp_local_core.Text.Utf8.{as_bytes}
use ws2tcp_local_core.Net.Ipv4
use ws2tcp_local_core.Socks5.Datagram.{SocketAddr, v4}
use ws2tcp_local_core.Url.{Url, UrlParser}
use ws2tcp_local_core.Http3.{Mode, off}
use ws2tcp_local_core.Upstream.{UpstreamProxy, parse_optional}
use ws2tcp_local_core.Websocket.{Headers}
use ws2tcp_local_core.Routing.Tasks.{ProxyMode, auto}
use ws2tcp_local_core.Session.{second}

abbrev pub default_buffer_size : ℕ
default_buffer_size = 16 * 1024

-- `DEFAULT_LISTEN`, parsed
abbrev pub default_listen : Option SocketAddr
default_listen = some (v4 (record { a = 127; b = 0; c = 0; d = 1 }) 3128)

abbrev pub default_gateway : Text
default_gateway = lit "wss://wangguofang.net/tunnel"

abbrev pub default_rule_refresh_interval_secs : ℕ
default_rule_refresh_interval_secs = 60

abbrev pub default_gfwlist_urls : List Text
default_gfwlist_urls =
    lit "https://wangguofang.net/raw.githubusercontent.com/gfwlist/gfwlist/master/gfwlist.txt"
    ∷ lit "https://gitlab.com/gfwlist/gfwlist/raw/master/gfwlist.txt"
    ∷ []

pub data AuthMode : Type 0 where
  token basic : AuthMode

pub record Settings : Type 0 where
  pub listen : SocketAddr
  pub socks_listen : Option SocketAddr
  pub gateway : Text
  pub basic_auth : Option Text
  pub buffer_size : ℕ
  pub log_level : Option Text
  pub custom_domain_rules : Option Text
  pub rule_refresh_interval : ℕ
  pub gfwlist_urls : List Text
  pub proxy_mode : ProxyMode
  pub insecure : Bool
  pub http3 : Mode
  pub auth_mode : AuthMode
  pub upstream_proxy : Option UpstreamProxy
  pub headers : Headers

pub record FileSettings : Type 0 where
  pub listen : Option SocketAddr
  pub socks_listen : Option SocketAddr
  pub gateway : Option Text
  pub basic_auth : Option Text
  pub buffer_size : Option ℕ
  pub log_level : Option Text
  pub custom_domain_rules : Option Text
  pub rule_refresh_interval_secs : Option ℕ
  pub gfwlist_urls : Option (List Text)
  pub proxy_mode : Option ProxyMode
  pub insecure : Option Bool
  pub http3 : Option Mode
  pub http3_only : Option Bool
  pub auth_mode : Option AuthMode
  pub upstream_proxy : Option Text

pub record SettingsOverrides : Type 0 where
  pub config : Option Text
  pub listen : Option SocketAddr
  pub socks_listen : Option SocketAddr
  pub gateway : Option Text
  pub basic_auth : Option Text
  pub buffer_size : Option ℕ
  pub log_level : Option Text
  pub custom_domain_rules : Option Text
  pub rule_refresh_interval_secs : Option ℕ
  pub gfwlist_urls : Option (List Text)
  pub proxy_mode : Option ProxyMode
  pub insecure : Bool
  pub http3 : Option Mode
  pub auth_mode : Option AuthMode
  pub upstream_proxy : Option Text

pub data Error : Type 0 where
  bad_header_name bad_header_value reserved_header : Error
  no_listen no_buffer no_interval http3_only_set bad_gfwlist_url : Error
  unreadable unparsable bad_upstream_proxy : Error

abbrev pub or : {A : Type 0} → Option A → Option A → Option A
or none b = b
or (some a) b = some a

abbrev pub unwrap_or : {A : Type 0} → Option A → A → A
unwrap_or none d = d
unwrap_or (some a) d = a

-- `FileSettings::default()`
abbrev pub no_file : FileSettings
no_file = record {
  listen = none;
  socks_listen = none;
  gateway = none;
  basic_auth = none;
  buffer_size = none;
  log_level = none;
  custom_domain_rules = none;
  rule_refresh_interval_secs = none;
  gfwlist_urls = none;
  proxy_mode = none;
  insecure = none;
  http3 = none;
  http3_only = none;
  auth_mode = none;
  upstream_proxy = none;
}
