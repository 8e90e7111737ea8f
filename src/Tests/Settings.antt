-- ===== src/Tests/Settings.antt =====
-- Settings and the start of the service at concrete inputs, and the witnesses.
use ws2tcp_local_core.Base.{
  ℕ, suc, ◌<◌, ◌*◌, ◌≡◌, refl, [], ◌∷◌, Option, none, some, ok, true, false,
}
use ws2tcp_local_core.Text.{
  Text, lit, equal, to_ascii_lowercase, is_empty, trim, trim_start, trim_end,
}
use ws2tcp_local_core.Text.Split.{starts_with}
use ws2tcp_local_core.Text.Utf8.{as_bytes}
use ws2tcp_local_core.Upstream.{parse_optional}
use ws2tcp_local_core.Socks5.Datagram.{v4}
use ws2tcp_local_core.Session.{second}
use ws2tcp_local_core.Session.Auth.{GatewayAuth}
use ws2tcp_local_core.Session.Auth as Auth
use ws2tcp_local_core.Http3.{Mode, off, preferred, only, Quic, fallback_period, key_eq}
use ws2tcp_local_core.Http3.Sessions.{session, get, establish, dial_each, remove}
use ws2tcp_local_core.Http3.Connect.{
  connect, fallback_active, try_connect, request_on, open_stream, connect_request, carried_over,
  is_io,
}
use ws2tcp_local_core.Http3.Periods.{connect-period}
use ws2tcp_local_core.Http3
use ws2tcp_local_core.Gateway.{Gateway}
use ws2tcp_local_core.Routing.Tasks.{auto}
use ws2tcp_local_core.Settings.{
  Settings, SettingsOverrides, token, no_file, default_gateway, default_gfwlist_urls,
}
use ws2tcp_local_core.Settings.Resolve.{Files, resolve, resolve_gfwlist_urls, trimmed}
use ws2tcp_local_core.Settings.Added.{HeaderParser, add_header, is_reserved, without}
use ws2tcp_local_core.Settings.Valid.{IsValid, resolve-IsValid}
use ws2tcp_local_core.Settings.Named.{IsAdded, add_header-IsAdded}
use ws2tcp_local_core.Settings
use ws2tcp_local_core.Upstream.Connect.{tcp}
use ws2tcp_local_core.Service.{http3_unusable, start_mode, update_modes, IsUsable, modes-IsUsable}
use ws2tcp_local_core.Service.Startup.{Started, authenticate, authenticate-Started, ready}
use ws2tcp_local_core.Websocket.{text, Request}
use ws2tcp_local_core.GatewayCheck.{
  message, Next, check_message, check_gateway, IsHealthy, check_gateway-IsHealthy,
}
use ws2tcp_local_core.Tunnel.{Link, build_gateway_request, insert, insert_all}
use ws2tcp_local_core.Tunnel as Tunnels
use ws2tcp_local_core.Tunnel.Connect.{connect_websocket, tries_http3, over_tcp}
use ws2tcp_local_core.Tests.World.{world, link, no_quic, http3_state, gateway_request}
use ws2tcp_local_core.Tests.HttpProxy.{no_url}

abbrev files : Files
files = record { read_to_string = λ path. none; parent = λ path. none; from_str = λ text. none }

abbrev decode : Text → Option Text
decode s = some s

abbrev nothing_given : SettingsOverrides
nothing_given = record {
  config = none;
  listen = none;
  socks_listen = none;
  gateway = none;
  basic_auth = none;
  buffer_size = some 4096;
  log_level = none;
  custom_domain_rules = none;
  rule_refresh_interval_secs = none;
  gfwlist_urls = some (lit " " ∷ []);
  proxy_mode = none;
  insecure = false;
  http3 = none;
  auth_mode = none;
  upstream_proxy = none;
}

abbrev settings : Settings
settings = record {
  listen = v4 (record { a = 127; b = 0; c = 0; d = 1 }) 3128;
  socks_listen = none;
  gateway = default_gateway;
  basic_auth = none;
  buffer_size = 4096;
  log_level = none;
  custom_domain_rules = none;
  rule_refresh_interval = 60 * second;
  gfwlist_urls = default_gfwlist_urls;
  proxy_mode = auto;
  insecure = false;
  http3 = off;
  auth_mode = token;
  upstream_proxy = none;
  headers = [];
}

resolved : resolve files no_url decode nothing_given ≡ ok settings
unfolding resolve resolve_gfwlist_urls trimmed is_empty trim parse_optional
resolved = refl

resolve-IsValid_example : IsValid no_url settings
resolve-IsValid_example = resolve-IsValid no_url files decode nothing_given settings resolved

abbrev names : HeaderParser
names = record { from_bytes = λ bytes. some (to_ascii_lowercase bytes); is_value = λ value. true }

abbrev named : Settings
named = record settings { headers = (lit "user-agent", lit "app") ∷ [] }

added : add_header names (lit "User-Agent") (lit "app") settings ≡ ok named
unfolding add_header is_reserved equal to_ascii_lowercase as_bytes trim without
added = refl

add_header-IsAdded_example : IsAdded no_url names (lit "User-Agent") (lit "app") settings named
add_header-IsAdded_example =
    add_header-IsAdded no_url names (lit "User-Agent") (lit "app") settings named
      (resolve-IsValid no_url files decode nothing_given settings resolved) added

abbrev secure : Gateway
secure = record { base = lit "wss://gateway" }

started : start_mode preferred secure true ≡ ok off
unfolding start_mode http3_unusable starts_with
started = refl

modes-IsUsable_example :
    IsUsable
      (http3_unusable secure true)
      (update_modes (http3_unusable secure true) (only ∷ preferred ∷ []) off)
modes-IsUsable_example = modes-IsUsable preferred off secure true (only ∷ preferred ∷ []) started

-- connections open, and no request on one is answered
abbrev lossy_quic : Quic
lossy_quic = record no_quic {
  lookup_host = λ host port. some (lit "192.0.2.1" ∷ []);
  connect_quic = λ n addr host insecure. true;
}

abbrev gateway_key : Http3.Key
gateway_key = record { host = lit "gateway"; port = 443; insecure = false }

abbrev cached_state : Http3.State
cached_state = record http3_state { sessions = (gateway_key, record { connection = 7 }) ∷ [] }

-- the request was repeated on a new connection, and the period has started
abbrev fallen_back : Http3.State
fallen_back = record http3_state {
  fallback_until = some fallback_period;
  reads = 1;
  dials = 1;
  sends = 2;
}

falls_back : connect lossy_quic gateway_request false false cached_state ≡ (ok none, fallen_back)
unfolding connect fallback_active try_connect session get key_eq establish dial_each request_on
    open_stream connect_request carried_over is_io remove equal
falls_back = refl

connect-period_example :
    (u : ℕ) × (n : ℕ) × (some fallback_period ≡ some u) × (1 ≡ suc n) × (n * second < u)
connect-period_example =
    connect-period lossy_quic gateway_request false cached_state fallen_back falls_back

abbrev router_reply : Next
router_reply = message (text (lit "ok: ws2tcp-router 1.0"))

-- a check after a handshake that was refused
abbrev second_link : Link
second_link = record link { handshakes = gateway_request ∷ [] }

abbrev gateway_request_with : Request
gateway_request_with = record gateway_request {
  headers = (lit "authorization", lit "Basic eDp5") ∷ [];
}

abbrev checked : Link
checked = record second_link {
  contacts = tcp (lit "gateway") 443 ∷ [];
  handshakes = gateway_request_with ∷ gateway_request ∷ [];
}

healthy :
    check_gateway world router_reply true secure
      (some (lit "Basic eDp5"))
      false
      off
      none
      []
      second_link
    ≡ (ok tt, checked)
unfolding check_gateway build_gateway_request connect_websocket tries_http3 over_tcp check_message
    trim_end equal insert_all starts_with trim_start insert Tunnels.without
healthy = refl

check_gateway-IsHealthy_example :
    IsHealthy world router_reply true false off none second_link checked
check_gateway-IsHealthy_example =
    check_gateway-IsHealthy world router_reply true secure (some (lit "Basic eDp5")) false off none
      [] second_link checked healthy

ready_to_serve :
    authenticate world router_reply true secure Settings.basic
      (ok (some (lit "Basic eDp5")))
      false
      off
      none
      []
      second_link
    ≡ (ready (Auth.basic (lit "Basic eDp5")), checked)
unfolding authenticate check_gateway build_gateway_request connect_websocket tries_http3 over_tcp
    check_message trim_end equal insert_all starts_with trim_start insert Tunnels.without
ready_to_serve = refl

authenticate-Started_example :
    Started world router_reply true Settings.basic
      (some (lit "Basic eDp5"))
      false
      off
      none
      (Auth.basic (lit "Basic eDp5"))
      second_link
      checked
authenticate-Started_example =
    authenticate-Started world router_reply true secure Settings.basic (some (lit "Basic eDp5"))
      false off none [] second_link checked (Auth.basic (lit "Basic eDp5")) ready_to_serve
