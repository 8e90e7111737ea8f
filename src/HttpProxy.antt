-- ===== src/HttpProxy.antt =====
-- src/http_proxy.rs: the request, the errors (one constructor for each message) and the methods of
-- the request. The children: `Read` reads it from the client, `Parse` takes it apart, `Header`
-- rewrites it, `Authority` checks its target; `Target`, `Chunks`, `Forwarded`, `Alike` and `Fields`
-- are about them.
pub mod Authority
pub mod Header
pub mod Parse
pub mod Read
pub mod Target
pub mod Chunks
pub mod Forwarded
pub mod Alike
pub mod Fields
use ws2tcp_local_core.Base.{ℕ, ◌*◌, Bool, true, false}
use ws2tcp_local_core.Text.{Text, Bytes, lit}

abbrev pub max_header_bytes : ℕ
max_header_bytes = 16 * 1024

pub data ProxyRequest : Type 0 where
  connect http : Text → Bytes → ProxyRequest

unfoldable pub authority : ProxyRequest → Text
authority (connect a _) = a
authority (http a _) = a

unfoldable pub initial_client_bytes : ProxyRequest → Bytes
initial_client_bytes (connect _ b) = b
initial_client_bytes (http _ b) = b

unfoldable pub is_connect : ProxyRequest → Bool
is_connect (connect _ _) = true
is_connect (http _ _) = false

unfoldable pub log_kind : ProxyRequest → Text
log_kind (connect _ _) = lit "connect"
log_kind (http _ _) = lit "http"

pub data Error : Type 0 where
  read_failed closed header_too_large header_not_utf8 empty_request no_method no_target : Error
  no_version too_many_fields invalid_target not_http_scheme has_userinfo no_host : Error
  host_missing invalid_header_line empty_host bad_ipv6_host unbracketed_ipv6_host : Error
  empty_authority not_host_port bad_ipv6_authority empty_part no_port unbracketed_ipv6 : Error
  invalid_version invalid_port : Text → Error
