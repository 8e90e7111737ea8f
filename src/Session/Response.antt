-- ===== src/Session/Response.antt =====
-- `TokenResponse::into_tokens` and `bearer` of src/session.rs.
use ws2tcp_local_core.Base.{
  ℕ, ◌+◌, ◌-◌, ◌*◌, ◌/◌, ◌^◌, Bool, ◌&&◌, ◌||◌, not, ◌++◌, Option, none, some, leb, within, all,
  if◌then◌else◌,
}
use ws2tcp_local_core.Text.{Text, lit, is_empty}
use ws2tcp_local_core.Text.Utf8.{as_bytes}
use ws2tcp_local_core.Session.{
  second, Tokens, TokenResponse, Service, Exec, Exit, done, fails, bind_exit, some_or_panic, expect,
  failed, malformed_token,
}

-- `Duration::MAX`
abbrev pub max_duration : ℕ
max_duration = 2 ^ 64 * second - 1

-- `Duration * u32`, none where it panics
unfoldable pub duration_mul : ℕ → ℕ → Option ℕ
duration_mul d k = if leb (d * k) max_duration then some (d * k) else none

-- `Instant + Duration`, none where it panics
unfoldable pub instant_add : ℕ → ℕ → ℕ → Option ℕ
instant_add latest t d = if leb (t + d) latest then some (t + d) else none

-- `u8::is_ascii_graphic`
unfoldable pub is_ascii_graphic : ℕ → Bool
is_ascii_graphic = within b'!' b'~'

unfoldable pub is_token : Text → Bool
is_token token = not (is_empty token || not (all is_ascii_graphic (as_bytes token)))

unfoldable pub into_tokens : Service → TokenResponse → ℕ → Exit Tokens
into_tokens service response now =
    if is_token response.access_token && is_token response.refresh_token
    then bind_exit (some_or_panic (duration_mul (response.expires_in * second) 4)) (λ scaled.
      bind_exit (some_or_panic (instant_add service.latest now (scaled / 5))) λ renew_at.
        bind_exit (some_or_panic (instant_add service.latest now (response.expires_in * second)))
          λ access_expires.
            bind_exit
              (some_or_panic
                (instant_add service.latest now (response.refresh_expires_in * second)))
              λ refresh_expires. done (record {
                access = response.access_token;
                refresh = response.refresh_token;
                renew_at = renew_at;
                access_expires = access_expires;
                refresh_expires = refresh_expires;
              }))
    else fails (failed malformed_token)

abbrev pub bearer_text : Text → Text
bearer_text token = lit "Bearer " ++ token

-- `expect("tokens were checked to be printable ASCII")`
unfoldable pub bearer : Service → Text → Exec Text
bearer service token =
    expect (if service.is_header (bearer_text token) then some (bearer_text token) else none)
