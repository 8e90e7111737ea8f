-- ===== src/Tests/Session.antt =====
-- A token session at a concrete clock and gateway, and the witnesses.
use ws2tcp_local_core.Base.{
  ℕ, ◌+◌, ◌*◌, ◌^◌, ◌≡◌, ◌≤◌, ◌⊎◌, refl, [], ◌∷◌, Option, none, some, arith, true, min,
}
use ws2tcp_local_core.Text.{lit, is_empty}
use ws2tcp_local_core.Text.Utf8.{as_bytes}
use ws2tcp_local_core.Session.{
  second, Tokens, TokenResponse, Answer, answer, no_answer, Service, World, done, fails, failed,
  unreachable,
}
use ws2tcp_local_core.Session.Response.{
  bearer_text, into_tokens, is_token, is_ascii_graphic, duration_mul, instant_add, bearer,
}
use ws2tcp_local_core.Session.Renew.{
  renew, log_in, request, accept, is_due, authorization, keep_current, rejected_by_gateway,
}
use ws2tcp_local_core.Session.Background.{background_delay, due_at, until_background_renewal}
use ws2tcp_local_core.Session.Backoff.{
  EndsAt, background_delay-doubles, until_background_renewal_lem,
}
use ws2tcp_local_core.Session.Outcome.{Renewed, renew-Renewed, renew-tokens}
use ws2tcp_local_core.Session.Authorized.{
  Authorized, Exhausted, authorization-Authorized, authorization-Exhausted,
}
use ws2tcp_local_core.Session.Rejected.{rejected_by_gateway-is_due}

abbrev issued_response : TokenResponse
issued_response = record {
  access_token = lit "access";
  expires_in = 100;
  refresh_token = lit "refresh";
  refresh_expires_in = 1000;
}

-- a second passes between two readings, and every request is answered alike
abbrev pub service_with : Answer → Service
service_with a = record {
  clock = λ n. n * second;
  latest = 2 ^ 63 * second;
  gateway = λ n r. a;
  from_slice = λ b. some issued_response;
  is_header = λ s. true;
  login_url = lit "https://gateway/auth/token";
  refresh_url = lit "https://gateway/auth/refresh";
  basic_auth = lit "Basic eDp5";
}

abbrev pub running : Service
running = service_with (answer 200 none (some []))

abbrev down : Service
down = service_with no_answer

abbrev pub start : World
start = record { tokens = none; reads = 0; count = 0; requests = [] }

abbrev pub issued : Tokens
issued = record {
  access = lit "access";
  refresh = lit "refresh";
  renew_at = 80 * second;
  access_expires = 100 * second;
  refresh_expires = 1000 * second;
}

abbrev pub at_time : ℕ → World
at_time n = record { tokens = some issued; reads = n; count = 0; requests = [] }

-- the state `t` after `n` readings and one request with the refresh token
abbrev refreshed : Option Tokens → ℕ → World
refreshed t n = record {
  tokens = t;
  reads = n;
  count = 1;
  requests =
      record {
        url = lit "https://gateway/auth/refresh";
        authorization = bearer_text (lit "refresh");
      }
      ∷ [];
}

-- the first login
abbrev logged_in : World
logged_in = record {
  tokens = some issued;
  reads = 1;
  count = 1;
  requests =
      record { url = lit "https://gateway/auth/token"; authorization = lit "Basic eDp5" } ∷ [];
}

renew_logs_in : renew running start ≡ (done tt, logged_in)
unfolding renew log_in request accept into_tokens is_token is_empty as_bytes is_ascii_graphic
    duration_mul instant_add
renew_logs_in = refl

renew-Renewed_example :
    (t : Tokens) × (logged_in.tokens ≡ some t) × Renewed running start t logged_in
renew-Renewed_example = renew-Renewed running start logged_in renew_logs_in

renew_fails : renew down (at_time 90) ≡ (fails (failed unreachable), refreshed (some issued) 91)
unfolding renew request accept bearer
renew_fails = refl

renew-tokens_example : (refreshed (some issued) 91).tokens ≡ (at_time 90).tokens
renew-tokens_example =
    renew-tokens down (at_time 90) (refreshed (some issued) 91) (failed unreachable) renew_fails

-- the renewal fails at 90 s, the access token lives until 100 s
abbrev postponed : Tokens
postponed = record issued { renew_at = 98 * second }

authorization_postpones :
    authorization down (at_time 90)
    ≡ (done (bearer_text (lit "access")), refreshed (some postponed) 94)
unfolding authorization renew request accept bearer keep_current instant_add
authorization_postpones = refl

authorization-Authorized_example :
    Authorized down (at_time 90) (bearer_text (lit "access")) (refreshed (some postponed) 94)
authorization-Authorized_example =
    authorization-Authorized down (at_time 90) (refreshed (some postponed) 94)
      (bearer_text (lit "access")) authorization_postpones

authorization_ends :
    authorization down (at_time 200) ≡ (fails (failed unreachable), refreshed (some issued) 203)
unfolding authorization renew request accept bearer keep_current
authorization_ends = refl

authorization-Exhausted_example :
    ((refreshed (some issued) 203).tokens ≡ (at_time 200).tokens)
    × Exhausted down (at_time 200) (refreshed (some issued) 203)
authorization-Exhausted_example =
    authorization-Exhausted down (at_time 200) (refreshed (some issued) 203) (failed unreachable)
      authorization_ends

-- A renewal that fails just before the access token expires puts the next one off to after that,
-- and until then the expired token is given out.
abbrev put_off : World
put_off = refreshed (some record issued { renew_at = 105 * second }) 101

expired_token_is_used :
    (authorization down (at_time 97) ≡ (done (bearer_text (lit "access")), put_off))
    × (authorization down put_off
        ≡ (done (bearer_text (lit "access")), record put_off { reads = 102 }))
unfolding authorization renew request accept bearer keep_current instant_add
expired_token_is_used = (refl, refl)

background_delay-doubles_example : background_delay 3 ≡ min (5 * second * 2 ^ 3) (300 * second)
background_delay-doubles_example = background_delay-doubles 3

waits :
    until_background_renewal running (some (95 * second)) (at_time 10)
    ≡ (done (85 * second), at_time 11)
unfolding until_background_renewal due_at
waits = refl

until_background_renewal_lem_example :
    (second ≤ 85 * second)
    × (80 * second ≤ 10 * second + 85 * second)
    × (95 * second ≤ 10 * second + 85 * second)
    × ((85 * second ≡ second)
        ⊎ EndsAt (80 * second) (some (95 * second)) (10 * second + 85 * second))
until_background_renewal_lem_example =
    until_background_renewal_lem running (some (95 * second)) (at_time 10) (at_time 11)
      (85 * second) waits

rejected_by_gateway-is_due_example :
    (is_due running
      (rejected_by_gateway running (bearer_text (lit "access")) (at_time 10)).1.tokens
      (rejected_by_gateway running (bearer_text (lit "access")) (at_time 10)).1).0
    ≡ done true
rejected_by_gateway-is_due_example =
    rejected_by_gateway-is_due running (at_time 10) issued refl (omega arith)
