-- ===== src/Session/Renew.antt =====
-- `request`, `renew`, `authorization` and `rejected` of `TokenSession`, and `GatewayAuth`: src/session.rs.
use ws2tcp_local_core.Base.{
  ℕ, Bool, true, false, not, Option, none, some, leb, ltb, ◌==◌, within, if◌then◌else◌,
}
use ws2tcp_local_core.Text.{Text, lit, equal}
use ws2tcp_local_core.Text.Split.{strip_prefix}
use ws2tcp_local_core.Session.{
  TokenResponse, lift, max_response_bytes, renew_retry_delay, Tokens, Service, World, Exit, done,
  fails, panicked, Exec, ◌>>=◌, ◌>>◌, pure, fail, expect, get, put, now, send, RequestError,
  rejected, failed, unreachable, http_status, too_large, no_body, malformed_response, Answer,
  no_answer, answer,
}
use ws2tcp_local_core.Session.Response.{instant_add, into_tokens, bearer, bearer_text}

abbrev exceeds_limit : Option ℕ → Bool
exceeds_limit none = false
exceeds_limit (some length) = ltb max_response_bytes length

module _ (service : Service) where
  -- the checks of the answer, up to the parsed body
  unfoldable pub accept : Answer → Exit TokenResponse
  accept no_answer = fails (failed unreachable)
  accept (answer status content_length body) =
      if status == 401
      then fails rejected
      else if not (within 200 299 status)
      then fails (failed (http_status status))
      else if exceeds_limit content_length
      then fails (failed too_large)
      else elim body [
        | none ↦ fails (failed no_body)
        | some bytes ↦ elim (service.from_slice bytes) [
          | none ↦ fails (failed malformed_response)
          | some parsed ↦ done parsed
        ]
      ]

  unfoldable pub request : Text → Text → Exec Tokens
  request url authorization = do
    response ← send service (record { url = url; authorization = authorization })
    parsed ← lift (accept response)
    time ← now service
    lift (into_tokens service parsed time)

  unfoldable pub log_in : Exec (Unit {0})
  log_in = do fresh ← request service.login_url service.basic_auth; put (some fresh)

  -- the `match` on the answer to the refresh token
  abbrev pub after_refresh : Exit Tokens × World → Exit (Unit {0}) × World
  after_refresh (done fresh, w) = put (some fresh) w
  after_refresh (fails rejected, w) = log_in w
  after_refresh (fails (failed reason), w) = (fails (failed reason), w)
  after_refresh (panicked, w) = (panicked, w)

  -- whether the refresh token can be used
  abbrev pub renew_by : Bool → Tokens → Exec (Unit {0})
  renew_by false tokens = log_in
  renew_by true tokens = do
    refresh ← bearer service tokens.refresh
    λ w. after_refresh (request service.refresh_url refresh w)

  abbrev pub renew_state : Option Tokens → Exec (Unit {0})
  renew_state none = log_in
  renew_state (some tokens) = do
    time ← now service
    renew_by (ltb time tokens.refresh_expires) tokens

  unfoldable pub renew : Exec (Unit {0})
  renew = do state ← get; renew_state state

  -- `state.as_ref().is_none_or(|tokens| Instant::now() >= tokens.renew_at)`
  abbrev pub is_due : Option Tokens → Exec Bool
  is_due none = pure true
  is_due (some tokens) = do time ← now service; pure (leb tokens.renew_at time)

  -- the `match` of a failed renewal
  abbrev pub postpone : Bool → RequestError → Tokens → Exec (Unit {0})
  postpone false err tokens = fail err
  postpone true err tokens = do
    later ← now service
    renew_at ← expect (instant_add service.latest later renew_retry_delay)
    put (some record tokens { renew_at = renew_at })

  abbrev pub keep_current_state : RequestError → Option Tokens → Exec (Unit {0})
  keep_current_state err none = fail err
  keep_current_state err (some tokens) = do
    time ← now service
    postpone (ltb time tokens.access_expires) err tokens

  unfoldable pub keep_current : RequestError → Exec (Unit {0})
  keep_current err = do state ← get; keep_current_state err state

  -- `if let Err(err) = renew`
  abbrev pub recover : Exit (Unit {0}) × World → Exit (Unit {0}) × World
  recover (done u, w) = (done u, w)
  recover (fails err, w) = keep_current err w
  recover (panicked, w) = (panicked, w)

  -- `if due && let Err(err) = self.renew(&mut state).await`
  abbrev pub renew_if : Bool → Exec (Unit {0})
  renew_if false w = pure tt w
  renew_if true w = recover (renew w)

  -- `format!("Bearer {}", tokens.access)` of the state, which has to be filled
  abbrev pub current : Option Tokens → Exec Text
  current none w = (panicked, w)
  current (some tokens) w = pure (bearer_text tokens.access) w

  unfoldable pub authorization : Exec Text
  authorization = do before ← get; due ← is_due before; renew_if due; state ← get; current state

  abbrev is_current : Option Text → Text → Bool
  is_current none access = false
  is_current (some token) access = equal token access

  abbrev pub reject : Bool → Tokens → Exec (Unit {0})
  reject false tokens = pure tt
  reject true tokens = do time ← now service; put (some record tokens { renew_at = time })

  abbrev pub reject_state : Text → Option Tokens → Exec (Unit {0})
  reject_state value none = pure tt
  reject_state value (some tokens) =
      reject (is_current (strip_prefix (lit "Bearer ") value) tokens.access) tokens

  -- `TokenSession::rejected`
  unfoldable pub rejected_by_gateway : Text → Exec (Unit {0})
  rejected_by_gateway authorization = do state ← get; reject_state authorization state
