-- ===== src/Service/Startup.antt =====
-- How `run_proxy_with_updates` of src/service.rs authenticates to the gateway before it serves.
use ws2tcp_local_core.Base.{
  ◌≡◌, refl, sym, ap, ◌∙◌, Bool, Option, none, some, Result, ok, err, arith,
}
use ws2tcp_local_core.Text.{Text}
use ws2tcp_local_core.Gateway.{Gateway, remote_basic_auth}
use ws2tcp_local_core.Gateway as Gateways
use mathlib.Core.Path.{subst}
use ws2tcp_local_core.Session.Outcome.{LoggedIn, log_in-Ends, Kept}
use ws2tcp_local_core.Session.{Exit, done, fails, panicked, Ends}
use ws2tcp_local_core.Session
use ws2tcp_local_core.Session.Auth.{
  GatewayAuth, without, basic, token, Login, logged_in, refused, login_panicked, LoginError, login,
  of_renewal,
}
use ws2tcp_local_core.Session.Renew.{renew}
use ws2tcp_local_core.Settings.{AuthMode}
use ws2tcp_local_core.Settings
use ws2tcp_local_core.Http3.{Mode}
use ws2tcp_local_core.Upstream.{UpstreamProxy}
use ws2tcp_local_core.Websocket.{Headers}
use ws2tcp_local_core.Tunnel.{World, Link}
use ws2tcp_local_core.GatewayCheck.{
  GatewayCheckError, Next, check_gateway, IsHealthy, check_gateway-IsHealthy,
}

-- how the authentication ends: ready to serve, or why the proxy does not start
pub data Startup : Type 0 where
  ready : GatewayAuth → Startup
  bad_credentials startup_panicked : Startup
  login_refused : LoginError → Startup
  check_failed : GatewayCheckError → Startup

-- a check that passed
abbrev ended : Link → Result GatewayCheckError (Unit {0}) × Link
ended l = (ok tt, l)

module _ (world : World) (first : Next) (in_time : Bool) where
  abbrev pub of_login : Login × Session.World → Link → Startup × Link
  of_login (logged_in auth, w) l = (ready auth, record l { session = w })
  of_login (refused e, w) l = (login_refused e, record l { session = w })
  of_login (login_panicked, w) l = (startup_panicked, record l { session = w })

  abbrev pub of_check : Text → Result GatewayCheckError (Unit {0}) × Link → Startup × Link
  of_check value (ok _, l) = (ready (basic value), l)
  of_check value (err e, l) = (check_failed e, l)

  -- the match on `settings.auth_mode` and the credentials
  unfoldable pub authenticate :
      Gateway
      → AuthMode
      → Result Gateways.Error (Option Text)
      → Bool
      → Mode
      → Option UpstreamProxy
      → Headers
      → Link
      → Startup × Link
  authenticate gateway mode (err _) insecure http3 proxy headers l = (bad_credentials, l)
  authenticate gateway mode (ok none) insecure http3 proxy headers l = (ready without, l)
  authenticate gateway Settings.token (ok (some value)) insecure http3 proxy headers l =
      of_login (login world.service l.session) l
  authenticate gateway Settings.basic (ok (some value)) insecure http3 proxy headers l =
      of_check value
        (check_gateway world first in_time gateway (some value) insecure http3 proxy headers l)

  -- A login from the session of `l`: one request with the credentials, and the tokens of its
  -- answer are held; nothing else has changed.
  pub record IsLogin (l m : Link) : Type 0 where
    pub only_session : m ≡ record l { session = m.session }
    pub login : LoggedIn world.service (record l.session { tokens = none }) m.session

  -- What a start has done: without credentials nothing, in the token mode a login and no health
  -- check, in the basic mode a health check that passed and no login.
  abbrev pub Started :
      AuthMode
      → Option Text
      → Bool
      → Mode
      → Option UpstreamProxy
      → GatewayAuth
      → Link
      → Link
      → Type 0
  Started mode none insecure http3 proxy auth l m = (auth ≡ without) × (m ≡ l)
  Started Settings.token (some value) insecure http3 proxy auth l m = (auth ≡ token) × IsLogin l m
  Started Settings.basic (some value) insecure http3 proxy auth l m =
      (auth ≡ basic value) × IsHealthy world first in_time insecure http3 proxy l m

  of_login-IsLogin :
      (v : Session.World) (x : Exit (Unit {0}) × Session.World) (l m : Link) (auth : GatewayAuth)
      → Ends (λ _ w. LoggedIn world.service v w) (λ _ w. Kept world.service v w) x
      → v ≡ record l.session { tokens = none }
      → of_login (of_renewal x) l ≡ (ready auth, m)
      → (auth ≡ token) × IsLogin l m
  of_login-IsLogin v (done _, w) l m auth k same_start h =
      let same : record l { session = w } ≡ m = ap (λ x. x.1) h in
      (
        ground arith,
        record {
          only_session = sym same ∙ ap (λ (k : Link). record l { session = k.session }) same;
          login =
              subst (λ u. LoggedIn world.service u m.session) same_start
                (subst (λ (n : Link). LoggedIn world.service v n.session) same k);
        },
      )
  of_login-IsLogin v (fails (Session.rejected), w) l m auth k s h = absurd (ground arith)
  of_login-IsLogin v (fails (Session.failed reason), w) l m auth k s h = absurd (ground arith)
  of_login-IsLogin v (panicked, w) l m auth k s h = absurd (ground arith)

  -- A proxy that starts without credentials has sent nothing and made no health check; in the token
  -- mode it has logged in, with one request whose answer gave the tokens, and made no health
  -- check; in the basic mode the health check has passed and no token was asked for.
  pub authenticate-Started :
      (gateway : Gateway) (mode : AuthMode) (credentials : Option Text) (insecure : Bool)
      (http3 : Mode) (proxy : Option UpstreamProxy) (headers : Headers) (l m : Link)
      (auth : GatewayAuth)
      → authenticate gateway mode (ok credentials) insecure http3 proxy headers l ≡ (ready auth, m)
      → Started mode credentials insecure http3 proxy auth l m
  unfolding authenticate login renew
  authenticate-Started gateway Settings.token none insecure http3 proxy headers l m auth h =
      (ground arith, sym (ap (λ x. x.1) h))
  authenticate-Started gateway Settings.basic none insecure http3 proxy headers l m auth h =
      (ground arith, sym (ap (λ x. x.1) h))
  authenticate-Started gateway Settings.token (some value) insecure http3 proxy headers l m auth h =
      of_login-IsLogin (record l.session { tokens = none })
        (renew world.service (record l.session { tokens = none })) l m auth
        (log_in-Ends world.service (record l.session { tokens = none })) refl h
  authenticate-Started gateway Settings.basic (some value) insecure http3 proxy headers l m auth h =
      by_check
        (check_gateway world first in_time gateway (some value) insecure http3 proxy headers l) refl
        h
    where
      by_check :
          (x : Result GatewayCheckError (Unit {0}) × Link)
          → check_gateway world first in_time gateway (some value) insecure http3 proxy headers l
            ≡ x
          → of_check value x ≡ (ready auth, m)
          → (auth ≡ basic value) × IsHealthy world first in_time insecure http3 proxy l m
      by_check (ok _, k) e h =
          let same : k ≡ m = ground arith in
          (
            ground arith,
            check_gateway-IsHealthy world first in_time gateway (some value) insecure http3 proxy
                headers l m (e ∙ ap ended same),
          )
      by_check (err _, k) e h = absurd (ground arith)
