-- ===== src/Session/Auth.antt =====
-- `GatewayAuth` of src/session.rs: no credentials, Basic ones, or the token session, which is the
-- state of the world.
use ws2tcp_local_core.Base.{Bool, true, false, Option, none, some}
use ws2tcp_local_core.Text.{Text, lit}
use ws2tcp_local_core.Session.{
  Service, World, Exit, done, fails, panicked, Exec, ◌>>=◌, pure, rejected, failed, Reason,
}
use ws2tcp_local_core.Session.Renew.{renew}
use ws2tcp_local_core.Session.Renew

pub data GatewayAuth : Type 0 where
  without : GatewayAuth
  basic : Text → GatewayAuth
  token : GatewayAuth

-- `GatewayCheckError` of a login
pub data LoginError : Type 0 where
  unauthorized : LoginError
  login_failed : Reason → LoginError

pub data Login : Type 0 where
  logged_in : GatewayAuth → Login
  refused : LoginError → Login
  login_panicked : Login

unfoldable pub describe : GatewayAuth → Text
describe without = lit "none"
describe (basic _) = lit "basic"
describe token = lit "token"

unfoldable pub can_renew : GatewayAuth → Bool
can_renew token = true
can_renew _ = false

-- what the first renewal of a new session comes to
abbrev pub of_renewal : Exit (Unit {0}) × World → Login × World
of_renewal (done _, w) = (logged_in token, w)
of_renewal (fails rejected, w) = (refused unauthorized, w)
of_renewal (fails (failed reason), w) = (refused (login_failed reason), w)
of_renewal (panicked, w) = (login_panicked, w)

module _ (service : Service) where
  unfoldable pub login : World → Login × World
  login w = of_renewal (renew service (record w { tokens = none }))

  unfoldable pub authorization : GatewayAuth → Exec (Option Text)
  authorization without = pure none
  authorization (basic value) = pure (some value)
  authorization token = do value ← Renew.authorization service; pure (some value)

  unfoldable pub rejected_with : GatewayAuth → Option Text → Exec (Unit {0})
  rejected_with token (some value) = Renew.rejected_by_gateway service value
  rejected_with token none = pure tt
  rejected_with without value = pure tt
  rejected_with (basic _) value = pure tt
