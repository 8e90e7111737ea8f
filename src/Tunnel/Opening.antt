-- ===== src/Tunnel/Opening.antt =====
-- `connect_gateway` of src/tunnel.rs: the loop that renews a rejected token and tries once more.
use ws2tcp_local_core.Base.{
  ℕ, zero, suc, Bool, true, false, ◌&&◌, not, Option, none, some, Result, ok, err, ◌==◌,
}
use ws2tcp_local_core.Text.{Text}
use ws2tcp_local_core.Effects.{Exec, ◌>>=◌, lift}
use ws2tcp_local_core.Session.{Exit, done, fails}
use ws2tcp_local_core.Session
use ws2tcp_local_core.Session.Auth.{authorization, can_renew, rejected_with}
use ws2tcp_local_core.Websocket.{WsError, http, Request}
use ws2tcp_local_core.Tunnel.{
  World, Link, Config, Error, panicked, unauthenticated, websocket, build_gateway_request,
}
use ws2tcp_local_core.Tunnel.Connect.{GatewayStream, connect_websocket}

-- a turn of the loop: it returns, or it goes on
pub data Turn : Type 0 where
  returns : Result Error GatewayStream → Turn
  again : Turn

abbrev pub of_exit : {A : Type 0} → Exit A × Session.World → Link → Result Error A × Link
of_exit (done a, w) l = (ok a, record l { session = w })
of_exit (fails e, w) l = (err (unauthenticated e), record l { session = w })
of_exit (Session.panicked, w) l = (err panicked, record l { session = w })

-- after a rejection
abbrev pub go_on : Exit (Unit {0}) × Session.World → Link → Turn × Link
go_on (done _, w) l = (again, record l { session = w })
go_on (fails _, w) l = (again, record l { session = w })
go_on (Session.panicked, w) l = (returns (err panicked), record l { session = w })

-- the next turn, where there is one
abbrev pub follow :
    (Link → Option (Result Error GatewayStream × Link))
    → Turn × Link
    → Option (Result Error GatewayStream × Link)
follow next (returns r, after) = some (r, after)
follow next (again, after) = next after

module _ (world : World) (config : Config) where
  abbrev pub authorize : Exec Link Error (Option Text)
  authorize l = of_exit (authorization world.service config.auth l.session) l

  abbrev pub ready : Option Text → Request → Exec Link Error (Option Text × Request)
  ready value request l = (ok (value, request), l)

  -- the request of a turn, with its authorization
  abbrev pub prepare : Text → Exec Link Error (Option Text × Request)
  prepare ws_url = do
    value ← authorize
    request ← lift (build_gateway_request world ws_url value config.headers)
    ready value request

  abbrev pub reject : Option Text → Link → Turn × Link
  reject value l = go_on (rejected_with world.service config.auth value l.session) l

  abbrev pub retry_if : Bool → Option Text → WsError → Link → Turn × Link
  retry_if true value e l = reject value l
  retry_if false value e l = (returns (err (websocket e)), l)

  -- the match on what `connect_websocket` came to
  abbrev pub on_answer : Bool → Option Text → Result WsError GatewayStream × Link → Turn × Link
  on_answer renewed value (ok stream, l) = (returns (ok stream), l)
  on_answer renewed value (err (http status), l) =
      retry_if (status == 401 && not renewed && can_renew config.auth) value (http status) l
  on_answer renewed value (err e, l) = (returns (err (websocket e)), l)

  abbrev pub send : Bool → Result Error (Option Text × Request) × Link → Turn × Link
  send renewed (err e, l) = (returns (err e), l)
  send renewed (ok (value, request), l) = on_answer renewed value (
      connect_websocket world request config.insecure (config.http3 l.tries) config.upstream_proxy
        (record l { tries = suc l.tries }))

  unfoldable pub turn : Bool → Text → Link → Turn × Link
  turn renewed ws_url l = send renewed (prepare ws_url l)

  -- the loop, with as many turns as the fuel allows
  unfoldable pub connect_from : ℕ → Bool → Text → Link → Option (Result Error GatewayStream × Link)
  connect_from zero renewed ws_url l = none
  connect_from (suc fuel) renewed ws_url l =
      follow (connect_from fuel true ws_url) (turn renewed ws_url l)

  unfoldable pub connect_gateway : ℕ → Text → Link → Option (Result Error GatewayStream × Link)
  connect_gateway fuel ws_url l = connect_from fuel false ws_url l
