-- ===== src/GatewayCheck.antt =====
-- src/gateway_check.rs: the health check of the gateway at startup. What the websocket gives first and
-- whether it comes in time are parameters; the texts of the errors are left out.
use ws2tcp_local_core.Base.{
  ◌≡◌, refl, ap, ◌∙◌, Bool, true, false, Option, none, some, Result, ok, err, ◌==◌, arith, inl, inr,
  Bool-cases,
}
use ws2tcp_local_core.Text.{Text, Bytes, lit}
use ws2tcp_local_core.Text.Split.{starts_with}
use ws2tcp_local_core.Gateway.{Gateway, health_check_url}
use ws2tcp_local_core.Http3.{Mode}
use ws2tcp_local_core.Upstream.{UpstreamProxy}
use ws2tcp_local_core.Websocket.{
  WsError, http, connection_closed, already_closed, protocol, io, connection_reset,
  connection_aborted, unexpected_eof, broken_pipe, Message, text, Headers, Request,
}
use ws2tcp_local_core.Tunnel.{World, Link, Error, build_gateway_request}
use ws2tcp_local_core.Tunnel.Connect.{GatewayStream, connect_websocket}

-- why a check failed: the messages of `Failed`
pub data Reason : Type 0 where
  bad_request answered_http no_health_check unreachable unexpected_reply broken_reply closed late :
      Reason

pub data GatewayCheckError : Type 0 where
  unauthorized : Bool → GatewayCheckError
  failed : Reason → GatewayCheckError

abbrev health_check_message_prefix : Text
health_check_message_prefix = lit "ok: ws2tcp-router"

unfoldable pub ended_handshake : WsError → Bool
ended_handshake connection_closed = true
ended_handshake already_closed = true
ended_handshake protocol = true
ended_handshake (io connection_reset) = true
ended_handshake (io connection_aborted) = true
ended_handshake (io unexpected_eof) = true
ended_handshake (io broken_pipe) = true
ended_handshake _ = false

abbrev ended_or_not : Bool → GatewayCheckError
ended_or_not true = failed no_health_check
ended_or_not false = failed unreachable

abbrev by_status : Bool → Bool → GatewayCheckError
by_status true configured = unauthorized configured
by_status false configured = failed answered_http

unfoldable pub classify_connect_error : WsError → Bool → GatewayCheckError
classify_connect_error (http status) configured = by_status (status == 401) configured
classify_connect_error e configured = ended_or_not (ended_handshake e)

-- what `websocket.next()` gives: the end, an error or a message
pub data Next : Type 0 where
  the_end an_error : Next
  message : Message → Next

abbrev expected : Bool → Result GatewayCheckError (Unit {0})
expected true = ok tt
expected false = err (failed unexpected_reply)

unfoldable pub check_message : Next → Result GatewayCheckError (Unit {0})
check_message the_end = err (failed closed)
check_message an_error = err (failed broken_reply)
check_message (message (text s)) = expected (starts_with health_check_message_prefix s)
check_message (message _) = err (failed unexpected_reply)

abbrev pub is_some : Option Text → Bool
is_some none = false
is_some (some _) = true

module _ (world : World) (first : Next) (in_time : Bool) where
  abbrev unless_late :
      Bool → Result GatewayCheckError (Unit {0}) → Result GatewayCheckError (Unit {0})
  unless_late true r = r
  unless_late false r = err (failed late)

  abbrev on_socket :
      Option Text → Result WsError GatewayStream × Link → Result GatewayCheckError (Unit {0}) × Link
  on_socket basic_auth (ok stream, l) = (unless_late in_time (check_message first), l)
  on_socket basic_auth (err e, l) =
      (unless_late in_time (err (classify_connect_error e (is_some basic_auth))), l)

  abbrev on_request :
      Option Text
      → Bool
      → Mode
      → Option UpstreamProxy
      → Result Error Request
      → Link
      → Result GatewayCheckError (Unit {0}) × Link
  on_request basic_auth insecure mode proxy (err _) l = (err (failed bad_request), l)
  on_request basic_auth insecure mode proxy (ok request) l =
      on_socket basic_auth (connect_websocket world request insecure mode proxy l)

  unfoldable pub check_gateway :
      Gateway
      → Option Text
      → Bool
      → Mode
      → Option UpstreamProxy
      → Headers
      → Link
      → Result GatewayCheckError (Unit {0}) × Link
  check_gateway gateway basic_auth insecure mode proxy headers l =
      on_request basic_auth insecure mode proxy
        (build_gateway_request world (health_check_url gateway) basic_auth headers) l

  -- What a check that passes has seen: the gateway opened a websocket in time and said that it is a
  -- ws2tcp-router.
  pub record IsHealthy (insecure : Bool) (mode : Mode) (proxy : Option UpstreamProxy) (l m : Link)
      : Type 0 where
    pub request : Request
    pub stream : GatewayStream
    pub opened : connect_websocket world request insecure mode proxy l ≡ (ok stream, m)
    pub reply : Bytes
    pub is_reply : first ≡ message (text reply)
    pub is_router : starts_with health_check_message_prefix reply ≡ true
    pub was_in_time : in_time ≡ true

  said_so :
      (r : Next)
      → check_message r ≡ ok tt
      → (reply : Bytes) × (r ≡ message (text reply))
        × (starts_with health_check_message_prefix reply ≡ true)
  unfolding check_message
  said_so the_end h = absurd (ground arith)
  said_so an_error h = absurd (ground arith)
  said_so (message (text s)) h = elim (Bool-cases (starts_with health_check_message_prefix s)) [
    | inl e ↦ (s, refl, e)
    | inr e ↦ absurd (ground arith)
  ]
  said_so (message _) h = absurd (ground arith)

  -- A health check passes only when the gateway opened a websocket in time and its first message is
  -- a text that starts as a ws2tcp-router's does.
  pub check_gateway-IsHealthy :
      (gateway : Gateway) (basic_auth : Option Text) (insecure : Bool) (mode : Mode)
      (proxy : Option UpstreamProxy) (headers : Headers) (l m : Link)
      → check_gateway gateway basic_auth insecure mode proxy headers l ≡ (ok tt, m)
      → IsHealthy insecure mode proxy l m
  unfolding check_gateway
  check_gateway-IsHealthy gateway basic_auth insecure mode proxy headers l m h =
      by_request (build_gateway_request world (health_check_url gateway) basic_auth headers) h
    where
      by_time :
          (request : Request) (stream : GatewayStream) (k : Link) (b : Bool)
          → in_time ≡ b
          → connect_websocket world request insecure mode proxy l ≡ (ok stream, k)
          → ◌≡◌ {A = Result GatewayCheckError (Unit {0}) × Link}
              (unless_late b (check_message first), k)
              (ok tt, m)
          → IsHealthy insecure mode proxy l m
      by_time request stream k false t e h = absurd (ground arith)
      by_time request stream k true t e h =
          let (reply, is_reply, is_router) = said_so first (ground arith) in
          let same : k ≡ m = ground arith in
          record {
            request = request;
            stream = stream;
            opened = e ∙ ap (λ x. (ok stream, x)) same;
            reply = reply;
            is_reply = is_reply;
            is_router = is_router;
            was_in_time = t;
          }

      by_socket :
          (request : Request) (x : Result WsError GatewayStream × Link)
          → connect_websocket world request insecure mode proxy l ≡ x
          → on_socket basic_auth x ≡ (ok tt, m)
          → IsHealthy insecure mode proxy l m
      by_socket request (ok stream, k) e h = by_time request stream k in_time refl e h
      by_socket request (err f, k) e h = absurd (late_or_not in_time h)
        where
          late_or_not :
              (b : Bool)
              → ◌≡◌ {A = Result GatewayCheckError (Unit {0}) × Link}
                  (unless_late b (err (classify_connect_error f (is_some basic_auth))), k)
                  (ok tt, m)
              → ⊥
          late_or_not true h = ground arith
          late_or_not false h = ground arith

      by_request :
          (r : Result Error Request)
          → on_request basic_auth insecure mode proxy r l ≡ (ok tt, m)
          → IsHealthy insecure mode proxy l m
      by_request (err _) h = absurd (ground arith)
      by_request (ok request) h =
          by_socket request (connect_websocket world request insecure mode proxy l) refl h
