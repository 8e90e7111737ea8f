-- ===== src/Tunnel/Attempts.antt =====
-- The loop of `connect_gateway` in src/tunnel.rs: it ends after two turns at most, and only a rejected
-- token is tried again.
use ws2tcp_local_core.Base.{
  ℕ, suc, ◌≡◌, refl, Bool, true, false, ◌&&◌, not, Option, some, Result, ok, err, arith, ◌==◌,
}
use ws2tcp_local_core.Text.{Text}
use ws2tcp_local_core.Effects.{and_then, lift}
use ws2tcp_local_core.Session.{Exit, done, fails, panicked}
use ws2tcp_local_core.Session
use ws2tcp_local_core.Session.Auth.{can_renew, authorization, rejected_with}
use ws2tcp_local_core.Websocket.{
  WsError, http, no_host_name, connection_closed, already_closed, protocol, other_error, io,
  Request,
}
use ws2tcp_local_core.Upstream.Through.{Adds-none}
use ws2tcp_local_core.Tunnel.{World, Link, Config, Error, build_gateway_request}
use ws2tcp_local_core.Tunnel.Connect.{GatewayStream, connect_websocket}
use ws2tcp_local_core.Tunnel.Opening.{
  ready, Turn, returns, again, of_exit, go_on, authorize, prepare, retry_if, on_answer, send, turn,
  connect_from, connect_gateway,
}
use ws2tcp_local_core.Tunnel.Reached.{
  Allowed, Reaches, Reaches-none, Reaches-then, and_then-Reaches, connect_websocket-Reaches,
}

-- whether a turn may be followed by another
abbrev may_retry : Config → Bool → Bool
may_retry config renewed = not renewed && can_renew config.auth

module _ (world : World) (config : Config) where
  -- What a turn comes to: it reaches out as it is allowed to, and goes on only once, with a token
  -- session.
  record IsTurn (renewed : Bool) (l : Link) (x : Turn × Link) : Type 0 where
    reaches : Reaches config.upstream_proxy 1 l x.1
    retries : x.0 ≡ again → may_retry config renewed ≡ true

  session-Reaches :
      (l : Link) (w : Session.World) → Reaches config.upstream_proxy 0 l (record l { session = w })
  session-Reaches l w = record {
    contacts = Adds-none (Allowed config.upstream_proxy) l.contacts;
    tries_le = omega arith;
  }

  of_exit-Reaches :
      {A : Type 0} (l : Link) (x : Exit A × Session.World)
      → Reaches config.upstream_proxy 0 l (of_exit x l).1
  of_exit-Reaches l (done a, w) = session-Reaches l w
  of_exit-Reaches l (fails e, w) = session-Reaches l w
  of_exit-Reaches l (panicked, w) = session-Reaches l w

  prepare-Reaches :
      (ws_url : Text) (l : Link)
      → Reaches config.upstream_proxy 0 l (prepare world config ws_url l).1
  prepare-Reaches ws_url l =
      and_then-Reaches config.upstream_proxy 0 0 l (authorize world config l) _
        (of_exit-Reaches l (authorization world.service config.auth l.session))
        (λ value k. by_request value k (build_gateway_request world ws_url value config.headers))
    where
      by_request :
          (value : Option Text) (k : Link) (r : Result Error Request)
          → Reaches config.upstream_proxy 0 k (and_then (lift r k) (ready world config value)).1
      by_request value k (ok request) = Reaches-none config.upstream_proxy 0 k
      by_request value k (err e) = Reaches-none config.upstream_proxy 0 k

  -- a turn that returns
  stops :
      (renewed : Bool) (l : Link) (r : Result Error GatewayStream) (k : Link)
      → Reaches config.upstream_proxy 1 l k
      → IsTurn renewed l (returns r, k)
  stops renewed l r k h = record { reaches = h; retries = λ e. absurd (ground arith) }

  retry_if-IsTurn :
      (renewed b : Bool) (value : Option Text) (e : WsError) (l k : Link)
      → (b ≡ true → may_retry config renewed ≡ true)
      → Reaches config.upstream_proxy 1 l k
      → IsTurn renewed l (retry_if world config b value e k)
  retry_if-IsTurn renewed false value e l k f h = stops renewed l _ k h
  retry_if-IsTurn renewed true value e l k f h =
      by_exit (rejected_with world.service config.auth value k.session)
    where
      reach : (w : Session.World) → Reaches config.upstream_proxy 1 l (record k { session = w })
      reach w = Reaches-then config.upstream_proxy 1 0 l k _ h (session-Reaches k w)

      by_exit : (x : Exit (Unit {0}) × Session.World) → IsTurn renewed l (go_on x k)
      by_exit (done _, w) = record { reaches = reach w; retries = λ _. f refl }
      by_exit (fails _, w) = record { reaches = reach w; retries = λ _. f refl }
      by_exit (panicked, w) = stops renewed l _ _ (reach w)

  on_answer-IsTurn :
      (renewed : Bool) (value : Option Text) (l : Link) (x : Result WsError GatewayStream × Link)
      → Reaches config.upstream_proxy 1 l x.1
      → IsTurn renewed l (on_answer world config renewed value x)
  on_answer-IsTurn renewed value l (ok stream, k) h = stops renewed l _ k h
  on_answer-IsTurn renewed value l (err (http status), k) h =
      retry_if-IsTurn renewed (status == 401 && not renewed && can_renew config.auth) value
        (http status) l k (λ e. ground arith) h
  on_answer-IsTurn renewed value l (err no_host_name, k) h = stops renewed l _ k h
  on_answer-IsTurn renewed value l (err connection_closed, k) h = stops renewed l _ k h
  on_answer-IsTurn renewed value l (err already_closed, k) h = stops renewed l _ k h
  on_answer-IsTurn renewed value l (err protocol, k) h = stops renewed l _ k h
  on_answer-IsTurn renewed value l (err other_error, k) h = stops renewed l _ k h
  on_answer-IsTurn renewed value l (err (io kind), k) h = stops renewed l _ k h

  send-IsTurn :
      (renewed : Bool) (l : Link) (x : Result Error (Option Text × Request) × Link)
      → Reaches config.upstream_proxy 0 l x.1
      → IsTurn renewed l (send world config renewed x)
  send-IsTurn renewed l (err e, k) h =
      stops renewed l _ k (record { contacts = h.contacts; tries_le = omega (arith, h.tries_le) })
  send-IsTurn renewed l (ok (value, request), k) h =
      on_answer-IsTurn renewed value l
        (connect_websocket world request config.insecure (config.http3 k.tries)
          config.upstream_proxy (record k { tries = suc k.tries }))
        (Reaches-then config.upstream_proxy 1 0 l (record k { tries = suc k.tries }) _
          (record { contacts = h.contacts; tries_le = omega (arith, h.tries_le) })
          (connect_websocket-Reaches world request config.insecure (config.http3 k.tries)
            config.upstream_proxy (record k { tries = suc k.tries })))

  turn-IsTurn :
      (renewed : Bool) (ws_url : Text) (l : Link)
      → IsTurn renewed l (turn world config renewed ws_url l)
  unfolding turn
  turn-IsTurn renewed ws_url l =
      send-IsTurn renewed l (prepare world config ws_url l) (prepare-Reaches ws_url l)

  -- how the loop ends
  pub record Returns (n fuel : ℕ) (renewed : Bool) (ws_url : Text) (l : Link) : Type 0 where
    pub result : Result Error GatewayStream
    pub after : Link
    pub returned : connect_from world config fuel renewed ws_url l ≡ some (result, after)
    pub reaches : Reaches config.upstream_proxy n l after

  -- a turn after which there is none
  last-Returns :
      (fuel : ℕ) (renewed : Bool) (ws_url : Text) (l : Link)
      → may_retry config renewed ≡ false
      → Returns 1 (suc fuel) renewed ws_url l
  unfolding connect_from
  last-Returns fuel renewed ws_url l h =
      by_turn (turn world config renewed ws_url l) refl (turn-IsTurn renewed ws_url l)
    where
      by_turn :
          (x : Turn × Link)
          → turn world config renewed ws_url l ≡ x
          → IsTurn renewed l x
          → Returns 1 (suc fuel) renewed ws_url l
      by_turn (returns r, k) e t = record {
        result = r;
        after = k;
        returned = rw (e, connect_from) refl;
        reaches = t.reaches;
      }
      by_turn (again, k) e t = absurd (ground (arith, t.retries refl))

  first-Returns : (fuel : ℕ) (ws_url : Text) (l : Link) → Returns 2 (suc (suc fuel)) false ws_url l
  unfolding connect_from
  first-Returns fuel ws_url l =
      by_turn (turn world config false ws_url l) refl (turn-IsTurn false ws_url l)
    where
      by_turn :
          (x : Turn × Link)
          → turn world config false ws_url l ≡ x
          → IsTurn false l x
          → Returns 2 (suc (suc fuel)) false ws_url l
      by_turn (returns r, k) e t = record {
        result = r;
        after = k;
        returned = rw (e, connect_from) refl;
        reaches = record {
          contacts = t.reaches.contacts;
          tries_le = omega (arith, t.reaches.tries_le);
        };
      }
      by_turn (again, k) e t =
          let second = last-Returns fuel true ws_url k refl in
          record {
            result = second.result;
            after = second.after;
            returned = rw (e, connect_from) second.returned;
            reaches =
                Reaches-then config.upstream_proxy 1 1 l k second.after t.reaches second.reaches;
          }

  -- The loop always ends: with fuel for two turns it gives a result, after at most two tries. With an
  -- upstream proxy the only contacts are those with the proxy and, where it is a `socks5` one, with
  -- the resolver; the token requests, which the session's own HTTP client sends, are not among the
  -- contacts.
  pub connect_gateway-Returns :
      (fuel : ℕ) (ws_url : Text) (l : Link)
      → (r : Result Error GatewayStream) × (after : Link) × (connect_gateway world config
            (suc (suc fuel))
            ws_url
            l
          ≡ some (r, after))
        × Reaches config.upstream_proxy 2 l after
  unfolding connect_gateway
  connect_gateway-Returns fuel ws_url l =
      let x = first-Returns fuel ws_url l in (x.result, x.after, x.returned, x.reaches)

  -- Without a token session there is one try.
  pub connect_gateway-once :
      (fuel : ℕ) (ws_url : Text) (l : Link)
      → can_renew config.auth ≡ false
      → (r : Result Error GatewayStream) × (after : Link) × (connect_gateway world config
            (suc fuel)
            ws_url
            l
          ≡ some (r, after))
        × Reaches config.upstream_proxy 1 l after
  unfolding connect_gateway
  connect_gateway-once fuel ws_url l h =
      let x = last-Returns fuel false ws_url l h in (x.result, x.after, x.returned, x.reaches)
