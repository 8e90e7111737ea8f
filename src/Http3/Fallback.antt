-- ===== src/Http3/Fallback.antt =====
-- What `connect` of src/http3.rs leaves behind: how many requests it sends, and when it falls back to
-- TCP.
use ws2tcp_local_core.Base.{
  ℕ, suc, ◌+◌, ◌≤◌, ◌≡◌, Bool, true, false, List, [], ◌∷◌, Option, none, some, Result, ok, err,
  arith, inl, inr, Bool-cases, Option-cases, ok_or, ◌&&◌,
}
use ws2tcp_local_core.Text.{Text}
use ws2tcp_local_core.Effects.{Exec, and_then, lift, ◌>>=◌}
use ws2tcp_local_core.Websocket.{WsError, Request}
use ws2tcp_local_core.Http3.{Key, Session, ConnectRequest, Quic, State}
use ws2tcp_local_core.Http3.Sessions.{
  io_error, forget, get, session, establish, dial_each, keep, renewed, use_open, use_cached,
}
use ws2tcp_local_core.Http3.Connect.{
  connect_request, send, on_new, forget_failed, repeat_if, or_443, open_stream, is_io, request_on,
  try_connect,
}

-- An action has sent at most `n` requests, and has left the clock and the TCP period alone.
pub record Kept {A : Type 0} (n : ℕ) (s : State) (x : Result WsError A × State) : Type 0 where
  pub sends_le : x.1.sends ≤ n + s.sends
  pub same_reads : x.1.reads ≡ s.reads
  pub same_until : x.1.fallback_until ≡ s.fallback_until

and_then-Kept :
    {A B : Type 0} (n m : ℕ) (s : State) (x : Result WsError A × State)
    (f : A → Exec State WsError B)
    → Kept n s x
    → ((a : A) (t : State) → Kept m t (f a t))
    → Kept (m + n) s (and_then x f)
and_then-Kept n m s (ok a, t) f h k = ground (arith, k a t)
and_then-Kept n m s (err e, t) f h k = ground arith

Kept-forget :
    {A : Type 0} (n : ℕ) (k : Key) (s : State) (x : Result WsError A × State)
    → Kept n (forget k s) x
    → Kept n s x
Kept-forget n k s x h = ground arith

module _ (quic : Quic) where
  dial_each-Kept : (k : Key) (addrs : List Text) (s : State) → Kept 0 s (dial_each quic k addrs s)
  unfolding dial_each
  dial_each-Kept k [] s = ground arith
  dial_each-Kept k (addr ∷ addrs) s =
      elim (Bool-cases (quic.connect_quic s.dials addr k.host k.insecure)) [
        | inl e ↦ rw (e, dial_each) (ground arith)
        | inr e ↦
            rw (e, dial_each)
              (ground (arith, dial_each-Kept k addrs (record s { dials = suc s.dials })))
      ]

  establish-Kept : (k : Key) (s : State) → Kept 0 s (establish quic k s)
  unfolding establish
  establish-Kept k s = elim (Option-cases (quic.lookup_host k.host k.port)) [
    | inl e ↦ rw (e, establish) (ground arith)
    | inr (addrs, e) ↦ rw (e, establish) (dial_each-Kept k addrs s)
  ]

  renewed-Kept : (k : Key) (s : State) → Kept 0 s (renewed quic k s)
  renewed-Kept k s =
      and_then-Kept 0 0 s (establish quic k s) (keep quic k) (establish-Kept k s)
        (λ x t. ground arith)

  use_cached-Kept : (k : Key) (o : Option Session) (s : State) → Kept 0 s (use_cached quic k o s)
  use_cached-Kept k none s = renewed-Kept k s
  use_cached-Kept k (some x) s = by_reason (quic.is_closed x.connection s.sends)
    where
      by_reason : (b : Bool) → Kept 0 s (use_open quic k x b s)
      by_reason true = Kept-forget 0 k s _ (renewed-Kept k (forget k s))
      by_reason false = ground arith

  session-Kept : (k : Key) (s : State) → Kept 0 s (session quic k s)
  unfolding session
  session-Kept k s = use_cached-Kept k (get k s.sessions) s

  open_stream-Kept : (x : Session) (r : Request) (s : State) → Kept 1 s (open_stream quic x r s)
  unfolding open_stream
  open_stream-Kept x r s = by_request (connect_request r)
    where
      by_request : (c : Result WsError ConnectRequest) → Kept 1 s ((lift c >>= send quic x) s)
      by_request (ok c) = ground arith
      by_request (err e) = ground arith

  on_new-Kept :
      (k : Key) (r : Request) (found : Session × Bool) (s : State)
      → Kept 1 s (on_new quic k r found s)
  on_new-Kept k r (x, cached) s = by_result (open_stream quic x r s) (open_stream-Kept x r s)
    where
      by_result :
          (y : Result WsError ℕ × State)
          → Kept 1 s y
          → Kept 1 s (forget_failed quic k (is_io y.0) y)
      by_result (q, t) h = by_failure (is_io q) h
        where
          by_failure : (b : Bool) → Kept 1 s (q, t) → Kept 1 s (forget_failed quic k b (q, t))
          by_failure true h = ground arith
          by_failure false h = h

  repeat_if-Kept :
      (b : Bool) (k : Key) (r : Request) (s : State) (y : Result WsError ℕ × State)
      → Kept 1 s y
      → Kept 2 s (repeat_if quic b k r y)
  repeat_if-Kept false k r s (q, t) h = ground arith
  repeat_if-Kept true k r s (q, t) h = ground (arith, later)
    where
      later : Kept 1 t ((session quic k >>= on_new quic k r) (forget k t))
      later = Kept-forget 1 k t _ (
          and_then-Kept 0 1 (forget k t) (session quic k (forget k t)) (on_new quic k r)
            (session-Kept k (forget k t)) (on_new-Kept k r))

  request_on-Kept :
      (k : Key) (r : Request) (found : Session × Bool) (s : State)
      → Kept 2 s (request_on quic k r found s)
  unfolding request_on
  request_on-Kept k r (x, cached) s =
      repeat_if-Kept (cached && is_io (open_stream quic x r s).0) k r s (open_stream quic x r s)
        (open_stream-Kept x r s)

  abbrev key_to : Request → Bool → Text → Key
  key_to r insecure host = record {
    host = host;
    port = or_443 quic r.uri.port_u16;
    insecure = insecure;
  }

  pub try_connect-Kept :
      (r : Request) (insecure : Bool) (s : State) → Kept 2 s (try_connect quic r insecure s)
  unfolding try_connect
  try_connect-Kept r insecure s = by_host r.uri.host
    where
      by_host :
          (o : Option Text)
          → Kept 2 s (
              (lift (ok_or io_error o) >>= λ host.
              session quic (key_to r insecure host) >>= request_on quic (key_to r insecure host) r)
                s)
      by_host none = ground arith
      by_host (some host) =
          and_then-Kept 0 2 s (session quic (key_to r insecure host) s)
            (request_on quic (key_to r insecure host) r) (session-Kept (key_to r insecure host) s)
            (request_on-Kept (key_to r insecure host) r)
