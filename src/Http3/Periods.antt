-- ===== src/Http3/Periods.antt =====
-- The TCP period of src/http3.rs: when `connect` starts it, and what a tunnel does during it.
use ws2tcp_local_core.Base.{
  ℕ, suc, ◌+◌, ◌≤◌, ◌<◌, ◌≡◌, refl, ap, Bool, true, false, Option, none, some, Result, ok, err,
  arith, ltb, ◌==◌, inl, inr, Bool-cases, ltb→lt,
}
use mathlib.Core.Path.{subst}
use ws2tcp_local_core.Effects.{◌>>=◌}
use ws2tcp_local_core.Websocket.{
  WsError, http, no_host_name, connection_closed, already_closed, protocol, other_error, io,
  Request,
}
use ws2tcp_local_core.Http3.{Quic, State, fallback_period}
use ws2tcp_local_core.Http3.Connect.{
  try_connect, start_fallback, or_fall_back, tried, unless_active, compare_until, until_is_over,
  fallback_active, connect,
}
use ws2tcp_local_core.Http3.Fallback.{Kept, try_connect-Kept}

module _ (quic : Quic) where
  -- What `connect` comes to: at most two requests, and with no stream and no error, a period that
  -- had not ended when the clock was last read.
  record Falls (s : State) (x : Result WsError (Option ℕ) × State) : Type 0 where
    sends_le : x.1.sends ≤ 2 + s.sends
    period :
        x.0 ≡ ok none
        → (u : ℕ) × (n : ℕ) × (x.1.fallback_until ≡ some u)
          × (x.1.reads ≡ suc n)
          × (quic.clock n < u)

  started-Falls : (s t : State) → t.sends ≤ 2 + s.sends → Falls s (start_fallback quic t)
  started-Falls s t h = record {
    sends_le = h;
    period = λ e. (quic.clock t.reads + fallback_period, t.reads, refl, refl, omega arith);
  }

  or_fall_back-Falls :
      (s : State) (x : Result WsError ℕ × State)
      → Kept 2 s x
      → Falls s (or_fall_back quic false x.0 x.1)
  or_fall_back-Falls s (ok stream, t) h = ground arith
  or_fall_back-Falls s (err (http status), t) h = elim (Bool-cases (status == 401)) [
    | inl e ↦ rw (e, or_fall_back) (ground arith)
    | inr e ↦ rw (e, or_fall_back) (started-Falls s t h.sends_le)
  ]
  or_fall_back-Falls s (err no_host_name, t) h = started-Falls s t h.sends_le
  or_fall_back-Falls s (err connection_closed, t) h = started-Falls s t h.sends_le
  or_fall_back-Falls s (err already_closed, t) h = started-Falls s t h.sends_le
  or_fall_back-Falls s (err protocol, t) h = started-Falls s t h.sends_le
  or_fall_back-Falls s (err other_error, t) h = started-Falls s t h.sends_le
  or_fall_back-Falls s (err (io kind), t) h = started-Falls s t h.sends_le

  tried-Falls :
      (r : Request) (insecure : Bool) (s : State) → Falls s (tried quic r insecure false s)
  tried-Falls r insecure s =
      or_fall_back-Falls s (try_connect quic r insecure s) (try_connect-Kept quic r insecure s)

  connect-Falls :
      (r : Request) (insecure : Bool) (s : State) → Falls s (connect quic r insecure false s)
  unfolding connect fallback_active
  connect-Falls r insecure s = by_until s.fallback_until refl
    where
      by_until :
          (o : Option ℕ)
          → s.fallback_until ≡ o
          → Falls s ((compare_until quic o >>= unless_active quic r insecure) s)
      by_until none e = tried-Falls r insecure s
      by_until (some instant) e = by_clock (ltb (quic.clock s.reads) instant) refl
        where
          by_clock :
              (b : Bool)
              → ltb (quic.clock s.reads) instant ≡ b
              → Falls s (
                  (until_is_over quic b >>= unless_active quic r insecure)
                    (record s { reads = suc s.reads }))
          by_clock true f = record {
            sends_le = omega arith;
            period = λ g. (instant, s.reads, e, refl, ltb→lt (quic.clock s.reads) instant f);
          }
          by_clock false f =
              let h =
                tried-Falls r insecure (record s { fallback_until = none; reads = suc s.reads }) in
              record { sends_le = h.sends_le; period = h.period }

  -- Where a tunnel that may use TCP is told to use it, a period runs whose end lies behind the last
  -- reading of the clock.
  pub connect-period :
      (r : Request) (insecure : Bool) (s t : State)
      → connect quic r insecure false s ≡ (ok none, t)
      → (u : ℕ) × (n : ℕ) × (t.fallback_until ≡ some u) × (t.reads ≡ suc n) × (quic.clock n < u)
  connect-period r insecure s t e =
      let h = (connect-Falls r insecure s).period (ap (λ x. x.0) e) in
      subst
        (λ (x : State).
          (u : ℕ) × (n : ℕ) × (x.fallback_until ≡ some u) × (x.reads ≡ suc n) × (quic.clock n < u))
        (ap (λ x. x.1) e) h

  -- During the period a tunnel is told to use TCP at once: nothing is sent or dialled, and only the
  -- clock is read.
  pub connect-skips :
      (r : Request) (insecure : Bool) (s : State) (u : ℕ)
      → s.fallback_until ≡ some u
      → quic.clock s.reads < u
      → connect quic r insecure false s ≡ (ok none, record s { reads = suc s.reads })
  unfolding connect fallback_active
  connect-skips r insecure s u e h = ground arith

  -- With HTTP/3 only, a tunnel is never told to use TCP.
  pub connect-only :
      (r : Request) (insecure : Bool) (s t : State)
      → ¬ (connect quic r insecure true s ≡ (ok none, t))
  unfolding connect
  connect-only r insecure s t = by_result (try_connect quic r insecure s)
    where
      by_result : (x : Result WsError ℕ × State) → ¬ (or_fall_back quic true x.0 x.1 ≡ (ok none, t))
      by_result (ok stream, u) = ground arith
      by_result (err e, u) = ground arith
