-- ===== src/Session/Background.antt =====
-- The background renewal of src/session.rs: `until_background_renewal`, `renew_in_background` and
-- the turns of `keep_fresh`.
use ws2tcp_local_core.Base.{
  ℕ, ◌+◌, ◌-◌, ◌*◌, ◌^◌, min, max, Bool, true, false, Option, none, some, ltb,
}
use ws2tcp_local_core.Session.{
  renew_retry_delay, min_background_interval, max_background_retry_delay, Tokens, Service, World,
  Exit, done, fails, panicked, Exec, ◌>>=◌, pure, expect, get, now,
}
use ws2tcp_local_core.Session.Response.{max_duration, instant_add}
use ws2tcp_local_core.Session.Renew.{renew}

abbrev pub u32_max : ℕ
u32_max = 2 ^ 32 - 1

-- `saturating_mul(2_u32.saturating_pow(failures)).min(..)`
unfoldable pub background_delay : ℕ → ℕ
background_delay failures =
    min (min (renew_retry_delay * min (2 ^ failures) u32_max) max_duration)
      max_background_retry_delay

-- when the tokens are due, and not before `retry_at`
unfoldable pub due_at : ℕ → Option Tokens → Option ℕ → ℕ
due_at time none none = time
due_at time none (some retry_at) = max time retry_at
due_at time (some tokens) none = tokens.renew_at
due_at time (some tokens) (some retry_at) = max tokens.renew_at retry_at

-- the variables of `keep_fresh`
pub record Background : Type 0 where
  pub failures : ℕ
  pub retry_at : Option ℕ

module _ (service : Service) where
  unfoldable pub until_background_renewal : Option ℕ → Exec ℕ
  until_background_renewal retry_at = do
    time ← now service
    state ← get
    pure (max (due_at time state retry_at - time) min_background_interval)

  -- whether the renewal failed
  abbrev has_failed : Exit (Unit {0}) × World → Exit Bool × World
  has_failed (done _, w) = (done false, w)
  has_failed (fails _, w) = (done true, w)
  has_failed (panicked, w) = (panicked, w)

  abbrev is_fresh : Option Tokens → Exec Bool
  is_fresh none = pure false
  is_fresh (some tokens) = do time ← now service; pure (ltb time tokens.renew_at)

  abbrev renew_unless : Bool → Exec Bool
  renew_unless true w = (done false, w)
  renew_unless false w = has_failed (renew service w)

  unfoldable pub renew_in_background : Exec Bool
  renew_in_background = do state ← get; fresh ← is_fresh state; renew_unless fresh

  abbrev next : Background → Bool → Exec Background
  next b false = pure (record { failures = 0; retry_at = none })
  next b true = do
    time ← now service
    retry_at ← expect (instant_add service.latest time (background_delay b.failures))
    pure (record { failures = min (b.failures + 1) u32_max; retry_at = some retry_at })

  -- what follows the sleep in one turn of the loop
  unfoldable pub after_sleep : Background → Exec Background
  after_sleep b = do failed ← renew_in_background; next b failed
