-- ===== src/Session/Backoff.antt =====
-- How long the background renewal waits.
use ws2tcp_local_core.Base.{
  ℕ, ◌+◌, ◌-◌, ◌*◌, ◌^◌, ◌≤◌, ◌≡◌, ◌⊎◌, min, max, Option, none, some, arith,
}
use ws2tcp_local_core.Session.{second, Tokens, Service, World, done}
use ws2tcp_local_core.Session.Background.{background_delay, due_at, until_background_renewal}

-- The delay after a failed background renewal is five seconds, doubled for every failure in a row
-- before it, and at most 300 seconds: the saturating operations never show.
pub background_delay-doubles :
    (failures : ℕ) → background_delay failures ≡ min (5 * second * 2 ^ failures) (300 * second)
unfolding background_delay
background_delay-doubles failures = ground arith

-- when the tokens are to be renewed: without tokens at once
abbrev pub renewal_of : ℕ → Option Tokens → ℕ
renewal_of time none = time
renewal_of time (some t) = t.renew_at

-- not before the time that is given
abbrev pub NotBefore : Option ℕ → ℕ → Type 0
NotBefore none end = Unit
NotBefore (some retry_at) end = retry_at ≤ end

-- what a wait that is not the least one ends at
abbrev pub EndsAt : ℕ → Option ℕ → ℕ → Type 0
EndsAt renewal none end = end ≡ renewal
EndsAt renewal (some retry_at) end = (end ≡ renewal) ⊎ (end ≡ retry_at)

-- The wait before a background renewal is at least one second, and ends neither before the tokens
-- are to be renewed nor before `retry_at`, where there is one; a longer wait ends at one of
-- these.
pub until_background_renewal_lem :
    (service : Service) (retry_at : Option ℕ) (w w' : World) (wait : ℕ)
    → until_background_renewal service retry_at w ≡ (done wait, w')
    → (second ≤ wait)
      × (renewal_of (service.clock w.reads) w.tokens ≤ service.clock w.reads + wait)
      × NotBefore retry_at (service.clock w.reads + wait)
      × ((wait ≡ second)
          ⊎ EndsAt
              (renewal_of (service.clock w.reads) w.tokens)
              retry_at
              (service.clock w.reads + wait))
unfolding until_background_renewal due_at
until_background_renewal_lem service retry_at w w' wait h =
    by_state w.tokens retry_at (ground arith)
  where
    time : ℕ
    time = service.clock w.reads

    by_state :
        (o : Option Tokens) (r : Option ℕ)
        → max (due_at time o r - time) second ≡ wait
        → (second ≤ wait)
          × (renewal_of time o ≤ time + wait)
          × NotBefore r (time + wait)
          × ((wait ≡ second) ⊎ EndsAt (renewal_of time o) r (time + wait))
    by_state none none h = ground arith
    by_state (some t) none h = ground arith
    by_state none (some r) h = ground arith
    by_state (some t) (some r) h = ground arith
