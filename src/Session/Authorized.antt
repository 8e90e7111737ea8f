-- ===== src/Session/Authorized.antt =====
-- What `TokenSession::authorization` gives and when it fails.
use mathlib.Core.Option.{some-injective}
use ws2tcp_local_core.Base.{
  ℕ, suc, ◌+◌, ◌≤◌, ◌<◌, ◌≡◌, ◌⊎◌, inl, inr, refl, sym, ap, ◌∙◌, true, Option, none, some, arith,
  leb, ltb, ltb→lt, Bool-cases,
}
use ws2tcp_local_core.Text.{Text}
use ws2tcp_local_core.Session.{
  renew_retry_delay, Tokens, Service, World, Exit, done, fails, panicked, and_then, Ends, Ends-done,
  Ends-fails, RequestError,
}
use ws2tcp_local_core.Session.Response.{instant_add, bearer_text}
use ws2tcp_local_core.Session.Renew.{
  renew, postpone, keep_current_state, keep_current, recover, renew_if, is_due, current,
  authorization,
}
use ws2tcp_local_core.Session.Outcome.{
  During, Renewed, Renewed-later, Kept, Kept-later, Fresh, renew-Ends,
}

module _ (service : Service) where
  -- the tokens that a renewal which failed leaves in use
  abbrev pub Postponed : World → Tokens → World → Type 0
  Postponed w t w' =
      (old : Tokens) × (w.tokens ≡ some old)
      × (t.access ≡ old.access)
      × ((n : ℕ) × During service w w' n × (service.clock n < old.access_expires))

  -- a renewal was tried between two worlds, from the tokens of the first, and failed
  pub record Tried (w w' : World) : Type 0 where
    pub before : World
    pub after : World
    pub error : RequestError
    pub failed : renew service before ≡ (fails error, after)
    pub since : Kept service w before
    pub until : (after.reads ≤ w'.reads) × (after.count ≤ w'.count)

  -- no token is left: there was none, or it has expired
  abbrev pub Exhausted : World → World → Type 0
  Exhausted w w' =
      (w.tokens ≡ none)
      ⊎ ((t : Tokens) × (w.tokens ≡ some t)
          × ((n : ℕ) × During service w w' n × (t.access_expires ≤ service.clock n)))

  abbrev Later : World → World → Type 0
  Later w w' = (w.reads ≤ w'.reads) × (w.count ≤ w'.count)

  postpone-Ends :
      (e : RequestError) (w : World) (t : Tokens)
      → w.tokens ≡ some t
      → Ends
          (λ _ w'. (u : Tokens) × (w'.tokens ≡ some u) × Postponed w u w' × Later w w')
          (λ _ w'. (w'.tokens ≡ w.tokens) × Exhausted w w')
          (postpone service
            (ltb (service.clock w.reads) t.access_expires)
            e
            t
            (record w { reads = suc w.reads }))
  unfolding instant_add
  postpone-Ends e w t h = elim (Bool-cases (ltb (service.clock w.reads) t.access_expires)) [
    | inl b ↦
        elim (Bool-cases (leb (service.clock (suc w.reads) + renew_retry_delay) service.latest)) [
          | inl c ↦
              rw (b, c)
                (
                  record t { renew_at = service.clock (suc w.reads) + renew_retry_delay },
                  refl,
                  (t, h, refl, (w.reads, (omega arith, omega arith), ltb→lt _ _ b)),
                  (omega arith, omega arith),
                )
          | inr c ↦ rw (b, c) tt
        ]
    | inr b ↦ rw b (refl, inr (t, h, (w.reads, (omega arith, omega arith), ground arith)))
  ]

  keep_current-Ends :
      (e : RequestError) (w : World)
      → Ends
          (λ _ w'. (t : Tokens) × (w'.tokens ≡ some t) × Postponed w t w' × Later w w')
          (λ _ w'. (w'.tokens ≡ w.tokens) × Exhausted w w')
          (keep_current service e w)
  unfolding keep_current
  keep_current-Ends e w = by_state w.tokens refl
    where
      by_state :
          (o : Option Tokens)
          → w.tokens ≡ o
          → Ends
              (λ _ w'. (t : Tokens) × (w'.tokens ≡ some t) × Postponed w t w' × Later w w')
              (λ _ w'. (w'.tokens ≡ w.tokens) × Exhausted w w')
              (keep_current_state service e o w)
      by_state none h = (refl, inl h)
      by_state (some t) h = postpone-Ends e w t h

  -- the session has tokens to use: those it had, or new ones
  abbrev pub Held : World → Tokens → World → Type 0
  Held w t w' = (w'.tokens ≡ some t) × ((Tried w w' × Postponed w t w') ⊎ Renewed service w t w')

  abbrev Lost : World → World → Type 0
  Lost w w' = (w'.tokens ≡ w.tokens) × Exhausted w w'

  Lost-later : (w v w' : World) → Kept service w v → Lost v w' → Lost w w'
  Lost-later w v w' k (e, inl h) = (e ∙ k.0, inl (sym k.0 ∙ h))
  Lost-later w v w' k (e, inr (t, h, (n, d, l))) =
      (e ∙ k.0, inr (t, sym k.0 ∙ h, (n, (omega (arith, k.1, d), d.1), l)))

  Postponed-later :
      (w v w' : World) (t : Tokens) → Kept service w v → Postponed v t w' → Postponed w t w'
  Postponed-later w v w' t k (old, h, a, (n, d, l)) =
      (old, sym k.0 ∙ h, a, (n, (omega (arith, k.1, d), d.1), l))

  Tried-later : (w v w' : World) → Kept service w v → Tried v w' → Tried w w'
  Tried-later w v w' k t = record {
    before = t.before;
    after = t.after;
    error = t.error;
    failed = t.failed;
    since = Kept-later service w v t.before k t.since;
    until = t.until;
  }

  Held-later : (w v w' : World) (t : Tokens) → Kept service w v → Held v t w' → Held w t w'
  Held-later w v w' t k (e, inl (tried, p)) =
      (e, inl (Tried-later w v w' k tried, Postponed-later w v w' t k p))
  Held-later w v w' t k (e, inr r) = (e, inr (Renewed-later service w v w' t k r))

  -- after a renewal was tried
  recover-Ends :
      (w : World) (x : Exit (Unit {0}) × World)
      → renew service w ≡ x
      → Ends (λ _ w'. Fresh service w w') (λ _ w'. Kept service w w') x
      → Ends (λ _ w'. (t : Tokens) × Held w t w') (λ _ w'. Lost w w') (recover service x)
  recover-Ends w (done _, w') failed (t, e, r) = (t, (e, inr r))
  recover-Ends w (panicked, w') failed h = tt
  recover-Ends w (fails e, w') failed h = kept (keep_current service e w') (keep_current-Ends e w')
    where
      tried : (v : World) → Later w' v → Tried w v
      tried v l = record {
        before = w;
        after = w';
        error = e;
        failed = failed;
        since = (refl, omega arith, omega arith);
        until = l;
      }

      kept :
          (x : Exit (Unit {0}) × World)
          → Ends
              (λ _ v. (t : Tokens) × (v.tokens ≡ some t) × Postponed w' t v × Later w' v)
              (λ _ v. Lost w' v)
              x
          → Ends (λ _ v. (t : Tokens) × Held w t v) (λ _ v. Lost w v) x
      kept (done _, v) (t, e, p, l) = (t, (e, inl (tried v l, Postponed-later w w' v t h p)))
      kept (fails _, v) l = Lost-later w w' v h l
      kept (panicked, v) l = tt

  -- what an authorization came from: tokens that were not due, or those held after a renewal
  abbrev pub Authorized : World → Text → World → Type 0
  Authorized w v w' =
      (t : Tokens) × (v ≡ bearer_text t.access)
      × (w'.tokens ≡ some t)
      × (((n : ℕ) × During service w w' n × (w.tokens ≡ some t) × (service.clock n < t.renew_at))
          ⊎ ((Tried w w' × Postponed w t w') ⊎ Renewed service w t w'))

  current-tokens :
      (w w' : World) (o : Option Tokens) (t : Tokens)
      → w'.tokens ≡ o
      → w'.tokens ≡ some t
      → ((n : ℕ) × During service w w' n × (w.tokens ≡ some t) × (service.clock n < t.renew_at))
        ⊎ ((Tried w w' × Postponed w t w') ⊎ Renewed service w t w')
      → Ends (λ s w'. Authorized w s w') (λ _ w'. Lost w w') (current service o w')
  current-tokens w w' none t k e h = cc
  current-tokens w w' (some u) t k e h =
      (t, ap (λ x. bearer_text x.access) (some-injective _ _ (sym k ∙ e)), e, h)

  current-Ends :
      (w : World) (x : Exit (Unit {0}) × World)
      → Ends (λ _ w'. (t : Tokens) × Held w t w') (λ _ w'. Lost w w') x
      → Ends
          (λ v w'. Authorized w v w')
          (λ _ w'. Lost w w')
          (and_then x λ _ w'. current service w'.tokens w')
  current-Ends w (done _, w') (t, (e, h)) = current-tokens w w' w'.tokens t refl e (inr h)
  current-Ends w (fails _, w') h = h
  current-Ends w (panicked, w') h = tt

  due-Ends :
      (w v : World)
      → Kept service w v
      → Ends
          (λ s w'. Authorized w s w')
          (λ _ w'. Lost w w')
          (and_then (renew_if service true v) λ _ w'. current service w'.tokens w')
  due-Ends w v k = current-Ends w (recover service (renew service v)) (
      moved (recover service (renew service v))
        (recover-Ends v (renew service v) refl (renew-Ends service v)))
    where
      moved :
          (x : Exit (Unit {0}) × World)
          → Ends (λ _ w'. (t : Tokens) × Held v t w') (λ _ w'. Lost v w') x
          → Ends (λ _ w'. (t : Tokens) × Held w t w') (λ _ w'. Lost w w') x
      moved (done _, w') (t, h) = (t, Held-later w v w' t k h)
      moved (fails _, w') l = Lost-later w v w' k l
      moved (panicked, w') l = tt

  authorization-Ends :
      (w : World) → Ends (λ s w'. Authorized w s w') (λ _ w'. Lost w w') (authorization service w)
  unfolding authorization
  authorization-Ends w = by_state w.tokens refl
    where
      by_state :
          (o : Option Tokens)
          → w.tokens ≡ o
          → Ends
              (λ s w'. Authorized w s w')
              (λ _ w'. Lost w w')
              (and_then
                (is_due service o w)
                λ due v. and_then (renew_if service due v) λ _ w'. current service w'.tokens w')
      by_state none h = due-Ends w w (refl, omega arith, omega arith)
      by_state (some t) h = elim (Bool-cases (leb t.renew_at (service.clock w.reads))) [
        | inl b ↦
            rw b (due-Ends w (record w { reads = suc w.reads }) (refl, omega arith, omega arith))
        | inr b ↦ rw b (
            current-tokens w (record w { reads = suc w.reads }) w.tokens t refl h
              (inl (w.reads, (omega arith, omega arith), h, ground arith)))
      ]

  -- An authorization is the Bearer text of the access token in the state, which is one that was
  -- not due yet, one that the gateway gave during the call, or the old one, where a renewal was
  -- tried and failed, and the token had not expired when the clock was read.
  pub authorization-Authorized :
      (w w' : World) (s : Text) → authorization service w ≡ (done s, w') → Authorized w s w'
  authorization-Authorized w w' s h =
      Ends-done (λ s v. Authorized w s v) (λ _ v. Lost w v) (authorization service w) w' s
        (authorization-Ends w) h

  -- Where a renewal fails and so does the authorization, the tokens are as they were, and there
  -- were none or the access token had expired when the clock was read.
  pub authorization-Exhausted :
      (w w' : World) (e : RequestError)
      → authorization service w ≡ (fails e, w')
      → (w'.tokens ≡ w.tokens) × Exhausted w w'
  authorization-Exhausted w w' e h =
      Ends-fails (λ s v. Authorized w s v) (λ _ v. Lost w v) (authorization service w) w' e
        (authorization-Ends w) h
