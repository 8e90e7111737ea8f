-- ===== src/Session/Outcome.antt =====
-- What the operations of the session do to the tokens and which requests they send.
use ws2tcp_local_core.Base.{
  ℕ, suc, ◌+◌, ◌*◌, ◌≤◌, ◌<◌, ◌≡◌, ◌⊎◌, inl, inr, refl, sym, ◌∙◌, Bool, true, false, ◌∷◌, Option,
  none, some, arith, ltb, Bool-cases,
}
use ws2tcp_local_core.Text.{Text, Bytes}
use ws2tcp_local_core.Session.{
  second, Tokens, TokenResponse, Request, Answer, no_answer, answer, Service, World, Exit, done,
  fails, panicked, and_then, Ends, and_then-Ends, Ends-done, Ends-fails, RequestError, rejected,
  failed,
}
use ws2tcp_local_core.Session.Response.{
  duration_mul, instant_add, is_token, into_tokens, bearer, bearer_text,
}
use ws2tcp_local_core.Session.Renew.{
  accept, request, after_refresh, renew_by, renew_state, log_in, renew,
}

module _ (service : Service) where
  -- a request leaves the tokens and is sent once
  request-world :
      (url a : Text) (w : World)
      → ((request service url a w).1.tokens ≡ w.tokens)
        × ((request service url a w).1.requests
            ≡ record { url = url; authorization = a } ∷ w.requests)
  unfolding request
  request-world url a w = ground arith

  -- issued at `time` as the response `p` says: its tokens, which are printable, and its lifetimes;
  -- the renewal is due after four fifths of the time
  unfoldable pub IsIssued : ℕ → TokenResponse → Tokens → Type 0
  IsIssued time p t =
      (is_token t.access ≡ true)
      × (is_token t.refresh ≡ true)
      × (t.access ≡ p.access_token)
      × (t.refresh ≡ p.refresh_token)
      × (t.access_expires ≡ time + p.expires_in * second)
      × (t.refresh_expires ≡ time + p.refresh_expires_in * second)
      × (5 * t.renew_at ≡ time + 4 * t.access_expires)
      × (time ≤ t.renew_at)
      × (t.renew_at ≤ t.access_expires)

  into_tokens-IsIssued :
      (r : TokenResponse) (time : ℕ) (t : Tokens)
      → into_tokens service r time ≡ done t
      → IsIssued time r t
  unfolding into_tokens duration_mul instant_add IsIssued
  into_tokens-IsIssued r time t h = ground arith

  -- a reading of the clock between two worlds
  abbrev pub During : World → World → ℕ → Type 0
  During w w' n = (w.reads ≤ n) × (n < w'.reads)

  -- the gateway's answer to the request of this number: a success with a body that is parsed
  pub record Answers (number : ℕ) (r : Request) (p : TokenResponse) : Type 0 where
    pub status : ℕ
    pub content_length : Option ℕ
    pub body : Bytes
    pub answered : service.gateway number r ≡ answer status content_length (some body)
    pub is_success : (200 ≤ status) × (status ≤ 299)
    pub parsed : service.from_slice body ≡ some p

  accept-Answers :
      (number : ℕ) (r : Request) (p : TokenResponse)
      → accept service (service.gateway number r) ≡ done p
      → Answers number r p
  unfolding accept
  accept-Answers number r p = by_answer (service.gateway number r) refl
    where
      by_answer :
          (a : Answer)
          → service.gateway number r ≡ a
          → accept service a ≡ done p
          → Answers number r p
      by_answer no_answer e h = absurd (ground arith)
      by_answer (answer status length none) e h = absurd (ground arith)
      by_answer (answer status length (some body)) e h = record {
        status = status;
        content_length = length;
        body = body;
        answered = e;
        is_success = ground arith;
        parsed = ground arith;
      }

  -- tokens that the gateway gave in answer to `r`, which was sent between two worlds
  pub record Given (r : Request) (w : World) (t : Tokens) (w' : World) : Type 0 where
    pub reading : ℕ
    pub read : During w w' reading
    pub number : ℕ
    pub sent : (w.count ≤ number) × (number < w'.count)
    pub response : TokenResponse
    pub answers : Answers number r response
    pub is_issued : IsIssued (service.clock reading) response t

  -- the tokens are those of `w`; neither the clock nor the requests have gone back
  abbrev pub Kept : World → World → Type 0
  Kept w w' = (w'.tokens ≡ w.tokens) × (w.reads ≤ w'.reads) × (w.count ≤ w'.count)

  Given-later :
      (r : Request) (w v w' : World) (t : Tokens) → Kept w v → Given r v t w' → Given r w t w'
  Given-later r w v w' t (_, l, m) g = record {
    reading = g.reading;
    read = (omega (arith, l, g.read), g.read.1);
    number = g.number;
    sent = (omega (arith, m, g.sent), g.sent.1);
    response = g.response;
    answers = g.answers;
    is_issued = g.is_issued;
  }

  Given-put :
      (r : Request) (w w' : World) (t : Tokens) (o : Option Tokens)
      → Given r w t w'
      → Given r w t (record w' { tokens = o })
  Given-put r w w' t o g = record {
    reading = g.reading;
    read = g.read;
    number = g.number;
    sent = g.sent;
    response = g.response;
    answers = g.answers;
    is_issued = g.is_issued;
  }

  abbrev pub request_of : Text → Text → Request
  request_of url authorization = record { url = url; authorization = authorization }

  abbrev pub login_request : Request
  login_request = request_of service.login_url service.basic_auth

  abbrev pub refresh_request : Tokens → Request
  refresh_request t = request_of service.refresh_url (bearer_text t.refresh)

  -- the tokens of a world were given since `w`, for the credentials or for the refresh token of `w`
  abbrev pub Renewed : World → Tokens → World → Type 0
  Renewed w t w' =
      Given login_request w t w'
      ⊎ ((old : Tokens) × (w.tokens ≡ some old) × Given (refresh_request old) w t w')

  pub Renewed-later : (w v w' : World) (t : Tokens) → Kept w v → Renewed v t w' → Renewed w t w'
  Renewed-later w v w' t k (inl g) = inl (Given-later login_request w v w' t k g)
  Renewed-later w v w' t k (inr (old, h, g)) =
      inr (old, sym k.0 ∙ h, Given-later (refresh_request old) w v w' t k g)

  -- what one request does to the world
  Requested : Request → World → Tokens → World → Type 0
  Requested r w t w' = Given r w t w' × Kept w w' × (w'.requests ≡ r ∷ w.requests)

  request-Ends :
      (url a : Text) (w : World)
      → Ends
          (λ t w'. Requested (request_of url a) w t w')
          (λ _ w'. Kept w w')
          (request service url a w)
  unfolding request Requested
  request-Ends url a w =
      by_answer (accept service (service.gateway w.count r)) (accept-Answers w.count r)
    where
      r : Request
      r = request_of url a

      after : World
      after = record w { count = suc w.count; requests = r ∷ w.requests }

      by_tokens :
          (p : TokenResponse)
          → Answers w.count r p
          → (x : Exit Tokens) → ((t : Tokens) → x ≡ done t → IsIssued (service.clock w.reads) p t)
          → Ends
              (λ t w'. Requested r w t w')
              (λ _ w'. Kept w w')
              (x, record after { reads = suc w.reads })
      by_tokens p k (done t) h = (
        record {
          reading = w.reads;
          read = (omega arith, omega arith);
          number = w.count;
          sent = (omega arith, omega arith);
          response = p;
          answers = k;
          is_issued = h t refl;
        },
        (refl, omega arith, omega arith),
        refl,
      )
      by_tokens p k (fails e) h = (refl, omega arith, omega arith)
      by_tokens p k panicked h = tt

      by_answer :
          (x : Exit TokenResponse)
          → ((p : TokenResponse) → x ≡ done p → Answers w.count r p)
          → Ends
              (λ t w'. Requested r w t w')
              (λ _ w'. Kept w w')
              (and_then
                (x, after)
                λ parsed v. (
                  into_tokens service parsed (service.clock v.reads),
                  record v { reads = suc v.reads },
                ))
      by_answer (done parsed) k =
          by_tokens parsed (k parsed refl) (into_tokens service parsed (service.clock w.reads))
            (into_tokens-IsIssued parsed (service.clock w.reads))
      by_answer (fails e) k = (refl, omega arith, omega arith)
      by_answer panicked k = tt

  -- a login: one request with the credentials, whose answer gave the tokens
  pub record LoggedIn (w w' : World) : Type 0 where
    pub tokens : Tokens
    pub held : w'.tokens ≡ some tokens
    pub given : Given login_request w tokens w'
    pub asked : w'.requests ≡ login_request ∷ w.requests

  pub log_in-Ends :
      (w : World) → Ends (λ _ w'. LoggedIn w w') (λ _ w'. Kept w w') (log_in service w)
  unfolding log_in Requested
  log_in-Ends w =
      and_then-Ends (λ t w'. Requested login_request w t w') (λ _ w'. Kept w w') _ _
        (request service service.login_url service.basic_auth w) _
        (request-Ends service.login_url service.basic_auth w)
        (λ t w' h. record {
          tokens = t;
          held = refl;
          given = Given-put login_request w w' t (some t) h.0;
          asked = h.2;
        })
        (λ e w' h. h)

  -- a renewal: fresh tokens, or an error and the tokens as they were
  abbrev pub Fresh : World → World → Type 0
  Fresh w w' = (t : Tokens) × (w'.tokens ≡ some t) × Renewed w t w'

  LoggedIn-Fresh :
      (w : World) (x : Exit (Unit {0}) × World)
      → Ends (λ _ w'. LoggedIn w w') (λ _ w'. Kept w w') x
      → Ends (λ _ w'. Fresh w w') (λ _ w'. Kept w w') x
  LoggedIn-Fresh w (done _, w') h = (h.tokens, h.held, inl h.given)
  LoggedIn-Fresh w (fails _, w') h = h
  LoggedIn-Fresh w (panicked, w') h = tt

  pub Kept-later : (w v w' : World) → Kept w v → Kept v w' → Kept w w'
  Kept-later w v w' (e, l, m) (f, k, n) = (f ∙ e, omega (arith, l, k), omega (arith, m, n))

  -- an action that starts later than `w`, with the same tokens
  later-Ends :
      (w v : World)
      → Kept w v
      → (x : Exit (Unit {0}) × World) → Ends (λ _ w'. Fresh v w') (λ _ w'. Kept v w') x
      → Ends (λ _ w'. Fresh w w') (λ _ w'. Kept w w') x
  later-Ends w v k (done _, w') (t, e, g) = (t, e, Renewed-later w v w' t k g)
  later-Ends w v k (fails _, w') h = Kept-later w v w' k h
  later-Ends w v k (panicked, w') h = tt

  after_refresh-Ends :
      (w : World) (old : Tokens)
      → w.tokens ≡ some old
      → (x : Exit Tokens × World)
      → Ends (λ t w'. Requested (refresh_request old) w t w') (λ _ w'. Kept w w') x
      → Ends (λ _ w'. Fresh w w') (λ _ w'. Kept w w') (after_refresh service x)
  unfolding Requested
  after_refresh-Ends w old o (done t, w') h =
      (t, refl, inr (old, o, Given-put (refresh_request old) w w' t (some t) h.0))
  after_refresh-Ends w old o (fails (failed reason), w') h = h
  after_refresh-Ends w old o (panicked, w') h = tt
  after_refresh-Ends w old o (fails rejected, w') h =
      later-Ends w w' h (log_in service w') (LoggedIn-Fresh w' (log_in service w') (log_in-Ends w'))

  renew_by-Ends :
      (b : Bool) (tokens : Tokens) (w : World)
      → w.tokens ≡ some tokens
      → Ends (λ _ w'. Fresh w w') (λ _ w'. Kept w w') (renew_by service b tokens w)
  unfolding bearer
  renew_by-Ends false tokens w o = LoggedIn-Fresh w (log_in service w) (log_in-Ends w)
  renew_by-Ends true tokens w o =
      elim (Bool-cases (service.is_header (bearer_text tokens.refresh))) [
        | inl e ↦ rw e (
            after_refresh-Ends w tokens o _
              (request-Ends service.refresh_url (bearer_text tokens.refresh) w))
        | inr e ↦ rw e tt
      ]

  pub renew-Ends : (w : World) → Ends (λ _ w'. Fresh w w') (λ _ w'. Kept w w') (renew service w)
  unfolding renew
  renew-Ends w = by_state w.tokens refl
    where
      by_state :
          (o : Option Tokens)
          → w.tokens ≡ o
          → Ends (λ _ w'. Fresh w w') (λ _ w'. Kept w w') (renew_state service o w)
      by_state none h = LoggedIn-Fresh w (log_in service w) (log_in-Ends w)
      by_state (some tokens) h =
          later-Ends w (record w { reads = suc w.reads }) (refl, omega arith, omega arith) _
            (renew_by-Ends (ltb (service.clock w.reads) tokens.refresh_expires) tokens
              (record w { reads = suc w.reads }) h)

  -- A renewal that succeeds leaves the tokens of an answer of the gateway that came during it, to
  -- the credentials or to the refresh token held before, with the lifetimes that the answer gives,
  -- counted from a reading of the clock during it; the next renewal is due after four fifths of
  -- the lifetime of the access token.
  pub renew-Renewed :
      (w w' : World)
      → renew service w ≡ (done tt, w')
      → (t : Tokens) × (w'.tokens ≡ some t) × Renewed w t w'
  renew-Renewed w w' =
      Ends-done (λ _ v. Fresh w v) (λ _ v. Kept w v) (renew service w) w' tt (renew-Ends w)

  -- A renewal that fails leaves the tokens as they were.
  pub renew-tokens :
      (w w' : World) (e : RequestError) → renew service w ≡ (fails e, w') → w'.tokens ≡ w.tokens
  renew-tokens w w' e h =
      (Ends-fails (λ _ v. Fresh w v) (λ _ v. Kept w v) (renew service w) w' e (renew-Ends w) h).0
