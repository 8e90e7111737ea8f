-- ===== src/Session.antt =====
-- The token session of src/session.rs: its data, and the world that it runs in. The children:
-- `Response` reads a token response, `Renew` holds the operations of `TokenSession`, `Auth` those of
-- `GatewayAuth`, `Background` the renewal task; `Outcome`, `Authorized`, `Rejected` and `Backoff`
-- are about them. The client's fixed headers are left out of a request.
-- Times are nanoseconds: an `Instant` counts from some origin. The mutex is held through every
-- operation, so each operation is one function of the state.
pub mod Response
pub mod Renew
pub mod Background
pub mod Outcome
pub mod Authorized
pub mod Rejected
pub mod Auth
pub mod Backoff
use mathlib.Core.Path.{subst}
use ws2tcp_local_core.Base.{ℕ, suc, ◌*◌, ◌+◌, ◌≤◌, ◌≡◌, Bool, List, ◌∷◌, Option, none, some, true}
use ws2tcp_local_core.Text.{Text, Bytes}

abbrev pub second : ℕ
second = 1000000000

abbrev pub max_response_bytes : ℕ
max_response_bytes = 64 * 1024

abbrev pub renew_retry_delay : ℕ
renew_retry_delay = 5 * second

abbrev pub min_background_interval : ℕ
min_background_interval = second

abbrev pub max_background_retry_delay : ℕ
max_background_retry_delay = 300 * second

pub record Tokens : Type 0 where
  pub access : Text
  pub refresh : Text
  pub renew_at : ℕ
  pub access_expires : ℕ
  pub refresh_expires : ℕ

pub record TokenResponse : Type 0 where
  pub access_token : Text
  pub expires_in : ℕ
  pub refresh_token : Text
  pub refresh_expires_in : ℕ

-- the reasons of `RequestError::Failed`
pub data Reason : Type 0 where
  unreachable : Reason
  http_status : ℕ → Reason
  too_large no_body malformed_response malformed_token : Reason

pub data RequestError : Type 0 where
  rejected : RequestError
  failed : Reason → RequestError

-- how a function ends; `panicked` for an overflow of the clock or an `expect`
pub data Exit (A : Type 0) : Type 0 where
  done : A → Exit A
  fails : RequestError → Exit A
  panicked : Exit A

pub record Request : Type 0 where
  pub url : Text
  pub authorization : Text

-- what the HTTP client makes of a request: no answer, or a status, the `Content-Length` if it is
-- given, and the body if it comes
pub data Answer : Type 0 where
  no_answer : Answer
  answer : ℕ → Option ℕ → Option Bytes → Answer

-- The clock, the gateway and the libraries. `clock n` is what the n-th `Instant::now()` gives and
-- `gateway n` answers the n-th request. `latest` is the last `Instant` there is; `is_header`
-- tells whether `HeaderValue::from_str` takes a text.
pub record Service : Type 0 where
  pub clock : ℕ → ℕ
  pub latest : ℕ
  pub gateway : ℕ → Request → Answer
  pub from_slice : Bytes → Option TokenResponse
  pub is_header : Text → Bool
  pub login_url : Text
  pub refresh_url : Text
  pub basic_auth : Text

-- The state: the tokens in the mutex, how often the clock was read, how many requests were
-- sent, and these, the last one first.
pub record World : Type 0 where
  pub tokens : Option Tokens
  pub reads : ℕ
  pub count : ℕ
  pub requests : List Request

abbrev pub Exec : Type 0 → Type 0
Exec A = World → Exit A × World

abbrev pub and_then : {A B : Type 0} → Exit A × World → (A → Exec B) → Exit B × World
and_then (done a, w) f = f a w
and_then (fails e, w) f = (fails e, w)
and_then (panicked, w) f = (panicked, w)

infixl 5 ◌>>=◌ ◌>>◌
abbrev pub ◌>>=◌ : {A B : Type 0} → Exec A → (A → Exec B) → Exec B
◌>>=◌ m f w = and_then (m w) f

abbrev pub ◌>>◌ : {B : Type 0} → Exec (Unit {0}) → Exec B → Exec B
m >> k = m >>= λ _. k

abbrev pub pure : {A : Type 0} → A → Exec A
pure a w = (done a, w)

abbrev pub fail : {A : Type 0} → RequestError → Exec A
fail e w = (fails e, w)

-- what a pure function comes to
abbrev pub lift : {A : Type 0} → Exit A → Exec A
lift x w = (x, w)

-- a library call that panics on `none`
abbrev pub expect : {A : Type 0} → Option A → Exec A
expect none w = (panicked, w)
expect (some a) w = (done a, w)

-- `?` of a function that panics or fails
abbrev pub bind_exit : {A B : Type 0} → Exit A → (A → Exit B) → Exit B
bind_exit (done a) f = f a
bind_exit (fails e) f = fails e
bind_exit panicked f = panicked

abbrev pub some_or_panic : {A : Type 0} → Option A → Exit A
some_or_panic none = panicked
some_or_panic (some a) = done a

abbrev pub get : Exec (Option Tokens)
get w = (done w.tokens, w)

abbrev pub put : Option Tokens → Exec (Unit {0})
put t w = (done tt, record w { tokens = t })

-- `Instant::now()`
abbrev pub now : Service → Exec ℕ
now service w = (done (service.clock w.reads), record w { reads = suc w.reads })

-- `client.post(url).header(AUTHORIZATION, authorization).send()`
abbrev pub send : Service → Request → Exec Answer
send service r w =
    (done (service.gateway w.count r), record w { count = suc w.count; requests = r ∷ w.requests })

-- What holds of how an action ended: `D` of a result, `F` of an error.
abbrev pub Ends :
    {A : Type 0} → (A → World → Type 0) → (RequestError → World → Type 0) → Exit A × World → Type 0
Ends D F (done a, w) = D a w
Ends D F (fails e, w) = F e w
Ends D F (panicked, w) = Unit

pub and_then-Ends :
    {A B : Type 0} (P : A → World → Type 0) (E : RequestError → World → Type 0)
    (D : B → World → Type 0) (F : RequestError → World → Type 0) (x : Exit A × World)
    (f : A → Exec B)
    → Ends P E x
    → ((a : A) (w : World) → P a w → Ends D F (f a w))
    → ((e : RequestError) (w : World) → E e w → F e w)
    → Ends D F (and_then x f)
and_then-Ends P E D F (done a, w) f p k l = k a w p
and_then-Ends P E D F (fails e, w) f p k l = l e w p
and_then-Ends P E D F (panicked, w) f p k l = tt

module _ {A : Type 0} (D : A → World → Type 0) (F : RequestError → World → Type 0)
    (x : Exit A × World) (w : World) where
  pub Ends-done : (a : A) → Ends D F x → x ≡ (done a, w) → D a w
  Ends-done a p e = subst (Ends D F) e p

  pub Ends-fails : (r : RequestError) → Ends D F x → x ≡ (fails r, w) → F r w
  Ends-fails r p e = subst (Ends D F) e p
