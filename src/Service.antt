-- ===== src/Service.antt =====
-- src/service.rs: what `run_proxy_with_updates` does before it serves, and the switch of the HTTP/3 mode.
-- The listeners, the tasks that serve clients (`Tunnel`) and the rules (`Routing`) are left out.
pub mod Startup
use ws2tcp_local_core.Base.{
  ℕ, ◌≡◌, ◌⊎◌, refl, sym, ap, ◌∙◌, Bool, true, false, List, [], ◌∷◌, Option, none, some, Result, ok,
  err, arith, inl, inr, Bool-cases, Option-cases,
}
use ws2tcp_local_core.Text.{Text, lit}
use ws2tcp_local_core.Text.Split.{starts_with}
use ws2tcp_local_core.Url.{UrlParser}
use ws2tcp_local_core.Gateway.{Gateway, parse}
use ws2tcp_local_core.Gateway as Gateways
use ws2tcp_local_core.Http3.{Mode, off, preferred, only}

-- why HTTP/3 cannot be used
pub data Unusable : Type 0 where
  not_wss has_upstream_proxy : Unusable

abbrev why : Bool → Bool → Option Unusable
why false _ = some not_wss
why true true = some has_upstream_proxy
why true false = none

unfoldable pub http3_unusable : Gateway → Bool → Option Unusable
http3_unusable gateway has_proxy = why (starts_with (lit "wss://") gateway.base) has_proxy

unfoldable pub http3_unusable_for : UrlParser → Text → Bool → Option Unusable
http3_unusable_for parse_url gateway has_proxy = elim (parse parse_url gateway) [
  | err _ ↦ none
  | ok g ↦ http3_unusable g has_proxy
]

abbrev pub off_where : Option Unusable → Mode
off_where none = preferred
off_where (some _) = off

unfoldable pub http3_mode : UrlParser → Mode → Text → Bool → Mode
http3_mode parse_url preferred gateway has_proxy =
    off_where (http3_unusable_for parse_url gateway has_proxy)
http3_mode parse_url off gateway has_proxy = off
http3_mode parse_url only gateway has_proxy = only

abbrev pub only_where : Option Unusable → Result Unusable Mode
only_where none = ok only
only_where (some reason) = err reason

-- the mode that the proxy starts with: the match on `settings.http3`
unfoldable pub start_mode : Mode → Gateway → Bool → Result Unusable Mode
start_mode off gateway has_proxy = ok off
start_mode preferred gateway has_proxy = ok (off_where (http3_unusable gateway has_proxy))
start_mode only gateway has_proxy = only_where (http3_unusable gateway has_proxy)

-- an update of the mode while the proxy runs: the switch, with whether HTTP/3 can be used
unfoldable pub update_mode : Option Unusable → Mode → Mode → Mode
update_mode none mode current = mode
update_mode (some _) off current = off
update_mode (some _) mode current = current

unfoldable pub update_modes : Option Unusable → List Mode → Mode → Mode
update_modes usable [] current = current
update_modes usable (mode ∷ modes) current =
    update_modes usable modes (update_mode usable mode current)

-- HTTP/3 is off, or can be used
abbrev pub IsUsable : Option Unusable → Mode → Type 0
IsUsable unusable mode = (mode ≡ off) ⊎ (unusable ≡ none)

update_modes-IsUsable :
    (unusable : Option Unusable) (modes : List Mode) (current : Mode)
    → IsUsable unusable current
    → IsUsable unusable (update_modes unusable modes current)
unfolding update_modes update_mode
update_modes-IsUsable unusable [] current h = h
update_modes-IsUsable none (mode ∷ modes) current h =
    update_modes-IsUsable none modes mode (inr refl)
update_modes-IsUsable (some r) (off ∷ modes) current h =
    update_modes-IsUsable (some r) modes off (inl refl)
update_modes-IsUsable (some r) (preferred ∷ modes) current h =
    update_modes-IsUsable (some r) modes current h
update_modes-IsUsable (some r) (only ∷ modes) current h =
    update_modes-IsUsable (some r) modes current h

start_mode-IsUsable :
    (mode started : Mode) (gateway : Gateway) (has_proxy : Bool)
    → start_mode mode gateway has_proxy ≡ ok started
    → IsUsable (http3_unusable gateway has_proxy) started
unfolding start_mode
start_mode-IsUsable off started gateway has_proxy h = inl (ground arith)
start_mode-IsUsable preferred started gateway has_proxy h =
    by_reason (http3_unusable gateway has_proxy) h
  where
    by_reason :
        (o : Option Unusable)
        → ◌≡◌ {A = Result Unusable Mode} (ok (off_where o)) (ok started)
        → IsUsable o started
    by_reason none h = inr refl
    by_reason (some r) h = inl (ground arith)
start_mode-IsUsable only started gateway has_proxy h =
    by_reason (http3_unusable gateway has_proxy) h
  where
    by_reason : (o : Option Unusable) → only_where o ≡ ok started → IsUsable o started
    by_reason none h = inr refl
    by_reason (some r) h = absurd (ground arith)

-- Whatever the settings and the updates are, a proxy that starts has HTTP/3 on only where it can be
-- used: with a wss gateway and no upstream proxy.
pub modes-IsUsable :
    (mode started : Mode) (gateway : Gateway) (has_proxy : Bool) (modes : List Mode)
    → start_mode mode gateway has_proxy ≡ ok started
    → IsUsable
        (http3_unusable gateway has_proxy)
        (update_modes (http3_unusable gateway has_proxy) modes started)
modes-IsUsable mode started gateway has_proxy modes h =
    update_modes-IsUsable (http3_unusable gateway has_proxy) modes started
      (start_mode-IsUsable mode started gateway has_proxy h)

-- `http3_mode` tells the mode that the proxy starts with.
pub start_mode-http3_mode :
    (parse_url : UrlParser) (text : Text) (mode started : Mode) (gateway : Gateway)
    (has_proxy : Bool)
    → parse parse_url text ≡ ok gateway
    → start_mode mode gateway has_proxy ≡ ok started
    → http3_mode parse_url mode text has_proxy ≡ started
unfolding start_mode http3_mode http3_unusable_for
start_mode-http3_mode parse_url text off started gateway has_proxy p h = ground arith
start_mode-http3_mode parse_url text preferred started gateway has_proxy p h =
    rw (p, http3_unusable_for) (ground arith)
start_mode-http3_mode parse_url text only started gateway has_proxy p h =
    by_reason (http3_unusable gateway has_proxy) h
  where
    by_reason : (o : Option Unusable) → only_where o ≡ ok started → only ≡ started
    by_reason none h = ground arith
    by_reason (some r) h = absurd (ground arith)
