-- ===== src/Session/Rejected.antt =====
-- What `TokenSession::rejected` does to the tokens.
use mathlib.Core.Option.{some-injective}
use ws2tcp_local_core.Base.{
  suc, ◌≤◌, ◌≡◌, refl, ap, sym, ◌∙◌, ◌≢◌, true, Option, none, some, arith, Bool-cases, inl, inr,
}
use ws2tcp_local_core.Text.{Text, lit, equal}
use ws2tcp_local_core.Text.Equal.{equal_iff}
use ws2tcp_local_core.Text.Cuts.{strip_prefix-append}
use ws2tcp_local_core.Session.{Tokens, Service, World, done}
use ws2tcp_local_core.Session.Response.{bearer_text}
use ws2tcp_local_core.Session.Renew.{is_due, reject_state, rejected_by_gateway}

module _ (service : Service) where
  -- After the gateway has rejected the access token in use, the next look at the tokens finds
  -- them due, where the clock does not go back.
  pub rejected_by_gateway-is_due :
      (w : World) (t : Tokens)
      → w.tokens ≡ some t
      → service.clock w.reads ≤ service.clock (suc w.reads)
      → (is_due service
          (rejected_by_gateway service (bearer_text t.access) w).1.tokens
          (rejected_by_gateway service (bearer_text t.access) w).1).0
        ≡ done true
  unfolding rejected_by_gateway
  rejected_by_gateway-is_due w t h k = by_state w.tokens h
    where
      by_state :
          (o : Option Tokens)
          → o ≡ some t
          → (is_due service
              (reject_state service (bearer_text t.access) o w).1.tokens
              (reject_state service (bearer_text t.access) o w).1).0
            ≡ done true
      by_state none e = cc
      by_state (some u) e =
          let same =
            (equal_iff t.access u.access).1 (sym (ap (λ x. x.access) (some-injective _ _ e))) in
          rw (strip_prefix-append (lit "Bearer ") t.access, same) (ground arith)

  -- A rejection of another token than the one in use changes nothing.
  pub rejected_by_gateway-other :
      (w : World) (t : Tokens) (token : Text)
      → w.tokens ≡ some t
      → token ≢ t.access
      → rejected_by_gateway service (bearer_text token) w ≡ (done tt, w)
  unfolding rejected_by_gateway
  rejected_by_gateway-other w t token h k = by_state w.tokens h
    where
      by_state :
          (o : Option Tokens)
          → o ≡ some t
          → reject_state service (bearer_text token) o w ≡ (done tt, w)
      by_state none e = cc
      by_state (some u) e = elim (Bool-cases (equal token u.access)) [
        | inl b ↦
            absurd (k ((equal_iff token u.access).0 b ∙ ap (λ x. x.access) (some-injective _ _ e)))
        | inr b ↦ rw (strip_prefix-append (lit "Bearer ") token, b) refl
      ]
