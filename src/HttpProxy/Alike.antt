-- ===== src/HttpProxy/Alike.antt =====
-- Names of header fields that are alike but for case: they are stripped alike.
use ws2tcp_local_core.Base.{◌≡◌, refl, sym, ◌∙◌, true, false, arith, inl, inr, Bool-cases}
use ws2tcp_local_core.Text.{Text, lit, to_ascii_lowercase, eq_ignore_ascii_case}
use ws2tcp_local_core.Text.Equal.{eq_ignore_ascii_case_iff, eq_ignore_ascii_case_left}
use ws2tcp_local_core.HttpProxy.Header.{should_strip_http_proxy_header}

-- Names that are alike but for case are stripped alike.
pub strip_same :
    (a b : Text)
    → eq_ignore_ascii_case a b ≡ true
    → should_strip_http_proxy_header a ≡ should_strip_http_proxy_header b
unfolding should_strip_http_proxy_header
strip_same a b h = rw (
  eq_ignore_ascii_case_left a b (lit "connection") h,
  eq_ignore_ascii_case_left a b (lit "keep-alive") h,
  eq_ignore_ascii_case_left a b (lit "proxy-authenticate") h,
  eq_ignore_ascii_case_left a b (lit "proxy-authorization") h,
  eq_ignore_ascii_case_left a b (lit "proxy-connection") h,
  eq_ignore_ascii_case_left a b (lit "te") h,
  eq_ignore_ascii_case_left a b (lit "trailer") h,
  eq_ignore_ascii_case_left a b (lit "upgrade") h,
)

pub eq_ignore_ascii_case_sym :
    (a b : Text) → eq_ignore_ascii_case a b ≡ true → eq_ignore_ascii_case b a ≡ true
eq_ignore_ascii_case_sym a b h =
    (eq_ignore_ascii_case_iff b a).1 (sym ((eq_ignore_ascii_case_iff a b).0 h))

pub host_not_stripped :
    (n : Text)
    → eq_ignore_ascii_case n (lit "host") ≡ true
    → should_strip_http_proxy_header n ≡ false
host_not_stripped n h =
    strip_same n (lit "host") h
    ∙ (unfold should_strip_http_proxy_header eq_ignore_ascii_case to_ascii_lowercase in refl)

pub host_cases : eq_ignore_ascii_case (lit "Host") (lit "host") ≡ true
unfolding eq_ignore_ascii_case to_ascii_lowercase
host_cases = refl

-- a stripped name is not alike to one that is kept
pub strip-not-alike :
    (a name : Text)
    → should_strip_http_proxy_header name ≡ false
    → should_strip_http_proxy_header a ≡ true
    → eq_ignore_ascii_case a name ≡ false
strip-not-alike a name k s = elim (Bool-cases (eq_ignore_ascii_case a name)) [
  | inl e ↦ absurd (ground (arith, strip_same a name e))
  | inr e ↦ e
]
