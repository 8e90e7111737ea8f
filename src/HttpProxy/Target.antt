-- ===== src/HttpProxy/Target.antt =====
-- What `validate_authority` accepts is what `split_authority` of src/routing_rules.rs takes apart.
use mathlib.Core.List.{append_assoc}
use ws2tcp_local_core.Base.{
  ℕ, ◌<◌, ◌≡◌, ◌≢◌, ◌⊎◌, sym, ap, ◌∙◌, false, [], ◌∷◌, ◌++◌, none, some, ok, ok_or, ◌+◌, take, drop,
  >>=-eq-ok, arith, inl, inr, Option-cases,
}
use ws2tcp_local_core.Text.{Text, Bytes, lit, is_empty}
use ws2tcp_local_core.Text.Split.{strip_prefix, split_once_at, rsplit_once}
use ws2tcp_local_core.Text.Number.{parse_u16, parse_u16-lt}
use ws2tcp_local_core.Text.Cuts.{
  strip_prefix-eq_some, split_once_at-eq_some, rsplit_once-eq_some, rsplit_once-append,
  parse_u16-contains,
}
use ws2tcp_local_core.Text.Lines.{lines}
use ws2tcp_local_core.Text.Utf8.{from_utf8}
use ws2tcp_local_core.Url.{UrlParser}
use ws2tcp_local_core.HttpProxy.{ProxyRequest, authority, empty_request, header_not_utf8}
use ws2tcp_local_core.HttpProxy.Parse.{
  RequestLine, first_line, parse_request_line, parse_http_proxy_request, parse_proxy_request,
}
use ws2tcp_local_core.HttpProxy.Read.{Reads, fill, read_proxy_request}
use ws2tcp_local_core.HttpProxy.Authority.{validate_authority, parse_port}
use ws2tcp_local_core.Routing.Authority.{host_from_authority, split_authority}

-- `authority` is `host:p` or `[host]:p`, and `p` is the text of `port`.
pub record Names (authority host : Text) (port : ℕ) : Type 0 where
  pub host_is : host_from_authority authority ≡ ok host
  pub splits : split_authority authority ≡ ok (host, port)
  pub host_ne : host ≢ []
  pub port_lt : port < 65536
  pub port_text : Text
  pub port_reads : parse_u16 port_text ≡ some port
  pub form :
      (authority ≡ host ++ (b':' ∷ port_text))
      ⊎ (authority ≡ b'[' ∷ (host ++ (lit "]:" ++ port_text)))

is_empty-ne : (s : Text) → is_empty s ≡ false → s ≢ []
unfolding is_empty
is_empty-ne [] h e = cc
is_empty-ne (c ∷ s) h e = cc

-- a successful check of a port
parse_port-reads : (p : Text) → parse_port p ≡ ok tt → (n : ℕ) × (parse_u16 p ≡ some n)
unfolding parse_port
parse_port-reads p h = elim (Option-cases (parse_u16 p)) [
  | inl e ↦ cc (rw (e, parse_port) at h)
  | inr (n, e) ↦ (n, e)
]

module _ (a : Text) where
  plain-Names :
      (host p : Text) (n : ℕ)
      → strip_prefix (b'[' ∷ []) a ≡ none
      → rsplit_once b':' a ≡ some (host, p)
      → is_empty host ≡ false
      → parse_u16 p ≡ some n
      → Names a host n
  unfolding host_from_authority split_authority
  plain-Names host p n e f ne r = record {
    host_is = rw (e, f, host_from_authority);
    splits = rw (e, f, r, split_authority, host_from_authority);
    host_ne = is_empty-ne host ne;
    port_lt = parse_u16-lt p n r;
    port_text = p;
    port_reads = r;
    form = inl (rsplit_once-eq_some b':' a host p f).0;
  }

  bracketed-Names :
      (rest host p : Text) (n : ℕ)
      → strip_prefix (b'[' ∷ []) a ≡ some rest
      → split_once_at (lit "]:") rest ≡ some (host, p)
      → is_empty host ≡ false
      → parse_u16 p ≡ some n
      → Names a host n
  unfolding host_from_authority split_authority
  bracketed-Names rest host p n e f ne r = record {
    host_is = rw (e, f, host_from_authority);
    splits = rw (e, f, last, r, split_authority, host_from_authority);
    host_ne = is_empty-ne host ne;
    port_lt = parse_u16-lt p n r;
    port_text = p;
    port_reads = r;
    form = inr whole;
  }
    where
      whole : a ≡ b'[' ∷ (host ++ (lit "]:" ++ p))
      whole =
          strip_prefix-eq_some (b'[' ∷ []) a rest e
          ∙ ap (λ s. b'[' ∷ s) (split_once_at-eq_some (lit "]:") rest host p f)

      last : rsplit_once b':' a ≡ some (b'[' ∷ (host ++ lit "]"), p)
      last =
          ap (rsplit_once b':')
            (whole ∙ ap (λ s. b'[' ∷ s) (sym (append_assoc host (lit "]") (b':' ∷ p))))
          ∙ rsplit_once-append b':' (b'[' ∷ (host ++ lit "]")) p (parse_u16-contains p n r)

  -- An authority that `validate_authority` accepts is taken apart without error by
  -- `host_from_authority` and `split_authority`: into a host that is not empty and a port of 16
  -- bits, of which the authority is made as `host:port` or `[host]:port`.
  pub validate_authority-Names :
      validate_authority a ≡ ok tt → (host : Text) × (port : ℕ) × Names a host port
  unfolding validate_authority
  validate_authority-Names h = elim (Option-cases (strip_prefix (b'[' ∷ []) a)) [
    | inr (rest, e) ↦ elim (Option-cases (split_once_at (lit "]:") rest)) [
      | inl f ↦ absurd (ground arith)
      | inr ((host, p), f) ↦
          let (n, r) = parse_port-reads p (ground arith) in
          (host, n, bracketed-Names rest host p n e f (ground arith) r)
    ]
    | inl e ↦ elim (Option-cases (rsplit_once b':' a)) [
      | inl f ↦ absurd (ground arith)
      | inr ((host, p), f) ↦
          let (n, r) = parse_port-reads p (ground arith) in
          (host, n, plain-Names host p n e f (ground arith) r)
    ]
  ]

module _ (parse_url : UrlParser) where
  http-validates :
      (header : Text) (line : RequestLine) (leftover : Bytes) (r : ProxyRequest)
      → parse_http_proxy_request parse_url header line leftover ≡ ok r
      → validate_authority (authority r) ≡ ok tt
  unfolding parse_http_proxy_request authority
  http-validates header line leftover r h = ground arith

  parse_proxy_request-validates :
      (header : Text) (leftover : Bytes) (r : ProxyRequest)
      → parse_proxy_request parse_url header leftover ≡ ok r
      → validate_authority (authority r) ≡ ok tt
  unfolding parse_proxy_request authority
  parse_proxy_request-validates header leftover r h =
      let (first, _, h₁) = >>=-eq-ok (ok_or empty_request (first_line (lines header))) _ h in
      let (line, _, h₂) = >>=-eq-ok (parse_request_line first) _ h₁ in
      ground (arith, http-validates header line leftover r)

  -- The authority of a request that `read_proxy_request` returns is one that `handle_client` can
  -- take apart: `host_from_authority` and `split_authority` do not fail on it.
  pub read_proxy_request-Names :
      (reads left : Reads) (r : ProxyRequest)
      → read_proxy_request parse_url reads ≡ ok (r, left)
      → (host : Text) × (port : ℕ) × Names (authority r) host port
  unfolding read_proxy_request
  read_proxy_request-Names reads left r h =
      let (filled, _, h₁) = >>=-eq-ok (fill [] reads) _ h in
      let (header, _, h₂) =
        >>=-eq-ok (ok_or header_not_utf8 (from_utf8 (take filled.pos filled.buffer))) _ h₁ in
      let (q, p, h₃) =
        >>=-eq-ok (parse_proxy_request parse_url header (drop (filled.pos + 4) filled.buffer)) _
          h₂ in
      validate_authority-Names (authority r) (
        parse_proxy_request-validates header (drop (filled.pos + 4) filled.buffer) r
          (ground (arith, p)))
