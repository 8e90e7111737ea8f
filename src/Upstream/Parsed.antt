-- ===== src/Upstream/Parsed.antt =====
-- What `parse` of src/upstream.rs makes of a URL.
use mathlib.Core.Path.{subst}
use mathlib.Core.Option.{some-injective}
use ws2tcp_local_core.Text.Split.{strip_prefix, strip_suffix}
use ws2tcp_local_core.Text.Cuts.{
  strip_prefix-append, strip_prefix-eq_some, strip_suffix-concat, strip_suffix-eq_some,
}
use ws2tcp_local_core.Base.{
  ℕ, ◌≡◌, ◌⊎◌, [], ◌++◌, refl, sym, ap, Option-cases, ◌∙◌, true, false, ◌||◌, Option, none, some,
  ok, ◌∷◌, ok_or, ok-injective, bail_if, >>=-eq-ok, arith, inl, inr, Bool-cases,
}
use ws2tcp_local_core.Text.{Text, lit, equal, is_empty, trim}
use ws2tcp_local_core.Text.Equal.{equal_iff}
use ws2tcp_local_core.Url.{Url, UrlParser}
use ws2tcp_local_core.Upstream.{
  invalid_url, has_path, no_host, has_rest, Kind, is_some, or_port, default_port, Error, http,
  socks5, socks5h, scheme, UpstreamProxy, parse_kind, non_empty, unbracketed, decoded, or_empty,
  bad_credentials, credentials_of, parse,
}

-- the kind is that of the scheme
parse_kind-scheme : (s : Text) (k : Kind) → parse_kind s ≡ ok k → s ≡ scheme k
unfolding parse_kind scheme
parse_kind-scheme s k h = elim (Bool-cases (equal s (lit "http"))) [
  | inl e ↦ let same : http ≡ k = ground arith in (equal_iff s (lit "http")).0 e ∙ ap scheme same
  | inr e ↦ elim (Bool-cases (equal s (lit "socks5"))) [
    | inl f ↦
        let same : socks5 ≡ k = ground arith in (equal_iff s (lit "socks5")).0 f ∙ ap scheme same
    | inr f ↦ elim (Bool-cases (equal s (lit "socks5h"))) [
      | inl g ↦
          let same : socks5h ≡ k = ground arith in
          (equal_iff s (lit "socks5h")).0 g ∙ ap scheme same
      | inr g ↦ absurd (ground arith)
    ]
  ]
]

is_none : (o : Option Text) → is_some o ≡ false → o ≡ none
is_none none h = refl
is_none (some s) h = absurd (ground arith)

bare_path : (s : Text) → (is_empty s || equal s (lit "/")) ≡ true → (s ≡ []) ⊎ (s ≡ lit "/")
unfolding is_empty
bare_path [] h = inl refl
bare_path (c ∷ s) h = inr ((equal_iff (c ∷ s) (lit "/")).0 h)

no_rest :
    (url : Url)
    → has_rest url ≡ false
    → ((url.path ≡ []) ⊎ (url.path ≡ lit "/")) × (url.query ≡ none) × (url.fragment ≡ none)
no_rest url h = (
  bare_path url.path (ground arith),
  is_none url.query (ground arith),
  is_none url.fragment (ground arith),
)

named : (o : Option Text) (h : Text) → non_empty o ≡ some h → (o ≡ some h) × (is_empty h ≡ false)
unfolding non_empty
named none h e = absurd (ground arith)
named (some g) h e = ground arith

-- a host in the brackets of an IPv6 literal, or as it is
abbrev pub InBrackets : Text → Text → Type 0
InBrackets h inner = h ≡ b'[' ∷ (inner ++ (b']' ∷ []))

abbrev pub IsHost : Text → Text → Type 0
IsHost h host = InBrackets h host ⊎ ((host ≡ h) × ((inner : Text) → ¬ InBrackets h inner))

without_end :
    (h rest : Text)
    → strip_prefix (lit "[") h ≡ some rest
    → strip_suffix b']' rest ≡ none
    → (inner : Text) → ¬ InBrackets h inner
without_end h rest e f inner same =
    let bare : rest ≡ inner ++ (b']' ∷ []) = some-injective _ _ (
      sym e
      ∙ ap (strip_prefix (lit "[")) same
      ∙ strip_prefix-append (lit "[") (inner ++ (b']' ∷ []))) in
    let found = sym f ∙ ap (strip_suffix b']') bare ∙ strip_suffix-concat b']' inner in
    absurd (ground arith)

unbracketed-IsHost : (h : Text) → IsHost h (unbracketed h)
unfolding unbracketed
unbracketed-IsHost h = elim (Option-cases (strip_prefix (lit "[") h)) [
  | inl e ↦ rw e (
      inr (
        refl,
        λ inner same.
            let found =
              sym e
              ∙ ap (strip_prefix (lit "[")) same
              ∙ strip_prefix-append (lit "[") (inner ++ (b']' ∷ [])) in
            absurd (ground arith),
      ))
  | inr (rest, e) ↦ elim (Option-cases (strip_suffix b']' rest)) [
    | inl f ↦ rw (e, f) (inr (refl, without_end h rest e f))
    | inr (inner, f) ↦
        rw (e, f)
          (inl (
            strip_prefix-eq_some (lit "[") h rest e
            ∙ ap (λ l. b'[' ∷ l) (strip_suffix-eq_some b']' rest inner f)))
  ]
]

-- the port is the one that is given, or the one of the kind
abbrev pub IsPort : Kind → Option ℕ → ℕ → Type 0
IsPort kind (some given) port = port ≡ given
IsPort http none port = port ≡ 80
IsPort socks5 none port = port ≡ 1080
IsPort socks5h none port = port ≡ 1080

or_port-IsPort : (kind : Kind) (o : Option ℕ) → IsPort kind o (or_port (default_port kind) o)
unfolding default_port
or_port-IsPort kind (some given) = refl
or_port-IsPort http none = refl
or_port-IsPort socks5 none = refl
or_port-IsPort socks5h none = refl

module _ (decode : Text → Option Text) where
  abbrev pub IsPassword : Option Text → Text → Type 0
  IsPassword none password = decode [] ≡ some password
  IsPassword (some given) password = decode given ≡ some password

  -- the decoded user name and password, none where the URL gives neither
  abbrev pub AreCredentials : Url → Option (Text × Text) → Type 0
  AreCredentials url none = (url.username ≡ []) × (url.password ≡ none)
  AreCredentials url (some (user, password)) =
      ¬ ((url.username ≡ []) × (url.password ≡ none))
      × (decode url.username ≡ some user)
      × IsPassword url.password password

-- What an accepted URL says of the proxy: its fields, none left out.
pub record IsParsed (parse_url : UrlParser) (decode : Text → Option Text) (input : Text)
    (p : UpstreamProxy) : Type 0 where
  pub same_url : parse_url (trim input) ≡ some p.url
  pub same_scheme : p.url.scheme ≡ scheme p.kind
  pub no_path : (p.url.path ≡ []) ⊎ (p.url.path ≡ lit "/")
  pub no_query : p.url.query ≡ none
  pub no_fragment : p.url.fragment ≡ none
  pub same_host : (h : Text) × ((p.url.host_str ≡ some h) × (is_empty h ≡ false)) × IsHost h p.host
  pub same_port : IsPort p.kind p.url.port p.port
  pub same_credentials : AreCredentials decode p.url p.credentials

module _ (parse_url : UrlParser) (decode : Text → Option Text) where
  credentials_of-AreCredentials :
      (url : Url) (c : Option (Text × Text))
      → credentials_of parse_url decode url ≡ ok c
      → AreCredentials decode url c
  unfolding credentials_of is_empty
  credentials_of-AreCredentials url c h = by_parts url.username url.password refl refl
    where
      password_of :
          (o : Option Text) (w : Text) → decode (or_empty o) ≡ some w → IsPassword decode o w
      password_of none w g = g
      password_of (some password) w g = g

      given :
          ¬ ((url.username ≡ []) × (url.password ≡ none))
          → decoded parse_url decode url ≡ ok c
          → AreCredentials decode url c
      given ne g =
          let (user, at_user, g1) = >>=-eq-ok (ok_or bad_credentials (decode url.username)) _ g in
          let (password, at_password, g2) =
            >>=-eq-ok (ok_or bad_credentials (decode (or_empty url.password))) _ g1 in
          subst (AreCredentials decode url) (ok-injective _ c g2)
            (ne, ground arith, password_of url.password password (ground arith))

      by_parts :
          (username : Text) (password : Option Text)
          → url.username ≡ username
          → url.password ≡ password
          → AreCredentials decode url c
      by_parts [] none e f =
          subst (AreCredentials decode url) (ok-injective {E = Error} none c (ground arith)) (e, f)
      by_parts [] (some password) e f = given (λ k. absurd (ground arith)) (ground arith)
      by_parts (x ∷ username) password e f = given (λ k. absurd (ground arith)) (ground arith)

  -- A URL that is accepted gives the proxy that it names: the kind of its scheme; its host, which is
  -- not empty, without the brackets of an IPv6 literal; its port, or 80 for an HTTP proxy and 1080
  -- for a SOCKS proxy; and its percent-decoded user name and password, none where it has neither.
  pub parse-IsParsed :
      (input : Text) (p : UpstreamProxy)
      → parse parse_url decode input ≡ ok p
      → IsParsed parse_url decode input p
  unfolding parse
  parse-IsParsed input p e =
      let (url, at_url, e1) = >>=-eq-ok (ok_or invalid_url (parse_url (trim input))) _ e in
      let (kind, at_kind, e2) = >>=-eq-ok (parse_kind url.scheme) _ e1 in
      let (_, at_path, e3) = >>=-eq-ok (bail_if (has_rest url) has_path) _ e2 in
      let (host, at_host, e4) = >>=-eq-ok (ok_or no_host (non_empty url.host_str)) _ e3 in
      let (credentials, at_credentials, e5) =
        >>=-eq-ok (credentials_of parse_url decode url) _ e4 in
      let bare = no_rest url (ground arith) in
      subst (IsParsed parse_url decode input) (ok-injective _ p e5) (record {
        same_url = ground arith;
        same_scheme = parse_kind-scheme url.scheme kind at_kind;
        no_path = bare.0;
        no_query = bare.1;
        no_fragment = bare.2;
        same_host = (host, named url.host_str host (ground arith), unbracketed-IsHost host);
        same_port = or_port-IsPort kind url.port;
        same_credentials = credentials_of-AreCredentials url credentials at_credentials;
      })
