-- ===== src/HttpProxy/Fields.antt =====
-- Which header fields reach the gateway: those of the client, less the fields of one connection,
-- with the Host of the request line and `Connection: close`.
use ws2tcp_local_core.Base.{
  ◌≡◌, refl, sym, ◌∙◌, true, false, List, [], ◌∷◌, Option, none, some, ok, arith, if◌then◌else◌,
  inl, inr, Bool-cases, Option-cases,
}
use ws2tcp_local_core.Text.{Text, lit, is_empty, trim, to_ascii_lowercase, eq_ignore_ascii_case}
use ws2tcp_local_core.Text.Equal.{eq_ignore_ascii_case_left}
use ws2tcp_local_core.Text.Split.{split_once}
use ws2tcp_local_core.Text.Lines.{lines}
use ws2tcp_local_core.Text.Terminated.{IsLine}
use ws2tcp_local_core.HttpProxy.Header.{
  skip_one, should_strip_http_proxy_header, value_of, or_else, find_in, find_header_value,
  rewrite_http_proxy_header,
}
use ws2tcp_local_core.HttpProxy.Alike.{
  strip_same, host_not_stripped, host_cases, strip-not-alike, eq_ignore_ascii_case_sym,
}
use ws2tcp_local_core.HttpProxy.Forwarded.{
  shown, shown_in, host_shown, ending, rewrite_http_proxy_header-shown,
}

module _ (authority name : Text) where
  -- the authority in place of a Host field
  replaced : Option Text → Option Text
  replaced none = none
  replaced (some _) = some (trim authority)

  -- of a stripped name a line shows nothing
  shown-stripped :
      (line : Text) → should_strip_http_proxy_header name ≡ true → shown authority name line ≡ none
  unfolding shown value_of
  shown-stripped line s = elim (Option-cases (split_once b':' line)) [
    | inl e ↦ rw (e, shown) (ground arith)
    | inr ((n, value), e) ↦
        let same = strip_same (trim n) name in
        let host = strip_same (lit "Host") name in
        let not_host = host_not_stripped (lit "Host") host_cases in
        rw (e, shown, value_of) (ground (arith, same, host, not_host))
  ]

  -- of the name Host the authority of the request line
  shown-host :
      (line : Text)
      → eq_ignore_ascii_case (lit "Host") name ≡ true
      → shown authority name line ≡ replaced (value_of (lit "host") line)
  unfolding shown value_of is_empty split_once replaced
  shown-host [] h = refl
  shown-host (c ∷ line) h = elim (Option-cases (split_once b':' (c ∷ line))) [
    | inl e ↦ rw (e, shown, value_of) refl
    | inr ((n, value), e) ↦
        rw (e, shown, value_of, replaced)
          (ground (arith, host_not_stripped (trim n), other (trim n)))
  ]
    where
      other :
          (n : Text)
          → should_strip_http_proxy_header n ≡ false
          → eq_ignore_ascii_case n (lit "host") ≡ false
          → eq_ignore_ascii_case n name ≡ false
      other n s k = elim (Bool-cases (eq_ignore_ascii_case n name)) [
        | inl e ↦ absurd (
            ground (
              arith,
              eq_ignore_ascii_case_left n name (lit "host") e,
              eq_ignore_ascii_case_left name (lit "Host") (lit "host")
                  (eq_ignore_ascii_case_sym (lit "Host") name h),
              host_cases,
            ))
        | inr e ↦ e
      ]

  -- of another name what the client sent
  shown-other :
      (line : Text)
      → should_strip_http_proxy_header name ≡ false
      → eq_ignore_ascii_case (lit "Host") name ≡ false
      → shown authority name line ≡ value_of name line
  unfolding shown value_of is_empty split_once
  shown-other [] s h = refl
  shown-other (c ∷ line) s h = elim (Option-cases (split_once b':' (c ∷ line))) [
    | inl e ↦ rw (e, shown, value_of) refl
    | inr ((n, value), e) ↦
        rw (e, shown, value_of) (ground (arith, strip-not-alike (trim n) name s, is_host (trim n)))
  ]
    where
      is_host :
          (n : Text)
          → eq_ignore_ascii_case n (lit "host") ≡ true
          → eq_ignore_ascii_case n name ≡ false
      is_host n k =
          eq_ignore_ascii_case_left n (lit "host") name k
          ∙ sym (eq_ignore_ascii_case_left (lit "Host") (lit "host") name host_cases)
          ∙ h

  shown_in-stripped :
      (ls : List Text)
      → should_strip_http_proxy_header name ≡ true
      → shown_in authority name ls ≡ none
  unfolding shown_in
  shown_in-stripped [] s = refl
  shown_in-stripped (l ∷ ls) s = rw (shown-stripped l s) (shown_in-stripped ls s)

  shown_in-host :
      (ls : List Text)
      → eq_ignore_ascii_case (lit "Host") name ≡ true
      → shown_in authority name ls ≡ replaced (find_in (lit "host") ls)
  unfolding shown_in find_in replaced
  shown_in-host [] h = refl
  shown_in-host (l ∷ ls) h = elim (Option-cases (value_of (lit "host") l)) [
    | inl e ↦ rw (shown-host l h, e, shown_in, replaced) (shown_in-host ls h)
    | inr (v, e) ↦ rw (shown-host l h, e, shown_in, replaced) refl
  ]

  shown_in-other :
      (ls : List Text)
      → should_strip_http_proxy_header name ≡ false
      → eq_ignore_ascii_case (lit "Host") name ≡ false
      → shown_in authority name ls ≡ find_in name ls
  unfolding shown_in find_in
  shown_in-other [] s h = refl
  shown_in-other (l ∷ ls) s h = rw (shown-other l s h, shown_in-other ls s h)

  -- what the gateway is to read under a name, from the client's header
  unfoldable pub forwarded_value : Text → Option Text
  forwarded_value header =
      if should_strip_http_proxy_header name
      then (if eq_ignore_ascii_case (lit "Connection") name then some (lit "close") else none)
      else if eq_ignore_ascii_case (lit "Host") name
      then some (trim authority)
      else find_header_value header name

no_host_shown :
    (authority name : Text) (o : Option Text)
    → eq_ignore_ascii_case (lit "Host") name ≡ false
    → host_shown authority name o ≡ none
unfolding host_shown
no_host_shown authority name none h = ground arith
no_host_shown authority name (some _) h = refl

-- where Host is asked for, a line or the one that is added answers
host-answered :
    (authority name : Text) (o e : Option Text)
    → eq_ignore_ascii_case (lit "Host") name ≡ true
    → or_else (replaced authority name o) (or_else (host_shown authority name o) e)
      ≡ some (trim authority)
unfolding host_shown replaced
host-answered authority name none e h = ground arith
host-answered authority name (some _) e h = refl

or_else-none : (o : Option Text) → or_else o none ≡ o
or_else-none none = refl
or_else-none (some _) = refl

connection_stripped : should_strip_http_proxy_header (lit "Connection") ≡ true
unfolding should_strip_http_proxy_header eq_ignore_ascii_case to_ascii_lowercase
connection_stripped = refl

-- In the header that `rewrite_http_proxy_header` writes, a name of the fields of one connection
-- has no value but `close` for Connection, Host has the authority of the request line, and every
-- other name has the value that the client's header has for it. The method, the form, the
-- version and the authority hold no line feed.
pub rewrite_http_proxy_header-forwarded_value :
    (header method form version authority out name : Text)
    → IsLine method
    → IsLine form
    → IsLine version
    → IsLine authority
    → rewrite_http_proxy_header header method form version authority ≡ ok out
    → find_header_value out name ≡ forwarded_value authority name header
unfolding forwarded_value ending find_header_value
rewrite_http_proxy_header-forwarded_value header method form version authority out name hm hf hv ha
      h =
    let ls = skip_one (lines header) in
    let o = find_header_value header (lit "host") in
    rewrite_http_proxy_header-shown authority name header method form version out hm hf hv ha h
    ∙ (elim (Bool-cases (should_strip_http_proxy_header name)) [
      | inl s ↦ ground (
        arith,
        shown_in-stripped authority name ls s,
        no_host_shown authority name o,
        strip_same (lit "Host") name,
        host_not_stripped (lit "Host") host_cases,
      )
      | inr s ↦ elim (Bool-cases (eq_ignore_ascii_case (lit "Host") name)) [
        | inl k ↦ ground (
          arith,
          shown_in-host authority name ls k,
          host-answered authority name o (ending authority name) k,
        )
        | inr k ↦ ground (
          arith,
          shown_in-other authority name ls s k,
          no_host_shown authority name o k,
          or_else-none (find_in name ls),
          strip-not-alike (lit "Connection") name s connection_stripped,
        )
      ]
    ])
