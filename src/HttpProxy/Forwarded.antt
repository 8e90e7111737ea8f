-- ===== src/HttpProxy/Forwarded.antt =====
-- The header that `rewrite_http_proxy_header` writes, read back: what it shows under a name.
use mathlib.Core.List.{append_assoc}
use ws2tcp_local_core.Base.{
  ◌≡◌, refl, sym, ap, ap₂, ◌∙◌, false, List, [], ◌∷◌, ◌++◌, Option, none, some, ok, >>=-eq-ok,
  ok-injective, arith, if◌then◌else◌, inl, inr, Bool-cases, Option-cases, All,
}
use ws2tcp_local_core.Text.{Text, lit, is_whitespace, is_empty, trim, eq_ignore_ascii_case}
use ws2tcp_local_core.Text.Split.{contains, split_once}
use ws2tcp_local_core.Text.Lines.{lines}
use ws2tcp_local_core.Text.Cuts.{split_once-eq_some, split_once-append}
use ws2tcp_local_core.Text.Trim.{
  trim_idem, trim_same, trim_blank, contains-trim, contains-append, contains-append_parts,
}
use ws2tcp_local_core.Text.Terminated.{lines-append, lines-IsLine, IsLine}
use ws2tcp_local_core.HttpProxy.Header.{
  crlf, skip_one, should_strip_http_proxy_header, value_of, or_else, find_in, find_header_value,
  host_line, rewrite_line, rewrite_lines, host_unless, rewrite_http_proxy_header,
}

or_else_assoc : (a b c : Option Text) → or_else a (or_else b c) ≡ or_else (or_else a b) c
or_else_assoc none b c = refl
or_else_assoc (some v) b c = refl

lines-crlf : lines crlf ≡ [] ∷ []
unfolding lines
lines-crlf = refl

trim_close : trim (lit " close") ≡ lit "close"
unfolding trim
trim_close = refl

-- What a rewritten line shows under a name.
module _ (authority name : Text) where
  unfoldable pub shown : Text → Option Text
  shown line = if is_empty line then none else elim (split_once b':' line) [
    | none ↦ none
    | some (n, value) ↦
        if should_strip_http_proxy_header (trim n)
        then none
        else if eq_ignore_ascii_case (trim n) (lit "host")
        then (if eq_ignore_ascii_case (lit "Host") name then some (trim authority) else none)
        else value_of name line
  ]

  unfoldable pub shown_in : List Text → Option Text
  shown_in [] = none
  shown_in (l ∷ ls) = or_else (shown l) (shown_in ls)

  -- a field that is written anew: `n:value`, of a name without a colon
  value_of-field :
      (n value : Text)
      → contains b':' n ≡ false
      → trim n ≡ n
      → value_of name (n ++ (b':' ∷ value))
        ≡ (if eq_ignore_ascii_case n name then some (trim value) else none)
  unfolding value_of
  value_of-field n value c t = rw (split_once-append b':' n value c, value_of) (rw t refl)

  find_in-field :
      (n value rest : Text)
      → IsLine n
      → IsLine value
      → find_in name (lines ((n ++ (b':' ∷ (value ++ crlf))) ++ rest))
        ≡ or_else (value_of name (n ++ (b':' ∷ value))) (find_in name (lines rest))
  unfolding find_in
  find_in-field n value rest h k =
      ap (λ s. find_in name (lines s)) regroup
      ∙ ap (find_in name) (
          lines-append (n ++ (b':' ∷ value)) rest
            (contains-append b'\n' n (b':' ∷ value) h (unfold contains in k)))
    where
      regroup :
          (n ++ (b':' ∷ (value ++ crlf))) ++ rest ≡ (n ++ (b':' ∷ value)) ++ (b'\r' ∷ b'\n' ∷ rest)
      regroup = simp append_assoc

  find_in-host_line :
      (rest : Text)
      → IsLine authority
      → find_in name (lines (host_line authority ++ rest))
        ≡ or_else
            (if eq_ignore_ascii_case (lit "Host") name then some (trim authority) else none)
            (find_in name (lines rest))
  find_in-host_line rest h =
      find_in-field (lit "Host") (b' ' ∷ authority) rest (unfold contains in refl)
        (unfold contains in h)
      ∙ rw (
        value_of-field (lit "Host") (b' ' ∷ authority) (unfold contains in refl)
            (trim_same (lit "Host") (unfold is_whitespace in refl)),
        trim_blank authority,
      )

  -- a line that is kept shows what it showed to the proxy
  find_in-kept :
      (line n value rest : Text)
      → IsLine line
      → split_once b':' line ≡ some (n, value)
      → find_in name (lines ((trim n ++ (b':' ∷ (value ++ crlf))) ++ rest))
        ≡ or_else (value_of name line) (find_in name (lines rest))
  unfolding value_of
  find_in-kept line n value rest h e =
      let (whole, no_colon) = split_once-eq_some b':' line n value e in
      let (n_line, value_line) =
        contains-append_parts b'\n' n (b':' ∷ value) (ap (contains b'\n') (sym whole) ∙ h) in
      find_in-field (trim n) value rest (contains-trim b'\n' n n_line)
        (unfold contains in value_line)
      ∙ ap (λ o. or_else o (find_in name (lines rest)))
          (value_of-field (trim n) value (contains-trim b':' n no_colon) (trim_idem n)
            ∙ rw (e, value_of))

  -- the line is rewritten to `w'` and shows `s`
  transfer :
      (line w w' rest : Text) (s : Option Text)
      → rewrite_line authority line ≡ ok w
      → rewrite_line authority line ≡ ok w'
      → shown line ≡ s
      → find_in name (lines (w' ++ rest)) ≡ or_else s (find_in name (lines rest))
      → find_in name (lines (w ++ rest)) ≡ or_else (shown line) (find_in name (lines rest))
  transfer line w w' rest s h h' e k = cc

  rewrite_line-shown :
      (line w rest : Text)
      → IsLine authority
      → IsLine line
      → rewrite_line authority line ≡ ok w
      → find_in name (lines (w ++ rest)) ≡ or_else (shown line) (find_in name (lines rest))
  unfolding rewrite_line shown
  rewrite_line-shown line w rest ha hl h = elim (Bool-cases (is_empty line)) [
    | inl e ↦ transfer line w [] rest none h (rw (e, rewrite_line)) (rw (e, shown)) refl
    | inr e ↦ elim (Option-cases (split_once b':' line)) [
      | inl f ↦ absurd (ground arith)
      | inr ((n, value), f) ↦ elim (Bool-cases (should_strip_http_proxy_header (trim n))) [
        | inl g ↦
            transfer line w [] rest none h (rw (e, f, g, rewrite_line)) (rw (e, f, g, shown)) refl
        | inr g ↦ elim (Bool-cases (eq_ignore_ascii_case (trim n) (lit "host"))) [
          | inl k ↦
              transfer line w (host_line authority) rest _ h (rw (e, f, g, k, rewrite_line))
                (rw (e, f, g, k, shown)) (find_in-host_line rest ha)
          | inr k ↦
              transfer line w (trim n ++ (b':' ∷ (value ++ crlf))) rest (value_of name line) h
                (rw (e, f, g, k, rewrite_line)) (rw (e, f, g, k, shown))
                (find_in-kept line n value rest hl f)
        ]
      ]
    ]
  ]

  rewrite_lines-shown :
      (ls : List Text) (w rest : Text)
      → IsLine authority
      → All IsLine ls
      → rewrite_lines authority ls ≡ ok w
      → find_in name (lines (w ++ rest)) ≡ or_else (shown_in ls) (find_in name (lines rest))
  unfolding rewrite_lines shown_in
  rewrite_lines-shown [] w rest ha hl h =
      ap (λ v. find_in name (lines (v ++ rest))) (sym (ok-injective [] w h))
  rewrite_lines-shown (l ∷ ls) w rest ha hl h =
      let (first, e, h₁) = >>=-eq-ok (rewrite_line authority l) _ h in
      let (others, f, h₂) = >>=-eq-ok (rewrite_lines authority ls) _ h₁ in
      ap (λ v. find_in name (lines (v ++ rest))) (sym (ok-injective (first ++ others) w h₂))
      ∙ ap (λ s. find_in name (lines s)) (append_assoc first others rest)
      ∙ rewrite_line-shown l first (others ++ rest) ha hl.0 e
      ∙ ap (or_else (shown l)) (rewrite_lines-shown ls others rest ha hl.1 f)
      ∙ or_else_assoc (shown l) (shown_in ls) (find_in name (lines rest))

  find_in_blank : find_in name ([] ∷ []) ≡ none
  unfolding find_in value_of split_once
  find_in_blank = refl

  -- the Host line that is added
  unfoldable pub host_shown : Option Text → Option Text
  host_shown none = if eq_ignore_ascii_case (lit "Host") name then some (trim authority) else none
  host_shown (some _) = none

  -- the end that is written under every header
  unfoldable pub ending : Option Text
  ending = if eq_ignore_ascii_case (lit "Connection") name then some (lit "close") else none

  find_in-ending : find_in name (lines (lit "Connection: close" ++ (crlf ++ crlf))) ≡ ending
  unfolding ending
  find_in-ending =
      find_in-field (lit "Connection") (lit " close") crlf (unfold contains in refl)
        (unfold contains in refl)
      ∙ ap₂ or_else
          (value_of-field (lit "Connection") (lit " close") (unfold contains in refl)
            (trim_same (lit "Connection") (unfold is_whitespace in refl)))
          (ap (find_in name) lines-crlf)
      ∙ ground (arith, trim_close, find_in_blank)

  find_in-host_unless :
      (o : Option Text) (rest : Text)
      → IsLine authority
      → find_in name (lines (host_unless o authority ++ rest))
        ≡ or_else (host_shown o) (find_in name (lines rest))
  unfolding host_unless host_shown
  find_in-host_unless none rest h = find_in-host_line rest h
  find_in-host_unless (some _) rest h = refl

  -- What the forwarded header shows under a name.
  pub rewrite_http_proxy_header-shown :
      (header method form version out : Text)
      → IsLine method
      → IsLine form
      → IsLine version
      → IsLine authority
      → rewrite_http_proxy_header header method form version authority ≡ ok out
      → find_header_value out name
        ≡ or_else
            (shown_in (skip_one (lines header)))
            (or_else (host_shown (find_header_value header (lit "host"))) ending)
  unfolding rewrite_http_proxy_header find_header_value
  rewrite_http_proxy_header-shown header method form version out hm hf hv ha h =
      let ls = skip_one (lines header) in
      let (w, e, h₁) = >>=-eq-ok (rewrite_lines authority ls) _ h in
      let o = find_header_value header (lit "host") in
      let first = method ++ (b' ' ∷ (form ++ (b' ' ∷ version))) in
      let last = lit "Connection: close" ++ (crlf ++ crlf) in
      ap (λ s. find_in name (skip_one (lines s)))
        (sym (ok-injective _ out h₁) ∙ regroup w (host_unless o authority ++ last))
      ∙ ap (λ l. find_in name (skip_one l))
          (lines-append first (w ++ (host_unless o authority ++ last)) (
            contains-append b'\n' method (b' ' ∷ (form ++ (b' ' ∷ version))) hm (
              unfold contains in
              contains-append b'\n' form (b' ' ∷ version) hf (unfold contains in hv))))
      ∙ rewrite_lines-shown ls w (host_unless o authority ++ last) ha
          (skip_one-All (lines header) (lines-IsLine header)) e
      ∙ ap (or_else (shown_in ls))
          (find_in-host_unless o last ha ∙ ap (or_else (host_shown o)) find_in-ending)
    where
      regroup :
          (w rest : Text)
          → (method ++ (b' ' ∷ (form ++ (b' ' ∷ (version ++ crlf))))) ++ (w ++ rest)
            ≡ (method ++ (b' ' ∷ (form ++ (b' ' ∷ version)))) ++ (b'\r' ∷ b'\n' ∷ (w ++ rest))
      regroup w rest = simp append_assoc

      skip_one-All : (ls : List Text) → All IsLine ls → All IsLine (skip_one ls)
      skip_one-All [] a = tt
      skip_one-All (l ∷ ls) a = a.1
