-- ===== src/Routing/Lists.antt =====
-- Which rules a list gives, and that each is a name that matches itself.
use ws2tcp_local_core.Base.{
  ◌≡◌, ◌≢◌, ◌↔◌, ◌⊎◌, inl, inr, refl, sym, ap, ◌∙◌, true, false, List, [], ◌∷◌, Option, some, ok,
  arith, ◌==◌, Bool-cases, Option-cases, In, ok-injective,
}
use mathlib.Core.Option.{some-injective}
use ws2tcp_local_core.Text.{Text, lit, is_empty, trim, trim_matches}
use ws2tcp_local_core.Text.Split.{strip_prefix, before}
use ws2tcp_local_core.Text.Lines.{lines}
use ws2tcp_local_core.Net.Ipv6.{Ipv6Text}
use ws2tcp_local_core.Routing.Domains.{
  DomainRules, member, insert, extend_set, new, extend, filter_map, normalize_host_for_match,
  matches, is_dot, or_else_strip, ends_domain, parse_custom_domain_rule_domain,
  parse_proxy_rule_domain, parse_custom_domain_rules_text, parse_gfwlist_text,
}
use ws2tcp_local_core.Routing.Names.{domain_of-same}
use ws2tcp_local_core.Routing.Matching.{member_iff, IsBelow, IsCovered, matches_iff}

insert_iff : (d e : Text) (xs : List Text) → In d (insert e xs) ↔ ((e ≡ d) ⊎ In d xs)
unfolding insert
insert_iff d e xs = elim (Bool-cases (member e xs)) [
  | inl h ↦
      rw (h, insert)
        (
          inr,
          λ k. elim k [
            | inl p ↦ (member_iff d xs).0 (ap (λ x. member x xs) (sym p) ∙ h)
            | inr i ↦ i
          ],
        )
  | inr h ↦ rw (h, insert) ((λ k. k), λ k. k)
]

pub extend_set_iff : (d : Text) (ds xs : List Text) → In d (extend_set ds xs) ↔ (In d ds ⊎ In d xs)
unfolding extend_set
extend_set_iff d [] xs = (inr, λ k. elim k [ inl none_left ↦ absurd none_left | inr i ↦ i ])
extend_set_iff d (e ∷ ds) xs =
    let rest = extend_set_iff d ds xs in
    let first = insert_iff d e (extend_set ds xs) in ground (arith, rest, first)

pub filter_map_iff :
    (f : Text → Option Text) (d : Text) (ls : List Text)
    → In d (filter_map f ls) ↔ ((l : Text) × In l ls × (f l ≡ some d))
unfolding filter_map
filter_map_iff f d [] = (absurd, λ (l, i, h). absurd i)
filter_map_iff f d (l ∷ ls) =
    let rest = filter_map_iff f d ls in
    elim (Option-cases (f l)) [
      | inl e ↦
          rw (e, filter_map)
            (
              (λ i. let (k, j, h) = rest.0 i in (k, inr j, h)),
              λ (k, i, h). elim i [ inl p ↦ absurd (cc) | inr j ↦ rest.1 (k, j, h) ],
            )
      | inr (x, e) ↦
          rw (e, filter_map)
            (
              (λ i. elim i [
                | inl p ↦ (l, inl refl, e ∙ ap some p)
                | inr j ↦ let (k, j, h) = rest.0 j in (k, inr j, h)
              ]),
              λ (k, i, h). elim i [
                | inl p ↦ inl (some-injective _ _ (sym e ∙ ap f p ∙ h))
                | inr j ↦ inr (rest.1 (k, j, h))
              ],
            )
    ]

new-domains : (ds : List Text) (rules : DomainRules) → new ds ≡ ok rules → rules.domains ≡ ds
unfolding new
new-domains [] rules h = cc
new-domains (d ∷ ds) rules h = ap (λ r. r.domains) (sym (ok-injective _ rules h))

-- what a name covers is not empty
covered-full : (host d : Text) → is_empty d ≡ false → (host ≡ d) ⊎ IsBelow host d → host ≢ []
unfolding is_empty IsBelow
covered-full [] d f (inl e) k = absurd (ground (arith, ap is_empty e))
covered-full [] d f (inr ([], e)) k = cc
covered-full [] d f (inr (_ ∷ _, e)) k = cc
covered-full (_ ∷ _) d f h k = cc

-- a line of `text` gives a name that `host` is or stands below
unfoldable pub IsListed : (Text → Option Text) → Text → Text → Type 0
IsListed parse text host =
    (line : Text) × (d : Text) × In line (lines text)
    × (parse line ≡ some d)
    × ((host ≡ d) ⊎ IsBelow host d)

module _ ⦃ipv6 : Ipv6Text⦄ where
  parse_proxy_rule_domain-same :
      (line d : Text)
      → parse_proxy_rule_domain line ≡ some d
      → (normalize_host_for_match d ≡ d) × (is_empty d ≡ false)
  unfolding parse_proxy_rule_domain
  parse_proxy_rule_domain-same line d h =
      elim (Option-cases (or_else_strip (strip_prefix (lit "||") line) line)) [
        | inl e ↦ absurd (ground arith)
        | inr (rule, e) ↦
            domain_of-same (trim_matches is_dot (before ends_domain rule)) d (ground arith)
      ]

  parse_gfwlist_text-domains :
      (text d : Text) (rules : DomainRules)
      → parse_gfwlist_text text ≡ ok rules
      → In d rules.domains
        ↔ ((line : Text) × In line (lines text) × (parse_proxy_rule_domain line ≡ some d))
  unfolding parse_gfwlist_text
  parse_gfwlist_text-domains text d rules h =
      let ds = filter_map parse_proxy_rule_domain (lines text) in
      let e = new-domains (extend_set ds []) rules h in
      let all_once = extend_set_iff d ds [] in
      let from_lines = filter_map_iff parse_proxy_rule_domain d (lines text) in
      rw e (
        (λ i. elim (all_once.0 i) [ inl j ↦ from_lines.0 j | inr none_left ↦ absurd none_left ]),
        λ l. all_once.1 (inl (from_lines.1 l)),
      )

  -- With the rules of a list, a host is matched just when a line of the list gives a name
  -- that the normalized host is or stands below.
  pub parse_gfwlist_text-matches :
      (text host : Text) (rules : DomainRules)
      → parse_gfwlist_text text ≡ ok rules
      → (matches rules host ≡ true)
        ↔ IsListed parse_proxy_rule_domain text (normalize_host_for_match host)
  unfolding IsListed IsCovered
  parse_gfwlist_text-matches text host rules h =
      let cover = matches_iff rules host in
      (
        (λ m.
            let (_, (d, i, k)) = cover.0 m in
            let (line, j, e) = (parse_gfwlist_text-domains text d rules h).0 i in
            (line, d, j, e, k)),
        λ (line, d, j, e, k). cover.1 (
          covered-full (normalize_host_for_match host) d (parse_proxy_rule_domain-same line d e).1
              k,
          (d, (parse_gfwlist_text-domains text d rules h).1 (line, j, e), k),
        ),
      )

  parse_custom_domain_rule_domain-same :
      (line d : Text)
      → parse_custom_domain_rule_domain line ≡ some d
      → (normalize_host_for_match d ≡ d) × (is_empty d ≡ false)
  unfolding parse_custom_domain_rule_domain
  parse_custom_domain_rule_domain-same line d h =
      domain_of-same (trim (before (λ c. c == b'#') line)) d h

  extend-domains :
      (rules : DomainRules) (text d : Text)
      → In d (extend rules (parse_custom_domain_rules_text text)).domains ↔ (
          ((line : Text) × In line (lines text) × (parse_custom_domain_rule_domain line ≡ some d))
          ⊎ In d rules.domains)
  unfolding extend parse_custom_domain_rules_text
  extend-domains rules text d =
      let ds = filter_map parse_custom_domain_rule_domain (lines text) in
      let both = extend_set_iff d (extend_set ds []) rules.domains in
      let all_once = extend_set_iff d ds [] in
      let from_lines = filter_map_iff parse_custom_domain_rule_domain d (lines text) in
      (
        (λ i. elim (both.0 i) [
          | inl j ↦ elim (all_once.0 j) [
            | inl k ↦ inl (from_lines.0 k)
            | inr none_left ↦ absurd none_left
          ]
          | inr j ↦ inr j
        ]),
        λ i. elim i [
          | inl l ↦ both.1 (inl (all_once.1 (inl (from_lines.1 l))))
          | inr j ↦ both.1 (inr j)
        ],
      )

  -- Custom rules add to the rules they extend: a host is matched just when it was before, or a
  -- line of the custom list gives a name that the normalized host is or stands below.
  pub extend-matches :
      (rules : DomainRules) (text host : Text)
      → (matches (extend rules (parse_custom_domain_rules_text text)) host ≡ true) ↔ (
          (matches rules host ≡ true)
          ⊎ IsListed parse_custom_domain_rule_domain text (normalize_host_for_match host))
  unfolding IsListed IsCovered
  extend-matches rules text host =
      let extended = matches_iff (extend rules (parse_custom_domain_rules_text text)) host in
      let before_it = matches_iff rules host in
      (
        (λ m.
            let (full, (d, i, k)) = extended.0 m in
            elim ((extend-domains rules text d).0 i) [
              | inl (line, j, e) ↦ inr (line, d, j, e, k)
              | inr j ↦ inl (before_it.1 (full, (d, j, k)))
            ]),
        λ m. elim m [
          | inl n ↦
              let (full, (d, i, k)) = before_it.0 n in
              extended.1 (full, (d, (extend-domains rules text d).1 (inr i), k))
          | inr (line, d, j, e, k) ↦ extended.1 (
            covered-full (normalize_host_for_match host) d
                (parse_custom_domain_rule_domain-same line d e).1 k,
            (d, (extend-domains rules text d).1 (inl (line, j, e)), k),
          )
        ],
      )
