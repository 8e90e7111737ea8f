-- ===== src/Routing/Domains.antt =====
-- The rule lists and the match of a host in src/routing_rules.rs: `DomainRules`, `parse_gfwlist`,
-- `parse_gfwlist_text`, `parse_custom_domain_rules_text` and the helpers they call. A `HashSet`
-- of names is the list of its names, each once; `read_custom_domain_rules` and `read_to_string`
-- are the file system's. Decoding base64 is the parameter `decode`.
use ws2tcp_local_core.Base.{
  ℕ, Bool, true, false, ◌&&◌, ◌||◌, List, [], ◌∷◌, Option, none, some, Result, ok, err, ok_or,
  ◌>>=◌, ◌==◌, if◌then◌else◌, length, all,
}
use ws2tcp_local_core.Text.{
  Text, Bytes, lit, is_empty, is_alphanumeric, is_ascii_whitespace, trim, trim_matches,
  to_ascii_lowercase, equal,
}
use ws2tcp_local_core.Text.Utf8.{as_bytes, from_utf8}
use ws2tcp_local_core.Text.Split.{contains, strip_prefix, before}
use ws2tcp_local_core.Text.Lines.{lines}
use ws2tcp_local_core.Net.Ipv4
use ws2tcp_local_core.Net.Ipv6.{Ipv6Text}

pub data Error : Type 0 where
  no_domains bad_base64 bad_utf8 : Error

-- `HashSet<String>`
unfoldable pub member : Text → List Text → Bool
member d [] = false
member d (x ∷ xs) = equal x d || member d xs

unfoldable pub insert : Text → List Text → List Text
insert d xs = if member d xs then xs else d ∷ xs

-- `extend`, and with `[]` for the second `collect`
unfoldable pub extend_set : List Text → List Text → List Text
extend_set [] xs = xs
extend_set (d ∷ ds) xs = insert d (extend_set ds xs)

pub record DomainRules : Type 0 where
  pub domains : List Text

-- `DomainRules::new`
unfoldable pub new : List Text → Result Error DomainRules
new [] = err no_domains
new (d ∷ ds) = ok record { domains = d ∷ ds }

unfoldable pub len : DomainRules → ℕ
len rules = length rules.domains

unfoldable pub extend : DomainRules → List Text → DomainRules
extend rules domains = record { domains = extend_set domains rules.domains }

abbrev pub is_dot : ℕ → Bool
is_dot c = c == b'.'

unfoldable pub normalize_host_for_match : Text → Text
normalize_host_for_match host = to_ascii_lowercase (trim_matches is_dot (trim host))

-- `match_indices('.').any(|(idx, _)| domains.contains(&host[idx + 1..]))`
unfoldable pub matches_after_dot : List Text → Text → Bool
matches_after_dot domains [] = false
matches_after_dot domains (c ∷ s) = c == b'.' && member s domains || matches_after_dot domains s

unfoldable pub matches : DomainRules → Text → Bool
matches rules host =
    let host = normalize_host_for_match host in
    if is_empty host
    then false
    else if member host rules.domains
    then true
    else matches_after_dot rules.domains host

abbrev pub is_some {ℓ} : {A : Type ℓ} → Option A → Bool
is_some none = false
is_some (some _) = true

-- the bytes of a name
unfoldable pub is_name_byte : ℕ → Bool
is_name_byte c = is_alphanumeric c || c == b'-' || c == b'.'

abbrev pub then_some : Bool → Text → Option Text
then_some true d = some d
then_some false d = none

-- where a rule's domain ends
abbrev pub ends_domain : ℕ → Bool
ends_domain c = c == b'/' || c == b'^' || c == b'$'

abbrev pub or_else_strip : Option Text → Text → Option Text
or_else_strip (some r) line = some r
or_else_strip none line = strip_prefix (b'.' ∷ []) line

-- `filter_map`
unfoldable pub filter_map : (Text → Option Text) → List Text → List Text
filter_map f [] = []
filter_map f (l ∷ ls) = elim (f l) [ none ↦ filter_map f ls | some d ↦ d ∷ filter_map f ls ]

-- `filter(|byte| !byte.is_ascii_whitespace())`
unfoldable pub compact : Bytes → Bytes
compact [] = []
compact (b ∷ bs) = if is_ascii_whitespace b then compact bs else b ∷ compact bs

module _ ⦃ipv6 : Ipv6Text⦄ where
  -- `domain.parse::<IpAddr>().is_ok()`
  unfoldable pub is_ip : Text → Bool
  is_ip s = is_some (Ipv4.parse s) || is_some (ipv6.parse s)

  unfoldable pub is_domain_like : Text → Bool
  is_domain_like domain =
      if is_empty domain || contains b':' domain || is_ip domain
      then false
      else all is_name_byte (as_bytes domain)

  unfoldable pub domain_of : Text → Option Text
  domain_of rule =
      let domain = normalize_host_for_match rule in then_some (is_domain_like domain) domain

  unfoldable pub parse_custom_domain_rule_domain : Text → Option Text
  parse_custom_domain_rule_domain line = domain_of (trim (before (λ c. c == b'#') line))

  unfoldable pub parse_proxy_rule_domain : Text → Option Text
  parse_proxy_rule_domain line = elim (or_else_strip (strip_prefix (lit "||") line) line) [
    | none ↦ none
    | some rule ↦
        if contains b'*' rule
        then none
        else domain_of (trim_matches is_dot (before ends_domain rule))
  ]

  unfoldable pub parse_custom_domain_rules_text : Text → List Text
  parse_custom_domain_rules_text text =
      extend_set (filter_map parse_custom_domain_rule_domain (lines text)) []

  unfoldable pub parse_gfwlist_text : Text → Result Error DomainRules
  parse_gfwlist_text text = new (extend_set (filter_map parse_proxy_rule_domain (lines text)) [])

  unfoldable pub parse_gfwlist : (Bytes → Option Bytes) → Bytes → Result Error DomainRules
  parse_gfwlist decode encoded = do
    decoded ← ok_or bad_base64 (decode (compact encoded))
    text ← ok_or bad_utf8 (from_utf8 decoded)
    parse_gfwlist_text text
