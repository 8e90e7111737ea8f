-- ===== src/Tests/Routing.antt =====
-- Rule lists, the match of hosts and the tasks at a concrete input, and the witnesses.
use ws2tcp_local_core.Base.{◌≡◌, ◌↔◌, ◌≢◌, ◌⊎◌, refl, [], ◌∷◌, ◌++◌, none, some, ok, arith, true}
use ws2tcp_local_core.Text.{
  Text, lit, is_empty, to_ascii_lowercase, trim_matches, trim, is_alphanumeric,
}
use ws2tcp_local_core.Text.Split.{strip_prefix, contains, before}
use ws2tcp_local_core.Text.Lines.{lines}
use ws2tcp_local_core.Text.Utf8.{as_bytes}
use ws2tcp_local_core.Net.Ipv4
use ws2tcp_local_core.Tests.Ipv6.{colons}
use ws2tcp_local_core.Routing.Domains.{
  DomainRules, normalize_host_for_match, matches, extend, parse_proxy_rule_domain,
  parse_custom_domain_rule_domain, parse_custom_domain_rules_text, parse_gfwlist_text, new,
  extend_set, filter_map, domain_of, is_domain_like, is_ip, insert, member, is_name_byte,
}
use ws2tcp_local_core.Routing.Matching.{IsCovered, matches_iff}
use ws2tcp_local_core.Routing.Lists.{IsListed, parse_gfwlist_text-matches, extend-matches}
use ws2tcp_local_core.Routing.Tasks.{
  global, global_proxy, direct_fallback, domain_rules, refresh_load, refresh_write, System,
  set_mode, run, Runs, stay, then_run,
}
use ws2tcp_local_core.Routing.Races.{IsStale, IsGlobal, Runs-IsGlobal, set_mode-overwritten}

abbrev rule_list : Text
rule_list = lit "! comment" ++ (b'\n' ∷ (lit "||example.com^" ++ (b'\n' ∷ lit "@@||other.org")))

abbrev example_rules : DomainRules
example_rules = record { domains = lit "example.com" ∷ [] }

parsed : parse_gfwlist_text ⦃ipv6 = colons⦄ rule_list ≡ ok example_rules
unfolding parse_gfwlist_text new extend_set filter_map lines parse_proxy_rule_domain strip_prefix
    contains domain_of is_domain_like is_empty normalize_host_for_match to_ascii_lowercase
    trim_matches trim before is_ip Ipv4.parse insert member is_name_byte as_bytes is_alphanumeric
parsed = refl

matches_iff_example : (matches example_rules (lit "www.Example.com.") ≡ true) ↔ (
    (normalize_host_for_match (lit "www.Example.com.") ≢ [])
    × IsCovered example_rules.domains (normalize_host_for_match (lit "www.Example.com.")))
matches_iff_example = matches_iff example_rules (lit "www.Example.com.")

parse_gfwlist_text-matches_example :
    (matches example_rules (lit "www.Example.com.") ≡ true)
    ↔ IsListed
        (parse_proxy_rule_domain ⦃ipv6 = colons⦄)
        rule_list
        (normalize_host_for_match (lit "www.Example.com."))
parse_gfwlist_text-matches_example =
    parse_gfwlist_text-matches ⦃ipv6 = colons⦄ rule_list (lit "www.Example.com.") example_rules
      parsed

extend-matches_example :
    (matches
        (extend example_rules
          (parse_custom_domain_rules_text ⦃ipv6 = colons⦄ (lit "local.test # mine")))
        (lit "a.local.test")
      ≡ true)
    ↔ ((matches example_rules (lit "a.local.test") ≡ true)
        ⊎ IsListed
            (parse_custom_domain_rule_domain ⦃ipv6 = colons⦄)
            (lit "local.test # mine")
            (normalize_host_for_match (lit "a.local.test")))
extend-matches_example =
    extend-matches ⦃ipv6 = colons⦄ example_rules (lit "local.test # mine") (lit "a.local.test")

-- the refresh of generation 0 is loading when the mode has become global
abbrev global_system : System
global_system = record { state = global_proxy; generation = 1; tasks = refresh_load 0 ∷ [] }

is_global : IsGlobal global_system
unfolding IsGlobal IsStale
is_global = (refl, ((λ e. absurd (ground arith)), tt))

Runs-IsGlobal_example :
    IsGlobal (
      run (some (domain_rules example_rules none (lit "url"))) [] (refresh_load 0) [] global_system)
Runs-IsGlobal_example =
    Runs-IsGlobal global_system
      (run (some (domain_rules example_rules none (lit "url"))) [] (refresh_load 0) []
        global_system)
      is_global
      (then_run (some (domain_rules example_rules none (lit "url"))) [] (refresh_load 0) [] stay
        refl)

abbrev writing : System
writing = record {
  state = direct_fallback;
  generation = 0;
  tasks = refresh_write 0 (domain_rules example_rules none (lit "url")) ∷ [];
}

set_mode-overwritten_example :
    (s' : System) × Runs (set_mode global writing) s'
    × (s'.state ≡ domain_rules example_rules none (lit "url"))
    × (s'.generation ≡ (set_mode global writing).generation)
set_mode-overwritten_example =
    set_mode-overwritten writing 0 (domain_rules example_rules none (lit "url")) [] refl
