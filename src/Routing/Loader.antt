-- ===== src/Routing/Loader.antt =====
-- `AutoRuleLoader` and the descriptions of the rules in src/routing_rules.rs. A path is its text; the
-- custom file is what the disk gives for the path.
use ws2tcp_local_core.Base.{List, [], ◌∷◌, ◌++◌, Option, none, some, Result, ok, err, if◌then◌else◌}
use ws2tcp_local_core.Text.{Text, Bytes, lit}
use ws2tcp_local_core.Text.Number.{decimal}
use ws2tcp_local_core.Net.Ipv6.{Ipv6Text}
use ws2tcp_local_core.Routing.Domains.{
  DomainRules, parse_gfwlist, parse_custom_domain_rules_text, extend, len,
}
use ws2tcp_local_core.Routing.Domains
use ws2tcp_local_core.Routing.Sources
use ws2tcp_local_core.Routing.Sources.{SystemTime, system_times_match_to_second, Network}
use ws2tcp_local_core.Routing.Cache.{Store, load_gfwlist_body}
use ws2tcp_local_core.Routing.Tasks.{RoutingRulesState, domain_rules, global_proxy, direct_fallback}

-- The custom file: its time, and its text if it can be read.
pub record CustomFile : Type 0 where
  pub modified : SystemTime
  pub text : Option Text

pub record CustomDomainRulesCache : Type 0 where
  pub modified : SystemTime
  pub domains : List Text

pub record AutoRuleLoader : Type 0 where
  pub custom_domain_rules : Option Text
  pub custom_cache : Option CustomDomainRulesCache
  pub gfwlist_urls : List Text
  pub gfwlist_cache : Store

pub data LoadError : Type 0 where
  not_loaded : Sources.Error → LoadError
  not_parsed : Domains.Error → LoadError
  no_custom_timestamp no_custom_rules : LoadError

-- `describe_gfwlist_urls`, with the join of the fallbacks
abbrev join_comma : List Text → Text
join_comma [] = []
join_comma (u ∷ []) = u
join_comma (u ∷ v ∷ us) = u ++ (lit ", " ++ join_comma (v ∷ us))

unfoldable pub describe_gfwlist_urls : List Text → Text
describe_gfwlist_urls [] = lit "no gfwlist sources"
describe_gfwlist_urls (only ∷ []) = only
describe_gfwlist_urls (first ∷ second ∷ rest) =
    first ++ (lit " (fallback " ++ (join_comma (second ∷ rest) ++ lit ")"))

-- `RoutingRulesState::mode`
unfoldable pub mode : RoutingRulesState → Text
mode (domain_rules _ _ _) = lit "auto"
mode direct_fallback = lit "auto"
mode global_proxy = lit "global"

-- `RoutingRulesState::describe`
unfoldable pub describe : RoutingRulesState → List Text → Text
describe (domain_rules rules (some path) source) urls =
    decimal (len rules)
    ++ (lit " domains from " ++ (source ++ (lit " plus custom rules from " ++ path)))
describe (domain_rules rules none source) urls =
    decimal (len rules) ++ (lit " domains from " ++ source)
describe global_proxy urls = lit "all domains via proxy; proxy mode is global"
describe direct_fallback urls = lit "direct routing; failed to load " ++ describe_gfwlist_urls urls

-- `AutoRuleLoader::new`, with the disk and the cache that it found
unfoldable pub new : Option Text → List Text → Store → AutoRuleLoader
new custom urls store = record {
  custom_domain_rules = custom;
  custom_cache = none;
  gfwlist_urls = urls;
  gfwlist_cache = store;
}

module _ ⦃ipv6 : Ipv6Text⦄ (read_custom : Text → Option CustomFile) where
  abbrev is_cached : Option CustomDomainRulesCache → SystemTime → Option (List Text)
  is_cached none time = none
  is_cached (some c) time =
      if system_times_match_to_second c.modified time then some c.domains else none

  abbrev read_rules :
      AutoRuleLoader
      → SystemTime
      → Option Text
      → Result LoadError (Option (List Text)) × AutoRuleLoader
  read_rules loader time none = (err no_custom_rules, loader)
  read_rules loader time (some text) =
      let domains = parse_custom_domain_rules_text text in
      (
        ok (some domains),
        record loader { custom_cache = some (record { modified = time; domains = domains }) },
      )

  abbrev use_cached :
      AutoRuleLoader
      → CustomFile
      → Option (List Text)
      → Result LoadError (Option (List Text)) × AutoRuleLoader
  use_cached loader file (some domains) = (ok (some domains), loader)
  use_cached loader file none = read_rules loader file.modified file.text

  abbrev with_file :
      AutoRuleLoader → Option CustomFile → Result LoadError (Option (List Text)) × AutoRuleLoader
  with_file loader none = (err no_custom_timestamp, loader)
  with_file loader (some file) =
      use_cached loader file (is_cached loader.custom_cache file.modified)

  abbrev with_path :
      AutoRuleLoader → Option Text → Result LoadError (Option (List Text)) × AutoRuleLoader
  with_path loader none = (ok none, loader)
  with_path loader (some path) = with_file loader (read_custom path)

  unfoldable pub load_custom_domain_rules :
      AutoRuleLoader → Result LoadError (Option (List Text)) × AutoRuleLoader
  load_custom_domain_rules loader = with_path loader loader.custom_domain_rules

  abbrev extend_with : DomainRules → Option (List Text) → DomainRules
  extend_with rules none = rules
  extend_with rules (some domains) = extend rules domains

  abbrev add_custom :
      DomainRules
      → Text
      → Result LoadError (Option (List Text)) × AutoRuleLoader
      → Result LoadError (DomainRules × Text) × AutoRuleLoader
  add_custom rules source (err e, loader) = (err e, loader)
  add_custom rules source (ok custom, loader) = (ok (extend_with rules custom, source), loader)

  abbrev pub with_rules :
      AutoRuleLoader
      → Text
      → Result Domains.Error DomainRules
      → Result LoadError (DomainRules × Text) × AutoRuleLoader
  with_rules loader source (err e) = (err (not_parsed e), loader)
  with_rules loader source (ok rules) = add_custom rules source (load_custom_domain_rules loader)

  abbrev pub with_body :
      (Bytes → Option Bytes)
      → AutoRuleLoader
      → Result Sources.Error (Bytes × Text) × Store
      → Result LoadError (DomainRules × Text) × AutoRuleLoader
  with_body decode loader (err e, store) =
      (err (not_loaded e), record loader { gfwlist_cache = store })
  with_body decode loader (ok (body, source), store) =
      with_rules (record loader { gfwlist_cache = store }) source (parse_gfwlist decode body)

  unfoldable pub download_and_parse :
      Network
      → (Bytes → Option Bytes)
      → AutoRuleLoader
      → Result LoadError (DomainRules × Text) × AutoRuleLoader
  download_and_parse network decode loader =
      with_body decode loader (load_gfwlist_body network loader.gfwlist_urls loader.gfwlist_cache)

  -- `from_domain_rules` of what was loaded
  abbrev pub to_state :
      Result LoadError (DomainRules × Text) × AutoRuleLoader
      → Result LoadError RoutingRulesState × AutoRuleLoader
  to_state (err e, loader) = (err e, loader)
  to_state (ok (rules, source), loader) =
      (ok (domain_rules rules loader.custom_domain_rules source), loader)

  unfoldable pub load_state :
      Network
      → (Bytes → Option Bytes)
      → AutoRuleLoader
      → Result LoadError RoutingRulesState × AutoRuleLoader
  load_state network decode loader = to_state (download_and_parse network decode loader)
