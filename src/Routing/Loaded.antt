-- ===== src/Routing/Loaded.antt =====
-- What the rules match that `AutoRuleLoader::load_state` loads.
use ws2tcp_local_core.Base.{◌≡◌, ◌↔◌, ◌⊎◌, refl, true, List, Option, some, Result, ok, err}
use ws2tcp_local_core.Text.{Text, Bytes}
use ws2tcp_local_core.Net.Ipv6.{Ipv6Text}
use ws2tcp_local_core.Routing.Domains.{
  DomainRules, extend, parse_custom_domain_rules_text, matches, parse_gfwlist,
  parse_custom_domain_rule_domain, normalize_host_for_match,
}
use ws2tcp_local_core.Routing.Domains
use ws2tcp_local_core.Routing.Lists.{IsListed, extend-matches}
use ws2tcp_local_core.Routing.Sources
use ws2tcp_local_core.Routing.Sources.{SystemTime, Network}
use ws2tcp_local_core.Routing.Cache.{Store, load_gfwlist_body}
use ws2tcp_local_core.Routing.Loader.{
  CustomFile, LoadError, not_loaded, not_parsed, new, load_custom_domain_rules, with_rules,
  with_body, to_state, download_and_parse, load_state,
}
use ws2tcp_local_core.Routing.Tasks.{RoutingRulesState, domain_rules, should_proxy_host}

module _ ⦃ipv6 : Ipv6Text⦄ (read_custom : Text → Option CustomFile) where
  -- the rules of the list and of the custom text make up the state, which sends a host to the
  -- gateway just when a rule of the list or the custom text matches it; a list without rules is
  -- an error
  abbrev pub IsParsed :
      Text → Text → Result Domains.Error DomainRules → Result LoadError RoutingRulesState → Type 0
  IsParsed text host (ok rules) x =
      (s : RoutingRulesState) × (x ≡ ok s)
      × ((should_proxy_host s host ≡ true) ↔ (
          (matches rules host ≡ true)
          ⊎ IsListed parse_custom_domain_rule_domain text (normalize_host_for_match host)))
  IsParsed text host (err e) x = x ≡ err (not_parsed e)

  -- the same from the body of the list, without which nothing is loaded
  unfoldable pub IsLoaded :
      Text
      → Text
      → (Bytes → Option Bytes)
      → Result Sources.Error (Bytes × Text)
      → Result LoadError RoutingRulesState
      → Type 0
  IsLoaded text host decode (ok (body, source)) x = IsParsed text host (parse_gfwlist decode body) x
  IsLoaded text host decode (err e) x = x ≡ err (not_loaded e)

  -- When a new loader has a custom file that can be read, it loads the rules wherever the list is
  -- loaded and parsed: a host is sent to the gateway just when the list matches it or a line of
  -- the file gives a name that it is or stands below. Otherwise it fails with the error of the
  -- list.
  pub load_state-IsLoaded :
      (network : Network) (decode : Bytes → Option Bytes) (path : Text) (time : SystemTime)
      (text : Text) (urls : List Text) (store : Store) (host : Text)
      → read_custom path ≡ some (record { modified = time; text = some text })
      → IsLoaded text host decode
          (load_gfwlist_body network urls store).0
          (load_state read_custom network decode (new (some path) urls store)).0
  unfolding load_state download_and_parse IsLoaded load_custom_domain_rules new
  load_state-IsLoaded network decode path time text urls store host h =
      by_body (load_gfwlist_body network urls store)
    where
      by_rules :
          (source : Text) (store' : Store) (r : Result Domains.Error DomainRules)
          → IsParsed text host r
              (to_state read_custom
                (with_rules read_custom (new (some path) urls store') source r)).0
      by_rules source store' (err e) = refl
      by_rules source store' (ok rules) = rw h (
        domain_rules (extend rules (parse_custom_domain_rules_text text)) (some path) source,
        refl,
        unfold should_proxy_host in extend-matches rules text host,
      )

      by_body :
          (x : Result Sources.Error (Bytes × Text) × Store)
          → IsLoaded text host decode x.0
              (to_state read_custom (with_body read_custom decode (new (some path) urls store) x)).0
      by_body (err e, store') = refl
      by_body (ok (body, source), store') = by_rules source store' (parse_gfwlist decode body)
