-- ===== src/Routing.antt =====
-- src/routing_rules.rs. The children: `Authority` takes `host:port` apart; `Domains` reads the rule
-- lists and matches hosts, and `Matching`, `Names` and `Lists` are about it; `Sources` and `Cache`
-- fetch and keep the list, with `Reuse` about them; `Loader` is `AutoRuleLoader`, and `Loaded` is
-- about it; `Tasks` is the state that the mode switch and the refresh tasks share, with `Races`.
pub mod Authority
pub mod Domains
pub mod Matching
pub mod Names
pub mod Lists
pub mod Sources
pub mod Cache
pub mod Reuse
pub mod Tasks
pub mod Loader
pub mod Loaded
pub mod Races
