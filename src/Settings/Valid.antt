-- ===== src/Settings/Valid.antt =====
-- What holds of the settings that `resolve` and `add_header` of src/settings.rs give.
use mathlib.Core.Path.{subst}
use ws2tcp_local_core.Base.{
  ℕ, zero, suc, ◌<◌, ◌≡◌, ◌≢◌, ◌⊎◌, refl, sym, ◌∙◌, Bool, true, false, not, List, [], ◌∷◌, Option,
  some, ok, ok_or, ok-injective, >>=-eq-ok, bail_if, arith, inl, inr, All,
}
use ws2tcp_local_core.Text.{Text, equal}
use ws2tcp_local_core.Url.{Url, UrlParser}
use ws2tcp_local_core.Websocket.{Headers}
use ws2tcp_local_core.Settings.{
  Settings, SettingsOverrides, no_listen, no_buffer, no_interval, http3_only_set, bad_gfwlist_url,
  or, unwrap_or, default_listen, default_buffer_size, default_rule_refresh_interval_secs,
  default_gfwlist_urls,
}
use ws2tcp_local_core.Settings.Resolve.{
  Files, is_zero, was_http3_only, from_config, upstream_of, trimmed, is_web, check_urls, or_default,
  resolve_gfwlist_urls, resolve,
}
use ws2tcp_local_core.Settings.Added.{is_reserved}

-- a URL of a list that can be downloaded
abbrev pub IsWebUrl : UrlParser → Text → Type 0
IsWebUrl parse_url u = (url : Url) × (parse_url u ≡ some url) × (is_web url ≡ true)

-- no header belongs to the handshake, and no two have a name in common
abbrev pub IsFree : Headers → Type 0
IsFree headers = All (λ h. is_reserved h.0 ≡ false) headers

abbrev pub IsDistinct : Headers → Type 0
IsDistinct [] = Unit
IsDistinct (h ∷ headers) = All (λ k. equal k.0 h.0 ≡ false) headers × IsDistinct headers

-- What the proxy relies on of its settings.
pub record IsValid (parse_url : UrlParser) (s : Settings) : Type 0 where
  pub buffer_pos : 0 < s.buffer_size
  pub interval_pos : 0 < s.rule_refresh_interval
  pub has_urls : s.gfwlist_urls ≢ []
  pub web_urls : (s.gfwlist_urls ≡ default_gfwlist_urls) ⊎ All (IsWebUrl parse_url) s.gfwlist_urls
  pub free_headers : IsFree s.headers
  pub distinct_headers : IsDistinct s.headers

nonzero : (n : ℕ) → is_zero n ≡ false → 0 < n
nonzero zero h = absurd (ground arith)
nonzero (suc n) h = omega arith

passed : {E : Type 0} (b : Bool) (e : E) {x : Unit {0}} → bail_if b e ≡ ok x → b ≡ false
passed true e h = absurd (ground arith)
passed false e h = refl

module _ (parse_url : UrlParser) where
  check_urls-IsWebUrl :
      (urls : List Text) → check_urls parse_url urls ≡ ok tt → All (IsWebUrl parse_url) urls
  unfolding check_urls
  check_urls-IsWebUrl [] h = tt
  check_urls-IsWebUrl (u ∷ urls) h =
      let (parsed, at_url, h1) = >>=-eq-ok (ok_or bad_gfwlist_url (parse_url u)) _ h in
      let (_, web, h2) = >>=-eq-ok (bail_if (not (is_web parsed)) bad_gfwlist_url) _ h1 in
      ((parsed, ground arith, ground arith), check_urls-IsWebUrl urls h2)

  -- The list of sources is never empty: it is the default list, or the entries that were given, all
  -- of them http or https URLs with a host.
  pub resolve_gfwlist_urls-IsWebUrl :
      (given : Option (List Text)) (urls : List Text)
      → resolve_gfwlist_urls parse_url given ≡ ok urls
      → (urls ≢ []) × ((urls ≡ default_gfwlist_urls) ⊎ All (IsWebUrl parse_url) urls)
  unfolding resolve_gfwlist_urls
  resolve_gfwlist_urls-IsWebUrl given urls h = by_list (trimmed (unwrap_or given [])) h
    where
      by_list :
          (list : List Text)
          → or_default parse_url list ≡ ok urls
          → (urls ≢ []) × ((urls ≡ default_gfwlist_urls) ⊎ All (IsWebUrl parse_url) urls)
      by_list [] h =
          let same : default_gfwlist_urls ≡ urls = ok-injective _ urls h in
          (λ e. absurd (ground (arith, same ∙ e)), inl (sym same))
      by_list (u ∷ list) h =
          let (_, checked, h1) = >>=-eq-ok (check_urls parse_url (u ∷ list)) _ h in
          let same : u ∷ list ≡ urls = ok-injective _ urls h1 in
          (
            λ e. absurd (ground (arith, same ∙ e)),
            inr (subst (All (IsWebUrl parse_url)) same (check_urls-IsWebUrl (u ∷ list) checked)),
          )

  -- Settings that are resolved have a buffer and a refresh interval that are not zero, sources for
  -- the list, and no headers of the handshake.
  pub resolve-IsValid :
      (files : Files) (decode : Text → Option Text) (overrides : SettingsOverrides) (s : Settings)
      → resolve files parse_url decode overrides ≡ ok s
      → IsValid parse_url s
  unfolding resolve
  resolve-IsValid files decode overrides s h =
      let (config, _, h1) = >>=-eq-ok (from_config files overrides.config) _ h in
      let file = config.0 in
      let (listen, _, h2) =
        >>=-eq-ok (ok_or no_listen (or (or overrides.listen file.listen) default_listen)) _ h1 in
      let buffer = unwrap_or (or overrides.buffer_size file.buffer_size) default_buffer_size in
      let (_, buffer_ok, h3) = >>=-eq-ok (bail_if (is_zero buffer) no_buffer) _ h2 in
      let secs =
        unwrap_or (or overrides.rule_refresh_interval_secs file.rule_refresh_interval_secs)
          default_rule_refresh_interval_secs in
      let (_, secs_ok, h4) = >>=-eq-ok (bail_if (is_zero secs) no_interval) _ h3 in
      let (_, _, h5) = >>=-eq-ok (bail_if (was_http3_only file.http3_only) http3_only_set) _ h4 in
      let (urls, urls_ok, h6) =
        >>=-eq-ok (resolve_gfwlist_urls parse_url (or overrides.gfwlist_urls file.gfwlist_urls)) _
          h5 in
      let (proxy, _, h7) =
        >>=-eq-ok (upstream_of parse_url decode (or overrides.upstream_proxy file.upstream_proxy)) _
          h6 in
      let list = resolve_gfwlist_urls-IsWebUrl _ urls urls_ok in
      let secs_pos : 0 < secs = nonzero secs (passed _ no_interval secs_ok) in
      subst (IsValid parse_url) (ok-injective _ s h7) (record {
        buffer_pos = nonzero buffer (passed _ no_buffer buffer_ok);
        interval_pos = omega (arith, secs_pos);
        has_urls = list.0;
        web_urls = list.1;
        free_headers = tt;
        distinct_headers = tt;
      })
