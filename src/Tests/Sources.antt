-- ===== src/Tests/Sources.antt =====
-- The sources of the rule list and its cache at concrete inputs, and the witnesses.
use ws2tcp_local_core.Base.{◌≡◌, refl, true, List, [], ◌∷◌, ◌++◌, Option, none, some, ok, All}
use ws2tcp_local_core.Text.{Text, Bytes, lit, equal}
use ws2tcp_local_core.Tests.Ipv6.{colons}
use ws2tcp_local_core.Routing.Sources.{
  SystemTime, since_epoch, truncate_to_second, system_times_match_to_second, Network, body, refused,
  fetch_remote_last_modified, download_gfwlist_body, download_gfwlist_body-first,
}
use ws2tcp_local_core.Routing.Cache.{
  disk, Store, load_gfwlist_body, disk_body, is_cache_current, keep, write_gfwlist_cache,
  effective_modified,
}
use ws2tcp_local_core.Routing.Reuse.{IsSourced, load_gfwlist_body-IsSourced}
use ws2tcp_local_core.Routing.Loader.{CustomFile, new, load_state}
use ws2tcp_local_core.Routing.Loaded.{IsLoaded, load_state-IsLoaded}

abbrev noon : SystemTime
noon = since_epoch 43200000000000

abbrev mirror : Network
mirror = record {
  head = λ url. elim (equal url (lit "mirror")) [ true ↦ some (some noon) | _ ↦ none ];
  get =
      λ url. elim (equal url (lit "mirror")) [ true ↦ body (lit "list") (some noon) | _ ↦ refused ];
}

abbrev sources : List Text
sources = lit "main" ∷ lit "mirror" ∷ []

get_answers : download_gfwlist_body mirror sources ≡ ok (lit "list", some noon, lit "mirror")
unfolding download_gfwlist_body equal
get_answers = refl

download_gfwlist_body-first_example :
    (tried : List Text) × (rest : List Text) × (sources ≡ tried ++ (lit "mirror" ∷ rest))
    × All (λ u. mirror.get u ≡ refused) tried
    × (mirror.get (lit "mirror") ≡ body (lit "list") (some noon))
download_gfwlist_body-first_example =
    download_gfwlist_body-first mirror sources (lit "list") (some noon) (lit "mirror") get_answers

-- a disk that works, without and with the list
abbrev empty_store : Store
empty_store = record {
  cache = disk;
  files = record {
    file = none;
    has_metadata = true;
    is_readable = true;
    is_writable = true;
    can_touch = true;
    after_failure = none;
    now = noon;
  };
}

abbrev filled_store : Store
filled_store = record {
  cache = disk;
  files = record {
    file = some (record { contents = lit "list"; modified = noon });
    has_metadata = true;
    is_readable = true;
    is_writable = true;
    can_touch = true;
    after_failure = none;
    now = noon;
  };
}

downloads :
    load_gfwlist_body mirror sources empty_store ≡ (ok (lit "list", lit "mirror"), filled_store)
unfolding load_gfwlist_body fetch_remote_last_modified equal disk_body is_cache_current
    download_gfwlist_body keep write_gfwlist_cache effective_modified
downloads = refl

reuses :
    load_gfwlist_body mirror sources filled_store ≡ (ok (lit "list", lit "mirror"), filled_store)
unfolding load_gfwlist_body fetch_remote_last_modified equal disk_body is_cache_current
    system_times_match_to_second truncate_to_second
reuses = refl

load_gfwlist_body-IsSourced_example : IsSourced mirror filled_store (lit "list") (lit "mirror")
load_gfwlist_body-IsSourced_example =
    load_gfwlist_body-IsSourced mirror sources filled_store filled_store (lit "list") (lit "mirror")
      reuses

abbrev read_mine : Text → Option CustomFile
read_mine path = some (record { modified = noon; text = some (lit "local.test") })

abbrev decoded : Bytes → Option Bytes
decoded b = some (lit "||example.com")

load_state-IsLoaded_example :
    IsLoaded ⦃ipv6 = colons⦄ read_mine
      (lit "local.test")
      (lit "a.local.test")
      decoded
      (load_gfwlist_body mirror sources empty_store).0
      (load_state ⦃ipv6 = colons⦄ read_mine mirror decoded
        (new (some (lit "mine")) sources empty_store)).0
load_state-IsLoaded_example =
    load_state-IsLoaded ⦃ipv6 = colons⦄ read_mine mirror decoded (lit "mine") noon
      (lit "local.test") sources empty_store (lit "a.local.test") refl
