-- ===== src/Routing/Cache.antt =====
-- The cache of the rule list in src/routing_rules.rs: `GfwlistCache`, `is_cache_current`,
-- `write_gfwlist_cache` and the custom rules of `AutoRuleLoader`. The disk is a state: the cache
-- file, and which of its operations succeed. The check of the access at the start
-- (`check_gfwlist_cache_access`) is a Boolean.
use ws2tcp_local_core.Base.{
  Bool, true, false, List, Option, none, some, Result, ok, err, if◌then◌else◌,
}
use ws2tcp_local_core.Text.{Text, Bytes, equal}
use ws2tcp_local_core.Routing.Sources.{
  SystemTime, system_times_match_to_second, Network, Error, fetch_remote_last_modified,
  download_gfwlist_body,
}

pub record File : Type 0 where
  pub contents : Bytes
  pub modified : SystemTime

-- The cache file, if it is there; whether its metadata and contents can be read, whether it can be
-- written and its timestamp set; the time that a write leaves, and what a write that fails leaves
-- of the file, which it truncates first.
pub record Disk : Type 0 where
  pub file : Option File
  pub has_metadata : Bool
  pub is_readable : Bool
  pub is_writable : Bool
  pub can_touch : Bool
  pub now : SystemTime
  pub after_failure : Option File

pub data GfwlistCache : Type 0 where
  disk : GfwlistCache
  memory : Option Bytes → Option SystemTime → GfwlistCache

pub record Store : Type 0 where
  pub cache : GfwlistCache
  pub files : Disk

-- `GfwlistCache::new`, from whether the cache path can be used
unfoldable pub new : Bool → GfwlistCache
new true = disk
new false = memory none none

unfoldable pub memory_body_if_current : GfwlistCache → Option SystemTime → Option Bytes
memory_body_if_current disk remote = none
memory_body_if_current (memory body none) remote = none
memory_body_if_current (memory body (some cached)) none = none
memory_body_if_current (memory body (some cached)) (some remote) =
    if system_times_match_to_second cached remote then body else none

-- `is_cache_current`: none is an error
unfoldable pub is_cache_current : Disk → SystemTime → Option Bool
is_cache_current d remote = elim d.file [
  | none ↦ some false
  | some f ↦ if d.has_metadata then some (system_times_match_to_second f.modified remote) else none
]

-- the body in the cache file, if it is current; an error switches to memory
pub data Cached : Type 0 where
  current : Bytes → Cached
  stale failed : Cached

abbrev read_file : Disk → Option File → Cached
read_file d none = failed
read_file d (some f) = if d.is_readable then current f.contents else failed

unfoldable pub disk_body : Disk → Option SystemTime → Cached
disk_body d none = stale
disk_body d (some remote) = elim (is_cache_current d remote) [
  | none ↦ failed
  | some false ↦ stale
  | some true ↦ read_file d d.file
]

-- `write_gfwlist_cache`: whether it succeeds, and the disk
unfoldable pub write_gfwlist_cache : Disk → Bytes → Option SystemTime → Bool × Disk
write_gfwlist_cache d body remote =
    if d.is_writable
    then elim remote [
      | none ↦ (true, record d { file = some (record { contents = body; modified = d.now }) })
      | some time ↦
          if d.can_touch
          then (true, record d { file = some (record { contents = body; modified = time }) })
          else (false, record d { file = some (record { contents = body; modified = d.now }) })
    ]
    else (false, record d { file = d.after_failure })

-- the timestamp to keep: that of the GET, or that of the HEAD of the same source
unfoldable pub effective_modified :
    Option SystemTime → Option SystemTime → Text → Text → Option SystemTime
effective_modified (some time) remote get_source head_source = some time
effective_modified none remote get_source head_source =
    if equal get_source head_source then remote else none

-- what is kept of a download: on disk, or in memory where there is no disk or it fails
abbrev keep_written : Bytes → Option SystemTime → Bool × Disk → Store
keep_written body modified (true, d) = record { cache = disk; files = d }
keep_written body modified (false, d) = record { cache = memory (some body) modified; files = d }

unfoldable pub keep : Store → Bytes → Option SystemTime → Store
keep store body modified = elim store.cache [
  | memory _ _ ↦ record store { cache = memory (some body) modified }
  | disk ↦ keep_written body modified (write_gfwlist_cache store.files body modified)
]

module _ (network : Network) where
  abbrev pub finish_download :
      Option SystemTime
      → Text
      → Store
      → Result Error (Bytes × Option SystemTime × Text)
      → Result Error (Bytes × Text) × Store
  finish_download remote head_source store (err e) = (err e, store)
  finish_download remote head_source store (ok (body, downloaded, get_source)) = (
    ok (body, get_source),
    keep store body (effective_modified downloaded remote get_source head_source),
  )

  -- from the memory, or by a download
  abbrev pub from_memory :
      List Text
      → Option SystemTime
      → Text
      → Store
      → Option Bytes
      → Result Error (Bytes × Text) × Store
  from_memory urls remote head_source store (some body) = (ok (body, head_source), store)
  from_memory urls remote head_source store none =
      finish_download remote head_source store (download_gfwlist_body network urls)

  -- from the disk, or as above
  abbrev pub from_disk :
      List Text → Option SystemTime → Text → Store → Cached → Result Error (Bytes × Text) × Store
  from_disk urls remote head_source store (current body) = (ok (body, head_source), store)
  from_disk urls remote head_source store stale = from_memory urls remote head_source store none
  from_disk urls remote head_source store failed =
      from_memory urls remote head_source (record store { cache = memory none none }) none

  abbrev pub from_cache :
      List Text
      → Option SystemTime
      → Text
      → Store
      → GfwlistCache
      → Result Error (Bytes × Text) × Store
  from_cache urls remote head_source store disk =
      from_disk urls remote head_source store (disk_body store.files remote)
  from_cache urls remote head_source store (memory body modified) =
      from_memory urls remote head_source store
        (memory_body_if_current (memory body modified) remote)

  abbrev pub after_head :
      List Text
      → Store
      → Result Error (Option SystemTime × Text)
      → Result Error (Bytes × Text) × Store
  after_head urls store (err e) = (err e, store)
  after_head urls store (ok (remote, head_source)) =
      from_cache urls remote head_source store store.cache

  unfoldable pub load_gfwlist_body : List Text → Store → Result Error (Bytes × Text) × Store
  load_gfwlist_body urls store = after_head urls store (fetch_remote_last_modified network urls)
