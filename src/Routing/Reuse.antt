-- ===== src/Routing/Reuse.antt =====
-- Where the body of the rule list comes from.
use mathlib.Core.Path.{subst}
use ws2tcp_local_core.Base.{
  ◌≡◌, ◌⊎◌, inl, inr, refl, ap, ap₂, ◌∙◌, true, List, Option, none, some, Result, ok, err, arith,
  Option-cases,
}
use ws2tcp_local_core.Text.{Text, Bytes}
use ws2tcp_local_core.Routing.Sources.{
  SystemTime, system_times_match_to_second, Network, body, fetch_remote_last_modified,
  download_gfwlist_body, Error, fetch_remote_last_modified-first, download_gfwlist_body-first,
}
use ws2tcp_local_core.Routing.Cache.{
  File, Disk, GfwlistCache, disk, memory, Store, Cached, current, stale, failed, is_cache_current,
  disk_body, memory_body_if_current, from_disk, from_memory, from_cache, finish_download,
  after_head, load_gfwlist_body,
}

-- the store holds `bytes`, of a time that matches `remote` to the second
abbrev pub IsHeld : Store → Bytes → SystemTime → Type 0
IsHeld store bytes remote =
    ((f : File) × (store.files.file ≡ some f)
      × (f.contents ≡ bytes)
      × (system_times_match_to_second f.modified remote ≡ true))
    ⊎ ((kept : SystemTime) × (store.cache ≡ memory (some bytes) (some kept))
        × (system_times_match_to_second kept remote ≡ true))

disk_body-current :
    (d : Disk) (r : Option SystemTime) (bytes : Bytes)
    → disk_body d r ≡ current bytes
    → (remote : SystemTime) × (r ≡ some remote)
      × ((f : File) × (d.file ≡ some f)
          × (f.contents ≡ bytes)
          × (system_times_match_to_second f.modified remote ≡ true))
unfolding disk_body is_cache_current
disk_body-current d none bytes h = cc
disk_body-current d (some remote) bytes h = elim (Option-cases d.file) [
  | inl e ↦ absurd (ground arith)
  | inr (f, e) ↦ (remote, refl, (f, e, ground arith, ground arith))
]

memory-current :
    (b : Option Bytes) (m r : Option SystemTime) (bytes : Bytes)
    → memory_body_if_current (memory b m) r ≡ some bytes
    → (remote : SystemTime) × (kept : SystemTime) × (r ≡ some remote)
      × (m ≡ some kept)
      × (b ≡ some bytes)
      × (system_times_match_to_second kept remote ≡ true)
unfolding memory_body_if_current
memory-current b none r bytes h = cc
memory-current b (some kept) none bytes h = cc
memory-current b (some kept) (some remote) bytes h =
    (remote, kept, refl, refl, ground arith, ground arith)

module _ (network : Network) where
  -- the body was downloaded from `source`, or the store held it, of the time that `source` names
  abbrev pub IsSourced : Store → Bytes → Text → Type 0
  IsSourced store bytes source =
      ((m : Option SystemTime) × (network.get source ≡ body bytes m))
      ⊎ ((remote : SystemTime) × (network.head source ≡ some (some remote))
          × IsHeld store bytes remote)

  Source : Store → Result Error (Bytes × Text) × Store → Type 0
  Source store (ok (bytes, source), _) = IsSourced store bytes source
  Source store (err _, _) = Unit

  finish_download-Source :
      (urls : List Text) (remote : Option SystemTime) (head : Text) (store before : Store)
      → Source before
          (finish_download network remote head store (download_gfwlist_body network urls))
  finish_download-Source urls remote head store before =
      by_download (download_gfwlist_body network urls) refl
    where
      by_download :
          (x : Result Error (Bytes × Option SystemTime × Text))
          → download_gfwlist_body network urls ≡ x
          → Source before (finish_download network remote head store x)
      by_download (err e) h = unfold Source in tt
      by_download (ok (bytes, m, source)) h =
          let (_, _, _, _, e) = download_gfwlist_body-first network urls bytes m source h in
          unfold Source in inl (m, e)

  from_cache-Source :
      (urls : List Text) (r : Option SystemTime) (head : Text) (store : Store)
      → network.head head ≡ some r
      → (c : GfwlistCache) → store.cache ≡ c
      → Source store (from_cache network urls r head store c)
  unfolding Source
  from_cache-Source urls r head store h disk e = by_disk (disk_body store.files r) refl
    where
      by_disk :
          (x : Cached)
          → disk_body store.files r ≡ x
          → Source store (from_disk network urls r head store x)
      by_disk stale k = finish_download-Source urls r head store store
      by_disk failed k =
          finish_download-Source urls r head (record store { cache = memory none none }) store
      by_disk (current bytes) k =
          let (remote, same, held) = disk_body-current store.files r bytes k in
          inr (remote, h ∙ ap some same, inl held)
  from_cache-Source urls r head store h (memory b m) e =
      by_memory (memory_body_if_current (memory b m) r) refl
    where
      by_memory :
          (x : Option Bytes)
          → memory_body_if_current (memory b m) r ≡ x
          → Source store (from_memory network urls r head store x)
      by_memory none k = finish_download-Source urls r head store store
      by_memory (some bytes) k =
          let (remote, kept, same, m_is, b_is, match) = memory-current b m r bytes k in
          inr (remote, h ∙ ap some same, inr (kept, e ∙ ap₂ memory b_is m_is, match))

  -- The body that is loaded was downloaded from the source that is named, or was held, on disk or
  -- in memory, with a time that matches the one this source gave to the second.
  pub load_gfwlist_body-IsSourced :
      (urls : List Text) (store store' : Store) (bytes : Bytes) (source : Text)
      → load_gfwlist_body network urls store ≡ (ok (bytes, source), store')
      → IsSourced store bytes source
  unfolding load_gfwlist_body Source
  load_gfwlist_body-IsSourced urls store store' bytes source h =
      subst (Source store) h (by_head (fetch_remote_last_modified network urls) refl)
    where
      by_head :
          (x : Result Error (Option SystemTime × Text))
          → fetch_remote_last_modified network urls ≡ x
          → Source store (after_head network urls store x)
      by_head (err e) k = tt
      by_head (ok (r, head)) k =
          let (_, _, _, _, e) = fetch_remote_last_modified-first network urls r head k in
          from_cache-Source urls r head store e store.cache refl
