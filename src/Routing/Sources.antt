-- ===== src/Routing/Sources.antt =====
-- The sources of the rule list in src/routing_rules.rs: `fetch_remote_last_modified` and
-- `download_gfwlist_body` try the URLs in order. What the HTTP client gets is a parameter.
use ws2tcp_local_core.Base.{
  ℕ, ◌/◌, ◌≡◌, ◌⊎◌, inl, inr, refl, sym, ap, ap₂, ◌∙◌, arith, Option-cases, Bool, true, false, List,
  [], ◌∷◌, ◌++◌, Option, none, some, Result, ok, err, ◌==◌, All,
}
use ws2tcp_local_core.Text.{Text, Bytes}

-- a time before the epoch, or the nanoseconds since it
pub data SystemTime : Type 0 where
  before_epoch since_epoch : ℕ → SystemTime

-- the seconds since the epoch, `duration_since(UNIX_EPOCH).ok().map(truncate_to_second)`
unfoldable pub truncate_to_second : SystemTime → Option ℕ
truncate_to_second (before_epoch _) = none
truncate_to_second (since_epoch n) = some (n / 1000000000)

abbrev same_second : Option ℕ → Option ℕ → Bool
same_second none none = true
same_second (some a) (some b) = a == b
same_second _ _ = false

unfoldable pub system_times_match_to_second : SystemTime → SystemTime → Bool
system_times_match_to_second left right =
    same_second (truncate_to_second left) (truncate_to_second right)

-- what a GET comes to: no answer or an error status, a body that breaks off, or the whole body;
-- with the Last-Modified that can be parsed
pub data Download : Type 0 where
  refused broken : Download
  body : Bytes → Option SystemTime → Download

-- `head` is none where there is no answer or an error status
pub record Network : Type 0 where
  pub head : Text → Option (Option SystemTime)
  pub get : Text → Download

pub data Error : Type 0 where
  no_timestamp no_body no_download : Error

Download-cases :
    (d : Download)
    → (d ≡ refused) ⊎ ((d ≡ broken) ⊎ ((b : Bytes) × (m : Option SystemTime) × (d ≡ body b m)))
Download-cases refused = inl refl
Download-cases broken = inr (inl refl)
Download-cases (body b m) = inr (inr (b, m, refl))

module _ (network : Network) where
  unfoldable pub fetch_remote_last_modified : List Text → Result Error (Option SystemTime × Text)
  fetch_remote_last_modified [] = err no_timestamp
  fetch_remote_last_modified (url ∷ urls) = elim (network.head url) [
    | some modified ↦ ok (modified, url)
    | none ↦ fetch_remote_last_modified urls
  ]

  unfoldable pub download_gfwlist_body : List Text → Result Error (Bytes × Option SystemTime × Text)
  download_gfwlist_body [] = err no_download
  download_gfwlist_body (url ∷ urls) = elim (network.get url) [
    | refused ↦ download_gfwlist_body urls
    | broken ↦ err no_body
    | body bytes modified ↦ ok (bytes, modified, url)
  ]

  -- The timestamp is that of the first source that answers.
  pub fetch_remote_last_modified-first :
      (urls : List Text) (modified : Option SystemTime) (url : Text)
      → fetch_remote_last_modified urls ≡ ok (modified, url)
      → (tried : List Text) × (rest : List Text) × (urls ≡ tried ++ (url ∷ rest))
        × All (λ u. network.head u ≡ none) tried
        × (network.head url ≡ some modified)
  unfolding fetch_remote_last_modified
  fetch_remote_last_modified-first [] modified url h = cc
  fetch_remote_last_modified-first (u ∷ urls) modified url h =
      elim (Option-cases (network.head u)) [
        | inl e ↦
            let (tried, rest, whole, a, s) =
              fetch_remote_last_modified-first urls modified url (ground arith) in
            (u ∷ tried, rest, ap (λ l. u ∷ l) whole, (e, a), s)
        | inr (m, e) ↦
            let same_url : u ≡ url = ground arith in
            let same : m ≡ modified = ground arith in
            (
              [],
              urls,
              ap (λ x. x ∷ urls) same_url,
              tt,
              ap network.head (sym same_url) ∙ e ∙ ap some same,
            )
      ]

  -- The list comes from the first source that does not refuse it; one that breaks off is an
  -- error, and the sources after it are not tried.
  pub download_gfwlist_body-first :
      (urls : List Text) (bytes : Bytes) (modified : Option SystemTime) (url : Text)
      → download_gfwlist_body urls ≡ ok (bytes, modified, url)
      → (tried : List Text) × (rest : List Text) × (urls ≡ tried ++ (url ∷ rest))
        × All (λ u. network.get u ≡ refused) tried
        × (network.get url ≡ body bytes modified)
  unfolding download_gfwlist_body
  download_gfwlist_body-first [] bytes modified url h = cc
  download_gfwlist_body-first (u ∷ urls) bytes modified url h =
      elim (Download-cases (network.get u)) [
        | inl e ↦
            let (tried, rest, whole, a, s) =
              download_gfwlist_body-first urls bytes modified url (ground arith) in
            (u ∷ tried, rest, ap (λ l. u ∷ l) whole, (e, a), s)
        | inr (inl e) ↦ absurd (ground arith)
        | inr (inr (b, m, e)) ↦
            let same_url : u ≡ url = ground arith in
            let same : b ≡ bytes = ground arith in
            let same_time : m ≡ modified = ground arith in
            (
              [],
              urls,
              ap (λ x. x ∷ urls) same_url,
              tt,
              ap network.get (sym same_url) ∙ e ∙ ap₂ body same same_time,
            )
      ]
