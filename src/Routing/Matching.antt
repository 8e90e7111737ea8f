-- ===== src/Routing/Matching.antt =====
-- Which hosts a set of rules matches: the names of the set and everything below them.
use ws2tcp_local_core.Base.{
  ◌≡◌, ◌≢◌, ◌↔◌, ◌⊎◌, inl, inr, refl, ap, true, false, ◌&&◌, List, [], ◌∷◌, ◌++◌, arith, ◌==◌,
  if◌then◌else◌, Bool-cases, In,
}
use ws2tcp_local_core.Text.{Text, is_empty}
use ws2tcp_local_core.Text.Equal.{equal_iff}
use ws2tcp_local_core.Routing.Domains.{
  DomainRules, member, normalize_host_for_match, matches_after_dot, matches,
}

pub member_iff : (d : Text) (xs : List Text) → (member d xs ≡ true) ↔ In d xs
unfolding member
member_iff d [] = ground arith
member_iff d (x ∷ xs) = ground (arith, equal_iff x d, member_iff d xs)

-- `d` stands behind a dot of `s`
unfoldable pub IsBelow : Text → Text → Type 0
IsBelow s d = (pre : Text) × (s ≡ pre ++ (b'.' ∷ d))

below→matches :
    (ds : List Text) (d pre : Text) → In d ds → matches_after_dot ds (pre ++ (b'.' ∷ d)) ≡ true
unfolding matches_after_dot
below→matches ds d [] h = ground (arith, (member_iff d ds).1 h)
below→matches ds d (c ∷ pre) h = ground (arith, below→matches ds d pre h)

matches→below :
    (ds : List Text) (s : Text) → matches_after_dot ds s ≡ true → (d : Text) × In d ds × IsBelow s d
unfolding matches_after_dot IsBelow
matches→below ds [] h = absurd (ground arith)
matches→below ds (c ∷ s) h = elim (Bool-cases (c == b'.' && member s ds)) [
  | inl e ↦
      let dot : c ≡ b'.' = ground arith in
      let m : member s ds ≡ true = ground arith in
      (s, (member_iff s ds).0 m, ([], ap (λ x. x ∷ s) dot))
  | inr e ↦
      let (d, i, (pre, k)) = matches→below ds s (ground arith) in
      (d, i, (c ∷ pre, ap (λ t. c ∷ t) k))
]

-- `host` is a name of `ds` or stands below one
unfoldable pub IsCovered : List Text → Text → Type 0
unfolding IsBelow
IsCovered ds host = (d : Text) × In d ds × ((host ≡ d) ⊎ IsBelow host d)

-- A host is matched just when it is not empty without blanks, outer dots and case and then is a
-- name of the set or ends in a dot and a name of the set: a match starts at a label.
pub matches_iff :
    (rules : DomainRules) (host : Text)
    → (matches rules host ≡ true) ↔ (
        (normalize_host_for_match host ≢ [])
        × IsCovered rules.domains (normalize_host_for_match host))
unfolding matches is_empty IsCovered IsBelow
matches_iff rules host = by_host rules.domains (normalize_host_for_match host)
  where
    by_host :
        (ds : List Text) (s : Text)
        → ((if is_empty s then false else if member s ds then true else matches_after_dot ds s)
            ≡ true)
          ↔ ((s ≢ []) × IsCovered ds s)
    by_host ds [] = ((λ h. absurd (ground arith)), λ (full, _). absurd (full refl))
    by_host ds (c ∷ s) = (
      (λ h. (
        (λ e. cc),
        elim (Bool-cases (member (c ∷ s) ds)) [
          | inl e ↦ (c ∷ s, (member_iff (c ∷ s) ds).0 e, inl refl)
          | inr e ↦ let (d, i, below) = matches→below ds (c ∷ s) (ground arith) in (d, i, inr below)
        ],
      )),
      λ (_, (d, i, k)). elim k [
        | inl e ↦ ground (arith, (member_iff (c ∷ s) ds).1 (rw e i))
        | inr (pre, e) ↦ ground (arith, below→matches ds d pre i, ap (matches_after_dot ds) e)
      ],
    )
