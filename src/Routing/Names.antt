-- ===== src/Routing/Names.antt =====
-- A name that a rule gives is the same when it is normalized again.
use ws2tcp_local_core.Base.{
  ℕ, ◌≡◌, refl, sym, ap, ◌∙◌, Bool, true, false, List, [], ◌∷◌, ◌++◌, some, arith, all, any,
}
use mathlib.Core.Option.{some-injective}
use ws2tcp_local_core.Text.{
  Text, is_empty, is_whitespace, is_alphanumeric, trim, trim_start, trim_end, trim_matches, lower,
  to_ascii_lowercase,
}
use ws2tcp_local_core.Text.Utf8.{encode_char, as_bytes}
use ws2tcp_local_core.Text.Trim.{trim_matches_idem, trim_same}
use ws2tcp_local_core.Net.Ipv6.{Ipv6Text}
use ws2tcp_local_core.Routing.Domains.{
  normalize_host_for_match, is_dot, is_name_byte, then_some, is_domain_like, domain_of,
}

encode_char-name : (c : ℕ) → all is_name_byte (encode_char c) ≡ true → is_whitespace c ≡ false
unfolding encode_char is_name_byte is_alphanumeric is_whitespace
encode_char-name c h = ground arith

all-append :
    (p : ℕ → Bool) (a b : List ℕ) → all p (a ++ b) ≡ true → (all p a ≡ true) × (all p b ≡ true)
all-append p [] b h = (refl, h)
all-append p (x ∷ a) b h =
    let rest = all-append p a b (ground arith) in (ground (arith, rest.0), rest.1)

names-blank : (s : Text) → all is_name_byte (as_bytes s) ≡ true → any is_whitespace s ≡ false
unfolding as_bytes
names-blank [] h = refl
names-blank (c ∷ s) h =
    let parts = all-append is_name_byte (encode_char c) (as_bytes s) h in
    ground (arith, encode_char-name c parts.0, names-blank s parts.1)

lower-dot : (c : ℕ) → is_dot (lower c) ≡ is_dot c
unfolding lower
lower-dot c = ground arith

lower_idem : (c : ℕ) → lower (lower c) ≡ lower c
unfolding lower
lower_idem c = ground arith

to_ascii_lowercase_idem :
    (s : Text) → to_ascii_lowercase (to_ascii_lowercase s) ≡ to_ascii_lowercase s
unfolding to_ascii_lowercase
to_ascii_lowercase_idem [] = refl
to_ascii_lowercase_idem (c ∷ s) = rw (lower_idem c, to_ascii_lowercase_idem s)

trim_start-lower :
    (s : Text) → trim_start is_dot (to_ascii_lowercase s) ≡ to_ascii_lowercase (trim_start is_dot s)
unfolding trim_start to_ascii_lowercase
trim_start-lower [] = refl
trim_start-lower (c ∷ s) = ground (arith, lower-dot c, trim_start-lower s)

is_empty-lower : (s : Text) → is_empty (to_ascii_lowercase s) ≡ is_empty s
unfolding is_empty to_ascii_lowercase
is_empty-lower [] = refl
is_empty-lower (c ∷ s) = refl

trim_end-lower :
    (s : Text) → trim_end is_dot (to_ascii_lowercase s) ≡ to_ascii_lowercase (trim_end is_dot s)
unfolding trim_end to_ascii_lowercase
trim_end-lower [] = refl
trim_end-lower (c ∷ s) = ground (
  arith,
  lower-dot c,
  trim_end-lower s,
  is_empty-lower (trim_end is_dot s),
  ap is_empty (trim_end-lower s),
)

trim_matches-lower :
    (s : Text)
    → trim_matches is_dot (to_ascii_lowercase s) ≡ to_ascii_lowercase (trim_matches is_dot s)
unfolding trim_matches
trim_matches-lower s =
    ap (trim_end is_dot) (trim_start-lower s) ∙ trim_end-lower (trim_start is_dot s)

-- without blanks, normalizing again changes nothing
normalize_host_for_match_same :
    (host : Text)
    → any is_whitespace (normalize_host_for_match host) ≡ false
    → normalize_host_for_match (normalize_host_for_match host) ≡ normalize_host_for_match host
unfolding normalize_host_for_match
normalize_host_for_match_same host h =
    let s = trim_matches is_dot (trim host) in
    ap (λ t. to_ascii_lowercase (trim_matches is_dot t)) (trim_same (to_ascii_lowercase s) h)
    ∙ ap to_ascii_lowercase
        (trim_matches-lower s ∙ ap to_ascii_lowercase (trim_matches_idem is_dot (trim host)))
    ∙ to_ascii_lowercase_idem s

module _ ⦃ipv6 : Ipv6Text⦄ where
  domain_of-is_domain_like :
      (rule d : Text)
      → domain_of rule ≡ some d
      → (is_domain_like d ≡ true) × (d ≡ normalize_host_for_match rule)
  unfolding domain_of
  domain_of-is_domain_like rule d h =
      chosen (normalize_host_for_match rule) (is_domain_like (normalize_host_for_match rule)) refl h
    where
      chosen :
          (x : Text) (b : Bool)
          → is_domain_like x ≡ b
          → then_some b x ≡ some d
          → (is_domain_like d ≡ true) × (d ≡ x)
      chosen x true e k =
          let same = some-injective _ _ k in (ap is_domain_like (sym same) ∙ e, sym same)
      chosen x false e k = cc

  -- A domain is not empty and stays as it is.
  pub domain_of-same :
      (rule d : Text)
      → domain_of rule ≡ some d
      → (normalize_host_for_match d ≡ d) × (is_empty d ≡ false)
  unfolding is_domain_like
  domain_of-same rule d h =
      let (like, e) = domain_of-is_domain_like rule d h in
      let names : all is_name_byte (as_bytes d) ≡ true = ground arith in
      (
        ap normalize_host_for_match e
            ∙ normalize_host_for_match_same rule
                (ap (any is_whitespace) (sym e) ∙ names-blank d names)
            ∙ sym e,
        ground arith,
      )
