-- ===== src/Text/Cuts.antt =====
-- What the splits at one place give back: the parts, and that nothing is lost between them.
use ws2tcp_local_core.Base.{
  ℕ, ◌+◌, ◌-◌, ◌*◌, ◌≡◌, refl, false, [], ◌∷◌, ◌++◌, none, some, arith, Option-cases, inl, inr, ap,
  ◌∙◌,
}
use ws2tcp_local_core.Text.{Text, is_digit}
use ws2tcp_local_core.Text.Split.{
  contains, strip_prefix, strip_suffix, split_once, split_once_at, rsplit_once,
}
use ws2tcp_local_core.Text.Number.{digits_to, parse_u16}

pub strip_prefix-append : (p s : Text) → strip_prefix p (p ++ s) ≡ some s
unfolding strip_prefix
strip_prefix-append [] s = refl
strip_prefix-append (c ∷ p) s = ground (arith, strip_prefix-append p s)

pub strip_prefix-eq_some : (p s r : Text) → strip_prefix p s ≡ some r → s ≡ p ++ r
unfolding strip_prefix
strip_prefix-eq_some [] s r h = ground arith
strip_prefix-eq_some (c ∷ p) [] r h = cc
strip_prefix-eq_some (c ∷ p) (x ∷ s) r h = ground (arith, strip_prefix-eq_some p s r)

pub strip_suffix-concat : (c : ℕ) (s : Text) → strip_suffix c (s ++ c ∷ []) ≡ some s
unfolding strip_suffix
strip_suffix-concat c [] = ground arith
strip_suffix-concat c (x ∷ []) = ground arith
strip_suffix-concat c (x ∷ y ∷ s) = rw (strip_suffix-concat c (y ∷ s), strip_suffix)

pub strip_suffix-eq_some : (c : ℕ) (s r : Text) → strip_suffix c s ≡ some r → s ≡ r ++ (c ∷ [])
unfolding strip_suffix
strip_suffix-eq_some c [] r h = absurd (ground arith)
strip_suffix-eq_some c (x ∷ []) r h = ground arith
strip_suffix-eq_some c (x ∷ y ∷ s) r h = elim (Option-cases (strip_suffix c (y ∷ s))) [
  | inl e ↦ absurd (ground arith)
  | inr (t, e) ↦
      let step = strip_suffix-eq_some c (y ∷ s) t e in
      let same : x ∷ t ≡ r = ground arith in ap (λ l. x ∷ l) step ∙ ap (λ l. l ++ (c ∷ [])) same
]

pub split_once-eq_some :
    (c : ℕ) (s a b : Text)
    → split_once c s ≡ some (a, b)
    → (s ≡ a ++ (c ∷ b)) × (contains c a ≡ false)
unfolding split_once contains
split_once-eq_some c [] a b h = cc
split_once-eq_some c (x ∷ s) [] b h = ground (arith, split_once-eq_some c s [] b)
split_once-eq_some c (x ∷ s) (y ∷ a) b h = ground (arith, split_once-eq_some c s a b)

pub split_once-append :
    (c : ℕ) (a b : Text) → contains c a ≡ false → split_once c (a ++ (c ∷ b)) ≡ some (a, b)
unfolding split_once contains
split_once-append c [] b h = ground arith
split_once-append c (x ∷ a) b h = ground (arith, split_once-append c a b)

pub split_once_at-eq_some : (p s a b : Text) → split_once_at p s ≡ some (a, b) → s ≡ a ++ (p ++ b)
unfolding split_once_at
split_once_at-eq_some p [] a b h = ground (arith, strip_prefix-eq_some p [] b)
split_once_at-eq_some p (x ∷ s) [] b h = ground (arith, strip_prefix-eq_some p (x ∷ s) b)
split_once_at-eq_some p (x ∷ s) (y ∷ a) b h = ground (arith, split_once_at-eq_some p s a b)

rsplit_once-none : (c : ℕ) (s : Text) → rsplit_once c s ≡ none → contains c s ≡ false
unfolding rsplit_once contains
rsplit_once-none c [] h = refl
rsplit_once-none c (x ∷ s) h = ground (arith, rsplit_once-none c s)

pub rsplit_once-eq_some :
    (c : ℕ) (s a b : Text)
    → rsplit_once c s ≡ some (a, b)
    → (s ≡ a ++ (c ∷ b)) × (contains c b ≡ false)
unfolding rsplit_once contains
rsplit_once-eq_some c [] a b h = cc
rsplit_once-eq_some c (x ∷ s) [] b h = ground (arith, rsplit_once-none c s)
rsplit_once-eq_some c (x ∷ s) (y ∷ a) b h = ground (arith, rsplit_once-eq_some c s a b)

rsplit_once-eq_none : (c : ℕ) (s : Text) → contains c s ≡ false → rsplit_once c s ≡ none
unfolding rsplit_once contains
rsplit_once-eq_none c [] h = refl
rsplit_once-eq_none c (x ∷ s) h = ground (arith, rsplit_once-eq_none c s)

pub rsplit_once-append :
    (c : ℕ) (a b : Text) → contains c b ≡ false → rsplit_once c (a ++ (c ∷ b)) ≡ some (a, b)
unfolding rsplit_once
rsplit_once-append c [] b h = rw (rsplit_once-eq_none c b h, rsplit_once) (ground arith)
rsplit_once-append c (x ∷ a) b h = rw (rsplit_once-append c a b h, rsplit_once)

digits_to-contains :
    (limit acc c : ℕ) (s : Text) (n : ℕ)
    → is_digit c ≡ false
    → digits_to limit acc s ≡ some n
    → contains c s ≡ false
unfolding digits_to contains is_digit
digits_to-contains limit acc c [] n k h = refl
digits_to-contains limit acc c (x ∷ s) n k h =
    ground (arith, digits_to-contains limit (acc * 10 + (x - 48)) c s n k)

-- A port holds no colon.
pub parse_u16-contains : (s : Text) (n : ℕ) → parse_u16 s ≡ some n → contains b':' s ≡ false
unfolding parse_u16 contains
parse_u16-contains [] n h = refl
parse_u16-contains (c ∷ []) n h = ground (arith, digits_to-contains 65535 0 b':' (c ∷ []) n colon)
  where
    colon : is_digit b':' ≡ false
    colon = unfold is_digit in refl
parse_u16-contains (c ∷ d ∷ s) n h = ground (
  arith,
  digits_to-contains 65535 0 b':' (c ∷ d ∷ s) n colon,
  digits_to-contains 65535 0 b':' (d ∷ s) n colon,
)
  where
    colon : is_digit b':' ≡ false
    colon = unfold is_digit in refl
