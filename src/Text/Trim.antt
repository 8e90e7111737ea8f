-- ===== src/Text/Trim.antt =====
-- Trimming twice is trimming once, and a text without the trimmed characters stays.
use ws2tcp_local_core.Base.{
  ℕ, ◌≡◌, refl, ap, ◌∙◌, Bool, false, ◌&&◌, [], ◌∷◌, ◌++◌, arith, inl, inr, Bool-cases, any,
}
use ws2tcp_local_core.Text.{Text, is_empty, is_whitespace, trim_start, trim_end, trim_matches, trim}
use ws2tcp_local_core.Text.Split.{contains}

-- the first character is not trimmed
HeadNot : (ℕ → Bool) → Text → Type 0
HeadNot p [] = Unit
HeadNot p (c ∷ _) = p c ≡ false

trim_start-HeadNot : (p : ℕ → Bool) (s : Text) → HeadNot p (trim_start p s)
unfolding trim_start HeadNot
trim_start-HeadNot p [] = tt
trim_start-HeadNot p (c ∷ s) = elim (Bool-cases (p c)) [
  | inl cut ↦ rw (cut, trim_start) (trim_start-HeadNot p s)
  | inr stays ↦ rw (stays, trim_start) stays
]

trim_start_same : (p : ℕ → Bool) (s : Text) → HeadNot p s → trim_start p s ≡ s
unfolding trim_start HeadNot
trim_start_same p [] h = refl
trim_start_same p (c ∷ s) h = rw h

trim_end-HeadNot : (p : ℕ → Bool) (s : Text) → HeadNot p s → HeadNot p (trim_end p s)
unfolding trim_end HeadNot is_empty
trim_end-HeadNot p [] h = tt
trim_end-HeadNot p (c ∷ s) h = elim (Bool-cases (is_empty (trim_end p s))) [
  | inl e ↦ rw (h, e) h
  | inr e ↦ rw (h, e) h
]

trim_end_idem : (p : ℕ → Bool) (s : Text) → trim_end p (trim_end p s) ≡ trim_end p s
unfolding trim_end
trim_end_idem p [] = refl
trim_end_idem p (c ∷ s) = elim (Bool-cases (is_empty (trim_end p s) && p c)) [
  | inl cut ↦ rw cut
  | inr stays ↦ rw stays (rw (trim_end_idem p s, stays, trim_end) refl)
]

pub trim_matches_idem :
    (p : ℕ → Bool) (s : Text) → trim_matches p (trim_matches p s) ≡ trim_matches p s
unfolding trim_matches
trim_matches_idem p s =
    ap (trim_end p) (trim_start_same p _ (trim_end-HeadNot p _ (trim_start-HeadNot p s)))
    ∙ trim_end_idem p (trim_start p s)

pub trim_idem : (s : Text) → trim (trim s) ≡ trim s
unfolding trim
trim_idem s = trim_matches_idem is_whitespace s

trim_end_same : (p : ℕ → Bool) (s : Text) → any p s ≡ false → trim_end p s ≡ s
unfolding trim_end
trim_end_same p [] h = refl
trim_end_same p (c ∷ s) h = ground (arith, trim_end_same p s)

pub trim_matches_same : (p : ℕ → Bool) (s : Text) → any p s ≡ false → trim_matches p s ≡ s
unfolding trim_matches HeadNot
trim_matches_same p [] h = unfold trim_start trim_end in refl
trim_matches_same p (c ∷ s) h =
    ap (trim_end p) (trim_start_same p (c ∷ s) (ground arith)) ∙ trim_end_same p (c ∷ s) h

pub trim_same : (s : Text) → any is_whitespace s ≡ false → trim s ≡ s
unfolding trim
trim_same s h = trim_matches_same is_whitespace s h

-- What does not stand in a text does not stand in what is left of it.
pub contains-trim_start :
    (c : ℕ) (p : ℕ → Bool) (s : Text) → contains c s ≡ false → contains c (trim_start p s) ≡ false
unfolding contains trim_start
contains-trim_start c p [] h = refl
contains-trim_start c p (x ∷ s) h = ground (arith, contains-trim_start c p s)

pub contains-trim_end :
    (c : ℕ) (p : ℕ → Bool) (s : Text) → contains c s ≡ false → contains c (trim_end p s) ≡ false
unfolding contains trim_end
contains-trim_end c p [] h = refl
contains-trim_end c p (x ∷ s) h = ground (arith, contains-trim_end c p s)

pub contains-trim : (c : ℕ) (s : Text) → contains c s ≡ false → contains c (trim s) ≡ false
unfolding trim trim_matches
contains-trim c s h = contains-trim_end c is_whitespace _ (contains-trim_start c is_whitespace s h)

pub contains-append :
    (c : ℕ) (a b : Text) → contains c a ≡ false → contains c b ≡ false → contains c (a ++ b) ≡ false
unfolding contains
contains-append c [] b h k = k
contains-append c (x ∷ a) b h k = ground (arith, contains-append c a b)

-- A blank in front of a text is trimmed.
pub trim_blank : (s : Text) → trim (b' ' ∷ s) ≡ trim s
unfolding trim trim_matches trim_start is_whitespace
trim_blank s = refl

pub contains-append_parts :
    (c : ℕ) (a b : Text)
    → contains c (a ++ b) ≡ false
    → (contains c a ≡ false) × (contains c b ≡ false)
unfolding contains
contains-append_parts c [] b h = (refl, h)
contains-append_parts c (x ∷ a) b h = (
  ground (arith, (contains-append_parts c a b (ground arith)).0),
  (contains-append_parts c a b (ground arith)).1,
)
