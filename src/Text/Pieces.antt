-- ===== src/Text/Pieces.antt =====
-- What `split` makes of a text that is put together from pieces, and the way back.
use ws2tcp_local_core.Base.{
  ℕ, Bool, true, false, List, [], ◌∷◌, ◌++◌, ◌≡◌, ◌≢◌, refl, ap, ◌∙◌, All, ◌==◌, inl, inr,
  Bool-cases, ==_iff,
}
use ws2tcp_local_core.Text.{Text}
use ws2tcp_local_core.Text.Split.{push, split}

-- A text without the separator, in front of a separator, is one piece.
pub split-append :
    (p : ℕ → Bool) (s rest : Text) (c : ℕ)
    → All (λ x. p x ≡ false) s
    → p c ≡ true
    → split p (s ++ (c ∷ rest)) ≡ s ∷ split p rest
unfolding split
split-append p [] rest c h k = rw k
split-append p (x ∷ s) rest c h k = rw (h.0, split-append p s rest c h.1 k)

pub split_one : (p : ℕ → Bool) (s : Text) → All (λ x. p x ≡ false) s → split p s ≡ s ∷ []
unfolding split
split_one p [] h = refl
split_one p (x ∷ s) h = rw (h.0, split_one p s h.1)

unfoldable pub join : ℕ → List Text → Text
join c [] = []
join c (l ∷ []) = l
join c (l ∷ m ∷ ls) = l ++ (c ∷ join c (m ∷ ls))

join-push : (c x : ℕ) (ls : List Text) → ls ≢ [] → join c (push x ls) ≡ x ∷ join c ls
unfolding join
join-push c x [] ne = absurd (ne refl)
join-push c x (l ∷ []) ne = refl
join-push c x (l ∷ m ∷ ls) ne = refl

split-ne-nil : (p : ℕ → Bool) (s : Text) → split p s ≢ []
unfolding split
split-ne-nil p [] e = cc
split-ne-nil p (x ∷ s) e = elim (Bool-cases (p x)) [
  | inl cut ↦ cc (rw cut at e)
  | inr inside ↦ push-ne-nil (split p s) (rw inside at e)
]
  where
    push-ne-nil : (ls : List Text) → push x ls ≢ []
    push-ne-nil [] q = cc
    push-ne-nil (l ∷ ls) q = cc

join-cons : (c : ℕ) (ls : List Text) → ls ≢ [] → join c ([] ∷ ls) ≡ c ∷ join c ls
unfolding join
join-cons c [] ne = absurd (ne refl)
join-cons c (l ∷ ls) ne = refl

-- The pieces, joined by the separator, are the text.
pub join-split : (c : ℕ) (s : Text) → join c (split (λ x. x == c) s) ≡ s
unfolding split
join-split c [] = unfold join in refl
join-split c (x ∷ s) = elim (Bool-cases (x == c)) [
  | inl cut ↦ rw cut (join-cons c _ (split-ne-nil _ s) ∙ cc ((==_iff x c).0 cut, join-split c s))
  | inr inside ↦ rw inside (join-push c x _ (split-ne-nil _ s) ∙ ap (◌∷◌ x) (join-split c s))
]
