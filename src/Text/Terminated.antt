-- ===== src/Text/Terminated.antt =====
-- The lines of a text that is put together from lines, and that lines hold no line feed.
use mathlib.Core.List.{append_assoc}
use ws2tcp_local_core.Base.{
  ℕ, ◌≡◌, refl, sym, ap, ◌∙◌, false, List, [], ◌∷◌, ◌++◌, none, some, arith, ◌==◌, inl, inr,
  Bool-cases, Option-cases, eq_false, All, map,
}
use ws2tcp_local_core.Text.{Text}
use ws2tcp_local_core.Text.Split.{contains, strip_suffix, push}
use ws2tcp_local_core.Text.Lines.{split_inclusive, without_end, lines}
use ws2tcp_local_core.Text.Trim.{contains-append}
use ws2tcp_local_core.Text.Cuts.{strip_suffix-concat}

split_inclusive-append :
    (l rest : Text)
    → contains b'\n' l ≡ false
    → split_inclusive (l ++ (b'\n' ∷ rest)) ≡ (l ++ b'\n' ∷ []) ∷ split_inclusive rest
unfolding split_inclusive contains
split_inclusive-append [] rest h = refl
split_inclusive-append (x ∷ l) rest h = ground (arith, split_inclusive-append l rest)

without_end-crlf : (l : Text) → without_end ((l ++ b'\r' ∷ []) ++ b'\n' ∷ []) ≡ l
unfolding without_end
without_end-crlf l =
    rw (strip_suffix-concat b'\n' (l ++ b'\r' ∷ []), without_end)
      (rw (strip_suffix-concat b'\r' l, without_end) refl)

-- A line that ends in CR LF is the first line, without its end.
pub lines-append :
    (l rest : Text)
    → contains b'\n' l ≡ false
    → lines (l ++ (b'\r' ∷ b'\n' ∷ rest)) ≡ l ∷ lines rest
unfolding lines
lines-append l rest h =
    ap (λ s. map without_end (split_inclusive s)) (sym (append_assoc l (b'\r' ∷ []) (b'\n' ∷ rest)))
    ∙ ap (map without_end) (
        split_inclusive-append (l ++ b'\r' ∷ []) rest
          (contains-append b'\n' l (b'\r' ∷ []) h (unfold contains in refl)))
    ∙ ap (λ x. x ∷ lines rest) (without_end-crlf l)

-- line feeds stand at the end only
IsPiece : Text → Type 0
IsPiece [] = Unit
IsPiece (c ∷ s) = (c ≡ b'\n' → s ≡ []) × IsPiece s

split_inclusive-IsPiece : (s : Text) → All IsPiece (split_inclusive s)
unfolding split_inclusive IsPiece
split_inclusive-IsPiece [] = tt
split_inclusive-IsPiece (x ∷ s) = elim (Bool-cases (x == b'\n')) [
  | inl cut ↦ rw cut (((λ _. refl), tt), split_inclusive-IsPiece s)
  | inr other ↦ rw other (push-IsPiece x (split_inclusive s) other (split_inclusive-IsPiece s))
]
  where
    push-IsPiece :
        (x : ℕ) (ls : List Text) → (x == b'\n') ≡ false → All IsPiece ls → All IsPiece (push x ls)
    push-IsPiece x [] o h = (((λ e. absurd (ground arith)), tt), tt)
    push-IsPiece x (l ∷ ls) o h = (((λ e. absurd (ground arith)), h.0), h.1)

strip_suffix-none : (l : Text) → IsPiece l → strip_suffix b'\n' l ≡ none → contains b'\n' l ≡ false
unfolding strip_suffix contains IsPiece
strip_suffix-none [] h e = refl
strip_suffix-none (x ∷ []) h e = ground arith
strip_suffix-none (x ∷ y ∷ s) h e =
    ground (arith, eq_false x b'\n' (λ p. cc (h.0 p)), strip_suffix-none (y ∷ s) h.1)

strip_suffix-some :
    (l r : Text) → IsPiece l → strip_suffix b'\n' l ≡ some r → contains b'\n' r ≡ false
unfolding strip_suffix contains IsPiece
strip_suffix-some [] r h e = cc
strip_suffix-some (x ∷ []) [] h e = refl
strip_suffix-some (x ∷ []) (_ ∷ _) h e = ground arith
strip_suffix-some (x ∷ y ∷ s) [] h e = refl
strip_suffix-some (x ∷ y ∷ s) (z ∷ r) h e =
    ground (arith, eq_false x b'\n' (λ p. cc (h.0 p)), strip_suffix-some (y ∷ s) r h.1)

-- a shorter text holds no more
strip_suffix-contains :
    (c d : ℕ) (l r : Text) → contains d l ≡ false → strip_suffix c l ≡ some r → contains d r ≡ false
unfolding strip_suffix contains
strip_suffix-contains c d [] r h e = cc
strip_suffix-contains c d (x ∷ []) [] h e = refl
strip_suffix-contains c d (x ∷ []) (_ ∷ _) h e = ground arith
strip_suffix-contains c d (x ∷ y ∷ s) [] h e = refl
strip_suffix-contains c d (x ∷ y ∷ s) (z ∷ r) h e =
    ground (arith, strip_suffix-contains c d (y ∷ s) r)

without_end-contains : (l : Text) → IsPiece l → contains b'\n' (without_end l) ≡ false
unfolding without_end
without_end-contains l h = elim (Option-cases (strip_suffix b'\n' l)) [
  | inl e ↦ rw (e, without_end) (strip_suffix-none l h e)
  | inr (r, e) ↦ elim (Option-cases (strip_suffix b'\r' r)) [
    | inl f ↦ rw (e, f, without_end) (strip_suffix-some l r h e)
    | inr (q, f) ↦
        rw (e, f, without_end) (strip_suffix-contains b'\r' b'\n' r q (strip_suffix-some l r h e) f)
  ]
]

abbrev pub IsLine : Text → Type 0
IsLine l = contains b'\n' l ≡ false

map-IsLine : (ls : List Text) → All IsPiece ls → All IsLine (map without_end ls)
map-IsLine [] h = tt
map-IsLine (l ∷ ls) h = (without_end-contains l h.0, map-IsLine ls h.1)

-- No line of a text holds a line feed.
pub lines-IsLine : (s : Text) → All IsLine (lines s)
unfolding lines
lines-IsLine s = map-IsLine (split_inclusive s) (split_inclusive-IsPiece s)
