-- ===== src/Text/Split.antt =====
-- Prefixes, suffixes and splits of a text.
use ws2tcp_local_core.Base.{
  ℕ, Bool, true, false, List, [], ◌∷◌, Option, none, some, ◌==◌, if◌then◌else◌, ◌||◌,
}
use ws2tcp_local_core.Text.{Text}

-- `contains` of a character
unfoldable pub contains : ℕ → Text → Bool
contains c [] = false
contains c (x ∷ s) = x == c || contains c s

-- `s.strip_prefix(p)`
unfoldable pub strip_prefix : Text → Text → Option Text
strip_prefix [] s = some s
strip_prefix (p ∷ ps) [] = none
strip_prefix (p ∷ ps) (c ∷ s) = if c == p then strip_prefix ps s else none

is_some : Option Text → Bool
is_some none = false
is_some (some _) = true

unfoldable pub starts_with : Text → Text → Bool
unfolding strip_prefix is_some
starts_with p s = is_some (strip_prefix p s)

-- `s.strip_suffix(c)`
unfoldable pub strip_suffix : ℕ → Text → Option Text
strip_suffix c [] = none
strip_suffix c (x ∷ []) = if x == c then some [] else none
strip_suffix c (x ∷ y ∷ s) = elim (strip_suffix c (y ∷ s)) [ none ↦ none | some r ↦ some (x ∷ r) ]

abbrev cons_fst : ℕ → Option (Text × Text) → Option (Text × Text)
cons_fst x none = none
cons_fst x (some (a, b)) = some (x ∷ a, b)

-- `split_once` at a character
unfoldable pub split_once : ℕ → Text → Option (Text × Text)
split_once c [] = none
split_once c (x ∷ s) =
    let rest = cons_fst x (split_once c s) in if x == c then some ([], s) else rest

-- `split_once` at a text
unfoldable pub split_once_at : Text → Text → Option (Text × Text)
unfolding strip_prefix
split_once_at p [] = elim (strip_prefix p []) [ none ↦ none | some r ↦ some ([], r) ]
split_once_at p (x ∷ s) = elim (strip_prefix p (x ∷ s)) [
  | none ↦ cons_fst x (split_once_at p s)
  | some r ↦ some ([], r)
]

-- `rsplit_once` at a character
unfoldable pub rsplit_once : ℕ → Text → Option (Text × Text)
rsplit_once c [] = none
rsplit_once c (x ∷ s) = elim (rsplit_once c s) [
  | none ↦ if x == c then some ([], s) else none
  | some (a, b) ↦ some (x ∷ a, b)
]

-- puts a character in front of the first piece
abbrev pub push : ℕ → List Text → List Text
push x [] = (x ∷ []) ∷ []
push x (l ∷ ls) = (x ∷ l) ∷ ls

-- `split` at a class of characters
unfoldable pub split : (ℕ → Bool) → Text → List Text
split p [] = [] ∷ []
split p (x ∷ s) = let rest = split p s in if p x then [] ∷ rest else push x rest

-- `split(..).next().unwrap_or_default()`
unfoldable pub before : (ℕ → Bool) → Text → Text
before p [] = []
before p (x ∷ s) = if p x then [] else x ∷ before p s
