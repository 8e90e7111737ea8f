-- ===== src/Text/Lines.antt =====
-- `lines` and `split_whitespace`.
use ws2tcp_local_core.Base.{List, [], ◌∷◌, none, some, ◌==◌, if◌then◌else◌, map}
use ws2tcp_local_core.Text.{Text, is_whitespace, is_empty}
use ws2tcp_local_core.Text.Split.{push, strip_suffix, split}

-- `split_inclusive('\n')`
unfoldable pub split_inclusive : Text → List Text
split_inclusive [] = []
split_inclusive (x ∷ s) =
    let rest = split_inclusive s in if x == b'\n' then (x ∷ []) ∷ rest else push x rest

-- a piece without its line end: `\n` or `\r\n`
unfoldable pub without_end : Text → Text
unfolding strip_suffix
without_end l = elim (strip_suffix b'\n' l) [
  | none ↦ l
  | some r ↦ elim (strip_suffix b'\r' r) [ none ↦ r | some q ↦ q ]
]

unfoldable pub lines : Text → List Text
unfolding split_inclusive without_end
lines s = map without_end (split_inclusive s)

unfoldable pub non_empty : List Text → List Text
non_empty [] = []
non_empty (l ∷ ls) = if is_empty l then non_empty ls else l ∷ non_empty ls

unfoldable pub split_whitespace : Text → List Text
unfolding non_empty is_empty split is_whitespace
split_whitespace s = non_empty (split is_whitespace s)
