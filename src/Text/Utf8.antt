-- ===== src/Text/Utf8.antt =====
-- `String::from_utf8` and `str::as_bytes`.
use ws2tcp_local_core.Base.{
  ℕ, zero, suc, ◌+◌, ◌-◌, ◌*◌, ◌/◌, ◌%◌, ◌<◌, ◌≡◌, ◌⊎◌, refl, [], ◌∷◌, ◌++◌, Option, none, some,
  arith, ltb, All, ap, sym, ◌∙◌, within, ◌==◌, if◌then◌else◌,
}
use mathlib.Core.List.{append-nil, append_assoc}
use ws2tcp_local_core.Text.{Text, Bytes}

-- Between two characters, or with bytes of one missing: how many, the bits so far, and the range
-- that the next byte has to be in.
pub data Decoder : Type 0 where
  start : Decoder
  missing : ℕ → ℕ → ℕ → ℕ → Decoder

unfoldable pub lead : ℕ → Option (Decoder × Text)
lead b =
    if ltb b 0x80
    then some (start, b ∷ [])
    else if within 0xC2 0xDF b
    then some (missing 0 (b - 0xC0) 0x80 0xBF, [])
    else if b == 0xE0
    then some (missing 1 0 0xA0 0xBF, [])
    else if b == 0xED
    then some (missing 1 13 0x80 0x9F, [])
    else if within 0xE1 0xEF b
    then some (missing 1 (b - 0xE0) 0x80 0xBF, [])
    else if b == 0xF0
    then some (missing 2 0 0x90 0xBF, [])
    else if b == 0xF4
    then some (missing 2 4 0x80 0x8F, [])
    else if within 0xF1 0xF3 b
    then some (missing 2 (b - 0xF0) 0x80 0xBF, [])
    else none

-- `missing n` waits for `n + 1` bytes.
unfoldable pub step : Decoder → ℕ → Option (Decoder × Text)
step start b = lead b
step (missing zero acc lo hi) b =
    if within lo hi b then some (start, (acc * 64 + (b - 0x80)) ∷ []) else none
step (missing (suc n) acc lo hi) b =
    if within lo hi b then some (missing n (acc * 64 + (b - 0x80)) 0x80 0xBF, []) else none

abbrev append_to : Text → Option Text → Option Text
append_to out none = none
append_to out (some s) = some (out ++ s)

unfoldable pub decode : Decoder → Bytes → Option Text
unfolding step lead
decode start [] = some []
decode (missing _ _ _ _) [] = none
decode d (b ∷ bs) = elim (step d b) [ none ↦ none | some (d', out) ↦ append_to out (decode d' bs) ]

unfoldable pub from_utf8 : Bytes → Option Text
unfolding decode
from_utf8 = decode start

unfoldable pub encode_char : ℕ → Bytes
encode_char c =
    if ltb c 0x80
    then c ∷ []
    else if ltb c 0x800
    then (0xC0 + c / 64) ∷ (0x80 + c % 64) ∷ []
    else if ltb c 0x10000
    then (0xE0 + c / 4096) ∷ (0x80 + c / 64 % 64) ∷ (0x80 + c % 64) ∷ []
    else (0xF0 + c / 262144) ∷ (0x80 + c / 4096 % 64) ∷ (0x80 + c / 64 % 64) ∷ (0x80 + c % 64) ∷ []

unfoldable pub as_bytes : Text → Bytes
unfolding encode_char
as_bytes [] = []
as_bytes (c ∷ s) = encode_char c ++ as_bytes s

-- A Unicode scalar value.
abbrev pub IsScalar : ℕ → Type 0
IsScalar c = (c < 0xD800) ⊎ ((0xDFFF < c) × (c < 0x110000))

decode-encode_char :
    (c : ℕ) (rest : Bytes)
    → IsScalar c
    → decode start (encode_char c ++ rest) ≡ append_to (c ∷ []) (decode start rest)
unfolding decode encode_char
decode-encode_char c rest h = ground arith

append_to_assoc :
    (a b : Text) (o : Option Text) → append_to a (append_to b o) ≡ append_to (a ++ b) o
append_to_assoc a b none = refl
append_to_assoc a b (some s) = ap some (sym (append_assoc a b s))

append_to_nil : (o : Option Text) → o ≡ append_to [] o
append_to_nil none = refl
append_to_nil (some r) = refl

decode-as_bytes :
    (s : Text) (rest : Bytes)
    → All IsScalar s
    → decode start (as_bytes s ++ rest) ≡ append_to s (decode start rest)
unfolding as_bytes
decode-as_bytes [] rest h = append_to_nil (decode start rest)
decode-as_bytes (c ∷ s) rest h = rw append_assoc (
    decode-encode_char c (as_bytes s ++ rest) h.0
    ∙ ap (append_to (c ∷ [])) (decode-as_bytes s rest h.1)
    ∙ append_to_assoc (c ∷ []) s (decode start rest))

-- The bytes of a text of scalar values are read back as that text.
pub from_utf8-as_bytes : (s : Text) → All IsScalar s → from_utf8 (as_bytes s) ≡ some s
unfolding from_utf8
from_utf8-as_bytes s h =
    ap from_utf8 (sym (append-nil (as_bytes s))) ∙ decode-as_bytes s [] h ∙ ap some (append-nil s)
