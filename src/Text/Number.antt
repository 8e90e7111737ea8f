-- ===== src/Text/Number.antt =====
-- The display of unsigned integers, and `parse::<u16>()`.
use ws2tcp_local_core.Base.{
  ℕ, zero, suc, ◌+◌, ◌-◌, ◌*◌, ◌/◌, ◌%◌, ◌≤◌, ◌<◌, ◌^◌, ◌≡◌, refl, ◌&&◌, [], ◌∷◌, ◌++◌, Option,
  none, some, arith, ltb, leb, ◌==◌, if◌then◌else◌, ap, ◌∙◌, inl, inr, Bool-cases, ltb→lt, leb→le,
  sym, All, All-append, ◌≢◌, eq_false,
}
use mathlib.Core.List.{append_assoc, append-nil, concat-ne-nil}
use native.Mathlib.Nat.{pow-suc}
use ws2tcp_local_core.Text.{Text, is_digit}

-- The decimal digits of a number below 10 ^ fuel.
decimal_from : ℕ → ℕ → Text
decimal_from zero n = []
decimal_from (suc f) n =
    let more = decimal_from f (n / 10) in
    if ltb n 10 then (n + 48) ∷ [] else more ++ (n % 10 + 48) ∷ []

-- `{}` of a `u8`, `u16`, `u32` or `u64`: twenty digits are enough for 2 ^ 64.
unfoldable pub decimal : ℕ → Text
unfolding decimal_from
decimal = decimal_from 20

unfoldable pub digits_to : ℕ → ℕ → Text → Option ℕ
unfolding is_digit
digits_to limit acc [] = some acc
digits_to limit acc (c ∷ s) =
    let rest = digits_to limit (acc * 10 + (c - 48)) s in
    if is_digit c && leb (acc * 10 + (c - 48)) limit then rest else none

-- `parse::<u16>()`: a sign `+` is taken, and there has to be a digit.
unfoldable pub parse_u16 : Text → Option ℕ
unfolding digits_to
parse_u16 [] = none
parse_u16 (c ∷ []) = if c == b'+' then none else digits_to 65535 0 (c ∷ [])
parse_u16 (c ∷ d ∷ s) =
    if c == b'+' then digits_to 65535 0 (d ∷ s) else digits_to 65535 0 (c ∷ d ∷ s)

abbrev pub IsDigit : ℕ → Type 0
IsDigit c = (48 ≤ c) × (c < 58)

digits_to-append :
    (limit acc d m : ℕ) (rest : Text)
    → d < 10
    → acc * 10 + d ≡ m
    → m ≤ limit
    → digits_to limit acc ((d + 48) ∷ rest) ≡ digits_to limit m rest
unfolding digits_to
digits_to-append limit acc d m rest h e k =
    ground (arith, ap (λ (x : ℕ). digits_to limit x rest) same)
  where
    same : acc * 10 + (d + 48 - 48) ≡ m
    same = omega arith

digits_to-decimal_from :
    (f limit n : ℕ) (rest : Text)
    → n < 10 ^ f
    → n ≤ limit
    → digits_to limit 0 (decimal_from f n ++ rest) ≡ digits_to limit n rest
unfolding decimal_from
digits_to-decimal_from zero limit n rest h k = ap (λ x. digits_to limit x rest) (omega arith)
digits_to-decimal_from (suc f) limit n rest h k = elim (Bool-cases (ltb n 10)) [
  | inl small ↦ rw small (digits_to-append limit 0 n n rest (ltb→lt n 10 small) (omega arith) k)
  | inr big ↦ rw big (
      rw append_assoc (
        digits_to-decimal_from f limit (n / 10) ((n % 10 + 48) ∷ rest) (omega (arith, pow-suc 10 f))
          (omega arith)
        ∙ digits_to-append limit (n / 10) (n % 10) n rest (omega arith) (omega arith) k))
]

-- The digits of a number up to the limit are read back as that number.
pub digits_to-decimal :
    (limit n : ℕ) → n ≤ limit → n < 10 ^ 20 → digits_to limit 0 (decimal n) ≡ some n
unfolding digits_to decimal
digits_to-decimal limit n k h =
    ap (digits_to limit 0) (sym (append-nil (decimal n))) ∙ digits_to-decimal_from 20 limit n [] h k

-- The text of a number is made of digits.
decimal_from-digits : (f n : ℕ) → All IsDigit (decimal_from f n)
unfolding decimal_from
decimal_from-digits zero n = tt
decimal_from-digits (suc f) n = elim (Bool-cases (ltb n 10)) [
  | inl small ↦ rw small (ground arith, tt)
  | inr big ↦ rw big (
      All-append IsDigit (decimal_from f (n / 10)) _ (decimal_from-digits f (n / 10))
        (omega arith, tt))
]

pub decimal-digits : (n : ℕ) → All IsDigit (decimal n)
unfolding decimal
decimal-digits n = decimal_from-digits 20 n

decimal_from-ne-nil : (f n : ℕ) → decimal_from (suc f) n ≢ []
unfolding decimal_from
decimal_from-ne-nil f n e = elim (Bool-cases (ltb n 10)) [
  | inl small ↦ cc (rw small at e)
  | inr big ↦ concat-ne-nil _ _ (rw big at e)
]

pub decimal-ne-nil : (n : ℕ) → decimal n ≢ []
unfolding decimal
decimal-ne-nil n = decimal_from-ne-nil 19 n

parse_u16-no_sign : (s : Text) → All IsDigit s → s ≢ [] → parse_u16 s ≡ digits_to 65535 0 s
unfolding parse_u16
parse_u16-no_sign [] h ne = absurd (ne refl)
parse_u16-no_sign (c ∷ []) h ne = rw (eq_false c b'+' (omega arith))
parse_u16-no_sign (c ∷ d ∷ s) h ne = rw (eq_false c b'+' (omega arith))

-- A `u16` is read back from its text.
pub parse_u16-decimal : (n : ℕ) → n < 65536 → parse_u16 (decimal n) ≡ some n
parse_u16-decimal n h =
    parse_u16-no_sign (decimal n) (decimal-digits n) (decimal-ne-nil n)
    ∙ digits_to-decimal 65535 n (omega arith) (omega arith)

-- What is read is below the limit.
digits_to-le :
    (limit acc : ℕ) (s : Text) (n : ℕ) → acc ≤ limit → digits_to limit acc s ≡ some n → n ≤ limit
unfolding digits_to
digits_to-le limit acc [] n k h = ground arith
digits_to-le limit acc (c ∷ s) n k h = elim (Bool-cases (leb (acc * 10 + (c - 48)) limit)) [
  | inl fits ↦ digits_to-le limit (acc * 10 + (c - 48)) s n (leb→le _ _ fits) (ground arith)
  | inr over ↦ ground arith
]

pub parse_u16-lt : (s : Text) (n : ℕ) → parse_u16 s ≡ some n → n < 65536
unfolding parse_u16
parse_u16-lt [] n h = cc
parse_u16-lt (c ∷ []) n h =
    omega (arith, digits_to-le 65535 0 (c ∷ []) n (omega arith) (ground arith))
parse_u16-lt (c ∷ d ∷ s) n h = elim (Bool-cases (c == b'+')) [
  | inl plus ↦ omega (arith, digits_to-le 65535 0 (d ∷ s) n (omega arith) (ground arith))
  | inr other ↦ omega (arith, digits_to-le 65535 0 (c ∷ d ∷ s) n (omega arith) (ground arith))
]
