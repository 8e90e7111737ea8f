-- ===== src/Net/Ipv4/RoundTrip.antt =====
-- An IPv4 address is read back from its text, and only its own text is read as that address.
use mathlib.Core.Option.{some-injective}
use mathlib.Core.Path.{subst}
use ws2tcp_local_core.Base.{
  ℕ, zero, suc, ◌+◌, ◌-◌, ◌*◌, ◌<◌, ◌≡◌, refl, sym, ap, ap₂, ◌∙◌, Bool, true, false, ◌&&◌, List, [],
  ◌∷◌, Option, none, some, arith, ◌==◌, ltb, All, eq_false, ==_iff, Bool-cases, inl, inr,
}
use ws2tcp_local_core.Text.{Text, equal}
use ws2tcp_local_core.Text.Equal.{equal_iff}
use ws2tcp_local_core.Text.Split.{split}
use ws2tcp_local_core.Text.Pieces.{split-append, split_one, join, join-split}
use ws2tcp_local_core.Text.Number.{decimal, digits_to, IsDigit, decimal-digits}
use ws2tcp_local_core.Net.Ipv4.{Ipv4, IsOctets, display, octet, of_octets, of_pieces, parse}

each_digit : ℕ → (ℕ → Bool) → Bool
each_digit zero test = true
each_digit (suc top) test = each_digit top test && test top

each_digit-lt : (top d : ℕ) (test : ℕ → Bool) → each_digit top test ≡ true → d < top → test d ≡ true
unfolding each_digit
each_digit-lt zero d test h small = absurd (omega arith)
each_digit-lt (suc top) d test h small = elim (Bool-cases (d == top)) [
  | inl last ↦ ap test ((==_iff d top).0 last) ∙ ground (arith, h)
  | inr inner ↦ ground (arith, each_digit-lt top d test)
]

is_read : ℕ → Option ℕ → Bool
is_read n none = false
is_read n (some m) = m == n

read_table : each_digit 256 (λ n. is_read n (octet (decimal n))) ≡ true
unfolding each_digit is_read octet decimal
read_table = refl

is_read_iff : (n : ℕ) (o : Option ℕ) → is_read n o ≡ true → o ≡ some n
unfolding is_read
is_read_iff n none h = cc
is_read_iff n (some m) h = ap some ((==_iff m n).0 h)

octet-decimal : (n : ℕ) → n < 256 → octet (decimal n) ≡ some n
octet-decimal n h = is_read_iff n _ (each_digit-lt 256 n _ read_table h)

-- the octets that are read are shown as they were written
canonical : Text → Bool
canonical p = elim (octet p) [ none ↦ true | some n ↦ ltb n 256 && equal (decimal n) p ]

digit_table : each_digit 10 (λ i. canonical ((i + 48) ∷ [])) ≡ true
unfolding each_digit canonical octet decimal equal
digit_table = refl

two_table : each_digit 10 (λ i. each_digit 10 (λ j. canonical ((i + 48) ∷ (j + 48) ∷ []))) ≡ true
unfolding each_digit canonical octet decimal equal
two_table = refl

three_table :
    each_digit 10 (λ i.
      each_digit 10 (λ j. each_digit 10 (λ k. canonical ((i + 48) ∷ (j + 48) ∷ (k + 48) ∷ []))))
    ≡ true
unfolding each_digit canonical octet decimal equal
three_table = refl

-- a digit is its value and 48
value : ℕ → ℕ
value c = c - 48

value-lt : (c : ℕ) → IsDigit c → value c < 10
unfolding value
value-lt c h = omega arith

value-add : (c : ℕ) → IsDigit c → value c + 48 ≡ c
unfolding value
value-add c h = omega arith

canonical_one : (c : ℕ) → IsDigit c → canonical (c ∷ []) ≡ true
canonical_one c h =
    ap (λ x. canonical (x ∷ [])) (sym (value-add c h))
    ∙ each_digit-lt 10 (value c) _ digit_table (value-lt c h)

canonical_two : (c d : ℕ) → IsDigit c → IsDigit d → canonical (c ∷ d ∷ []) ≡ true
canonical_two c d h k =
    ap₂ (λ x y. canonical (x ∷ y ∷ [])) (sym (value-add c h)) (sym (value-add d k))
    ∙ each_digit-lt 10 (value d) _ (each_digit-lt 10 (value c) _ two_table (value-lt c h))
        (value-lt d k)

canonical_three :
    (c d e : ℕ) → IsDigit c → IsDigit d → IsDigit e → canonical (c ∷ d ∷ e ∷ []) ≡ true
canonical_three c d e h k l =
    ap (λ x. canonical (x ∷ d ∷ e ∷ [])) (sym (value-add c h))
    ∙ ap₂ (λ x y. canonical ((value c + 48) ∷ x ∷ y ∷ [])) (sym (value-add d k))
        (sym (value-add e l))
    ∙ each_digit-lt 10 (value e) _
        (each_digit-lt 10 (value d) _ (each_digit-lt 10 (value c) _ three_table (value-lt c h))
          (value-lt d k))
        (value-lt e l)

digits_to-IsDigit :
    (limit acc : ℕ) (s : Text) (n : ℕ) → digits_to limit acc s ≡ some n → All IsDigit s
unfolding digits_to
digits_to-IsDigit limit acc [] n h = tt
digits_to-IsDigit limit acc (c ∷ s) n h =
    ((ground arith, ground arith), digits_to-IsDigit limit (acc * 10 + (c - 48)) s n (ground arith))

canonical_lem :
    (p : Text) (n : ℕ) → octet p ≡ some n → canonical p ≡ true → (n < 256) × (decimal n ≡ p)
unfolding canonical
canonical_lem p n h k = ground (arith, equal_iff (decimal n) p)

octet-canonical : (p : Text) (n : ℕ) → octet p ≡ some n → canonical p ≡ true
unfolding octet
octet-canonical [] n h = cc
octet-canonical (c ∷ []) n h = canonical_one c (digits_to-IsDigit 255 0 (c ∷ []) n h).0
octet-canonical (c ∷ d ∷ []) n h =
    let all = digits_to-IsDigit 255 0 (c ∷ d ∷ []) n (ground arith) in
    canonical_two c d all.0 all.1.0
octet-canonical (c ∷ d ∷ e ∷ []) n h =
    let all = digits_to-IsDigit 255 0 (c ∷ d ∷ e ∷ []) n (ground arith) in
    canonical_three c d e all.0 all.1.0 all.1.1.0
octet-canonical (c ∷ d ∷ e ∷ f ∷ s) n h = ground arith

decimal-octet : (p : Text) (n : ℕ) → octet p ≡ some n → (n < 256) × (decimal n ≡ p)
decimal-octet p n h = canonical_lem p n h (octet-canonical p n h)

digits-no_dot : (s : Text) → All IsDigit s → All (λ x. (x == b'.') ≡ false) s
digits-no_dot [] h = tt
digits-no_dot (x ∷ s) h = (eq_false x b'.' (omega arith), digits-no_dot s h.1)

no_dot : (n : ℕ) → All (λ x. (x == b'.') ≡ false) (decimal n)
no_dot n = digits-no_dot (decimal n) (decimal-digits n)

split-display :
    (x : Ipv4)
    → split (λ c. c == b'.') (display x)
      ≡ decimal x.a ∷ decimal x.b ∷ decimal x.c ∷ decimal x.d ∷ []
unfolding display
split-display x = rw (
  split-append _ (decimal x.a) _ b'.' (no_dot x.a) refl,
  split-append _ (decimal x.b) _ b'.' (no_dot x.b) refl,
  split-append _ (decimal x.c) _ b'.' (no_dot x.c) refl,
  split_one _ (decimal x.d) (no_dot x.d),
)

-- An address is read back from its text.
pub parse-display : (x : Ipv4) → IsOctets x → parse (display x) ≡ some x
unfolding parse
parse-display x h =
    rw (split-display x, of_pieces)
      (rw
        (
          octet-decimal x.a h.a_lt,
          octet-decimal x.b h.b_lt,
          octet-decimal x.c h.c_lt,
          octet-decimal x.d h.d_lt,
        )
        (unfold of_octets in refl))

-- the octets of an address, and that they are in range
Reads : List Text → Ipv4 → Type 0
Reads ls x = (join b'.' ls ≡ display x) × IsOctets x

of_octets-Reads :
    (p q r s : Text) (oa ob oc od : Option ℕ) (x : Ipv4)
    → octet p ≡ oa
    → octet q ≡ ob
    → octet r ≡ oc
    → octet s ≡ od
    → of_octets oa ob oc od ≡ some x
    → Reads (p ∷ q ∷ r ∷ s ∷ []) x
unfolding of_octets Reads display join
of_octets-Reads p q r s (some a) (some b) (some c) (some d) x ea eb ec ed h =
    let ra = decimal-octet p a ea in
    let rb = decimal-octet q b eb in
    let rc = decimal-octet r c ec in
    let rd = decimal-octet s d ed in
    subst (Reads (p ∷ q ∷ r ∷ s ∷ [])) (some-injective _ _ h)
      (rw (ra.1, rb.1, rc.1, rd.1), record { a_lt = ra.0; b_lt = rb.0; c_lt = rc.0; d_lt = rd.0 })
of_octets-Reads p q r s _ _ _ _ x ea eb ec ed h = cc

of_pieces-Reads : (ls : List Text) (x : Ipv4) → of_pieces ls ≡ some x → Reads ls x
unfolding of_pieces
of_pieces-Reads (p ∷ q ∷ r ∷ s ∷ []) x h = of_octets-Reads p q r s _ _ _ _ x refl refl refl refl h
of_pieces-Reads _ x h = cc

-- The text that is read as an address is the address's own, and the octets are in range.
pub display-parse : (s : Text) (x : Ipv4) → parse s ≡ some x → (display x ≡ s) × IsOctets x
unfolding parse Reads
display-parse s x h =
    let r = of_pieces-Reads (split (λ c. c == b'.') s) x h in (sym r.0 ∙ join-split b'.' s, r.1)
