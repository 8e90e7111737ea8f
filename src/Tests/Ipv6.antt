-- ===== src/Tests/Ipv6.antt =====
-- A pair of functions that meets the laws of `Ipv6Text`: sixteen octets, each as two characters
-- that stand for its halves, between colons.
use ws2tcp_local_core.Base.{
  ℕ, zero, suc, ◌≡◌, refl, ◌&&◌, [], ◌∷◌, Option, none, some, arith, ◌==◌, if◌then◌else◌, ltb,
  length, All,
}
use ws2tcp_local_core.Text.{Text, Bytes}
use ws2tcp_local_core.Net.Ipv6.{Ipv6Text, IsByte}

abbrev pub shown : Bytes → Text
shown [] = []
shown (b ∷ bs) = b':' ∷ b ∷ shown bs

abbrev pub read : ℕ → Text → Option Bytes
read zero [] = some []
read zero (_ ∷ _) = none
read (suc n) (c ∷ b ∷ s) =
    let rest = read n s in
    if c == b':' && ltb b 256 then elim rest [ none ↦ none | some bs ↦ some (b ∷ bs) ] else none
read (suc n) _ = none

pub read-shown : (n : ℕ) (o : Bytes) → length o ≡ n → All IsByte o → read n (shown o) ≡ some o
read-shown zero [] h k = refl
read-shown zero (b ∷ o) h k = absurd (omega arith)
read-shown (suc n) [] h k = absurd (omega arith)
read-shown (suc n) (b ∷ o) h k = ground (arith, read-shown n o)

pub read-IsIpv6 : (n : ℕ) (s : Text) (o : Bytes) → read n s ≡ some o → (length o ≡ n) × All IsByte o
read-IsIpv6 zero [] [] h = (refl, tt)
read-IsIpv6 zero [] (_ ∷ _) h = cc
read-IsIpv6 zero (_ ∷ _) o h = cc
read-IsIpv6 (suc n) [] o h = cc
read-IsIpv6 (suc n) (_ ∷ []) o h = cc
read-IsIpv6 (suc n) (c ∷ b ∷ s) [] h = ground arith
read-IsIpv6 (suc n) (c ∷ b ∷ s) (x ∷ o) h =
    let rest = read-IsIpv6 n s o (ground arith) in (omega (arith, rest.0), (ground arith, rest.1))

abbrev pub colons : Ipv6Text
colons = record {
  display = shown;
  parse = read 16;
  parse-display = λ o h. read-shown 16 o h.sixteen h.bytes;
  parse-IsIpv6 = λ s o h. let r = read-IsIpv6 16 s o h in record { sixteen = r.0; bytes = r.1 };
}
