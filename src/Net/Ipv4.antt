-- ===== src/Net/Ipv4.antt =====
-- `Ipv4Addr`: its octets, `Display` and `FromStr`.
pub mod RoundTrip
use ws2tcp_local_core.Base.{
  ℕ, suc, ◌<◌, ◌≡◌, Bool, true, false, ◌&&◌, ◌||◌, not, List, [], ◌∷◌, ◌++◌, Option, none, some,
  ◌==◌, if◌then◌else◌, leb, length, get_or,
}
use ws2tcp_local_core.Text.{Text, Bytes}
use ws2tcp_local_core.Text.Split.{split}
use ws2tcp_local_core.Text.Number.{decimal, digits_to}

pub record Ipv4 : Type 0 where
  pub a : ℕ
  pub b : ℕ
  pub c : ℕ
  pub d : ℕ

pub record IsOctets (x : Ipv4) : Type 0 where
  pub a_lt : x.a < 256
  pub b_lt : x.b < 256
  pub c_lt : x.c < 256
  pub d_lt : x.d < 256

-- `Ipv4Addr::from` of an array of four octets
abbrev pub from_octets : Bytes → Ipv4
from_octets o = record { a = get_or o 0 0; b = get_or o 1 0; c = get_or o 2 0; d = get_or o 3 0 }

abbrev pub octets : Ipv4 → Bytes
octets x = x.a ∷ x.b ∷ x.c ∷ x.d ∷ []

unfoldable pub display : Ipv4 → Text
unfolding decimal
display x = decimal x.a ++ (b'.' ∷ (decimal x.b ++ (b'.' ∷ (decimal x.c ++ (b'.' ∷ decimal x.d)))))

-- one to three digits, no zero in front of others, below 256
unfoldable pub octet : Text → Option ℕ
unfolding digits_to
octet [] = none
octet (c ∷ []) = digits_to 255 0 (c ∷ [])
octet (c ∷ d ∷ s) =
    if c == b'0' || not (leb (length s) 1) then none else digits_to 255 0 (c ∷ d ∷ s)

unfoldable pub of_octets : Option ℕ → Option ℕ → Option ℕ → Option ℕ → Option Ipv4
of_octets (some a) (some b) (some c) (some d) = some (record { a = a; b = b; c = c; d = d })
of_octets _ _ _ _ = none

unfoldable pub of_pieces : List Text → Option Ipv4
unfolding octet of_octets
of_pieces (p ∷ q ∷ r ∷ s ∷ []) = of_octets (octet p) (octet q) (octet r) (octet s)
of_pieces _ = none

-- `parse::<Ipv4Addr>()`
unfoldable pub parse : Text → Option Ipv4
unfolding of_pieces split
parse s = of_pieces (split (λ c. c == b'.') s)
