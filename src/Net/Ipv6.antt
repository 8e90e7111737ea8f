-- ===== src/Net/Ipv6.antt =====
-- `Ipv6Addr`: its sixteen octets. `Display` and `FromStr` are parameters with documented laws.
use ws2tcp_local_core.Base.{ℕ, ◌<◌, ◌≡◌, Option, some, length, All}
use ws2tcp_local_core.Text.{Text, Bytes}

abbrev pub IsByte : ℕ → Type 0
IsByte b = b < 256

pub record IsIpv6 (octets : Bytes) : Type 0 where
  pub sixteen : length octets ≡ 16
  pub bytes : All IsByte octets

pub record Ipv6Text : Type 0 where
  pub display : Bytes → Text
  pub parse : Text → Option Bytes
  pub parse-display : (o : Bytes) → IsIpv6 o → parse (display o) ≡ some o
  pub parse-IsIpv6 : (s : Text) (o : Bytes) → parse s ≡ some o → IsIpv6 o
