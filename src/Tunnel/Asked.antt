-- ===== src/Tunnel/Asked.antt =====
-- What the client of a UDP association asks for (`handle_socks_udp_associate` in src/tunnel.rs), and what
-- was handed over of it.
use ws2tcp_local_core.Base.{
  ℕ, suc, Bool, true, false, List, [], ◌∷◌, Option, none, some, Result, ok, err, inr, In,
}
use ws2tcp_local_core.Text.{Text, Bytes}
use ws2tcp_local_core.Net.Ipv6.{Ipv6Text}
use ws2tcp_local_core.Socks5
use ws2tcp_local_core.Socks5.Datagram.{SocketAddr, Datagram, parse_udp_datagram}
use ws2tcp_local_core.Tunnel.Association.{
  same_addr, Target, Event, control, datagram, target_ended, key_of,
}
use ws2tcp_local_core.Tunnel.Senders.{Serves, Serves-cons}

-- the datagrams that are to be relayed, the last one first, of the client that is pinned
abbrev pub claim : Result Socks5.Error Datagram → List (Text × Bytes) → List (Text × Bytes)
claim (err _) asked = asked
claim (ok d) asked = (key_of d.host d.port, d.payload) ∷ asked

abbrev pub claim_when :
    Bool → Result Socks5.Error Datagram → List (Text × Bytes) → List (Text × Bytes)
claim_when false parsed asked = asked
claim_when true parsed asked = claim parsed asked

abbrev pub claim_from :
    Option SocketAddr
    → Result Socks5.Error Datagram
    → SocketAddr
    → List (Text × Bytes)
    → List (Text × Bytes)
claim_from none parsed from asked = claim parsed asked
claim_from (some pin) parsed from asked = claim_when (same_addr pin from) parsed asked

abbrev pub pin_of : Option SocketAddr → SocketAddr → Option SocketAddr
pin_of none from = some from
pin_of (some pin) from = some pin

-- What the client asks for up to the event that ends the association: the datagrams that can be
-- parsed and come from whom the first one came from.
unfoldable pub asked_by :
    Ipv6Text → Option SocketAddr → List Event → List (Text × Bytes) → List (Text × Bytes)
asked_by ipv6 pin [] asked = asked
asked_by ipv6 pin (datagram bytes from ∷ es) asked =
    asked_by ipv6 (pin_of pin from) es (claim_from pin (parse_udp_datagram ipv6 bytes) from asked)
asked_by ipv6 pin (control (suc n) ∷ es) asked = asked_by ipv6 pin es asked
asked_by ipv6 pin (target_ended n ∷ es) asked = asked_by ipv6 pin es asked
asked_by ipv6 pin (_ ∷ es) asked = asked

-- What was handed over is what was asked for: each payload went to the task of its destination, and
-- was dropped only where that task has ended.
pub data Handed (ts : List Target) (gone : List ℕ)
    : List (ℕ × Bytes) → List (Text × Bytes) → Type 0 where
  nothing : Handed ts gone [] []
  handed :
      {q : List (ℕ × Bytes)} {w : List (Text × Bytes)} (n : ℕ) (key : Text) (payload : Bytes)
      → Serves ts n key
      → Handed ts gone q w
      → Handed ts gone ((n, payload) ∷ q) ((key, payload) ∷ w)
  dropped :
      {q : List (ℕ × Bytes)} {w : List (Text × Bytes)} (n : ℕ) (key : Text) (payload : Bytes)
      → Serves ts n key
      → In n gone
      → Handed ts gone q w
      → Handed ts gone q ((key, payload) ∷ w)

pub Handed-spawn :
    (u : Target) (ts : List Target) {gone : List ℕ} {q : List (ℕ × Bytes)} {w : List (Text × Bytes)}
    → Handed ts gone q w
    → Handed (u ∷ ts) gone q w
Handed-spawn u ts nothing = nothing
Handed-spawn u ts (handed n key payload s h) =
    handed n key payload (Serves-cons u ts n key s) (Handed-spawn u ts h)
Handed-spawn u ts (dropped n key payload s g h) =
    dropped n key payload (Serves-cons u ts n key s) g (Handed-spawn u ts h)

pub Handed-gone :
    (m : ℕ) {ts : List Target} {gone : List ℕ} {q : List (ℕ × Bytes)} {w : List (Text × Bytes)}
    → Handed ts gone q w
    → Handed ts (m ∷ gone) q w
Handed-gone m nothing = nothing
Handed-gone m (handed n key payload s h) = handed n key payload s (Handed-gone m h)
Handed-gone m (dropped n key payload s g h) = dropped n key payload s (inr g) (Handed-gone m h)
