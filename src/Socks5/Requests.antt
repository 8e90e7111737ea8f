-- ===== src/Socks5/Requests.antt =====
-- What the handshake makes of the messages of a client (RFC 1928), and what it leaves unread.
use mathlib.Core.List.{append_assoc}
use ws2tcp_local_core.Base.{
  ℕ, suc, ◌+◌, ◌*◌, ◌/◌, ◌%◌, ◌≤◌, ◌<◌, ◌≡◌, refl, true, false, [], ◌∷◌, ◌++◌, ok, err, arith, ◌==◌,
  ◌||◌, if◌then◌else◌, ltb, length, All, length-append, drop-append, take-append,
}
use ws2tcp_local_core.Text.{Text, Bytes}
use ws2tcp_local_core.Text.Utf8.{as_bytes, IsScalar, from_utf8-as_bytes}
use ws2tcp_local_core.Text.Split.{contains}
use ws2tcp_local_core.Text.Number.{decimal}
use ws2tcp_local_core.Net.Ipv4
use ws2tcp_local_core.Net.Ipv4.{Ipv4}
use ws2tcp_local_core.Net.Ipv6.{Ipv6Text}
use ws2tcp_local_core.Stream.{Stream, read_exact, write_all}
use ws2tcp_local_core.Socks5.{
  socks5_version, cmd_connect, cmd_udp_associate, atyp_ipv4, atyp_domain, atyp_ipv6, auth_no_auth,
  auth_no_acceptable, Socks5Command, connect, udp_associate, no_supported_method,
}
use ws2tcp_local_core.Socks5.Handshake.{
  negotiate_auth, read_address, read_command, read_socks5_request,
}

abbrev pub stream : Bytes → Bytes → ℕ → Stream
stream unread sent writable = record { unread = unread; sent = sent; writable = writable }

read_exact-append :
    {E : Type 0} (piece rest sent : Bytes) (w n : ℕ) (e : E)
    → n ≡ length piece
    → read_exact n e (stream (piece ++ rest) sent w) ≡ (ok piece, stream rest sent w)
unfolding read_exact
read_exact-append piece rest sent w n e h =
    rw (enough, h, take-append piece rest, drop-append piece rest)
  where
    enough : ltb (length (piece ++ rest)) n ≡ false
    enough = ground (arith, length-append piece rest)

-- A client's greeting.
pub greeting : Bytes → Bytes
greeting methods = socks5_version ∷ length methods ∷ methods

-- The three kinds of address, as the client sends them and as the authority shows them.
pub data Target : Type 0 where
  ipv4 : Ipv4 → Target
  domain : Text → Target
  ipv6 : Bytes → Target

unfoldable pub IsTarget : Target → Type 0
IsTarget (ipv4 ip) = Unit
IsTarget (domain name) = All IsScalar name × (length (as_bytes name) ≤ 255)
IsTarget (ipv6 octets) = length octets ≡ 16

address_type : Target → ℕ
address_type (ipv4 _) = atyp_ipv4
address_type (domain _) = atyp_domain
address_type (ipv6 _) = atyp_ipv6

address : Target → Bytes
address (ipv4 ip) = Ipv4.octets ip
address (domain name) = length (as_bytes name) ∷ as_bytes name
address (ipv6 octets) = octets

pub request : ℕ → Target → ℕ → Bytes
request cmd t port =
    socks5_version ∷ cmd ∷ 0 ∷ address_type t ∷ (address t ++ ((port / 256) ∷ (port % 256) ∷ []))

pub shown : Ipv6Text → Target → Text
shown text (ipv4 ip) = Ipv4.display ip
shown text (domain name) = name
shown text (ipv6 octets) = b'[' ∷ (text.display octets ++ b']' ∷ [])

-- a greeting that offers no authentication is answered by its selection
negotiate_auth-greeting :
    (methods rest sent : Bytes) (w : ℕ)
    → contains auth_no_auth methods ≡ true
    → negotiate_auth (stream (greeting methods ++ rest) sent (suc w))
      ≡ (ok tt, stream rest (sent ++ (socks5_version ∷ auth_no_auth ∷ [])) w)
unfolding negotiate_auth greeting
negotiate_auth-greeting methods rest sent w h =
    rw
      (
        read_exact-append (socks5_version ∷ length methods ∷ []) (methods ++ rest) sent (suc w) 2 _
            (omega arith),
        read_exact-append methods rest sent (suc w) (length methods) _ refl,
        h,
      )
      (unfold write_all in refl)

-- A client that does not offer "no authentication" is told so, and the request is not read.
pub read_socks5_request_refuses :
    (text : Ipv6Text) (methods rest sent : Bytes) (w : ℕ)
    → contains auth_no_auth methods ≡ false
    → read_socks5_request text (stream (greeting methods ++ rest) sent (suc w)) ≡ (
      err no_supported_method,
      stream rest (sent ++ (socks5_version ∷ auth_no_acceptable ∷ [])) w,
    )
unfolding read_socks5_request negotiate_auth greeting
read_socks5_request_refuses text methods rest sent w h =
    rw
      (
        read_exact-append (socks5_version ∷ length methods ∷ []) (methods ++ rest) sent (suc w) 2 _
            (omega arith),
        read_exact-append methods rest sent (suc w) (length methods) _ refl,
        h,
      )
      (unfold write_all in refl)

module _ (text : Ipv6Text) where
  read_address-address :
      (t : Target) (rest sent : Bytes) (w : ℕ)
      → IsTarget t
      → read_address text (address_type t) (stream (address t ++ rest) sent w)
        ≡ (ok (shown text t), stream rest sent w)
  unfolding read_address address address_type shown IsTarget
  read_address-address (ipv4 ip) rest sent w h =
      rw (read_exact-append (Ipv4.octets ip) rest sent w 4 _ (omega arith))
  read_address-address (domain name) rest sent w h = rw (
    read_exact-append (length (as_bytes name) ∷ []) (as_bytes name ++ rest) sent w 1 _
        (omega arith),
    read_exact-append (as_bytes name) rest sent w (length (as_bytes name)) _ refl,
    from_utf8-as_bytes name h.0,
  )
  read_address-address (ipv6 octets) rest sent w h =
      rw (read_exact-append octets rest sent w 16 _ (omega arith))

  -- the command that a request asks for
  pub asked : ℕ → Target → ℕ → Socks5Command
  asked cmd t port =
      if cmd == cmd_udp_associate
      then udp_associate
      else connect (record { authority = shown text t ++ (b':' ∷ decimal port) })

  -- After a greeting that offers no authentication and a CONNECT or UDP ASSOCIATE request, the
  -- command is the one asked for, the client has been sent the method selection and no more, and
  -- what follows the request is left unread.
  pub read_socks5_request_accepts :
      (methods : Bytes) (cmd : ℕ) (t : Target) (port : ℕ) (rest sent : Bytes) (w : ℕ)
      → contains auth_no_auth methods ≡ true
      → (cmd == cmd_connect || cmd == cmd_udp_associate) ≡ true
      → IsTarget t
      → port < 65536
      → read_socks5_request text
          (stream (greeting methods ++ (request cmd t port ++ rest)) sent (suc w))
        ≡ (ok (asked cmd t port), stream rest (sent ++ (socks5_version ∷ auth_no_auth ∷ [])) w)
  unfolding read_socks5_request read_command request asked
  read_socks5_request_accepts methods cmd t port rest sent w offered known fits small =
      rw (negotiate_auth-greeting methods (request cmd t port ++ rest) sent w offered) (
        rw
          (
            append_assoc (address t) ((port / 256) ∷ (port % 256) ∷ []) rest,
            read_exact-append (socks5_version ∷ cmd ∷ 0 ∷ address_type t ∷ [])
                (address t ++ ((port / 256) ∷ (port % 256) ∷ rest)) _ w 4 _ (omega arith),
            known,
            read_address-address t ((port / 256) ∷ (port % 256) ∷ rest) _ w fits,
            read_exact-append ((port / 256) ∷ (port % 256) ∷ []) rest _ w 2 _ (omega arith),
            same,
          )
          refl)
    where
      same : port / 256 * 256 + port % 256 ≡ port
      same = omega arith
