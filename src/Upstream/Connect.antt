-- ===== src/Upstream/Connect.antt =====
-- `connect` of src/upstream.rs: a TCP connection through the proxy. What the network and the SOCKS
-- library do is a parameter, indexed by the number of contacts made before; the state is the list of
-- the contacts, the last one first.
use ws2tcp_local_core.Base.{
  ℕ, Bool, true, false, List, [], ◌∷◌, Option, none, some, Result, ok, err, length,
}
use ws2tcp_local_core.Text.{Text, Bytes}
use ws2tcp_local_core.Stream.{Stream}
use ws2tcp_local_core.Effects.{Exec, ◌>>=◌, lift}
use ws2tcp_local_core.Upstream.{
  UpstreamProxy, http, socks5, socks5h, Kind, Error, unreachable, unresolved, no_address,
  socks_failed, timed_out, unbracketed,
}
use ws2tcp_local_core.Upstream.Answer.{http_connect}

-- How this machine reaches out: a TCP connection to a host and port, a name that it resolves
-- itself, a QUIC or a UDP peer.
pub data Contact : Type 0 where
  tcp lookup quic udp : Text → ℕ → Contact

abbrev pub Contacts : Type 0
Contacts = List Contact

-- what a SOCKS5 server is asked for
pub data Target : Type 0 where
  name address : Text → ℕ → Target

pub record Network : Type 0 where
  pub connect_tcp : ℕ → Text → ℕ → Option Stream
  pub lookup_host : ℕ → Text → ℕ → Option (List (Text × ℕ))
  pub connect_socks5 : ℕ → Option (Text × Text) → Target → Stream → Option Stream
  pub in_time : ℕ → Bool
  pub ending : ℕ → Error
  pub encode : Bytes → Text

-- `context`
abbrev pub or_fail : {A : Type 0} → Error → Option A → Result Error A
or_fail e none = err e
or_fail e (some a) = ok a

abbrev pub first_of : List (Text × ℕ) → Result Error (Text × ℕ)
first_of [] = err no_address
first_of (a ∷ _) = ok a

module _ (network : Network) where
  abbrev pub dial : Text → ℕ → Exec Contacts Error Stream
  dial host port made =
      (or_fail unreachable (network.connect_tcp (length made) host port), tcp host port ∷ made)

  abbrev pub resolve : Text → ℕ → Exec Contacts Error (List (Text × ℕ))
  resolve host port made =
      (or_fail unresolved (network.lookup_host (length made) host port), lookup host port ∷ made)

  abbrev pub opened : Stream → Result Error (Unit {0}) × Stream → Result Error Stream
  opened stream (ok _, after) = ok after
  opened stream (err e, after) = err e

  module _ (proxy : UpstreamProxy) where
    -- the handshake of the SOCKS library on the open stream
    abbrev pub socks : Stream → Target → Exec Contacts Error Stream
    socks stream target made = (
      or_fail socks_failed (network.connect_socks5 (length made) proxy.credentials target stream),
      made,
    )

    -- the target, with its name resolved by this machine
    abbrev pub resolved : Text → ℕ → Stream → Exec Contacts Error Stream
    resolved host port stream = do
      addresses ← resolve host port
      found ← lift (first_of addresses)
      socks stream (address found.0 found.1)

    abbrev pub handshake : Kind → Text → ℕ → Stream → Exec Contacts Error Stream
    handshake http host port stream made = (
      opened stream
          (http_connect network.encode proxy (network.ending (length made)) host port stream),
      made,
    )
    handshake socks5h host port stream made = socks stream (name host port) made
    handshake socks5 host port stream made = resolved host port stream made

    unfoldable pub connect_inner : Text → ℕ → Exec Contacts Error Stream
    connect_inner host port = do
      stream ← dial proxy.host proxy.port
      handshake proxy.kind host port stream

    -- `timeout`
    abbrev pub unless_late : Bool → Result Error Stream × Contacts → Result Error Stream × Contacts
    unless_late true x = x
    unless_late false (_, made) = (err timed_out, made)

    unfoldable pub connect : Text → ℕ → Exec Contacts Error Stream
    connect host port made =
        unless_late (network.in_time (length made)) (connect_inner (unbracketed host) port made)
