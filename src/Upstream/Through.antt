-- ===== src/Upstream/Through.antt =====
-- With an upstream proxy, whom this machine reaches out to: the proxy, and for `socks5` the resolver.
use mathlib.Core.List.{append_assoc}
use ws2tcp_local_core.Base.{
  ℕ, ◌≡◌, refl, sym, ap, ◌∙◌, Bool, true, false, [], ◌∷◌, ◌++◌, Result, ok, err, All, All-append,
  length,
}
use ws2tcp_local_core.Text.{Text}
use ws2tcp_local_core.Stream.{Stream}
use ws2tcp_local_core.Effects.{Exec, and_then, lift}
use ws2tcp_local_core.Upstream.{UpstreamProxy, Kind, http, socks5, socks5h, Error, unbracketed}
use ws2tcp_local_core.Upstream.Connect.{
  Contact, tcp, lookup, quic, udp, Contacts, Network, address, dial, resolve, first_of, socks,
  handshake, connect_inner, unless_late, connect,
}

-- A contact that a proxy of the setting may make: with the proxy itself, and, where names are to be
-- resolved locally, with the resolver.
abbrev pub IsThrough : UpstreamProxy → Contact → Type 0
IsThrough p (tcp host port) = (host ≡ p.host) × (port ≡ p.port)
IsThrough p (lookup _ _) = p.kind ≡ socks5
IsThrough p (quic _ _) = ⊥
IsThrough p (udp _ _) = ⊥

-- the contacts that were added all meet a predicate
pub record Adds (Allowed : Contact → Type 0) (before after : Contacts) : Type 0 where
  pub added : Contacts
  pub whole : after ≡ added ++ before
  pub all : All Allowed added

module _ (Allowed : Contact → Type 0) where
  pub Adds-none : (made : Contacts) → Adds Allowed made made
  Adds-none made = record { added = []; whole = refl; all = tt }

  pub Adds-one : (c : Contact) (made : Contacts) → Allowed c → Adds Allowed made (c ∷ made)
  Adds-one c made h = record { added = c ∷ []; whole = refl; all = (h, tt) }

  pub Adds-then : (a b c : Contacts) → Adds Allowed a b → Adds Allowed b c → Adds Allowed a c
  Adds-then a b c f g = record {
    added = g.added ++ f.added;
    whole = g.whole ∙ ap (λ l. g.added ++ l) f.whole ∙ sym (append_assoc g.added f.added a);
    all = All-append Allowed g.added f.added g.all f.all;
  }

  pub and_then-Adds :
      {E A B : Type 0} (made : Contacts) (x : Result E A × Contacts) (f : A → Exec Contacts E B)
      → Adds Allowed made x.1
      → ((a : A) (l : Contacts) → Adds Allowed l (f a l).1)
      → Adds Allowed made (and_then x f).1
  and_then-Adds made (ok a, l) f h k = Adds-then made l (f a l).1 h (k a l)
  and_then-Adds made (err e, l) f h k = h

module _ (network : Network) (proxy : UpstreamProxy) where
  handshake-Adds :
      (kind : Kind) (host : Text) (port : ℕ) (stream : Stream) (made : Contacts)
      → proxy.kind ≡ kind
      → Adds (IsThrough proxy) made (handshake network proxy kind host port stream made).1
  handshake-Adds http host port stream made e = Adds-none (IsThrough proxy) made
  handshake-Adds socks5h host port stream made e = Adds-none (IsThrough proxy) made
  handshake-Adds socks5 host port stream made e =
      and_then-Adds (IsThrough proxy) made (resolve network host port made) _
        (Adds-one (IsThrough proxy) (lookup host port) made e)
        (λ addresses l. by_first (first_of addresses) l)
    where
      by_first :
          (r : Result Error (Text × ℕ)) (l : Contacts)
          → Adds
              (IsThrough proxy)
              l
              (and_then
                (lift r l)
                (λ found. socks network proxy stream (address found.0 found.1))).1
      by_first (ok found) l = Adds-none (IsThrough proxy) l
      by_first (err e) l = Adds-none (IsThrough proxy) l

  -- A connection through the proxy reaches out to the proxy alone, and, for `socks5`, to the
  -- resolver, whether it succeeds or fails.
  pub connect-Adds :
      (host : Text) (port : ℕ) (made : Contacts)
      → Adds (IsThrough proxy) made (connect network proxy host port made).1
  unfolding connect connect_inner
  connect-Adds host port made =
      by_time (network.in_time (length made))
        (connect_inner network proxy (unbracketed host) port made)
        (and_then-Adds (IsThrough proxy) made (dial network proxy.host proxy.port made) _
          (Adds-one (IsThrough proxy) (tcp proxy.host proxy.port) made (refl, refl))
          (λ stream l. handshake-Adds proxy.kind (unbracketed host) port stream l refl))
    where
      by_time :
          (b : Bool) (x : Result Error Stream × Contacts)
          → Adds (IsThrough proxy) made x.1
          → Adds (IsThrough proxy) made (unless_late network proxy b x).1
      by_time true x h = h
      by_time false (r, l) h = h
