-- ===== src/Tunnel/Reached.antt =====
-- Whom `connect_websocket` and `connect_gateway` of src/tunnel.rs reach out to.
use mathlib.Core.Path.{subst}
use ws2tcp_local_core.Base.{
  ℕ, ◌+◌, ◌≤◌, ◌≡◌, refl, sym, Bool, true, false, ◌∷◌, Option, none, some, Result, ok, err, arith,
}
use ws2tcp_local_core.Text.{Text}
use ws2tcp_local_core.Effects.{Exec, and_then}
use ws2tcp_local_core.Stream.{Stream}
use ws2tcp_local_core.Websocket.{WsError, Request}
use ws2tcp_local_core.Http3.{Mode, off, preferred, only}
use ws2tcp_local_core.Http3
use ws2tcp_local_core.Http3.Connect as OverQuic
use ws2tcp_local_core.Http3.Periods.{connect-only}
use ws2tcp_local_core.Upstream.{UpstreamProxy}
use ws2tcp_local_core.Upstream
use ws2tcp_local_core.Upstream.Connect.{Contact, Contacts, quic}
use ws2tcp_local_core.Upstream.Through.{
  IsThrough, Adds, Adds-none, Adds-one, Adds-then, connect-Adds,
}
use ws2tcp_local_core.Tunnel.{World, Link}
use ws2tcp_local_core.Tunnel.Connect.{
  port_of, host_or_empty, is_wss, tries_http3, as_io, dial_gateway, shake, dial_named, over_tcp,
  over_quic, or_tcp, as_tried, connect_websocket,
}

-- Any contact, or with an upstream proxy those that go through it.
abbrev pub Allowed : Option UpstreamProxy → Contact → Type 0
Allowed none c = Unit
Allowed (some proxy) c = IsThrough proxy c

-- From one link to another: only allowed contacts are added, and at most `n` tries.
pub record Reaches (proxy : Option UpstreamProxy) (n : ℕ) (l m : Link) : Type 0 where
  pub contacts : Adds (Allowed proxy) l.contacts m.contacts
  pub tries_le : m.tries ≤ n + l.tries

module _ (proxy : Option UpstreamProxy) where
  pub Reaches-none : (n : ℕ) (l : Link) → Reaches proxy n l l
  Reaches-none n l = record {
    contacts = Adds-none (Allowed proxy) l.contacts;
    tries_le = omega arith;
  }

  pub Reaches-then :
      (n m : ℕ) (l h k : Link)
      → Reaches proxy n l h
      → Reaches proxy m h k
      → Reaches proxy (m + n) l k
  Reaches-then n m l h k f g = record {
    contacts = Adds-then (Allowed proxy) l.contacts h.contacts k.contacts f.contacts g.contacts;
    tries_le = omega (arith, f.tries_le, g.tries_le);
  }

  pub and_then-Reaches :
      {E A B : Type 0} (n m : ℕ) (l : Link) (x : Result E A × Link) (f : A → Exec Link E B)
      → Reaches proxy n l x.1
      → ((a : A) (k : Link) → Reaches proxy m k (f a k).1)
      → Reaches proxy (m + n) l (and_then x f).1
  and_then-Reaches n m l (ok a, k) f h g = Reaches-then n m l k (f a k).1 h (g a k)
  and_then-Reaches n m l (err e, k) f h g = record {
    contacts = h.contacts;
    tries_le = omega (arith, h.tries_le);
  }

as_io-Reaches :
    (proxy : Option UpstreamProxy) (l : Link) (x : Result Upstream.Error Stream × Contacts)
    → Adds (Allowed proxy) l.contacts x.1
    → Reaches proxy 0 l (as_io x l).1
as_io-Reaches proxy l (ok stream, made) h = record { contacts = h; tries_le = omega arith }
as_io-Reaches proxy l (err e, made) h = record { contacts = h; tries_le = omega arith }

-- one contact was made, over QUIC, and no handshake over TCP
pub record QuicAlone (l after : Link) : Type 0 where
  pub no_handshake : after.handshakes ≡ l.handshakes
  pub host : Text
  pub port : ℕ
  pub one_contact : after.contacts ≡ quic host port ∷ l.contacts

module _ (world : World) where
  dial_gateway-Reaches :
      (proxy : Option UpstreamProxy) (host : Text) (port : ℕ) (l : Link)
      → Reaches proxy 0 l (dial_gateway world proxy host port l).1
  dial_gateway-Reaches (some p) host port l =
      as_io-Reaches (some p) l _ (connect-Adds world.network p host port l.contacts)
  dial_gateway-Reaches none host port l =
      as_io-Reaches none l _ (Adds-one (Allowed none) _ l.contacts tt)

  over_tcp-Reaches :
      (request : Request) (insecure : Bool) (proxy : Option UpstreamProxy) (l : Link)
      → Reaches proxy 0 l (over_tcp world request insecure proxy l).1
  unfolding over_tcp
  over_tcp-Reaches request insecure proxy l = by_host request.uri.host
    where
      by_host :
          (host : Option Text)
          → Reaches proxy 0 l (dial_named world request insecure proxy host l).1
      by_host none = Reaches-none proxy 0 l
      by_host (some host) =
          and_then-Reaches proxy 0 0 l (dial_gateway world proxy host _ l)
            (shake world request insecure) (dial_gateway-Reaches proxy host _ l)
            (λ stream k. record {
              contacts = Adds-none (Allowed proxy) k.contacts;
              tries_le = omega arith;
            })

  as_tried-Reaches :
      (request : Request) (insecure is_only : Bool) (l : Link)
      → Reaches none 0 l (as_tried world request insecure none (some is_only) l).1
  as_tried-Reaches request insecure is_only l =
      and_then-Reaches none 0 0 l (over_quic world request insecure is_only l)
        (or_tcp world request insecure none)
        (record { contacts = Adds-one (Allowed none) _ l.contacts tt; tries_le = omega arith })
        by_stream
    where
      by_stream :
          (stream : Option ℕ) (k : Link)
          → Reaches none 0 k (or_tcp world request insecure none stream k).1
      by_stream (some stream) k = Reaches-none none 0 k
      by_stream none k = over_tcp-Reaches request insecure none k

  -- With an upstream proxy, a websocket is opened through it and nothing else is contacted.
  pub connect_websocket-Reaches :
      (request : Request) (insecure : Bool) (mode : Mode) (proxy : Option UpstreamProxy) (l : Link)
      → Reaches proxy 0 l (connect_websocket world request insecure mode proxy l).1
  unfolding connect_websocket tries_http3
  connect_websocket-Reaches request insecure off proxy l = over_tcp-Reaches request insecure proxy l
  connect_websocket-Reaches request insecure preferred (some p) l =
      over_tcp-Reaches request insecure (some p) l
  connect_websocket-Reaches request insecure only (some p) l =
      over_tcp-Reaches request insecure (some p) l
  connect_websocket-Reaches request insecure preferred none l = by_scheme (is_wss request)
    where
      by_scheme :
          (b : Bool)
          → Reaches none 0 l
              (as_tried world request insecure none (tries_http3 preferred none b) l).1
      by_scheme false = over_tcp-Reaches request insecure none l
      by_scheme true = as_tried-Reaches request insecure false l
  connect_websocket-Reaches request insecure only none l = by_scheme (is_wss request)
    where
      by_scheme :
          (b : Bool)
          → Reaches none 0 l (as_tried world request insecure none (tries_http3 only none b) l).1
      by_scheme false = over_tcp-Reaches request insecure none l
      by_scheme true = as_tried-Reaches request insecure true l

  only_quic :
      (request : Request) (insecure : Bool) (l : Link)
      → QuicAlone l (as_tried world request insecure none (some true) l).1
  only_quic request insecure l =
      by_connect (OverQuic.connect world.quic request insecure true l.http3) refl
    where
      after : Http3.State → Link
      after s = record l {
        http3 = s;
        contacts = quic (host_or_empty request.uri.host) (port_of request.uri) ∷ l.contacts;
      }

      by_connect :
          (x : Result WsError (Option ℕ) × Http3.State)
          → OverQuic.connect world.quic request insecure true l.http3 ≡ x
          → QuicAlone l (and_then (x.0, after x.1) (or_tcp world request insecure none)).1
      by_connect (ok (some stream), s) e = record {
        no_handshake = refl;
        host = _;
        port = _;
        one_contact = refl;
      }
      by_connect (ok none, s) e = absurd (connect-only world.quic request insecure l.http3 s e)
      by_connect (err f, s) e = record {
        no_handshake = refl;
        host = _;
        port = _;
        one_contact = refl;
      }

  -- With HTTP/3 only, a `wss` gateway and no upstream proxy, the gateway is contacted over QUIC
  -- alone: there is no TCP connection, whether the websocket opens or not.
  pub connect_websocket-QuicAlone :
      (request : Request) (insecure : Bool) (l : Link)
      → is_wss request ≡ true
      → QuicAlone l (connect_websocket world request insecure only none l).1
  unfolding connect_websocket tries_http3
  connect_websocket-QuicAlone request insecure l h =
      subst (λ b. QuicAlone l (as_tried world request insecure none (tries_http3 only none b) l).1)
        (sym h) (only_quic request insecure l)
