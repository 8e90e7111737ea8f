-- ===== src/Tunnel/Served.antt =====
-- How the handlers of src/tunnel.rs serve a request: whom they contact, which way they take, and what
-- they reply.
use mathlib.Core.Path.{subst}
use ws2tcp_local_core.Base.{
  ℕ, ◌≡◌, refl, sym, Bool, true, false, [], Option, none, some, Result, ok, err,
}
use ws2tcp_local_core.Text.{Text, Bytes}
use ws2tcp_local_core.Net.Ipv6.{Ipv6Text}
use ws2tcp_local_core.Url.{UrlParser}
use ws2tcp_local_core.Stream.{Stream}
use ws2tcp_local_core.HttpProxy.{ProxyRequest, authority, initial_client_bytes, is_connect}
use ws2tcp_local_core.HttpProxy.Read.{Reads, read_proxy_request}
use ws2tcp_local_core.HttpProxy.Target.{read_proxy_request-Names}
use ws2tcp_local_core.Socks5.{
  Socks5Command, connect, udp_associate, success_reply, general_failure_reply,
}
use ws2tcp_local_core.Socks5
use ws2tcp_local_core.Socks5.Handshake.{read_socks5_request}
use ws2tcp_local_core.Routing.Authority.{host_from_authority, split_authority}
use ws2tcp_local_core.Routing.Authority as Authorities
use ws2tcp_local_core.Gateway.{target_url}
use ws2tcp_local_core.Upstream.{UpstreamProxy}
use ws2tcp_local_core.Upstream
use ws2tcp_local_core.Upstream.Connect.{Contacts, tcp}
use ws2tcp_local_core.Upstream.Through.{Adds, Adds-none, Adds-one, connect-Adds}
use ws2tcp_local_core.Tunnel.{World, Link, Config, ReplyStyle, socks5, Error}
use ws2tcp_local_core.Tunnel.Connect.{GatewayStream}
use ws2tcp_local_core.Tunnel.Reached.{Allowed}
use ws2tcp_local_core.Tunnel.Attempts.{connect_gateway-Returns}
use ws2tcp_local_core.Tunnel.Handlers.{
  Client, Served, through_gateway, direct, Outcome, write_success, then_serve, on_gateway,
  handle_gateway, on_target, dial_target, handle_direct, by_rules, by_host, reply_of, on_request,
  handle_client, as_client, on_command, handle_socks_client,
}

-- the way that the rules give: a host that is to be proxied is never dialled, and for another host the
-- gateway is not asked and no token is used
abbrev pub Follows : Bool → Link → Served → Link → Type 0
Follows true l (direct _ _) m = ⊥
Follows true l _ m = Unit
Follows false l (through_gateway _ _) m = ⊥
Follows false l _ m =
    (m.session ≡ l.session)
    × (m.http3 ≡ l.http3)
    × (m.handshakes ≡ l.handshakes)
    × (m.tries ≡ l.tries)

-- What a request comes to: only allowed contacts, and the way that the rules give.
pub record IsServed (proxied : Bool) (proxy : Option UpstreamProxy) (l : Link) (x : Outcome)
    : Type 0 where
  pub contacts : Adds (Allowed proxy) l.contacts x.2.contacts
  pub follows : Follows proxied l x.0 x.2

module _ (world : World) (config : Config) where
  handle_gateway-IsServed :
      (target : Text) (initial : Bytes) (reply : ReplyStyle) (c : Client) (l : Link)
      → IsServed true config.upstream_proxy l (handle_gateway world config target initial reply c l)
  unfolding handle_gateway
  handle_gateway-IsServed target initial reply c l =
      let (r, after, returned, reaches) =
        connect_gateway-Returns world config 0 (target_url config.gateway target) l in
      subst
        (λ x. IsServed true config.upstream_proxy l (on_gateway world config initial reply c x l))
        (sym returned) (by_result r after reaches.contacts)
    where
      by_reply :
          (stream : GatewayStream) (x : Bool × Client) (after : Link)
          → Adds (Allowed config.upstream_proxy) l.contacts after.contacts
          → IsServed true config.upstream_proxy l
              (then_serve (through_gateway stream initial) x after)
      by_reply stream (true, c') after h = record { contacts = h; follows = tt }
      by_reply stream (false, c') after h = record { contacts = h; follows = tt }

      by_result :
          (r : Result Error GatewayStream) (after : Link)
          → Adds (Allowed config.upstream_proxy) l.contacts after.contacts
          → IsServed true config.upstream_proxy l
              (on_gateway world config initial reply c (some (r, after)) l)
      by_result (ok stream) after h = by_reply stream (write_success reply c) after h
      by_result (err e) after h = record { contacts = h; follows = tt }

  handle_direct-IsServed :
      (target : Text) (initial : Bytes) (reply : ReplyStyle) (c : Client) (l : Link)
      → IsServed false config.upstream_proxy l (handle_direct world config target initial reply c l)
  unfolding handle_direct
  handle_direct-IsServed target initial reply c l =
      by_dial
        (dial_target world config config.upstream_proxy target (split_authority target) l.contacts)
        (dialled config.upstream_proxy (split_authority target))
    where
      dialled :
          (proxy : Option UpstreamProxy) (parts : Result Authorities.Error (Text × ℕ))
          → Adds
              (Allowed proxy)
              l.contacts
              (dial_target world config proxy target parts l.contacts).1
      dialled none (ok (host, port)) = Adds-one (Allowed none) (tcp host port) l.contacts tt
      dialled none (err _) = Adds-none (Allowed none) l.contacts
      dialled (some p) (ok (host, port)) = connect-Adds world.network p host port l.contacts
      dialled (some p) (err _) = Adds-none (Allowed (some p)) l.contacts

      by_reply :
          (stream : Stream) (made : Contacts) (x : Bool × Client)
          → Adds (Allowed config.upstream_proxy) l.contacts made
          → IsServed false config.upstream_proxy l
              (then_serve (direct stream initial) x (record l { contacts = made }))
      by_reply stream made (true, c') h = record {
        contacts = h;
        follows = (refl, refl, refl, refl);
      }
      by_reply stream made (false, c') h = record {
        contacts = h;
        follows = (refl, refl, refl, refl);
      }

      by_dial :
          (x : Result Upstream.Error Stream × Contacts)
          → Adds (Allowed config.upstream_proxy) l.contacts x.1
          → IsServed false config.upstream_proxy l (on_target world config initial reply c x l)
      by_dial (ok stream, made) h = by_reply stream made (write_success reply c) h
      by_dial (err e, made) h = record { contacts = h; follows = (refl, refl, refl, refl) }

  by_rules-IsServed :
      (b : Bool) (target : Text) (initial : Bytes) (reply : ReplyStyle) (c : Client) (l : Link)
      → IsServed b config.upstream_proxy l (by_rules world config b target initial reply c l)
  by_rules-IsServed true target initial reply c l = handle_gateway-IsServed target initial reply c l
  by_rules-IsServed false target initial reply c l = handle_direct-IsServed target initial reply c l

  -- An accepted request names a host. One that the rules send to the gateway is never connected
  -- directly, and another uses neither the gateway nor a token. With an upstream proxy the only
  -- contacts are those with the proxy and, where it is a `socks5` one, with the resolver, also when
  -- the request fails; the token requests, which the session's own HTTP client sends, are not
  -- among the contacts.
  pub handle_client-IsServed :
      (parse_url : UrlParser) (reads left : Reads) (request : ProxyRequest) (c : Client) (l : Link)
      → read_proxy_request parse_url reads ≡ ok (request, left)
      → (host : Text) × (host_from_authority (authority request) ≡ ok host)
        × IsServed
            (config.should_proxy_host host)
            config.upstream_proxy
            l
            (handle_client world config parse_url reads c l)
  unfolding handle_client
  handle_client-IsServed parse_url reads left request c l e =
      let (host, _, names) = read_proxy_request-Names parse_url reads left request e in
      (
        host,
        names.host_is,
        subst
            (λ x.
              IsServed (config.should_proxy_host host) config.upstream_proxy l
                (on_request world config x c l))
            (sym e)
            (subst
              (λ x. IsServed (config.should_proxy_host host) config.upstream_proxy l (
                by_host world config x (authority request) (initial_client_bytes request)
                  (reply_of world config (is_connect request)) c l))
              (sym names.host_is)
              (by_rules-IsServed (config.should_proxy_host host) (authority request)
                (initial_client_bytes request) (reply_of world config (is_connect request)) c l)),
      )

  -- A SOCKS5 CONNECT for a host that the rules send to the gateway is never connected directly, one
  -- for another host uses neither the gateway nor a token, and with an upstream proxy nothing but the
  -- proxy is contacted.
  pub handle_socks_client-IsServed :
      (ipv6 : Ipv6Text) (stream after : Stream) (request : Socks5.Socks5Request) (host : Text)
      (l : Link)
      → read_socks5_request ipv6 stream ≡ (ok (connect request), after)
      → host_from_authority request.authority ≡ ok host
      → IsServed
          (config.should_proxy_host host)
          config.upstream_proxy
          l
          (handle_socks_client world config ipv6 stream l)
  unfolding handle_socks_client
  handle_socks_client-IsServed ipv6 stream after request host l e f =
      subst
        (λ x.
          IsServed (config.should_proxy_host host) config.upstream_proxy l
            (on_command world config x l))
        (sym e)
        (subst
          (λ x.
            IsServed (config.should_proxy_host host) config.upstream_proxy l
              (by_host world config x request.authority [] socks5 (as_client world config after) l))
          (sym f)
          (by_rules-IsServed (config.should_proxy_host host) request.authority [] socks5
            (as_client world config after) l))
