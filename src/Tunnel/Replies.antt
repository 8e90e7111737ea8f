-- ===== src/Tunnel/Replies.antt =====
-- What the handlers of src/tunnel.rs reply to the client before bytes are relayed.
use ws2tcp_local_core.Base.{ℕ, suc, ◌≡◌, refl, [], ◌++◌, err}
use ws2tcp_local_core.Text.{Text, Bytes, lit}
use ws2tcp_local_core.Url.{UrlParser}
use ws2tcp_local_core.Stream.{Stream}
use ws2tcp_local_core.HttpProxy
use ws2tcp_local_core.HttpProxy.Read.{Reads, read_proxy_request}
use ws2tcp_local_core.Socks5.{success_reply, general_failure_reply}
use ws2tcp_local_core.Upstream.{UpstreamProxy}
use ws2tcp_local_core.Upstream
use ws2tcp_local_core.Tunnel.{
  World, Link, Config, ReplyStyle, http_connect, http_plain, socks5, Error, bad_request, panicked,
}
use ws2tcp_local_core.Tunnel.Handlers.{
  Client, Served, through_gateway, direct, associated, fails_with, Outcome, http_success,
  http_error, handle_client,
}

-- the reply that says how a request was served, by the protocol of its listener
abbrev pub success_of : ReplyStyle → Bytes
success_of http_connect = http_success
success_of http_plain = []
success_of socks5 = success_reply

abbrev pub error_of : ReplyStyle → Bytes
error_of http_connect = http_error (lit "502 Bad Gateway")
error_of http_plain = http_error (lit "502 Bad Gateway")
error_of socks5 = general_failure_reply

abbrev pub reply_for : ReplyStyle → Served → Bytes
reply_for reply (through_gateway _ _) = success_of reply
reply_for reply (direct _ _) = success_of reply
reply_for reply associated = []
reply_for reply (fails_with panicked) = []
reply_for reply (fails_with _) = error_of reply

-- The client got the one reply that the outcome calls for.
abbrev pub Replied : ReplyStyle → Client → Outcome → Type 0
Replied reply c x = x.1.sent ≡ c.sent ++ reply_for reply x.0

module _ (c : Client) (n : ℕ) (w : c.writable ≡ suc n) where
  module _ (world : World) (config : Config) where
    -- A request that is refused is answered with 400, and nothing is contacted for it.
    pub handle_client-refused :
        (parse_url : UrlParser) (reads : Reads) (e : HttpProxy.Error) (l : Link)
        → read_proxy_request parse_url reads ≡ err e
        → handle_client world config parse_url reads c l ≡ (
          fails_with bad_request,
          record { sent = c.sent ++ http_error (lit "400 Bad Request"); writable = n },
          l,
        )
    unfolding handle_client
    handle_client-refused parse_url reads e l h = rw (h, w) refl
