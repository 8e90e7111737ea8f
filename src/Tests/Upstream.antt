-- ===== src/Tests/Upstream.antt =====
-- An upstream proxy at concrete inputs, and the witnesses.
use ws2tcp_local_core.Base.{◌≡◌, ◌++◌, true, refl, [], Option, some, ok, arith}
use ws2tcp_local_core.Text.{Text, Bytes, lit, equal, is_empty}
use ws2tcp_local_core.Stream.{Stream}
use ws2tcp_local_core.Url.{Url}
use ws2tcp_local_core.Upstream.{
  parse, parse_kind, non_empty, credentials_of, unbracketed, closed, scheme, host_port, display,
}
use ws2tcp_local_core.Text.Split.{starts_with, strip_prefix}
use ws2tcp_local_core.Text.Lines.{lines, split_whitespace}
use ws2tcp_local_core.Text.Lossy.{from_utf8_lossy}
use ws2tcp_local_core.Text.Utf8.{lead}
use ws2tcp_local_core.Text.Number.{decimal}
use ws2tcp_local_core.Upstream.Answer.{ends_with, connect_request, http_connect}
use ws2tcp_local_core.Upstream.Status.{check_status}
use ws2tcp_local_core.Upstream.Header.{
  First, Answered, http_connect-Answered, http_connect-succeeds,
}
use ws2tcp_local_core.Upstream.Connected.{http_connect-connects}
use ws2tcp_local_core.Upstream.Parsed.{IsParsed, parse-IsParsed}
use ws2tcp_local_core.Tests.World.{proxy, proxy_url, open_stream, accepted_connect, crlf}

abbrev encode : Bytes → Text
encode bytes = bytes

abbrev tunnelled : Stream
tunnelled = record {
  unread = lit "tunnel";
  sent = connect_request encode proxy (lit "example.com") 443;
  writable = 8;
}

accepted_status : check_status accepted_connect ≡ ok tt
unfolding check_status starts_with split_whitespace lines from_utf8_lossy lead
accepted_status = refl

accepted-First : First [] accepted_connect
unfolding ends_with equal
accepted-First = (
  refl,
  (
    refl,
    (
      refl,
      (
        refl,
        (
          refl,
          (
            refl,
            (
              refl,
              (
                refl,
                (
                  refl,
                  (
                    refl,
                    (refl, (refl, (refl, (refl, (refl, (refl, (refl, (refl, (refl, refl))))))))),
                  ),
                ),
              ),
            ),
          ),
        ),
      ),
    ),
  ),
)

http_connect-connects_example :
    http_connect encode proxy closed (lit "example.com") 443 open_stream ≡ (ok tt, tunnelled)
http_connect-connects_example =
    http_connect-connects encode proxy closed (lit "example.com") 443 true open_stream
      (lit "00 OK" ++ (crlf ++ crlf)) (lit "tunnel") 8 refl refl accepted-First (omega arith)

http_connect-Answered_example :
    Answered encode proxy closed (lit "example.com") 443 open_stream tunnelled
http_connect-Answered_example =
    http_connect-Answered encode proxy closed (lit "example.com") 443 open_stream tunnelled (
      http_connect-succeeds encode proxy closed (lit "example.com") 443 open_stream accepted_connect
        (lit "tunnel") 8 refl refl accepted-First (omega arith) accepted_status)

abbrev parse_url : Text → Option Url
parse_url text = some proxy_url

abbrev decode : Text → Option Text
decode s = some s

parsed : parse parse_url decode (lit " http://proxy:3128/") ≡ ok proxy
unfolding parse parse_kind equal is_empty non_empty credentials_of unbracketed strip_prefix
parsed = refl

parse-IsParsed_example : IsParsed parse_url decode (lit " http://proxy:3128/") proxy
parse-IsParsed_example = parse-IsParsed parse_url decode (lit " http://proxy:3128/") proxy parsed

shown : display proxy ≡ lit "http://proxy:3128"
unfolding display scheme host_port decimal
shown = refl
