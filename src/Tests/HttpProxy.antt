-- ===== src/Tests/HttpProxy.antt =====
-- HTTP proxy requests: a CONNECT in two chunks, a plain request, and the witnesses.
use ws2tcp_local_core.Base.{ℕ, ◌≡◌, refl, [], ◌∷◌, ◌++◌, none, some, ok, ok_or, ◌>>=◌, arith}
use ws2tcp_local_core.Text.{Text, Bytes, lit, is_empty, trim, equal, eq_ignore_ascii_case}
use ws2tcp_local_core.Text.Utf8.{from_utf8}
use ws2tcp_local_core.Text.Split.{contains, starts_with, strip_prefix, rsplit_once, split_once}
use ws2tcp_local_core.Text.Number.{parse_u16}
use ws2tcp_local_core.Url.{UrlParser}
use ws2tcp_local_core.HttpProxy.{connect, authority, header_not_utf8}
use ws2tcp_local_core.HttpProxy.Authority.{validate_authority, parse_port}
use ws2tcp_local_core.HttpProxy.Header.{
  crlf, find_header_value, rewrite_http_proxy_header, rewrite_lines, rewrite_line,
  should_strip_http_proxy_header, host_unless, find_in,
}
use ws2tcp_local_core.Text.Lines.{lines, split_whitespace}
use ws2tcp_local_core.HttpProxy.Parse.{parse_proxy_request, parse_request_line, of_fields}
use ws2tcp_local_core.HttpProxy.Read.{Reads, fill, find_header_end, read_proxy_request}
use ws2tcp_local_core.HttpProxy.Target.{Names, read_proxy_request-Names}
use ws2tcp_local_core.HttpProxy.Chunks.{bytes_of, read_proxy_request_chunks}
use ws2tcp_local_core.HttpProxy.Fields.{forwarded_value, rewrite_http_proxy_header-forwarded_value}

abbrev pub no_url : UrlParser
no_url _ = none

abbrev pub example_authority : Text
example_authority = lit "example.com:443"

abbrev connect_header : Text
connect_header = lit "CONNECT example.com:443 HTTP/1.1"

abbrev pub connect_reads : Reads
connect_reads =
    some (lit "CONNECT example.com:443")
    ∷ some (lit " HTTP/1.1" ++ (crlf ++ (crlf ++ lit "hello")))
    ∷ []

ends_at : find_header_end (bytes_of connect_reads) ≡ some 32
unfolding find_header_end starts_with strip_prefix
ends_at = refl

read_proxy_request_chunks_example :
    (leftover : Bytes) × (left : Reads) × (leftover ++ bytes_of left ≡ lit "hello")
    × (read_proxy_request no_url connect_reads ≡ (do
      header ← ok_or header_not_utf8 (from_utf8 connect_header)
      request ← parse_proxy_request no_url header leftover
      ok (request, left)))
read_proxy_request_chunks_example =
    read_proxy_request_chunks no_url connect_reads 32
      (omega arith, omega arith, (omega arith, omega arith, tt)) ends_at (omega arith)

pub accepted :
    read_proxy_request no_url connect_reads ≡ ok (connect example_authority (lit "hello"), [])
unfolding read_proxy_request fill find_header_end starts_with from_utf8 parse_proxy_request lines
    parse_request_line of_fields split_whitespace equal validate_authority contains rsplit_once
    parse_port parse_u16
accepted = refl

read_proxy_request-Names_example :
    (host : Text) × (port : ℕ) × Names
      (authority (connect example_authority (lit "hello")))
      host
      port
read_proxy_request-Names_example =
    read_proxy_request-Names no_url connect_reads [] (connect example_authority (lit "hello"))
      accepted

abbrev client_header : Text
client_header =
    lit "GET http://example.com/ HTTP/1.1"
    ++ (crlf
        ++ (lit "Host: other.example"
            ++ (crlf
                ++ (lit "Proxy-Authorization: Basic eDp5"
                    ++ (crlf ++ (lit "Accept: */*" ++ crlf))))))

abbrev forwarded_header : Text
forwarded_header =
    lit "GET / HTTP/1.1"
    ++ (crlf
        ++ (lit "Host: example.com:80"
            ++ (crlf
                ++ (lit "Accept: */*" ++ (crlf ++ (lit "Connection: close" ++ (crlf ++ crlf)))))))

rewritten :
    rewrite_http_proxy_header client_header
      (lit "GET")
      (lit "/")
      (lit "HTTP/1.1")
      (lit "example.com:80")
    ≡ ok forwarded_header
unfolding rewrite_http_proxy_header rewrite_lines lines rewrite_line is_empty split_once
    should_strip_http_proxy_header eq_ignore_ascii_case trim host_unless find_header_value find_in
rewritten = refl

rewrite_http_proxy_header-forwarded_value_example :
    find_header_value forwarded_header (lit "accept")
    ≡ forwarded_value (lit "example.com:80") (lit "accept") client_header
rewrite_http_proxy_header-forwarded_value_example =
    rewrite_http_proxy_header-forwarded_value client_header (lit "GET") (lit "/") (lit "HTTP/1.1")
      (lit "example.com:80") forwarded_header (lit "accept") (unfold contains in refl)
      (unfold contains in refl) (unfold contains in refl) (unfold contains in refl) rewritten
