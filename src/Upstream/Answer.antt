-- ===== src/Upstream/Answer.antt =====
-- `http_connect` of src/upstream.rs: the CONNECT request, the answer's header read byte by byte, and
-- its status line.
use ws2tcp_local_core.Base.{
  ℕ, Bool, true, false, [], ◌∷◌, ◌++◌, Option, none, some, Result, ok, err, leb, length,
}
use ws2tcp_local_core.Text.{Text, Bytes, lit, equal}
use ws2tcp_local_core.Text.Utf8.{as_bytes}
use ws2tcp_local_core.Stream.{Exec, ◌>>=◌, ◌>>◌, write_all, lift}
use ws2tcp_local_core.Upstream.Status.{check_status}
use ws2tcp_local_core.Upstream.{
  UpstreamProxy, Error, send_failed, response_too_large, max_connect_response_bytes, host_port,
}

abbrev pub blank_line : Bytes
blank_line = b'\r' ∷ b'\n' ∷ b'\r' ∷ b'\n' ∷ []

-- `ends_with`
unfoldable pub ends_with : Bytes → Bytes → Bool
ends_with p [] = equal p []
ends_with p (b ∷ bs) = elim (equal p (b ∷ bs)) [ true ↦ true | false ↦ ends_with p bs ]

-- the header read so far and what is unread; `ending` is what a read gives after the last byte
abbrev pub go_on :
    Bool → Bool → Result Error Bytes × Bytes → Bytes → Bytes → Result Error Bytes × Bytes
go_on true _ more response unread = (ok response, unread)
go_on false true more response unread = (err response_too_large, unread)
go_on false false more response unread = more

-- The loop of `http_connect`: a byte at a time, until the header ends.
unfoldable pub read_header : Error → Bytes → Bytes → Result Error Bytes × Bytes
unfolding ends_with
read_header ending response [] =
    go_on (ends_with blank_line response) (leb max_connect_response_bytes (length response))
      (err ending, []) response []
read_header ending response (b ∷ unread) =
    go_on (ends_with blank_line response) (leb max_connect_response_bytes (length response))
      (read_header ending (response ++ (b ∷ [])) unread) response (b ∷ unread)

abbrev crlf : Text
crlf = b'\r' ∷ b'\n' ∷ []

abbrev authorization_line : (Bytes → Text) → Option (Text × Text) → Text
authorization_line encode none = []
authorization_line encode (some (username, password)) =
    lit "Proxy-Authorization: Basic "
    ++ (encode (as_bytes (username ++ (lit ":" ++ password))) ++ crlf)

-- the CONNECT request; `encode` is base64
unfoldable pub connect_request : (Bytes → Text) → UpstreamProxy → Text → ℕ → Bytes
connect_request encode proxy host port =
    let authority = host_port host port in
    as_bytes (
      lit "CONNECT "
      ++ (authority
          ++ (lit " HTTP/1.1"
              ++ (crlf
                  ++ (lit "Host: "
                      ++ (authority
                          ++ (crlf ++ (authorization_line encode proxy.credentials ++ crlf))))))))

abbrev pub read_from : Error → Exec Error Bytes
read_from ending s =
    let (r, left) = read_header ending [] s.unread in (r, record s { unread = left })

unfoldable pub http_connect :
    (Bytes → Text) → UpstreamProxy → Error → Text → ℕ → Exec Error (Unit {0})
http_connect encode proxy ending host port = do
  write_all (connect_request encode proxy host port) send_failed
  response ← read_from ending
  lift (check_status response)
