-- ===== src/HttpProxy/Read.antt =====
-- `read_proxy_request`: the request is read in chunks until its header is complete.
use ws2tcp_local_core.Base.{
  ℕ, suc, ◌+◌, true, false, List, [], ◌∷◌, ◌++◌, Option, none, some, Result, ok, err, ok_or, ◌>>=◌,
  ltb, length, take, drop,
}
use ws2tcp_local_core.Text.{Bytes}
use ws2tcp_local_core.Text.Utf8.{from_utf8}
use ws2tcp_local_core.Text.Split.{starts_with}
use ws2tcp_local_core.Url.{UrlParser}
use ws2tcp_local_core.HttpProxy.{
  ProxyRequest, Error, read_failed, closed, header_too_large, header_not_utf8, max_header_bytes,
}
use ws2tcp_local_core.HttpProxy.Parse.{parse_proxy_request}

abbrev pub header_end : Bytes
header_end = b'\r' ∷ b'\n' ∷ b'\r' ∷ b'\n' ∷ []

abbrev after_one : Option ℕ → Option ℕ
after_one none = none
after_one (some n) = some (suc n)

unfoldable pub find_header_end : Bytes → Option ℕ
find_header_end [] = none
find_header_end (b ∷ bs) = elim (starts_with header_end (b ∷ bs)) [
  | true ↦ some 0
  | false ↦ after_one (find_header_end bs)
]

-- The reads that the client will answer: a chunk (an empty one is the end of its input), or an
-- error. After the last one the input is at its end.
abbrev pub Reads : Type 0
Reads = List (Option Bytes)

-- the buffer with a complete header, where the header ends, and the reads left
pub record Filled : Type 0 where
  pub pos : ℕ
  pub buffer : Bytes
  pub left : Reads

unfoldable pub fill : Bytes → Reads → Result Error Filled
fill buffer [] = err closed
fill buffer (none ∷ reads) = err read_failed
fill buffer (some [] ∷ reads) = err closed
fill buffer (some (b ∷ chunk) ∷ reads) =
    let buffer' = buffer ++ (b ∷ chunk) in
    elim (ltb max_header_bytes (length buffer')) [
      | true ↦ err header_too_large
      | false ↦ elim (find_header_end buffer') [
        | some pos ↦ ok (record { pos = pos; buffer = buffer'; left = reads })
        | none ↦ fill buffer' reads
      ]
    ]

-- the request, and the reads that are left for the tunnel
unfoldable pub read_proxy_request : UrlParser → Reads → Result Error (ProxyRequest × Reads)
read_proxy_request parse_url reads = do
  filled ← fill [] reads
  header ← ok_or header_not_utf8 (from_utf8 (take filled.pos filled.buffer))
  request ← parse_proxy_request parse_url header (drop (filled.pos + 4) filled.buffer)
  ok (request, filled.left)
