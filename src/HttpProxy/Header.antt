-- ===== src/HttpProxy/Header.antt =====
-- The header lines: `find_header_value`, `should_strip_http_proxy_header` and
-- `rewrite_http_proxy_header` of src/http_proxy.rs.
use ws2tcp_local_core.Base.{
  Bool, ◌||◌, List, [], ◌∷◌, ◌++◌, Option, none, some, Result, ok, err, ◌>>=◌, if◌then◌else◌,
}
use ws2tcp_local_core.Text.{Text, lit, is_empty, trim, eq_ignore_ascii_case}
use ws2tcp_local_core.Text.Split.{split_once}
use ws2tcp_local_core.Text.Lines.{lines}
use ws2tcp_local_core.HttpProxy.{Error, invalid_header_line}

abbrev pub crlf : Text
crlf = b'\r' ∷ b'\n' ∷ []

-- `skip(1)`
abbrev pub skip_one : List Text → List Text
skip_one [] = []
skip_one (_ ∷ ls) = ls

unfoldable pub should_strip_http_proxy_header : Text → Bool
should_strip_http_proxy_header name =
    eq_ignore_ascii_case name (lit "connection")
    || eq_ignore_ascii_case name (lit "keep-alive")
    || eq_ignore_ascii_case name (lit "proxy-authenticate")
    || eq_ignore_ascii_case name (lit "proxy-authorization")
    || eq_ignore_ascii_case name (lit "proxy-connection")
    || eq_ignore_ascii_case name (lit "te")
    || eq_ignore_ascii_case name (lit "trailer")
    || eq_ignore_ascii_case name (lit "upgrade")

-- the value of one line, if it is the header asked for
unfoldable pub value_of : Text → Text → Option Text
value_of name line = elim (split_once b':' line) [
  | none ↦ none
  | some (header_name, value) ↦
      if eq_ignore_ascii_case (trim header_name) name then some (trim value) else none
]

abbrev pub or_else : Option Text → Option Text → Option Text
or_else none o = o
or_else (some v) o = some v

unfoldable pub find_in : Text → List Text → Option Text
unfolding value_of
find_in name [] = none
find_in name (line ∷ ls) = or_else (value_of name line) (find_in name ls)

unfoldable pub find_header_value : Text → Text → Option Text
find_header_value header name = find_in name (skip_one (lines header))

abbrev pub host_line : Text → Text
host_line authority = lit "Host: " ++ (authority ++ crlf)

-- what the loop of `rewrite_http_proxy_header` appends for one line
unfoldable pub rewrite_line : Text → Text → Result Error Text
rewrite_line authority line = if is_empty line then ok [] else elim (split_once b':' line) [
  | none ↦ err invalid_header_line
  | some (name, value) ↦
      if should_strip_http_proxy_header (trim name)
      then ok []
      else if eq_ignore_ascii_case (trim name) (lit "host")
      then ok (host_line authority)
      else ok (trim name ++ (b':' ∷ (value ++ crlf)))
]

unfoldable pub rewrite_lines : Text → List Text → Result Error Text
rewrite_lines authority [] = ok []
rewrite_lines authority (line ∷ ls) = do
  first ← rewrite_line authority line
  rest ← rewrite_lines authority ls
  ok (first ++ rest)

-- appended where the request has no Host header
unfoldable pub host_unless : Option Text → Text → Text
host_unless none authority = host_line authority
host_unless (some _) authority = []

unfoldable pub rewrite_http_proxy_header : Text → Text → Text → Text → Text → Result Error Text
rewrite_http_proxy_header header method origin_form version authority = do
  rewritten ← rewrite_lines authority (skip_one (lines header))
  ok (
      (method ++ (b' ' ∷ (origin_form ++ (b' ' ∷ (version ++ crlf)))))
      ++ (rewritten
          ++ (host_unless (find_header_value header (lit "host")) authority
              ++ (lit "Connection: close" ++ (crlf ++ crlf)))))
