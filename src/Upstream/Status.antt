-- ===== src/Upstream/Status.antt =====
-- The status line of an HTTP proxy's answer, as `http_connect` of src/upstream.rs reads it.
use ws2tcp_local_core.Base.{Bool, true, false, List, [], ◌∷◌, Result, ok, err, ◌>>◌, bail_if, not}
use ws2tcp_local_core.Text.{Text, Bytes, lit, equal}
use ws2tcp_local_core.Text.Split.{starts_with}
use ws2tcp_local_core.Text.Lines.{lines, split_whitespace}
use ws2tcp_local_core.Text.Lossy.{from_utf8_lossy}
use ws2tcp_local_core.Upstream.{Error, not_http, unauthenticated, refused}

abbrev first_or_empty : List Text → Text
first_or_empty [] = []
first_or_empty (s ∷ _) = s

abbrev rest_of : List Text → List Text
rest_of [] = []
rest_of (_ ∷ s) = s

abbrev of_status : Bool → Bool → Result Error (Unit {0})
of_status true _ = ok tt
of_status false true = err unauthenticated
of_status false false = err refused

-- what the header says
unfoldable pub check_status : Bytes → Result Error (Unit {0})
check_status response =
    let parts = split_whitespace (first_or_empty (lines (from_utf8_lossy response))) in
    let status = first_or_empty (rest_of parts) in
    bail_if (not (starts_with (lit "HTTP/") (first_or_empty parts))) not_http
    >> of_status (starts_with (lit "2") status) (equal status (lit "407"))
