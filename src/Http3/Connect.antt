-- ===== src/Http3/Connect.antt =====
-- `open_stream`, `try_connect` and `connect` of src/http3.rs.
use ws2tcp_local_core.Base.{
  ℕ, suc, ◌+◌, Bool, true, false, List, [], ◌∷◌, ◌++◌, Option, none, some, Result, ok, err, ok_or,
  ◌==◌, ltb, any, ◌&&◌,
}
use ws2tcp_local_core.Text.{Text, lit, equal}
use ws2tcp_local_core.Effects.{Exec, ◌>>=◌, pure, fail, lift}
use ws2tcp_local_core.Websocket.{WsError, http, Headers, Request}
use ws2tcp_local_core.Http3.{Key, Session, ConnectRequest, Quic, State, fallback_period}
use ws2tcp_local_core.Http3.Sessions.{io_error, forget, session}

abbrev pub skipped : List Text
skipped =
    lit "host"
    ∷ lit "connection"
    ∷ lit "upgrade"
    ∷ lit "sec-websocket-key"
    ∷ lit "content-length"
    ∷ []

unfoldable pub carried_over : Headers → Headers
unfolding equal
carried_over [] = []
carried_over ((n, v) ∷ headers) = elim (any (equal n) skipped) [
  | true ↦ carried_over headers
  | false ↦ (n, v) ∷ carried_over headers
]

abbrev or_slash : Option Text → Text
or_slash none = lit "/"
or_slash (some path) = path

unfoldable pub connect_request : Request → Result WsError ConnectRequest
connect_request r = elim r.uri.authority [
  | none ↦ err io_error
  | some authority ↦ ok (record {
    uri = lit "https://" ++ (authority ++ or_slash r.uri.path_and_query);
    headers = carried_over r.headers;
  })
]

-- what the answer means: a stream, by the number of its request
abbrev pub answered : ℕ → Option ℕ → Result WsError ℕ
answered n none = err io_error
answered n (some status) = elim (status == 200) [ true ↦ ok n | false ↦ err (http status) ]

-- `!cached || !matches!(&result, Err(err) if !matches!(err, WsError::Http(_)))`
unfoldable pub is_io : Result WsError ℕ → Bool
is_io (ok _) = false
is_io (err (http _)) = false
is_io (err _) = true

module _ (quic : Quic) where
  abbrev pub send : Session → ConnectRequest → Exec State WsError ℕ
  send x r s = (
    answered s.sends (quic.recv_response s.sends x.connection r),
    record s { sends = suc s.sends },
  )

  -- `open_stream_in_time`
  unfoldable pub open_stream : Session → Request → Exec State WsError ℕ
  open_stream x request = do r ← lift (connect_request request); send x r

  -- a connection that failed is forgotten
  abbrev pub forget_failed : Key → Bool → Result WsError ℕ × State → Result WsError ℕ × State
  forget_failed k true (r, s) = (r, forget k s)
  forget_failed k false (r, s) = (r, s)

  abbrev pub on_new : Key → Request → Session × Bool → Exec State WsError ℕ
  on_new k request (x, cached) s =
      let (r, t) = open_stream x request s in forget_failed k (is_io r) (r, t)

  abbrev pub repeat_if : Bool → Key → Request → Result WsError ℕ × State → Result WsError ℕ × State
  repeat_if false k request (r, s) = (r, s)
  repeat_if true k request (r, s) = (session quic k >>= on_new k request) (forget k s)

  -- the request, repeated once on a new connection where a cached one failed
  unfoldable pub request_on : Key → Request → Session × Bool → Exec State WsError ℕ
  request_on k request (x, cached) s =
      let (r, t) = open_stream x request s in repeat_if (cached && is_io r) k request (r, t)

  abbrev pub or_443 : Option ℕ → ℕ
  or_443 none = 443
  or_443 (some port) = port

  unfoldable pub try_connect : Request → Bool → Exec State WsError ℕ
  try_connect request insecure = do
    host ← lift (ok_or io_error request.uri.host)
    let key : Key = record { host = host; port = or_443 request.uri.port_u16; insecure = insecure }
    found ← session quic key
    request_on key request found

  abbrev pub until_is_over : Bool → Exec State WsError Bool
  until_is_over true s = (ok true, s)
  until_is_over false s = (ok false, record s { fallback_until = none })

  abbrev pub compare_until : Option ℕ → Exec State WsError Bool
  compare_until none s = (ok false, s)
  compare_until (some instant) s =
      until_is_over (ltb (quic.clock s.reads) instant) (record s { reads = suc s.reads })

  unfoldable pub fallback_active : Exec State WsError Bool
  fallback_active s = compare_until s.fallback_until s

  abbrev pub start_fallback : Exec State WsError (Option ℕ)
  start_fallback s = (
    ok none,
    record s { fallback_until = some (quic.clock s.reads + fallback_period); reads = suc s.reads },
  )

  -- the match of `connect` on what `try_connect` came to
  abbrev pub or_fall_back : Bool → Result WsError ℕ → Exec State WsError (Option ℕ)
  or_fall_back is_only (ok stream) = pure (some stream)
  or_fall_back true (err e) = fail e
  or_fall_back false (err (http status)) = elim (status == 401) [
    | true ↦ fail (http 401)
    | false ↦ start_fallback
  ]
  or_fall_back false (err _) = start_fallback

  abbrev pub tried : Request → Bool → Bool → Exec State WsError (Option ℕ)
  tried request insecure is_only s =
      let (r, t) = try_connect request insecure s in or_fall_back is_only r t

  abbrev pub unless_active : Request → Bool → Bool → Exec State WsError (Option ℕ)
  unless_active request insecure true s = (ok none, s)
  unless_active request insecure false s = tried request insecure false s

  -- `connect`: a stream, or none where TCP is to be used
  unfoldable pub connect : Request → Bool → Bool → Exec State WsError (Option ℕ)
  connect request insecure true s = tried request insecure true s
  connect request insecure false s = (fallback_active >>= unless_active request insecure) s
