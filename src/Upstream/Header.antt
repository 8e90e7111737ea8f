-- ===== src/Upstream/Header.antt =====
-- What `http_connect` of src/upstream.rs reads of the proxy's answer: its header, to the last byte of
-- the blank line, and nothing behind it, which belongs to the tunnel.
use ws2tcp_local_core.Base.{
  ℕ, zero, suc, ◌+◌, ◌≤◌, ◌<◌, ◌≡◌, refl, sym, ap, ◌∙◌, true, false, [], ◌∷◌, ◌++◌, Result, ok, err,
  arith, leb, length, length-append, inl, inr, Bool-cases,
}
use mathlib.Core.Path.{subst}
use mathlib.Core.List.{append-nil, append_assoc}
use ws2tcp_local_core.Text.{Text, Bytes}
use ws2tcp_local_core.Stream.{Stream, write_all, and_then, ◌>>=◌, lift}
use ws2tcp_local_core.Upstream.{UpstreamProxy, Error, send_failed, max_connect_response_bytes}
use ws2tcp_local_core.Upstream.Status.{check_status}
use ws2tcp_local_core.Upstream.Answer.{
  blank_line, ends_with, read_header, read_from, connect_request, http_connect,
}

-- Behind `response`, the bytes end with the first blank line: no shorter piece of them does.
abbrev pub First : Bytes → Bytes → Type 0
First response [] = ends_with blank_line response ≡ true
First response (b ∷ bs) = (ends_with blank_line response ≡ false) × First (response ++ (b ∷ [])) bs

-- what was read, and what is left
record Reads (response unread header left : Bytes) : Type 0 where
  taken : Bytes
  whole : unread ≡ taken ++ left
  is_header : header ≡ response ++ taken
  first : First response taken
  length_le : length header ≤ max_connect_response_bytes

ltb_of :
    (r : Bytes)
    → leb max_connect_response_bytes (length r) ≡ false
    → length r < max_connect_response_bytes
ltb_of r f = ground arith

module _ (ending : Error) (header left : Bytes) where
  stop-Reads :
      (response unread : Bytes)
      → length response ≤ max_connect_response_bytes
      → ends_with blank_line response ≡ true
      → response ≡ header
      → unread ≡ left
      → Reads response unread header left
  stop-Reads response unread h e same rest = record {
    taken = [];
    whole = rest;
    is_header = sym same ∙ sym (append-nil response);
    first = e;
    length_le = subst (λ r. length r ≤ max_connect_response_bytes) same h;
  }

  more-Reads :
      (response : Bytes) (b : ℕ) (unread : Bytes)
      → ends_with blank_line response ≡ false
      → Reads (response ++ (b ∷ [])) unread header left
      → Reads response (b ∷ unread) header left
  more-Reads response b unread e r = record {
    taken = b ∷ r.taken;
    whole = ap (λ l. b ∷ l) r.whole;
    is_header = r.is_header ∙ append_assoc response (b ∷ []) r.taken;
    first = (e, r.first);
    length_le = r.length_le;
  }

  read_header-Reads :
      (response unread : Bytes)
      → length response ≤ max_connect_response_bytes
      → read_header ending response unread ≡ (ok header, left)
      → Reads response unread header left
  unfolding read_header
  read_header-Reads response [] h g = elim (Bool-cases (ends_with blank_line response)) [
    | inl e ↦ stop-Reads response [] h e (ground arith) (ground arith)
    | inr e ↦ absurd (ground arith)
  ]
  read_header-Reads response (b ∷ unread) h g = elim (Bool-cases (ends_with blank_line response)) [
    | inl e ↦ stop-Reads response (b ∷ unread) h e (ground arith) (ground arith)
    | inr e ↦ elim (Bool-cases (leb max_connect_response_bytes (length response))) [
      | inl f ↦ absurd (ground arith)
      | inr f ↦ more-Reads response b unread e (
          read_header-Reads (response ++ (b ∷ [])) unread
            (omega (arith, length-append response (b ∷ []), ltb_of response f)) (ground arith))
    ]
  ]

abbrev taken : Bytes → Bytes → Result Error Bytes × Bytes
taken left r = (ok r, left)

-- the loop ends where the first blank line does
go_on-stops :
    (ending : Error) (response left : Bytes)
    → ends_with blank_line response ≡ true
    → read_header ending response left ≡ (ok response, left)
unfolding read_header
go_on-stops ending response [] f = ground arith
go_on-stops ending response (b ∷ left) f = ground arith

read_header-First :
    (ending : Error) (response header left : Bytes)
    → First response header
    → length response + length header ≤ max_connect_response_bytes
    → read_header ending response (header ++ left) ≡ (ok (response ++ header), left)
unfolding read_header
read_header-First ending response [] left f h =
    go_on-stops ending response left f ∙ ap (taken left) (sym (append-nil response))
read_header-First ending response (b ∷ header) left (e, f) h =
    steps
    ∙ read_header-First ending (response ++ (b ∷ [])) header left f
        (omega (arith, length-append response (b ∷ [])))
    ∙ ap (taken left) (append_assoc response (b ∷ []) header)
  where
    is_short : leb max_connect_response_bytes (length response) ≡ false
    is_short = ground arith

    steps :
        read_header ending response (b ∷ (header ++ left))
        ≡ read_header ending (response ++ (b ∷ [])) (header ++ left)
    steps = rw (e, is_short, read_header) refl

module _ (encode : Bytes → Text) (proxy : UpstreamProxy) (ending : Error) (host : Text)
    (port : ℕ) where
  -- what an accepted CONNECT leaves of the stream
  pub record Answered (s t : Stream) : Type 0 where
    pub header : Bytes
    pub whole : s.unread ≡ header ++ t.unread
    pub first : First [] header
    pub length_le : length header ≤ max_connect_response_bytes
    pub accepted : check_status header ≡ ok tt
    pub sent_all : t.sent ≡ s.sent ++ connect_request encode proxy host port

  -- A CONNECT that succeeds has sent the request and read a header that ends with the first blank
  -- line, is of at most 8 KiB and says that the proxy connected; all behind it is left for the tunnel.
  pub http_connect-Answered :
      (s t : Stream) → http_connect encode proxy ending host port s ≡ (ok tt, t) → Answered s t
  unfolding http_connect write_all
  http_connect-Answered s t e = by_writable s.writable e
    where
      sent : ℕ → Stream
      sent n = record s { sent = s.sent ++ connect_request encode proxy host port; writable = n }

      by_writable :
          (n : ℕ)
          → and_then {A = Unit {0}}
              (elim n [ zero ↦ (err send_failed, s) | suc k ↦ (ok tt, sent k) ])
              (λ _. read_from ending >>= λ r. lift (check_status r))
            ≡ (ok tt, t)
          → Answered s t
      by_writable zero e = absurd (ground arith)
      by_writable (suc n) e = by_header (read_header ending [] s.unread) refl e
        where
          by_header :
              (x : Result Error Bytes × Bytes)
              → read_header ending [] s.unread ≡ x
              → and_then (x.0, record (sent n) { unread = x.1 }) (λ r. lift (check_status r))
                ≡ (ok tt, t)
              → Answered s t
          by_header (err _, left) f e = absurd (ground arith)
          by_header (ok header, left) f e =
              let reads = read_header-Reads ending header left [] s.unread (omega arith) f in
              let same : record (sent n) { unread = left } ≡ t = ap (λ x. x.1) e in
              subst (Answered s) same (record {
                header = header;
                whole = reads.whole ∙ ap (λ h. h ++ left) (sym reads.is_header);
                first = subst (First []) (sym reads.is_header) reads.first;
                length_le = reads.length_le;
                accepted = ap (λ x. x.0) e;
                sent_all = refl;
              })

  -- An answer with a header of at most 8 KiB, whose status is accepted, makes CONNECT succeed.
  pub http_connect-succeeds :
      (s : Stream) (header left : Bytes) (n : ℕ)
      → s.writable ≡ suc n
      → s.unread ≡ header ++ left
      → First [] header
      → length header ≤ max_connect_response_bytes
      → check_status header ≡ ok tt
      → http_connect encode proxy ending host port s ≡ (
        ok tt,
        record s {
          unread = left;
          sent = s.sent ++ connect_request encode proxy host port;
          writable = n;
        },
      )
  unfolding http_connect write_all
  http_connect-succeeds s header left n w u f h c =
      rw (w, u, read_header-First ending [] header left f (omega (arith, h)), c) refl
