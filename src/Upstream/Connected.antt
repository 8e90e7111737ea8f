-- ===== src/Upstream/Connected.antt =====
-- The answer of an HTTP proxy that connects the tunnel, for `http_connect` of src/upstream.rs.
use ws2tcp_local_core.Base.{
  ℕ, suc, ◌≤◌, ◌≡◌, ◌⊎◌, inl, inr, refl, [], ◌∷◌, ◌++◌, none, some, Option-cases, ok, List, map,
  Bool, true, false, ◌==◌, length,
}
use ws2tcp_local_core.Text.{Text, Bytes, lit, is_whitespace, is_empty}
use ws2tcp_local_core.Text.Utf8.{step, lead}
use ws2tcp_local_core.Text.Lossy.{lossy, from_utf8_lossy}
use ws2tcp_local_core.Text.Split.{split, strip_suffix, starts_with, strip_prefix}
use ws2tcp_local_core.Text.Lines.{lines, split_inclusive, without_end, split_whitespace, non_empty}
use ws2tcp_local_core.Stream.{Stream}
use ws2tcp_local_core.Upstream.{UpstreamProxy, Error, max_connect_response_bytes}
use ws2tcp_local_core.Upstream.Status.{check_status}
use ws2tcp_local_core.Upstream.Answer.{connect_request, http_connect}
use ws2tcp_local_core.Upstream.Header.{First, http_connect-succeeds}

-- a line that starts with "2" keeps it where its end is stripped
strip_suffix-digit :
    (c : ℕ) (l : Text)
    → (b'2' == c) ≡ false
    → (strip_suffix c (b'2' ∷ l) ≡ none)
      ⊎ ((r : Text) × (strip_suffix c (b'2' ∷ l) ≡ some (b'2' ∷ r)))
unfolding strip_suffix
strip_suffix-digit c [] n = inl (rw n refl)
strip_suffix-digit c (x ∷ l) n = elim (Option-cases (strip_suffix c (x ∷ l))) [
  | inl e ↦ inl (rw e refl)
  | inr (r, e) ↦ inr (r, rw e refl)
]

-- the start of the status line of a success, in HTTP/1.1 or else HTTP/1.0
abbrev pub success_line : Bool → Text
success_line true = lit "HTTP/1.1 2"
success_line false = lit "HTTP/1.0 2"

abbrev version_of : Bool → Text
version_of true = lit "HTTP/1.1"
version_of false = lit "HTTP/1.0"

from_utf8_lossy-success :
    (b : Bool) (rest : Bytes)
    → from_utf8_lossy (success_line b ++ rest) ≡ success_line b ++ from_utf8_lossy rest
unfolding from_utf8_lossy lossy step lead
from_utf8_lossy-success true rest = refl
from_utf8_lossy-success false rest = refl

strip-success :
    (c : ℕ) (b : Bool) (l : Text)
    → (b'2' == c) ≡ false
    → (strip_suffix c (success_line b ++ l) ≡ none)
      ⊎ ((r : Text) × (strip_suffix c (success_line b ++ l) ≡ some (success_line b ++ r)))
unfolding strip_suffix
strip-success c true l n = elim (strip_suffix-digit c l n) [
  | inl e ↦ inl (rw e refl)
  | inr (r, e) ↦ inr (r, rw e refl)
]
strip-success c false l n = elim (strip_suffix-digit c l n) [
  | inl e ↦ inl (rw e refl)
  | inr (r, e) ↦ inr (r, rw e refl)
]

without_end-success :
    (b : Bool) (l : Text) → (m : Text) × (without_end (success_line b ++ l) ≡ success_line b ++ m)
unfolding without_end
without_end-success b l = elim (strip-success b'\n' b l refl) [
  | inl e ↦ (l, rw (e, without_end) refl)
  | inr (r, e) ↦ elim (strip-success b'\r' b r refl) [
    | inl f ↦ (r, rw (e, f, without_end) refl)
    | inr (q, f) ↦ (q, rw (e, f, without_end) refl)
  ]
]

lines-success :
    (b : Bool) (s : Text)
    → (m : Text) × (ls : List Text) × (lines (success_line b ++ s) ≡ (success_line b ++ m) ∷ ls)
unfolding lines split_inclusive
lines-success b s = by_pieces b (split_inclusive s) refl
  where
    by_pieces :
        (b : Bool) (ls : List Text)
        → split_inclusive s ≡ ls
        → (m : Text) × (ls : List Text) × (lines (success_line b ++ s) ≡ (success_line b ++ m) ∷ ls)
    by_pieces true [] e = let (m, h) = without_end-success true [] in (m, [], rw (e, h) refl)
    by_pieces false [] e = let (m, h) = without_end-success false [] in (m, [], rw (e, h) refl)
    by_pieces true (l ∷ ls) e =
        let (m, h) = without_end-success true l in (m, map without_end ls, rw (e, h) refl)
    by_pieces false (l ∷ ls) e =
        let (m, h) = without_end-success false l in (m, map without_end ls, rw (e, h) refl)

split_whitespace-success :
    (b : Bool) (m : Text)
    → (w : Text) × (ws : List Text) × (split_whitespace (success_line b ++ m)
        ≡ version_of b ∷ (b'2' ∷ w) ∷ ws)
unfolding split_whitespace split is_whitespace non_empty is_empty
split_whitespace-success b m = by_pieces b (split is_whitespace m) refl
  where
    by_pieces :
        (b : Bool) (ws : List Text)
        → split is_whitespace m ≡ ws
        → (w : Text) × (ws : List Text) × (split_whitespace (success_line b ++ m)
            ≡ version_of b ∷ (b'2' ∷ w) ∷ ws)
    by_pieces true [] e = ([], [], rw e refl)
    by_pieces false [] e = ([], [], rw e refl)
    by_pieces true (w ∷ ws) e = (w, non_empty ws, rw e refl)
    by_pieces false (w ∷ ws) e = (w, non_empty ws, rw e refl)

check_status-success : (b : Bool) (rest : Bytes) → check_status (success_line b ++ rest) ≡ ok tt
unfolding check_status starts_with strip_prefix
check_status-success true rest =
    let (m, ls, e) = lines-success true (from_utf8_lossy rest) in
    let (w, ws, f) = split_whitespace-success true m in
    rw (from_utf8_lossy-success true rest, e, f, check_status) refl
check_status-success false rest =
    let (m, ls, e) = lines-success false (from_utf8_lossy rest) in
    let (w, ws, f) = split_whitespace-success false m in
    rw (from_utf8_lossy-success false rest, e, f, check_status) refl

module _ (encode : Bytes → Text) (proxy : UpstreamProxy) (ending : Error) (host : Text)
    (port : ℕ) where
  -- CONNECT succeeds where the proxy's answer starts with "HTTP/1.1 2" or "HTTP/1.0 2" and its
  -- header, to the first blank line, is of at most 8 KiB, while the proxy takes the request: the
  -- request has been sent, and all behind the header is left for the tunnel.
  pub http_connect-connects :
      (is_newer : Bool) (s : Stream) (rest left : Bytes) (n : ℕ)
      → s.writable ≡ suc n
      → s.unread ≡ (success_line is_newer ++ rest) ++ left
      → First [] (success_line is_newer ++ rest)
      → length (success_line is_newer ++ rest) ≤ max_connect_response_bytes
      → http_connect encode proxy ending host port s ≡ (
        ok tt,
        record s {
          unread = left;
          sent = s.sent ++ connect_request encode proxy host port;
          writable = n;
        },
      )
  http_connect-connects is_newer s rest left n w u f h =
      http_connect-succeeds encode proxy ending host port s (success_line is_newer ++ rest) left n w
        u f h (check_status-success is_newer rest)
