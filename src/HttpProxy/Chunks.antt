-- ===== src/HttpProxy/Chunks.antt =====
-- The request does not depend on the chunks in which the client's bytes arrive.
use mathlib.Core.List.{append_assoc, append-nil}
use mathlib.Core.Option.{some-injective}
use ws2tcp_local_core.Base.{
  ℕ, zero, suc, ◌+◌, ◌≤◌, ◌<◌, ◌≡◌, refl, sym, ap, ◌∙◌, true, false, [], ◌∷◌, ◌++◌, none, some, ok,
  ok_or, ◌>>=◌, ltb, arith, inl, inr, Option-cases, length, take, drop, length-append,
  take-append_le, drop-append_le,
}
use ws2tcp_local_core.Text.{Bytes}
use ws2tcp_local_core.Text.Utf8.{from_utf8}
use ws2tcp_local_core.Text.Split.{starts_with}
use ws2tcp_local_core.Url.{UrlParser}
use ws2tcp_local_core.HttpProxy.{header_not_utf8, max_header_bytes}
use ws2tcp_local_core.HttpProxy.Parse.{parse_proxy_request}
use ws2tcp_local_core.HttpProxy.Read.{
  header_end, find_header_end, Reads, Filled, fill, read_proxy_request,
}

starts_with-append :
    (b c : Bytes) → 4 ≤ length b → starts_with header_end (b ++ c) ≡ starts_with header_end b
unfolding starts_with
starts_with-append (x ∷ y ∷ z ∷ w ∷ b) c h = ground arith
starts_with-append [] c h = absurd (omega arith)
starts_with-append (x ∷ []) c h = absurd (omega arith)
starts_with-append (x ∷ y ∷ []) c h = absurd (omega arith)
starts_with-append (x ∷ y ∷ z ∷ []) c h = absurd (omega arith)

starts_with-length : (b : Bytes) → starts_with header_end b ≡ true → 4 ≤ length b
unfolding starts_with
starts_with-length (x ∷ y ∷ z ∷ w ∷ b) h = omega arith
starts_with-length [] h = cc
starts_with-length (x ∷ []) h = ground arith
starts_with-length (x ∷ y ∷ []) h = ground arith
starts_with-length (x ∷ y ∷ z ∷ []) h = ground arith

find_header_end-le : (b : Bytes) (q : ℕ) → find_header_end b ≡ some q → q + 4 ≤ length b
unfolding find_header_end
find_header_end-le [] q h = cc
find_header_end-le (x ∷ b) zero h =
    ground (arith, starts_with-length (x ∷ b), find_header_end-le b zero)
find_header_end-le (x ∷ b) (suc q) h = ground (arith, find_header_end-le b q)

-- An end that is found stays where it is as more bytes arrive.
find_header_end-append :
    (b c : Bytes) (q : ℕ) → find_header_end b ≡ some q → find_header_end (b ++ c) ≡ some q
unfolding find_header_end
find_header_end-append [] c q h = cc
find_header_end-append (x ∷ b) c zero h =
    ground (arith, starts_with-append (x ∷ b) c (omega (arith, find_header_end-le (x ∷ b) zero h)))
find_header_end-append (x ∷ b) c (suc q) h = ground (
  arith,
  starts_with-append (x ∷ b) c (omega (arith, find_header_end-le (x ∷ b) (suc q) h)),
  find_header_end-append b c q,
)

-- An end that lies in the first part is found there.
find_header_end-front :
    (b c : Bytes) (p : ℕ)
    → find_header_end (b ++ c) ≡ some p
    → p + 4 ≤ length b
    → find_header_end b ≡ some p
unfolding find_header_end
find_header_end-front [] c p h k = absurd (omega arith)
find_header_end-front (x ∷ b) c zero h k = ground (arith, starts_with-append (x ∷ b) c)
find_header_end-front (x ∷ b) c (suc p) h k =
    ground (arith, starts_with-append (x ∷ b) c, find_header_end-front b c p)

-- The bytes of the reads, and reads that are chunks of 1 to 1024 bytes.
abbrev pub bytes_of : Reads → Bytes
bytes_of [] = []
bytes_of (none ∷ reads) = bytes_of reads
bytes_of (some chunk ∷ reads) = chunk ++ bytes_of reads

abbrev pub IsChunks : Reads → Type 0
IsChunks [] = Unit
IsChunks (none ∷ reads) = ⊥
IsChunks (some chunk ∷ reads) = (0 < length chunk) × (length chunk ≤ 1024) × IsChunks reads

-- the header is complete in the buffer, and nothing of the input is lost
record IsFilled (f : Filled) (pos : ℕ) (bytes : Bytes) : Type 0 where
  pos_is : f.pos ≡ pos
  kept : f.buffer ++ bytes_of f.left ≡ bytes
  complete : pos + 4 ≤ length f.buffer

too_short :
    (b c : Bytes) (pos : ℕ)
    → find_header_end (b ++ c) ≡ some pos
    → find_header_end b ≡ none
    → length b < pos + 4
too_short b c pos h k = ground (arith, find_header_end-front b c pos h)

fill_lem :
    (reads : Reads) (buffer : Bytes) (pos : ℕ)
    → IsChunks reads
    → find_header_end buffer ≡ none
    → find_header_end (buffer ++ bytes_of reads) ≡ some pos
    → pos + 1028 ≤ max_header_bytes
    → (f : Filled) × (fill buffer reads ≡ ok f) × IsFilled f pos (buffer ++ bytes_of reads)
unfolding fill
fill_lem [] buffer pos ch none_yet h fits =
    absurd (ground (arith, ap find_header_end (append-nil buffer)))
fill_lem (none ∷ reads) buffer pos ch none_yet h fits = absurd ch
fill_lem (some [] ∷ reads) buffer pos ch none_yet h fits = absurd (omega arith)
fill_lem (some (b ∷ chunk) ∷ reads) buffer pos ch none_yet h fits =
    let buffer' = buffer ++ (b ∷ chunk) in
    let whole = append_assoc buffer (b ∷ chunk) (bytes_of reads) in
    let h' : find_header_end (buffer' ++ bytes_of reads) ≡ some pos =
      ap find_header_end whole ∙ h in
    let room : ltb max_header_bytes (length buffer') ≡ false =
      ground (arith, too_short buffer _ pos h none_yet, length-append buffer (b ∷ chunk)) in
    elim (Option-cases (find_header_end buffer')) [
      | inl more ↦
          let (f, run, filled) = fill_lem reads buffer' pos ch.2 more h' fits in
          (
            f,
            rw (room, more, fill) run,
            record {
              pos_is = filled.pos_is;
              kept = filled.kept ∙ whole;
              complete = filled.complete;
            },
          )
      | inr (q, found) ↦ (
        record { pos = q; buffer = buffer'; left = reads },
        rw (room, found, fill) refl,
        record {
          pos_is = same q found h';
          kept = whole;
          complete = omega (arith, find_header_end-le buffer' q found, same q found h');
        },
      )
    ]
  where
    same :
        (q : ℕ)
        → find_header_end (buffer ++ (b ∷ chunk)) ≡ some q
        → find_header_end ((buffer ++ (b ∷ chunk)) ++ bytes_of reads) ≡ some pos
        → q ≡ pos
    same q found h' =
        some-injective _ _
          (sym (find_header_end-append (buffer ++ (b ∷ chunk)) (bytes_of reads) q found) ∙ h')

-- When the bytes that arrive hold the end of a header, at `pos`, and `pos` leaves room for one more
-- chunk below the limit of 16 KiB, then, whatever the chunks of 1 to 1024 bytes in which they
-- arrive, the request is parsed from the first `pos` bytes and from a leftover, and the leftover
-- and the reads that are left are together all the bytes behind the header.
pub read_proxy_request_chunks :
    (parse_url : UrlParser) (reads : Reads) (pos : ℕ)
    → IsChunks reads
    → find_header_end (bytes_of reads) ≡ some pos
    → pos + 1028 ≤ max_header_bytes
    → (leftover : Bytes) × (left : Reads) × (leftover ++ bytes_of left
        ≡ drop (pos + 4) (bytes_of reads))
      × (read_proxy_request parse_url reads ≡ (do
        header ← ok_or header_not_utf8 (from_utf8 (take pos (bytes_of reads)))
        request ← parse_proxy_request parse_url header leftover
        ok (request, left)))
unfolding read_proxy_request
read_proxy_request_chunks parse_url reads pos ch h fits =
    let (f, run, filled) = fill_lem reads [] pos ch (unfold find_header_end in refl) h fits in
    let complete : pos + 4 ≤ length f.buffer = filled.complete in
    (
      drop (pos + 4) f.buffer,
      f.left,
      sym (drop-append_le (pos + 4) f.buffer (bytes_of f.left) complete)
          ∙ ap (drop (pos + 4)) filled.kept,
      rw
          (
            run,
            filled.pos_is,
            ← filled.kept,
            take-append_le pos f.buffer (bytes_of f.left) (omega arith),
          )
          refl,
    )
