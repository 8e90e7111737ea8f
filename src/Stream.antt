-- ===== src/Stream.antt =====
-- A TCP stream as the handlers see it, for the parts that only read exact counts and write: the
-- bytes that the peer has sent and nobody has read, the bytes written, and how many more writes
-- the peer will take (a write beyond these fails). An action returns its result and the stream.
use ws2tcp_local_core.Base.{
  ℕ, zero, suc, Bool, [], ◌++◌, Result, ok, err, length, take, drop, ltb, if◌then◌else◌,
}
use ws2tcp_local_core.Text.{Bytes}

pub record Stream : Type 0 where
  pub unread : Bytes
  pub sent : Bytes
  pub writable : ℕ

abbrev pub Exec : Type 0 → Type 0 → Type 0
Exec E A = Stream → Result E A × Stream

abbrev pub and_then : {E A B : Type 0} → Result E A × Stream → (A → Exec E B) → Result E B × Stream
and_then (ok a, s) f = f a s
and_then (err e, s) f = (err e, s)

infixl 5 ◌>>=◌ ◌>>◌
abbrev pub ◌>>=◌ : {E A B : Type 0} → Exec E A → (A → Exec E B) → Exec E B
◌>>=◌ m f s = and_then (m s) f

abbrev pub ◌>>◌ : {E B : Type 0} → Exec E (Unit {0}) → Exec E B → Exec E B
m >> k = m >>= λ _. k

abbrev pub pure : {E A : Type 0} → A → Exec E A
pure a s = (ok a, s)

abbrev pub fail : {E A : Type 0} → E → Exec E A
fail e s = (err e, s)

abbrev pub lift : {E A : Type 0} → Result E A → Exec E A
lift r s = (r, s)

-- a check: `if !b { bail!(e) }`
abbrev pub guard : {E : Type 0} → Bool → E → Exec E (Unit {0})
guard b e s = if b then (ok tt, s) else (err e, s)

-- `read_exact` of a buffer of `n` bytes: at the end of the input it fails and what was there is lost.
unfoldable pub read_exact : {E : Type 0} → ℕ → E → Exec E Bytes
read_exact n e s =
    if ltb (length s.unread) n
    then (err e, record s { unread = [] })
    else (ok (take n s.unread), record s { unread = drop n s.unread })

-- `write_all`
unfoldable pub write_all : {E : Type 0} → Bytes → E → Exec E (Unit {0})
write_all bytes e s = elim s.writable [
  | zero ↦ (err e, s)
  | suc n ↦ (ok tt, record s { sent = s.sent ++ bytes; writable = n })
]
