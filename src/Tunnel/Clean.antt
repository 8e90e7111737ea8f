-- ===== src/Tunnel/Clean.antt =====
-- Reads of a client that ends its input without an error, and events that do not end the tunnel: for
-- `proxy` of src/tunnel.rs.
use ws2tcp_local_core.Base.{
  ℕ, suc, ◌≡◌, refl, false, List, [], ◌∷◌, none, some, length, leb, take, drop, arith, inl, inr,
  Bool-cases,
}
use ws2tcp_local_core.Text.{Bytes}
use ws2tcp_local_core.HttpProxy.Read.{Reads}
use ws2tcp_local_core.Websocket.{close}
use ws2tcp_local_core.Tunnel.Relay.{read_into, Event, client_ready, received, broken, ended}
use ws2tcp_local_core.Tunnel.Carried.{ahead}

-- the client's input ends with no error
abbrev pub IsClean : Reads → Type 0
IsClean [] = Unit
IsClean (none ∷ _) = ⊥
IsClean (some [] ∷ _) = Unit
IsClean (some (_ ∷ _) ∷ reads) = IsClean reads

-- no event ends the tunnel from the gateway's side
abbrev pub IsOpen : List Event → Type 0
IsOpen [] = Unit
IsOpen (client_ready ∷ es) = IsOpen es
IsOpen (broken ∷ _) = ⊥
IsOpen (ended ∷ _) = ⊥
IsOpen (received close ∷ _) = ⊥
IsOpen (received _ ∷ es) = IsOpen es

-- how often the client is read
abbrev pub turns_of_client : List Event → ℕ
turns_of_client [] = 0
turns_of_client (client_ready ∷ es) = suc (turns_of_client es)
turns_of_client (_ ∷ es) = turns_of_client es

-- what a read of such an input gives
pub data Gives (size : ℕ) (reads : Reads) : Type 0 where
  the_end :
      (left : Reads) → read_into size reads ≡ (some [], left) → ahead reads ≡ [] → Gives size reads
  a_chunk :
      (b : ℕ) (chunk : Bytes) (left : Reads)
      → read_into size reads ≡ (some (b ∷ chunk), left)
      → IsClean left
      → Gives size reads

-- a chunk that is longer than the buffer
long_chunk :
    (size b : ℕ) (chunk : Bytes) (reads : Reads)
    → leb (length (b ∷ chunk)) (suc size) ≡ false
    → IsClean reads
    → IsClean (some (drop size chunk) ∷ reads)
long_chunk size b chunk reads h c = by_rest (drop size chunk) c
  where
    by_rest : (bytes : Bytes) → IsClean reads → IsClean (some bytes ∷ reads)
    by_rest [] c = tt
    by_rest (_ ∷ _) c = c

pub read_into-Gives : (size : ℕ) (reads : Reads) → IsClean reads → Gives (suc size) reads
unfolding read_into ahead
read_into-Gives size [] c = the_end [] refl refl
read_into-Gives size (none ∷ reads) c = absurd c
read_into-Gives size (some [] ∷ reads) c = the_end reads (ground arith) refl
read_into-Gives size (some (b ∷ chunk) ∷ reads) c =
    elim (Bool-cases (leb (length (b ∷ chunk)) (suc size))) [
      | inl h ↦ a_chunk b chunk reads (ground arith) c
      | inr h ↦
          a_chunk b (take size chunk) (some (drop size chunk) ∷ reads) (ground arith)
            (long_chunk size b chunk reads h c)
    ]
