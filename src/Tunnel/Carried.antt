-- ===== src/Tunnel/Carried.antt =====
-- The bytes on their way through `proxy` of src/tunnel.rs: those that the client sends, those that
-- frames carry and those that the gateway sends for the client.
use mathlib.Core.List.{append-nil, append_assoc}
use ws2tcp_local_core.Base.{
  ℕ, zero, suc, ◌<◌, ◌≡◌, refl, sym, ap, ◌∙◌, false, List, [], ◌∷◌, ◌++◌, none, some, length, leb,
  take, drop, take-append-drop, arith, inl, inr, Bool-cases,
}
use ws2tcp_local_core.Text.{Bytes}
use ws2tcp_local_core.HttpProxy.Read.{Reads}
use ws2tcp_local_core.Websocket.{Message, binary, text, ping, pong, close, frame}
use ws2tcp_local_core.Tunnel.Relay.{read_into, Relay, Event, client_ready, received, broken, ended}

-- what the client sends before it is done or fails
unfoldable pub ahead : Reads → Bytes
ahead [] = []
ahead (none ∷ _) = []
ahead (some [] ∷ _) = []
ahead (some (b ∷ chunk) ∷ reads) = (b ∷ chunk) ++ ahead reads

-- the bytes that frames carry
unfoldable pub carried : List Message → Bytes
carried [] = []
carried (binary bytes ∷ ms) = bytes ++ carried ms
carried (_ ∷ ms) = carried ms

-- the bytes that the gateway sends for the client
unfoldable pub delivered : List Event → Bytes
delivered [] = []
delivered (received (binary bytes) ∷ es) = bytes ++ delivered es
delivered (received (text bytes) ∷ es) = bytes ++ delivered es
delivered (_ ∷ es) = delivered es

carried-append : (ms ns : List Message) → carried (ms ++ ns) ≡ carried ms ++ carried ns
unfolding carried
carried-append [] ns = refl
carried-append (binary bytes ∷ ms) ns =
    ap (λ l. bytes ++ l) (carried-append ms ns) ∙ sym (append_assoc bytes (carried ms) (carried ns))
carried-append (text bytes ∷ ms) ns = carried-append ms ns
carried-append (ping _ ∷ ms) ns = carried-append ms ns
carried-append (pong _ ∷ ms) ns = carried-append ms ns
carried-append (close ∷ ms) ns = carried-append ms ns
carried-append (frame ∷ ms) ns = carried-append ms ns

pub carried-sent :
    (ms : List Message) (bytes rest : Bytes)
    → carried (ms ++ (binary bytes ∷ [])) ++ rest ≡ carried ms ++ (bytes ++ rest)
unfolding carried
carried-sent ms bytes rest =
    ap (λ l. l ++ rest)
      (carried-append ms (binary bytes ∷ []) ∙ ap (λ l. carried ms ++ l) (append-nil bytes))
    ∙ append_assoc (carried ms) bytes rest

pub carried-control :
    (ms : List Message) (m : Message)
    → carried (m ∷ []) ≡ []
    → carried (ms ++ (m ∷ [])) ≡ carried ms
carried-control ms m e =
    carried-append ms (m ∷ []) ∙ ap (λ l. carried ms ++ l) e ∙ append-nil (carried ms)

ahead-chunk :
    (chunk : Bytes) (reads : Reads)
    → 0 < length chunk
    → ahead (some chunk ∷ reads) ≡ chunk ++ ahead reads
unfolding ahead
ahead-chunk [] reads h = absurd (omega arith)
ahead-chunk (b ∷ chunk) reads h = refl

length-drop_pos : (n : ℕ) (bytes : Bytes) → n < length bytes → 0 < length (drop n bytes)
length-drop_pos zero bytes h = h
length-drop_pos (suc n) [] h = absurd (omega arith)
length-drop_pos (suc n) (b ∷ bytes) h = length-drop_pos n bytes (omega arith)

-- what a read gives of a chunk
split_chunk :
    (size : ℕ) (bytes : Bytes) (reads left : Reads) (b : ℕ) (chunk : Bytes)
    → leb (length bytes) size ≡ false
    → take size bytes ≡ b ∷ chunk
    → some (drop size bytes) ∷ reads ≡ left
    → ahead (some bytes ∷ reads) ≡ (b ∷ chunk) ++ ahead left
split_chunk size bytes reads left b chunk h f g =
    ahead-chunk bytes reads (omega (arith, is_long))
    ∙ ap (λ l. l ++ ahead reads) (sym (take-append-drop size bytes))
    ∙ append_assoc (take size bytes) (drop size bytes) (ahead reads)
    ∙ ap (λ l. l ++ (drop size bytes ++ ahead reads)) f
    ∙ ap (λ l. (b ∷ chunk) ++ l)
        (sym (ahead-chunk (drop size bytes) reads (length-drop_pos size bytes is_long))
          ∙ ap ahead g)
  where
    is_long : size < length bytes
    is_long = ground arith

-- a read takes its chunk from the front of what the client sends
pub read_into-ahead :
    (size : ℕ) (reads left : Reads) (b : ℕ) (chunk : Bytes)
    → read_into size reads ≡ (some (b ∷ chunk), left)
    → ahead reads ≡ (b ∷ chunk) ++ ahead left
unfolding read_into
read_into-ahead size [] left b chunk e = absurd (ground arith)
read_into-ahead size (none ∷ reads) left b chunk e = absurd (ground arith)
read_into-ahead size (some bytes ∷ reads) left b chunk e =
    elim (Bool-cases (leb (length bytes) size)) [
      | inl h ↦
          let same : bytes ≡ b ∷ chunk = ground arith in
          let rest : reads ≡ left = ground arith in
          ap (λ l. ahead (some l ∷ reads)) same
          ∙ ahead-chunk (b ∷ chunk) reads (omega arith)
          ∙ ap (λ l. (b ∷ chunk) ++ ahead l) rest
      | inr h ↦ split_chunk size bytes reads left b chunk h (ground arith) (ground arith)
    ]

-- what is sent or ahead
abbrev pub up : Relay → Bytes
up s = carried s.frames ++ ahead s.reads

pub delivered-cons :
    (e : Event) (es : List Event) → delivered (e ∷ es) ≡ delivered (e ∷ []) ++ delivered es
unfolding delivered
delivered-cons client_ready es = refl
delivered-cons broken es = refl
delivered-cons ended es = refl
delivered-cons (received (binary bytes)) es = ap (λ l. l ++ delivered es) (sym (append-nil bytes))
delivered-cons (received (text bytes)) es = ap (λ l. l ++ delivered es) (sym (append-nil bytes))
delivered-cons (received (ping _)) es = refl
delivered-cons (received (pong _)) es = refl
delivered-cons (received frame) es = refl
delivered-cons (received close) es = refl
