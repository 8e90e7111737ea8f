-- ===== src/Tunnel/Delivery.antt =====
-- That `proxy` of src/tunnel.rs delivers: a client that ends its input has all of it sent.
use mathlib.Core.List.{append-nil}
use ws2tcp_local_core.Base.{
  ℕ, zero, suc, ◌≤◌, ◌<◌, ◌≡◌, refl, sym, ap, ◌∙◌, List, [], ◌∷◌, ◌++◌, some, ok, length,
  length-append, arith,
}
use ws2tcp_local_core.Text.{Bytes}
use ws2tcp_local_core.HttpProxy.Read.{Reads}
use ws2tcp_local_core.Websocket.{Message, binary, text, ping, pong, close, frame}
use ws2tcp_local_core.Tunnel.Relay.{
  read_into, Relay, Event, client_ready, received, broken, ended, Turn, goes_on, returns, turn, run,
}
use ws2tcp_local_core.Tunnel.Carried.{
  ahead, carried, carried-control, carried-sent, read_into-ahead, up,
}
use ws2tcp_local_core.Tunnel.Clean.{
  IsClean, IsOpen, turns_of_client, Gives, the_end, a_chunk, read_into-Gives,
}

-- what a run that delivers comes to
pub record Delivers (s : Relay) (t : Turn) : Type 0 where
  pub last : Relay
  pub ends : t ≡ returns (ok tt) last
  pub all_sent : carried last.frames ≡ up s

pred_of : (n k : ℕ) → suc k ≤ n → (m : ℕ) × (n ≡ suc m) × (k ≤ m)
pred_of zero k h = absurd (omega arith)
pred_of (suc m) k h = (m, refl, omega arith)

-- what follows a turn that goes on
after_turn :
    (size : ℕ) (e : Event) (es : List Event) (s s' : Relay)
    → turn size e s ≡ goes_on s'
    → up s' ≡ up s
    → Delivers s' (run size es s')
    → Delivers s (run size (e ∷ es) s)
unfolding run
after_turn size e es s s' h k d = record {
  last = d.last;
  ends = rw (h, run) d.ends;
  all_sent = d.all_sent ∙ k;
}

-- the end of the client's input
at_end :
    (size : ℕ) (es : List Event) (s : Relay) (left : Reads)
    → read_into size s.reads ≡ (some [], left)
    → ahead s.reads ≡ []
    → Delivers s (run size (client_ready ∷ es) s)
unfolding run turn carried
at_end size es s left h a = by_writes s.gateway_writes refl
  where
    whole : carried s.frames ≡ up s
    whole = sym (append-nil (carried s.frames)) ∙ ap (λ l. carried s.frames ++ l) (sym a)

    by_writes : (n : ℕ) → s.gateway_writes ≡ n → Delivers s (run size (client_ready ∷ es) s)
    by_writes zero e = record {
      last = record s { reads = left };
      ends = rw (run, turn, h, e) refl;
      all_sent = whole;
    }
    by_writes (suc n) e = record {
      last = record s { reads = left; frames = s.frames ++ (close ∷ []); gateway_writes = n };
      ends = rw (run, turn, h, e) refl;
      all_sent = carried-control s.frames close refl ∙ whole;
    }

-- what every event needs: writes for it and those after it
record IsReady (k : ℕ) (s : Relay) : Type 0 where
  clean : IsClean s.reads
  gateway_le : k ≤ s.gateway_writes
  client_le : k ≤ s.client_writes

-- the rest of the run, from any state that is ready for it
Later : ℕ → List Event → Type 0
Later size es =
    (s : Relay)
    → IsReady (length es) s
    → length (ahead s.reads) < turns_of_client es
    → Delivers s (run size es s)

module _ (size : ℕ) (es : List Event) (s : Relay) (later : Later size es)
    (ready : IsReady (suc (length es)) s) where
  -- a frame is sent, and `left` is to be read
  sends :
      (e : Event) (m : Message) (left : Reads)
      → ((n : ℕ)
          → s.gateway_writes ≡ suc n
          → turn size e s
            ≡ goes_on
                (record s { reads = left; frames = s.frames ++ (m ∷ []); gateway_writes = n }))
      → carried (s.frames ++ (m ∷ [])) ++ ahead left ≡ up s
      → IsClean left
      → length (ahead left) < turns_of_client es
      → Delivers s (run size (e ∷ es) s)
  unfolding Later
  sends e m left h k c short =
      let (n, at_n, n_le) = pred_of s.gateway_writes (length es) ready.gateway_le in
      after_turn size e es s _ (h n at_n) k (
        later (record s { reads = left; frames = s.frames ++ (m ∷ []); gateway_writes = n })
          (record { clean = c; gateway_le = n_le; client_le = omega (arith, ready.client_le) })
          short)

  -- bytes are written to the client
  writes :
      (e : Event) (bytes : Bytes)
      → ((n : ℕ)
          → s.client_writes ≡ suc n
          → turn size e s ≡ goes_on (record s { written = s.written ++ bytes; client_writes = n }))
      → length (ahead s.reads) < turns_of_client es
      → Delivers s (run size (e ∷ es) s)
  unfolding Later
  writes e bytes h short =
      let (n, at_n, n_le) = pred_of s.client_writes (length es) ready.client_le in
      after_turn size e es s _ (h n at_n) refl (
        later (record s { written = s.written ++ bytes; client_writes = n })
          (record {
            clean = ready.clean;
            gateway_le = omega (arith, ready.gateway_le);
            client_le = n_le;
          })
          short)

  -- nothing is done
  passes :
      (e : Event)
      → turn size e s ≡ goes_on s
      → length (ahead s.reads) < turns_of_client es
      → Delivers s (run size (e ∷ es) s)
  unfolding Later
  passes e h short = after_turn size e es s s h refl (
      later s
        (record {
          clean = ready.clean;
          gateway_le = omega (arith, ready.gateway_le);
          client_le = omega (arith, ready.client_le);
        })
        short)

  -- the client is read
  reads_client :
      Gives size s.reads
      → length (ahead s.reads) ≤ turns_of_client es
      → Delivers s (run size (client_ready ∷ es) s)
  reads_client (the_end left h a) short = at_end size es s left h a
  reads_client (a_chunk b chunk left h c) short =
      sends client_ready (binary (b ∷ chunk)) left (λ n e. unfold turn in rw (h, e) refl)
        (carried-sent s.frames (b ∷ chunk) (ahead left)
          ∙ ap (λ l. carried s.frames ++ l) (sym (read_into-ahead size s.reads left b chunk h)))
        c
        (omega (
          arith,
          ap length (read_into-ahead size s.reads left b chunk h),
          length-append (b ∷ chunk) (ahead left),
        ))

run-Delivers : (size : ℕ) (es : List Event) → IsOpen es → Later (suc size) es
unfolding Later turn
run-Delivers size [] o s ready short = absurd (omega arith)
run-Delivers size (client_ready ∷ es) o s ready short =
    reads_client (suc size) es s (run-Delivers size es o) ready
      (read_into-Gives size s.reads ready.clean) (omega arith)
run-Delivers size (received (binary bytes) ∷ es) o s ready short =
    writes (suc size) es s (run-Delivers size es o) ready (received (binary bytes)) bytes
      (λ n e. rw e refl) short
run-Delivers size (received (text bytes) ∷ es) o s ready short =
    writes (suc size) es s (run-Delivers size es o) ready (received (text bytes)) bytes
      (λ n e. rw e refl) short
run-Delivers size (received (ping payload) ∷ es) o s ready short =
    sends (suc size) es s (run-Delivers size es o) ready (received (ping payload)) (pong payload)
      s.reads (λ n e. rw e refl)
      (unfold carried in
        ap (λ l. l ++ ahead s.reads) (carried-control s.frames (pong payload) refl))
      ready.clean short
run-Delivers size (received (pong bytes) ∷ es) o s ready short =
    passes (suc size) es s (run-Delivers size es o) ready (received (pong bytes)) refl short
run-Delivers size (received frame ∷ es) o s ready short =
    passes (suc size) es s (run-Delivers size es o) ready (received frame) refl short
run-Delivers size (received close ∷ es) o s ready short = absurd o
run-Delivers size (broken ∷ es) o s ready short = absurd o
run-Delivers size (ended ∷ es) o s ready short = absurd o

-- A client that ends its input without an error has all of it sent to the gateway: whatever comes
-- between, with a buffer that is not empty, while writes succeed and the gateway does not end the
-- tunnel, the loop returns once the client was read more often than it sent bytes.
pub run-delivers :
    (size : ℕ) (events : List Event) (s : Relay)
    → IsOpen events
    → IsClean s.reads
    → length events ≤ s.gateway_writes
    → length events ≤ s.client_writes
    → length (ahead s.reads) < turns_of_client events
    → Delivers s (run (suc size) events s)
run-delivers size events s o c g w h =
    unfold Later in
    run-Delivers size events o s (record { clean = c; gateway_le = g; client_le = w }) h
