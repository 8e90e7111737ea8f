-- ===== src/Tunnel/Ended.antt =====
-- What becomes of a destination whose task has ended while the association lives: the sender stays in
-- `targets` of `handle_socks_udp_associate` (src/tunnel.rs), so there is no new tunnel.
use ws2tcp_local_core.Base.{ℕ, ◌<◌, ◌≡◌, true, false, List, [], ◌∷◌, some, length, ◌==◌, any}
use ws2tcp_local_core.Text.{Text, Bytes}
use ws2tcp_local_core.Socks5
use ws2tcp_local_core.Socks5.Datagram.{Datagram}
use ws2tcp_local_core.Tunnel.Association.{Association, get}

-- the payloads that a task was handed
unfoldable pub for_task : ℕ → List (ℕ × Bytes) → List Bytes
for_task n [] = []
for_task n ((m, payload) ∷ queued) = elim (m == n) [
  | true ↦ payload ∷ for_task n queued
  | false ↦ for_task n queued
]

-- the sender of a destination leads to a task that has ended
pub record IsStuck (key : Text) (n : ℕ) (s : Association) : Type 0 where
  pub sender : get key s.targets ≡ some n
  pub has_ended : any (λ m. n == m) s.gone ≡ true
  pub is_known : n < length s.spawned

-- it is so still, and the task was handed nothing
pub record Stays (key : Text) (n : ℕ) (s t : Association) : Type 0 where
  pub stuck : IsStuck key n t
  pub nothing_handed : for_task n t.queued ≡ for_task n s.queued
