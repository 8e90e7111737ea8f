-- ===== src/Tunnel/Senders.antt =====
-- The senders of a UDP association (`targets` of `handle_socks_udp_associate` in src/tunnel.rs) and the
-- tasks that they lead to.
use mathlib.Core.Path.{subst}
use ws2tcp_local_core.Base.{
  ℕ, ◌<◌, ◌≡◌, ◌≢◌, refl, sym, ap, ◌∙◌, true, false, List, [], ◌∷◌, Option, none, some, length,
  ◌==◌, arith, inl, inr, Bool-cases, All, All-map, eq_false,
}
use ws2tcp_local_core.Text.{Text, equal}
use ws2tcp_local_core.Text.Equal.{equal_iff}
use ws2tcp_local_core.Socks5.Datagram.{SocketAddr, Datagram}
use ws2tcp_local_core.Tunnel.Association.{Target, Association, get, spawn}

-- the task of a number
unfoldable pub task_at : ℕ → List Target → Option Target
task_at n [] = none
task_at n (t ∷ ts) = elim (n == length ts) [ true ↦ some t | false ↦ task_at n ts ]

-- no two tasks have a destination in common
abbrev pub IsDistinct : List Target → Type 0
IsDistinct [] = Unit
IsDistinct (t ∷ ts) = All (λ u. u.key ≢ t.key) ts × IsDistinct ts

-- the task of a number serves a destination
abbrev pub Serves : List Target → ℕ → Text → Type 0
Serves ts n key = (t : Target) × (task_at n ts ≡ some t) × (t.key ≡ key)

-- Between two turns: a sender leads to the task of its destination, every task has its sender, and no
-- two tasks have the same destination.
pub record IsWell (s : Association) : Type 0 where
  pub leads : (key : Text) (n : ℕ) → get key s.targets ≡ some n → Serves s.spawned n key
  pub has_sender : All (λ t. (n : ℕ) × (get t.key s.targets ≡ some n)) s.spawned
  pub distinct : IsDistinct s.spawned

equal_refl : (s : Text) → equal s s ≡ true
equal_refl s = (equal_iff s s).1 refl

task_at_lt : (n : ℕ) (ts : List Target) (t : Target) → task_at n ts ≡ some t → n < length ts
unfolding task_at
task_at_lt n [] t h = absurd (ground arith)
task_at_lt n (u ∷ ts) t h = elim (Bool-cases (n == length ts)) [
  | inl e ↦ ground arith
  | inr e ↦ omega (arith, task_at_lt n ts t (ground arith))
]

-- a task keeps its number
task_at-cons :
    (n : ℕ) (u : Target) (ts : List Target) (t : Target)
    → task_at n ts ≡ some t
    → task_at n (u ∷ ts) ≡ some t
unfolding task_at
task_at-cons n u ts t h =
    rw (eq_false n (length ts) (λ e. omega (arith, e, task_at_lt n ts t h)), task_at) h

pub Serves-cons :
    (u : Target) (ts : List Target) (n : ℕ) (key : Text) → Serves ts n key → Serves (u ∷ ts) n key
Serves-cons u ts n key (t, at_n, same) = (t, task_at-cons n u ts t at_n, same)

pub Serves-new : (u : Target) (ts : List Target) → Serves (u ∷ ts) (length ts) u.key
unfolding task_at
Serves-new u ts = (u, ground arith, refl)

get-cons_same : (key : Text) (n : ℕ) (rest : List (Text × ℕ)) → get key ((key, n) ∷ rest) ≡ some n
unfolding get
get-cons_same key n rest = rw (equal_refl key, get) refl

module _ (key : Text) (d : Datagram) (from : SocketAddr) (s : Association) (w : IsWell s)
    (new : get key s.targets ≡ none) where
  spawn-leads :
      (k : Text) (n : ℕ)
      → get k (spawn key d from s).targets ≡ some n
      → Serves (spawn key d from s).spawned n k
  unfolding get
  spawn-leads k n h = elim (Bool-cases (equal k key)) [
    | inl e ↦
        let same : length s.spawned ≡ n = ground arith in
        subst (λ m. Serves (spawn key d from s).spawned m k) same
          (subst (Serves (spawn key d from s).spawned (length s.spawned))
            (sym ((equal_iff k key).0 e)) (Serves-new _ s.spawned))
    | inr e ↦ Serves-cons _ s.spawned n k (w.leads k n (ground arith))
  ]

  spawn-has_sender :
      (t : Target)
      → ((n : ℕ) × (get t.key s.targets ≡ some n))
      → (n : ℕ) × (get t.key (spawn key d from s).targets ≡ some n)
  unfolding get
  spawn-has_sender t (n, h) = elim (Bool-cases (equal t.key key)) [
    | inl e ↦ (length s.spawned, rw (e, get) refl)
    | inr e ↦ (n, rw (e, get) h)
  ]

  pub spawn-IsWell : IsWell (spawn key d from s)
  spawn-IsWell = record {
    leads = spawn-leads;
    has_sender = (
      (length s.spawned, get-cons_same key (length s.spawned) s.targets),
      All-map s.spawned spawn-has_sender w.has_sender,
    );
    distinct = (All-map s.spawned (λ t h e. absurd (no_sender t h e)) w.has_sender, w.distinct);
  }
    where
      no_sender : (t : Target) → ((n : ℕ) × (get t.key s.targets ≡ some n)) → t.key ≡ key → ⊥
      no_sender t (n, h) e =
          let known : get key s.targets ≡ some n = ap (λ k. get k s.targets) (sym e) ∙ h in
          ground arith
