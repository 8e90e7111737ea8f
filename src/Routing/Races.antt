-- ===== src/Routing/Races.antt =====
-- What the tasks do to a mode that was set.
use mathlib.Core.Path.{subst}
use ws2tcp_local_core.Base.{
  ℕ, ◌≡◌, ◌≢◌, refl, sym, ap, ◌∙◌, List, [], ◌∷◌, ◌++◌, Option, none, some, All, All-append,
  eq_false,
}
use ws2tcp_local_core.Routing.Tasks.{
  global, RoutingRulesState, global_proxy, Task, refresh_sleep, refresh_load, refresh_check,
  refresh_write, switch_load, switch_check, switch_write, global_write, perform, System, or_state,
  set_mode, run, Runs, stay, then_run,
}

-- a task that was started for another generation and has not passed its last check
unfoldable pub IsStale : ℕ → Task → Type 0
IsStale g (refresh_sleep h) = h ≢ g
IsStale g (refresh_load h) = h ≢ g
IsStale g (refresh_check h _) = h ≢ g
IsStale g (refresh_write _ _) = ⊥
IsStale g (switch_load h) = h ≢ g
IsStale g (switch_check h _) = h ≢ g
IsStale g (switch_write _ _) = ⊥
IsStale g global_write = Unit

-- what a task of an old generation writes
writes_global :
    (load : Option RoutingRulesState) (g : ℕ) (t : Task)
    → IsStale g t
    → (or_state (perform load g t).written global_proxy ≡ global_proxy)
      × All (IsStale g) (perform load g t).next
unfolding perform IsStale
writes_global load g (refresh_sleep h) k = rw (eq_false g h λ p. k (sym p)) (refl, tt)
writes_global none g (refresh_load h) k = (refl, (k, tt))
writes_global (some s) g (refresh_load h) k = (refl, (k, tt))
writes_global load g (refresh_check h s) k = rw (eq_false g h λ p. k (sym p)) (refl, tt)
writes_global load g (refresh_write h s) k = absurd k
writes_global load g (switch_load h) k = (refl, (k, tt))
writes_global load g (switch_check h s) k = rw (eq_false g h λ p. k (sym p)) (refl, tt)
writes_global load g (switch_write h s) k = absurd k
writes_global load g global_write k = (refl, tt)

All-split :
    (g : ℕ) (before : List Task) (t : Task) (after : List Task)
    → All (IsStale g) (before ++ (t ∷ after))
    → All (IsStale g) before × (IsStale g t × All (IsStale g) after)
All-split g [] t after h = (tt, h)
All-split g (x ∷ before) t after h =
    let rest = All-split g before t after h.1 in ((h.0, rest.0), rest.1)

-- the mode is global, and no task is of its generation or past its last check
unfoldable pub IsGlobal : System → Type 0
IsGlobal s = (s.state ≡ global_proxy) × All (IsStale s.generation) s.tasks

run-IsGlobal :
    (load : Option RoutingRulesState) (before : List Task) (t : Task) (after : List Task)
    (s : System)
    → IsGlobal s
    → s.tasks ≡ before ++ (t ∷ after)
    → IsGlobal (run load before t after s)
unfolding IsGlobal run
run-IsGlobal load before t after s (e, h) k =
    let parts = All-split s.generation before t after (subst (All (IsStale s.generation)) k h) in
    let (w, n) = writes_global load s.generation t parts.1.0 in
    (
      ap (or_state (perform load s.generation t).written) e ∙ w,
      All-append (IsStale s.generation) before _ parts.0
          (All-append (IsStale s.generation) (perform load s.generation t).next after n parts.1.1),
    )

-- Once the state is the global mode, and every task that remains was started for another generation
-- and is not past its last check, the state stays so, whatever the tasks load and in
-- whatever order they run, until the mode is set again.
pub Runs-IsGlobal : (s s' : System) → IsGlobal s → Runs s s' → IsGlobal s'
Runs-IsGlobal s s' h stay = h
Runs-IsGlobal s _ h (then_run load before t after r e) =
    run-IsGlobal load before t after _ (Runs-IsGlobal s _ h r) e

-- A refresh that has compared the generation before the mode is set to global, and writes after
-- it, leaves the rules that it loaded: the global mode is gone, though no mode was set since.
pub set_mode-overwritten :
    (s : System) (g : ℕ) (next : RoutingRulesState) (others : List Task)
    → s.tasks ≡ refresh_write g next ∷ others
    → (s' : System) × Runs (set_mode global s) s'
      × (s'.state ≡ next)
      × (s'.generation ≡ (set_mode global s).generation)
unfolding set_mode run perform
set_mode-overwritten s g next others e = (
  _,
  then_run none [] (refresh_write g next) others (then_run none [] global_write s.tasks stay refl)
      e,
  refl,
  refl,
)
