-- ===== src/Routing/Tasks.antt =====
-- The state that `RoutingRules::set_mode`, `spawn_auto_refresh` and the task of the switch to auto
-- share: src/routing_rules.rs. A task is the point its code has reached, a step takes one task
-- over one access of the generation or the state, or over a load of the rules, whose result
-- is any (`load_state` reads the network and the disk). Steps of tasks come in any order.
use ws2tcp_local_core.Base.{
  ℕ, ◌+◌, ◌%◌, ◌^◌, ◌≡◌, Bool, true, false, List, [], ◌∷◌, ◌++◌, Option, none, some, ◌==◌,
  if◌then◌else◌,
}
use ws2tcp_local_core.Text.{Text}
use ws2tcp_local_core.Routing.Domains.{DomainRules, matches}

-- `ProxyMode`
pub data ProxyMode : Type 0 where
  auto global : ProxyMode

pub data RoutingRulesState : Type 0 where
  domain_rules : DomainRules → Option Text → Text → RoutingRulesState
  global_proxy direct_fallback : RoutingRulesState

-- `RoutingRulesState::should_proxy_host`
unfoldable pub should_proxy_host : RoutingRulesState → Text → Bool
should_proxy_host (domain_rules rules _ _) host = matches rules host
should_proxy_host global_proxy host = true
should_proxy_host direct_fallback host = false

-- The loop of `spawn_auto_refresh` asleep, loading, loaded and about to compare the generation
-- again, about to write; the task of `set_mode(Auto)` loading, loaded, about to write; a call of
-- `set_mode(Global)` about to write. Each with the generation it was started for.
pub data Task : Type 0 where
  refresh_sleep refresh_load : ℕ → Task
  refresh_check refresh_write : ℕ → RoutingRulesState → Task
  switch_load : ℕ → Task
  switch_check switch_write : ℕ → Option RoutingRulesState → Task
  global_write : Task

-- what one step of a task writes, and the tasks in its place
pub record Action : Type 0 where
  pub written : Option RoutingRulesState
  pub next : List Task

abbrev goes_on : Task → Action
goes_on t = record { written = none; next = t ∷ [] }

abbrev ends : Action
ends = record { written = none; next = [] }

-- a check of the generation
abbrev unless_changed : ℕ → ℕ → Task → Action
unless_changed current generation t = if current == generation then goes_on t else ends

-- One step of a task, with the result of the load.
unfoldable pub perform : Option RoutingRulesState → ℕ → Task → Action
perform load current (refresh_sleep g) = unless_changed current g (refresh_load g)
perform none current (refresh_load g) = goes_on (refresh_sleep g)
perform (some next) current (refresh_load g) = goes_on (refresh_check g next)
perform load current (refresh_check g next) = unless_changed current g (refresh_write g next)
perform load current (refresh_write g next) = record {
  written = some next;
  next = refresh_sleep g ∷ [];
}
perform load current (switch_load g) = goes_on (switch_check g load)
perform load current (switch_check g next) = unless_changed current g (switch_write g next)
perform load current (switch_write g (some next)) = record {
  written = some next;
  next = refresh_sleep g ∷ [];
}
perform load current (switch_write g none) = record { written = some direct_fallback; next = [] }
perform load current global_write = record { written = some global_proxy; next = [] }

pub record System : Type 0 where
  pub state : RoutingRulesState
  pub generation : ℕ
  pub tasks : List Task

abbrev pub or_state : Option RoutingRulesState → RoutingRulesState → RoutingRulesState
or_state none s = s
or_state (some next) s = next

-- `fetch_add(1) + 1` of an `AtomicU64`
abbrev pub next_generation : ℕ → ℕ
next_generation g = (g + 1) % 2 ^ 64

unfoldable pub set_mode : ProxyMode → System → System
set_mode mode s =
    let g = next_generation s.generation in
    record s {
      generation = g;
      tasks = elim mode [ global ↦ global_write | auto ↦ switch_load g ] ∷ s.tasks;
    }

-- the task between `before` and `after` takes a step
unfoldable pub run : Option RoutingRulesState → List Task → Task → List Task → System → System
run load before t after s =
    let a = perform load s.generation t in
    record s { state = or_state a.written s.state; tasks = before ++ (a.next ++ after) }

-- what the tasks do while nobody sets the mode
pub data Runs : System → System → Type 0 where
  stay : {s : System} → Runs s s
  then_run :
      {s s' : System} (load : Option RoutingRulesState) (before : List Task) (t : Task)
      (after : List Task)
      → Runs s s'
      → s'.tasks ≡ before ++ (t ∷ after)
      → Runs s (run load before t after s')

-- `RoutingRules::load`: the loop of generation 0 runs unless the mode is global
unfoldable pub load : ProxyMode → Option RoutingRulesState → System
load global loaded = record { state = global_proxy; generation = 0; tasks = [] }
load auto none = record { state = direct_fallback; generation = 0; tasks = refresh_sleep 0 ∷ [] }
load auto (some s) = record { state = s; generation = 0; tasks = refresh_sleep 0 ∷ [] }
