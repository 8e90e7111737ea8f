-- ===== src/Tunnel/UdpRelayed.antt =====
-- What the UDP tunnels of src/tunnel.rs send to the client (`run_udp_target_gateway` and
-- `run_udp_target_direct`).
use mathlib.Core.List.{append-nil, append_assoc}
use mathlib.Core.Path.{subst}
use ws2tcp_local_core.Base.{ℕ, ◌≡◌, refl, sym, ap, ◌∙◌, arith, List, [], ◌∷◌, ◌++◌}
use ws2tcp_local_core.Text.{Text, Bytes}
use ws2tcp_local_core.Net.Ipv6.{Ipv6Text}
use ws2tcp_local_core.Tunnel.UdpTarget.{
  Target, Event, Turn, goes_on, returns, turn_gateway, turn_direct, next, run,
}
use ws2tcp_local_core.Tunnel.UdpBuilt.{
  given_by_gateway, given_directly, all_given, Built, EndsGateway, EndsDirectly, IsBuilt,
  turn_gateway-IsBuilt, turn_direct-IsBuilt,
}

module _ (ipv6 : Ipv6Text) (host : Text) (port : ℕ) where
  -- a turn that ended the loop, and what came before it
  pub record Ended (given : Event → List Bytes) (Ends : Event → Target → Type 0)
      (turn : Event → Target → Turn) (events : List Event) (s s' : Target) : Type 0 where
    pub before : List Event
    pub last : Event
    pub after : List Event
    pub whole : events ≡ before ++ (last ∷ after)
    pub state : Target
    pub at_last : run turn before s ≡ goes_on state
    pub is_end : Ends last state
    pub built : Built ipv6 host port s'.datagrams (all_given given before)

  -- What the client was sent at the end of a run: all that was given, where the loop goes on, and
  -- what was given before the event that ended it.
  abbrev pub IsAnswered :
      (Event → List Bytes)
      → (Event → Target → Type 0)
      → (Event → Target → Turn)
      → List Event
      → Target
      → Turn
      → Type 0
  IsAnswered given Ends turn events s (goes_on s') =
      Built ipv6 host port s'.datagrams (all_given given events)
  IsAnswered given Ends turn events s (returns r s') = Ended given Ends turn events s s'

  module _ (given : Event → List Bytes) (Ends : Event → Target → Type 0)
      (turn : Event → Target → Turn)
      (keeps : (front : List Bytes) (e : Event) (s : Target)
        → Built ipv6 host port s.datagrams front
        → IsBuilt ipv6 host port front (given e) (Ends e s) (turn e s)) where
    all_given-append :
        (before : List Event) (e : Event)
        → all_given given before ++ given e ≡ all_given given (before ++ (e ∷ []))
    all_given-append [] e = sym (append-nil (given e))
    all_given-append (b ∷ before) e =
        append_assoc (given b) (all_given given before) (given e)
        ∙ ap (λ l. given b ++ l) (all_given-append before e)

    run-append :
        (before : List Event) (e : Event) (s state next_state : Target)
        → run turn before s ≡ goes_on state
        → turn e state ≡ goes_on next_state
        → run turn (before ++ (e ∷ [])) s ≡ goes_on next_state
    unfolding run
    run-append [] e s state next_state h k = ground arith
    run-append (b ∷ before) e s state next_state h k =
        by_turn (turn b s) h (λ u g. run-append before e u state next_state g k)
      where
        by_turn :
            (t : Turn)
            → next (run turn before) t ≡ goes_on state
            → ((u : Target)
                → run turn before u ≡ goes_on state
                → run turn (before ++ (e ∷ [])) u ≡ goes_on next_state)
            → next (run turn (before ++ (e ∷ []))) t ≡ goes_on next_state
        by_turn (goes_on u) h go = go u h
        by_turn (returns r u) h go = absurd (ground arith)

    run-IsAnswered :
        (s : Target) (before events : List Event) (state : Target)
        → run turn before s ≡ goes_on state
        → Built ipv6 host port state.datagrams (all_given given before)
        → IsAnswered given Ends turn (before ++ events) s (run turn events state)
    unfolding run IsBuilt
    run-IsAnswered s before [] state g h =
        subst (λ l. Built ipv6 host port state.datagrams (all_given given l))
          (sym (append-nil before)) h
    run-IsAnswered s before (e ∷ events) state g h =
        by_turn (turn e state) refl (keeps (all_given given before) e state h)
          (run-IsAnswered s (before ++ (e ∷ [])) events)
      where
        by_turn :
            (t : Turn)
            → turn e state ≡ t
            → IsBuilt ipv6 host port (all_given given before) (given e) (Ends e state) t
            → ((u : Target)
                → run turn (before ++ (e ∷ [])) s ≡ goes_on u
                → Built ipv6 host port u.datagrams (all_given given (before ++ (e ∷ [])))
                → IsAnswered given Ends turn ((before ++ (e ∷ [])) ++ events) s (run turn events u))
            → IsAnswered given Ends turn (before ++ (e ∷ events)) s (next (run turn events) t)
        by_turn (goes_on u) k b go =
            subst (λ l. IsAnswered given Ends turn l s (run turn events u))
              (append_assoc before (e ∷ []) events)
              (go u (run-append before e s state u g k)
                (subst (Built ipv6 host port u.datagrams) (all_given-append before e) b))
        by_turn (returns r u) k b go = record {
          before = before;
          last = e;
          after = events;
          whole = refl;
          state = state;
          at_last = g;
          is_end = b.1;
          built = b.0;
        }

  -- A UDP tunnel through the gateway sends the client one SOCKS5 datagram from its destination for
  -- each message of the gateway, in their order: for all of them while it goes on, and for those
  -- before the event that ended it. It ends with its association, with the gateway's messages, by
  -- an error or after a minute without an event; a message ends it only where the client takes no
  -- datagram or none can be built from it, and a frame for the gateway where that takes none.
  pub turn_gateway-IsAnswered :
      (events : List Event) (s : Target)
      → s.datagrams ≡ []
      → IsAnswered given_by_gateway
          (EndsGateway ipv6 host port)
          (turn_gateway ipv6 host port)
          events
          s
          (run (turn_gateway ipv6 host port) events s)
  unfolding run
  turn_gateway-IsAnswered events s h =
      run-IsAnswered given_by_gateway (EndsGateway ipv6 host port) (turn_gateway ipv6 host port)
        (turn_gateway-IsBuilt ipv6 host port) s [] events s refl
        (subst (λ l. Built ipv6 host port l []) (sym h) tt)

  -- The same of a tunnel without the gateway and the datagrams of the target.
  pub turn_direct-IsAnswered :
      (events : List Event) (s : Target)
      → s.datagrams ≡ []
      → IsAnswered given_directly
          (EndsDirectly ipv6 host port)
          (turn_direct ipv6 host port)
          events
          s
          (run (turn_direct ipv6 host port) events s)
  unfolding run
  turn_direct-IsAnswered events s h =
      run-IsAnswered given_directly (EndsDirectly ipv6 host port) (turn_direct ipv6 host port)
        (turn_direct-IsBuilt ipv6 host port) s [] events s refl
        (subst (λ l. Built ipv6 host port l []) (sym h) tt)
