-- ===== src/Strategy/Machine.antt =====
-- What holds of the state machine of internal/strategy/state_machine.go.
use hyper_basis.Prelude.{◌≡◌, refl, sym, ◌≢◌, ◌⊎◌, inl, inr, List, [], ◌∷◌, arith}
use mathlib.Core.List.{Memᴰ}
use hyper_basis.Strategy.{State, Event, StateMachine, next_state, apply}

-- The transitions of the strategy, one edge for each event that a state does not ignore.
pub data Edge : State → Event → State → Type 0 where
  open_position : Edge State.idle Event.enter State.enter
  hedged : Edge State.enter Event.hedge_ok State.hedge_ok
  abandon : Edge State.enter Event.exit State.exit
  close : Edge State.hedge_ok Event.exit State.exit
  resume : Edge State.exit Event.hedge_ok State.hedge_ok
  closed : Edge State.exit Event.done State.idle

Edge-next_state : (s : State) (e : Event) {t : State} → Edge s e t → next_state s e ≡ t
unfolding next_state
Edge-next_state s e open_position = refl
Edge-next_state s e hedged = refl
Edge-next_state s e abandon = refl
Edge-next_state s e close = refl
Edge-next_state s e resume = refl
Edge-next_state s e closed = refl

next_state-Edge : (s : State) (e : Event) → Edge s e (next_state s e) ⊎ (next_state s e ≡ s)
unfolding next_state
next_state-Edge State.idle Event.enter = inl open_position
next_state-Edge State.enter Event.hedge_ok = inl hedged
next_state-Edge State.enter Event.exit = inl abandon
next_state-Edge State.hedge_ok Event.exit = inl close
next_state-Edge State.exit Event.hedge_ok = inl resume
next_state-Edge State.exit Event.done = inl closed
next_state-Edge s _ = inr refl

-- The state machine follows the edges: an event that has an edge from the state leads along it,
-- and any other event leaves the state as it is.
pub apply-Edge :
    (m : StateMachine) (e : Event)
    → (Edge m.state e (apply m e).1 ⊎ ((apply m e).1 ≡ m.state))
      × ((t : State) → Edge m.state e t → (apply m e).1 ≡ t)
      × ((apply m e).0.state ≡ (apply m e).1)
unfolding apply
apply-Edge m e = (next_state-Edge m.state e, (λ t. Edge-next_state m.state e), refl)

-- The machine after a list of events.
unfoldable pub apply_all : StateMachine → List Event → StateMachine
apply_all m [] = m
apply_all m (e ∷ es) = apply_all (apply m e).0 es

leave_idle :
    (s : State) (e : Event) → s ≡ State.idle → (e ≡ Event.enter) ⊎ (next_state s e ≡ State.idle)
unfolding next_state
leave_idle s e h = ground arith

-- A machine that was idle and holds a position, or is opening or closing one, has been given the
-- event `enter`.
pub apply_all_needs_enter :
    (m : StateMachine) (es : List Event)
    → m.state ≡ State.idle
    → (apply_all m es).state ≢ State.idle
    → Memᴰ Event.enter es
unfolding apply_all apply
apply_all_needs_enter m [] h n = absurd (n h)
apply_all_needs_enter m (e ∷ es) h n = elim (leave_idle m.state e h) [
  | inl p ↦ Memᴰ.head (sym p)
  | inr q ↦ Memᴰ.tail (apply_all_needs_enter (apply m e).0 es q n)
]

back_to_idle :
    (s : State) (e : Event) → s ≢ State.idle → (e ≡ Event.done) ⊎ (next_state s e ≢ State.idle)
unfolding next_state
back_to_idle State.idle e h = absurd (h refl)
back_to_idle State.enter e h = ground arith
back_to_idle State.hedge_ok e h = ground arith
back_to_idle State.exit e h = ground arith

-- A machine that is not idle becomes idle by the event `done` only.
pub apply_all_needs_done :
    (m : StateMachine) (es : List Event)
    → m.state ≢ State.idle
    → (apply_all m es).state ≡ State.idle
    → Memᴰ Event.done es
unfolding apply_all apply
apply_all_needs_done m [] h n = absurd (h n)
apply_all_needs_done m (e ∷ es) h n = elim (back_to_idle m.state e h) [
  | inl p ↦ Memᴰ.head (sym p)
  | inr q ↦ Memᴰ.tail (apply_all_needs_done (apply m e).0 es q n)
]
