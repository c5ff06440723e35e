-- ===== src/Daemon.antt =====
-- internal/daemon/daemon.go: `recoverState`, the replay of the event log that rebuilds a world's
-- state on boot. The newest valid snapshot (or the new state) and the log after it, in the order of
-- the store, are the arguments; the store that reads them and the snapshot's JSON are not modelled.
pub mod Ticks
pub mod Sampler
pub mod Recovery
use script_world.Prelude.{ℕ, none, some, List, [], ◌∷◌, ltb, if◌then◌else◌, ◌⊎◌, inl, inr}
use script_world.Sim.State.{State}
use script_world.Sim.Event.{Event}
use script_world.Sim.Apply.{apply}
use script_world.Sim.Apply.Base.{ApplyError}

-- A recorded event, under its tick.
abbrev pub Recorded : Type 0
Recorded = ℕ × Event

-- `if e.Tick > state.Tick { state.Tick = e.Tick }`.
unfoldable pub advance : State → ℕ → State
advance s tick = if ltb s.tick tick then record s { tick = tick } else s

-- The function that `recoverState` gives to `ReplayEvents`.
unfoldable pub replay_event : State → Recorded → State ⊎ ApplyError
unfolding apply advance
replay_event s (tick, e) =
    let (s', err) = apply s tick e in elim err [ none ↦ inl (advance s' tick) | some x ↦ inr x ]

-- The replay, which stops at the first event that the reducer refuses.
unfoldable pub recover_state : State → List Recorded → State ⊎ ApplyError
unfolding replay_event
recover_state s [] = inl s
recover_state s (r ∷ log) = elim (replay_event s r) [
  | inl s' ↦ recover_state s' log
  | inr x ↦ inr x
]
