-- ===== src/Sim/Loop.antt =====
-- internal/sim/loop.go: the clock commands of `handleCommand`: pause, resume, set_speed and govern,
-- and what they do to the state through the reducer. The event's record in the store, the replies
-- and the other commands are not modelled.
pub mod Ceiling
use script_world.Prelude.{
  ℕ, suc, Bool, true, false, not, Option, none, some, ltb, ◌==◌, if◌then◌else◌,
}
use script_world.Clock.Ladder.{Speed, unset, unknown, speed_eq, ladder_index}
use script_world.Sim.State.{State}
use script_world.Sim.Event.{Event, GovernorPayload}
use script_world.Sim.Apply.{apply}

pub data Command : Type 0 where
  pause resume : Command
  set_speed govern : Speed → Command

-- `ParseSpeed` succeeds.
unfoldable pub is_speed : Speed → Bool
is_speed unset = false
is_speed (unknown _) = false
is_speed _ = true

unfoldable pub requested_ceiling : State → Speed
unfolding speed_eq
requested_ceiling s = if speed_eq s.requested_speed unset then s.speed else s.requested_speed

-- The recovery above the ceiling is dropped.
unfoldable pub above_ceiling : State → ℕ → Bool
unfolding requested_ceiling ladder_index
above_ceiling s i = elim (ladder_index (requested_ceiling s)) [ none ↦ false | some k ↦ ltb k i ]

-- The case "govern" once both speeds are on the ladder, at their positions.
unfoldable pub govern_at : State → Speed → ℕ → ℕ → Option Event
unfolding speed_eq requested_ceiling above_ceiling
govern_at s to from i =
    let payload : GovernorPayload = record {
      requested = requested_ceiling s;
      from = s.speed;
      to = to;
    } in
    if speed_eq to s.speed
    then none
    else if suc i == from
    then some (Event.clock_governor_shed payload)
    else if i == suc from
    then if above_ceiling s i then none else some (Event.clock_governor_recovered payload)
    else none

unfoldable pub govern_event : State → Speed → Option Event
unfolding ladder_index govern_at
govern_event s to = if s.paused then none else elim (ladder_index s.speed) [
  | none ↦ none
  | some from ↦ elim (ladder_index to) [ none ↦ none | some i ↦ govern_at s to from i ]
]

-- The event that a command emits, if any. A speed that does not parse is an error.
unfoldable pub command_event : State → Command → Option Event
unfolding is_speed speed_eq govern_event
command_event s pause = if s.paused then none else some Event.clock_paused
command_event s resume = if s.paused then some Event.clock_resumed else none
command_event s (set_speed speed) =
    if not (is_speed speed)
    then none
    else if speed_eq speed s.speed
    then none
    else some (Event.clock_speed_set speed)
command_event s (govern to) = govern_event s to

-- The state after the command: its event, at the state's tick, goes through the reducer.
unfoldable pub handle_command : State → Command → State
unfolding command_event apply
handle_command s c = elim (command_event s c) [ none ↦ s | some e ↦ (apply s s.tick e).0 ]
