-- ===== src/Sim/Apply/Base.antt =====
-- internal/sim/state.go: the shape that the arms of `Apply` share. An arm returns the state that it
-- leaves and its error; an arm that fails may have written before, as the code does.
use script_world.Prelude.{ℕ, Option, none, some}
use script_world.Prelude.Int.{ℤ}
use script_world.Sim.Item.{Kind}
use script_world.Sim.Journal.{JournalError}
use script_world.Sim.State.{State, Agent, agent_at}

pub data ApplyError : Type 0 where
  agent_out_of_range : ℤ → ApplyError
  no_recipe : Kind → ApplyError
  journal : JournalError → ApplyError
  no_journal_entry : ℕ → ApplyError

abbrev pub Outcome : Type 0
Outcome = State × Option ApplyError

abbrev pub done : State → Outcome
done s = (s, none)

-- The closure `agent` of `Apply`, and what an arm does with the agent that it returns.
unfoldable pub on_agent : State → ℤ → (Agent → Outcome) → Outcome
on_agent s p arm = elim (agent_at s.agents p) [
  | none ↦ (s, some (agent_out_of_range p))
  | some a ↦ arm a
]

-- `a.Intent = nil; a.IdleSince = e.Tick`.
abbrev pub finish : ℕ → Agent → Agent
finish tick a = record a { intent = none; idle_since = tick }
