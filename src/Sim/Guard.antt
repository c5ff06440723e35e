-- ===== src/Sim/Guard.antt =====
-- internal/sim/guard.go: the guards of plan steps, evaluated against the state. The reason for a
-- rejection is text and not modelled.
pub mod Laws
use script_world.Prelude.{
  ℕ, ◌+◌, Bool, false, not, Option, none, some, leb, ltb, ◌==◌, if◌then◌else◌,
}
use script_world.Prelude.Int.{ℤ, dist_ℤ}
use script_world.Sim.State.{
  State, Agent, Guard, agent_at, target_alive, target_present, not_superseded, after_tick,
  before_tick, unknown_guard,
}

abbrev pub present_radius : ℕ
present_radius = 16

-- `abs(a.X-b.X) + abs(a.Y-b.Y)`
abbrev pub distance : Agent → Agent → ℕ
distance a b = dist_ℤ a.x b.x + dist_ℤ a.y b.y

-- `g.EvalAt`; `none` stands for the panic of `target_present` for an acting agent out of range.
unfoldable pub eval_at : Guard → State → ℤ → ℕ → Option Bool
unfolding agent_at
eval_at g s agent tick = elim g.type [
  | target_alive ↦ elim (agent_at s.agents g.target) [
    | none ↦ some false
    | some t ↦ some (not t.dead)
  ]
  | target_present ↦ elim (agent_at s.agents g.target) [
    | none ↦ some false
    | some t ↦ if t.dead then some false else elim (agent_at s.agents agent) [
      | none ↦ none
      | some a ↦ some (leb (distance a t) present_radius)
    ]
  ]
  | not_superseded ↦ elim (agent_at s.agents agent) [
    | none ↦ some false
    | some a ↦ some (a.generation == g.generation)
  ]
  | after_tick ↦ some (leb g.tick tick)
  | before_tick ↦ some (ltb tick g.tick)
  | unknown_guard _ ↦ some false
]

-- `g.Eval`, at the tick of the state.
unfoldable pub eval : Guard → State → ℤ → Option Bool
unfolding eval_at
eval g s agent = eval_at g s agent s.tick
