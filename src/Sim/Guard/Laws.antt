-- ===== src/Sim/Guard/Laws.antt =====
-- internal/sim/guard.go: what each guard asks of the state.
use script_world.Prelude.{ℕ, ◌≤◌, ◌<◌, ◌≡◌, ◌↔◌, true, false, Option, none, some, arith}
use script_world.Prelude.Int.{ℤ}
use script_world.Sim.State.{
  State, Agent, Guard, agent_at, target_alive, target_present, not_superseded, after_tick,
  before_tick, unknown_guard,
}
use script_world.Sim.Guard.{distance, eval_at, present_radius}

abbrev pub Alive : Option Agent → Type 0
Alive none = ⊥
Alive (some t) = t.dead ≡ false

abbrev pub Within : ℕ → Option Agent → Option Agent → Type 0
Within r (some a) (some t) = distance a t ≤ r
Within r _ _ = ⊥

abbrev pub Formed : ℕ → Option Agent → Type 0
Formed n none = ⊥
Formed n (some a) = a.generation ≡ n

-- The guard's assumption, for an acting agent at a tick.
abbrev pub Holds : Guard → State → ℤ → ℕ → Type 0
Holds g s i tick = elim g.type [
  | target_alive ↦ Alive (agent_at s.agents g.target)
  | target_present ↦
      Alive (agent_at s.agents g.target)
      × Within present_radius (agent_at s.agents i) (agent_at s.agents g.target)
  | not_superseded ↦ Formed g.generation (agent_at s.agents i)
  | after_tick ↦ g.tick ≤ tick
  | before_tick ↦ tick < g.tick
  | unknown_guard _ ↦ ⊥
]

-- A guard evaluates to true exactly where its assumption holds: the target is in range and alive;
-- it is so and within 16 tiles of the acting agent; the agent's generation is the guard's; the
-- tick is the guard's or later; the tick is before the guard's. A guard of an unknown type never
-- evaluates to true.
pub eval_at_iff :
    (g : Guard) (s : State) (agent : ℤ) (tick : ℕ)
    → (eval_at g s agent tick ≡ some true) ↔ Holds g s agent tick
unfolding eval_at
eval_at_iff g s agent tick = ground arith
