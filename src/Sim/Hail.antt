-- ===== src/Sim/Hail.antt =====
-- internal/sim/hail.go: who may be hailed, the pause, and the sweep of each tick. What the tests
-- read of a meeting (`meetingActive`, and `IsExiled` of an agent) is an argument.
pub mod Waiting
pub mod Turns
pub mod Sweep
use script_world.Prelude.{
  ℕ, suc, ◌+◌, Bool, false, not, ◌&&◌, ◌||◌, none, some, List, [], ◌∷◌, ◌++◌, leb, ltb,
  if◌then◌else◌,
}
use script_world.Prelude.Int.{ℤ, pos, eqb_ℤ}
use script_world.Sim.Recipe.{goal_eq, attend_meeting}
use script_world.Sim.State.{State, Agent, AgentHail, agent_at}
use script_world.Sim.Guard.{distance}
use script_world.Sim.Event.{Event}

abbrev pub hail_radius : ℕ
hail_radius = 64

abbrev pub hail_window_ticks : ℕ
hail_window_ticks = 480

unfoldable pub hail_paused : Agent → ℕ → Bool
hail_paused a tick = elim a.hail [ none ↦ false | some h ↦ ltb tick h.until ]

-- Some agent waits for the one of the index.
unfoldable pub awaited : List Agent → ℤ → Bool
awaited [] i = false
awaited (a ∷ rest) i = elim a.hail [ none ↦ false | some h ↦ eqb_ℤ h.by i ] || awaited rest i

unfoldable pub attends : Agent → Bool
unfolding goal_eq
attends a = elim a.intent [ none ↦ false | some i ↦ goal_eq i.goal attend_meeting ]

-- The part of `hailable` after the range check on the target, whose agent is `t`.
unfoldable pub may_hail : State → Bool → (ℤ → Bool) → ℤ → ℤ → Agent → Bool
unfolding awaited attends agent_at
may_hail s meeting exiled hailer target t = if t.dead || t.asleep then false else elim t.hail [
  | some _ ↦ false
  | none ↦
      if awaited s.agents target
      then false
      else if attends t
      then false
      else if meeting && not (exiled target)
      then false
      else elim (agent_at s.agents hailer) [
        | none ↦ false
        | some h ↦ leb (distance h t) hail_radius
      ]
]

-- A hailer out of range panics in the code; the landing passes an acting agent's index.
unfoldable pub hailable : State → Bool → (ℤ → Bool) → ℤ → ℤ → Bool
unfolding may_hail agent_at
hailable s meeting exiled hailer target = elim (agent_at s.agents target) [
  | none ↦ false
  | some t ↦ if eqb_ℤ target hailer then false else may_hail s meeting exiled hailer target t
]

-- The hailer stands beside the agent, alive and awake.
unfoldable pub arrived : State → AgentHail → Agent → Bool
unfolding agent_at
arrived s hail a = elim (agent_at s.agents hail.by) [
  | none ↦ false
  | some h ↦ not h.dead && not h.asleep && leb (distance h a) 1
]

-- One turn of the loop of `hailStep`. `talk` is what `talkEvents` emits for the pair.
unfoldable pub hail_beat : State → (ℤ → ℤ → List Event) → ℕ → ℤ → Agent → List Event
unfolding arrived
hail_beat s talk next i a = elim a.hail [
  | none ↦ []
  | some hail ↦
      if arrived s hail a
      then Event.hail_met hail.by i ∷ talk hail.by i
      else if leb hail.until next
      then Event.hail_expired hail.by i ∷ []
      else []
]

-- The loop over the agents from an index on.
unfoldable pub hail_sweep : State → (ℤ → ℤ → List Event) → ℕ → ℕ → List Agent → List Event
unfolding hail_beat
hail_sweep s talk next i [] = []
hail_sweep s talk next i (a ∷ rest) =
    hail_beat s talk next (pos i) a ++ hail_sweep s talk next (suc i) rest

unfoldable pub hail_step : State → (ℤ → ℤ → List Event) → ℕ → List Event
unfolding hail_sweep
hail_step s talk next = hail_sweep s talk next 0 s.agents
