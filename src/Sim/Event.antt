-- ===== src/Sim/Event.antt =====
-- internal/sim/state.go, agents.go, plan.go, journal.go, gru.go: the event types that the modelled arms of
-- `Apply` take, each with its payload's fields in their order (the agent first). Decoding JSON is
-- left out. Counts and needs in a payload are natural numbers: each is a moved amount or a clamped
-- need, as its comment in agents.go says.
use script_world.Prelude.{ℕ, Option, List}
use script_world.Prelude.Int.{ℤ}
use script_world.Clock.Ladder.{Speed}
use script_world.Sim.Item.{Kind}
use script_world.Sim.Recipe.{Goal, StructureKind}
use script_world.Sim.Journal.{Text}
use script_world.Sim.State.{State, MemoryPlace, Needs, PlanStep}

pub record IntentSetPayload : Type 0 where
  pub goal : Goal
  pub target_x : ℤ
  pub target_y : ℤ
  pub res_x : ℤ
  pub res_y : ℤ
  pub kind : Option Kind
  pub qty : ℕ
  pub reason : Text

pub record MemoryAddedPayload : Type 0 where
  pub text : Text
  pub salience : ℕ
  pub subject : ℤ
  pub tone : ℤ
  pub where_at : Option MemoryPlace
  pub why : Text
  pub conv : ℕ
  pub origin : Text

pub record GovernorPayload : Type 0 where
  pub requested : Speed
  pub from : Speed
  pub to : Speed

-- The cook stations; the arm compares with "oven" only.
pub data Station : Type 0 where
  at_oven elsewhere : Station

pub data Event : Type 0 where
  -- world.created, agent.thought, cog.*, agent.intent_rejected, sim.fire_burned_out, daemon.* and
  -- the types that no arm names: recorded history with no effect.
  recorded : Event
  world_migrated : State → Event
  clock_paused clock_resumed clock_recovered : Event
  clock_speed_set : Speed → Event
  clock_governor_shed clock_governor_recovered : GovernorPayload → Event
  clock_degraded : ℕ → Event
  night_started day_started : Event
  memory_added : ℤ → MemoryAddedPayload → Event
  journal_entry_written : ℤ → Text → Event
  journal_entry_deleted : ℤ → ℕ → Event
  plan_set : ℤ → List PlanStep → Event
  plan_step_started plan_expired : ℤ → Event
  intent_set : ℤ → IntentSetPayload → Event
  work_started : ℤ → ℕ → Event
  intent_done : ℤ → Event
  moved : ℤ → ℤ → ℤ → Event
  slept woke : ℤ → Event
  needs_changed : ℤ → Needs → Event
  talked : ℤ → ℤ → Event
  -- From, to, and until.
  hailed : ℤ → ℤ → ℕ → Event
  hail_met hail_expired : ℤ → ℤ → Event
  forage_regrown : ℤ → ℤ → Event
  foraged chopped hunted quarried collected_water : ℤ → ℤ → ℤ → Event
  built : ℤ → StructureKind → ℤ → ℤ → Event
  -- Meals, cooked, raw, and the food need afterwards.
  ate : ℤ → ℕ → ℕ → ℕ → ℕ → Event
  crafted : ℤ → Kind → Event
  -- Station, consumed, produced, and the produced kind.
  cooked : ℤ → Station → ℕ → ℕ → Kind → Event
  bathed : ℤ → ℕ → ℕ → Event
  refueled : ℤ → ℤ → ℤ → ℕ → Event
  spear_broke axe_broke : ℤ → Event
  wall_chipped wall_destroyed wall_repaired : ℤ → ℤ → ℤ → Event
  dropped picked_up deposited withdrew : ℤ → ℤ → ℤ → Kind → ℕ → Event
  food_rotted : ℤ → ℤ → Kind → ℕ → Event
  died : ℤ → Event
  -- The night, and the tile.
  gru_emerged : ℕ → ℤ → ℤ → Event
  gru_moved : ℤ → ℤ → Event
  -- The agent, and the gru's tile.
  gru_sighted : ℤ → ℤ → ℤ → Event
  -- The agent, and its health afterwards.
  gru_attacked : ℤ → ℕ → Event
  gru_withdrew : ℕ → Event
