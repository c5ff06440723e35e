-- ===== src/Sim/World/Replay.antt =====
-- Every modelled event keeps the world well formed, and so does a log of them.
use script_world.Prelude.{ℕ, ◌≤◌, ◌≡◌, true, false, some}
use script_world.Sim.State.{State, Agent, agent_at}
use script_world.Sim.Event.{Event}
use script_world.Sim.Apply.{apply}
use script_world.Sim.World.{IsWorld}
use script_world.Sim.World.Pace.{
  paused-IsWorld, night-IsWorld, speed_set-IsWorld, governor_shed-IsWorld,
  governor_recovered-IsWorld, degraded-IsWorld, recovered-IsWorld, migrated-IsWorld,
}
use script_world.Sim.World.Mind.{
  memory_added-IsWorld, plan_set-IsWorld, plan_step_started-IsWorld, plan_expired-IsWorld,
  intent_set-IsWorld, work_started-IsWorld, intent_done-IsWorld, moved-IsWorld, slept-IsWorld,
  woke-IsWorld, needs_changed-IsWorld, hailed-IsWorld, hail_lifted-IsWorld, talked-IsWorld,
  journal_written-IsWorld, journal_deleted-IsWorld,
}
use script_world.Sim.World.Work.{
  foraged-IsWorld, chopped-IsWorld, hunted-IsWorld, quarried-IsWorld, collected_water-IsWorld,
  forage_regrown-IsWorld, ate-IsWorld, bathed-IsWorld, spear_broke-IsWorld, axe_broke-IsWorld,
  cooked-IsWorld, refueled-IsWorld, built-IsWorld, crafted-IsWorld, IsCraftable,
}
use script_world.Sim.World.Walls.{
  wall_chipped-IsWorld, wall_destroyed-IsWorld, wall_repaired-IsWorld,
}
use script_world.Sim.World.Storage.{
  dropped-IsWorld, picked_up-IsWorld, food_rotted-IsWorld, died-IsWorld, deposited-IsWorld,
  withdrew-IsWorld,
}
use script_world.Sim.World.GruSafe.{
  gru_emerged-IsWorld, gru_moved-IsWorld, gru_sighted-IsWorld, gru_attacked-IsWorld,
  gru_withdrew-IsWorld,
}

-- What the emitters guarantee of an event: the executor checks a recipe's inputs and its bulk
-- before it emits `agent.crafted`, and the raw food before `agent.cooked`; a migration carries a
-- well-formed world.
abbrev pub IsEmitted : State → Event → Type 0
IsEmitted s (Event.world_migrated p) = IsWorld p
IsEmitted s (Event.crafted i k) = (a : Agent) → agent_at s.agents i ≡ some a → IsCraftable a.inv k
IsEmitted s (Event.cooked i at n m k) =
    (m ≤ n) × ((a : Agent) → agent_at s.agents i ≡ some a → n ≤ a.inv.food_raw)
IsEmitted s _ = Unit {0}

-- An event that was emitted as its emitters guarantee keeps a well-formed world well formed, also
-- where the reducer refuses it: pouches and chests within their limits, tools in ascending order,
-- standing walls within their health, one pile on a tile and none empty, journals in order, and the
-- effective rate that of the speed while not degraded.
pub apply-IsWorld :
    (s : State) (tick : ℕ) (e : Event) → IsWorld s → IsEmitted s e → IsWorld (apply s tick e).0
unfolding apply
apply-IsWorld s tick Event.recorded v h = v
apply-IsWorld s tick (Event.world_migrated p) v h = migrated-IsWorld s v p h
apply-IsWorld s tick Event.clock_paused v h = paused-IsWorld s v true
apply-IsWorld s tick Event.clock_resumed v h = paused-IsWorld s v false
apply-IsWorld s tick Event.clock_recovered v h = recovered-IsWorld s v
apply-IsWorld s tick (Event.clock_speed_set speed) v h = speed_set-IsWorld s v speed
apply-IsWorld s tick (Event.clock_governor_shed p) v h = governor_shed-IsWorld s v p
apply-IsWorld s tick (Event.clock_governor_recovered p) v h = governor_recovered-IsWorld s v p
apply-IsWorld s tick (Event.clock_degraded rate) v h = degraded-IsWorld s v rate
apply-IsWorld s tick Event.night_started v h = night-IsWorld s v true
apply-IsWorld s tick Event.day_started v h = night-IsWorld s v false
apply-IsWorld s tick (Event.memory_added i p) v h = memory_added-IsWorld s v tick i p
apply-IsWorld s tick (Event.journal_entry_written i text) v h =
    journal_written-IsWorld s v tick i text
apply-IsWorld s tick (Event.journal_entry_deleted i id) v h = journal_deleted-IsWorld s v i id
apply-IsWorld s tick (Event.plan_set i steps) v h = plan_set-IsWorld s v i steps
apply-IsWorld s tick (Event.plan_step_started i) v h = plan_step_started-IsWorld s v i
apply-IsWorld s tick (Event.plan_expired i) v h = plan_expired-IsWorld s v i
apply-IsWorld s tick (Event.intent_set i p) v h = intent_set-IsWorld s v tick i p
apply-IsWorld s tick (Event.work_started i t) v h = work_started-IsWorld s v i t
apply-IsWorld s tick (Event.intent_done i) v h = intent_done-IsWorld s v tick i
apply-IsWorld s tick (Event.moved i x y) v h = moved-IsWorld s v i x y
apply-IsWorld s tick (Event.slept i) v h = slept-IsWorld s v i
apply-IsWorld s tick (Event.woke i) v h = woke-IsWorld s v tick i
apply-IsWorld s tick (Event.needs_changed i n) v h = needs_changed-IsWorld s v i n
apply-IsWorld s tick (Event.talked i k) v h = talked-IsWorld s v tick i k
apply-IsWorld s tick (Event.hailed from to until) v h = hailed-IsWorld s v from to until
apply-IsWorld s tick (Event.hail_met from to) v h = hail_lifted-IsWorld s v to
apply-IsWorld s tick (Event.hail_expired from to) v h = hail_lifted-IsWorld s v to
apply-IsWorld s tick (Event.forage_regrown x y) v h = forage_regrown-IsWorld s v x y
apply-IsWorld s tick (Event.foraged i x y) v h = foraged-IsWorld s v tick i x y
apply-IsWorld s tick (Event.chopped i x y) v h = chopped-IsWorld s v tick i x y
apply-IsWorld s tick (Event.hunted i x y) v h = hunted-IsWorld s v tick i x y
apply-IsWorld s tick (Event.quarried i x y) v h = quarried-IsWorld s v tick i x y
apply-IsWorld s tick (Event.collected_water i x y) v h = collected_water-IsWorld s v tick i
apply-IsWorld s tick (Event.built i kind x y) v h = built-IsWorld s v tick i kind x y
apply-IsWorld s tick (Event.ate i m c r food) v h = ate-IsWorld s v i m c r food
apply-IsWorld s tick (Event.crafted i kind) v h = crafted-IsWorld s v tick i kind h
apply-IsWorld s tick (Event.cooked i at n m kind) v h =
    cooked-IsWorld s v tick i at n m kind h.0 h.1
apply-IsWorld s tick (Event.bathed i morale warmth) v h = bathed-IsWorld s v tick i morale warmth
apply-IsWorld s tick (Event.refueled i x y until) v h = refueled-IsWorld s v tick i x y until
apply-IsWorld s tick (Event.spear_broke i) v h = spear_broke-IsWorld s v i
apply-IsWorld s tick (Event.axe_broke i) v h = axe_broke-IsWorld s v i
apply-IsWorld s tick (Event.wall_chipped i x y) v h = wall_chipped-IsWorld s v i x y
apply-IsWorld s tick (Event.wall_destroyed i x y) v h = wall_destroyed-IsWorld s v tick i x y
apply-IsWorld s tick (Event.wall_repaired i x y) v h = wall_repaired-IsWorld s v tick i x y
apply-IsWorld s tick (Event.dropped i x y kind n) v h = dropped-IsWorld s v tick i x y kind n
apply-IsWorld s tick (Event.picked_up i x y kind n) v h = picked_up-IsWorld s v tick i x y kind n
apply-IsWorld s tick (Event.deposited i x y kind n) v h = deposited-IsWorld s v tick i x y kind n
apply-IsWorld s tick (Event.withdrew i x y kind n) v h = withdrew-IsWorld s v tick i x y kind n
apply-IsWorld s tick (Event.food_rotted x y kind n) v h = food_rotted-IsWorld s v tick x y kind n
apply-IsWorld s tick (Event.died i) v h = died-IsWorld s v tick i
apply-IsWorld s tick (Event.gru_emerged night x y) v h = gru_emerged-IsWorld s v x y
apply-IsWorld s tick (Event.gru_moved x y) v h = gru_moved-IsWorld s v x y
apply-IsWorld s tick (Event.gru_sighted i x y) v h = gru_sighted-IsWorld s v i
apply-IsWorld s tick (Event.gru_attacked i health) v h = gru_attacked-IsWorld s v tick i health
apply-IsWorld s tick (Event.gru_withdrew day) v h = gru_withdrew-IsWorld s v
