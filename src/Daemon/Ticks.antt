-- ===== src/Daemon/Ticks.antt =====
-- The reducer leaves the clock of the state to the replay: only a migration writes it.
use script_world.Prelude.{ℕ, ◌≡◌, refl, Bool, true, false, arith}
use script_world.Prelude.Int.{ℤ, pos, negsuc}
use script_world.Sim.State.{State, Agent, put_agent}
use script_world.Sim.Event.{Event}
use script_world.Sim.Apply.{apply}
use script_world.Sim.Apply.Base.{on_agent}
use script_world.Sim.Apply.ClockArms.{
  apply_paused, apply_speed_set, apply_governor_shed, apply_governor_recovered, apply_degraded,
  apply_recovered, apply_night, apply_migrated,
}
use script_world.Sim.Apply.MindArms.{
  delete_from, apply_memory_added, apply_journal_written, apply_journal_deleted, apply_plan_set,
  apply_plan_step_started, apply_plan_expired, apply_intent_set, apply_work_started,
  apply_intent_done, apply_moved, apply_slept, apply_woke, apply_needs_changed, apply_hailed,
  apply_hail_lifted, apply_talked,
}
use script_world.Sim.Apply.WorkArms.{
  apply_foraged, apply_chopped, apply_hunted, apply_quarried, apply_collected_water,
  apply_forage_regrown, apply_built, apply_ate, apply_crafted, apply_cooked, apply_bathed,
  apply_refueled, apply_spear_broke, apply_axe_broke,
}
use script_world.Sim.Apply.WallArms.{apply_wall_chipped, apply_wall_destroyed, apply_wall_repaired}
use script_world.Sim.Apply.StorageArms.{
  apply_dropped, apply_picked_up, apply_deposited, apply_withdrew, apply_food_rotted, apply_died,
}
use script_world.Sim.Apply.GruArms.{
  apply_gru_emerged, apply_gru_moved, apply_gru_sighted, apply_gru_attacked, apply_gru_withdrew,
}

abbrev pub is_migration : Event → Bool
is_migration (Event.world_migrated p) = true
is_migration _ = false

put_agent_tick : (s : State) (i : ℤ) (a : Agent) → (put_agent s i a).tick ≡ s.tick
unfolding put_agent
put_agent_tick s (pos n) a = refl
put_agent_tick s (negsuc n) a = refl

pub apply_tick :
    (s : State) (tick : ℕ) (e : Event) → is_migration e ≡ false → (apply s tick e).0.tick ≡ s.tick
unfolding apply on_agent delete_from apply_paused apply_speed_set apply_governor_shed
    apply_governor_recovered apply_degraded apply_recovered apply_night apply_migrated
    apply_memory_added apply_journal_written apply_journal_deleted apply_plan_set
    apply_plan_step_started apply_plan_expired apply_intent_set apply_work_started apply_intent_done
    apply_moved apply_slept apply_woke apply_needs_changed apply_hailed apply_hail_lifted
    apply_talked apply_foraged apply_chopped apply_hunted apply_quarried apply_collected_water
    apply_forage_regrown apply_built apply_ate apply_crafted apply_cooked apply_bathed
    apply_refueled apply_spear_broke apply_axe_broke apply_wall_chipped apply_wall_destroyed
    apply_wall_repaired apply_dropped apply_picked_up apply_deposited apply_withdrew
    apply_food_rotted apply_died apply_gru_emerged apply_gru_moved apply_gru_sighted
    apply_gru_attacked apply_gru_withdrew
apply_tick s tick Event.recorded hm = refl
apply_tick s tick (Event.world_migrated p) hm = absurd (cc hm)
apply_tick s tick Event.clock_paused hm = grind (arith, put_agent_tick)
apply_tick s tick Event.clock_resumed hm = grind (arith, put_agent_tick)
apply_tick s tick Event.clock_recovered hm = grind (arith, put_agent_tick)
apply_tick s tick (Event.clock_speed_set speed) hm = grind (arith, put_agent_tick)
apply_tick s tick (Event.clock_governor_shed p) hm = grind (arith, put_agent_tick)
apply_tick s tick (Event.clock_governor_recovered p) hm = grind (arith, put_agent_tick)
apply_tick s tick (Event.clock_degraded rate) hm = grind (arith, put_agent_tick)
apply_tick s tick Event.night_started hm = grind (arith, put_agent_tick)
apply_tick s tick Event.day_started hm = grind (arith, put_agent_tick)
apply_tick s tick (Event.memory_added i p) hm = grind (arith, put_agent_tick)
apply_tick s tick (Event.journal_entry_written i text) hm = grind (arith, put_agent_tick)
apply_tick s tick (Event.journal_entry_deleted i id) hm = grind (arith, put_agent_tick)
apply_tick s tick (Event.plan_set i steps) hm = grind (arith, put_agent_tick)
apply_tick s tick (Event.plan_step_started i) hm = grind (arith, put_agent_tick)
apply_tick s tick (Event.plan_expired i) hm = grind (arith, put_agent_tick)
apply_tick s tick (Event.intent_set i p) hm = grind (arith, put_agent_tick)
apply_tick s tick (Event.work_started i t) hm = grind (arith, put_agent_tick)
apply_tick s tick (Event.intent_done i) hm = grind (arith, put_agent_tick)
apply_tick s tick (Event.moved i x y) hm = grind (arith, put_agent_tick)
apply_tick s tick (Event.slept i) hm = grind (arith, put_agent_tick)
apply_tick s tick (Event.woke i) hm = grind (arith, put_agent_tick)
apply_tick s tick (Event.needs_changed i n) hm = grind (arith, put_agent_tick)
apply_tick s tick (Event.talked i k) hm = grind (arith, put_agent_tick)
apply_tick s tick (Event.hailed from to until) hm = grind (arith, put_agent_tick)
apply_tick s tick (Event.hail_met from to) hm = grind (arith, put_agent_tick)
apply_tick s tick (Event.hail_expired from to) hm = grind (arith, put_agent_tick)
apply_tick s tick (Event.forage_regrown x y) hm = grind (arith, put_agent_tick)
apply_tick s tick (Event.foraged i x y) hm = grind (arith, put_agent_tick)
apply_tick s tick (Event.chopped i x y) hm = grind (arith, put_agent_tick)
apply_tick s tick (Event.hunted i x y) hm = grind (arith, put_agent_tick)
apply_tick s tick (Event.quarried i x y) hm = grind (arith, put_agent_tick)
apply_tick s tick (Event.collected_water i x y) hm = grind (arith, put_agent_tick)
apply_tick s tick (Event.built i kind x y) hm = grind (arith, put_agent_tick)
apply_tick s tick (Event.ate i m c r food) hm = grind (arith, put_agent_tick)
apply_tick s tick (Event.crafted i kind) hm = grind (arith, put_agent_tick)
apply_tick s tick (Event.cooked i at n m kind) hm = grind (arith, put_agent_tick)
apply_tick s tick (Event.bathed i morale warmth) hm = grind (arith, put_agent_tick)
apply_tick s tick (Event.refueled i x y until) hm = grind (arith, put_agent_tick)
apply_tick s tick (Event.spear_broke i) hm = grind (arith, put_agent_tick)
apply_tick s tick (Event.axe_broke i) hm = grind (arith, put_agent_tick)
apply_tick s tick (Event.wall_chipped i x y) hm = grind (arith, put_agent_tick)
apply_tick s tick (Event.wall_destroyed i x y) hm = grind (arith, put_agent_tick)
apply_tick s tick (Event.wall_repaired i x y) hm = grind (arith, put_agent_tick)
apply_tick s tick (Event.dropped i x y kind n) hm = grind (arith, put_agent_tick)
apply_tick s tick (Event.picked_up i x y kind n) hm = grind (arith, put_agent_tick)
apply_tick s tick (Event.deposited i x y kind n) hm = grind (arith, put_agent_tick)
apply_tick s tick (Event.withdrew i x y kind n) hm = grind (arith, put_agent_tick)
apply_tick s tick (Event.food_rotted x y kind n) hm = grind (arith, put_agent_tick)
apply_tick s tick (Event.died i) hm = grind (arith, put_agent_tick)
apply_tick s tick (Event.gru_emerged night x y) hm = grind (arith, put_agent_tick)
apply_tick s tick (Event.gru_moved x y) hm = grind (arith, put_agent_tick)
apply_tick s tick (Event.gru_sighted i x y) hm = grind (arith, put_agent_tick)
apply_tick s tick (Event.gru_attacked i health) hm = grind (arith, put_agent_tick)
apply_tick s tick (Event.gru_withdrew day) hm = grind (arith, put_agent_tick)
