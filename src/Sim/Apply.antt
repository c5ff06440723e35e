-- ===== src/Sim/Apply.antt =====
-- internal/sim/state.go: `State.Apply`, the reducer. The arms that it hands to the social,
-- consolidation, chronicle, metatron, miracle and governance files are not modelled, so their
-- types are no constructors of `Event`.
pub mod Base
pub mod ClockArms
pub mod MindArms
pub mod WorkArms
pub mod WallArms
pub mod StorageArms
pub mod GruArms
pub mod Errors
use script_world.Prelude.{ℕ, true, false}
use script_world.Sim.State.{State}
use script_world.Sim.Event
use script_world.Sim.Event.{Event}
use Base.{Outcome, done}
use ClockArms.{
  apply_paused, apply_speed_set, apply_governor_shed, apply_governor_recovered, apply_degraded,
  apply_recovered, apply_night, apply_migrated,
}
use MindArms.{
  apply_memory_added, apply_journal_written, apply_journal_deleted, apply_plan_set,
  apply_plan_step_started, apply_plan_expired, apply_intent_set, apply_work_started,
  apply_intent_done, apply_moved, apply_slept, apply_woke, apply_needs_changed, apply_hailed,
  apply_hail_lifted, apply_talked,
}
use WorkArms.{
  apply_foraged, apply_chopped, apply_hunted, apply_quarried, apply_collected_water,
  apply_forage_regrown, apply_built, apply_ate, apply_crafted, apply_cooked, apply_bathed,
  apply_refueled, apply_spear_broke, apply_axe_broke,
}
use WallArms.{apply_wall_chipped, apply_wall_destroyed, apply_wall_repaired}
use StorageArms.{
  apply_dropped, apply_picked_up, apply_deposited, apply_withdrew, apply_food_rotted, apply_died,
}
use GruArms.{
  apply_gru_emerged, apply_gru_moved, apply_gru_sighted, apply_gru_attacked, apply_gru_withdrew,
}

-- The `switch` of `Apply`, at the event's tick.
unfoldable pub apply : State → ℕ → Event → Outcome
apply s tick Event.recorded = done s
apply s tick (Event.world_migrated p) = apply_migrated s p
apply s tick Event.clock_paused = apply_paused s true
apply s tick Event.clock_resumed = apply_paused s false
apply s tick Event.clock_recovered = apply_recovered s
apply s tick (Event.clock_speed_set speed) = apply_speed_set s speed
apply s tick (Event.clock_governor_shed p) = apply_governor_shed s p
apply s tick (Event.clock_governor_recovered p) = apply_governor_recovered s p
apply s tick (Event.clock_degraded rate) = apply_degraded s rate
apply s tick Event.night_started = apply_night s true
apply s tick Event.day_started = apply_night s false
apply s tick (Event.memory_added i p) = apply_memory_added s tick i p
apply s tick (Event.journal_entry_written i text) = apply_journal_written s tick i text
apply s tick (Event.journal_entry_deleted i id) = apply_journal_deleted s i id
apply s tick (Event.plan_set i steps) = apply_plan_set s i steps
apply s tick (Event.plan_step_started i) = apply_plan_step_started s i
apply s tick (Event.plan_expired i) = apply_plan_expired s i
apply s tick (Event.intent_set i p) = apply_intent_set s tick i p
apply s tick (Event.work_started i t) = apply_work_started s i t
apply s tick (Event.intent_done i) = apply_intent_done s tick i
apply s tick (Event.moved i x y) = apply_moved s i x y
apply s tick (Event.slept i) = apply_slept s i
apply s tick (Event.woke i) = apply_woke s tick i
apply s tick (Event.needs_changed i n) = apply_needs_changed s i n
apply s tick (Event.talked i k) = apply_talked s tick i k
apply s tick (Event.hailed from to until) = apply_hailed s from to until
apply s tick (Event.hail_met from to) = apply_hail_lifted s to
apply s tick (Event.hail_expired from to) = apply_hail_lifted s to
apply s tick (Event.forage_regrown x y) = apply_forage_regrown s x y
apply s tick (Event.foraged i x y) = apply_foraged s tick i x y
apply s tick (Event.chopped i x y) = apply_chopped s tick i x y
apply s tick (Event.hunted i x y) = apply_hunted s tick i x y
apply s tick (Event.quarried i x y) = apply_quarried s tick i x y
apply s tick (Event.collected_water i x y) = apply_collected_water s tick i
apply s tick (Event.built i kind x y) = apply_built s tick i kind x y
apply s tick (Event.ate i m c r food) = apply_ate s i m c r food
apply s tick (Event.crafted i kind) = apply_crafted s tick i kind
apply s tick (Event.cooked i at n m kind) = apply_cooked s tick i at n m kind
apply s tick (Event.bathed i morale warmth) = apply_bathed s tick i morale warmth
apply s tick (Event.refueled i x y until) = apply_refueled s tick i x y until
apply s tick (Event.spear_broke i) = apply_spear_broke s i
apply s tick (Event.axe_broke i) = apply_axe_broke s i
apply s tick (Event.wall_chipped i x y) = apply_wall_chipped s i x y
apply s tick (Event.wall_destroyed i x y) = apply_wall_destroyed s tick i x y
apply s tick (Event.wall_repaired i x y) = apply_wall_repaired s tick i x y
apply s tick (Event.dropped i x y kind n) = apply_dropped s tick i x y kind n
apply s tick (Event.picked_up i x y kind n) = apply_picked_up s tick i x y kind n
apply s tick (Event.deposited i x y kind n) = apply_deposited s tick i x y kind n
apply s tick (Event.withdrew i x y kind n) = apply_withdrew s tick i x y kind n
apply s tick (Event.food_rotted x y kind n) = apply_food_rotted s tick x y kind n
apply s tick (Event.died i) = apply_died s tick i
apply s tick (Event.gru_emerged night x y) = apply_gru_emerged s x y
apply s tick (Event.gru_moved x y) = apply_gru_moved s x y
apply s tick (Event.gru_sighted i x y) = apply_gru_sighted s i
apply s tick (Event.gru_attacked i health) = apply_gru_attacked s tick i health
apply s tick (Event.gru_withdrew day) = apply_gru_withdrew s
