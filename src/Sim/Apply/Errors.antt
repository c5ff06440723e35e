-- ===== src/Sim/Apply/Errors.antt =====
-- Which events `Apply` refuses: those whose arm looks up an agent out of range, a journal write over the
-- budget, a delete of an entry that is not there, and a craft of an unknown kind.
use script_world.Prelude.{
  ℕ, zero, suc, ◌+◌, ◌≡◌, ◌↔◌, refl, Bool, true, false, ◌&&◌, Option, none, some, List, [], ◌∷◌,
  arith, leb, length, get_elem?, set, Option-cases, inl, inr,
}
use script_world.Prelude.Int.{ℤ, pos, negsuc}
use script_world.Sim.Journal.{
  Text, journal_budget_runes, journal_used_runes, append_entry, find_entry,
}
use script_world.Sim.Journal.Laws.{delete_entry_error}
use script_world.Sim.State.{State, Agent, agent_at, put_agent}
use script_world.Sim.Event.{Event}
use script_world.Sim.Apply.{apply}
use script_world.Sim.Apply.Base.{on_agent}
use script_world.Sim.Apply.ClockArms.{
  apply_paused, apply_speed_set, apply_governor_shed, apply_governor_recovered, apply_degraded,
  apply_recovered, apply_night, apply_migrated,
}
use script_world.Sim.Apply.MindArms.{
  apply_memory_added, apply_journal_written, apply_journal_deleted, apply_plan_set,
  apply_plan_step_started, apply_plan_expired, apply_intent_set, apply_work_started,
  apply_intent_done, apply_moved, apply_slept, apply_woke, apply_needs_changed, apply_hailed,
  apply_hail_lifted, apply_talked, delete_from, journal_or_empty, cheered,
}
use script_world.Sim.Apply.WorkArms.{
  apply_foraged, apply_chopped, apply_hunted, apply_quarried, apply_collected_water,
  apply_forage_regrown, apply_built, apply_ate, apply_crafted, apply_cooked, apply_bathed,
  apply_refueled, apply_spear_broke, apply_axe_broke, recipe_of_kind,
}
use script_world.Sim.Apply.WallArms.{apply_wall_chipped, apply_wall_destroyed, apply_wall_repaired}
use script_world.Sim.Apply.StorageArms.{
  apply_dropped, apply_picked_up, apply_deposited, apply_withdrew, apply_food_rotted, apply_died,
}
use script_world.Sim.Apply.GruArms.{
  apply_gru_emerged, apply_gru_moved, apply_gru_sighted, apply_gru_attacked, apply_gru_withdrew,
}

abbrev pub is_some {ℓ} : {A : Type ℓ} → Option A → Bool
is_some none = false
is_some (some _) = true

abbrev pub has_agent : State → ℤ → Bool
has_agent s i = is_some (agent_at s.agents i)

-- The journal has room for the text.
abbrev pub has_space : Option Agent → Text → Bool
has_space none text = false
has_space (some a) text =
    leb (journal_used_runes (journal_or_empty a.journal) + length text) journal_budget_runes

-- The journal has an entry of the id.
abbrev pub has_entry : Option Agent → ℕ → Bool
has_entry none id = false
has_entry (some a) id = is_some (find_entry id (journal_or_empty a.journal).entries)

-- The events that the reducer accepts.
unfoldable pub accepts : State → Event → Bool
accepts s (Event.journal_entry_written i text) = has_space (agent_at s.agents i) text
accepts s (Event.journal_entry_deleted i id) = has_entry (agent_at s.agents i) id
accepts s (Event.crafted i kind) = has_agent s i && is_some (recipe_of_kind kind)
accepts s (Event.talked i k) = has_agent s i && has_agent s k
accepts s Event.recorded = true
accepts s (Event.world_migrated p) = true
accepts s Event.clock_paused = true
accepts s Event.clock_resumed = true
accepts s Event.clock_recovered = true
accepts s (Event.clock_speed_set speed) = true
accepts s (Event.clock_governor_shed p) = true
accepts s (Event.clock_governor_recovered p) = true
accepts s (Event.clock_degraded rate) = true
accepts s Event.night_started = true
accepts s Event.day_started = true
accepts s (Event.memory_added i p) = has_agent s i
accepts s (Event.plan_set i steps) = has_agent s i
accepts s (Event.plan_step_started i) = has_agent s i
accepts s (Event.plan_expired i) = has_agent s i
accepts s (Event.intent_set i p) = has_agent s i
accepts s (Event.work_started i t) = has_agent s i
accepts s (Event.intent_done i) = has_agent s i
accepts s (Event.moved i x y) = has_agent s i
accepts s (Event.slept i) = has_agent s i
accepts s (Event.woke i) = has_agent s i
accepts s (Event.needs_changed i n) = has_agent s i
accepts s (Event.hailed from to until) = has_agent s to
accepts s (Event.hail_met from to) = has_agent s to
accepts s (Event.hail_expired from to) = has_agent s to
accepts s (Event.forage_regrown x y) = true
accepts s (Event.foraged i x y) = has_agent s i
accepts s (Event.chopped i x y) = has_agent s i
accepts s (Event.hunted i x y) = has_agent s i
accepts s (Event.quarried i x y) = has_agent s i
accepts s (Event.collected_water i x y) = has_agent s i
accepts s (Event.built i kind x y) = has_agent s i
accepts s (Event.ate i m c r food) = has_agent s i
accepts s (Event.cooked i at n m kind) = has_agent s i
accepts s (Event.bathed i morale warmth) = has_agent s i
accepts s (Event.refueled i x y until) = has_agent s i
accepts s (Event.spear_broke i) = has_agent s i
accepts s (Event.axe_broke i) = has_agent s i
accepts s (Event.wall_chipped i x y) = has_agent s i
accepts s (Event.wall_destroyed i x y) = has_agent s i
accepts s (Event.wall_repaired i x y) = has_agent s i
accepts s (Event.dropped i x y kind n) = has_agent s i
accepts s (Event.picked_up i x y kind n) = has_agent s i
accepts s (Event.deposited i x y kind n) = has_agent s i
accepts s (Event.withdrew i x y kind n) = has_agent s i
accepts s (Event.food_rotted x y kind n) = true
accepts s (Event.died i) = has_agent s i
accepts s (Event.gru_emerged night x y) = true
accepts s (Event.gru_moved x y) = true
accepts s (Event.gru_sighted i x y) = true
accepts s (Event.gru_attacked i health) = has_agent s i
accepts s (Event.gru_withdrew day) = true

is_some-set :
    {A : Type 0} (l : List A) (n m : ℕ) (a : A)
    → is_some (get_elem? (set l n a) m) ≡ is_some (get_elem? l m)
is_some-set [] n m a = refl
is_some-set (x ∷ l) zero zero a = refl
is_some-set (x ∷ l) zero (suc m) a = refl
is_some-set (x ∷ l) (suc n) zero a = refl
is_some-set (x ∷ l) (suc n) (suc m) a = is_some-set l n m a

has_agent-put : (s : State) (i k : ℤ) (a : Agent) → has_agent (put_agent s i a) k ≡ has_agent s k
unfolding agent_at put_agent
has_agent-put s (pos n) (pos m) a = is_some-set s.agents n m a
has_agent-put s (pos n) (negsuc m) a = refl
has_agent-put s (negsuc n) k a = refl

talked_accepts :
    (s : State) (tick : ℕ) (i k : ℤ)
    → ((apply_talked s tick i k).1 ≡ none) ↔ ((has_agent s i && has_agent s k) ≡ true)
unfolding apply_talked on_agent
talked_accepts s tick i k = elim (Option-cases (agent_at s.agents i)) [
  | inl e ↦ rw (e, on_agent) (ground arith)
  | inr (a, e) ↦ let h = has_agent-put s i k (cheered tick a) in rw (e, on_agent) (ground arith)
]

written_accepts :
    (s : State) (tick : ℕ) (i : ℤ) (text : Text)
    → ((apply_journal_written s tick i text).1 ≡ none)
      ↔ (has_space (agent_at s.agents i) text ≡ true)
unfolding apply_journal_written on_agent append_entry
written_accepts s tick i text = ground arith

deleted_accepts :
    (s : State) (i : ℤ) (id : ℕ)
    → ((apply_journal_deleted s i id).1 ≡ none) ↔ (has_entry (agent_at s.agents i) id ≡ true)
unfolding apply_journal_deleted on_agent delete_from find_entry
deleted_accepts s i id = elim (Option-cases (agent_at s.agents i)) [
  | inl e ↦ rw (e, on_agent) (ground arith)
  | inr (a, e) ↦ elim (Option-cases a.journal) [
    | inl f ↦ rw (e, f, on_agent) (ground arith)
    | inr (j, f) ↦ rw (e, f, on_agent) (ground (arith, delete_entry_error j id))
  ]
]

-- The reducer returns no error exactly where the agents that the event's arm looks up are in range,
-- and, for a journal write, the text fits the budget, for a delete, the entry is in the journal, and
-- for a craft, the kind has a recipe. An arm looks up the agent that its event is about, of a talk
-- both agents, and of the events of a hail only the one hailed. The other events are always
-- accepted: those of the clock and the world, the rot of food, the gru's own way, and its sighting,
-- which passes over an agent out of range.
pub apply-accepts :
    (s : State) (tick : ℕ) (e : Event) → ((apply s tick e).1 ≡ none) ↔ (accepts s e ≡ true)
unfolding apply on_agent accepts apply_paused apply_speed_set apply_governor_shed
    apply_governor_recovered apply_degraded apply_recovered apply_night apply_migrated
    apply_memory_added apply_journal_written apply_journal_deleted apply_plan_set
    apply_plan_step_started apply_plan_expired apply_intent_set apply_work_started apply_intent_done
    apply_moved apply_slept apply_woke apply_needs_changed apply_hailed apply_hail_lifted
    apply_talked apply_foraged apply_chopped apply_hunted apply_quarried apply_collected_water
    apply_forage_regrown apply_built apply_ate apply_crafted apply_cooked apply_bathed
    apply_refueled apply_spear_broke apply_axe_broke apply_wall_chipped apply_wall_destroyed
    apply_wall_repaired apply_dropped apply_picked_up apply_deposited apply_withdrew
    apply_food_rotted apply_died apply_gru_emerged apply_gru_moved apply_gru_sighted
    apply_gru_attacked apply_gru_withdrew
apply-accepts s tick Event.recorded = (λ _. refl, λ _. refl)
apply-accepts s tick (Event.world_migrated p) = ground arith
apply-accepts s tick Event.clock_paused = (λ _. refl, λ _. refl)
apply-accepts s tick Event.clock_resumed = (λ _. refl, λ _. refl)
apply-accepts s tick Event.clock_recovered = (λ _. refl, λ _. refl)
apply-accepts s tick (Event.clock_speed_set speed) = (λ _. refl, λ _. refl)
apply-accepts s tick (Event.clock_governor_shed p) = (λ _. refl, λ _. refl)
apply-accepts s tick (Event.clock_governor_recovered p) = (λ _. refl, λ _. refl)
apply-accepts s tick (Event.clock_degraded rate) = (λ _. refl, λ _. refl)
apply-accepts s tick Event.night_started = (λ _. refl, λ _. refl)
apply-accepts s tick Event.day_started = (λ _. refl, λ _. refl)
apply-accepts s tick (Event.memory_added i p) = ground arith
apply-accepts s tick (Event.journal_entry_written i text) = written_accepts s tick i text
apply-accepts s tick (Event.journal_entry_deleted i id) = deleted_accepts s i id
apply-accepts s tick (Event.plan_set i steps) = ground arith
apply-accepts s tick (Event.plan_step_started i) = ground arith
apply-accepts s tick (Event.plan_expired i) = ground arith
apply-accepts s tick (Event.intent_set i p) = ground arith
apply-accepts s tick (Event.work_started i t) = ground arith
apply-accepts s tick (Event.intent_done i) = ground arith
apply-accepts s tick (Event.moved i x y) = ground arith
apply-accepts s tick (Event.slept i) = ground arith
apply-accepts s tick (Event.woke i) = ground arith
apply-accepts s tick (Event.needs_changed i n) = ground arith
apply-accepts s tick (Event.talked i k) = talked_accepts s tick i k
apply-accepts s tick (Event.hailed from to until) = ground arith
apply-accepts s tick (Event.hail_met from to) = ground arith
apply-accepts s tick (Event.hail_expired from to) = ground arith
apply-accepts s tick (Event.forage_regrown x y) = (λ _. refl, λ _. refl)
apply-accepts s tick (Event.foraged i x y) = ground arith
apply-accepts s tick (Event.chopped i x y) = ground arith
apply-accepts s tick (Event.hunted i x y) = ground arith
apply-accepts s tick (Event.quarried i x y) = ground arith
apply-accepts s tick (Event.collected_water i x y) = ground arith
apply-accepts s tick (Event.built i kind x y) = ground arith
apply-accepts s tick (Event.ate i m c r food) = ground arith
apply-accepts s tick (Event.crafted i kind) = ground arith
apply-accepts s tick (Event.cooked i at n m kind) = ground arith
apply-accepts s tick (Event.bathed i morale warmth) = ground arith
apply-accepts s tick (Event.refueled i x y until) = ground arith
apply-accepts s tick (Event.spear_broke i) = ground arith
apply-accepts s tick (Event.axe_broke i) = ground arith
apply-accepts s tick (Event.wall_chipped i x y) = ground arith
apply-accepts s tick (Event.wall_destroyed i x y) = ground arith
apply-accepts s tick (Event.wall_repaired i x y) = ground arith
apply-accepts s tick (Event.dropped i x y kind n) = ground arith
apply-accepts s tick (Event.picked_up i x y kind n) = ground arith
apply-accepts s tick (Event.deposited i x y kind n) = ground arith
apply-accepts s tick (Event.withdrew i x y kind n) = ground arith
apply-accepts s tick (Event.food_rotted x y kind n) = ground arith
apply-accepts s tick (Event.died i) = ground arith
apply-accepts s tick (Event.gru_emerged night x y) = (λ _. refl, λ _. refl)
apply-accepts s tick (Event.gru_moved x y) = (λ _. refl, λ _. refl)
apply-accepts s tick (Event.gru_sighted i x y) = ground arith
apply-accepts s tick (Event.gru_attacked i health) = ground arith
apply-accepts s tick (Event.gru_withdrew day) = (λ _. refl, λ _. refl)
