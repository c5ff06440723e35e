-- ===== src/Sim/World/Mind.antt =====
-- The arms of `Apply` for memories, journals, plans, intents, movement, sleep, needs, talk and
-- hails, and those of the clock, keep the world well formed.
use script_world.Prelude.{ℕ, refl, Option, none, some, List, inl, inr}
use script_world.Prelude.Int.{ℤ}
use script_world.Sim.Journal.{Text, Journal, delete_entry}
use script_world.Sim.Journal.Laws.{
  IsJournal, append_entry_keeps, delete_entry-IsJournal, empty_journal-IsJournal,
}
use script_world.Sim.State.{State, Agent, Needs, PlanStep, put_agent}
use script_world.Sim.Event.{IntentSetPayload, MemoryAddedPayload}
use script_world.Sim.Apply.MindArms.{
  apply_memory_added, apply_journal_written, apply_journal_deleted, apply_plan_set,
  apply_plan_step_started, apply_plan_expired, apply_intent_set, apply_work_started,
  apply_intent_done, apply_moved, apply_slept, apply_woke, apply_needs_changed, apply_hailed,
  apply_hail_lifted, apply_talked, journal_or_empty, delete_from, cheered,
}
use script_world.Sim.World.{IsWorld, IsAgent, JournalHolds}
use script_world.Sim.World.Agents.{
  agent_at-IsAgent, put_agent-IsWorld, on_agent-keeps, update_same-IsWorld,
}

module _ (s : State) (v : IsWorld s) where
  pub memory_added-IsWorld :
      (tick : ℕ) (i : ℤ) (p : MemoryAddedPayload) → IsWorld (apply_memory_added s tick i p).0
  unfolding apply_memory_added
  memory_added-IsWorld tick i p = update_same-IsWorld s i _ v λ a. (refl, refl)

  pub plan_set-IsWorld : (i : ℤ) (steps : List PlanStep) → IsWorld (apply_plan_set s i steps).0
  unfolding apply_plan_set
  plan_set-IsWorld i steps = update_same-IsWorld s i _ v λ a. (refl, refl)

  pub plan_step_started-IsWorld : (i : ℤ) → IsWorld (apply_plan_step_started s i).0
  unfolding apply_plan_step_started
  plan_step_started-IsWorld i = update_same-IsWorld s i _ v λ a. (refl, refl)

  pub plan_expired-IsWorld : (i : ℤ) → IsWorld (apply_plan_expired s i).0
  unfolding apply_plan_expired
  plan_expired-IsWorld i = update_same-IsWorld s i _ v λ a. (refl, refl)

  pub intent_set-IsWorld :
      (tick : ℕ) (i : ℤ) (p : IntentSetPayload) → IsWorld (apply_intent_set s tick i p).0
  unfolding apply_intent_set
  intent_set-IsWorld tick i p = update_same-IsWorld s i _ v λ a. (refl, refl)

  pub work_started-IsWorld : (i : ℤ) (t : ℕ) → IsWorld (apply_work_started s i t).0
  unfolding apply_work_started
  work_started-IsWorld i t = update_same-IsWorld s i _ v λ a. (refl, refl)

  pub intent_done-IsWorld : (tick : ℕ) (i : ℤ) → IsWorld (apply_intent_done s tick i).0
  unfolding apply_intent_done
  intent_done-IsWorld tick i = update_same-IsWorld s i _ v λ a. (refl, refl)

  pub moved-IsWorld : (i x y : ℤ) → IsWorld (apply_moved s i x y).0
  unfolding apply_moved
  moved-IsWorld i x y = update_same-IsWorld s i _ v λ a. (refl, refl)

  pub slept-IsWorld : (i : ℤ) → IsWorld (apply_slept s i).0
  unfolding apply_slept
  slept-IsWorld i = update_same-IsWorld s i _ v λ a. (refl, refl)

  pub woke-IsWorld : (tick : ℕ) (i : ℤ) → IsWorld (apply_woke s tick i).0
  unfolding apply_woke
  woke-IsWorld tick i = update_same-IsWorld s i _ v λ a. (refl, refl)

  pub needs_changed-IsWorld : (i : ℤ) (n : Needs) → IsWorld (apply_needs_changed s i n).0
  unfolding apply_needs_changed
  needs_changed-IsWorld i n = update_same-IsWorld s i _ v λ a. (refl, refl)

  pub hailed-IsWorld : (from to : ℤ) (until : ℕ) → IsWorld (apply_hailed s from to until).0
  unfolding apply_hailed
  hailed-IsWorld from to until = update_same-IsWorld s to _ v λ a. (refl, refl)

  pub hail_lifted-IsWorld : (to : ℤ) → IsWorld (apply_hail_lifted s to).0
  unfolding apply_hail_lifted
  hail_lifted-IsWorld to = update_same-IsWorld s to _ v λ a. (refl, refl)

cheered-IsAgent : (tick : ℕ) (a : Agent) → IsAgent a → IsAgent (cheered tick a)
cheered-IsAgent tick a h = record { pouch = h.pouch; notebook = h.notebook }

pub talked-IsWorld :
    (s : State) → IsWorld s → (tick : ℕ) (i k : ℤ) → IsWorld (apply_talked s tick i k).0
unfolding apply_talked
talked-IsWorld s v tick i k = on_agent-keeps IsWorld s i _ v λ a e.
    let w =
      put_agent-IsWorld s i (cheered tick a) v
        (cheered-IsAgent tick a (agent_at-IsAgent s i a v e)) in
    on_agent-keeps IsWorld s k _ v λ b f.
      on_agent-keeps IsWorld (put_agent s i (cheered tick a)) k _ w λ c g.
        put_agent-IsWorld _ k (cheered tick c) w
          (cheered-IsAgent tick c (agent_at-IsAgent _ k c w g))

journal_or_empty-IsJournal : (j : Option Journal) → JournalHolds j → IsJournal (journal_or_empty j)
journal_or_empty-IsJournal none h = empty_journal-IsJournal
journal_or_empty-IsJournal (some j) h = h

pub journal_written-IsWorld :
    (s : State)
    → IsWorld s
    → (tick : ℕ) (i : ℤ) (text : Text) → IsWorld (apply_journal_written s tick i text).0
unfolding apply_journal_written
journal_written-IsWorld s v tick i text = on_agent-keeps IsWorld s i _ v λ a e.
    let h = agent_at-IsAgent s i a v e in
    put_agent-IsWorld s i _ v (record {
      pouch = h.pouch;
      notebook =
          append_entry_keeps (journal_or_empty a.journal) tick text
            (journal_or_empty-IsJournal a.journal h.notebook);
    })

delete_entry_keeps : (j : Journal) (id : ℕ) → IsJournal j → IsJournal (delete_entry j id).0
delete_entry_keeps j id v = elim (delete_entry-IsJournal j id v) [
  | inl (e, _) ↦ rw e v
  | inr (_, after, e, _, w, _, _, _) ↦ rw e w
]

delete_from-IsWorld :
    (s : State)
    → IsWorld s
    → (i : ℤ) (a : Agent) (id : ℕ) (j : Option Journal) → IsAgent a
    → JournalHolds j
    → IsWorld (delete_from s i a id j).0
unfolding delete_from
delete_from-IsWorld s v i a id none h k = v
delete_from-IsWorld s v i a id (some j) h k =
    put_agent-IsWorld s i _ v (record { pouch = h.pouch; notebook = delete_entry_keeps j id k })

pub journal_deleted-IsWorld :
    (s : State) → IsWorld s → (i : ℤ) (id : ℕ) → IsWorld (apply_journal_deleted s i id).0
unfolding apply_journal_deleted
journal_deleted-IsWorld s v i id = on_agent-keeps IsWorld s i _ v λ a e.
    let h = agent_at-IsAgent s i a v e in delete_from-IsWorld s v i a id a.journal h h.notebook
