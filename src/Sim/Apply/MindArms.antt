-- ===== src/Sim/Apply/MindArms.antt =====
-- internal/sim/state.go: the arms of `Apply` for memories, journals, plans, intents, movement,
-- sleep, needs, talk and hails.
use script_world.Prelude.{
  ℕ, ◌+◌, true, false, Option, none, some, List, [], ◌∷◌, ◌++◌, ltb, leb, if◌then◌else◌, min,
}
use script_world.Prelude.Int.{ℤ}
use script_world.Sim.Journal.{
  Text, Journal, JournalError, empty_journal, append_entry, delete_entry,
}
use script_world.Sim.State.{State, Agent, Intent, Needs, Memory, PlanStep, AgentHail, put_agent}
use script_world.Sim.Event.{IntentSetPayload, MemoryAddedPayload}
use script_world.Sim.Apply.Base.{
  Outcome, ApplyError, journal, no_journal_entry, done, on_agent, finish,
}

abbrev pub generation_bump_salience : ℕ
generation_bump_salience = 9

abbrev pub near_death_below : ℕ
near_death_below = 200

abbrev pub near_death_reset_at : ℕ
near_death_reset_at = 400

abbrev pub talk_morale_bonus : ℕ
talk_morale_bonus = 50

unfoldable pub apply_memory_added : State → ℕ → ℤ → MemoryAddedPayload → Outcome
apply_memory_added s tick i p = on_agent s i λ a.
    let memory : Memory = record {
      text = p.text;
      salience = p.salience;
      tick = tick;
      subject = p.subject;
      tone = p.tone;
      where_at = p.where_at;
      why = p.why;
      conv = p.conv;
      origin = p.origin;
    } in
    done (
      put_agent s i (record a {
        memories = a.memories ++ memory ∷ [];
        generation =
            if leb generation_bump_salience p.salience then a.generation + 1 else a.generation;
      }))

abbrev pub journal_or_empty : Option Journal → Journal
journal_or_empty none = empty_journal
journal_or_empty (some j) = j

abbrev pub journal_failure : Option JournalError → Option ApplyError
journal_failure none = none
journal_failure (some e) = some (journal e)

-- A missing journal is made before the write is tried, so a refused first write leaves an empty one.
unfoldable pub apply_journal_written : State → ℕ → ℤ → Text → Outcome
apply_journal_written s tick i text = on_agent s i λ a.
    let (j, err) = append_entry (journal_or_empty a.journal) tick text in
    (put_agent s i (record a { journal = some j }), journal_failure err)

unfoldable pub delete_from : State → ℤ → Agent → ℕ → Option Journal → Outcome
delete_from s i a id none = (s, some (no_journal_entry id))
delete_from s i a id (some j) =
    let (j', err) = delete_entry j id in
    (put_agent s i (record a { journal = some j' }), journal_failure err)

unfoldable pub apply_journal_deleted : State → ℤ → ℕ → Outcome
apply_journal_deleted s i id = on_agent s i λ a. delete_from s i a id a.journal

unfoldable pub apply_plan_set : State → ℤ → List PlanStep → Outcome
apply_plan_set s i steps = on_agent s i λ a. done (put_agent s i (record a { plan = steps }))

abbrev pub rest_of : List PlanStep → List PlanStep
rest_of [] = []
rest_of (_ ∷ steps) = steps

unfoldable pub apply_plan_step_started : State → ℤ → Outcome
apply_plan_step_started s i =
    on_agent s i λ a. done (put_agent s i (record a { plan = rest_of a.plan }))

unfoldable pub apply_plan_expired : State → ℤ → Outcome
apply_plan_expired s i = on_agent s i λ a. done (put_agent s i (record a { plan = [] }))

unfoldable pub apply_intent_set : State → ℕ → ℤ → IntentSetPayload → Outcome
apply_intent_set s tick i p = on_agent s i λ a.
    let intent : Intent = record {
      goal = p.goal;
      target_x = p.target_x;
      target_y = p.target_y;
      res_x = p.res_x;
      res_y = p.res_y;
      work_start = 0;
      kind = p.kind;
      qty = p.qty;
      reason = p.reason;
    } in
    done (
      put_agent s i
        (record a { intent = some intent; last_goal = some p.goal; last_goal_tick = tick }))

-- `if a.Intent != nil { a.Intent.WorkStart = t }`.
abbrev pub with_work_start : ℕ → Option Intent → Option Intent
with_work_start t none = none
with_work_start t (some intent) = some (record intent { work_start = t })

unfoldable pub apply_work_started : State → ℤ → ℕ → Outcome
apply_work_started s i t =
    on_agent s i λ a. done (put_agent s i (record a { intent = with_work_start t a.intent }))

unfoldable pub apply_intent_done : State → ℕ → ℤ → Outcome
apply_intent_done s tick i = on_agent s i λ a. done (put_agent s i (finish tick a))

unfoldable pub apply_moved : State → ℤ → ℤ → ℤ → Outcome
apply_moved s i x y = on_agent s i λ a. done (put_agent s i (record a { x = x; y = y }))

unfoldable pub apply_slept : State → ℤ → Outcome
apply_slept s i =
    on_agent s i λ a. done (put_agent s i (record a { asleep = true; intent = none; hail = none }))

unfoldable pub apply_woke : State → ℕ → ℤ → Outcome
apply_woke s tick i =
    on_agent s i λ a. done (put_agent s i (record a { asleep = false; idle_since = tick }))

unfoldable pub apply_needs_changed : State → ℤ → Needs → Outcome
apply_needs_changed s i n = on_agent s i λ a. done (
    put_agent s i (record a {
      needs = n;
      near_death =
          if ltb n.health near_death_below
          then true
          else if leb near_death_reset_at n.health
          then false
          else a.near_death;
    }))

unfoldable pub apply_hailed : State → ℤ → ℤ → ℕ → Outcome
apply_hailed s from to until = on_agent s to λ a.
    let hail : AgentHail = record { by = from; until = until } in
    done (put_agent s to (record a { hail = some hail }))

-- `social.hail_met` and `social.hail_expired`.
unfoldable pub apply_hail_lifted : State → ℤ → Outcome
apply_hail_lifted s to = on_agent s to λ a. done (put_agent s to (record a { hail = none }))

-- `minInt(1000, morale + talkMoraleBonus)`, and the mark of the talk.
abbrev pub cheered : ℕ → Agent → Agent
cheered tick a = record a {
  needs = record {
    health = a.needs.health;
    food = a.needs.food;
    rest = a.needs.rest;
    warmth = a.needs.warmth;
    morale = min 1000 (a.needs.morale + talk_morale_bonus);
  };
  last_talk = tick;
}

-- The two pointers may be to one agent, who then is cheered twice: the second is read again.
unfoldable pub apply_talked : State → ℕ → ℤ → ℤ → Outcome
apply_talked s tick i k = on_agent s i λ a. on_agent s k λ b.
    let s' = put_agent s i (cheered tick a) in
    on_agent s' k λ b'. done (put_agent s' k (cheered tick b'))
