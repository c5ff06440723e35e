-- ===== src/Tests/Worlds.antt =====
-- Tests of the reducer and of the replay of the log.
use script_world.Prelude.{◌≡◌, ◌↔◌, refl, true, none, List, [], ◌∷◌, inl, inr}
use script_world.Prelude.Int.{pos}
use script_world.Sim.Item.{wood}
use script_world.Sim.State.{State, agent_at}
use script_world.Sim.Event.{Event}
use script_world.Sim.Apply.{apply}
use script_world.Sim.Apply.Base.{on_agent, agent_out_of_range}
use script_world.Sim.Apply.ClockArms.{apply_night, apply_paused}
use script_world.Sim.Apply.StorageArms.{apply_died}
use script_world.Sim.Apply.Errors.{accepts, apply-accepts}
use script_world.Sim.World.{IsWorld}
use script_world.Sim.World.Replay.{apply-IsWorld}
use script_world.Sim.World.Totals.{total}
use script_world.Sim.World.Conservation.{transfers_conserve}
use script_world.Daemon.{Recorded, advance, recover_state, replay_event}
use script_world.Daemon.Recovery.{IsLog, Boots, recover_state-Boots}
use script_world.Tests.Camp.{camp, camp-IsWorld}

abbrev drops_wood : Event
drops_wood = Event.dropped (pos 0) (pos 1) (pos 0) wood 2

abbrev takes_wood : Event
takes_wood = Event.picked_up (pos 1) (pos 1) (pos 0) wood 30

apply-IsWorld_example : IsWorld (apply camp 110 takes_wood).0
apply-IsWorld_example = apply-IsWorld camp 110 takes_wood camp-IsWorld tt

transfers_conserve_example : total (apply camp 110 takes_wood).0 wood ≡ total camp wood
transfers_conserve_example = transfers_conserve camp 110 takes_wood wood camp-IsWorld refl

apply-accepts_example :
    ((apply camp 110 (Event.moved (pos 2) (pos 0) (pos 1))).1 ≡ none)
    ↔ (accepts camp (Event.moved (pos 2) (pos 0) (pos 1)) ≡ true)
apply-accepts_example = apply-accepts camp 110 (Event.moved (pos 2) (pos 0) (pos 1))

abbrev log : List Recorded
log = (110, drops_wood) ∷ (111, takes_wood) ∷ (111, Event.night_started) ∷ []

log-IsLog : IsLog camp log
log-IsLog = (tt, (tt, (tt, tt)))

recover_state-Boots_example : Boots camp log (recover_state camp log)
recover_state-Boots_example = recover_state-Boots camp log camp-IsWorld log-IsLog

-- The replay stops at an agent out of range, before the night.
refused_log :
    recover_state camp
      ((110, Event.clock_paused) ∷ (111, Event.died (pos 9)) ∷ (112, Event.night_started) ∷ [])
    ≡ inr (agent_out_of_range (pos 9))
unfolding recover_state replay_event apply_paused apply_died on_agent agent_at
refused_log = refl

-- Two events in the order of the store, the second at an earlier tick.
abbrev short_log : List Recorded
short_log = (120, Event.night_started) ∷ (115, Event.clock_paused) ∷ []

abbrev dusk : State
dusk = record camp { tick = 120; night = true; paused = true }

short_log_state : recover_state camp short_log ≡ inl dusk
unfolding recover_state replay_event apply apply_night apply_paused advance
short_log_state = refl
