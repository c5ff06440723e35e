-- ===== src/Tests/Hails.antt =====
-- Tests of hails and guards.
use script_world.Prelude.{zero, suc, ◌≡◌, ◌≢◌, ◌↔◌, refl, Bool, true, false, some, List, [], ◌∷◌}
use script_world.Prelude.Int.{ℤ, pos, negsuc}
use mathlib.Core.List.{Memᴰ}
use script_world.Sim.State.{State, Agent, Guard, agent_at, target_present}
use script_world.Sim.Event.{Event}
use script_world.Sim.Apply.{apply}
use script_world.Sim.Guard.{eval_at}
use script_world.Sim.Guard.Laws.{Holds, eval_at_iff}
use script_world.Sim.Hail.{hailable, hail_step}
use script_world.Sim.Hail.Waiting.{
  hailer_of, one, more, IsUnlocked, stay, hail, expire, HailRun-IsUnlocked,
}
use script_world.Sim.Hail.Sweep.{IsTalk, Meets, Expires, hail_step_lifts}
use script_world.Tests.Camp.{camp, ada, ben}

abbrev nobody : ℤ → Bool
nobody _ = false

ada_hails_ben : hailable camp false nobody (pos 0) (pos 1) ≡ true
unfolding hailable
ada_hails_ben = refl

-- Ben waits for Ada until tick 580.
abbrev hailed_ben : Agent
hailed_ben = record ben { hail = some (record { by = pos 0; until = 580 }) }

abbrev hailed_camp : State
hailed_camp = record camp { agents = ada ∷ hailed_ben ∷ [] }

-- Ben cannot hail Ada back, as he waits for her.
ben_cannot_hail_ada : hailable hailed_camp false nobody (pos 1) (pos 0) ≡ false
unfolding hailable
ben_cannot_hail_ada = refl

camp_waits : (i j : ℤ) → hailer_of camp i ≢ some j
unfolding agent_at
camp_waits (pos zero) j e = cc e
camp_waits (pos (suc zero)) j e = cc e
camp_waits (pos (suc (suc n))) j e = cc e
camp_waits (negsuc n) j e = cc e

camp-IsUnlocked : IsUnlocked camp
camp-IsUnlocked i _ (one e) = camp_waits i _ e
camp-IsUnlocked i _ (more e c) = camp_waits i _ e

abbrev after_hail : State
after_hail = (apply camp 100 (Event.hailed (pos 0) (pos 1) 580)).0

HailRun-IsUnlocked_example :
    IsUnlocked (apply after_hail 580 (Event.hail_expired (pos 0) (pos 1))).0
HailRun-IsUnlocked_example =
    HailRun-IsUnlocked camp (apply after_hail 580 (Event.hail_expired (pos 0) (pos 1))).0
      camp-IsUnlocked
      (expire 580 (pos 0) (pos 1) (hail 100 false nobody (pos 0) (pos 1) 580 stay ada_hails_ben))

abbrev no_talk : ℤ → ℤ → List Event
no_talk _ _ = []

no_talk-IsTalk : IsTalk no_talk
no_talk-IsTalk _ _ e m = elim m [ ]

hail_step_lifts_example :
    (Memᴰ (Event.hail_met (pos 0) (pos 1)) (hail_step hailed_camp no_talk 580)
      ↔ Meets hailed_camp (pos 0) (pos 1))
    × (Memᴰ (Event.hail_expired (pos 0) (pos 1)) (hail_step hailed_camp no_talk 580)
        ↔ Expires hailed_camp 580 (pos 0) (pos 1))
hail_step_lifts_example = hail_step_lifts hailed_camp no_talk 580 no_talk-IsTalk (pos 0) (pos 1)

ada_is_there : hail_step hailed_camp no_talk 580 ≡ Event.hail_met (pos 0) (pos 1) ∷ []
unfolding hail_step
ada_is_there = refl

abbrev near_ben : Guard
near_ben = record { type = target_present; target = pos 1; tick = 0; generation = 0 }

eval_at_iff_example :
    (eval_at near_ben camp (pos 0) 100 ≡ some true) ↔ Holds near_ben camp (pos 0) 100
eval_at_iff_example = eval_at_iff near_ben camp (pos 0) 100

ben_is_near : eval_at near_ben camp (pos 0) 100 ≡ some true
unfolding eval_at
ben_is_near = refl
