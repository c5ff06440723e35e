-- ===== src/Tests/Errands.antt =====
-- Tests of the resolvers and the reflex.
use script_world.Prelude.{ℕ, ◌≡◌, refl, true, some, none}
use script_world.Prelude.Int.{pos}
use script_world.Sim.Recipe.{chop, talk_to, build_fire, wander, build_shelter}
use script_world.Sim.Path.{point}
use script_world.Sim.Policy.{
  resolve_goal, intent, refused, lacks_inputs, no_such_agent, go_to, work_beside,
}
use script_world.Sim.Policy.Tiles.{adjacent_kind, warm_tile, site_tile}
use script_world.Sim.Policy.Total.{Leading}
use script_world.Sim.Policy.Resolve.{resolve_goal-Leads}
use script_world.Sim.Policy.Reflex.{decide_intent, takes}
use script_world.Sim.Policy.Agree.{Decides, Sensible, decide_intent-Sensible}
use script_world.Sim.State.{agent_at}
use script_world.Sim.Policy.Meal.{eat_outcome}
use script_world.Sim.Policy.Meal.Sated.{Feeds, eat_outcome-resolve_eat}
use script_world.Tests.Camp.{camp, ada, ben}
use script_world.Tests.Paths.{field}

abbrev steady : ℕ → ℕ
steady _ = 5

chops :
    resolve_goal field camp steady ada (pos 0) chop (pos 0) none 0 100
    ≡ some (
        intent (
          work_beside chop (record { stand = point (pos 0) (pos 0); res = point (pos 1) (pos 0) })))
unfolding resolve_goal adjacent_kind
chops = refl

shelter_too_dear :
    resolve_goal field camp steady ada (pos 0) build_shelter (pos 0) none 0 100
    ≡ some (refused lacks_inputs)
unfolding resolve_goal
shelter_too_dear = refl

no_talk_with_oneself :
    resolve_goal field camp steady ada (pos 0) talk_to (pos 0) none 0 100
    ≡ some (refused no_such_agent)
unfolding resolve_goal
no_talk_with_oneself = refl

-- Every draw of 5 is one step to the south-east.
wanders_on :
    resolve_goal field camp steady ada (pos 0) wander (pos 0) none 0 100
    ≡ some (intent (go_to wander (point (pos 1) (pos 1))))
unfolding resolve_goal
wanders_on = refl

first_fire :
    decide_intent field camp steady ada 100
    ≡ some (takes (go_to build_fire (point (pos 0) (pos 0))))
unfolding decide_intent site_tile
first_fire = refl

to_the_wood_by_night :
    decide_intent field (record camp { night = true }) steady ben 100
    ≡ some (
        takes (
          work_beside chop (record { stand = point (pos 2) (pos 0); res = point (pos 1) (pos 0) })))
unfolding decide_intent warm_tile adjacent_kind
to_the_wood_by_night = refl

resolve_goal-Leads_example :
    Leading field camp steady ada
      (pos 0)
      (pos 1)
      (resolve_goal field camp steady ada (pos 0) chop (pos 1) none 0 100)
resolve_goal-Leads_example =
    resolve_goal-Leads field camp steady ada (pos 0) (pos 1) chop none 0 100

decide_intent-Sensible_example :
    Decides (Sensible field camp steady ada 100) (decide_intent field camp steady ada 100)
decide_intent-Sensible_example = decide_intent-Sensible field camp steady ada 100

-- Two raw units are eaten, as 900 is not reached.
all_raw :
    eat_outcome ada
    ≡ some (
        some (record {
          avail_m = 0;
          avail_c = 0;
          avail_r = 0;
          meals = 0;
          cooked = 0;
          raw = 2;
          food = 680;
        }))
unfolding eat_outcome
all_raw = refl

eat_outcome-resolve_eat_example : Feeds field camp steady 100 (pos 0) ada
unfolding agent_at
eat_outcome-resolve_eat_example = eat_outcome-resolve_eat field camp steady 100 (pos 0) ada refl
