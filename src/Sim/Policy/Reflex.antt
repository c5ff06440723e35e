-- ===== src/Sim/Policy/Reflex.antt =====
-- internal/sim/policy.go: `decideIntent`, what an idle and awake agent does with no plan.
use script_world.Prelude.{ℕ, not, ◌&&◌, Option, none, some, if◌then◌else◌, ltb, leb}
use script_world.Sim.Recipe.{
  forage, hunt, chop, build_fire, refuel_fire, sleep, goto_warmth, wander, fire,
}
use script_world.Sim.State.{State, Agent}
use script_world.Sim.Terrain.{Map, TileKind, warm_at, has_structure}
use script_world.Sim.Path.{nearest, nearest_adjacent_to}
use script_world.Sim.Policy.Tiles.{
  forage_tile, den_tile, adjacent_kind, warm_tile, site_tile, dying_fire_tile,
}
use script_world.Sim.Policy.{Errand, go_to, work_beside, here, has_any_food, wander_point}

pub data Decision : Type 0 where
  eats idles : Decision
  takes : Errand → Decision

-- Take what a search found, or go on.
abbrev pub or_else {ℓ} :
    {A : Type ℓ} → Option (Option A) → (A → Errand) → Option Decision → Option Decision
or_else none f rest = none
or_else (some none) f rest = rest
or_else (some (some x)) f rest = some (takes (f x))

abbrev pub hungry_at : ℕ
hungry_at = 350

abbrev pub tired_at : ℕ
tired_at = 250

abbrev pub fire_wood_cost : ℕ
fire_wood_cost = 2

abbrev pub stock_food_raw_to : ℕ
stock_food_raw_to = 8

module _ (m : Map) (s : State) (draw : ℕ → ℕ) (a : Agent) (tick : ℕ) where
  -- `foodIntent`, or go on.
  unfoldable pub food_or : Option Decision → Option Decision
  unfolding nearest
  food_or rest =
      or_else (nearest m s (here a) (forage_tile m s)) (go_to forage)
        (or_else (nearest m s (here a) (den_tile m s tick)) (go_to hunt) rest)

  -- `reflexRefuelIntent`, or go on.
  unfoldable pub refuel_or : Option Decision → Option Decision
  unfolding nearest
  refuel_or rest =
      if ltb a.inv.wood 1
      then rest
      else or_else (nearest m s (here a) (dying_fire_tile s tick)) (go_to refuel_fire) rest

  unfoldable pub fire_or : Option Decision → Option Decision
  unfolding nearest
  fire_or rest =
      if leb fire_wood_cost a.inv.wood
      then or_else (nearest m s (here a) (site_tile m s)) (go_to build_fire) rest
      else rest

  -- `chopIntent`, or go on.
  unfoldable pub chop_or : Option Decision → Option Decision
  unfolding nearest_adjacent_to
  chop_or rest =
      or_else (nearest_adjacent_to m s (here a) (adjacent_kind m s TileKind.tree))
        (work_beside chop) rest

  unfoldable pub warmth_or : Option Decision → Option Decision
  unfolding nearest
  warmth_or rest = or_else (nearest m s (here a) (warm_tile m s tick)) (go_to goto_warmth) rest

  unfoldable pub sleep_here : Option Decision
  sleep_here = some (takes (go_to sleep (here a)))

  unfoldable pub by_night : Option Decision
  unfolding warm_at warmth_or refuel_or fire_or chop_or sleep_here
  by_night =
      if not (warm_at s.structures a.x a.y tick)
      then warmth_or (refuel_or (fire_or (chop_or sleep_here)))
      else sleep_here

  unfoldable pub nap : Option Decision
  unfolding warm_at nearest sleep_here
  nap =
      if not (warm_at s.structures a.x a.y tick)
      then or_else (nearest m s (here a) (warm_tile m s tick)) (go_to sleep) sleep_here
      else sleep_here

  unfoldable pub wander_or_idle : Option Decision
  unfolding wander_point
  wander_or_idle = elim (wander_point m s draw a) [
    | none ↦ some idles
    | some p ↦ some (takes (go_to wander p))
  ]

  unfoldable pub stock_up : Option Decision
  unfolding food_or wander_or_idle
  stock_up = if ltb a.inv.food_raw stock_food_raw_to then food_or wander_or_idle else wander_or_idle

  unfoldable pub by_day : Option Decision
  unfolding has_structure fire_or chop_or refuel_or stock_up
  by_day =
      let rest = refuel_or stock_up in
      if not (has_structure s.structures fire) then fire_or (chop_or rest) else rest

  unfoldable pub after_food : Option Decision
  unfolding by_night nap by_day
  after_food = if s.night then by_night else if ltb a.needs.rest tired_at then nap else by_day

  unfoldable pub decide_intent : Option Decision
  unfolding has_any_food food_or after_food
  decide_intent =
      if ltb a.needs.food hungry_at && has_any_food a
      then some eats
      else if ltb a.needs.food hungry_at
      then food_or after_food
      else after_food
