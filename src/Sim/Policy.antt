-- ===== src/Sim/Policy.antt =====
-- internal/sim/policy.go: the goal resolvers and the reflex. An intent is a goal with its target
-- and resource tile, item kind and amount. A draw below 9 is a function of its place in the order
-- of the draws. The outer `none` stands for a search that has not ended; the text of errors is left
-- out.
pub mod Tiles
pub mod Reflex
pub mod Total
pub mod Resolve
pub mod Agree
pub mod Meal
use script_world.Prelude.{
  ℕ, zero, suc, ◌+◌, Bool, false, not, ◌&&◌, Option, none, some, if◌then◌else◌, ◌==◌, ltb, leb,
}
use script_world.Prelude.Int.{ℤ, pos, negsuc, eqb_ℤ, ◌+ℤ◌}
use script_world.Sim.Item.{Kind, Inventory, has_items}
use script_world.Sim.Recipe.{
  Goal, recipe_for, forage, hunt, chop, quarry, collect_water, build_fire, build_shelter, eat,
  build_oven, build_chest, build_path, build_wall_plank, build_wall_stone, craft_planks,
  craft_stone, craft_spear, craft_axe, demolish, repair, refuel_fire, cook, bathe, drop, pick_up,
  deposit, withdraw, sleep, goto_warmth, wander, talk_to, seek, cook_fire, cook_oven,
  attend_meeting, other_goal,
}
use script_world.Sim.State.{State, Agent, Point, agent_at}
use script_world.Sim.Terrain.{Map, TileKind, passable}
use script_world.Sim.Path.{nearest, nearest_adjacent_to, Stand}
use script_world.Sim.Policy.Tiles.{
  forage_tile, den_tile, adjacent_kind, warm_tile, site_tile, wall_tile, worn_wall_tile, fire_tile,
  station_tile, oven_tile, pile_tile, chest_tile, stocked_chest_tile,
}

-- What a resolver fills in of `Intent`.
pub record Errand : Type 0 where
  pub goal : Goal
  pub target : Point
  pub res : Point
  pub kind : Option Kind
  pub qty : ℕ

pub data Refusal : Type 0 where
  lacks_inputs unreachable nothing_to_eat already_sated no_such_agent target_dead : Refusal
  nowhere_to_wander unknown_goal : Refusal

-- An intent, the tag "agent.ate", or an error.
pub data Resolution : Type 0 where
  intent : Errand → Resolution
  ate : Resolution
  refused : Refusal → Resolution

abbrev pub origin : Point
origin = record { x = pos 0; y = pos 0 }

abbrev pub here : Agent → Point
here a = record { x = a.x; y = a.y }

abbrev pub go_to : Goal → Point → Errand
go_to goal p = record { goal = goal; target = p; res = origin; kind = none; qty = 0 }

abbrev pub work_beside : Goal → Stand → Errand
work_beside goal st = record { goal = goal; target = st.stand; res = st.res; kind = none; qty = 0 }

abbrev pub carry : Goal → Option Kind → ℕ → Point → Errand
carry goal kind qty p = record { goal = goal; target = p; res = origin; kind = kind; qty = qty }

-- The intent of a search that found something, or else the error.
abbrev pub found_or {ℓ} : {A : Type ℓ} → (A → Errand) → Option (Option A) → Option Resolution
found_or errand none = none
found_or errand (some none) = some (refused unreachable)
found_or errand (some (some x)) = some (intent (errand x))

unfoldable pub has_inputs : Goal → Inventory → Bool
unfolding recipe_for has_items
has_inputs goal inv = elim (recipe_for goal) [ none ↦ false | some r ↦ has_items inv r.inputs ]

abbrev pub satiety_at : ℕ
satiety_at = 900

unfoldable pub has_any_food : Agent → Bool
has_any_food a = ltb 0 (a.inv.meals + a.inv.food_cooked + a.inv.food_raw)

abbrev pub offset : ℕ → ℤ
offset n = pos n +ℤ negsuc 3

-- One round of the wander loop, and the rounds after it.
unfoldable pub wander_loop : Map → State → (ℕ → ℕ) → Agent → ℕ → ℕ → Option Point
unfolding passable
wander_loop m s draw a k zero = none
wander_loop m s draw a k (suc tries) =
    let dx = draw k in
    let dy = draw (k + 1) in
    let p : Point = record { x = a.x +ℤ offset dx; y = a.y +ℤ offset dy } in
    let rest = wander_loop m s draw a (k + 2) tries in
    if not (dx == 4 && dy == 4) && passable m s p.x p.y then some p else rest

abbrev pub wander_tries : ℕ
wander_tries = 8

unfoldable pub wander_point : Map → State → (ℕ → ℕ) → Agent → Option Point
unfolding wander_loop
wander_point m s draw a = wander_loop m s draw a 0 wander_tries

unfoldable pub talk : State → ℤ → ℤ → Resolution
unfolding agent_at
talk s idx target = elim (agent_at s.agents target) [
  | none ↦ refused no_such_agent
  | some t ↦
      if eqb_ℤ target idx
      then refused no_such_agent
      else if t.dead
      then refused target_dead
      else intent (go_to seek (here t))
]

-- The resolvers that go to the nearest tile of a kind or beside it.
module _ (m : Map) (s : State) (a : Agent) where
  unfoldable pub on_nearest : (Point → Errand) → (Point → Bool) → Option Resolution
  unfolding nearest
  on_nearest errand test = found_or errand (nearest m s (here a) test)

  unfoldable pub beside_nearest : Goal → (Point → Bool) → Option Resolution
  unfolding nearest_adjacent_to
  beside_nearest goal test = found_or (work_beside goal) (nearest_adjacent_to m s (here a) test)

abbrev pub needing : Bool → Option Resolution → Option Resolution
needing b o = if b then o else some (refused lacks_inputs)

module _ (m : Map) (s : State) (draw : ℕ → ℕ) (a : Agent) where
  unfoldable pub build_on_site : Goal → Option Resolution
  unfolding has_inputs on_nearest site_tile
  build_on_site goal =
      needing (has_inputs goal a.inv) (on_nearest m s a (go_to goal) (site_tile m s))

  -- The closures `craft` and `wallBuild`.
  unfoldable pub craft_here : Goal → Option Resolution
  unfolding has_inputs
  craft_here goal = needing (has_inputs goal a.inv) (some (intent (go_to goal (here a))))

  unfoldable pub wall_build : Goal → Option Resolution
  unfolding has_inputs beside_nearest site_tile
  wall_build goal = needing (has_inputs goal a.inv) (beside_nearest m s a goal (site_tile m s))

  unfoldable pub resolve_eat : Option Resolution
  unfolding has_any_food
  resolve_eat = some (
      if not (has_any_food a)
      then refused nothing_to_eat
      else if leb satiety_at a.needs.food
      then refused already_sated
      else ate)

  unfoldable pub resolve_wander : Option Resolution
  unfolding wander_point
  resolve_wander = elim (wander_point m s draw a) [
    | none ↦ some (refused nowhere_to_wander)
    | some p ↦ some (intent (go_to wander p))
  ]

  -- `resolveGoal`: the table `goalResolvers` at the goal.
  unfoldable pub resolve_goal : ℤ → Goal → ℤ → Option Kind → ℕ → ℕ → Option Resolution
  unfolding build_on_site craft_here wall_build resolve_eat resolve_wander talk on_nearest
      beside_nearest
  resolve_goal idx eat target kind qty tick = resolve_eat
  resolve_goal idx forage target kind qty tick = on_nearest m s a (go_to forage) (forage_tile m s)
  resolve_goal idx hunt target kind qty tick = on_nearest m s a (go_to hunt) (den_tile m s tick)
  resolve_goal idx chop target kind qty tick =
      beside_nearest m s a chop (adjacent_kind m s TileKind.tree)
  resolve_goal idx quarry target kind qty tick =
      beside_nearest m s a quarry (adjacent_kind m s TileKind.rock)
  resolve_goal idx collect_water target kind qty tick =
      beside_nearest m s a collect_water (adjacent_kind m s TileKind.water)
  resolve_goal idx build_fire target kind qty tick =
      needing (leb 2 a.inv.wood) (on_nearest m s a (go_to build_fire) (site_tile m s))
  resolve_goal idx build_shelter target kind qty tick =
      needing (leb 8 a.inv.planks) (on_nearest m s a (go_to build_shelter) (site_tile m s))
  resolve_goal idx build_oven target kind qty tick = build_on_site build_oven
  resolve_goal idx build_chest target kind qty tick = build_on_site build_chest
  resolve_goal idx build_path target kind qty tick = build_on_site build_path
  resolve_goal idx craft_planks target kind qty tick = craft_here craft_planks
  resolve_goal idx craft_stone target kind qty tick = craft_here craft_stone
  resolve_goal idx craft_spear target kind qty tick = craft_here craft_spear
  resolve_goal idx craft_axe target kind qty tick = craft_here craft_axe
  resolve_goal idx build_wall_plank target kind qty tick = wall_build build_wall_plank
  resolve_goal idx build_wall_stone target kind qty tick = wall_build build_wall_stone
  resolve_goal idx demolish target kind qty tick = beside_nearest m s a demolish (wall_tile s)
  resolve_goal idx repair target kind qty tick =
      beside_nearest m s a repair (worn_wall_tile s a.inv)
  resolve_goal idx refuel_fire target kind qty tick =
      needing (leb 1 a.inv.wood) (on_nearest m s a (go_to refuel_fire) (fire_tile s))
  resolve_goal idx cook target kind qty tick =
      needing (leb 1 a.inv.food_raw) (on_nearest m s a (go_to cook) (station_tile s tick))
  resolve_goal idx bathe target kind qty tick =
      needing (has_inputs bathe a.inv) (on_nearest m s a (go_to bathe) (oven_tile s))
  resolve_goal idx drop target kind qty tick = some (intent (carry drop kind qty (here a)))
  resolve_goal idx pick_up target kind qty tick =
      on_nearest m s a (carry pick_up kind qty) (pile_tile s)
  resolve_goal idx deposit target kind qty tick =
      on_nearest m s a (carry deposit kind qty) (chest_tile s)
  resolve_goal idx withdraw target kind qty tick =
      on_nearest m s a (carry withdraw kind qty) (stocked_chest_tile s kind)
  resolve_goal idx sleep target kind qty tick = some (intent (go_to sleep (here a)))
  resolve_goal idx goto_warmth target kind qty tick =
      on_nearest m s a (go_to goto_warmth) (warm_tile m s tick)
  resolve_goal idx wander target kind qty tick = resolve_wander
  resolve_goal idx talk_to target kind qty tick = some (talk s idx target)
  resolve_goal idx seek target kind qty tick = some (talk s idx target)
  resolve_goal idx cook_fire target kind qty tick = some (refused unknown_goal)
  resolve_goal idx cook_oven target kind qty tick = some (refused unknown_goal)
  resolve_goal idx attend_meeting target kind qty tick = some (refused unknown_goal)
  resolve_goal idx (other_goal n) target kind qty tick = some (refused unknown_goal)
