-- ===== src/Sim/Policy/Resolve.antt =====
-- internal/sim/policy.go: every entry of `goalResolvers` returns, and its intent leads somewhere.
use script_world.Prelude.{ℕ, refl, inl, inr, not, Option, leb, Bool-cases}
use script_world.Prelude.Int.{ℤ}
use script_world.Sim.Item.{Kind}
use script_world.Sim.Recipe.{
  Goal, forage, hunt, chop, quarry, collect_water, build_fire, build_shelter, eat, build_oven,
  build_chest, build_path, build_wall_plank, build_wall_stone, craft_planks, craft_stone,
  craft_spear, craft_axe, demolish, repair, refuel_fire, cook, bathe, drop, pick_up, deposit,
  withdraw, sleep, goto_warmth, wander, talk_to, seek, cook_fire, cook_oven, attend_meeting,
  other_goal,
}
use script_world.Sim.State.{State, Agent}
use script_world.Sim.Terrain.{Map, TileKind}
use script_world.Sim.Policy.Tiles.{
  forage_tile, den_tile, adjacent_kind, warm_tile, site_tile, wall_tile, worn_wall_tile, fire_tile,
  station_tile, oven_tile, pile_tile, chest_tile, stocked_chest_tile,
}
use script_world.Sim.Policy.Total.{
  Leads, Leading, Resolves-needing, on_nearest-Leading, beside_nearest-Leading, needing_nearest,
  talk-Leading, resolve_wander-Leading, stays,
}
use script_world.Sim.Policy.{
  here, go_to, carry, build_on_site, craft_here, wall_build, resolve_eat, has_any_food, satiety_at,
  resolve_goal, has_inputs,
}

module _ (m : Map) (s : State) (draw : ℕ → ℕ) (a : Agent) (idx target : ℤ) where
  build_on_site-Leading :
      (goal : Goal) → Leading m s draw a idx target (build_on_site m s draw a goal)
  unfolding build_on_site
  build_on_site-Leading goal =
      needing_nearest m s draw a idx target (has_inputs goal a.inv) goal (site_tile m s)

  craft_here-Leading : (goal : Goal) → Leading m s draw a idx target (craft_here m s draw a goal)
  unfolding craft_here
  craft_here-Leading goal =
      Resolves-needing (Leads m s a idx target) (has_inputs goal a.inv) _
        (stays m s draw a idx target (go_to goal (here a)) refl)

  wall_build-Leading : (goal : Goal) → Leading m s draw a idx target (wall_build m s draw a goal)
  unfolding wall_build
  wall_build-Leading goal =
      Resolves-needing (Leads m s a idx target) (has_inputs goal a.inv) _
        (beside_nearest-Leading m s draw a idx target goal (site_tile m s))

  resolve_eat-Leading : Leading m s draw a idx target (resolve_eat m s draw a)
  unfolding resolve_eat
  resolve_eat-Leading = elim (Bool-cases (not (has_any_food a))) [
    | inl e ↦ rw (e, resolve_eat) tt
    | inr e ↦ elim (Bool-cases (leb satiety_at a.needs.food)) [
      | inl f ↦ rw (e, f, resolve_eat) tt
      | inr f ↦ rw (e, f, resolve_eat) tt
    ]
  ]

  -- For every goal and whatever the draws, `resolveGoal` returns: the tag of a meal, an error, or
  -- an intent, whose target is a tile that the agent can walk to over passable tiles, or, for a
  -- wandering, a passable tile, or, for a talk, the tile of the target agent, another one that
  -- lives.
  pub resolve_goal-Leads :
      (goal : Goal) (kind : Option Kind) (qty tick : ℕ)
      → Leading m s draw a idx target (resolve_goal m s draw a idx goal target kind qty tick)
  unfolding resolve_goal
  resolve_goal-Leads eat kind qty tick = resolve_eat-Leading
  resolve_goal-Leads forage kind qty tick =
      on_nearest-Leading m s draw a idx target (go_to forage) (forage_tile m s) (λ _. refl)
  resolve_goal-Leads hunt kind qty tick =
      on_nearest-Leading m s draw a idx target (go_to hunt) (den_tile m s tick) (λ _. refl)
  resolve_goal-Leads chop kind qty tick =
      beside_nearest-Leading m s draw a idx target chop (adjacent_kind m s TileKind.tree)
  resolve_goal-Leads quarry kind qty tick =
      beside_nearest-Leading m s draw a idx target quarry (adjacent_kind m s TileKind.rock)
  resolve_goal-Leads collect_water kind qty tick =
      beside_nearest-Leading m s draw a idx target collect_water (adjacent_kind m s TileKind.water)
  resolve_goal-Leads build_fire kind qty tick =
      needing_nearest m s draw a idx target (leb 2 a.inv.wood) build_fire (site_tile m s)
  resolve_goal-Leads build_shelter kind qty tick =
      needing_nearest m s draw a idx target (leb 8 a.inv.planks) build_shelter (site_tile m s)
  resolve_goal-Leads build_oven kind qty tick = build_on_site-Leading build_oven
  resolve_goal-Leads build_chest kind qty tick = build_on_site-Leading build_chest
  resolve_goal-Leads build_path kind qty tick = build_on_site-Leading build_path
  resolve_goal-Leads craft_planks kind qty tick = craft_here-Leading craft_planks
  resolve_goal-Leads craft_stone kind qty tick = craft_here-Leading craft_stone
  resolve_goal-Leads craft_spear kind qty tick = craft_here-Leading craft_spear
  resolve_goal-Leads craft_axe kind qty tick = craft_here-Leading craft_axe
  resolve_goal-Leads build_wall_plank kind qty tick = wall_build-Leading build_wall_plank
  resolve_goal-Leads build_wall_stone kind qty tick = wall_build-Leading build_wall_stone
  resolve_goal-Leads demolish kind qty tick =
      beside_nearest-Leading m s draw a idx target demolish (wall_tile s)
  resolve_goal-Leads repair kind qty tick =
      beside_nearest-Leading m s draw a idx target repair (worn_wall_tile s a.inv)
  resolve_goal-Leads refuel_fire kind qty tick =
      needing_nearest m s draw a idx target (leb 1 a.inv.wood) refuel_fire (fire_tile s)
  resolve_goal-Leads cook kind qty tick =
      needing_nearest m s draw a idx target (leb 1 a.inv.food_raw) cook (station_tile s tick)
  resolve_goal-Leads bathe kind qty tick =
      needing_nearest m s draw a idx target (has_inputs bathe a.inv) bathe (oven_tile s)
  resolve_goal-Leads drop kind qty tick =
      stays m s draw a idx target (carry drop kind qty (here a)) refl
  resolve_goal-Leads pick_up kind qty tick =
      on_nearest-Leading m s draw a idx target (carry pick_up kind qty) (pile_tile s) (λ _. refl)
  resolve_goal-Leads deposit kind qty tick =
      on_nearest-Leading m s draw a idx target (carry deposit kind qty) (chest_tile s) (λ _. refl)
  resolve_goal-Leads withdraw kind qty tick =
      on_nearest-Leading m s draw a idx target (carry withdraw kind qty) (stocked_chest_tile s kind)
        (λ _. refl)
  resolve_goal-Leads sleep kind qty tick = stays m s draw a idx target (go_to sleep (here a)) refl
  resolve_goal-Leads goto_warmth kind qty tick =
      on_nearest-Leading m s draw a idx target (go_to goto_warmth) (warm_tile m s tick) (λ _. refl)
  resolve_goal-Leads wander kind qty tick = resolve_wander-Leading m s draw a idx target
  resolve_goal-Leads talk_to kind qty tick = talk-Leading m s draw a idx target
  resolve_goal-Leads seek kind qty tick = talk-Leading m s draw a idx target
  resolve_goal-Leads cook_fire kind qty tick = tt
  resolve_goal-Leads cook_oven kind qty tick = tt
  resolve_goal-Leads attend_meeting kind qty tick = tt
  resolve_goal-Leads (other_goal n) kind qty tick = tt
