-- ===== src/Tests/Goods.antt =====
-- Tests of the items, recipes and piles of internal/sim.
use script_world.Prelude.{ℕ, ◌≡◌, refl, true, none, some, [], ◌∷◌}
use script_world.Prelude.Int.{pos, ◌+ℤ◌}
use script_world.Sim.Item.{wood, planks, food_raw, bulk, has_items, kind_eq}
use script_world.Sim.Recipe.{Recipe, Goal, anywhere, recipe_for, craft_goal_for, craft_net_bulk}
use script_world.Sim.Recipe.Laws.{apply-crafted_net}
use script_world.Sim.State.{Agent, agent_at, put_agent}
use script_world.Sim.Event.{Event}
use script_world.Sim.Apply.{apply}
use script_world.Sim.Apply.WorkArms.{recipe_of_kind}
use script_world.Tests.Camp.{camp, ada}
use script_world.Sim.Pile.{Pile, FoodBatch, empty_pile, add_food, take_food, take_spoiled}

abbrev batch : ℕ → ℕ → FoodBatch
batch n d = record { kind = food_raw; n = n; spoil_at = d }

-- Two batches of raw food on one tile.
abbrev larder : Pile
larder = record (empty_pile (pos 0) (pos 0)) { food = batch 2 100 ∷ batch 4 200 ∷ [] }

-- Five units empty the older batch first.
drains_the_oldest : (take_food larder food_raw 5).0.food ≡ batch 1 200 ∷ []
unfolding take_food kind_eq
drains_the_oldest = refl

merges_a_batch : (add_food larder food_raw 3 200).food ≡ batch 2 100 ∷ batch 7 200 ∷ []
unfolding add_food kind_eq
merges_a_batch = refl

rots_the_spoiled : (take_spoiled larder food_raw 5 150).0.food ≡ batch 4 200 ∷ []
unfolding take_spoiled kind_eq
rots_the_spoiled = refl

abbrev planks_recipe : Recipe
planks_recipe = record {
  goal = Goal.craft_planks;
  inputs = record { kind = wood; n = 1 } ∷ [];
  outputs = record { kind = planks; n = 4 } ∷ [];
  structure = none;
  duration = 180;
  site = anywhere;
}

planks_table : recipe_of_kind planks ≡ some planks_recipe
unfolding craft_goal_for recipe_for
planks_table = refl

ada_wood : has_items ada.inv planks_recipe.inputs ≡ true
unfolding has_items
ada_wood = refl

apply-crafted_net_example :
    (a : Agent) × (apply camp 110 (Event.crafted (pos 0) planks) ≡ (put_agent camp (pos 0) a, none))
    × (pos (bulk a.inv) ≡ pos (bulk ada.inv) +ℤ craft_net_bulk planks_recipe)
unfolding agent_at
apply-crafted_net_example =
    apply-crafted_net camp 110 (pos 0) ada planks planks_recipe refl planks_table ada_wood

three_more : craft_net_bulk planks_recipe ≡ pos 3
unfolding craft_net_bulk
three_more = refl
