-- ===== src/Sim/Recipe.antt =====
-- internal/sim/recipes.go: the recipe table and the lookups over it.
pub mod Laws
use script_world.Prelude.{
  ℕ, ◌+◌, Bool, true, false, Option, none, some, List, [], ◌∷◌, ◌==◌, if◌then◌else◌,
}
use script_world.Prelude.Int.{ℤ, sub_ℕ}
use script_world.Sim.Item.{
  Kind, wood, stone, water, planks, refined_stone, food_raw, food_cooked, meals, spear, axe, other,
  Item,
}

-- The goals that the modelled code compares with; `other_goal` is any other string.
pub data Goal : Type 0 where
  craft_planks craft_stone craft_spear craft_axe : Goal
  build_fire build_shelter build_oven build_chest build_wall_plank build_wall_stone : Goal
  build_path cook_fire cook_oven bathe refuel_fire attend_meeting : Goal
  eat forage hunt chop quarry collect_water demolish repair cook drop pick_up deposit withdraw :
      Goal
  sleep goto_warmth wander talk_to seek : Goal
  other_goal : ℕ → Goal

-- The field `Kind` of a structure.
pub data StructureKind : Type 0 where
  fire shelter oven chest wall_plank wall_stone path : StructureKind
  other_structure : ℕ → StructureKind

-- String equality of two goals.
unfoldable pub goal_eq : Goal → Goal → Bool
goal_eq craft_planks craft_planks = true
goal_eq craft_stone craft_stone = true
goal_eq craft_spear craft_spear = true
goal_eq craft_axe craft_axe = true
goal_eq build_fire build_fire = true
goal_eq build_shelter build_shelter = true
goal_eq build_oven build_oven = true
goal_eq build_chest build_chest = true
goal_eq build_wall_plank build_wall_plank = true
goal_eq build_wall_stone build_wall_stone = true
goal_eq build_path build_path = true
goal_eq cook_fire cook_fire = true
goal_eq cook_oven cook_oven = true
goal_eq bathe bathe = true
goal_eq refuel_fire refuel_fire = true
goal_eq attend_meeting attend_meeting = true
goal_eq eat eat = true
goal_eq forage forage = true
goal_eq hunt hunt = true
goal_eq chop chop = true
goal_eq quarry quarry = true
goal_eq collect_water collect_water = true
goal_eq demolish demolish = true
goal_eq repair repair = true
goal_eq cook cook = true
goal_eq drop drop = true
goal_eq pick_up pick_up = true
goal_eq deposit deposit = true
goal_eq withdraw withdraw = true
goal_eq sleep sleep = true
goal_eq goto_warmth goto_warmth = true
goal_eq wander wander = true
goal_eq talk_to talk_to = true
goal_eq seek seek = true
goal_eq (other_goal a) (other_goal b) = a == b
goal_eq _ _ = false

-- String equality of two structure kinds.
unfoldable pub structure_eq : StructureKind → StructureKind → Bool
structure_eq fire fire = true
structure_eq shelter shelter = true
structure_eq oven oven = true
structure_eq chest chest = true
structure_eq wall_plank wall_plank = true
structure_eq wall_stone wall_stone = true
structure_eq path path = true
structure_eq (other_structure a) (other_structure b) = a == b
structure_eq _ _ = false

pub data Site : Type 0 where
  anywhere on_site station : Site

pub record Recipe : Type 0 where
  pub goal : Goal
  pub inputs : List Item
  pub outputs : List Item
  pub structure : Option StructureKind
  pub duration : ℕ
  pub site : Site

abbrev item : Kind → ℕ → Item
item k n = record { kind = k; n = n }

abbrev craft : Goal → List Item → List Item → ℕ → Recipe
craft g i o d = record {
  goal = g;
  inputs = i;
  outputs = o;
  structure = none;
  duration = d;
  site = anywhere;
}

abbrev build : Goal → List Item → StructureKind → ℕ → Recipe
build g i s d = record {
  goal = g;
  inputs = i;
  outputs = [];
  structure = some s;
  duration = d;
  site = on_site;
}

abbrev at_station : Goal → List Item → List Item → ℕ → Recipe
at_station g i o d = record {
  goal = g;
  inputs = i;
  outputs = o;
  structure = none;
  duration = d;
  site = station;
}

-- The table `recipes`, with the constants of agents.go put in.
unfoldable pub recipes : List Recipe
recipes =
    craft craft_planks (item wood 1 ∷ []) (item planks 4 ∷ []) 180
    ∷ craft craft_stone (item stone 1 ∷ []) (item refined_stone 1 ∷ []) 180
    ∷ craft craft_spear (item wood 1 ∷ item refined_stone 1 ∷ []) (item spear 1 ∷ []) 240
    ∷ craft craft_axe (item planks 1 ∷ item stone 1 ∷ []) (item axe 1 ∷ []) 240
    ∷ build build_fire (item wood 2 ∷ []) fire 600
    ∷ build build_shelter (item planks 8 ∷ []) shelter 1200
    ∷ build build_oven (item refined_stone 4 ∷ item planks 2 ∷ []) oven 900
    ∷ build build_chest (item planks 6 ∷ []) chest 600
    ∷ build build_wall_plank (item planks 2 ∷ []) wall_plank 600
    ∷ build build_wall_stone (item refined_stone 2 ∷ []) wall_stone 600
    ∷ build build_path (item stone 1 ∷ []) path 240
    ∷ at_station cook_fire (item food_raw 8 ∷ []) (item food_cooked 8 ∷ []) 240
    ∷ at_station cook_oven (item wood 1 ∷ item food_raw 8 ∷ []) (item meals 8 ∷ []) 360
    ∷ at_station bathe (item water 1 ∷ item wood 1 ∷ []) [] 240
    ∷ at_station refuel_fire (item wood 1 ∷ []) [] 0
    ∷ []

find_recipe : Goal → List Recipe → Option Recipe
find_recipe g [] = none
find_recipe g (r ∷ rs) = if goal_eq r.goal g then some r else find_recipe g rs

unfoldable pub recipe_for : Goal → Option Recipe
unfolding find_recipe goal_eq recipes
recipe_for g = find_recipe g recipes

sum_items : List Item → ℕ
sum_items [] = 0
sum_items (it ∷ items) = it.n + sum_items items

-- Outputs minus inputs.
unfoldable pub craft_net_bulk : Recipe → ℤ
unfolding sum_items
craft_net_bulk r = sub_ℕ (sum_items r.outputs) (sum_items r.inputs)

-- `none` is the empty string.
unfoldable pub craft_kind_for : Goal → Option Kind
craft_kind_for craft_planks = some planks
craft_kind_for craft_stone = some refined_stone
craft_kind_for craft_spear = some spear
craft_kind_for craft_axe = some axe
craft_kind_for _ = none

unfoldable pub craft_goal_for : Kind → Option Goal
craft_goal_for planks = some craft_planks
craft_goal_for refined_stone = some craft_stone
craft_goal_for spear = some craft_spear
craft_goal_for axe = some craft_axe
craft_goal_for _ = none

-- `"build_" + kind`.
unfoldable pub build_goal : StructureKind → Goal
build_goal fire = build_fire
build_goal shelter = build_shelter
build_goal oven = build_oven
build_goal chest = build_chest
build_goal wall_plank = build_wall_plank
build_goal wall_stone = build_wall_stone
build_goal path = build_path
build_goal (other_structure n) = other_goal n

unfoldable pub is_wall : StructureKind → Bool
is_wall wall_plank = true
is_wall wall_stone = true
is_wall _ = false

unfoldable pub wall_max_hp : StructureKind → ℕ
wall_max_hp wall_plank = 200
wall_max_hp wall_stone = 600
wall_max_hp _ = 0

-- The inventory kind that mends a wall; `none` is the empty string.
unfoldable pub wall_repair_material : StructureKind → Option Kind
wall_repair_material wall_plank = some planks
wall_repair_material wall_stone = some refined_stone
wall_repair_material _ = none
