-- ===== src/Sim/Recipe/Laws.antt =====
-- The recipe table is consistent with itself and with the inventory's limits.
use script_world.Prelude.{
  ℕ, ◌++◌, length-append, ◌≡◌, ◌↔◌, ◌⊎◌, inl, inr, refl, true, false, none, some, [], ◌∷◌, arith,
}
use script_world.Prelude.Int.{ℤ, pos, ◌+ℤ◌}
use script_world.Sim.State.{State, Agent, agent_at, put_agent}
use script_world.Sim.Event.{Event}
use script_world.Sim.Apply.{apply}
use script_world.Sim.Apply.Base.{on_agent, finish}
use script_world.Sim.Apply.WorkArms.{apply_crafted, crafted_outputs, recipe_of_kind}
use script_world.Sim.Item.Sorted.{length-sort_ints}
use script_world.Sim.Item.{
  Kind, planks, refined_stone, Inventory, minus, add_items, has_items, bulk,
}
use script_world.Sim.Recipe.{
  Recipe, StructureKind, Goal, recipe_for, craft_goal_for, craft_kind_for, craft_net_bulk,
  build_goal, is_wall, wall_repair_material, wall_plank, wall_stone,
}

-- `craftKindFor` and `craftGoalFor` are inverse to one another.
pub craft_kind_for_iff :
    (g : Goal) (k : Kind) → (craft_kind_for g ≡ some k) ↔ (craft_goal_for k ≡ some g)
unfolding craft_kind_for craft_goal_for
craft_kind_for_iff g k = ground arith

-- The recipe that a goal finds is that goal's.
pub goal-recipe_for : (g : Goal) {r : Recipe} → recipe_for g ≡ some r → r.goal ≡ g
unfolding recipe_for
goal-recipe_for g e = ground arith

-- A wall is built from the material that mends it, and no other structure has such a material.
pub wall_material-build :
    (k : StructureKind)
    → ((wall_repair_material k ≡ none) × (is_wall k ≡ false))
      ⊎ ((m : Kind) × (r : Recipe) × (wall_repair_material k ≡ some m)
          × (is_wall k ≡ true)
          × (recipe_for (build_goal k) ≡ some r)
          × (r.inputs ≡ record { kind = m; n = 2 } ∷ []))
unfolding wall_repair_material is_wall build_goal recipe_for
wall_material-build wall_plank = inr (planks, _, refl, refl, refl, refl)
wall_material-build wall_stone = inr (refined_stone, _, refl, refl, refl, refl)
wall_material-build _ = inl (refl, refl)

-- The pouch of the crafter changes by the recipe's net bulk.
crafted-net :
    (inv : Inventory) (k : Kind) (r : Recipe)
    → recipe_of_kind k ≡ some r
    → has_items inv r.inputs ≡ true
    → pos (bulk (crafted_outputs (add_items inv r.inputs minus) k r.outputs))
      ≡ pos (bulk inv) +ℤ craft_net_bulk r
unfolding craft_goal_for recipe_for has_items bulk craft_net_bulk add_items crafted_outputs ◌+ℤ◌
crafted-net inv k r e has = ground (
  arith,
  length-sort_ints (inv.spears ++ pos 3 ∷ []),
  length-append inv.spears (pos 3 ∷ []),
  length-sort_ints (inv.axes ++ pos 10 ∷ []),
  length-append inv.axes (pos 10 ∷ []),
)

-- Where the inputs of a kind's recipe are in the pouch of an agent, the reducer takes a craft of the
-- kind, and it changes the bulk of the pouch by exactly the recipe's net bulk, with a spear and an
-- axe counted as one each.
pub apply-crafted_net :
    (s : State) (tick : ℕ) (i : ℤ) (a : Agent) (k : Kind) (r : Recipe)
    → agent_at s.agents i ≡ some a
    → recipe_of_kind k ≡ some r
    → has_items a.inv r.inputs ≡ true
    → (a' : Agent) × (apply s tick (Event.crafted i k) ≡ (put_agent s i a', none))
      × (pos (bulk a'.inv) ≡ pos (bulk a.inv) +ℤ craft_net_bulk r)
unfolding apply apply_crafted on_agent
apply-crafted_net s tick i a k r at rf has =
    let inv' = crafted_outputs (add_items a.inv r.inputs minus) k r.outputs in
    (
      record (finish tick a) { inv = inv' },
      rw (at, rf, apply, apply_crafted, on_agent) refl,
      crafted-net a.inv k r rf has,
    )
