-- ===== src/Sim/Apply/WorkArms.antt =====
-- internal/sim/state.go: the arms of `Apply` for gathering, building, crafting and eating.
use script_world.Prelude.{
  ℕ, ◌+◌, ◌-◌, ◌*◌, ◌&&◌, Option, none, some, List, [], ◌∷◌, ◌++◌, if◌then◌else◌, min, drop,
}
use script_world.Prelude.Int.{ℤ, pos}
use script_world.Sim.Item.{
  Kind, food_cooked, meals, spear, axe, Inventory, Item, minus, plus, add_items, free_bulk,
  sort_ints, spend_use, empty_inventory,
}
use script_world.Sim.Recipe.{
  Recipe, StructureKind, recipe_for, craft_goal_for, build_goal, is_wall, wall_max_hp,
}
use script_world.Sim.State.{
  State, Needs, Structure, Harvest, DenUse, at_xy, put_agent, is_fire, is_chest,
}
use script_world.Sim.Event.{Station, at_oven, elsewhere}
use script_world.Sim.Apply.Base.{Outcome, no_recipe, done, on_agent, finish}

abbrev pub forage_regrow_sec : ℕ
forage_regrow_sec = 43200

abbrev pub den_cooldown_sec : ℕ
den_cooldown_sec = 21600

abbrev pub fire_burn_per_wood : ℕ
fire_burn_per_wood = 14400

-- `if len(tools) > 0 { yield = with }`.
abbrev pub yield_by : List ℤ → ℕ → ℕ → ℕ
yield_by [] bare equipped = bare
yield_by (_ ∷ _) bare equipped = equipped

unfoldable pub apply_foraged : State → ℕ → ℤ → ℤ → ℤ → Outcome
apply_foraged s tick i x y = on_agent s i λ a.
    let inv : Inventory = a.inv in
    let inv' = record inv { food_raw = inv.food_raw + min 2 (free_bulk inv) } in
    let s' = put_agent s i (record (finish tick a) { inv = inv' }) in
    done (record s' {
      harvested = s'.harvested ++ record { x = x; y = y; regrow = tick + forage_regrow_sec } ∷ [];
    })

unfoldable pub apply_chopped : State → ℕ → ℤ → ℤ → ℤ → Outcome
apply_chopped s tick i x y = on_agent s i λ a.
    let inv : Inventory = a.inv in
    let inv' = record inv {
      wood = inv.wood + min (yield_by inv.axes 1 3) (free_bulk inv);
      axes = spend_use inv.axes;
    } in
    let s' = put_agent s i (record (finish tick a) { inv = inv' }) in
    done (record s' { cleared = s'.cleared ++ record { x = x; y = y } ∷ [] })

-- The den's old mark goes and a new one is appended.
unfoldable pub without_den : ℤ → ℤ → List DenUse → List DenUse
without_den x y [] = []
without_den x y (d ∷ ds) = if at_xy d.x d.y x y then without_den x y ds else d ∷ without_den x y ds

unfoldable pub apply_hunted : State → ℕ → ℤ → ℤ → ℤ → Outcome
apply_hunted s tick i x y = on_agent s i λ a.
    let inv : Inventory = a.inv in
    let inv' = record inv {
      food_raw = inv.food_raw + min (yield_by inv.spears 8 12) (free_bulk inv);
      spears = spend_use inv.spears;
    } in
    let s' = put_agent s i (record (finish tick a) { inv = inv' }) in
    done (record s' {
      den_uses =
          without_den x y s'.den_uses
          ++ record { x = x; y = y; ready = tick + den_cooldown_sec } ∷ [];
    })

unfoldable pub apply_quarried : State → ℕ → ℤ → ℤ → ℤ → Outcome
apply_quarried s tick i x y = on_agent s i λ a.
    let inv : Inventory = a.inv in
    let inv' = record inv {
      stone = inv.stone + min (yield_by inv.axes 1 3) (free_bulk inv);
      axes = spend_use inv.axes;
    } in
    let s' = put_agent s i (record (finish tick a) { inv = inv' }) in
    done (record s' { quarried = s'.quarried ++ record { x = x; y = y } ∷ [] })

unfoldable pub apply_collected_water : State → ℕ → ℤ → Outcome
apply_collected_water s tick i = on_agent s i λ a.
    let inv : Inventory = a.inv in
    let inv' = record inv { water = inv.water + min 1 (free_bulk inv) } in
    done (put_agent s i (record (finish tick a) { inv = inv' }))

unfoldable pub without_harvest : ℤ → ℤ → List Harvest → List Harvest
without_harvest x y [] = []
without_harvest x y (h ∷ hs) =
    if at_xy h.x h.y x y then without_harvest x y hs else h ∷ without_harvest x y hs

unfoldable pub apply_forage_regrown : State → ℤ → ℤ → Outcome
apply_forage_regrown s x y = done (record s { harvested = without_harvest x y s.harvested })

abbrev pub inputs_of : Option Recipe → List Item
inputs_of none = []
inputs_of (some r) = r.inputs

-- The structure that `agent.built` appends.
unfoldable pub built_structure : ℕ → ℤ → StructureKind → ℤ → ℤ → Structure
built_structure tick i kind x y = record {
  kind = kind;
  x = x;
  y = y;
  fuel_until = if is_fire kind then tick + 2 * fire_burn_per_wood else 0;
  owner = if is_chest kind then i else pos 0;
  store = if is_chest kind then some empty_inventory else none;
  hp = if is_wall kind then wall_max_hp kind else 0;
}

unfoldable pub apply_built : State → ℕ → ℤ → StructureKind → ℤ → ℤ → Outcome
apply_built s tick i kind x y = on_agent s i λ a.
    let inv' = add_items a.inv (inputs_of (recipe_for (build_goal kind))) minus in
    let s' = put_agent s i (record (finish tick a) { inv = inv' }) in
    done (record s' { structures = s'.structures ++ built_structure tick i kind x y ∷ [] })

unfoldable pub apply_ate : State → ℤ → ℕ → ℕ → ℕ → ℕ → Outcome
apply_ate s i from_meals from_cooked from_raw food_after = on_agent s i λ a.
    let inv : Inventory = a.inv in
    let needs : Needs = a.needs in
    let inv' = record inv {
      meals = inv.meals - from_meals;
      food_cooked = inv.food_cooked - from_cooked;
      food_raw = inv.food_raw - from_raw;
    } in
    done (put_agent s i (record a { inv = inv'; needs = record needs { food = food_after } }))

-- The `switch` of `agent.crafted`: a spear lasts 3 uses, an axe 10.
unfoldable pub crafted_outputs : Inventory → Kind → List Item → Inventory
crafted_outputs inv spear outputs = record inv { spears = sort_ints (inv.spears ++ pos 3 ∷ []) }
crafted_outputs inv axe outputs = record inv { axes = sort_ints (inv.axes ++ pos 10 ∷ []) }
crafted_outputs inv _ outputs = add_items inv outputs plus

abbrev pub recipe_of_kind : Kind → Option Recipe
recipe_of_kind k = elim (craft_goal_for k) [ none ↦ none | some g ↦ recipe_for g ]

unfoldable pub apply_crafted : State → ℕ → ℤ → Kind → Outcome
apply_crafted s tick i kind = on_agent s i λ a. elim (recipe_of_kind kind) [
  | none ↦ (s, some (no_recipe kind))
  | some r ↦
      let inv' = crafted_outputs (add_items a.inv r.inputs minus) kind r.outputs in
      done (put_agent s i (record (finish tick a) { inv = inv' }))
]

-- The two `switch` steps of `agent.cooked` after the raw food is spent.
abbrev pub add_cooked : Inventory → Kind → ℕ → Inventory
add_cooked inv food_cooked n = record inv { food_cooked = inv.food_cooked + n }
add_cooked inv meals n = record inv { meals = inv.meals + n }
add_cooked inv _ n = inv

abbrev pub burn_wood : Inventory → Station → Inventory
burn_wood inv at_oven = record inv { wood = inv.wood - 1 }
burn_wood inv elsewhere = inv

unfoldable pub apply_cooked : State → ℕ → ℤ → Station → ℕ → ℕ → Kind → Outcome
apply_cooked s tick i station consumed produced kind = on_agent s i λ a.
    let inv : Inventory = a.inv in
    let raw = record inv { food_raw = inv.food_raw - consumed } in
    let inv' = burn_wood (add_cooked raw kind produced) station in
    done (put_agent s i (record (finish tick a) { inv = inv' }))

unfoldable pub apply_bathed : State → ℕ → ℤ → ℕ → ℕ → Outcome
apply_bathed s tick i morale_after warmth_after = on_agent s i λ a.
    let inv : Inventory = a.inv in
    let needs : Needs = a.needs in
    let inv' = record inv { water = inv.water - 1; wood = inv.wood - 1 } in
    done (
      put_agent s i (record (finish tick a) {
        inv = inv';
        needs = record needs { morale = morale_after; warmth = warmth_after };
      }))

-- The loop of `agent.refueled` over the structures.
unfoldable pub refuel_at : ℤ → ℤ → ℕ → List Structure → List Structure
refuel_at x y until [] = []
refuel_at x y until (st ∷ sts) =
    if is_fire st.kind && at_xy st.x st.y x y
    then record st { fuel_until = until } ∷ sts
    else st ∷ refuel_at x y until sts

unfoldable pub apply_refueled : State → ℕ → ℤ → ℤ → ℤ → ℕ → Outcome
apply_refueled s tick i x y until = on_agent s i λ a.
    let inv : Inventory = a.inv in
    let s' = put_agent s i (record (finish tick a) { inv = record inv { wood = inv.wood - 1 } }) in
    done (record s' { structures = refuel_at x y until s'.structures })

unfoldable pub apply_spear_broke : State → ℤ → Outcome
apply_spear_broke s i = on_agent s i λ a.
    let inv : Inventory = a.inv in
    done (put_agent s i (record a { inv = record inv { spears = drop 1 inv.spears } }))

unfoldable pub apply_axe_broke : State → ℤ → Outcome
apply_axe_broke s i = on_agent s i λ a.
    let inv : Inventory = a.inv in
    done (put_agent s i (record a { inv = record inv { axes = drop 1 inv.axes } }))
