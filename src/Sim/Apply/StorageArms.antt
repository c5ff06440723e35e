-- ===== src/Sim/Apply/StorageArms.antt =====
-- internal/sim/state.go: the arms of `Apply` that move goods between pouches, piles and chests,
-- the rot, and the spill of a death.
use script_world.Prelude.{
  ℕ, ◌+◌, ◌-◌, true, false, Option, none, some, List, [], ◌∷◌, ◌++◌, if◌then◌else◌, ◌==◌, min, take,
  drop,
}
use script_world.Prelude.Int.{ℤ}
use script_world.Sim.Item.{
  Kind, wood, stone, water, planks, refined_stone, food_raw, food_cooked, meals, spears, axes,
  Inventory, minus, plus, add_item, bulk, free_bulk, chest_cap, carried_count, is_food_kind,
  sort_ints, empty_inventory,
}
use script_world.Sim.Pile.{
  Pile, add_food, add_non_food, take_food, take_non_food, take_spoiled, take_spears, take_axes,
}
use script_world.Sim.State.{
  State, Structure, put_agent, pile_at, put_pile, ensure_pile, pile_for, remove_empty_pile_at,
  chest_at, put_structure, is_chest,
}
use script_world.Sim.Apply.Base.{Outcome, done, on_agent, finish}

abbrev pub rot_window_ticks : ℕ
rot_window_ticks = 172800

-- The tools at the front of one ascending list join another.
unfoldable pub join_tools : List ℤ → List ℤ → List ℤ
join_tools held [] = held
join_tools held (u ∷ us) = sort_ints (held ++ u ∷ us)

-- `s.pileFor(x, y)`, written through.
unfoldable pub write_pile : List Pile → Pile → ℤ → ℤ → List Pile
write_pile ps p x y = put_pile (ensure_pile ps x y) x y p

-- The pile and the pouch after a drop of `n` units, which are there.
unfoldable pub drop_into : ℕ → Pile → Inventory → Kind → ℕ → Pile × Inventory
drop_into tick p inv spears n = (
  record p { spears = join_tools p.spears (take n inv.spears) },
  record inv { spears = drop n inv.spears },
)
drop_into tick p inv axes n =
    (record p { axes = join_tools p.axes (take n inv.axes) }, record inv { axes = drop n inv.axes })
drop_into tick p inv kind n = (
  if is_food_kind kind then add_food p kind n (tick + rot_window_ticks) else add_non_food p kind n,
  add_item minus inv kind n,
)

unfoldable pub apply_dropped : State → ℕ → ℤ → ℤ → ℤ → Kind → ℕ → Outcome
apply_dropped s tick i x y kind n = on_agent s i λ a.
    let n' = min n (carried_count a.inv kind) in
    let (p, inv') = drop_into tick (pile_for s.piles x y) a.inv kind n' in
    if n' == 0
    then done (put_agent s i (finish tick a))
    else let s' = put_agent s i (record (finish tick a) { inv = inv' }) in
      done (record s' { piles = write_pile s.piles p x y })

-- The `switch` of `agent.picked_up`.
unfoldable pub pick_from : Pile → Inventory → Kind → ℕ → Pile × Inventory
pick_from p inv spears n =
    let (p', taken) = take_spears p n in (p', record inv { spears = join_tools inv.spears taken })
pick_from p inv axes n =
    let (p', taken) = take_axes p n in (p', record inv { axes = join_tools inv.axes taken })
pick_from p inv kind n =
    let (p', taken) = if is_food_kind kind then take_food p kind n else take_non_food p kind n in
    (p', add_item plus inv kind taken)

unfoldable pub apply_picked_up : State → ℕ → ℤ → ℤ → ℤ → Kind → ℕ → Outcome
apply_picked_up s tick i x y kind n = on_agent s i λ a. elim (pile_at s.piles x y) [
  | none ↦ done (put_agent s i (finish tick a))
  | some p ↦
      let (p', inv') = pick_from p a.inv kind (min n (free_bulk a.inv)) in
      let s' = put_agent s i (record (finish tick a) { inv = inv' }) in
      done (record s' { piles = remove_empty_pile_at (put_pile s.piles x y p') x y })
]

-- What a transfer of `n` units, which are there, does to the two inventories.
unfoldable pub move_goods : Inventory → Inventory → Kind → ℕ → Inventory × Inventory
move_goods from to spears n = (
  record from { spears = drop n from.spears },
  record to { spears = join_tools to.spears (take n from.spears) },
)
move_goods from to axes n = (
  record from { axes = drop n from.axes },
  record to { axes = join_tools to.axes (take n from.axes) },
)
move_goods from to kind n = (add_item minus from kind n, add_item plus to kind n)

-- `&s.Structures[k].Store`, written through the pointer of `chestAt`.
unfoldable pub write_store : List Structure → Structure → Inventory → ℤ → ℤ → List Structure
write_store sts ch inv x y = put_structure is_chest x y (record ch { store = some inv }) sts

-- `ch != nil && ch.Store != nil`.
unfoldable pub store_at : List Structure → ℤ → ℤ → Option (Structure × Inventory)
store_at sts x y = elim (chest_at sts x y) [
  | none ↦ none
  | some ch ↦ elim ch.store [ none ↦ none | some inv ↦ some (ch, inv) ]
]

unfoldable pub apply_deposited : State → ℕ → ℤ → ℤ → ℤ → Kind → ℕ → Outcome
apply_deposited s tick i x y kind n = on_agent s i λ a. elim (store_at s.structures x y) [
  | none ↦ done (put_agent s i (finish tick a))
  | some (ch, store) ↦
      let n' = min (min n (carried_count a.inv kind)) (chest_cap - bulk store) in
      let (inv', store') = move_goods a.inv store kind n' in
      let s' = put_agent s i (record (finish tick a) { inv = inv' }) in
      done (record s' { structures = write_store s.structures ch store' x y })
]

unfoldable pub apply_withdrew : State → ℕ → ℤ → ℤ → ℤ → Kind → ℕ → Outcome
apply_withdrew s tick i x y kind n = on_agent s i λ a. elim (store_at s.structures x y) [
  | none ↦ done (put_agent s i (finish tick a))
  | some (ch, store) ↦
      let n' = min (min n (free_bulk a.inv)) (carried_count store kind) in
      let (store', inv') = move_goods store a.inv kind n' in
      let s' = put_agent s i (record (finish tick a) { inv = inv' }) in
      done (record s' { structures = write_store s.structures ch store' x y })
]

unfoldable pub apply_food_rotted : State → ℕ → ℤ → ℤ → Kind → ℕ → Outcome
apply_food_rotted s tick x y kind n = elim (pile_at s.piles x y) [
  | none ↦ done s
  | some p ↦ done (record s {
    piles = remove_empty_pile_at (put_pile s.piles x y (take_spoiled p kind n tick).0) x y;
  })
]

-- The eight counts of the spill of `agent.died`, in their order.
unfoldable pub spill_counted : ℕ → Pile → Inventory → Pile
spill_counted tick p inv =
    let p1 = add_non_food p wood inv.wood in
    let p2 = add_non_food p1 stone inv.stone in
    let p3 = add_non_food p2 water inv.water in
    let p4 = add_non_food p3 planks inv.planks in
    let p5 = add_non_food p4 refined_stone inv.refined_stone in
    let p6 = add_food p5 food_raw inv.food_raw (tick + rot_window_ticks) in
    let p7 = add_food p6 food_cooked inv.food_cooked (tick + rot_window_ticks) in
    add_food p7 meals inv.meals (tick + rot_window_ticks)

-- And then the tools.
unfoldable pub spill : ℕ → Pile → Inventory → Pile
spill tick p inv =
    let q = spill_counted tick p inv in
    record q { spears = join_tools q.spears inv.spears; axes = join_tools q.axes inv.axes }

unfoldable pub apply_died : State → ℕ → ℤ → Outcome
apply_died s tick i = on_agent s i λ a.
    let dead = record a { dead = true; asleep = false; intent = none; hail = none } in
    if bulk a.inv == 0
    then done (put_agent s i dead)
    else let s' = put_agent s i (record dead { inv = empty_inventory }) in
      done (record s' {
        piles = write_pile s.piles (spill tick (pile_for s.piles a.x a.y) a.inv) a.x a.y;
      })
