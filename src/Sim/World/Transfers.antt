-- ===== src/Sim/World/Transfers.antt =====
-- What the transfers between pouches, piles and chests conserve: the amount of every kind.
use script_world.Prelude.{
  ℕ, ◌+◌, ◌≤◌, ◌<◌, ◌≡◌, refl, Bool, true, false, arith, take, length-take, length-drop, min,
  if◌then◌else◌,
}
use script_world.Sim.Item.{
  Kind, wood, stone, water, planks, refined_stone, food_raw, food_cooked, meals, spears, axes,
  Inventory, carried_count, kind_eq, is_food_kind, is_counted,
}
use script_world.Sim.Item.Laws.{carried_count-plus, carried_count-minus}
use script_world.Sim.Pile.{
  Pile, add_food, add_non_food, take_food, take_non_food, take_spears, take_axes, avail, sum_food,
  is_empty,
}
use script_world.Sim.Pile.Laws.{
  avail-add_food, avail-add_non_food, avail-take_food, avail-take_non_food,
}
use script_world.Sim.Apply.StorageArms.{
  join_tools, drop_into, pick_from, move_goods, spill, spill_counted, rot_window_ticks,
}
use script_world.Sim.World.Goods.{length-join_tools}

-- The kinds that a transfer moves.
abbrev pub is_stored : Kind → Bool
is_stored spears = true
is_stored axes = true
is_stored k = is_counted k

pub stored_count : (inv : Inventory) (k : Kind) → is_stored k ≡ false → carried_count inv k ≡ 0
unfolding carried_count
stored_count inv k h = ground arith

-- A transfer of `n` units, which the giver has, moves them from one inventory to the other.
pub move_goods_counts :
    (from to : Inventory) (k j : Kind) (n : ℕ)
    → is_stored k ≡ true
    → n ≤ carried_count from k
    → (carried_count (move_goods from to k n).0 j + (if kind_eq k j then n else 0)
        ≡ carried_count from j)
      × (carried_count (move_goods from to k n).1 j
          ≡ carried_count to j + (if kind_eq k j then n else 0))
unfolding move_goods carried_count kind_eq
move_goods_counts from to spears j n s h = ground (
  arith,
  length-drop n from.spears,
  length-take n from.spears,
  length-join_tools to.spears (take n from.spears),
)
move_goods_counts from to axes j n s h = ground (
  arith,
  length-drop n from.axes,
  length-take n from.axes,
  length-join_tools to.axes (take n from.axes),
)
move_goods_counts from to k j n s h =
    (carried_count-minus from k j n s h, carried_count-plus to k j n s)

pub drop_into_counts :
    (tick : ℕ) (p : Pile) (inv : Inventory) (k j : Kind) (n : ℕ)
    → is_stored k ≡ true
    → n ≤ carried_count inv k
    → (carried_count (drop_into tick p inv k n).1 j + (if kind_eq k j then n else 0)
        ≡ carried_count inv j)
      × (avail (drop_into tick p inv k n).0 j ≡ avail p j + (if kind_eq k j then n else 0))
unfolding drop_into carried_count kind_eq avail is_food_kind
drop_into_counts tick p inv spears j n s h = ground (
  arith,
  length-drop n inv.spears,
  length-take n inv.spears,
  length-join_tools p.spears (take n inv.spears),
)
drop_into_counts tick p inv axes j n s h = ground (
  arith,
  length-drop n inv.axes,
  length-take n inv.axes,
  length-join_tools p.axes (take n inv.axes),
)
drop_into_counts tick p inv food_raw j n s h = (
  carried_count-minus inv food_raw j n s h,
  avail-add_food p food_raw j n (tick + rot_window_ticks) refl,
)
drop_into_counts tick p inv food_cooked j n s h = (
  carried_count-minus inv food_cooked j n s h,
  avail-add_food p food_cooked j n (tick + rot_window_ticks) refl,
)
drop_into_counts tick p inv meals j n s h = (
  carried_count-minus inv meals j n s h,
  avail-add_food p meals j n (tick + rot_window_ticks) refl,
)
drop_into_counts tick p inv wood j n s h =
    (carried_count-minus inv wood j n s h, avail-add_non_food p wood j n refl)
drop_into_counts tick p inv stone j n s h =
    (carried_count-minus inv stone j n s h, avail-add_non_food p stone j n refl)
drop_into_counts tick p inv water j n s h =
    (carried_count-minus inv water j n s h, avail-add_non_food p water j n refl)
drop_into_counts tick p inv planks j n s h =
    (carried_count-minus inv planks j n s h, avail-add_non_food p planks j n refl)
drop_into_counts tick p inv refined_stone j n s h =
    (carried_count-minus inv refined_stone j n s h, avail-add_non_food p refined_stone j n refl)
drop_into_counts tick p inv k j n s h = absurd (cc s)

-- The units that a pickup gets: those asked for, up to those there.
abbrev pub got : Pile → Kind → ℕ → ℕ
got p k n = min n (avail p k)

pub pick_from_counts :
    (p : Pile) (inv : Inventory) (k j : Kind) (n : ℕ)
    → is_stored k ≡ true
    → (avail (pick_from p inv k n).0 j + (if kind_eq k j then got p k n else 0) ≡ avail p j)
      × (carried_count (pick_from p inv k n).1 j
          ≡ carried_count inv j + (if kind_eq k j then got p k n else 0))
unfolding pick_from carried_count kind_eq avail is_food_kind take_spears take_axes
pick_from_counts p inv spears j n s = ground (
  arith,
  length-drop n p.spears,
  length-take n p.spears,
  length-join_tools inv.spears (take n p.spears),
)
pick_from_counts p inv axes j n s =
    ground (
      arith,
      length-drop n p.axes,
      length-take n p.axes,
      length-join_tools inv.axes (take n p.axes),
    )
pick_from_counts p inv food_raw j n s = ground (
  arith,
  avail-take_food p food_raw j n refl,
  carried_count-plus inv food_raw j (take_food p food_raw n).1 refl,
)
pick_from_counts p inv food_cooked j n s = ground (
  arith,
  avail-take_food p food_cooked j n refl,
  carried_count-plus inv food_cooked j (take_food p food_cooked n).1 refl,
)
pick_from_counts p inv meals j n s = ground (
  arith,
  avail-take_food p meals j n refl,
  carried_count-plus inv meals j (take_food p meals n).1 refl,
)
pick_from_counts p inv wood j n s = ground (
  arith,
  avail-take_non_food p wood j n refl,
  carried_count-plus inv wood j (take_non_food p wood n).1 refl,
)
pick_from_counts p inv stone j n s = ground (
  arith,
  avail-take_non_food p stone j n refl,
  carried_count-plus inv stone j (take_non_food p stone n).1 refl,
)
pick_from_counts p inv water j n s = ground (
  arith,
  avail-take_non_food p water j n refl,
  carried_count-plus inv water j (take_non_food p water n).1 refl,
)
pick_from_counts p inv planks j n s = ground (
  arith,
  avail-take_non_food p planks j n refl,
  carried_count-plus inv planks j (take_non_food p planks n).1 refl,
)
pick_from_counts p inv refined_stone j n s = ground (
  arith,
  avail-take_non_food p refined_stone j n refl,
  carried_count-plus inv refined_stone j (take_non_food p refined_stone n).1 refl,
)
pick_from_counts p inv k j n s = absurd (cc s)

-- What a transfer of `n` units of kind `k` adds to kind `j`.
abbrev added : Kind → Kind → ℕ → ℕ
added k j n = if kind_eq k j then n else 0

spill_counted_counts :
    (tick : ℕ) (p : Pile) (inv : Inventory) (j : Kind)
    → avail (spill_counted tick p inv) j
      ≡ avail p j
        + added wood j inv.wood
        + added stone j inv.stone
        + added water j inv.water
        + added planks j inv.planks
        + added refined_stone j inv.refined_stone
        + added food_raw j inv.food_raw
        + added food_cooked j inv.food_cooked
        + added meals j inv.meals
unfolding spill_counted is_food_kind
spill_counted_counts tick p inv j =
    let late = tick + rot_window_ticks in
    let p1 = add_non_food p wood inv.wood in
    let p2 = add_non_food p1 stone inv.stone in
    let p3 = add_non_food p2 water inv.water in
    let p4 = add_non_food p3 planks inv.planks in
    let p5 = add_non_food p4 refined_stone inv.refined_stone in
    let p6 = add_food p5 food_raw inv.food_raw late in
    let p7 = add_food p6 food_cooked inv.food_cooked late in
    let e1 = avail-add_non_food p wood j inv.wood refl in
    let e2 = avail-add_non_food p1 stone j inv.stone refl in
    let e3 = avail-add_non_food p2 water j inv.water refl in
    let e4 = avail-add_non_food p3 planks j inv.planks refl in
    let e5 = avail-add_non_food p4 refined_stone j inv.refined_stone refl in
    let e6 = avail-add_food p5 food_raw j inv.food_raw late refl in
    let e7 = avail-add_food p6 food_cooked j inv.food_cooked late refl in
    let e8 = avail-add_food p7 meals j inv.meals late refl in omega arith

-- The tools of the pouch on a pile that has got its counts.
tools_counts :
    (p q : Pile) (inv : Inventory) (j : Kind)
    → avail q j
      ≡ avail p j
        + added wood j inv.wood
        + added stone j inv.stone
        + added water j inv.water
        + added planks j inv.planks
        + added refined_stone j inv.refined_stone
        + added food_raw j inv.food_raw
        + added food_cooked j inv.food_cooked
        + added meals j inv.meals
    → avail
        (record q { spears = join_tools q.spears inv.spears; axes = join_tools q.axes inv.axes })
        j
      ≡ avail p j + carried_count inv j
unfolding avail carried_count kind_eq
tools_counts p q inv spears e = omega (arith, e, length-join_tools q.spears inv.spears)
tools_counts p q inv axes e = omega (arith, e, length-join_tools q.axes inv.axes)
tools_counts p q inv j e = ground arith

-- The spill of a death puts the whole pouch on the pile.
pub spill_counts :
    (tick : ℕ) (p : Pile) (inv : Inventory) (j : Kind)
    → avail (spill tick p inv) j ≡ avail p j + carried_count inv j
unfolding spill
spill_counts tick p inv j =
    let q = spill_counted tick p inv in tools_counts p q inv j (spill_counted_counts tick p inv j)

-- A pile that holds some unit is not empty.
pub avail-not_empty : (p : Pile) (k : Kind) → 0 < avail p k → is_empty p ≡ false
unfolding avail is_empty
avail-not_empty p k h = ground arith

pub avail-empty : (p : Pile) (k : Kind) → is_empty p ≡ true → avail p k ≡ 0
unfolding avail is_empty sum_food
avail-empty p k h = ground arith
