-- ===== src/Sim/World/Goods.antt =====
-- What the inventory operations keep of a stock.
use script_world.Prelude.{
  ℕ, ◌+◌, ◌≤◌, ◌≡◌, List, [], ◌∷◌, ◌++◌, arith, length, take, drop, length-take, length-drop,
  length-append,
}
use script_world.Prelude.Int.{ℤ}
use script_world.Sim.Item.{
  Kind, spears, axes, Inventory, Item, minus, plus, add_item, add_items, bulk, empty_inventory,
}
use script_world.Sim.Item.Sorted.{IsSorted, sort_ints-IsSorted, length-sort_ints, drop-IsSorted}
use script_world.Sim.Item.Laws.{bulk-plus, bulk-minus}
use script_world.Sim.Apply.StorageArms.{join_tools, move_goods}
use script_world.Sim.World.{IsStock}

pub empty-IsStock : (limit : ℕ) → IsStock limit empty_inventory
unfolding bulk
empty-IsStock limit = ground arith

pub plus-IsStock :
    {limit : ℕ} (inv : Inventory) (k : Kind) (n : ℕ)
    → IsStock limit inv
    → bulk inv + n ≤ limit
    → IsStock limit (add_item plus inv k n)
unfolding add_item
plus-IsStock inv k n v h = ground (arith, bulk-plus inv k n)

pub minus-IsStock :
    {limit : ℕ} (inv : Inventory) (k : Kind) (n : ℕ)
    → IsStock limit inv
    → IsStock limit (add_item minus inv k n)
unfolding add_item
minus-IsStock inv k n v = ground (arith, bulk-minus inv k n)

pub spend-IsStock :
    {limit : ℕ} (inv : Inventory) (items : List Item)
    → IsStock limit inv
    → IsStock limit (add_items inv items minus)
unfolding add_items
spend-IsStock inv [] v = v
spend-IsStock inv (it ∷ items) v =
    spend-IsStock (add_item minus inv it.kind it.n) items (minus-IsStock inv it.kind it.n v)

pub join_tools-IsSorted : (held moved : List ℤ) → IsSorted held → IsSorted (join_tools held moved)
unfolding join_tools
join_tools-IsSorted held [] h = h
join_tools-IsSorted held (u ∷ us) h = sort_ints-IsSorted (held ++ u ∷ us)

pub length-join_tools :
    (held moved : List ℤ) → length (join_tools held moved) ≡ length held + length moved
unfolding join_tools
length-join_tools held [] = omega arith
length-join_tools held (u ∷ us) =
    omega (arith, length-sort_ints (held ++ u ∷ us), length-append held (u ∷ us))

-- A pouch or store without the front of its spears, and one with more of them.
pub fewer_spears-IsStock :
    {limit : ℕ} (inv : Inventory) (n : ℕ)
    → IsStock limit inv
    → IsStock limit (record inv { spears = drop n inv.spears })
unfolding bulk
fewer_spears-IsStock inv n v = ground (arith, length-drop n inv.spears, drop-IsSorted n inv.spears)

pub fewer_axes-IsStock :
    {limit : ℕ} (inv : Inventory) (n : ℕ)
    → IsStock limit inv
    → IsStock limit (record inv { axes = drop n inv.axes })
unfolding bulk
fewer_axes-IsStock inv n v = ground (arith, length-drop n inv.axes, drop-IsSorted n inv.axes)

pub more_spears-IsStock :
    {limit : ℕ} (inv : Inventory) (us : List ℤ)
    → IsStock limit inv
    → bulk inv + length us ≤ limit
    → IsStock limit (record inv { spears = join_tools inv.spears us })
unfolding bulk
more_spears-IsStock inv us v h =
    ground (arith, length-join_tools inv.spears us, join_tools-IsSorted inv.spears us)

pub more_axes-IsStock :
    {limit : ℕ} (inv : Inventory) (us : List ℤ)
    → IsStock limit inv
    → bulk inv + length us ≤ limit
    → IsStock limit (record inv { axes = join_tools inv.axes us })
unfolding bulk
more_axes-IsStock inv us v h =
    ground (arith, length-join_tools inv.axes us, join_tools-IsSorted inv.axes us)

pub length-take_le : (n : ℕ) (us : List ℤ) → length (take n us) ≤ n
length-take_le n us = omega (arith, length-take {0} n us)

-- A transfer that fits keeps both sides.
pub move_goods-IsStock :
    {l m : ℕ} (from to : Inventory) (k : Kind) (n : ℕ)
    → IsStock l from
    → IsStock m to
    → bulk to + n ≤ m
    → IsStock l (move_goods from to k n).0 × IsStock m (move_goods from to k n).1
unfolding move_goods
move_goods-IsStock from to spears n v w h = (
  fewer_spears-IsStock from n v,
  more_spears-IsStock to (take n from.spears) w (omega (arith, length-take_le n from.spears)),
)
move_goods-IsStock from to axes n v w h = (
  fewer_axes-IsStock from n v,
  more_axes-IsStock to (take n from.axes) w (omega (arith, length-take_le n from.axes)),
)
move_goods-IsStock from to k n v w h = (minus-IsStock from k n v, plus-IsStock to k n w h)
