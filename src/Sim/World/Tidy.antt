-- ===== src/Sim/World/Tidy.antt =====
-- What the transfers keep of the order of a pile, and when they leave one that is not empty.
use script_world.Prelude.{
  ℕ, ◌+◌, ◌≤◌, ◌<◌, ◌≡◌, ◌≢◌, Bool, true, false, ◌&&◌, List, [], ◌∷◌, ◌==◌, arith, take, All,
  Bool-cases, inl, inr, if◌then◌else◌, leb,
}
use script_world.Prelude.Int.{ℤ}
use script_world.Sim.Item.{
  Kind, wood, stone, water, planks, refined_stone, food_raw, food_cooked, meals, spears, axes,
  Inventory, bulk, bulk_cap, free_bulk, carried_count, kind_eq, is_food_kind, inv_field, plus,
  add_item,
}
use script_world.Sim.Item.Sorted.{drop-IsSorted}
use script_world.Sim.Pile.{
  Pile, FoodBatch, is_empty, merge_food, add_food, add_non_food, sub_non_food, take_food,
  take_non_food, take_spoiled, take_spears, take_axes,
}
use script_world.Sim.Pile.Laws.{drain-Stocked, drain_total, kind_eq_refl}
use script_world.Sim.Apply.StorageArms.{
  join_tools, rot_window_ticks, drop_into, pick_from, spill, spill_counted,
}
use script_world.Sim.World.{IsStock}
use script_world.Sim.World.Goods.{
  plus-IsStock, minus-IsStock, fewer_spears-IsStock, fewer_axes-IsStock, more_spears-IsStock,
  more_axes-IsStock, join_tools-IsSorted, length-take_le,
}
use script_world.Sim.World.Transfers.{
  is_stored, stored_count, drop_into_counts, spill_counts, avail-not_empty, avail-empty,
}
use script_world.Sim.World.Piles.{IsTidy}

merge-Stocked :
    (k : Kind) (n d : ℕ) (bs : List FoodBatch)
    → 0 < n
    → All (λ (b : FoodBatch). 0 < b.n) bs
    → All (λ (b : FoodBatch). 0 < b.n) (merge_food k n d bs)
unfolding merge_food
merge-Stocked k n d [] l h = (l, tt)
merge-Stocked k n d (b ∷ bs) l h = elim (Bool-cases (kind_eq b.kind k && b.spoil_at == d)) [
  | inl e ↦ rw e (omega (arith, h.0), h.1)
  | inr e ↦ rw e (h.0, merge-Stocked k n d bs l h.1)
]

add_food-IsTidy :
    {x y : ℤ} (p : Pile) (k : Kind) (n d : ℕ) → IsTidy x y p → IsTidy x y (add_food p k n d)
unfolding add_food
add_food-IsTidy p k n d t = elim (Bool-cases (n == 0)) [
  | inl e ↦ rw e t
  | inr e ↦ rw e (record {
    at_x = t.at_x;
    at_y = t.at_y;
    stocked = merge-Stocked k n d p.food (ground arith) t.stocked;
    spears_sorted = t.spears_sorted;
    axes_sorted = t.axes_sorted;
  })
]

add_non_food-IsTidy :
    {x y : ℤ} (p : Pile) (k : Kind) (n : ℕ) → IsTidy x y p → IsTidy x y (add_non_food p k n)
unfolding add_non_food
add_non_food-IsTidy p k n t = ground arith

take_food-IsTidy :
    {x y : ℤ} (p : Pile) (k : Kind) (n : ℕ) → IsTidy x y p → IsTidy x y (take_food p k n).0
unfolding take_food
take_food-IsTidy p k n t = ground (arith, drain-Stocked (λ b. kind_eq b.kind k) n 0 p.food)

pub take_spoiled-IsTidy :
    {x y : ℤ} (p : Pile) (k : Kind) (n tick : ℕ)
    → IsTidy x y p
    → IsTidy x y (take_spoiled p k n tick).0
unfolding take_spoiled
take_spoiled-IsTidy p k n tick t =
    ground (arith, drain-Stocked (λ b. kind_eq b.kind k && leb b.spoil_at tick) n 0 p.food)

take_non_food-IsTidy :
    {x y : ℤ} (p : Pile) (k : Kind) (n : ℕ) → IsTidy x y p → IsTidy x y (take_non_food p k n).0
unfolding take_non_food sub_non_food
take_non_food-IsTidy p k n t = ground arith

join_spears-IsTidy :
    {x y : ℤ} (p : Pile) (us : List ℤ)
    → IsTidy x y p
    → IsTidy x y (record p { spears = join_tools p.spears us })
join_spears-IsTidy p us t = ground (arith, join_tools-IsSorted p.spears us)

join_axes-IsTidy :
    {x y : ℤ} (p : Pile) (us : List ℤ)
    → IsTidy x y p
    → IsTidy x y (record p { axes = join_tools p.axes us })
join_axes-IsTidy p us t = ground (arith, join_tools-IsSorted p.axes us)

added_goods-IsTidy :
    {x y : ℤ} (b : Bool) (p : Pile) (k : Kind) (n d : ℕ)
    → IsTidy x y p
    → IsTidy x y (if b then add_food p k n d else add_non_food p k n)
added_goods-IsTidy true p k n d t = add_food-IsTidy p k n d t
added_goods-IsTidy false p k n d t = add_non_food-IsTidy p k n t

take_food_le : (p : Pile) (k : Kind) (n : ℕ) → (take_food p k n).1 ≤ n
unfolding take_food
take_food_le p k n = ground (arith, drain_total (λ b. kind_eq b.kind k) n 0 p.food)

take_non_food_le : (p : Pile) (k : Kind) (n : ℕ) → (take_non_food p k n).1 ≤ n
unfolding take_non_food
take_non_food_le p k n = ground arith

taken_goods-IsTidy :
    {x y : ℤ} (b : Bool) (p : Pile) (inv : Inventory) (k : Kind) (n : ℕ)
    → IsTidy x y p
    → IsStock bulk_cap inv
    → n ≤ free_bulk inv
    → let (p', taken) = if b then take_food p k n else take_non_food p k n in
      IsTidy x y p' × IsStock bulk_cap (add_item plus inv k taken)
unfolding free_bulk
taken_goods-IsTidy true p inv k n t v h = (
  take_food-IsTidy p k n t,
  plus-IsStock inv k (take_food p k n).1 v (omega (arith, v.within, take_food_le p k n)),
)
taken_goods-IsTidy false p inv k n t v h = (
  take_non_food-IsTidy p k n t,
  plus-IsStock inv k (take_non_food p k n).1 v (omega (arith, v.within, take_non_food_le p k n)),
)

pub drop_into-IsTidy :
    {x y : ℤ} (tick : ℕ) (p : Pile) (inv : Inventory) (k : Kind) (n : ℕ)
    → IsTidy x y p
    → IsStock bulk_cap inv
    → IsTidy x y (drop_into tick p inv k n).0 × IsStock bulk_cap (drop_into tick p inv k n).1
unfolding drop_into
drop_into-IsTidy tick p inv spears n t v =
    (join_spears-IsTidy p (take n inv.spears) t, fewer_spears-IsStock inv n v)
drop_into-IsTidy tick p inv axes n t v =
    (join_axes-IsTidy p (take n inv.axes) t, fewer_axes-IsStock inv n v)
drop_into-IsTidy tick p inv k n t v =
    (added_goods-IsTidy (is_food_kind k) p k n (tick + rot_window_ticks) t, minus-IsStock inv k n v)

pub pick_from-IsTidy :
    {x y : ℤ} (p : Pile) (inv : Inventory) (k : Kind) (n : ℕ)
    → IsTidy x y p
    → IsStock bulk_cap inv
    → n ≤ free_bulk inv
    → IsTidy x y (pick_from p inv k n).0 × IsStock bulk_cap (pick_from p inv k n).1
unfolding pick_from free_bulk take_spears take_axes
pick_from-IsTidy p inv spears n t v h = (
  ground (arith, drop-IsSorted n p.spears),
  more_spears-IsStock inv (take n p.spears) v (omega (arith, v.within, length-take_le n p.spears)),
)
pick_from-IsTidy p inv axes n t v h = (
  ground (arith, drop-IsSorted n p.axes),
  more_axes-IsStock inv (take n p.axes) v (omega (arith, v.within, length-take_le n p.axes)),
)
pick_from-IsTidy p inv k n t v h = taken_goods-IsTidy (is_food_kind k) p inv k n t v h

pub spill-IsTidy :
    {x y : ℤ} (tick : ℕ) (p : Pile) (inv : Inventory) → IsTidy x y p → IsTidy x y (spill tick p inv)
unfolding spill spill_counted
spill-IsTidy tick p inv t = join_axes-IsTidy _ inv.axes (
    join_spears-IsTidy _ inv.spears (
      add_food-IsTidy _ _ _ _ (
        add_food-IsTidy _ _ _ _ (
          add_food-IsTidy _ _ _ _ (
            add_non_food-IsTidy _ _ _ (
              add_non_food-IsTidy _ _ _ (
                add_non_food-IsTidy _ _ _
                  (add_non_food-IsTidy _ _ _ (add_non_food-IsTidy _ _ _ t)))))))))

-- A pouch with no unit of any kind has no bulk.
bulk_zero : (inv : Inventory) → ((k : Kind) → carried_count inv k ≡ 0) → bulk inv ≡ 0
unfolding bulk carried_count inv_field
bulk_zero inv h = omega (
  arith,
  h wood,
  h stone,
  h water,
  h planks,
  h refined_stone,
  h food_raw,
  h food_cooked,
  h meals,
  h spears,
  h axes,
)

pub spill-not_empty :
    (tick : ℕ) (p : Pile) (inv : Inventory) → bulk inv ≢ 0 → is_empty (spill tick p inv) ≡ false
spill-not_empty tick p inv h = elim (Bool-cases (is_empty (spill tick p inv))) [
  | inl e ↦ absurd (
      h (
        bulk_zero inv
          λ k. omega (arith, spill_counts tick p inv k, avail-empty (spill tick p inv) k e)))
  | inr e ↦ e
]

pub drop_into-not_empty :
    (tick : ℕ) (p : Pile) (inv : Inventory) (k : Kind) (n : ℕ)
    → n ≤ carried_count inv k
    → n ≢ 0
    → is_empty (drop_into tick p inv k n).0 ≡ false
drop_into-not_empty tick p inv k n l h = elim (Bool-cases (is_stored k)) [
  | inl e ↦
      avail-not_empty (drop_into tick p inv k n).0 k
        (ground (arith, (drop_into_counts tick p inv k k n e l).1, kind_eq_refl k))
  | inr e ↦ absurd (h (omega (arith, stored_count inv k e)))
]
