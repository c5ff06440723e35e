-- ===== src/Sim/Item.antt =====
-- internal/sim/agents.go, recipes.go: item kinds, inventories and their bulk. Counts are natural
-- numbers: the code clamps each at 0, and every payload carries a count that was moved. The
-- remaining uses of spears and axes are integers, since a use is spent with no test.
pub mod Sorted
pub mod Laws
use script_world.Prelude.{
  ℕ, zero, suc, ◌+◌, ◌-◌, Bool, true, false, List, [], ◌∷◌, ltb, leb, if◌then◌else◌, ◌==◌, length,
}
use script_world.Prelude.Int.{ℤ, pos, negsuc}

-- The item keys that the code compares with. `spear` and `axe` are a recipe's output kinds,
-- `spears` and `axes` the kinds of a storage transfer; `other` is any other string.
pub data Kind : Type 0 where
  wood stone water planks refined_stone food_raw food_cooked meals spear axe spears axes : Kind
  other : ℕ → Kind

unfoldable pub kind_eq : Kind → Kind → Bool
kind_eq wood wood = true
kind_eq stone stone = true
kind_eq water water = true
kind_eq planks planks = true
kind_eq refined_stone refined_stone = true
kind_eq food_raw food_raw = true
kind_eq food_cooked food_cooked = true
kind_eq meals meals = true
kind_eq spear spear = true
kind_eq axe axe = true
kind_eq spears spears = true
kind_eq axes axes = true
kind_eq (other a) (other b) = a == b
kind_eq _ _ = false

pub record Inventory : Type 0 where
  pub wood : ℕ
  pub stone : ℕ
  pub water : ℕ
  pub planks : ℕ
  pub refined_stone : ℕ
  pub food_raw : ℕ
  pub food_cooked : ℕ
  pub meals : ℕ
  pub spears : List ℤ
  pub axes : List ℤ

-- `Inventory{}`.
abbrev pub empty_inventory : Inventory
empty_inventory = record {
  wood = 0;
  stone = 0;
  water = 0;
  planks = 0;
  refined_stone = 0;
  food_raw = 0;
  food_cooked = 0;
  meals = 0;
  spears = [];
  axes = [];
}

pub record Item : Type 0 where
  pub kind : Kind
  pub n : ℕ

-- The argument `sign` of `addItems`: -1 or 1.
pub data Sign : Type 0 where
  minus plus : Sign

abbrev pub bulk_cap : ℕ
bulk_cap = 24

abbrev pub chest_cap : ℕ
chest_cap = 48

unfoldable pub inv_field : Inventory → Kind → ℕ
inv_field inv wood = inv.wood
inv_field inv stone = inv.stone
inv_field inv water = inv.water
inv_field inv planks = inv.planks
inv_field inv refined_stone = inv.refined_stone
inv_field inv food_raw = inv.food_raw
inv_field inv food_cooked = inv.food_cooked
inv_field inv meals = inv.meals
inv_field inv _ = 0

unfoldable pub has_items : Inventory → List Item → Bool
unfolding inv_field
has_items inv [] = true
has_items inv (it ∷ items) =
    let rest = has_items inv items in if ltb (inv_field inv it.kind) it.n then false else rest

-- `maxInt(0, f + sign*n)`; subtraction of natural numbers stops at 0.
abbrev pub shift : Sign → ℕ → ℕ → ℕ
shift minus f n = f - n
shift plus f n = f + n

-- One round of `addItems`.
unfoldable pub add_item : Sign → Inventory → Kind → ℕ → Inventory
add_item g inv wood n = record inv { wood = shift g inv.wood n }
add_item g inv stone n = record inv { stone = shift g inv.stone n }
add_item g inv water n = record inv { water = shift g inv.water n }
add_item g inv planks n = record inv { planks = shift g inv.planks n }
add_item g inv refined_stone n = record inv { refined_stone = shift g inv.refined_stone n }
add_item g inv food_raw n = record inv { food_raw = shift g inv.food_raw n }
add_item g inv food_cooked n = record inv { food_cooked = shift g inv.food_cooked n }
add_item g inv meals n = record inv { meals = shift g inv.meals n }
add_item g inv _ n = inv

unfoldable pub add_items : Inventory → List Item → Sign → Inventory
unfolding add_item
add_items inv [] g = inv
add_items inv (it ∷ items) g = add_items (add_item g inv it.kind it.n) items g

-- The kinds that are a count of an inventory.
abbrev pub is_counted : Kind → Bool
is_counted wood = true
is_counted stone = true
is_counted water = true
is_counted planks = true
is_counted refined_stone = true
is_counted food_raw = true
is_counted food_cooked = true
is_counted meals = true
is_counted _ = false

unfoldable pub is_food_kind : Kind → Bool
is_food_kind food_raw = true
is_food_kind food_cooked = true
is_food_kind meals = true
is_food_kind _ = false

unfoldable pub carried_count : Inventory → Kind → ℕ
unfolding inv_field
carried_count inv spears = length inv.spears
carried_count inv axes = length inv.axes
carried_count inv kind = inv_field inv kind

unfoldable pub bulk : Inventory → ℕ
bulk inv =
    inv.wood
    + inv.stone
    + inv.water
    + inv.planks
    + inv.refined_stone
    + inv.food_raw
    + inv.food_cooked
    + inv.meals
    + length inv.spears
    + length inv.axes

-- `bulkCap - bulk(inv)`, floored at zero.
unfoldable pub free_bulk : Inventory → ℕ
unfolding bulk
free_bulk inv = bulk_cap - bulk inv

abbrev pub leb_ℤ : ℤ → ℤ → Bool
leb_ℤ (pos a) (pos b) = leb a b
leb_ℤ (pos a) (negsuc b) = false
leb_ℤ (negsuc a) (pos b) = true
leb_ℤ (negsuc a) (negsuc b) = leb b a

insert_int : ℤ → List ℤ → List ℤ
insert_int a [] = a ∷ []
insert_int a (b ∷ bs) = let rest = b ∷ insert_int a bs in if leb_ℤ a b then a ∷ b ∷ bs else rest

-- `sort.Ints`: the ascending list of the same integers.
unfoldable pub sort_ints : List ℤ → List ℤ
unfolding insert_int
sort_ints [] = []
sort_ints (a ∷ us) = insert_int a (sort_ints us)

-- `Spears[0]--` and `Axes[0]--`.
unfoldable pub spend_use : List ℤ → List ℤ
spend_use [] = []
spend_use (pos zero ∷ us) = negsuc 0 ∷ us
spend_use (pos (suc n) ∷ us) = pos n ∷ us
spend_use (negsuc n ∷ us) = negsuc (suc n) ∷ us
