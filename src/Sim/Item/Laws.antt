-- ===== src/Sim/Item/Laws.antt =====
-- Laws of the inventory operations: what a transfer does to each count and to the bulk.
use script_world.Prelude.{ℕ, ◌+◌, ◌≤◌, ◌≡◌, true, false, arith, if◌then◌else◌}
use script_world.Sim.Item.{
  Kind, wood, spears, axes, kind_eq, Inventory, minus, plus, add_item, carried_count, bulk,
  is_counted,
}

-- A transfer into an inventory adds to the count of its kind, and to no other.
pub carried_count-plus :
    (inv : Inventory) (k j : Kind) (n : ℕ)
    → is_counted k ≡ true
    → carried_count (add_item plus inv k n) j ≡ carried_count inv j + (if kind_eq k j then n else 0)
unfolding carried_count add_item kind_eq
carried_count-plus inv wood j n c = ground arith
carried_count-plus inv _ j n c = ground arith

-- A transfer of what is there takes away from the count of its kind, and from no other.
pub carried_count-minus :
    (inv : Inventory) (k j : Kind) (n : ℕ)
    → is_counted k ≡ true
    → n ≤ carried_count inv k
    → carried_count (add_item minus inv k n) j + (if kind_eq k j then n else 0)
      ≡ carried_count inv j
unfolding carried_count add_item kind_eq
carried_count-minus inv wood j n c h = ground arith
carried_count-minus inv _ j n c h = ground arith

pub bulk-plus : (inv : Inventory) (k : Kind) (n : ℕ) → bulk (add_item plus inv k n) ≤ bulk inv + n
unfolding bulk add_item
bulk-plus inv k n = ground arith

pub bulk-minus : (inv : Inventory) (k : Kind) (n : ℕ) → bulk (add_item minus inv k n) ≤ bulk inv
unfolding bulk add_item
bulk-minus inv k n = ground arith

pub bulk-minus_eq :
    (inv : Inventory) (k : Kind) (n : ℕ)
    → is_counted k ≡ true
    → n ≤ carried_count inv k
    → bulk (add_item minus inv k n) + n ≡ bulk inv
unfolding bulk add_item carried_count
bulk-minus_eq inv k n c h = ground arith

-- The kinds with no count carry nothing.
pub carried_count_none :
    (inv : Inventory) (k : Kind)
    → is_counted k ≡ false
    → kind_eq k spears ≡ false
    → kind_eq k axes ≡ false
    → carried_count inv k ≡ 0
unfolding carried_count kind_eq
carried_count_none inv k c s x = ground arith
