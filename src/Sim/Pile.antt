-- ===== src/Sim/Pile.antt =====
-- internal/sim/agents.go: ground piles. Food lies in batches in the order of the drops, each with
-- its own deadline; all else is a flat count. `p.Food[:0]` rewrites the slice in place, which here
-- is the new list.
pub mod Laws
use script_world.Prelude.{
  ℕ, ◌+◌, ◌-◌, Bool, true, false, ◌&&◌, List, [], ◌∷◌, ltb, leb, if◌then◌else◌, ◌==◌, length, take,
  drop,
}
use script_world.Prelude.Int.{ℤ}
use script_world.Sim.Item.{
  Kind, wood, stone, water, planks, refined_stone, food_raw, food_cooked, meals, spears, axes,
  kind_eq,
}

pub record FoodBatch : Type 0 where
  pub kind : Kind
  pub n : ℕ
  pub spoil_at : ℕ

pub record Pile : Type 0 where
  pub x : ℤ
  pub y : ℤ
  pub wood : ℕ
  pub stone : ℕ
  pub water : ℕ
  pub planks : ℕ
  pub refined_stone : ℕ
  pub spears : List ℤ
  pub axes : List ℤ
  pub food : List FoodBatch

-- `Pile{X: x, Y: y}`.
abbrev pub empty_pile : ℤ → ℤ → Pile
empty_pile x y = record {
  x = x;
  y = y;
  wood = 0;
  stone = 0;
  water = 0;
  planks = 0;
  refined_stone = 0;
  spears = [];
  axes = [];
  food = [];
}

abbrev pub is_nil {ℓ} : {A : Type ℓ} → List A → Bool
is_nil [] = true
is_nil (_ ∷ _) = false

unfoldable pub is_empty : Pile → Bool
is_empty p =
    p.wood == 0
    && p.stone == 0
    && p.water == 0
    && p.planks == 0
    && p.refined_stone == 0
    && is_nil p.spears
    && is_nil p.axes
    && is_nil p.food

-- The loop of `addFood`, and the append after it.
unfoldable pub merge_food : Kind → ℕ → ℕ → List FoodBatch → List FoodBatch
merge_food kind n spoil_at [] = record { kind = kind; n = n; spoil_at = spoil_at } ∷ []
merge_food kind n spoil_at (b ∷ bs) =
    let rest = b ∷ merge_food kind n spoil_at bs in
    if kind_eq b.kind kind && b.spoil_at == spoil_at then record b { n = b.n + n } ∷ bs else rest

unfoldable pub add_food : Pile → Kind → ℕ → ℕ → Pile
unfolding merge_food
add_food p kind n spoil_at =
    if n == 0 then p else record p { food = merge_food kind n spoil_at p.food }

unfoldable pub sum_food : Kind → List FoodBatch → ℕ
sum_food kind [] = 0
sum_food kind (b ∷ bs) = (if kind_eq b.kind kind then b.n else 0) + sum_food kind bs

unfoldable pub avail : Pile → Kind → ℕ
unfolding sum_food
avail p wood = p.wood
avail p stone = p.stone
avail p water = p.water
avail p planks = p.planks
avail p refined_stone = p.refined_stone
avail p spears = length p.spears
avail p axes = length p.axes
avail p food_raw = sum_food food_raw p.food
avail p food_cooked = sum_food food_cooked p.food
avail p meals = sum_food meals p.food
avail p _ = 0

-- A count of 0 adds nothing, so the guard `n <= 0` makes no difference here.
unfoldable pub add_non_food : Pile → Kind → ℕ → Pile
add_non_food p wood n = record p { wood = p.wood + n }
add_non_food p stone n = record p { stone = p.stone + n }
add_non_food p water n = record p { water = p.water + n }
add_non_food p planks n = record p { planks = p.planks + n }
add_non_food p refined_stone n = record p { refined_stone = p.refined_stone + n }
add_non_food p _ n = p

-- The `switch` of `takeNonFood`.
unfoldable pub sub_non_food : Pile → Kind → ℕ → Pile
sub_non_food p wood n = record p { wood = p.wood - n }
sub_non_food p stone n = record p { stone = p.stone - n }
sub_non_food p water n = record p { water = p.water - n }
sub_non_food p planks n = record p { planks = p.planks - n }
sub_non_food p refined_stone n = record p { refined_stone = p.refined_stone - n }
sub_non_food p _ n = p

unfoldable pub take_non_food : Pile → Kind → ℕ → Pile × ℕ
unfolding sub_non_food avail
take_non_food p kind n =
    let n' = if ltb (avail p kind) n then avail p kind else n in
    if n' == 0 then (p, 0) else (sub_non_food p kind n', n')

abbrev pub keep_batch : FoodBatch → List FoodBatch → List FoodBatch
keep_batch b bs = if b.n == 0 then bs else b ∷ bs

-- What a round of the loop takes from a batch of `held` units.
unfoldable pub portion : Bool → ℕ → ℕ → ℕ → ℕ
portion selected n taken held =
    if selected && ltb taken n then if ltb (n - taken) held then n - taken else held else 0

-- The loop that `takeFood` and `takeSpoiled` share, for the batches that a test selects; `taken`
-- is what the earlier rounds took.
unfoldable pub drain : (FoodBatch → Bool) → ℕ → ℕ → List FoodBatch → List FoodBatch × ℕ
unfolding portion
drain selects n taken [] = ([], taken)
drain selects n taken (b ∷ bs) =
    let t = portion (selects b) n taken b.n in
    let (out, total) = drain selects n (taken + t) bs in
    (keep_batch (record b { n = b.n - t }) out, total)

unfoldable pub take_food : Pile → Kind → ℕ → Pile × ℕ
unfolding drain
take_food p kind n =
    let (out, taken) = drain (λ b. kind_eq b.kind kind) n 0 p.food in
    if n == 0 then (p, 0) else (record p { food = out }, taken)

unfoldable pub take_spoiled : Pile → Kind → ℕ → ℕ → Pile × ℕ
unfolding drain
take_spoiled p kind n tick =
    let (out, taken) = drain (λ b. kind_eq b.kind kind && leb b.spoil_at tick) n 0 p.food in
    if n == 0 then (p, 0) else (record p { food = out }, taken)

-- `takeSpears` and `takeAxes`: the front of the ascending list, cut off at its length.
unfoldable pub take_spears : Pile → ℕ → Pile × List ℤ
take_spears p n = (record p { spears = drop n p.spears }, take n p.spears)

unfoldable pub take_axes : Pile → ℕ → Pile × List ℤ
take_axes p n = (record p { axes = drop n p.axes }, take n p.axes)
