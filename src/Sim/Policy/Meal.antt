-- ===== src/Sim/Policy/Meal.antt =====
-- internal/sim/executor.go: `eatOutcome`, what an agent eats at once.
pub mod Sated
use script_world.Prelude.{
  ℕ, zero, suc, ◌+◌, ◌-◌, ◌&&◌, ◌||◌, Bool, Option, none, some, if◌then◌else◌, ◌==◌, ltb, leb,
}
use script_world.Sim.State.{Agent}
use script_world.Sim.Policy.{satiety_at}

abbrev pub meal_restore : ℕ
meal_restore = 100

abbrev pub food_cooked_restore : ℕ
food_cooked_restore = 80

abbrev pub food_raw_restore : ℕ
food_raw_restore = 40

abbrev pub min_int : ℕ → ℕ → ℕ
min_int a b = if ltb a b then a else b

-- The variables of the loop: what is left of each food, what was eaten of it, and the need.
pub record Eating : Type 0 where
  pub avail_m : ℕ
  pub avail_c : ℕ
  pub avail_r : ℕ
  pub meals : ℕ
  pub cooked : ℕ
  pub raw : ℕ
  pub food : ℕ

pub eats_on : Eating → Bool
eats_on e = ltb e.food satiety_at && (ltb 0 e.avail_m || ltb 0 e.avail_c || ltb 0 e.avail_r)

pub bite : Eating → Eating
bite e =
    if ltb 0 e.avail_m
    then record e {
      avail_m = e.avail_m - 1;
      meals = e.meals + 1;
      food = min_int 1000 (e.food + meal_restore);
    }
    else if ltb 0 e.avail_c
    then record e {
      avail_c = e.avail_c - 1;
      cooked = e.cooked + 1;
      food = min_int 1000 (e.food + food_cooked_restore);
    }
    else record e {
      avail_r = e.avail_r - 1;
      raw = e.raw + 1;
      food = min_int 1000 (e.food + food_raw_restore);
    }

-- The loop on fuel: `none` when it runs out.
pub eat_loop : ℕ → Eating → Option Eating
unfolding eats_on bite
eat_loop zero e = if eats_on e then none else some e
eat_loop (suc n) e = let rest = eat_loop n (bite e) in if eats_on e then rest else some e

pub first_bite : Agent → Eating
first_bite a = record {
  avail_m = a.inv.meals;
  avail_c = a.inv.food_cooked;
  avail_r = a.inv.food_raw;
  meals = 0;
  cooked = 0;
  raw = 0;
  food = a.needs.food;
}

-- What was eaten, unless it is nothing. The fuel is one round for each unit carried.
unfoldable pub eat_outcome : Agent → Option (Option Eating)
unfolding eat_loop first_bite
eat_outcome a =
    if leb satiety_at a.needs.food
    then some none
    else elim (eat_loop (a.inv.meals + a.inv.food_cooked + a.inv.food_raw) (first_bite a)) [
      | none ↦ none
      | some e ↦ if e.meals == 0 && e.cooked == 0 && e.raw == 0 then some none else some (some e)
    ]
