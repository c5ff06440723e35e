-- ===== src/Sim/Policy/Meal/Sated.antt =====
-- internal/sim/executor.go: what `eatOutcome` returns, and that there is a meal wherever the resolver
-- of `eat` asks for one.
use script_world.Prelude.{
  ℕ, zero, suc, ◌+◌, ◌*◌, ◌-◌, ◌<◌, ◌≤◌, ◌≡◌, ◌≢◌, refl, ◌∙◌, inl, inr, ◌⊎◌, ◌&&◌, true, false,
  none, some, ◌==◌, ltb, leb, arith, Bool-cases,
}
use script_world.Sim.State.{State, Agent, agent_at, put_agent}
use script_world.Sim.Event.{Event}
use script_world.Sim.Apply.{apply}
use script_world.Sim.Apply.Base.{on_agent}
use script_world.Sim.Apply.WorkArms.{apply_ate}
use script_world.Prelude.Int.{ℤ}
use script_world.Sim.Terrain.{Map}
use script_world.Sim.Policy.Meal.{Eating, eats_on, bite, eat_loop, first_bite, eat_outcome}
use script_world.Sim.Policy.{ate, has_any_food, resolve_eat, satiety_at}

-- What the loop has done of the agent's food: units move from what is left to what was eaten, the
-- best food first, and each adds its worth to the need, which the cap of 1000 never cuts.
pub record IsMeal (a : Agent) (e : Eating) : Type 0 where
  pub meals : e.avail_m + e.meals ≡ a.inv.meals
  pub cooked : e.avail_c + e.cooked ≡ a.inv.food_cooked
  pub raw : e.avail_r + e.raw ≡ a.inv.food_raw
  pub best_first : 0 < e.cooked + e.raw → e.avail_m ≡ 0
  pub raw_last : 0 < e.raw → e.avail_c ≡ 0
  pub below_cap : e.food < 1000
  pub worth : e.food ≡ a.needs.food + (e.meals * 100 + e.cooked * 80 + e.raw * 40)

bite-IsMeal : (a : Agent) (e : Eating) → eats_on e ≡ true → IsMeal a e → IsMeal a (bite e)
unfolding eats_on bite
bite-IsMeal a e on h = elim (Bool-cases (ltb 0 e.avail_m)) [
  | inl f ↦
      rw (f, bite)
        record {
          meals = ground arith;
          cooked = ground arith;
          raw = ground arith;
          best_first = λ l. ground arith;
          raw_last = λ l. ground arith;
          below_cap = ground arith;
          worth = ground arith;
        }
  | inr f ↦ elim (Bool-cases (ltb 0 e.avail_c)) [
    | inl g ↦
        rw (f, g, bite)
          record {
            meals = ground arith;
            cooked = ground arith;
            raw = ground arith;
            best_first = λ l. ground arith;
            raw_last = λ l. ground arith;
            below_cap = ground arith;
            worth = ground arith;
          }
    | inr g ↦
        rw (f, g, bite)
          record {
            meals = ground arith;
            cooked = ground arith;
            raw = ground arith;
            best_first = λ l. ground arith;
            raw_last = λ l. ground arith;
            below_cap = ground arith;
            worth = ground arith;
          }
  ]
]

-- What is left in all.
abbrev left : Eating → ℕ
left e = e.avail_m + e.avail_c + e.avail_r

left-bite : (e : Eating) → eats_on e ≡ true → left e ≡ left (bite e) + 1
unfolding eats_on bite
left-bite e on = elim (Bool-cases (ltb 0 e.avail_m)) [
  | inl f ↦ rw (f, bite) ground arith
  | inr f ↦ elim (Bool-cases (ltb 0 e.avail_c)) [
    | inl g ↦ rw (f, g, bite) ground arith
    | inr g ↦ rw (f, g, bite) ground arith
  ]
]

-- The state where the agent has what is left of its food, and the need that the meal leads to.
abbrev pub fed : State → ℤ → Agent → Eating → State
fed s i a e = put_agent s i (record a {
  inv = record a.inv { meals = e.avail_m; food_cooked = e.avail_c; food_raw = e.avail_r };
  needs = record a.needs { food = e.food };
})

apply-ate :
    (s : State) (tick : ℕ) (i : ℤ) (a : Agent) (e : Eating)
    → agent_at s.agents i ≡ some a
    → IsMeal a e
    → apply s tick (Event.ate i e.meals e.cooked e.raw e.food) ≡ (fed s i a e, none)
unfolding apply apply_ate on_agent
apply-ate s tick i a e at h =
    let m : a.inv.meals - e.meals ≡ e.avail_m = (let x = h.meals in omega arith) in
    let c : a.inv.food_cooked - e.cooked ≡ e.avail_c = (let x = h.cooked in omega arith) in
    let r : a.inv.food_raw - e.raw ≡ e.avail_r = (let x = h.raw in omega arith) in
    rw (at, m, c, r, apply, apply_ate, on_agent) refl

-- What ends the loop on enough fuel.
pub record IsFinished (a : Agent) (e : Eating) : Type 0 where
  pub meal : IsMeal a e
  pub over : eats_on e ≡ false

nothing_left : (e : Eating) → left e ≡ 0 → eats_on e ≡ false
unfolding eats_on
nothing_left e l = ground arith

eat_loop-bite : (n : ℕ) (e : Eating) → eats_on e ≡ true → eat_loop (suc n) e ≡ eat_loop n (bite e)
unfolding eat_loop
eat_loop-bite n e on = rw on refl

eat_loop-IsFinished :
    (a : Agent) (n : ℕ) (e : Eating)
    → IsMeal a e
    → left e ≤ n
    → (x : Eating) × (eat_loop n e ≡ some x) × IsFinished a x
unfolding eat_loop
eat_loop-IsFinished a zero e h le =
    let off : eats_on e ≡ false = nothing_left e (ground arith) in
    (e, rw (off, eat_loop) refl, record { meal = h; over = off })
eat_loop-IsFinished a (suc n) e h le = elim (Bool-cases (eats_on e)) [
  | inl on ↦
      let (x, f, g) =
        eat_loop-IsFinished a n (bite e) (bite-IsMeal a e on h)
          (let l = left-bite e on in omega arith) in
      (x, eat_loop-bite n e on ∙ f, g)
  | inr off ↦ (e, rw (off, eat_loop) refl, record { meal = h; over = off })
]

finished_eats :
    (a : Agent) (e : Eating)
    → IsFinished a e
    → a.needs.food < satiety_at
    → 0 < a.inv.meals + a.inv.food_cooked + a.inv.food_raw
    → e.meals == 0 && e.cooked == 0 && e.raw == 0 ≡ false
unfolding eats_on
finished_eats a e h hungry food =
    let m = h.meal.meals in
    let c = h.meal.cooked in
    let r = h.meal.raw in let w = h.meal.worth in let o = h.over in ground arith

eat_outcome-Meal :
    (a : Agent)
    → a.needs.food < satiety_at
    → 0 < a.inv.meals + a.inv.food_cooked + a.inv.food_raw
    → (e : Eating) × (eat_outcome a ≡ some (some e)) × IsFinished a e
unfolding eat_outcome first_bite
eat_outcome-Meal a hungry food =
    let start : IsMeal a (first_bite a) = record {
      meals = omega arith;
      cooked = omega arith;
      raw = omega arith;
      best_first = λ l. omega arith;
      raw_last = λ l. omega arith;
      below_cap = omega arith;
      worth = omega arith;
    } in
    let (e, f, h) =
      eat_loop-IsFinished a (left (first_bite a)) (first_bite a) start (omega arith) in
    let ne = finished_eats a e h hungry food in
    let ns : leb satiety_at a.needs.food ≡ false = ground arith in
    (e, rw (ns, f, ne, eat_outcome) refl, h)

eat_outcome-none :
    (a : Agent)
    → has_any_food a ≡ false
    → leb satiety_at a.needs.food ≡ false
    → eat_outcome a ≡ some none
unfolding eat_outcome first_bite eat_loop has_any_food
eat_outcome-none a nothing hungry =
    let none_left : left (first_bite a) ≡ 0 = ground arith in
    let off : eats_on (first_bite a) ≡ false = nothing_left (first_bite a) none_left in
    let ends : eat_loop (left (first_bite a)) (first_bite a) ≡ some (first_bite a) =
      rw (none_left, off, eat_loop) refl in
    rw (hungry, ends, eat_outcome) refl

module _ (m : Map) (s : State) (draw : ℕ → ℕ) (tick : ℕ) (i : ℤ) (a : Agent) where
  -- A meal that the resolver asks for and the reducer takes, or neither.
  abbrev pub Feeds : Type 0
  Feeds =
      ((resolve_eat m s draw a ≡ some ate)
        × ((e : Eating) × (eat_outcome a ≡ some (some e))
            × IsFinished a e
            × (apply s tick (Event.ate i e.meals e.cooked e.raw e.food) ≡ (fed s i a e, none))))
      ⊎ ((resolve_eat m s draw a ≢ some ate) × (eat_outcome a ≡ some none))

  -- Where the resolver of `eat` has the agent of an index eat, `eatOutcome` returns a meal, and the
  -- reducer accepts its event and leaves the agent with the food that was not eaten. A cooked or raw
  -- unit is eaten only when no meal is left, and a raw one only when nothing cooked is; the need
  -- rises by 100 a meal, 80 a cooked and 40 a raw unit, stays below 1000, and reaches 900 unless no
  -- food is left. Where the resolver refuses, nothing is eaten.
  pub eat_outcome-resolve_eat : agent_at s.agents i ≡ some a → Feeds
  unfolding resolve_eat has_any_food eat_outcome
  eat_outcome-resolve_eat at = elim (Bool-cases (has_any_food a)) [
    | inl food ↦ elim (Bool-cases (leb satiety_at a.needs.food)) [
      | inl sated ↦
          inr ((λ e. cc (rw (food, sated, resolve_eat) at e)), rw (sated, eat_outcome) refl)
      | inr hungry ↦
          let (e, f, h) = eat_outcome-Meal a (ground arith) (ground arith) in
          inl (rw (food, hungry, resolve_eat) refl, (e, f, h, apply-ate s tick i a e at h.meal))
    ]
    | inr nothing ↦ elim (Bool-cases (leb satiety_at a.needs.food)) [
      | inl sated ↦ inr ((λ e. cc (rw (nothing, resolve_eat) at e)), rw (sated, eat_outcome) refl)
      | inr hungry ↦
          inr ((λ e. cc (rw (nothing, resolve_eat) at e)), eat_outcome-none a nothing hungry)
    ]
  ]
