-- ===== src/Sim/Policy/Agree.antt =====
-- internal/sim/policy.go: the reflex returns, and what it chooses the resolvers would give.
use script_world.Prelude.{
  ℕ, ◌<◌, ◌≤◌, ◌≡◌, ◌≢◌, refl, sym, ◌∙◌, subst, inl, inr, not, ◌&&◌, Bool, true, false, Option,
  none, some, if◌then◌else◌, ltb, leb, ltb→lt, arith, Option-cases, some-injective,
}
use script_world.Prelude.Int.{ℤ}
use script_world.Sim.Item.{Kind}
use script_world.Sim.Recipe.{
  Goal, forage, hunt, chop, build_fire, refuel_fire, sleep, goto_warmth, wander, fire,
}
use script_world.Sim.State.{State, Agent, Point}
use script_world.Sim.Terrain.{Map, TileKind, warm_at, has_structure}
use script_world.Sim.Path.{nearest, nearest_adjacent_to}
use script_world.Sim.Path.Nearest.{nearest-IsClosest}
use script_world.Sim.Policy.Tiles.{
  forage_tile, den_tile, adjacent_kind, warm_tile, site_tile, dying_fire_tile,
}
use script_world.Sim.Policy.Total.{nearest-ne-none, nearest_adjacent-ne-none}
use script_world.Sim.Policy.Reflex.{
  Decision, eats, idles, takes, or_else, hungry_at, tired_at, fire_wood_cost, stock_food_raw_to,
  food_or, refuel_or, fire_or, chop_or, warmth_or, sleep_here, by_night, nap, wander_or_idle,
  stock_up, by_day, after_food, decide_intent,
}
use script_world.Sim.Policy.{
  Errand, intent, ate, go_to, work_beside, here, has_any_food, wander_point, resolve_goal,
  resolve_eat, resolve_wander, on_nearest, beside_nearest,
}

-- The goals of the reflex: no crafting, and of the building only fires.
abbrev pub is_reflex : Goal → Bool
is_reflex forage = true
is_reflex hunt = true
is_reflex chop = true
is_reflex build_fire = true
is_reflex refuel_fire = true
is_reflex sleep = true
is_reflex goto_warmth = true
is_reflex wander = true
is_reflex _ = false

-- The decision is made, and what holds of it.
abbrev pub Decides : (Decision → Type 0) → Option Decision → Type 0
Decides P none = ⊥
Decides P (some d) = P d

module _ (P : Decision → Type 0) where
  Decides-or_else {ℓ} :
      {A : Type ℓ} (x : Option (Option A)) (f : A → Errand) (rest : Option Decision)
      → x ≢ none
      → ((y : A) → x ≡ some (some y) → P (takes (f y)))
      → Decides P rest
      → Decides P (or_else x f rest)
  Decides-or_else none f rest ne h r = ne refl
  Decides-or_else (some none) f rest ne h r = r
  Decides-or_else (some (some y)) f rest ne h r = h y refl

  Decides-if :
      (b : Bool) (o o' : Option Decision)
      → (b ≡ true → Decides P o)
      → (b ≡ false → Decides P o')
      → Decides P (if b then o else o')
  Decides-if true o o' h k = h refl
  Decides-if false o o' h k = k refl

module _ (m : Map) (s : State) (draw : ℕ → ℕ) (a : Agent) (tick : ℕ) where
  -- The intent is one of the reflex's goals and the one that the goal's resolver gives, whatever
  -- its other arguments; or a nap by day of a tired agent at a warm tile; or the refuelling of a
  -- cold or dying fire with wood at hand.
  pub data Reflexive (e : Errand) : Type 0 where
    resolved :
        is_reflex e.goal ≡ true
        → ((idx target : ℤ) (kind : Option Kind) (qty : ℕ)
            → resolve_goal m s draw a idx e.goal target kind qty tick ≡ some (intent e))
        → Reflexive e
    naps :
        {p : Point}
        → e ≡ go_to sleep p
        → s.night ≡ false
        → a.needs.rest < tired_at
        → warm_tile m s tick p ≡ true
        → Reflexive e
    refuels :
        {p : Point}
        → e ≡ go_to refuel_fire p
        → 1 ≤ a.inv.wood
        → dying_fire_tile s tick p ≡ true
        → Reflexive e

  -- It eats where it is hungry and the resolver of `eat` would have it eat, and stays idle only
  -- where it finds nowhere to wander.
  abbrev pub Sensible : Decision → Type 0
  Sensible eats = (a.needs.food < hungry_at) × (resolve_eat m s draw a ≡ some ate)
  Sensible idles = wander_point m s draw a ≡ none
  Sensible (takes e) = Reflexive e

  abbrev Good : Option Decision → Type 0
  Good = Decides Sensible

  near :
      (test : Point → Bool) {p : Point} → nearest m s (here a) test ≡ some (some p) → test p ≡ true
  near test e = elim (nearest-IsClosest m s (here a) test) [
    | inl (q, f, c) ↦
        subst (λ (x : Point). test x ≡ true) (some-injective _ _ (some-injective _ _ (sym f ∙ e)))
          c.passes
    | inr (f, _) ↦ absurd (cc)
  ]

  search_or :
      (test : Point → Bool) (f : Point → Errand) (rest : Option Decision)
      → ((p : Point) → nearest m s (here a) test ≡ some (some p) → Reflexive (f p))
      → Good rest
      → Good (or_else (nearest m s (here a) test) f rest)
  search_or test f rest h r =
      Decides-or_else Sensible (nearest m s (here a) test) f rest
        (nearest-ne-none m s (here a) test) h r

  food_or-Good : (rest : Option Decision) → Good rest → Good (food_or m s draw a tick rest)
  unfolding food_or resolve_goal on_nearest
  food_or-Good rest r =
      search_or (forage_tile m s) (go_to forage) _
        (λ p e. resolved refl (λ idx target kind qty. rw (e, on_nearest)))
        (search_or (den_tile m s tick) (go_to hunt) rest
          (λ p e. resolved refl (λ idx target kind qty. rw (e, on_nearest))) r)

  refuel_or-Good : (rest : Option Decision) → Good rest → Good (refuel_or m s draw a tick rest)
  unfolding refuel_or
  refuel_or-Good rest r =
      Decides-if Sensible (ltb a.inv.wood 1) _ _ (λ _. r)
        λ e.
          search_or (dying_fire_tile s tick) (go_to refuel_fire) rest
            (λ p f. refuels refl (ground arith) (near (dying_fire_tile s tick) f)) r

  fire_or-Good : (rest : Option Decision) → Good rest → Good (fire_or m s draw a tick rest)
  unfolding fire_or resolve_goal on_nearest
  fire_or-Good rest r =
      Decides-if Sensible (leb fire_wood_cost a.inv.wood) _ _
        (λ w.
          search_or (site_tile m s) (go_to build_fire) rest
            (λ p e. resolved refl (λ idx target kind qty. rw (w, e, on_nearest))) r)
        (λ _. r)

  chop_or-Good : (rest : Option Decision) → Good rest → Good (chop_or m s draw a tick rest)
  unfolding chop_or resolve_goal beside_nearest
  chop_or-Good rest r =
      let test = adjacent_kind m s TileKind.tree in
      Decides-or_else Sensible (nearest_adjacent_to m s (here a) test) (work_beside chop) rest
        (nearest_adjacent-ne-none m s (here a) test)
        (λ st e. resolved refl (λ idx target kind qty. rw (e, beside_nearest))) r

  warmth_or-Good : (rest : Option Decision) → Good rest → Good (warmth_or m s draw a tick rest)
  unfolding warmth_or resolve_goal on_nearest
  warmth_or-Good rest r =
      search_or (warm_tile m s tick) (go_to goto_warmth) rest
        (λ p e. resolved refl (λ idx target kind qty. rw (e, on_nearest))) r

  sleep_here-Good : Good (sleep_here m s draw a tick)
  unfolding sleep_here resolve_goal
  sleep_here-Good = resolved refl (λ idx target kind qty. refl)

  wander_or_idle-Good : Good (wander_or_idle m s draw a tick)
  unfolding wander_or_idle resolve_goal resolve_wander
  wander_or_idle-Good = elim (Option-cases (wander_point m s draw a)) [
    | inl e ↦ rw (e, wander_or_idle) e
    | inr (p, e) ↦
        rw (e, wander_or_idle) (resolved refl (λ idx target kind qty. rw (e, resolve_wander)))
  ]

  by_night-Good : Good (by_night m s draw a tick)
  unfolding by_night
  by_night-Good =
      Decides-if Sensible (not (warm_at s.structures a.x a.y tick)) _ _
        (λ _. warmth_or-Good _ (refuel_or-Good _ (fire_or-Good _ (chop_or-Good _ sleep_here-Good))))
        (λ _. sleep_here-Good)

  nap-Good : s.night ≡ false → a.needs.rest < tired_at → Good (nap m s draw a tick)
  unfolding nap
  nap-Good day tired =
      Decides-if Sensible (not (warm_at s.structures a.x a.y tick)) _ _
        (λ _.
          search_or (warm_tile m s tick) (go_to sleep) _
            (λ p e. naps refl day tired (near (warm_tile m s tick) e)) sleep_here-Good)
        (λ _. sleep_here-Good)

  stock_up-Good : Good (stock_up m s draw a tick)
  unfolding stock_up
  stock_up-Good =
      Decides-if Sensible (ltb a.inv.food_raw stock_food_raw_to) _ _
        (λ _. food_or-Good _ wander_or_idle-Good) (λ _. wander_or_idle-Good)

  by_day-Good : Good (by_day m s draw a tick)
  unfolding by_day
  by_day-Good =
      Decides-if Sensible (not (has_structure s.structures fire)) _ _
        (λ _. fire_or-Good _ (chop_or-Good _ (refuel_or-Good _ stock_up-Good)))
        (λ _. refuel_or-Good _ stock_up-Good)

  after_food-Good : Good (after_food m s draw a tick)
  unfolding after_food
  after_food-Good =
      Decides-if Sensible s.night _ _ (λ _. by_night-Good)
        (λ day.
          Decides-if Sensible (ltb a.needs.rest tired_at) _ _
            (λ tired. nap-Good day (ltb→lt _ _ tired)) (λ _. by_day-Good))

  eats-Sensible : ltb a.needs.food hungry_at && has_any_food a ≡ true → Sensible eats
  unfolding resolve_eat
  eats-Sensible e = (ground arith, ground arith)

  -- Whatever the draws, `decideIntent` returns. It eats only where the agent is hungry and the
  -- resolver of `eat` has it eat; it stays idle only where no try of the wander finds a tile; and
  -- an intent is the one that the resolver of its goal gives, which is to forage, hunt, chop, build
  -- a fire, go to warmth, sleep on the spot or wander, or else a tired agent's nap by day at a warm
  -- tile or the refuelling of a cold or dying fire with wood at hand.
  pub decide_intent-Sensible : Decides Sensible (decide_intent m s draw a tick)
  unfolding decide_intent
  decide_intent-Sensible =
      Decides-if Sensible (ltb a.needs.food hungry_at && has_any_food a) _ _ (λ e. eats-Sensible e)
        (λ _.
          Decides-if Sensible (ltb a.needs.food hungry_at) _ _ (λ _. food_or-Good _ after_food-Good)
            (λ _. after_food-Good))
