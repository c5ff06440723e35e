-- ===== src/Tests/Camp.antt =====
-- A small world for the tests of the reducer.
use script_world.Prelude.{false, none, some, [], ◌∷◌, arith, refl}
use script_world.Prelude.Int.{ℤ, pos}
use script_world.Clock.Ladder.{x4, unset}
use script_world.Sim.Item.{Inventory, empty_inventory, bulk}
use script_world.Sim.Recipe.{StructureKind, is_wall, wall_max_hp}
use script_world.Sim.Pile.{Pile, empty_pile, is_empty}
use script_world.Sim.State.{State, Agent, Structure, Needs, rate_of}
use script_world.Sim.World.{IsWorld, IsAgent, IsStructure, IsPile}

abbrev pub needs : Needs
needs = record { health = 1000; food = 600; rest = 600; warmth = 600; morale = 500 }

abbrev pub person : ℤ → ℤ → Inventory → Agent
person x y inv = record {
  x = x;
  y = y;
  needs = needs;
  inv = inv;
  asleep = false;
  dead = false;
  intent = none;
  last_talk = 0;
  memories = [];
  idle_since = 0;
  near_death = false;
  generation = 0;
  plan = [];
  hail = none;
  last_goal = none;
  last_goal_tick = 0;
  journal = none;
}

abbrev pub ada : Agent
ada =
    person (pos 0) (pos 0)
      (record empty_inventory { wood = 3; food_raw = 2; spears = pos 1 ∷ pos 3 ∷ [] })

abbrev pub ben : Agent
ben = person (pos 1) (pos 0) empty_inventory

abbrev pub store : Structure
store = record {
  kind = StructureKind.chest;
  x = pos 2;
  y = pos 0;
  fuel_until = 0;
  owner = pos 0;
  store = some (record empty_inventory { stone = 5 });
  hp = 0;
}

abbrev pub wall : Structure
wall = record {
  kind = StructureKind.wall_plank;
  x = pos 3;
  y = pos 0;
  fuel_until = 0;
  owner = pos 0;
  store = none;
  hp = 100;
}

abbrev pub heap : Pile
heap = record (empty_pile (pos 1) (pos 0)) { wood = 4; axes = pos 7 ∷ [] }

-- Two agents, a chest, a wall and a pile.
abbrev pub camp : State
camp = record {
  tick = 100;
  paused = false;
  speed = x4;
  requested_speed = unset;
  degraded = false;
  effective_rate = 0x4010000000000000;
  seed = 7;
  night = false;
  agents = ada ∷ ben ∷ [];
  structures = store ∷ wall ∷ [];
  cleared = [];
  harvested = [];
  den_uses = [];
  quarried = [];
  piles = heap ∷ [];
  gru = none;
}

ada-IsAgent : IsAgent ada
unfolding bulk
ada-IsAgent = ground arith

ben-IsAgent : IsAgent ben
unfolding bulk
ben-IsAgent = ground arith

store-IsStructure : IsStructure store
unfolding bulk is_wall
store-IsStructure = ground arith

wall-IsStructure : IsStructure wall
unfolding is_wall wall_max_hp
wall-IsStructure = ground arith

heap-IsPile : IsPile heap
unfolding is_empty
heap-IsPile = ground arith

pub camp-IsWorld : IsWorld camp
unfolding rate_of
camp-IsWorld = record {
  agents_ok = (ada-IsAgent, (ben-IsAgent, tt));
  structures_ok = (store-IsStructure, (wall-IsStructure, tt));
  piles_ok = (heap-IsPile, tt);
  one_per_tile = (tt, tt);
  rate_ok = λ _. refl;
}
