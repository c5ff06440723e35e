-- ===== src/Tests/Paths.antt =====
-- Tests of the terrain and the paths.
use script_world.Prelude.{ℕ, ◌≤◌, ◌≡◌, ◌≢◌, refl, ◌⊎◌, Bool, true, false, some, none, [], ◌∷◌, suc}
use script_world.Prelude.Int.{pos}
use mathlib.Core.List.{Memᴰ}
use script_world.Sim.State.{Point}
use script_world.Sim.Terrain.{grass, tree, water, Map, in_bounds, passable, build_site}
use script_world.Sim.Path.{
  out_of_fuel, point, eqb_point, neighbours, free, bfs, next_step, step_toward, nearest, Stand,
  nearest_adjacent_to, escape, beside, stand_beside,
}
use script_world.Sim.Path.Trail.{Walk, here, step}
use script_world.Sim.Path.Fuel.{bfs-ends}
use script_world.Sim.Path.Nearest.{IsClosest, nearest-IsClosest, nearest_adjacent_closest}
use script_world.Sim.Path.Steps.{next_step-shortest, next_step_returns}
use script_world.Tests.Camp.{camp}

-- A tree stands between two tiles of grass, with grass below; a pond closes the east.
abbrev pub field : Map
field = record {
  w = 4;
  h = 2;
  tiles = grass ∷ tree ∷ grass ∷ water ∷ grass ∷ grass ∷ grass ∷ water ∷ [];
  dens = [];
}

around_the_tree :
    next_step field camp (point (pos 0) (pos 0)) (point (pos 2) (pos 0))
    ≡ some (point (pos 0) (pos 1))
unfolding next_step bfs escape step_toward passable
around_the_tree = refl

into_the_pond :
    next_step field camp (point (pos 0) (pos 0)) (point (pos 3) (pos 1))
    ≡ some (point (pos 0) (pos 0))
unfolding next_step bfs escape step_toward passable
into_the_pond = refl

out_of_the_pond :
    next_step field camp (point (pos 3) (pos 1)) (point (pos 0) (pos 0))
    ≡ some (point (pos 2) (pos 1))
unfolding next_step bfs escape step_toward passable
out_of_the_pond = refl

tree_side :
    nearest_adjacent_to field camp
      (point (pos 0) (pos 1))
      (λ p. eqb_point p (point (pos 1) (pos 0)))
    ≡ some (some (record { stand = point (pos 0) (pos 0); res = point (pos 1) (pos 0) }))
unfolding nearest_adjacent_to bfs beside stand_beside passable
tree_side = refl

detour : Walk field camp (point (pos 0) (pos 0)) (point (pos 2) (pos 0)) 4
unfolding passable neighbours
detour =
    step
      (step
        (step (step here (Memᴰ.tail (Memᴰ.tail (Memᴰ.head refl))) refl) (Memᴰ.tail (Memᴰ.head refl))
          refl)
        (Memᴰ.tail (Memᴰ.head refl)) refl)
      (Memᴰ.head refl) refl

grass_free : free field camp (point (pos 0) (pos 0)) ≡ true
unfolding passable
grass_free = refl

start_apart : point (pos 0) (pos 0) ≢ point (pos 2) (pos 0)
start_apart e = cc e

next_step-shortest_example :
    (r : Point) × (n : ℕ) × (next_step field camp (point (pos 0) (pos 0)) (point (pos 2) (pos 0))
      ≡ some r)
    × Memᴰ r (neighbours (point (pos 0) (pos 0)))
    × (free field camp r ≡ true)
    × Walk field camp r (point (pos 2) (pos 0)) n
    × ((j : ℕ) → Walk field camp (point (pos 0) (pos 0)) (point (pos 2) (pos 0)) j → suc n ≤ j)
next_step-shortest_example =
    next_step-shortest field camp (point (pos 0) (pos 0)) (point (pos 2) (pos 0)) 4 grass_free
      start_apart detour

pond_unreached : (k : ℕ) → ¬ Walk field camp (point (pos 0) (pos 0)) (point (pos 3) (pos 1)) k
unfolding passable
pond_unreached _ (step w near is_free) = cc is_free

next_step_returns_example :
    (r : Point) × (next_step field camp (point (pos 3) (pos 1)) (point (pos 0) (pos 0)) ≡ some r)
    × ((r ≡ point (pos 3) (pos 1))
        ⊎ Memᴰ r (neighbours (point (pos 3) (pos 1)))
          × ((free field camp r ≡ true)
              ⊎ (free field camp (point (pos 3) (pos 1)) ≡ false)
                × (in_bounds field r.x r.y ≡ true)))
next_step_returns_example =
    next_step_returns field camp (point (pos 3) (pos 1)) (point (pos 0) (pos 0))

abbrev is_east : Point → Bool
is_east p = eqb_point p (point (pos 2) (pos 0))

bfs-ends_example : bfs field camp (point (pos 0) (pos 0)) is_east ≢ out_of_fuel
bfs-ends_example = bfs-ends field camp (point (pos 0) (pos 0)) is_east

nearest-IsClosest_example :
    ((p : Point) × (nearest field camp (point (pos 0) (pos 0)) is_east ≡ some (some p))
      × IsClosest field camp (point (pos 0) (pos 0)) is_east p)
    ⊎ ((nearest field camp (point (pos 0) (pos 0)) is_east ≡ some none)
        × ((q : Point) (n : ℕ) → Walk field camp (point (pos 0) (pos 0)) q n → is_east q ≡ false))
nearest-IsClosest_example = nearest-IsClosest field camp (point (pos 0) (pos 0)) is_east

nearest_adjacent_closest_example :
    ((a : Stand) × (nearest_adjacent_to field camp (point (pos 0) (pos 0)) is_east ≡ some (some a))
      × Memᴰ a.res (neighbours a.stand)
      × (is_east a.res ≡ true)
      × (n : ℕ) × Walk field camp (point (pos 0) (pos 0)) a.stand n
      × ((q r : Point) (k : ℕ)
          → Walk field camp (point (pos 0) (pos 0)) q k
          → Memᴰ r (neighbours q)
          → is_east r ≡ true
          → n ≤ k))
    ⊎ ((nearest_adjacent_to field camp (point (pos 0) (pos 0)) is_east ≡ some none)
        × ((q r : Point) (k : ℕ)
            → Walk field camp (point (pos 0) (pos 0)) q k
            → Memᴰ r (neighbours q)
            → is_east r ≡ false))
nearest_adjacent_closest_example =
    nearest_adjacent_closest field camp (point (pos 0) (pos 0)) is_east

inside : in_bounds field (pos 1) (pos 1) ≡ true
unfolding in_bounds
inside = refl

can_build : build_site field camp (pos 1) (pos 1) ≡ true
unfolding build_site
can_build = refl
