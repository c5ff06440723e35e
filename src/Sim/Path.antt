-- ===== src/Sim/Path.antt =====
-- internal/sim/path.go: the breadth-first search over passable tiles, the next step of a path and
-- the nearest match. `cameFrom` is the list of its entries, the newest first, and the queue holds
-- its head first. The loops run on fuel: the search takes one round per queued tile, of which
-- there are at most W*H + 1, and the walk back at most one per entry.
pub mod Trail
pub mod Wave
pub mod Fuel
pub mod Shortest
pub mod Nearest
pub mod Steps
use script_world.Prelude.{
  ℕ, zero, suc, ◌*◌, Bool, true, false, not, ◌||◌, Option, none, some, List, [], ◌∷◌, ◌++◌, map,
  if◌then◌else◌, length,
}
use script_world.Prelude.Int.{ℤ, pos, negsuc, ◌+ℤ◌}
use script_world.Sim.State.{State, Point, at_xy}
use script_world.Sim.Terrain.{Map, passable, in_bounds}

abbrev pub point : ℤ → ℤ → Point
point x y = record { x = x; y = y }

abbrev pub eqb_point : Point → Point → Bool
eqb_point p q = at_xy p.x p.y q.x q.y

-- North, east, south, west.
abbrev pub neighbor_order : List Point
neighbor_order =
    point (pos 0) (negsuc 0)
    ∷ point (pos 1) (pos 0)
    ∷ point (pos 0) (pos 1)
    ∷ point (negsuc 0) (pos 0)
    ∷ []

unfoldable pub neighbours : Point → List Point
unfolding ◌+ℤ◌
neighbours p = map (λ d. point (p.x +ℤ d.x) (p.y +ℤ d.y)) neighbor_order

-- An entry of `cameFrom`.
pub record Link : Type 0 where
  pub to : Point
  pub via : Point

unfoldable pub came_from : List Link → Point → Option Point
came_from [] p = none
came_from (l ∷ ls) p = if eqb_point l.to p then some l.via else came_from ls p

abbrev pub seen : List Link → Point → Bool
seen [] p = false
seen (l ∷ ls) p = eqb_point l.to p || seen ls p

pub record Frontier : Type 0 where
  pub links : List Link
  pub queue : List Point

pub data Outcome : Type 0 where
  found : Point → List Link → Outcome
  missing : List Link → Outcome
  out_of_fuel : Outcome

-- `passable` at a point.
abbrev pub free : Map → State → Point → Bool
free m s p = passable m s p.x p.y

-- The body of the loop over the neighbours of `cur`.
unfoldable pub offer : Map → State → Point → Frontier → Point → Frontier
offer m s cur f np =
    if seen f.links np || not (free m s np)
    then f
    else record { links = record { to = np; via = cur } ∷ f.links; queue = f.queue ++ np ∷ [] }

unfoldable pub scan : Map → State → Point → Frontier → List Point → Frontier
unfolding offer
scan m s cur f [] = f
scan m s cur f (np ∷ nps) = scan m s cur (offer m s cur f np) nps

-- One round, after `cur` left the head of the queue.
unfoldable pub expand : Map → State → List Link → Point → List Point → Frontier
unfolding scan neighbours
expand m s links cur rest = scan m s cur (record { links = links; queue = rest }) (neighbours cur)

unfoldable pub bfs_loop : Map → State → (Point → Bool) → ℕ → Frontier → Outcome
unfolding expand
bfs_loop m s visit zero f = out_of_fuel
bfs_loop m s visit (suc fuel) f = elim f.queue [
  | [] ↦ missing f.links
  | cur ∷ rest ↦ elim (visit cur) [
    | true ↦ found cur f.links
    | false ↦ bfs_loop m s visit fuel (expand m s f.links cur rest)
  ]
]

abbrev pub at_start : Point → Frontier
at_start start = record { links = record { to = start; via = start } ∷ []; queue = start ∷ [] }

abbrev pub bfs_fuel : Map → ℕ
bfs_fuel m = suc (suc (m.w * m.h))

unfoldable pub bfs : Map → State → Point → (Point → Bool) → Outcome
unfolding bfs_loop
bfs m s start visit = bfs_loop m s visit (bfs_fuel m) (at_start start)

-- `cameFrom[p]`, which is the zero point where there is no entry.
unfoldable pub came_or_zero : List Link → Point → Point
unfolding came_from
came_or_zero ls p = elim (came_from ls p) [ none ↦ point (pos 0) (pos 0) | some q ↦ q ]

-- The walk back from the target; `none` where the fuel is spent.
unfoldable pub walk_back : ℕ → List Link → Point → Point → Option Point
unfolding came_or_zero
walk_back zero ls start cur = none
walk_back (suc fuel) ls start cur = elim (eqb_point (came_or_zero ls cur) start) [
  | true ↦ some cur
  | false ↦ walk_back fuel ls start (came_or_zero ls cur)
]

-- The first point of a list that passes the test.
unfoldable pub first_of : (Point → Bool) → List Point → Option Point
first_of test [] = none
first_of test (p ∷ ps) = if test p then some p else first_of test ps

-- The escape from an impassable tile.
unfoldable pub escape : Map → State → Point → Point
unfolding first_of in_bounds
escape m s start = elim (first_of (free m s) (neighbours start)) [
  | some p ↦ p
  | none ↦ elim (first_of (λ p. in_bounds m p.x p.y) (neighbours start)) [
    | some p ↦ p
    | none ↦ start
  ]
]

-- The end of `nextStep`, after the search: `none` stands for a loop that has not ended.
unfoldable pub step_toward : Point → Point → Outcome → Option Point
unfolding walk_back
step_toward start target (found _ links) = walk_back (length links) links start target
step_toward start target (missing _) = some start
step_toward start target out_of_fuel = none

unfoldable pub next_step : Map → State → Point → Point → Option Point
unfolding bfs step_toward escape
next_step m s start target =
    if eqb_point start target
    then some start
    else if not (free m s start)
    then some (escape m s start)
    else step_toward start target (bfs m s start (λ p. eqb_point p target))

-- The tile and `found`; `none` stands for a loop that has not ended.
unfoldable pub nearest : Map → State → Point → (Point → Bool) → Option (Option Point)
unfolding bfs
nearest m s start match = elim (bfs m s start match) [
  | found p _ ↦ some (some p)
  | missing _ ↦ some none
  | out_of_fuel ↦ none
]

pub record Stand : Type 0 where
  pub stand : Point
  pub res : Point

-- Some neighbour of the tile passes the test.
unfoldable pub beside : (Point → Bool) → Point → Bool
unfolding first_of neighbours
beside match_res p = elim (first_of match_res (neighbours p)) [ none ↦ false | some _ ↦ true ]

-- The end of `nearestAdjacentTo`: the standing tile and the resource beside it.
unfoldable pub stand_beside : (Point → Bool) → Outcome → Option (Option Stand)
unfolding first_of neighbours
stand_beside match_res (found p _) = elim (first_of match_res (neighbours p)) [
  | none ↦ some none
  | some r ↦ some (some (record { stand = p; res = r }))
]
stand_beside match_res (missing _) = some none
stand_beside match_res out_of_fuel = none

unfoldable pub nearest_adjacent_to : Map → State → Point → (Point → Bool) → Option (Option Stand)
unfolding bfs beside stand_beside
nearest_adjacent_to m s start match_res = stand_beside match_res (bfs m s start (beside match_res))
