-- ===== src/Sim/Gru.antt =====
-- internal/sim/gru.go: `gruStep`, the predator's turn in a tick, and its emergence. A draw of
-- `rngAt` is a function of what it is seeded with, passed as an argument. What the step writes to
-- memory is kept as a note of who remembers what and where; the text and the place's name are not
-- modelled.
pub mod Laws
pub mod Turn
pub mod Nights
use script_world.Prelude.{
  ℕ, zero, suc, ◌+◌, ◌-◌, ◌/◌, ◌%◌, max, Bool, true, false, not, ◌&&◌, ◌||◌, Option, none, some,
  List, [], ◌∷◌, ◌++◌, length, get_elem?, leb, ltb, ◌==◌, if◌then◌else◌,
}
use script_world.Prelude.Int.{ℤ, pos, sub_ℕ, dist_ℤ}
use script_world.Clock.Calendar.{second_of_day, game_time}
use script_world.Sim.Recipe.{shelter}
use script_world.Sim.State.{State, Agent, Structure, Point, Gru, agent_at, is_fire}
use script_world.Sim.Event.{Event}
use script_world.Sim.Terrain.{Map, passable, structure_at}
use script_world.Sim.Path.{point, eqb_point, neighbours}

abbrev pub gru_sight_radius : ℕ
gru_sight_radius = 8

abbrev pub gru_light_radius : ℕ
gru_light_radius = 3

abbrev pub gru_move_every_ticks : ℕ
gru_move_every_ticks = 4

abbrev pub gru_wound : ℕ
gru_wound = 250

abbrev pub gru_wound_floor : ℕ
gru_wound_floor = 1

abbrev pub gru_attack_cooldown : ℕ
gru_attack_cooldown = 600

abbrev pub gru_emerge_per_mille : ℕ
gru_emerge_per_mille = 600

abbrev pub gru_spawn_tries : ℕ
gru_spawn_tries = 128

abbrev pub night_start_second : ℕ
night_start_second = 79200

abbrev pub witness_radius : ℕ
witness_radius = 8

-- The draws: out of 1000 for the night, the side and the offset below a bound for each try of the
-- night, and the choice below a bound at a tick.
pub record Draws : Type 0 where
  pub emerge : ℕ → ℕ
  pub side : ℕ → ℕ → ℕ
  pub along : ℕ → ℕ → ℕ → ℕ
  pub prowl : ℕ → ℕ → ℕ

-- Who remembers what, and the tile: the arguments of `situatedMemoryEvent`.
pub data Note : Type 0 where
  saw_gru torn : ℕ → ℤ → ℤ → Note
  witnessed : ℕ → ℤ → ℤ → ℤ → Note

pub data Beat : Type 0 where
  emit : Event → Beat
  remember : Note → Beat

unfoldable pub gru_night_index : ℕ → ℕ
gru_night_index tick = tick / 86400 + 1

-- The distance of two tiles.
abbrev pub apart : Point → Point → ℕ
apart p q = dist_ℤ p.x q.x + dist_ℤ p.y q.y

unfoldable pub lit_at : List Structure → ℤ → ℤ → Bool
lit_at [] x y = false
lit_at (st ∷ sts) x y =
    is_fire st.kind && leb (dist_ℤ st.x x + dist_ℤ st.y y) gru_light_radius || lit_at sts x y

unfoldable pub gru_protected : State → ℤ → ℤ → Bool
unfolding lit_at structure_at
gru_protected s x y = lit_at s.structures x y || structure_at s.structures shelter x y

-- `g.Seen & (1 << i) != 0`
unfoldable pub has_seen : List Bool → ℕ → Bool
has_seen mask i = elim (get_elem? mask i) [ none ↦ false | some b ↦ b ]

-- The loop of the sightings, from an index on.
unfoldable pub sightings : Gru → ℕ → List Agent → List Beat
unfolding has_seen
sightings g i [] = []
sightings g i (a ∷ rest) =
    let more = sightings g (suc i) rest in
    if a.dead || a.asleep || has_seen g.seen i
    then more
    else if leb (dist_ℤ a.x g.x + dist_ℤ a.y g.y) gru_sight_radius
    then emit (Event.gru_sighted (pos i) g.x g.y) ∷ remember (saw_gru i a.x a.y) ∷ more
    else more

-- The prey found so far, and its distance.
pub record Prey : Type 0 where
  pub target : Option ℕ
  pub dist : ℕ

abbrev pub no_prey : Prey
no_prey = record { target = none; dist = gru_sight_radius + 1 }

unfoldable pub find_prey : State → Gru → ℕ → List Agent → Prey → Prey
unfolding gru_protected
find_prey s g i [] best = best
find_prey s g i (a ∷ rest) best =
    let d = dist_ℤ a.x g.x + dist_ℤ a.y g.y in
    find_prey s g (suc i) rest (
      if a.dead || gru_protected s a.x a.y
      then best
      else if ltb d best.dist
      then record { target = some i; dist = d }
      else best)

-- The loop of the witnesses of an attack on the agent `a` of index `t`.
unfoldable pub witnesses : ℕ → Agent → ℕ → List Agent → List Beat
witnesses t a w [] = []
witnesses t a w (b ∷ rest) =
    let more = witnesses t a (suc w) rest in
    if w == t || b.dead || b.asleep
    then more
    else if leb (dist_ℤ b.x a.x + dist_ℤ b.y a.y) witness_radius
    then remember (witnessed w (pos t) b.x b.y) ∷ more
    else more

unfoldable pub attack : State → ℕ → Agent → List Beat
unfolding witnesses
attack s t a =
    emit (Event.gru_attacked (pos t) (max gru_wound_floor (a.needs.health - gru_wound)))
    ∷ remember (torn t a.x a.y)
    ∷ witnesses t a 0 s.agents

-- The gru may step on the tile.
unfoldable pub dark : Map → State → Point → Bool
unfolding gru_protected passable
dark m s p = passable m s p.x p.y && not (gru_protected s p.x p.y)

-- The neighbour that closes the gap to the prey, and the distance left.
unfoldable pub stalk : Map → State → Point → List Point → Point → ℕ → Point
unfolding dark
stalk m s prey [] best d = best
stalk m s prey (p ∷ ps) best d =
    if dark m s p && ltb (apart prey p) d
    then stalk m s prey ps p (apart prey p)
    else stalk m s prey ps best d

unfoldable pub open_tiles : Map → State → List Point → List Point
unfolding dark
open_tiles m s [] = []
open_tiles m s (p ∷ ps) = let more = open_tiles m s ps in if dark m s p then p ∷ more else more

-- A draw out of its bound would panic; `Uint64N` draws below it.
unfoldable pub prowl_step : Map → State → Draws → Gru → ℕ → List Beat
unfolding open_tiles neighbours
prowl_step m s d g next =
    let open' = open_tiles m s (neighbours (point g.x g.y)) in
    elim (get_elem? open' (d.prowl next (length open'))) [
      | none ↦ []
      | some p ↦ emit (Event.gru_moved p.x p.y) ∷ []
    ]

-- The neighbour that closes the gap to the prey, where there is one, else a drift.
unfoldable pub stalk_or_prowl : Map → State → Draws → Gru → ℕ → Agent → ℕ → List Beat
unfolding stalk prowl_step neighbours
stalk_or_prowl m s d g next a dist =
    let here = point g.x g.y in
    let p = stalk m s (point a.x a.y) (neighbours here) here dist in
    if eqb_point p here then prowl_step m s d g next else emit (Event.gru_moved p.x p.y) ∷ []

unfoldable pub move : Map → State → Draws → Gru → ℕ → Prey → List Beat
unfolding agent_at stalk_or_prowl prowl_step
move m s d g next prey = elim prey.target [
  | none ↦ prowl_step m s d g next
  | some t ↦ elim (agent_at s.agents (pos t)) [
    | none ↦ prowl_step m s d g next
    | some a ↦
        if leb prey.dist 1 then prowl_step m s d g next else stalk_or_prowl m s d g next a prey.dist
  ]
]

-- `targetDist <= 1` and the claws are ready.
unfoldable pub strikes : Gru → ℕ → Prey → Bool
strikes g next prey =
    leb prey.dist 1 && (g.last_attack == 0 || leb gru_attack_cooldown (next - g.last_attack))

unfoldable pub wait_or_move : Map → State → Draws → Gru → ℕ → Prey → List Beat
unfolding move
wait_or_move m s d g next prey =
    if not (next % gru_move_every_ticks == 0) then [] else move m s d g next prey

unfoldable pub hunt : Map → State → Draws → Gru → ℕ → Prey → List Beat
unfolding strikes attack wait_or_move agent_at
hunt m s d g next prey = elim prey.target [
  | none ↦ wait_or_move m s d g next prey
  | some t ↦
      if strikes g next prey
      then elim (agent_at s.agents (pos t)) [ none ↦ [] | some a ↦ attack s t a ]
      else wait_or_move m s d g next prey
]

-- The tile of a try: on the north, south, west or east border.
unfoldable pub border : Map → Draws → ℕ → ℕ → Point
border m d night try = elim (d.side night try) [
  | zero ↦ point (pos (d.along night try m.w)) (pos 0)
  | suc zero ↦ point (pos (d.along night try m.w)) (sub_ℕ m.h 1)
  | suc (suc zero) ↦ point (pos 0) (pos (d.along night try m.h))
  | suc (suc (suc _)) ↦ point (sub_ℕ m.w 1) (pos (d.along night try m.h))
]

-- The tries that are left, at most `gruSpawnTries`.
unfoldable pub spawn : Map → State → Draws → ℕ → ℕ → Option Point
unfolding border dark
spawn m s d night zero = none
spawn m s d night (suc left) =
    let p = border m d night (gru_spawn_tries - suc left) in
    elim (dark m s p) [ true ↦ some p | false ↦ spawn m s d night left ]

unfoldable pub gru_emergence : Map → State → Draws → ℕ → Option Point
unfolding spawn gru_night_index
gru_emergence m s d next =
    let night = gru_night_index next in
    if leb gru_emerge_per_mille (d.emerge night) then none else spawn m s d night gru_spawn_tries

-- `gruStep`, given `s.Gru`.
unfoldable pub gru_turn : Map → State → Draws → Bool → ℕ → Option Gru → List Beat
unfolding gru_emergence hunt sightings find_prey gru_night_index
gru_turn m s d night next none =
    if second_of_day next == night_start_second
    then elim (gru_emergence m s d next) [
      | none ↦ []
      | some p ↦ emit (Event.gru_emerged (gru_night_index next) p.x p.y) ∷ []
    ]
    else []
gru_turn m s d night next (some g) =
    if not night
    then emit (Event.gru_withdrew (game_time next).day) ∷ []
    else sightings g 0 s.agents ++ hunt m s d g next (find_prey s g 0 s.agents no_prey)

unfoldable pub gru_step : Map → State → Draws → Bool → ℕ → List Beat
unfolding gru_turn
gru_step m s d night next = gru_turn m s d night next s.gru
