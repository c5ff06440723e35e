-- ===== src/Sim/State.antt =====
-- internal/sim/state.go, agents.go, plan.go, guard.go, terrain.go: the reducer's state, as far as
-- the modelled arms of `Apply` read and write it, and the lookups by coordinate. Ticks, needs and
-- counts are natural numbers; coordinates and agent indices are integers. `effective_rate` is a
-- float64 that the reducer stores only, kept as its IEEE 754 bits.
use script_world.Prelude.{
  ℕ, Bool, true, false, ◌&&◌, Option, none, some, List, [], ◌∷◌, ◌++◌, if◌then◌else◌, get_elem?,
  set,
}
use script_world.Prelude.Int.{ℤ, pos, negsuc, eqb_ℤ, ◌+ℤ◌}
use script_world.Clock.Ladder.{Speed, x1, x4, x8, x16, x32}
use script_world.Sim.Item.{Kind, Inventory}
use script_world.Sim.Recipe.{Goal, StructureKind, is_wall, chest, fire}
use script_world.Sim.Pile.{Pile, empty_pile, is_empty}
use script_world.Sim.Journal.{Text, Journal}

pub record Needs : Type 0 where
  pub health : ℕ
  pub food : ℕ
  pub rest : ℕ
  pub warmth : ℕ
  pub morale : ℕ

-- `kind` is the empty string where the goal takes no item.
pub record Intent : Type 0 where
  pub goal : Goal
  pub target_x : ℤ
  pub target_y : ℤ
  pub res_x : ℤ
  pub res_y : ℤ
  pub work_start : ℕ
  pub kind : Option Kind
  pub qty : ℕ
  pub reason : Text

pub data GuardType : Type 0 where
  target_alive target_present not_superseded after_tick before_tick : GuardType
  unknown_guard : ℕ → GuardType

pub record Guard : Type 0 where
  pub type : GuardType
  pub target : ℤ
  pub tick : ℕ
  pub generation : ℕ

pub record PlanStep : Type 0 where
  pub job : Text
  pub goal : Goal
  pub target : ℤ
  pub when : Option Guard
  pub until : ℕ
  pub kind : Option Kind
  pub qty : ℕ

pub record AgentHail : Type 0 where
  pub by : ℤ
  pub until : ℕ

pub record Point : Type 0 where
  pub x : ℤ
  pub y : ℤ

pub record MemoryPlace : Type 0 where
  pub x : ℤ
  pub y : ℤ
  pub desc : Text

pub record Memory : Type 0 where
  pub text : Text
  pub salience : ℕ
  pub tick : ℕ
  pub subject : ℤ
  pub tone : ℤ
  pub where_at : Option MemoryPlace
  pub why : Text
  pub conv : ℕ
  pub origin : Text

pub record Agent : Type 0 where
  pub x : ℤ
  pub y : ℤ
  pub needs : Needs
  pub inv : Inventory
  pub asleep : Bool
  pub dead : Bool
  pub intent : Option Intent
  pub last_talk : ℕ
  pub memories : List Memory
  pub idle_since : ℕ
  pub near_death : Bool
  pub generation : ℕ
  pub plan : List PlanStep
  pub hail : Option AgentHail
  pub last_goal : Option Goal
  pub last_goal_tick : ℕ
  pub journal : Option Journal

pub record Structure : Type 0 where
  pub kind : StructureKind
  pub x : ℤ
  pub y : ℤ
  pub fuel_until : ℕ
  pub owner : ℤ
  pub store : Option Inventory
  pub hp : ℕ

pub record Harvest : Type 0 where
  pub x : ℤ
  pub y : ℤ
  pub regrow : ℕ

pub record DenUse : Type 0 where
  pub x : ℤ
  pub y : ℤ
  pub ready : ℕ

-- The predator that is abroad. `seen` holds the eight bits of the mask, the lowest first.
pub record Gru : Type 0 where
  pub x : ℤ
  pub y : ℤ
  pub last_attack : ℕ
  pub last_victim : ℤ
  pub seen : List Bool

pub record State : Type 0 where
  pub tick : ℕ
  pub paused : Bool
  pub speed : Speed
  pub requested_speed : Speed
  pub degraded : Bool
  pub effective_rate : ℕ
  pub seed : ℕ
  pub night : Bool
  pub agents : List Agent
  pub structures : List Structure
  pub cleared : List Point
  pub harvested : List Harvest
  pub den_uses : List DenUse
  pub quarried : List Point
  pub piles : List Pile
  pub gru : Option Gru

-- `Speed.TicksPerSecond()` as the bits of a float64: 1, 4, 8, 16, 32, and 0 for any other.
unfoldable pub rate_of : Speed → ℕ
rate_of x1 = 0x3ff0000000000000
rate_of x4 = 0x4010000000000000
rate_of x8 = 0x4020000000000000
rate_of x16 = 0x4030000000000000
rate_of x32 = 0x4040000000000000
rate_of _ = 0

abbrev pub at_xy : ℤ → ℤ → ℤ → ℤ → Bool
at_xy x y x' y' = eqb_ℤ x x' && eqb_ℤ y y'

-- `&s.Agents[p]`, where it is in range.
unfoldable pub agent_at : List Agent → ℤ → Option Agent
agent_at agents (pos n) = get_elem? agents n
agent_at agents (negsuc _) = none

unfoldable pub put_agent : State → ℤ → Agent → State
put_agent s (pos n) a = record s { agents = set s.agents n a }
put_agent s (negsuc _) a = s

-- `pileAt`: the first pile on the tile.
unfoldable pub pile_at : List Pile → ℤ → ℤ → Option Pile
pile_at [] x y = none
pile_at (p ∷ ps) x y = if at_xy p.x p.y x y then some p else pile_at ps x y

-- What is written through the pointer of `pileAt`.
unfoldable pub put_pile : List Pile → ℤ → ℤ → Pile → List Pile
put_pile [] x y q = []
put_pile (p ∷ ps) x y q = if at_xy p.x p.y x y then q ∷ ps else p ∷ put_pile ps x y q

-- `pileFor`: the piles with one on the tile.
unfoldable pub ensure_pile : List Pile → ℤ → ℤ → List Pile
unfolding pile_at
ensure_pile ps x y = elim (pile_at ps x y) [ none ↦ ps ++ empty_pile x y ∷ [] | some _ ↦ ps ]

-- The pile that `pileFor` returns.
unfoldable pub pile_for : List Pile → ℤ → ℤ → Pile
unfolding pile_at
pile_for ps x y = elim (pile_at ps x y) [ none ↦ empty_pile x y | some p ↦ p ]

-- The loop of `removeEmptyPileAt`.
unfoldable pub without_piles_at : List Pile → ℤ → ℤ → List Pile
without_piles_at [] x y = []
without_piles_at (p ∷ ps) x y =
    if at_xy p.x p.y x y then without_piles_at ps x y else p ∷ without_piles_at ps x y

unfoldable pub remove_empty_pile_at : List Pile → ℤ → ℤ → List Pile
unfolding pile_at is_empty without_piles_at
remove_empty_pile_at ps x y = elim (pile_at ps x y) [
  | none ↦ ps
  | some p ↦ if is_empty p then without_piles_at ps x y else ps
]

-- `pileOnOrAdjacent`, in the order north, east, south, west.
unfoldable pub pile_on_or_adjacent : List Pile → ℤ → ℤ → Option Pile
unfolding pile_at ◌+ℤ◌
pile_on_or_adjacent ps x y = elim (pile_at ps x y) [
  | some p ↦ some p
  | none ↦ elim (pile_at ps x (y +ℤ negsuc 0)) [
    | some p ↦ some p
    | none ↦ elim (pile_at ps (x +ℤ pos 1) y) [
      | some p ↦ some p
      | none ↦ elim (pile_at ps x (y +ℤ pos 1)) [
        | some p ↦ some p
        | none ↦ pile_at ps (x +ℤ negsuc 0) y
      ]
    ]
  ]
]

-- The first structure on a tile of a kind that the test accepts: `wallAt`, `chestAt`,
-- `fireStructAt`.
unfoldable pub find_structure : (StructureKind → Bool) → ℤ → ℤ → List Structure → Option Structure
find_structure test x y [] = none
find_structure test x y (st ∷ sts) =
    if test st.kind && at_xy st.x st.y x y then some st else find_structure test x y sts

-- What is written through the pointer that such a search returns.
unfoldable pub put_structure :
    (StructureKind → Bool) → ℤ → ℤ → Structure → List Structure → List Structure
put_structure test x y new [] = []
put_structure test x y new (st ∷ sts) =
    if test st.kind && at_xy st.x st.y x y then new ∷ sts else st ∷ put_structure test x y new sts

unfoldable pub wall_at : List Structure → ℤ → ℤ → Option Structure
unfolding find_structure is_wall
wall_at sts x y = find_structure is_wall x y sts

abbrev pub is_chest : StructureKind → Bool
is_chest chest = true
is_chest _ = false

abbrev pub is_fire : StructureKind → Bool
is_fire fire = true
is_fire _ = false

unfoldable pub chest_at : List Structure → ℤ → ℤ → Option Structure
unfolding find_structure
chest_at sts x y = find_structure is_chest x y sts

unfoldable pub fire_struct_at : List Structure → ℤ → ℤ → Option Structure
unfolding find_structure
fire_struct_at sts x y = find_structure is_fire x y sts

-- `structureIndexAt` with `removeStructureAt`, guarded as `agent.wall_destroyed` guards them: the
-- first structure on the tile goes if it is a wall.
unfoldable pub remove_wall_at : ℤ → ℤ → List Structure → List Structure
unfolding is_wall
remove_wall_at x y [] = []
remove_wall_at x y (st ∷ sts) =
    if at_xy st.x st.y x y
    then if is_wall st.kind then sts else st ∷ sts
    else st ∷ remove_wall_at x y sts
