-- ===== src/Sim/World.antt =====
-- The well-formedness of the reducer's state (internal/sim/state.go, agents.go, terrain.go): what
-- the comments of the data types promise of pouches, chests, walls, piles and journals.
pub mod Goods
pub mod Agents
pub mod Mind
pub mod Work
pub mod Pace
pub mod Walls
pub mod Transfers
pub mod Piles
pub mod Tidy
pub mod Storage
pub mod GruSafe
pub mod Replay
pub mod Totals
pub mod Conservation
use script_world.Prelude.{
  ℕ, ◌≤◌, ◌<◌, ◌≡◌, true, false, not, Option, none, some, List, [], ◌∷◌, All,
}
use script_world.Prelude.Int.{ℤ}
use script_world.Sim.Item.{Inventory, bulk, bulk_cap, chest_cap}
use script_world.Sim.Item.Sorted.{IsSorted}
use script_world.Sim.Recipe.{is_wall, wall_max_hp}
use script_world.Sim.Pile.{Pile, FoodBatch, is_empty}
use script_world.Sim.Journal.{Journal}
use script_world.Sim.Journal.Laws.{IsJournal}
use script_world.Sim.State.{State, Agent, Structure, at_xy, rate_of}

-- The goods stay within the limit, and the most worn tools come first.
pub record IsStock (limit : ℕ) (inv : Inventory) : Type 0 where
  pub within : bulk inv ≤ limit
  pub spears_sorted : IsSorted inv.spears
  pub axes_sorted : IsSorted inv.axes

abbrev pub JournalHolds : Option Journal → Type 0
JournalHolds none = Unit {0}
JournalHolds (some j) = IsJournal j

pub record IsAgent (a : Agent) : Type 0 where
  pub pouch : IsStock bulk_cap a.inv
  pub notebook : JournalHolds a.journal

abbrev pub StoreHolds : Option Inventory → Type 0
StoreHolds none = Unit {0}
StoreHolds (some inv) = IsStock chest_cap inv

-- A standing wall has a health from 1 to its maximum; a chest's store stays within its limit.
pub record IsStructure (st : Structure) : Type 0 where
  pub standing : is_wall st.kind ≡ true → 1 ≤ st.hp
  pub mended : is_wall st.kind ≡ true → st.hp ≤ wall_max_hp st.kind
  pub store_holds : StoreHolds st.store

-- No pile is empty, no batch of food is empty, and the most worn tools come first.
pub record IsPile (p : Pile) : Type 0 where
  pub not_empty : is_empty p ≡ false
  pub stocked : All (λ (b : FoodBatch). 0 < b.n) p.food
  pub spears_sorted : IsSorted p.spears
  pub axes_sorted : IsSorted p.axes

-- No pile of the list lies on the tile.
abbrev pub Apart : ℤ → ℤ → List Pile → Type 0
Apart x y [] = Unit {0}
Apart x y (p ∷ ps) = (at_xy p.x p.y x y ≡ false) × Apart x y ps

-- One pile per tile.
abbrev pub OnePerTile : List Pile → Type 0
OnePerTile [] = Unit {0}
OnePerTile (p ∷ ps) = Apart p.x p.y ps × OnePerTile ps

pub record IsWorld (s : State) : Type 0 where
  pub agents_ok : All IsAgent s.agents
  pub structures_ok : All IsStructure s.structures
  pub piles_ok : All IsPile s.piles
  pub one_per_tile : OnePerTile s.piles
  pub rate_ok : s.degraded ≡ false → s.effective_rate ≡ rate_of s.speed
