-- ===== src/Sim.antt =====
-- internal/sim: the deterministic simulation. The event reducer `State.Apply` and what it stands
-- on: inventories and recipes, ground piles, journals, terrain overlays, paths, hails and guards.
pub mod Item
pub mod Recipe
pub mod Pile
pub mod Journal
pub mod State
pub mod Event
pub mod Apply
pub mod Terrain
pub mod Path
pub mod Guard
pub mod Hail
pub mod Gru
pub mod Loop
pub mod Social
pub mod Policy
pub mod World
