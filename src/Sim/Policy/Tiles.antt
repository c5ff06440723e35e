-- ===== src/Sim/Policy/Tiles.antt =====
-- internal/sim/policy.go: the tests of the searches on a tile. A tile whose kind cannot be read
-- passes none.
use script_world.Prelude.{
  ℕ, ◌+◌, Bool, true, false, ◌&&◌, ◌||◌, Option, none, some, List, [], ◌∷◌, ltb, leb,
}
use script_world.Sim.Item.{Kind, Inventory, inv_field, bulk, carried_count}
use script_world.Sim.Recipe.{wall_max_hp, wall_repair_material, fire, oven}
use script_world.Sim.State.{State, Point, at_xy, wall_at, pile_at, chest_at, fire_struct_at}
use script_world.Sim.Terrain.{
  Map, TileKind, grass, water, tree, forage, rock, depleted, effective_kind, in_bounds, passable,
  build_site, structure_at, warm_at, lit_fire_at, den_ready_at,
}

abbrev pub same_kind : TileKind → TileKind → Bool
same_kind grass grass = true
same_kind water water = true
same_kind tree tree = true
same_kind forage forage = true
same_kind rock rock = true
same_kind depleted depleted = true
same_kind _ _ = false

unfoldable pub is_kind : Map → State → TileKind → Point → Bool
unfolding effective_kind
is_kind m s kind p = elim (effective_kind m s p.x p.y) [ none ↦ false | some k ↦ same_kind k kind ]

unfoldable pub forage_tile : Map → State → Point → Bool
unfolding is_kind
forage_tile m s p = is_kind m s forage p

unfoldable pub adjacent_kind : Map → State → TileKind → Point → Bool
unfolding is_kind in_bounds
adjacent_kind m s kind p = in_bounds m p.x p.y && is_kind m s kind p

-- Some den of the list is on the tile and ready.
unfoldable pub ready_den : List Point → State → ℕ → Point → Bool
unfolding den_ready_at
ready_den [] s tick p = false
ready_den (d ∷ ds) s tick p =
    at_xy d.x d.y p.x p.y && den_ready_at s.den_uses p.x p.y tick || ready_den ds s tick p

unfoldable pub den_tile : Map → State → ℕ → Point → Bool
unfolding ready_den
den_tile m s tick p = ready_den m.dens s tick p

unfoldable pub warm_tile : Map → State → ℕ → Point → Bool
unfolding warm_at passable
warm_tile m s tick p = warm_at s.structures p.x p.y tick && passable m s p.x p.y

unfoldable pub site_tile : Map → State → Point → Bool
unfolding build_site
site_tile m s p = build_site m s p.x p.y

unfoldable pub wall_tile : State → Point → Bool
unfolding wall_at
wall_tile s p = elim (wall_at s.structures p.x p.y) [ none ↦ false | some _ ↦ true ]

abbrev pub field_of : Inventory → Option Kind → ℕ
field_of inv none = 0
field_of inv (some k) = inv_field inv k

-- A damaged wall whose material is carried.
unfoldable pub worn_wall_tile : State → Inventory → Point → Bool
unfolding wall_at wall_max_hp wall_repair_material inv_field
worn_wall_tile s inv p = elim (wall_at s.structures p.x p.y) [
  | none ↦ false
  | some w ↦ ltb w.hp (wall_max_hp w.kind) && leb 1 (field_of inv (wall_repair_material w.kind))
]

unfoldable pub fire_tile : State → Point → Bool
unfolding structure_at
fire_tile s p = structure_at s.structures fire p.x p.y

unfoldable pub oven_tile : State → Point → Bool
unfolding structure_at
oven_tile s p = structure_at s.structures oven p.x p.y

unfoldable pub station_tile : State → ℕ → Point → Bool
unfolding lit_fire_at oven_tile
station_tile s tick p = lit_fire_at s.structures p.x p.y tick || oven_tile s p

unfoldable pub pile_tile : State → Point → Bool
unfolding pile_at
pile_tile s p = elim (pile_at s.piles p.x p.y) [ none ↦ false | some _ ↦ true ]

unfoldable pub chest_tile : State → Point → Bool
unfolding chest_at
chest_tile s p = elim (chest_at s.structures p.x p.y) [ none ↦ false | some _ ↦ true ]

-- What is wanted of a chest's goods; without a kind, anything.
unfoldable pub holds : Option Kind → Inventory → Bool
unfolding bulk carried_count
holds none inv = ltb 0 (bulk inv)
holds (some k) inv = ltb 0 (carried_count inv k)

unfoldable pub stocked_chest_tile : State → Option Kind → Point → Bool
unfolding chest_at holds
stocked_chest_tile s kind p = elim (chest_at s.structures p.x p.y) [
  | none ↦ false
  | some ch ↦ elim ch.store [ none ↦ false | some inv ↦ holds kind inv ]
]

abbrev pub refuel_dying_below : ℕ
refuel_dying_below = 3600

-- A fire that is cold or dying; the difference of the ticks may be negative.
unfoldable pub dying_fire_tile : State → ℕ → Point → Bool
unfolding fire_struct_at
dying_fire_tile s tick p = elim (fire_struct_at s.structures p.x p.y) [
  | none ↦ false
  | some st ↦ ltb st.fuel_until (tick + refuel_dying_below)
]
