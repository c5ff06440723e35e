-- ===== src/Sim/Terrain.antt =====
-- internal/worldmap/worldmap.go: the generated map and its lookups; internal/sim/terrain.go: the
-- effective terrain, which merges the map with the overlays of the state, and the tests on it. The
-- generator of the map and its hash are not modelled.
pub mod Laws
use script_world.Prelude.{
  ℕ, ◌+◌, ◌*◌, Bool, true, false, not, ◌&&◌, ◌||◌, Option, none, some, List, [], ◌∷◌, leb, ltb,
  if◌then◌else◌, get_elem?,
}
use script_world.Prelude.Int.{ℤ, pos, negsuc, ◌+ℤ◌, sub_ℕ, dist_ℤ}
use script_world.Sim.Recipe.{StructureKind, fire, shelter, path, structure_eq}
use script_world.Sim.State.{
  State, Agent, Structure, Point, Harvest, DenUse, at_xy, wall_at, pile_at, fire_struct_at,
}

abbrev pub fire_warm_radius : ℕ
fire_warm_radius = 2

pub data TileKind : Type 0 where
  grass water tree forage rock depleted : TileKind

pub record Map : Type 0 where
  pub w : ℕ
  pub h : ℕ
  pub tiles : List TileKind
  pub dens : List Point

-- n * z for an integer z.
abbrev times : ℕ → ℤ → ℤ
times n (pos z) = pos (n * z)
times n (negsuc z) = sub_ℕ 0 (n * (z + 1))

-- A slice index; `none` stands for the panic.
abbrev slice_at : List TileKind → ℤ → Option TileKind
slice_at ts (pos i) = get_elem? ts i
slice_at ts (negsuc _) = none

-- `m.At`: the index is y*W + x, whatever the two are.
unfoldable pub tile_at : Map → ℤ → ℤ → Option TileKind
unfolding ◌+ℤ◌
tile_at m x y = slice_at m.tiles (times m.w y +ℤ x)

abbrev below : ℤ → ℕ → Bool
below (pos x) w = ltb x w
below (negsuc _) w = false

-- `m.InBounds`
unfoldable pub in_bounds : Map → ℤ → ℤ → Bool
in_bounds m x y = below x m.w && below y m.h

-- `m.Passable`, the generated terrain alone.
unfoldable pub map_passable : Map → ℤ → ℤ → Bool
unfolding in_bounds tile_at
map_passable m x y =
    if not (in_bounds m x y)
    then false
    else elim (tile_at m x y) [ some grass ↦ true | some forage ↦ true | _ ↦ false ]

-- `m.Buildable`
unfoldable pub map_buildable : Map → ℤ → ℤ → Bool
unfolding in_bounds tile_at
map_buildable m x y = in_bounds m x y && elim (tile_at m x y) [ some grass ↦ true | _ ↦ false ]

-- The scans of `effectiveKind` over an overlay.
unfoldable pub any_point : List Point → ℤ → ℤ → Bool
any_point [] x y = false
any_point (p ∷ ps) x y = at_xy p.x p.y x y || any_point ps x y

unfoldable pub any_harvest : List Harvest → ℤ → ℤ → Bool
any_harvest [] x y = false
any_harvest (h ∷ hs) x y = at_xy h.x h.y x y || any_harvest hs x y

-- The switch of `effectiveKind` on the generated kind.
unfoldable pub overlay_kind : State → ℤ → ℤ → TileKind → TileKind
unfolding any_point any_harvest
overlay_kind s x y tree = if any_point s.cleared x y then grass else tree
overlay_kind s x y forage = if any_harvest s.harvested x y then grass else forage
overlay_kind s x y rock = if any_point s.quarried x y then depleted else rock
overlay_kind s x y grass = grass
overlay_kind s x y water = water
overlay_kind s x y depleted = depleted

-- `none` where reading the map panics.
unfoldable pub effective_kind : Map → State → ℤ → ℤ → Option TileKind
unfolding tile_at overlay_kind
effective_kind m s x y = elim (tile_at m x y) [ none ↦ none | some k ↦ some (overlay_kind s x y k) ]

-- A tile whose kind cannot be read counts as blocked; a generated map has none in bounds.
abbrev pub walkable : Option TileKind → Bool
walkable (some grass) = true
walkable (some forage) = true
walkable (some depleted) = true
walkable _ = false

unfoldable pub passable : Map → State → ℤ → ℤ → Bool
unfolding in_bounds wall_at effective_kind
passable m s x y = if not (in_bounds m x y) then false else elim (wall_at s.structures x y) [
  | some _ ↦ false
  | none ↦ walkable (effective_kind m s x y)
]

-- Some structure of the kind stands on the tile: `structureAt`, and `pathAt` for a path.
unfoldable pub structure_at : List Structure → StructureKind → ℤ → ℤ → Bool
unfolding structure_eq
structure_at [] kind x y = false
structure_at (st ∷ sts) kind x y =
    structure_eq st.kind kind && at_xy st.x st.y x y || structure_at sts kind x y

unfoldable pub path_at : List Structure → ℤ → ℤ → Bool
unfolding structure_at
path_at sts x y = structure_at sts path x y

unfoldable pub has_structure : List Structure → StructureKind → Bool
unfolding structure_eq
has_structure [] kind = false
has_structure (st ∷ sts) kind = structure_eq st.kind kind || has_structure sts kind

-- `agentAt`: some living agent is on the tile.
unfoldable pub agent_on : List Agent → ℤ → ℤ → Bool
agent_on [] x y = false
agent_on (a ∷ rest) x y = not a.dead && at_xy a.x a.y x y || agent_on rest x y

-- The loop of `buildSite` over the structures.
unfoldable pub structure_on : List Structure → ℤ → ℤ → Bool
structure_on [] x y = false
structure_on (st ∷ sts) x y = at_xy st.x st.y x y || structure_on sts x y

unfoldable pub build_site : Map → State → ℤ → ℤ → Bool
unfolding in_bounds effective_kind structure_on pile_at
build_site m s x y =
    if not (in_bounds m x y && elim (effective_kind m s x y) [ some grass ↦ true | _ ↦ false ])
    then false
    else if structure_on s.structures x y
    then false
    else elim (pile_at s.piles x y) [ some _ ↦ false | none ↦ true ]

-- One structure warms the tile at the tick.
unfoldable pub warms : Structure → ℤ → ℤ → ℕ → Bool
warms st x y tick = elim st.kind [
  | fire ↦ ltb tick st.fuel_until && leb (dist_ℤ st.x x + dist_ℤ st.y y) fire_warm_radius
  | shelter ↦ at_xy st.x st.y x y
  | _ ↦ false
]

unfoldable pub warm_at : List Structure → ℤ → ℤ → ℕ → Bool
unfolding warms
warm_at [] x y tick = false
warm_at (st ∷ sts) x y tick = if warms st x y tick then true else warm_at sts x y tick

unfoldable pub lit_fire_at : List Structure → ℤ → ℤ → ℕ → Bool
unfolding fire_struct_at
lit_fire_at sts x y tick = elim (fire_struct_at sts x y) [
  | none ↦ false
  | some st ↦ ltb tick st.fuel_until
]

unfoldable pub den_ready_at : List DenUse → ℤ → ℤ → ℕ → Bool
den_ready_at [] x y tick = true
den_ready_at (d ∷ ds) x y tick =
    if at_xy d.x d.y x y && ltb tick d.ready then false else den_ready_at ds x y tick
