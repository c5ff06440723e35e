-- ===== src/Sim/Terrain/Laws.antt =====
-- internal/worldmap/worldmap.go, internal/sim/terrain.go: reading the map in bounds, and what the
-- tests on a tile say of one another.
use script_world.Prelude.{
  ℕ, zero, suc, ◌+◌, ◌*◌, ◌<◌, ◌==◌, ==_iff, ◌≡◌, refl, inl, inr, true, false, none, some, List, [],
  ◌∷◌, length, get_elem?, Bool-cases, arith,
}
use script_world.Prelude.Int.{ℤ, pos, negsuc, ◌+ℤ◌}
use script_world.Sim.State.{State, Structure, find_structure, wall_at}
use script_world.Sim.Terrain.{TileKind, Map, tile_at, in_bounds, passable, structure_on, build_site}

-- A generated map has a tile for every position.
abbrev pub IsMap : Map → Type 0
IsMap m = length m.tiles ≡ m.w * m.h

get_elem?-lt {ℓ} :
    {A : Type ℓ} (xs : List A) (i : ℕ) → i < length xs → (a : A) × (get_elem? xs i ≡ some a)
get_elem?-lt [] i h = absurd (omega arith)
get_elem?-lt (x ∷ xs) zero h = (x, refl)
get_elem?-lt (x ∷ xs) (suc i) h = get_elem?-lt xs i (omega arith)

index_lt : (w h x y : ℕ) → x < w → y < h → w * y + x < w * h
index_lt w zero x y hx hy = absurd (omega arith)
index_lt w (suc h) x y hx hy = elim (Bool-cases (y == h)) [
  | inl e ↦ rw ((==_iff y h).0 e) (omega arith)
  | inr e ↦ omega (arith, index_lt w h x y hx (ground arith))
]

-- Reading a map with a tile for every position does not panic in bounds.
pub tile_at-in_bounds :
    (m : Map) (x y : ℤ)
    → IsMap m
    → in_bounds m x y ≡ true
    → (k : TileKind) × (tile_at m x y ≡ some k)
unfolding tile_at in_bounds ◌+ℤ◌
tile_at-in_bounds m (pos x) (pos y) h b =
    let (k, e) =
      get_elem?-lt m.tiles (m.w * y + x)
        (omega (arith, index_lt m.w m.h x y (ground arith) (ground arith))) in
    (k, ground arith)
tile_at-in_bounds m (pos x) (negsuc y) h b = absurd (ground arith)
tile_at-in_bounds m (negsuc x) y h b = absurd (cc b)

wall_at-structure_on :
    (sts : List Structure) (x y : ℤ) → structure_on sts x y ≡ false → wall_at sts x y ≡ none
unfolding wall_at find_structure structure_on
wall_at-structure_on [] x y h = refl
wall_at-structure_on (st ∷ sts) x y h = ground (arith, wall_at-structure_on sts x y)

-- Every tile that can be built on can be stood on.
pub build_site-passable :
    (m : Map) (s : State) (x y : ℤ) → build_site m s x y ≡ true → passable m s x y ≡ true
unfolding build_site passable
build_site-passable m s x y h = ground (arith, wall_at-structure_on s.structures x y)
