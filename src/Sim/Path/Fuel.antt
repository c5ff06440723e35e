-- ===== src/Sim/Path/Fuel.antt =====
-- internal/sim/path.go: the search ends within one round per tile of the map and two more.
use script_world.Prelude.{
  ℕ, zero, suc, ◌+◌, ◌*◌, ◌≤◌, ◌<◌, ◌≡◌, ◌≢◌, ◌==◌, ap, refl, inl, inr, subst, Bool, true, false,
  not, ◌||◌, List, [], ◌∷◌, ◌++◌, if◌then◌else◌, length, length-append, Bool-cases, List-cases,
  ==_iff, arith,
}
use script_world.Prelude.Int.{ℤ, pos, negsuc}
use mathlib.Core.List.{Memᴰ}
use mathlib.Core.List.Memᴰ
use script_world.Sim.State.{State, Point}
use script_world.Sim.Terrain.{Map, passable, in_bounds}
use script_world.Sim.Path.{
  Link, Frontier, out_of_fuel, point, neighbours, seen, free, offer, scan, expand, bfs_loop, bfs,
  bfs_fuel, at_start,
}
use script_world.Sim.Path.Trail.{eqb_point_refl}

abbrev row : ℕ → ℕ → List Point
row y zero = []
row y (suc x) = point (pos x) (pos y) ∷ row y x

-- The tiles of a map, row by row.
abbrev grid : ℕ → ℕ → List Point
grid w zero = []
grid w (suc h) = row h w ++ grid w h

length-row : (y x : ℕ) → length (row y x) ≡ x
length-row y zero = refl
length-row y (suc x) = ap suc (length-row y x)

length-grid : (w h : ℕ) → length (grid w h) ≡ w * h
length-grid w zero = omega arith
length-grid w (suc h) =
    omega (arith, length-append (row h w) (grid w h), length-row h w, length-grid w h)

row-has : (y n x : ℕ) → x < n → Memᴰ (point (pos x) (pos y)) (row y n)
row-has y zero x h = absurd (omega arith)
row-has y (suc n) x h = elim (Bool-cases (x == n)) [
  | inl e ↦ Memᴰ.head (ap (λ k. point (pos k) (pos y)) ((==_iff x n).0 e))
  | inr e ↦ Memᴰ.tail (row-has y n x (ground arith))
]

grid-has : (w n x y : ℕ) → x < w → y < n → Memᴰ (point (pos x) (pos y)) (grid w n)
grid-has w zero x y hx hy = absurd (omega arith)
grid-has w (suc n) x y hx hy = elim (Bool-cases (y == n)) [
  | inl e ↦
      Memᴰ.append_left _
        (subst (λ k. Memᴰ (point (pos x) (pos y)) (row k w)) ((==_iff y n).0 e) (row-has y w x hx))
  | inr e ↦ Memᴰ.append_right (row n w) (grid-has w n x y hx (ground arith))
]

in_bounds-grid : (m : Map) (x y : ℤ) → in_bounds m x y ≡ true → Memᴰ (point x y) (grid m.w m.h)
unfolding in_bounds
in_bounds-grid m (pos x) (pos y) h = grid-has m.w m.h x y (ground arith) (ground arith)
in_bounds-grid m (pos x) (negsuc y) h = absurd (ground arith)
in_bounds-grid m (negsuc x) y h = absurd (cc h)

free-in_bounds : (m : Map) (s : State) (p : Point) → free m s p ≡ true → in_bounds m p.x p.y ≡ true
unfolding passable
free-in_bounds m s p h = ground arith

-- How many of the points are not entered.
abbrev unseen : List Link → List Point → ℕ
unseen ls [] = 0
unseen ls (p ∷ ps) = if seen ls p then unseen ls ps else suc (unseen ls ps)

unseen_le : (ls : List Link) (ps : List Point) → unseen ls ps ≤ length ps
unseen_le ls [] = omega arith
unseen_le ls (p ∷ ps) = ground (arith, unseen_le ls ps)

unseen-push_le : (l : Link) (ls : List Link) (ps : List Point) → unseen (l ∷ ls) ps ≤ unseen ls ps
unseen-push_le l ls [] = omega arith
unseen-push_le l ls (p ∷ ps) = ground (arith, unseen-push_le l ls ps)

unseen-push :
    (l : Link) (ls : List Link) (ps : List Point)
    → Memᴰ l.to ps
    → seen ls l.to ≡ false
    → unseen (l ∷ ls) ps < unseen ls ps
unseen-push l ls [] q h = absurd (Memᴰ.not-nil q)
unseen-push l ls (p ∷ ps) q h = elim (Memᴰ.cases_cons q) [
  | inl e ↦
      subst (λ z. unseen (l ∷ ls) (z ∷ ps) < unseen ls (z ∷ ps)) e
        (ground (arith, eqb_point_refl l.to, unseen-push_le l ls ps))
  | inr r ↦ ground (arith, unseen-push l ls ps r h)
]

module _ (m : Map) (s : State) where
  -- A round takes one tile and queues only tiles that it enters, so this falls.
  abbrev work : Frontier → ℕ
  work f = unseen f.links (grid m.w m.h) + length f.queue

  offer-work : (cur : Point) (f : Frontier) (np : Point) → work (offer m s cur f np) ≤ work f
  unfolding offer
  offer-work cur f np = elim (Bool-cases (seen f.links np || not (free m s np))) [
    | inl e ↦ rw (e, offer) (omega arith)
    | inr e ↦
        let fresh : seen f.links np ≡ false = ground arith in
        let is_free : free m s np ≡ true = ground arith in
        let falls =
          unseen-push (record { to = np; via = cur }) f.links (grid m.w m.h)
            (in_bounds-grid m np.x np.y (free-in_bounds m s np is_free)) fresh in
        rw (e, offer) (omega (arith, falls, length-append f.queue (np ∷ [])))
  ]

  scan-work : (cur : Point) (f : Frontier) (nps : List Point) → work (scan m s cur f nps) ≤ work f
  unfolding scan
  scan-work cur f [] = omega arith
  scan-work cur f (np ∷ nps) =
      omega (arith, offer-work cur f np, scan-work cur (offer m s cur f np) nps)

  loop_ends :
      (visit : Point → Bool) (fuel : ℕ) (f : Frontier)
      → work f < fuel
      → bfs_loop m s visit fuel f ≢ out_of_fuel
  unfolding bfs_loop expand
  loop_ends visit zero f h e = absurd (omega arith)
  loop_ends visit (suc fuel) f h e = elim (List-cases f.queue) [
    | inl empty ↦ cc (rw (empty, bfs_loop) at e)
    | inr (cur, rest, q) ↦ elim (Bool-cases (visit cur)) [
      | inl chosen ↦ cc (rw (q, chosen, bfs_loop) at e)
      | inr other ↦
          loop_ends visit fuel (expand m s f.links cur rest)
            (omega (
              arith,
              ap length q,
              scan-work cur (record { links = f.links; queue = rest }) (neighbours cur),
            ))
            (rw (q, other, bfs_loop) at e)
    ]
  ]

-- From any tile, and for any test, the breadth-first search ends.
pub bfs-ends :
    (m : Map) (s : State) (start : Point) (visit : Point → Bool) → bfs m s start visit ≢ out_of_fuel
unfolding bfs
bfs-ends m s start visit =
    loop_ends m s visit (bfs_fuel m) (at_start start)
      (omega (arith, unseen_le (at_start start).links (grid m.w m.h), length-grid m.w m.h))
