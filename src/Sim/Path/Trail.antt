-- ===== src/Sim/Path/Trail.antt =====
-- internal/sim/path.go: the entries of `cameFrom` as a tree rooted at the start, and the walk back.
use script_world.Prelude.{
  ℕ, zero, suc, ◌≤◌, ◌≡◌, refl, sym, ◌∙◌, ◌≢◌, ◌↔◌, inl, inr, subst, true, false, some, List, [],
  ◌∷◌, if◌then◌else◌, length, Bool-cases, arith,
}
use script_world.Prelude.Int.{eqb_ℤ_iff}
use mathlib.Core.List.{Memᴰ}
use script_world.Sim.State.{State, Point}
use script_world.Sim.Terrain.{Map}
use script_world.Sim.Path.{
  Link, eqb_point, neighbours, came_from, seen, free, came_or_zero, walk_back,
}

pub eqb_point_iff : (p q : Point) → (eqb_point p q ≡ true) ↔ (p ≡ q)
eqb_point_iff p q = ground (arith, eqb_ℤ_iff p.x q.x, eqb_ℤ_iff p.y q.y)

pub eqb_point_refl : (p : Point) → eqb_point p p ≡ true
eqb_point_refl p = (eqb_point_iff p p).1 refl

-- A walk over passable tiles, with its number of steps.
pub data Walk (m : Map) (s : State) (p : Point) : Point → ℕ → Type 0 where
  here : Walk m s p p 0
  step :
      {u v : Point} {n : ℕ}
      → Walk m s p u n
      → Memᴰ v (neighbours u)
      → free m s v ≡ true
      → Walk m s p v (suc n)

-- The entries: the start comes from itself, and every other tile is passable and beside the tile
-- it comes from, which was entered before it.
pub data Trail (m : Map) (s : State) (start : Point) : List Link → Type 0 where
  root : Trail m s start (record { to = start; via = start } ∷ [])
  grow :
      {ls : List Link} (p via : Point)
      → Trail m s start ls
      → seen ls p ≡ false
      → seen ls via ≡ true
      → Memᴰ p (neighbours via)
      → free m s p ≡ true
      → Trail m s start (record { to = p; via = via } ∷ ls)

-- One more than the number of entries between a tile and the start.
abbrev pub depth : List Link → Point → ℕ
depth [] p = 0
depth (l ∷ ls) p = if eqb_point l.to p then suc (depth ls l.via) else depth ls p

module _ (m : Map) (s : State) (start : Point) where
  pub seen-start : (ls : List Link) → Trail m s start ls → seen ls start ≡ true
  seen-start _ root = ground (arith, eqb_point_refl start)
  seen-start _ (grow {ls} p via t fresh from near is_free) = ground (arith, seen-start ls t)

  pub depth-start : (ls : List Link) → Trail m s start ls → depth ls start ≡ 1
  depth-start _ root = ground (arith, eqb_point_refl start)
  depth-start _ (grow {ls} p via t fresh from near is_free) =
      ground (arith, depth-start ls t, seen-start ls t, eqb_point_iff p start)

  -- Every entered tile is the end of a walk of its depth from the start.
  pub Trail-Walk :
      (ls : List Link)
      → Trail m s start ls
      → (p : Point) → seen ls p ≡ true
      → (n : ℕ) × (depth ls p ≡ suc n) × Walk m s start p n
  Trail-Walk _ root p h =
      let e = (eqb_point_iff start p).0 (ground arith) in
      (0, ground arith, subst (λ q. Walk m s start q 0) e here)
  Trail-Walk _ (grow {ls} q via t fresh from near is_free) p h = elim (Bool-cases (eqb_point q p)) [
    | inl e ↦
        let (n, d, w) = Trail-Walk ls t via from in
        (
          suc n,
          ground arith,
          subst (λ z. Walk m s start z (suc n)) ((eqb_point_iff q p).0 e) (step w near is_free),
        )
    | inr e ↦ let (n, d, w) = Trail-Walk ls t p (ground arith) in (n, ground arith, w)
  ]

  -- The walk back from `p` ends at a passable tile beside the start, from which `depth - 2` steps
  -- lead to `p`.
  abbrev BackWalk : List Link → List Link → ℕ → Point → Type 0
  BackWalk all ls fuel p =
      (r : Point) × (n : ℕ) × (walk_back fuel all start p ≡ some r)
      × Memᴰ r (neighbours start)
      × (free m s r ≡ true)
      × Walk m s r p n
      × (depth ls p ≡ suc (suc n))

  came_or_zero_via :
      (all : List Link) (q via : Point) → came_from all q ≡ some via → came_or_zero all q ≡ via
  unfolding came_or_zero
  came_or_zero_via all q via e = rw (e, came_or_zero) refl

  walk_back-near :
      (all : List Link) (fuel : ℕ) (q : Point)
      → came_or_zero all q ≡ start
      → walk_back (suc fuel) all start q ≡ some q
  unfolding walk_back
  walk_back-near all fuel q e = ground (arith, eqb_point_iff (came_or_zero all q) start)

  walk_back-far :
      (all : List Link) (fuel : ℕ) (q via : Point)
      → came_or_zero all q ≡ via
      → eqb_point via start ≡ false
      → walk_back (suc fuel) all start q ≡ walk_back fuel all start via
  unfolding walk_back
  walk_back-far all fuel q via e h = ground arith

  pub walk_back-Trail :
      (all : List Link) (ls : List Link)
      → Trail m s start ls
      → ((q : Point) → seen ls q ≡ true → came_from all q ≡ came_from ls q)
      → (fuel : ℕ) → length ls ≤ fuel
      → (p : Point) → seen ls p ≡ true
      → p ≢ start
      → BackWalk all ls fuel p
  unfolding came_from
  walk_back-Trail all _ root agree fuel enough p h ne =
      absurd (ne (sym ((eqb_point_iff start p).0 (ground arith))))
  walk_back-Trail all _ (grow {ls} q via t fresh from near is_free) agree zero enough p h ne =
      absurd (omega arith)
  walk_back-Trail all _ (grow {ls} q via t fresh from near is_free) agree (suc fuel) enough p h ne =
      let now = record { to = q; via = via } ∷ ls in
      let agree' : (z : Point) → seen ls z ≡ true → came_from all z ≡ came_from ls z =
        λ z k. ground (arith, agree z, eqb_point_iff q z) in
      elim (Bool-cases (eqb_point q p)) [
        | inl e ↦
            let came : came_or_zero all q ≡ via =
              came_or_zero_via all q via
                (agree q (ground (arith, eqb_point_refl q)) ∙ ground (arith, eqb_point_refl q)) in
            let at_q =
              elim (Bool-cases (eqb_point via start)) as (λ _. BackWalk all now (suc fuel) q) [
                | inl b ↦
                    let root_via = (eqb_point_iff via start).0 b in
                    (
                      q,
                      0,
                      walk_back-near all fuel q (cc),
                      subst (λ z. Memᴰ q (neighbours z)) root_via near,
                      is_free,
                      here,
                      ground (arith, depth-start ls t, eqb_point_refl q),
                    )
                | inr b ↦
                    let (r, n, ends, beside, r_free, w, d) =
                      walk_back-Trail all ls t agree' fuel (omega arith) via from
                        (λ c. ground (arith, eqb_point_iff via start)) in
                    (
                      r,
                      suc n,
                      walk_back-far all fuel q via came b ∙ ends,
                      beside,
                      r_free,
                      step w near is_free,
                      ground (arith, eqb_point_refl q),
                    )
              ] in
            subst (BackWalk all now (suc fuel)) ((eqb_point_iff q p).0 e) at_q
        | inr e ↦
            let (r, n, ends, beside, r_free, w, d) =
              walk_back-Trail all ls t agree' (suc fuel) (omega arith) p (ground arith) ne in
            (r, n, ends, beside, r_free, w, ground arith)
      ]
