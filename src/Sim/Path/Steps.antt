-- ===== src/Sim/Path/Steps.antt =====
-- internal/sim/path.go: `nextStep` against walks over passable tiles.
use script_world.Prelude.{
  ℕ, suc, ◌≤◌, ◌≡◌, ◌≢◌, refl, sym, ap, ◌∙◌, ◌⊎◌, inl, inr, subst, true, false, some, length,
  Bool-cases, Option-cases, arith,
}
use mathlib.Core.List.{Memᴰ}
use script_world.Sim.State.{State, Point}
use script_world.Sim.Terrain.{Map, in_bounds}
use script_world.Sim.Path.{
  eqb_point, neighbours, seen, free, bfs, first_of, escape, next_step, step_toward,
}
use script_world.Sim.Path.Trail.{Walk, depth, eqb_point_iff, walk_back-Trail}
use script_world.Sim.Path.Shortest.{bfs-found, bfs-missing}
use script_world.Sim.Path.Nearest.{Outcome-cases, first_of-some, IsNearest-IsClosest}
use script_world.Sim.Path.Fuel.{bfs-ends}

module _ (m : Map) (s : State) (start : Point) where
  next_step_same :
      (target : Point) → eqb_point start target ≡ true → next_step m s start target ≡ some start
  unfolding next_step
  next_step_same target e = rw e refl

  next_step_blocked :
      (target : Point)
      → eqb_point start target ≡ false
      → free m s start ≡ false
      → next_step m s start target ≡ some (escape m s start)
  unfolding next_step
  next_step_blocked target apart blocked = rw (apart, blocked) refl

  escape_lands :
      free m s start ≡ false
      → (escape m s start ≡ start)
        ⊎ Memᴰ (escape m s start) (neighbours start)
          × ((free m s (escape m s start) ≡ true)
              ⊎ (free m s start ≡ false)
                × (in_bounds m (escape m s start).x (escape m s start).y ≡ true))
  unfolding escape
  escape_lands blocked =
      let inside = λ (p : Point). in_bounds m p.x p.y in
      elim (Option-cases (first_of (free m s) (neighbours start))) [
        | inr (p, e) ↦
            let (near, t) = first_of-some (free m s) (neighbours start) p e in
            rw (e, escape) (inr (near, inl t))
        | inl none_free ↦ elim (Option-cases (first_of inside (neighbours start))) [
          | inr (p, e) ↦
              let (near, t) = first_of-some inside (neighbours start) p e in
              rw (none_free, e, escape) (inr (near, inr (blocked, t)))
          | inl none_in ↦ rw (none_free, none_in, escape) (inl refl)
        ]
      ]

  next_step-searches :
      (target : Point)
      → free m s start ≡ true
      → eqb_point start target ≡ false
      → next_step m s start target
        ≡ step_toward start target (bfs m s start (λ p. eqb_point p target))
  unfolding next_step
  next_step-searches target is_free apart = rw (apart, is_free) refl

  -- From a passable tile to another that some walk reaches, `nextStep` returns a passable
  -- neighbour of the first, from which the target is one step nearer than the shortest walk.
  pub next_step-shortest :
      (target : Point) (k : ℕ)
      → free m s start ≡ true
      → start ≢ target
      → Walk m s start target k
      → (r : Point) × (n : ℕ) × (next_step m s start target ≡ some r)
        × Memᴰ r (neighbours start)
        × (free m s r ≡ true)
        × Walk m s r target n
        × ((j : ℕ) → Walk m s start target j → suc n ≤ j)
  unfolding step_toward
  next_step-shortest target k is_free ne w =
      let goal = λ (p : Point). eqb_point p target in
      let apart : eqb_point start target ≡ false = ground (arith, eqb_point_iff start target) in
      elim (Outcome-cases (bfs m s start goal) (bfs-ends m s start goal)) [
        | inl (p, ls, e) ↦
            let h = bfs-found m s start goal p ls e in
            let at_target : p ≡ target = (eqb_point_iff p target).0 h.chosen in
            let (r, n, back, near, r_free, way, d) =
              walk_back-Trail m s start ls ls h.trail (λ q a. refl) (length ls) (omega arith) target
                (subst (λ z. seen ls z ≡ true) at_target h.entered) (λ c. ne (sym c)) in
            (
              r,
              n,
              next_step-searches target is_free apart ∙ ap (step_toward start target) e ∙ back,
              near,
              r_free,
              way,
              λ j v. omega (
                arith,
                subst (λ z. depth ls z ≤ suc j) at_target
                    (h.closest target j v ((eqb_point_iff target target).1 refl)),
                d,
              ),
            )
        | inr (ls, e) ↦
            absurd (
              cc (bfs-missing m s start goal ls e target k w, (eqb_point_iff target target).1 refl))
      ]

  -- From a passable tile to a target that no walk reaches, `nextStep` returns the tile itself.
  pub next_step_stays :
      (target : Point)
      → free m s start ≡ true
      → ((k : ℕ) → ¬ Walk m s start target k)
      → next_step m s start target ≡ some start
  unfolding step_toward
  next_step_stays target is_free no_walk =
      let goal = λ (p : Point). eqb_point p target in
      elim (Bool-cases (eqb_point start target)) [
        | inl e ↦ next_step_same target e
        | inr ne ↦ elim (Outcome-cases (bfs m s start goal) (bfs-ends m s start goal)) [
          | inl (p, ls, e) ↦
              let c = IsNearest-IsClosest m s start goal p ls (bfs-found m s start goal p ls e) in
              absurd (
                no_walk c.steps (
                  subst (λ z. Walk m s start z c.steps) ((eqb_point_iff p target).0 c.passes)
                    c.way))
          | inr (ls, e) ↦ next_step-searches target is_free ne ∙ ap (step_toward start target) e
        ]
      ]

  -- `nextStep` returns from every tile, whatever the target: the tile itself or a neighbour of
  -- it, which is passable, or else in bounds and the step leaves an impassable tile.
  pub next_step_returns :
      (target : Point)
      → (r : Point) × (next_step m s start target ≡ some r)
        × ((r ≡ start)
            ⊎ Memᴰ r (neighbours start)
              × ((free m s r ≡ true) ⊎ (free m s start ≡ false) × (in_bounds m r.x r.y ≡ true)))
  unfolding step_toward
  next_step_returns target =
      let goal = λ (p : Point). eqb_point p target in
      elim (Bool-cases (eqb_point start target)) [
        | inl e ↦ (start, next_step_same target e, inl refl)
        | inr apart ↦ elim (Bool-cases (free m s start)) [
          | inr blocked ↦
              (escape m s start, next_step_blocked target apart blocked, escape_lands blocked)
          | inl is_free ↦ elim (Outcome-cases (bfs m s start goal) (bfs-ends m s start goal)) [
            | inl (p, ls, e) ↦
                let h = bfs-found m s start goal p ls e in
                let at_target : p ≡ target = (eqb_point_iff p target).0 h.chosen in
                let (r, n, back, near, r_free, way, d) =
                  walk_back-Trail m s start ls ls h.trail (λ q a. refl) (length ls) (omega arith)
                    target (subst (λ z. seen ls z ≡ true) at_target h.entered)
                    (λ c. ground (arith, eqb_point_iff start target)) in
                (
                  r,
                  next_step-searches target is_free apart ∙ ap (step_toward start target) e ∙ back,
                  inr (near, inl r_free),
                )
            | inr (ls, e) ↦ (
              start,
              next_step-searches target is_free apart ∙ ap (step_toward start target) e,
              inl refl,
            )
          ]
        ]
      ]
