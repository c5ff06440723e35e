-- ===== src/Sim/Path/Nearest.antt =====
-- internal/sim/path.go: `nearest` and `nearestAdjacentTo` against walks over passable
-- tiles.
use script_world.Prelude.{
  ℕ, ◌≤◌, ◌≡◌, ◌≢◌, refl, sym, ap, ◌∙◌, ◌⊎◌, inl, inr, subst, Bool, true, false, none, some, List,
  [], ◌∷◌, Bool-cases, Option-cases, some-injective, arith,
}
use mathlib.Core.List.{Memᴰ}
use mathlib.Core.List.Memᴰ
use script_world.Sim.State.{State, Point}
use script_world.Sim.Terrain.{Map}
use script_world.Sim.Path.{
  Link, Outcome, found, missing, out_of_fuel, neighbours, bfs, first_of, nearest, Stand,
  nearest_adjacent_to, beside, stand_beside,
}
use script_world.Sim.Path.Trail.{Walk, Trail-Walk}
use script_world.Sim.Path.Shortest.{IsNearest, bfs-found, bfs-missing}
use script_world.Sim.Path.Fuel.{bfs-ends}

-- A chosen tile, or none.
abbrev pub Ends : Outcome → Type 0
Ends o = ((p : Point) × (ls : List Link) × (o ≡ found p ls)) ⊎ ((ls : List Link) × (o ≡ missing ls))

pub Outcome-cases : (o : Outcome) → o ≢ out_of_fuel → Ends o
Outcome-cases (found p ls) h = inl (p, ls, refl)
Outcome-cases (missing ls) h = inr (ls, refl)
Outcome-cases out_of_fuel h = absurd (h refl)

pub first_of-some :
    (test : Point → Bool) (ps : List Point) (p : Point)
    → first_of test ps ≡ some p
    → Memᴰ p ps × (test p ≡ true)
unfolding first_of
first_of-some test [] p e = absurd (cc e)
first_of-some test (x ∷ xs) p e = elim (Bool-cases (test x)) [
  | inl t ↦
      let same : x ≡ p = some-injective _ _ (rw (t, first_of) at e) in
      (Memᴰ.head (sym same), subst (λ z. test z ≡ true) same t)
  | inr f ↦ let (q, t) = first_of-some test xs p (rw (f, first_of) at e) in (Memᴰ.tail q, t)
]

pub first_of-none :
    (test : Point → Bool) (ps : List Point)
    → first_of test ps ≡ none
    → (p : Point) → Memᴰ p ps
    → test p ≡ false
unfolding first_of
first_of-none test [] e p q = absurd (Memᴰ.not-nil q)
first_of-none test (x ∷ xs) e p q = elim (Memᴰ.cases_cons q) [
  | inl same ↦ subst (λ z. test z ≡ false) (sym same) (ground arith)
  | inr r ↦ first_of-none test xs (ground arith) p r
]

beside-some :
    (match : Point → Bool) (p : Point)
    → beside match p ≡ true
    → (r : Point) × (first_of match (neighbours p) ≡ some r)
unfolding beside
beside-some match p h = elim (Option-cases (first_of match (neighbours p))) [
  | inl e ↦ absurd (cc (rw (e, beside) at h))
  | inr (r, e) ↦ (r, e)
]

beside-none :
    (match : Point → Bool) (p : Point)
    → beside match p ≡ false
    → first_of match (neighbours p) ≡ none
unfolding beside
beside-none match p h = elim (Option-cases (first_of match (neighbours p))) [
  | inl e ↦ e
  | inr (r, e) ↦ absurd (cc (rw (e, beside) at h))
]

beside-true :
    (match : Point → Bool) (p r : Point)
    → Memᴰ r (neighbours p)
    → match r ≡ true
    → beside match p ≡ true
beside-true match p r near t = elim (Bool-cases (beside match p)) [
  | inl e ↦ e
  | inr e ↦ absurd (cc (first_of-none match (neighbours p) (beside-none match p e) r near, t))
]

stand_beside-some :
    (match : Point → Bool) (p r : Point) (ls : List Link)
    → first_of match (neighbours p) ≡ some r
    → stand_beside match (found p ls) ≡ some (some (record { stand = p; res = r }))
unfolding stand_beside
stand_beside-some match p r ls e = rw (e, stand_beside) refl

module _ (m : Map) (s : State) (start : Point) where
  -- What a nearest tile that passes the test is.
  pub record IsClosest (match : Point → Bool) (p : Point) : Type 0 where
    pub passes : match p ≡ true
    pub steps : ℕ
    pub way : Walk m s start p steps
    pub least : (q : Point) (n : ℕ) → Walk m s start q n → match q ≡ true → steps ≤ n

  pub IsNearest-IsClosest :
      (match : Point → Bool) (p : Point) (ls : List Link)
      → IsNearest m s start match p ls
      → IsClosest match p
  IsNearest-IsClosest match p ls h =
      let (n, d, w) = Trail-Walk m s start ls h.trail p h.entered in
      record {
        passes = h.chosen;
        steps = n;
        way = w;
        least = λ q k v t. omega (arith, h.closest q k v t);
      }

  -- `nearest` returns: a tile that passes the test at the end of a shortest walk over passable
  -- tiles to any such tile, or `found` false where no walk ends at such a tile.
  pub nearest-IsClosest :
      (match : Point → Bool)
      → ((p : Point) × (nearest m s start match ≡ some (some p)) × IsClosest match p)
        ⊎ ((nearest m s start match ≡ some none)
            × ((q : Point) (n : ℕ) → Walk m s start q n → match q ≡ false))
  unfolding nearest
  nearest-IsClosest match = elim (Outcome-cases (bfs m s start match) (bfs-ends m s start match)) [
    | inl (p, ls, e) ↦
        inl (
          p,
          rw (e, nearest) refl,
          IsNearest-IsClosest match p ls (bfs-found m s start match p ls e),
        )
    | inr (ls, e) ↦ inr (rw (e, nearest) refl, bfs-missing m s start match ls e)
  ]

  nearest_adjacent_ends :
      (match : Point → Bool) (o : Outcome)
      → bfs m s start (beside match) ≡ o
      → nearest_adjacent_to m s start match ≡ stand_beside match o
  unfolding nearest_adjacent_to
  nearest_adjacent_ends match o e = ap (stand_beside match) e

  -- `nearestAdjacentTo` returns: a resource tile that passes the test, beside a standing tile at
  -- the end of a shortest walk to any tile with such a neighbour, or `ok` false where no walk over
  -- passable tiles ends beside a tile that passes the test.
  pub nearest_adjacent_closest :
      (match : Point → Bool)
      → ((a : Stand) × (nearest_adjacent_to m s start match ≡ some (some a))
          × Memᴰ a.res (neighbours a.stand)
          × (match a.res ≡ true)
          × (n : ℕ) × Walk m s start a.stand n
          × ((q r : Point) (k : ℕ)
              → Walk m s start q k
              → Memᴰ r (neighbours q)
              → match r ≡ true
              → n ≤ k))
        ⊎ ((nearest_adjacent_to m s start match ≡ some none)
            × ((q r : Point) (k : ℕ)
                → Walk m s start q k
                → Memᴰ r (neighbours q)
                → match r ≡ false))
  unfolding stand_beside
  nearest_adjacent_closest match =
      elim (Outcome-cases (bfs m s start (beside match)) (bfs-ends m s start (beside match))) [
        | inl (p, ls, e) ↦
            let c =
              IsNearest-IsClosest (beside match) p ls (bfs-found m s start (beside match) p ls e) in
            let (r, f) = beside-some match p c.passes in
            let (near, passes) = first_of-some match (neighbours p) r f in
            inl (
              record { stand = p; res = r },
              nearest_adjacent_ends match _ e ∙ stand_beside-some match p r ls f,
              near,
              passes,
              c.steps,
              c.way,
              λ q r' k w n t. c.least q k w (beside-true match q r' n t),
            )
        | inr (ls, e) ↦ inr (
          nearest_adjacent_ends match _ e,
          λ q r k w n.
              first_of-none match (neighbours q)
                (beside-none match q (bfs-missing m s start (beside match) ls e q k w)) r n,
        )
      ]
