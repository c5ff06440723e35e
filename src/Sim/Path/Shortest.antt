-- ===== src/Sim/Path/Shortest.antt =====
-- internal/sim/path.go: the search against walks over passable tiles.
use script_world.Prelude.{
  ℕ, zero, suc, ◌≤◌, ◌≡◌, refl, sym, ap, ◌⊎◌, inl, inr, subst, Bool, true, false, List, [], ◌∷◌,
  Bool-cases, List-cases, leb, leb→le, arith,
}
use mathlib.Core.List.{Memᴰ}
use mathlib.Core.List.Memᴰ
use script_world.Sim.State.{State, Point}
use script_world.Sim.Terrain.{Map}
use script_world.Sim.Path.{
  Link, Frontier, found, missing, neighbours, seen, free, expand, bfs_loop, bfs, bfs_fuel, at_start,
}
use script_world.Sim.Path.Trail.{
  Trail, root, Walk, here, step, depth, eqb_point_refl, eqb_point_iff, seen-start, depth-start,
}
use script_world.Sim.Path.Wave.{Wave, Level-weaken, Level-member, scan-Turn}

module _ (m : Map) (s : State) (start : Point) (visit : Point → Bool) where
  -- A tile that was taken and not chosen, and whose passable neighbours are entered.
  pub record IsSettled (ls : List Link) (p : Point) : Type 0 where
    pub refused : visit p ≡ false
    pub around :
        (v : Point)
        → Memᴰ v (neighbours p)
        → free m s v ≡ true
        → (seen ls v ≡ true) × (depth ls v ≤ suc (depth ls p))

  -- The invariant of the search.
  pub record IsSearch (f : Frontier) : Type 0 where
    pub low : ℕ
    pub wave : Wave m s start low f
    pub settled : (p : Point) → seen f.links p ≡ true → Memᴰ p f.queue ⊎ IsSettled f.links p

  pub at_start-IsSearch : IsSearch (at_start start)
  at_start-IsSearch =
      let same = eqb_point_refl start in
      record {
        low = 1;
        wave = record {
          trail = root;
          queued = (ground arith, tt);
          level = (ground arith, ground arith, tt);
          bounded = λ p h. ground arith;
        };
        settled = λ p h. inl (Memᴰ.head (sym ((eqb_point_iff start p).0 (ground arith))));
      }

  pub expand-IsSearch :
      (ls : List Link) (cur : Point) (rest : List Point)
      → IsSearch (record { links = ls; queue = cur ∷ rest })
      → visit cur ≡ false
      → IsSearch (expand m s ls cur rest)
  unfolding expand
  expand-IsSearch ls cur rest h other =
      let d = depth ls cur in
      let lv = h.wave.level in
      let (t, ext, got) =
        scan-Turn m s start cur d (record { links = ls; queue = rest }) (neighbours cur)
          (record {
            wave = record {
              trail = h.wave.trail;
              queued = h.wave.queued.1;
              level = Level-weaken ls d (suc h.low) (suc d) rest (omega arith) lv.2;
              bounded = λ p k. omega (arith, h.wave.bounded p k);
            };
            current = h.wave.queued.0;
            depth_cur = refl;
          })
          (λ np q. q) in
      record {
        low = d;
        wave = t.wave;
        settled = λ p k. elim (ext.fresh p k) [
          | inr q ↦ inl q
          | inl old ↦ elim (h.settled p old) [
            | inr st ↦ inr (record {
              refused = st.refused;
              around = λ v near is_free.
                  let (v_seen, v_deep) = st.around v near is_free in
                  (ext.kept v v_seen, omega (arith, ext.deep v v_seen, ext.deep p old));
            })
            | inl q ↦ elim (Memᴰ.cases_cons q) [
              | inr r ↦ inl (ext.waiting p r)
              | inl e ↦ inr (record {
                refused = subst (λ z. visit z ≡ false) (sym e) other;
                around = λ v near is_free.
                    let v_seen = got v (subst (λ z. Memᴰ v (neighbours z)) e near) is_free in
                    (
                      v_seen,
                      omega (
                        arith,
                        t.wave.bounded v v_seen,
                        subst (λ z. depth (expand m s ls cur rest).links z ≡ depth ls z) (sym e)
                            (ext.deep cur h.wave.queued.0),
                        ap (depth ls) e,
                      ),
                    );
              })
            ]
          ]
        ];
      }

  -- Before a depth that every waiting tile has, all that walks reach is entered.
  nearer :
      (f : Frontier)
      → IsSearch f
      → (lo : ℕ) → ((p : Point) → Memᴰ p f.queue → lo ≤ depth f.links p)
      → {q : Point} {n : ℕ} → Walk m s start q n
      → suc n ≤ lo
      → (seen f.links q ≡ true) × (depth f.links q ≤ suc n)
  nearer f h lo ahead here le = (
    seen-start m s start f.links h.wave.trail,
    omega (arith, depth-start m s start f.links h.wave.trail),
  )
  nearer f h lo ahead (step {u} w near is_free) le =
      let (u_seen, u_deep) = nearer f h lo ahead w (omega arith) in
      elim (h.settled u u_seen) [
        | inl q ↦ absurd (omega (arith, ahead u q))
        | inr st ↦ let (v_seen, v_deep) = st.around _ near is_free in (v_seen, omega arith)
      ]

  pub refused_before :
      (f : Frontier)
      → IsSearch f
      → (lo : ℕ) → ((p : Point) → Memᴰ p f.queue → lo ≤ depth f.links p)
      → {q : Point} {n : ℕ} → Walk m s start q n
      → suc (suc n) ≤ lo
      → visit q ≡ false
  refused_before f h lo ahead {q = q} w le =
      let (q_seen, q_deep) = nearer f h lo ahead w (omega arith) in
      elim (h.settled q q_seen) [
        | inl waits ↦ absurd (omega (arith, ahead q waits))
        | inr st ↦ st.refused
      ]

  -- Where the search chooses a tile, the tile heads a queue of the invariant.
  loop-found :
      (fuel : ℕ) (f : Frontier) (p : Point) (ls : List Link)
      → IsSearch f
      → bfs_loop m s visit fuel f ≡ found p ls
      → (visit p ≡ true) × (rest : List Point) × IsSearch (record { links = ls; queue = p ∷ rest })
  unfolding bfs_loop
  loop-found zero f p ls h e = absurd (cc e)
  loop-found (suc fuel) f p ls h e = elim (List-cases f.queue) [
    | inl empty ↦ absurd (cc (rw (empty, bfs_loop) at e))
    | inr (cur, rest, q) ↦
        let h' = subst (λ xs. IsSearch (record { links = f.links; queue = xs })) q h in
        elim (Bool-cases (visit cur)) [
          | inl chosen ↦
              let same : found cur f.links ≡ found p ls = rw (q, chosen, bfs_loop) at e in
              let to_p : cur ≡ p = ground arith in
              let to_ls : f.links ≡ ls = ground arith in
              (
                subst (λ z. visit z ≡ true) to_p chosen,
                rest,
                subst (λ z. IsSearch (record { links = z; queue = p ∷ rest })) to_ls
                    (subst (λ z. IsSearch (record { links = f.links; queue = z ∷ rest })) to_p h'),
              )
          | inr other ↦
              loop-found fuel (expand m s f.links cur rest) p ls
                (expand-IsSearch f.links cur rest h' other) (rw (q, other, bfs_loop) at e)
        ]
  ]

  loop-missing :
      (fuel : ℕ) (f : Frontier) (ls : List Link)
      → IsSearch f
      → bfs_loop m s visit fuel f ≡ missing ls
      → IsSearch (record { links = ls; queue = [] })
  unfolding bfs_loop
  loop-missing zero f ls h e = absurd (cc e)
  loop-missing (suc fuel) f ls h e = elim (List-cases f.queue) [
    | inl empty ↦
        let same : missing f.links ≡ missing ls = rw (empty, bfs_loop) at e in
        let to_ls : f.links ≡ ls = ground arith in
        subst (λ z. IsSearch (record { links = z; queue = [] })) to_ls
          (subst (λ xs. IsSearch (record { links = f.links; queue = xs })) empty h)
    | inr (cur, rest, q) ↦
        let h' = subst (λ xs. IsSearch (record { links = f.links; queue = xs })) q h in
        elim (Bool-cases (visit cur)) [
          | inl chosen ↦ absurd (cc (rw (q, chosen, bfs_loop) at e))
          | inr other ↦
              loop-missing fuel (expand m s f.links cur rest) ls
                (expand-IsSearch f.links cur rest h' other) (rw (q, other, bfs_loop) at e)
        ]
  ]

  -- What a search that chooses `p` says: its entries, their depth, and the walks that are longer.
  pub record IsNearest (p : Point) (ls : List Link) : Type 0 where
    pub chosen : visit p ≡ true
    pub trail : Trail m s start ls
    pub entered : seen ls p ≡ true
    pub closest : (q : Point) (n : ℕ) → Walk m s start q n → visit q ≡ true → depth ls p ≤ suc n

  pub bfs-found : (p : Point) (ls : List Link) → bfs m s start visit ≡ found p ls → IsNearest p ls
  unfolding bfs
  bfs-found p ls e =
      let (chosen, rest, h) = loop-found (bfs_fuel m) (at_start start) p ls at_start-IsSearch e in
      record {
        chosen = chosen;
        trail = h.wave.trail;
        entered = h.wave.queued.0;
        closest = λ q n w yes'. elim (Bool-cases (leb (depth ls p) (suc n))) [
          | inl le ↦ leb→le _ _ le
          | inr gt ↦
              let ahead =
                Level-member ls (depth ls p) (suc h.low) (p ∷ rest)
                  (omega arith, h.wave.level.1, h.wave.level.2) in
              absurd (
                cc (
                  yes',
                  refused_before (record { links = ls; queue = p ∷ rest }) h (depth ls p) ahead w
                      (ground arith),
                ))
        ];
      }

  pub bfs-missing :
      (ls : List Link)
      → bfs m s start visit ≡ missing ls
      → (q : Point) (n : ℕ) → Walk m s start q n
      → visit q ≡ false
  unfolding bfs
  bfs-missing ls e q n w =
      let h = loop-missing (bfs_fuel m) (at_start start) ls at_start-IsSearch e in
      refused_before (record { links = ls; queue = [] }) h (suc (suc n))
        (λ p k. absurd (Memᴰ.not-nil k)) w (omega arith)
