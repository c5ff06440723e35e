-- ===== src/Sim/Path/Wave.antt =====
-- internal/sim/path.go: what one round of the search keeps. The queue holds entered tiles in the
-- order of their depth, which is that of the tile taken last or one more.
use script_world.Prelude.{
  ℕ, suc, ◌≤◌, ◌≡◌, refl, sym, ◌∙◌, ◌⊎◌, inl, inr, subst, true, false, not, ◌||◌, List, [], ◌∷◌,
  ◌++◌, All, All-append, All-weaken, Bool-cases, arith,
}
use mathlib.Core.List.{Memᴰ}
use mathlib.Core.List.Memᴰ
use script_world.Sim.State.{State, Point}
use script_world.Sim.Terrain.{Map}
use script_world.Sim.Path.{Link, Frontier, eqb_point, neighbours, seen, free, offer, scan}
use script_world.Sim.Path.Trail.{Trail, grow, depth, eqb_point_iff, eqb_point_refl}

-- The depths do not decrease, and lie from `lo` to `hi`.
abbrev pub Level : List Link → ℕ → ℕ → List Point → Type 0
Level ls lo hi [] = Unit {0}
Level ls lo hi (x ∷ xs) = (lo ≤ depth ls x) × (depth ls x ≤ hi) × Level ls (depth ls x) hi xs

abbrev pub AllSeen : List Link → List Point → Type 0
AllSeen ls = All (λ p. seen ls p ≡ true)

pub record Wave (m : Map) (s : State) (start : Point) (d : ℕ) (f : Frontier) : Type 0 where
  pub trail : Trail m s start f.links
  pub queued : AllSeen f.links f.queue
  pub level : Level f.links d (suc d) f.queue
  pub bounded : (p : Point) → seen f.links p ≡ true → depth f.links p ≤ suc d

-- What entered tiles and waiting tiles of the first keep in the second.
pub record Extends (f g : Frontier) : Type 0 where
  pub kept : (p : Point) → seen f.links p ≡ true → seen g.links p ≡ true
  pub deep : (p : Point) → seen f.links p ≡ true → depth g.links p ≡ depth f.links p
  pub waiting : (p : Point) → Memᴰ p f.queue → Memᴰ p g.queue
  pub fresh : (p : Point) → seen g.links p ≡ true → (seen f.links p ≡ true) ⊎ Memᴰ p g.queue

Extends-refl : (f : Frontier) → Extends f f
Extends-refl f = record {
  kept = λ p h. h;
  deep = λ p h. refl;
  waiting = λ p h. h;
  fresh = λ p h. inl h;
}

Extends-trans : (f g k : Frontier) → Extends f g → Extends g k → Extends f k
Extends-trans f g k a b = record {
  kept = λ p h. b.kept p (a.kept p h);
  deep = λ p h. b.deep p (a.kept p h) ∙ a.deep p h;
  waiting = λ p h. b.waiting p (a.waiting p h);
  fresh = λ p h. elim (b.fresh p h) [
    | inl before ↦ elim (a.fresh p before) [ inl old ↦ inl old | inr q ↦ inr (b.waiting p q) ]
    | inr q ↦ inr q
  ];
}

pub depth-push :
    (l : Link) (ls : List Link) (p : Point)
    → seen ls l.to ≡ false
    → seen ls p ≡ true
    → depth (l ∷ ls) p ≡ depth ls p
depth-push l ls p fresh h = ground (arith, eqb_point_iff l.to p)

Level-push :
    (l : Link) (ls : List Link)
    → seen ls l.to ≡ false
    → (lo hi : ℕ) (xs : List Point) → AllSeen ls xs
    → Level ls lo hi xs
    → Level (l ∷ ls) lo hi xs
Level-push l ls fresh lo hi [] h lv = tt
Level-push l ls fresh lo hi (x ∷ xs) h lv =
    let same = depth-push l ls x fresh h.0 in
    (
      omega arith,
      omega arith,
      subst (λ d. Level (l ∷ ls) d hi xs) (sym same)
          (Level-push l ls fresh (depth ls x) hi xs h.1 lv.2),
    )

Level-append :
    (ls : List Link) (p : Point) (lo hi : ℕ) (xs : List Point)
    → lo ≤ hi
    → depth ls p ≡ hi
    → Level ls lo hi xs
    → Level ls lo hi (xs ++ p ∷ [])
Level-append ls p lo hi [] le e lv = (omega arith, omega arith, tt)
Level-append ls p lo hi (x ∷ xs) le e lv =
    (lv.0, lv.1, Level-append ls p (depth ls x) hi xs lv.1 e lv.2)

pub Level-weaken :
    (ls : List Link) (lo hi hi' : ℕ) (xs : List Point)
    → hi ≤ hi'
    → Level ls lo hi xs
    → Level ls lo hi' xs
Level-weaken ls lo hi hi' [] le lv = tt
Level-weaken ls lo hi hi' (x ∷ xs) le lv =
    (lv.0, omega arith, Level-weaken ls (depth ls x) hi hi' xs le lv.2)

pub Level-member :
    (ls : List Link) (lo hi : ℕ) (xs : List Point)
    → Level ls lo hi xs
    → (p : Point) → Memᴰ p xs
    → lo ≤ depth ls p
Level-member ls lo hi [] lv p q = absurd (Memᴰ.not-nil q)
Level-member ls lo hi (x ∷ xs) lv p q = elim (Memᴰ.cases_cons q) [
  | inl e ↦ subst (λ z. lo ≤ depth ls z) (sym e) lv.0
  | inr r ↦ omega (arith, Level-member ls (depth ls x) hi xs lv.2 p r)
]

module _ (m : Map) (s : State) (start : Point) (cur : Point) (d : ℕ) where
  -- A frontier that the scan of the neighbours of `cur` goes through.
  pub record Turn (f : Frontier) : Type 0 where
    pub wave : Wave m s start d f
    pub current : seen f.links cur ≡ true
    pub depth_cur : depth f.links cur ≡ d

  offer-Turn :
      (f : Frontier) (np : Point)
      → Turn f
      → Memᴰ np (neighbours cur)
      → Turn (offer m s cur f np)
        × Extends f (offer m s cur f np)
        × (free m s np ≡ true → seen (offer m s cur f np).links np ≡ true)
  unfolding offer
  offer-Turn f np t near = elim (Bool-cases (seen f.links np || not (free m s np))) [
    | inl e ↦ rw (e, offer) (t, Extends-refl f, λ h. ground arith)
    | inr e ↦
        let l : Link = record { to = np; via = cur } in
        let fresh : seen f.links np ≡ false = ground arith in
        let is_free : free m s np ≡ true = ground arith in
        let d_np : depth (l ∷ f.links) np ≡ suc d =
          ground (arith, eqb_point_refl np, t.depth_cur) in
        let keep : (p : Point) → seen f.links p ≡ true → seen (l ∷ f.links) p ≡ true =
          λ p h. ground arith in
        let top : seen (l ∷ f.links) np ≡ true = ground (arith, eqb_point_refl np) in
        rw (e, offer)
          (
            record {
              wave = record {
                trail = grow np cur t.wave.trail fresh t.current near is_free;
                queued =
                    All-append (λ p. seen (l ∷ f.links) p ≡ true) f.queue (np ∷ [])
                      (All-weaken (λ p. seen f.links p ≡ true) (λ p. seen (l ∷ f.links) p ≡ true)
                        f.queue keep t.wave.queued)
                      (top, tt);
                level =
                    Level-append (l ∷ f.links) np d (suc d) f.queue (omega arith) d_np
                      (Level-push l f.links fresh d (suc d) f.queue t.wave.queued t.wave.level);
                bounded = λ p h. ground (arith, eqb_point_iff np p, d_np, t.wave.bounded p);
              };
              current = keep cur t.current;
              depth_cur = depth-push l f.links cur fresh t.current ∙ t.depth_cur;
            },
            record {
              kept = keep;
              deep = λ p h. depth-push l f.links p fresh h;
              waiting = λ p q. Memᴰ.append_left _ q;
              fresh = λ p h. elim (Bool-cases (eqb_point np p)) [
                | inl b ↦
                    inr (Memᴰ.append_right f.queue (Memᴰ.head (sym ((eqb_point_iff np p).0 b))))
                | inr b ↦ inl (ground arith)
              ];
            },
            λ _. top,
          )
  ]

  pub scan-Turn :
      (f : Frontier) (nps : List Point)
      → Turn f
      → ((np : Point) → Memᴰ np nps → Memᴰ np (neighbours cur))
      → Turn (scan m s cur f nps)
        × Extends f (scan m s cur f nps)
        × ((np : Point)
            → Memᴰ np nps
            → free m s np ≡ true
            → seen (scan m s cur f nps).links np ≡ true)
  unfolding scan
  scan-Turn f [] t near = (t, Extends-refl f, λ np q. absurd (Memᴰ.not-nil q))
  scan-Turn f (x ∷ xs) t near =
      let (t', ext, got) = offer-Turn f x t (near x (Memᴰ.head refl)) in
      let (t'', ext', got') = scan-Turn (offer m s cur f x) xs t' (λ np q. near np (Memᴰ.tail q)) in
      (
        t'',
        Extends-trans f (offer m s cur f x) (scan m s cur (offer m s cur f x) xs) ext ext',
        λ np q h. elim (Memᴰ.cases_cons q) [
          | inl e ↦
              subst (λ z. seen (scan m s cur (offer m s cur f x) xs).links z ≡ true) (sym e)
                (ext'.kept x (got (subst (λ z. free m s z ≡ true) e h)))
          | inr r ↦ got' np r h
        ],
      )
