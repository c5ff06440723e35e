-- ===== src/Sim/Policy/Total.antt =====
-- internal/sim/policy.go: every resolver returns, and where an intent leads.
use script_world.Prelude.{
  ℕ, zero, suc, ◌+◌, ◌≡◌, ◌≢◌, refl, sym, subst, ◌∙◌, some-injective, inl, inr, ◌&&◌, not, Bool,
  true, false, Option, none, some, ◌==◌, arith, Bool-cases, Option-cases,
}
use script_world.Prelude.Int.{ℤ, eqb_ℤ, eqb_ℤ_iff, ◌+ℤ◌}
use script_world.Sim.Recipe.{Goal, wander, seek}
use script_world.Sim.State.{State, Agent, Point, agent_at}
use script_world.Sim.Terrain.{Map, passable}
use script_world.Sim.Path.{nearest, nearest_adjacent_to, Stand}
use script_world.Sim.Path.Trail.{Walk}
use script_world.Sim.Path.Nearest.{nearest-IsClosest, nearest_adjacent_closest}
use script_world.Sim.Policy.{
  Errand, Resolution, intent, ate, refused, here, go_to, work_beside, found_or, on_nearest,
  beside_nearest, needing, resolve_wander, wander_loop, wander_point, wander_tries, offset, talk,
}

-- Where the errand leads: to a tile that the agent can walk to, to a passable one when it wanders,
-- or to the tile of another living agent.
pub data Leads (m : Map) (s : State) (a : Agent) (idx target : ℤ) (e : Errand) : Type 0 where
  walks : {n : ℕ} → Walk m s (here a) e.target n → Leads m s a idx target e
  wanders : e.goal ≡ wander → passable m s e.target.x e.target.y ≡ true → Leads m s a idx target e
  seeks :
      {t : Agent}
      → e.goal ≡ seek
      → agent_at s.agents target ≡ some t
      → t.dead ≡ false
      → target ≢ idx
      → e.target ≡ here t
      → Leads m s a idx target e

-- The resolver returns, and what holds of its intent.
abbrev pub Resolves : (Errand → Type 0) → Option Resolution → Type 0
Resolves P none = ⊥
Resolves P (some (intent e)) = P e
Resolves P (some ate) = Unit
Resolves P (some (refused _)) = Unit

module _ (P : Errand → Type 0) where
  pub Resolves-needing :
      (b : Bool) (o : Option Resolution) → Resolves P o → Resolves P (needing b o)
  Resolves-needing true o h = h
  Resolves-needing false o h = tt

  Resolves-found_or {ℓ} :
      {A : Type ℓ} (f : A → Errand) (x : Option (Option A))
      → x ≢ none
      → ((y : A) → x ≡ some (some y) → P (f y))
      → Resolves P (found_or f x)
  Resolves-found_or f none ne h = ne refl
  Resolves-found_or f (some none) ne h = tt
  Resolves-found_or f (some (some y)) ne h = h y refl

module _ (m : Map) (s : State) (start : Point) (test : Point → Bool) where
  pub nearest-ne-none : nearest m s start test ≢ none
  nearest-ne-none e = elim (nearest-IsClosest m s start test) [
    | inl (p, f, _) ↦ cc
    | inr (f, _) ↦ cc
  ]

  pub nearest-Walk :
      {p : Point} → nearest m s start test ≡ some (some p) → (n : ℕ) × Walk m s start p n
  nearest-Walk e = elim (nearest-IsClosest m s start test) [
    | inl (q, f, c) ↦ (
      c.steps,
      subst (λ (q' : Point). Walk m s start q' c.steps)
          (some-injective _ _ (some-injective _ _ (sym f ∙ e))) c.way,
    )
    | inr (f, _) ↦ absurd (cc)
  ]

  pub nearest_adjacent-ne-none : nearest_adjacent_to m s start test ≢ none
  nearest_adjacent-ne-none e = elim (nearest_adjacent_closest m s start test) [
    | inl (_, f, _, _, _, _, _) ↦ cc
    | inr (f, _) ↦ cc
  ]

  pub nearest_adjacent-Walk :
      {st : Stand}
      → nearest_adjacent_to m s start test ≡ some (some st)
      → (n : ℕ) × Walk m s start st.stand n
  nearest_adjacent-Walk e = elim (nearest_adjacent_closest m s start test) [
    | inl (st', f, _, _, n, w, _) ↦ (
      n,
      subst (λ (q : Stand). Walk m s start q.stand n)
          (some-injective _ _ (some-injective _ _ (sym f ∙ e))) w,
    )
    | inr (f, _) ↦ absurd (cc)
  ]

wander_loop-passable :
    (m : Map) (s : State) (draw : ℕ → ℕ) (a : Agent) (k tries : ℕ) {p : Point}
    → wander_loop m s draw a k tries ≡ some p
    → passable m s p.x p.y ≡ true
unfolding wander_loop
wander_loop-passable m s draw a k zero h = absurd (cc)
wander_loop-passable m s draw a k (suc tries) {p} h =
    let q : Point = record { x = a.x +ℤ offset (draw k); y = a.y +ℤ offset (draw (k + 1)) } in
    elim (Bool-cases (not (draw k == 4 && draw (k + 1) == 4) && passable m s q.x q.y)) [
      | inl e ↦
          subst (λ (r : Point). passable m s r.x r.y ≡ true)
            (some-injective _ _ (rw (e, wander_loop) at h)) (ground arith)
      | inr e ↦ wander_loop-passable m s draw a (k + 2) tries (rw (e, wander_loop) at h)
    ]

module _ (m : Map) (s : State) (draw : ℕ → ℕ) (a : Agent) (idx target : ℤ) where
  abbrev pub Leading : Option Resolution → Type 0
  Leading = Resolves (Leads m s a idx target)

  pub on_nearest-Leading :
      (f : Point → Errand) (test : Point → Bool)
      → ((p : Point) → (f p).target ≡ p)
      → Leading (on_nearest m s a f test)
  unfolding on_nearest
  on_nearest-Leading f test same =
      Resolves-found_or (Leads m s a idx target) f (nearest m s (here a) test)
        (nearest-ne-none m s (here a) test)
        λ p e.
          let (n, w) = nearest-Walk m s (here a) test e in
          walks (subst (λ (q : Point). Walk m s (here a) q n) (sym (same p)) w)

  pub beside_nearest-Leading :
      (goal : Goal) (test : Point → Bool) → Leading (beside_nearest m s a goal test)
  unfolding beside_nearest
  beside_nearest-Leading goal test =
      Resolves-found_or (Leads m s a idx target) (work_beside goal)
        (nearest_adjacent_to m s (here a) test) (nearest_adjacent-ne-none m s (here a) test)
        λ st e. let (n, w) = nearest_adjacent-Walk m s (here a) test e in walks w

  pub needing_nearest :
      (b : Bool) (goal : Goal) (test : Point → Bool)
      → Leading (needing b (on_nearest m s a (go_to goal) test))
  needing_nearest b goal test =
      Resolves-needing (Leads m s a idx target) b _
        (on_nearest-Leading (go_to goal) test (λ _. refl))

  pub talk-Leading : Leading (some (talk s idx target))
  unfolding talk
  talk-Leading = elim (Option-cases (agent_at s.agents target)) [
    | inl e ↦ rw (e, talk) tt
    | inr (t, e) ↦ elim (Bool-cases (eqb_ℤ target idx)) [
      | inl same ↦ rw (e, same, talk) tt
      | inr other ↦ elim (Bool-cases t.dead) [
        | inl d ↦ rw (e, other, d, talk) tt
        | inr d ↦
            rw (e, other, d, talk)
              (seeks refl e d (λ same. ground (arith, eqb_ℤ_iff target idx)) refl)
      ]
    ]
  ]

  pub resolve_wander-Leading : Leading (resolve_wander m s draw a)
  unfolding resolve_wander wander_point
  resolve_wander-Leading = elim (Option-cases (wander_loop m s draw a 0 wander_tries)) [
    | inl e ↦ rw (e, resolve_wander) tt
    | inr (p, e) ↦
        rw (e, resolve_wander) (wanders refl (wander_loop-passable m s draw a 0 wander_tries e))
  ]

  pub stays : (e : Errand) → e.target ≡ here a → Leads m s a idx target e
  stays e same = walks (subst (λ (q : Point). Walk m s (here a) q 0) (sym same) Walk.here)
