-- ===== src/Sim/Gru/Turn.antt =====
-- internal/sim/gru.go: what the predator's turn emits.
use script_world.Prelude.{
  ℕ, suc, ◌+◌, ◌≡◌, refl, sym, ◌⊎◌, inl, inr, subst, Bool, true, false, ◌||◌, Option, none, some,
  List, [], ◌∷◌, All, All-append, get_elem?, length, leb, ltb, ◌%◌, ◌==◌, ==_iff, leb→le,
  Bool-cases, Option-cases, arith,
}
use script_world.Prelude.Int.{pos, dist_ℤ}
use mathlib.Core.List.{Memᴰ}
use script_world.Clock.Calendar.{second_of_day}
use script_world.Sim.State.{State, Agent, Point, Gru, agent_at}
use script_world.Sim.Event.{Event}
use script_world.Sim.Terrain.{Map}
use script_world.Sim.Path.{point, eqb_point, neighbours}
use script_world.Sim.Path.Trail.{eqb_point_iff}
use script_world.Sim.Gru.Laws.{Fair, dark-facts, stalk-IsStep, open_tiles-dark, spawn-dark}
use script_world.Sim.Gru.{
  Draws, emit, Prey, no_prey, gru_protected, has_seen, sightings, find_prey, witnesses, attack,
  dark, stalk, open_tiles, prowl_step, move, strikes, wait_or_move, stalk_or_prowl, gru_night_index,
  hunt, gru_emergence, gru_turn, gru_step,
}

module _ (m : Map) (s : State) (d : Draws) (g : Gru) (next : ℕ) (abroad : s.gru ≡ some g) where
  -- The agents from an index on.
  From : ℕ → List Agent → Type 0
  From i rest =
      (n k : ℕ) (a : Agent) → k ≡ i + n → get_elem? rest n ≡ some a → get_elem? s.agents k ≡ some a

  From-tail : (i : ℕ) (a : Agent) (rest : List Agent) → From i (a ∷ rest) → From (suc i) rest
  unfolding From
  From-tail i a rest h n k b at_k e = h (suc n) k b (omega arith) e

  From-head :
      (i : ℕ) (a : Agent) (rest : List Agent) → From i (a ∷ rest) → get_elem? s.agents i ≡ some a
  unfolding From
  From-head i a rest h = h 0 i a (omega arith) refl

  agent_at-pos :
      (t : ℕ) (a : Agent) → get_elem? s.agents t ≡ some a → agent_at s.agents (pos t) ≡ some a
  unfolding agent_at
  agent_at-pos t a e = e

  sightings-Fair :
      (i : ℕ) (rest : List Agent) → From i rest → All (Fair m s true next) (sightings g i rest)
  unfolding sightings agent_at
  sightings-Fair i [] h = tt
  sightings-Fair i (a ∷ rest) h =
      let later = sightings-Fair (suc i) rest (From-tail i a rest h) in
      let here = From-head i a rest h in
      elim (Bool-cases (a.dead || a.asleep || has_seen g.seen i)) [
        | inl e ↦ rw (e, sightings) later
        | inr e ↦ elim (Bool-cases (leb (dist_ℤ a.x g.x + dist_ℤ a.y g.y) 8)) [
          | inl f ↦
              rw (e, f, sightings)
                (
                  (
                    g,
                    a,
                    i,
                    abroad,
                    refl,
                    refl,
                    ground arith,
                    here,
                    ground arith,
                    ground arith,
                    leb→le _ _ f,
                  ),
                  (tt, later),
                )
          | inr f ↦ rw (e, f, sightings) later
        ]
      ]

  -- The prey is alive and in the dark, at its distance.
  IsPrey : Prey → Type 0
  IsPrey prey =
      (prey.target ≡ none)
      ⊎ ((t : ℕ) × (a : Agent) × (prey.target ≡ some t)
          × (get_elem? s.agents t ≡ some a)
          × (a.dead ≡ false)
          × (gru_protected s a.x a.y ≡ false)
          × (prey.dist ≡ dist_ℤ a.x g.x + dist_ℤ a.y g.y))

  exposed-IsPrey :
      (i : ℕ) (a : Agent)
      → get_elem? s.agents i ≡ some a
      → (a.dead || gru_protected s a.x a.y) ≡ false
      → IsPrey (record { target = some i; dist = dist_ℤ a.x g.x + dist_ℤ a.y g.y })
  unfolding IsPrey
  exposed-IsPrey i a here e = inr (i, a, refl, here, ground arith, ground arith, refl)

  find_prey-IsPrey :
      (i : ℕ) (rest : List Agent) (best : Prey)
      → From i rest
      → IsPrey best
      → IsPrey (find_prey s g i rest best)
  unfolding find_prey
  find_prey-IsPrey i [] best h p = p
  find_prey-IsPrey i (a ∷ rest) best h p =
      let tail = From-tail i a rest h in
      elim (Bool-cases (a.dead || gru_protected s a.x a.y)) [
        | inl e ↦ rw (e, find_prey) (find_prey-IsPrey (suc i) rest best tail p)
        | inr e ↦ elim (Bool-cases (ltb (dist_ℤ a.x g.x + dist_ℤ a.y g.y) best.dist)) [
          | inr f ↦ rw (e, f, find_prey) (find_prey-IsPrey (suc i) rest best tail p)
          | inl f ↦
              rw (e, f, find_prey)
                (find_prey-IsPrey (suc i) rest _ tail (exposed-IsPrey i a (From-head i a rest h) e))
        ]
      ]

  no_prey-IsPrey : IsPrey no_prey
  unfolding IsPrey
  no_prey-IsPrey = inl refl

  From-all : From 0 s.agents
  unfolding From
  From-all n k a at_k e = subst (λ z. get_elem? s.agents z ≡ some a) (sym (omega arith)) e

  witnesses-Fair :
      (t : ℕ) (a : Agent) (w : ℕ) (rest : List Agent)
      → All (Fair m s true next) (witnesses t a w rest)
  unfolding witnesses
  witnesses-Fair t a w [] = tt
  witnesses-Fair t a w (b ∷ rest) =
      let later = witnesses-Fair t a (suc w) rest in
      elim (Bool-cases (w == t || b.dead || b.asleep)) [
        | inl e ↦ rw (e, witnesses) later
        | inr e ↦ elim (Bool-cases (leb (dist_ℤ b.x a.x + dist_ℤ b.y a.y) 8)) [
          | inl f ↦ rw (e, f, witnesses) (tt, later)
          | inr f ↦ rw (e, f, witnesses) later
        ]
      ]

  moved-Fair :
      (p : Point)
      → Memᴰ p (neighbours (point g.x g.y))
      → dark m s p ≡ true
      → Fair m s true next (emit (Event.gru_moved p.x p.y))
  moved-Fair p near q =
      let (open', safe) = dark-facts m s p q in (g, abroad, refl, open', safe, near)

  prowl_step-Fair : All (Fair m s true next) (prowl_step m s d g next)
  unfolding prowl_step
  prowl_step-Fair =
      let tiles = open_tiles m s (neighbours (point g.x g.y)) in
      elim (Option-cases (get_elem? tiles (d.prowl next (length tiles)))) [
        | inl e ↦ rw (e, prowl_step) tt
        | inr (p, e) ↦
            let (near, q) = open_tiles-dark m s (neighbours (point g.x g.y)) _ p e in
            rw (e, prowl_step) (moved-Fair p near q, tt)
      ]

  stalk-Fair :
      (a : Agent) (dist : ℕ) → All (Fair m s true next) (stalk_or_prowl m s d g next a dist)
  unfolding stalk_or_prowl
  stalk-Fair a dist =
      let here = point g.x g.y in
      let p = stalk m s (point a.x a.y) (neighbours here) here dist in
      elim (Bool-cases (eqb_point p here)) [
        | inl e ↦ rw (e, stalk_or_prowl) prowl_step-Fair
        | inr e ↦ elim (stalk-IsStep m s (point a.x a.y) (neighbours here) here dist) [
          | inl same ↦ absurd (cc (e, (eqb_point_iff p here).1 same))
          | inr (near, q) ↦ rw (e, stalk_or_prowl) (moved-Fair p near q, tt)
        ]
      ]

  move-Fair : (prey : Prey) → All (Fair m s true next) (move m s d g next prey)
  unfolding move
  move-Fair prey = elim (Option-cases prey.target) [
    | inl e ↦ rw (e, move) prowl_step-Fair
    | inr (t, e) ↦ elim (Option-cases (agent_at s.agents (pos t))) [
      | inl f ↦ rw (e, f, move) prowl_step-Fair
      | inr (a, f) ↦ elim (Bool-cases (leb prey.dist 1)) [
        | inl b ↦ rw (e, f, b, move) prowl_step-Fair
        | inr b ↦ rw (e, f, b, move) (stalk-Fair a prey.dist)
      ]
    ]
  ]

  wait_or_move-Fair : (prey : Prey) → All (Fair m s true next) (wait_or_move m s d g next prey)
  unfolding wait_or_move
  wait_or_move-Fair prey = elim (Bool-cases (next % 4 == 0)) [
    | inl e ↦ rw (e, wait_or_move) (move-Fair prey)
    | inr e ↦ rw (e, wait_or_move) tt
  ]

  attack-Fair :
      (t : ℕ) (a : Agent) (prey : Prey)
      → get_elem? s.agents t ≡ some a
      → a.dead ≡ false
      → gru_protected s a.x a.y ≡ false
      → prey.dist ≡ dist_ℤ a.x g.x + dist_ℤ a.y g.y
      → strikes g next prey ≡ true
      → All (Fair m s true next) (attack s t a)
  unfolding attack strikes agent_at
  attack-Fair t a prey here alive exposed d_prey h = (
    (g, a, abroad, refl, here, alive, exposed, ground arith, ground arith, omega arith, refl),
    (tt, witnesses-Fair t a 0 s.agents),
  )

  hunt-Fair : (prey : Prey) → IsPrey prey → All (Fair m s true next) (hunt m s d g next prey)
  unfolding hunt IsPrey
  hunt-Fair prey (inl e) = rw (e, hunt) (wait_or_move-Fair prey)
  hunt-Fair prey (inr (t, a, e, here, alive, exposed, d_prey)) =
      elim (Bool-cases (strikes g next prey)) [
        | inr f ↦ rw (e, f, hunt) (wait_or_move-Fair prey)
        | inl f ↦
            let at_t : agent_at s.agents (pos t) ≡ some a = agent_at-pos t a here in
            rw (e, f, at_t, hunt) (attack-Fair t a prey here alive exposed d_prey f)
      ]

module _ (m : Map) (s : State) (d : Draws) (night : Bool) (next : ℕ) where
  emerged-Fair :
      (p : Point)
      → s.gru ≡ none
      → (second_of_day next == 79200) ≡ true
      → gru_emergence m s d next ≡ some p
      → Fair m s night next (emit (Event.gru_emerged (gru_night_index next) p.x p.y))
  unfolding gru_emergence
  emerged-Fair p e h f =
      let (open', safe) =
        dark-facts m s p (spawn-dark m s d (gru_night_index next) 128 p (ground arith)) in
      (e, (==_iff _ _).0 h, open', safe)

  gru_turn-Fair :
      (o : Option Gru) → s.gru ≡ o → All (Fair m s night next) (gru_turn m s d night next o)
  unfolding gru_turn
  gru_turn-Fair none e = elim (Bool-cases (second_of_day next == 79200)) [
    | inr h ↦ rw (h, gru_turn) tt
    | inl h ↦ elim (Option-cases (gru_emergence m s d next)) [
      | inl f ↦ rw (h, f, gru_turn) tt
      | inr (p, f) ↦ rw (h, f, gru_turn) (emerged-Fair p e h f, tt)
    ]
  ]
  gru_turn-Fair (some g) e = elim (Bool-cases night) [
    | inr h ↦ rw (h, gru_turn) ((refl, refl), tt)
    | inl h ↦
        rw (h, gru_turn)
          (All-append (Fair m s true next) (sightings g 0 s.agents)
            (hunt m s d g next (find_prey s g 0 s.agents no_prey))
            (sightings-Fair m s d g next e 0 s.agents (From-all m s d g next e))
            (hunt-Fair m s d g next e _ (
              find_prey-IsPrey m s d g next e 0 s.agents no_prey (From-all m s d g next e)
                (no_prey-IsPrey m s d g next e))))
  ]

  -- Whatever the draws, all that the gru does in a tick is fair. It emerges only at nightfall, on a
  -- passable tile without light or shelter, and withdraws only by day. Abroad at night it steps
  -- only on a passable neighbour of its tile without light or shelter; it is sighted only by agents
  -- alive, awake, within 8 tiles and not marked as having seen it; and it attacks only an agent that is alive, out of light and
  -- shelter and within 1 tile, 600 ticks or more after the last attack, and leaves it the greater of
  -- 1 and its health less 250, so it never kills.
  pub gru_step-Fair : All (Fair m s night next) (gru_step m s d night next)
  unfolding gru_step
  gru_step-Fair = gru_turn-Fair s.gru refl
