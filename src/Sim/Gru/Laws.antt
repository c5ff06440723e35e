-- ===== src/Sim/Gru/Laws.antt =====
-- internal/sim/gru.go: what the predator's turn may do, and who is safe from it.
use script_world.Prelude.{
  ℕ, zero, suc, ◌+◌, ◌-◌, ◌≤◌, ◌≡◌, refl, sym, ◌⊎◌, inl, inr, subst, max, Bool, true, false, ◌&&◌,
  ◌||◌, none, some, List, [], ◌∷◌, get_elem?, ltb, Bool-cases, some-injective, arith,
}
use script_world.Prelude.Int.{ℤ, pos, dist_ℤ}
use mathlib.Core.List.{Memᴰ}
use script_world.Clock.Calendar.{second_of_day, game_time}
use script_world.Sim.Recipe.{StructureKind}
use script_world.Sim.State.{State, Agent, Structure, Point, Gru, agent_at}
use script_world.Sim.Event.{Event}
use script_world.Sim.Terrain.{Map, passable, warm_at, warms, structure_at}
use script_world.Sim.Path.{point, neighbours}
use script_world.Sim.Gru.{
  has_seen, apart, Draws, Beat, emit, remember, gru_protected, lit_at, dark, stalk, open_tiles,
  border, spawn,
}

-- What the gru may do in a tick.
abbrev pub Fair : Map → State → Bool → ℕ → Beat → Type 0
Fair m s night next (emit (Event.gru_emerged n x y)) =
    (s.gru ≡ none)
    × (second_of_day next ≡ 79200)
    × (passable m s x y ≡ true)
    × (gru_protected s x y ≡ false)
Fair m s night next (emit (Event.gru_withdrew day)) = (night ≡ false) × (day ≡ (game_time next).day)
Fair m s night next (emit (Event.gru_moved x y)) =
    (g : Gru) × (s.gru ≡ some g)
    × (night ≡ true)
    × (passable m s x y ≡ true)
    × (gru_protected s x y ≡ false)
    × Memᴰ (point x y) (neighbours (point g.x g.y))
Fair m s night next (emit (Event.gru_sighted i x y)) =
    (g : Gru) × (a : Agent) × (k : ℕ) × (s.gru ≡ some g)
    × (night ≡ true)
    × (i ≡ pos k)
    × (has_seen g.seen k ≡ false)
    × (agent_at s.agents i ≡ some a)
    × (a.dead ≡ false)
    × (a.asleep ≡ false)
    × (dist_ℤ a.x g.x + dist_ℤ a.y g.y ≤ 8)
Fair m s night next (emit (Event.gru_attacked i health)) =
    (g : Gru) × (a : Agent) × (s.gru ≡ some g)
    × (night ≡ true)
    × (agent_at s.agents i ≡ some a)
    × (a.dead ≡ false)
    × (gru_protected s a.x a.y ≡ false)
    × (dist_ℤ a.x g.x + dist_ℤ a.y g.y ≤ 1)
    × ((g.last_attack ≡ 0) ⊎ (600 ≤ next - g.last_attack))
    × (1 ≤ health)
    × (health ≡ max 1 (a.needs.health - 250))
Fair m s night next (remember note) = Unit {0}
Fair m s night next (emit _) = ⊥

pub dark-facts :
    (m : Map) (s : State) (p : Point)
    → dark m s p ≡ true
    → (passable m s p.x p.y ≡ true) × (gru_protected s p.x p.y ≡ false)
unfolding dark
dark-facts m s p h = ground arith

and_facts : (a b : Bool) → (a && b) ≡ true → (a ≡ true) × (b ≡ true)
and_facts a b h = ground arith

module _ (m : Map) (s : State) (prey : Point) where
  stalk_closer :
      (p : Point) (ps : List Point) (best : Point) (d : ℕ)
      → (dark m s p && ltb (apart prey p) d) ≡ true
      → stalk m s prey (p ∷ ps) best d ≡ stalk m s prey ps p (apart prey p)
  unfolding stalk
  stalk_closer p ps best d e = rw e refl

  stalk_same :
      (p : Point) (ps : List Point) (best : Point) (d : ℕ)
      → (dark m s p && ltb (apart prey p) d) ≡ false
      → stalk m s prey (p ∷ ps) best d ≡ stalk m s prey ps best d
  unfolding stalk
  stalk_same p ps best d e = rw e refl

  -- The best tile so far, or a dark one of the list.
  abbrev pub IsStep : List Point → Point → Point → Type 0
  IsStep ps best r = (r ≡ best) ⊎ Memᴰ r ps × (dark m s r ≡ true)

  pub stalk-IsStep :
      (ps : List Point) (best : Point) (d : ℕ) → IsStep ps best (stalk m s prey ps best d)
  unfolding stalk
  stalk-IsStep [] best d = inl refl
  stalk-IsStep (p ∷ ps) best d = elim (Bool-cases (dark m s p && ltb (apart prey p) d)) [
    | inl e ↦
        let is_dark : dark m s p ≡ true = (and_facts _ _ e).0 in
        subst (IsStep (p ∷ ps) best) (sym (stalk_closer p ps best d e))
          (elim (stalk-IsStep ps p (apart prey p)) [
            | inl same ↦ inr (Memᴰ.head same, subst (λ z. dark m s z ≡ true) (sym same) is_dark)
            | inr (near, q) ↦ inr (Memᴰ.tail near, q)
          ])
    | inr e ↦
        subst (IsStep (p ∷ ps) best) (sym (stalk_same p ps best d e))
          (elim (stalk-IsStep ps best d) [
            | inl same ↦ inl same
            | inr (near, q) ↦ inr (Memᴰ.tail near, q)
          ])
  ]

open_first :
    (m : Map) (s : State) (q : Point) (ps : List Point) (n : ℕ) (p : Point)
    → dark m s q ≡ true
    → ((k : ℕ) → get_elem? (open_tiles m s ps) k ≡ some p → Memᴰ p ps × (dark m s p ≡ true))
    → get_elem? (q ∷ open_tiles m s ps) n ≡ some p
    → Memᴰ p (q ∷ ps) × (dark m s p ≡ true)
open_first m s q ps zero p f later e =
    let same : q ≡ p = some-injective _ _ e in
    (Memᴰ.head (sym same), subst (λ z. dark m s z ≡ true) same f)
open_first m s q ps (suc n) p f later e = let (near, k) = later n e in (Memᴰ.tail near, k)

pub open_tiles-dark :
    (m : Map) (s : State) (ps : List Point) (n : ℕ) (p : Point)
    → get_elem? (open_tiles m s ps) n ≡ some p
    → Memᴰ p ps × (dark m s p ≡ true)
unfolding open_tiles
open_tiles-dark m s [] n p e = absurd (cc e)
open_tiles-dark m s (q ∷ ps) n p e = elim (Bool-cases (dark m s q)) [
  | inr f ↦
      let (near, k) = open_tiles-dark m s ps n p (rw (f, open_tiles) at e) in (Memᴰ.tail near, k)
  | inl f ↦ open_first m s q ps n p f (λ k. open_tiles-dark m s ps k p) (rw (f, open_tiles) at e)
]

pub spawn-dark :
    (m : Map) (s : State) (d : Draws) (night left : ℕ) (p : Point)
    → spawn m s d night left ≡ some p
    → dark m s p ≡ true
unfolding spawn
spawn-dark m s d night zero p e = absurd (cc e)
spawn-dark m s d night (suc left) p e =
    let q = border m d night (128 - suc left) in
    elim (Bool-cases (dark m s q)) [
      | inl f ↦ subst (λ z. dark m s z ≡ true) (some-injective _ _ (rw (f, spawn) at e)) f
      | inr f ↦ spawn-dark m s d night left p (rw (f, spawn) at e)
    ]

warm_at-lit :
    (sts : List Structure) (x y : ℤ) (tick : ℕ)
    → warm_at sts x y tick ≡ true
    → (lit_at sts x y || structure_at sts StructureKind.shelter x y) ≡ true
unfolding warm_at warms lit_at structure_at
warm_at-lit [] x y tick h = absurd (cc h)
warm_at-lit (st ∷ sts) x y tick h = ground (arith, warm_at-lit sts x y tick)

-- Who is warm is safe: wherever a lit fire or a shelter warms a tile, the gru neither sees an agent
-- nor sets foot.
pub warm_at-gru_protected :
    (s : State) (x y : ℤ) (tick : ℕ)
    → warm_at s.structures x y tick ≡ true
    → gru_protected s x y ≡ true
unfolding gru_protected
warm_at-gru_protected s x y tick h = warm_at-lit s.structures x y tick h
