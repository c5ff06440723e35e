-- ===== src/Sim/Social/Gifts.antt =====
-- internal/sim/executor.go: between whom a heartbeat finds a gift.
use script_world.Prelude.{
  ℕ, suc, ◌+◌, ◌<◌, ◌≡◌, refl, ap, ◌∙◌, subst, ◌⊎◌, inl, inr, ◌||◌, not, true, false, some,
  some-injective, List, [], ◌∷◌, ◌==◌, arith, get_elem?, Bool-cases, Option-cases,
}
use script_world.Prelude.Int.{ℤ, pos}
use script_world.Sim.Item.{Kind}
use script_world.Sim.Guard.{distance}
use script_world.Sim.Social.Beat.{
  BeatEvent, social, Gift, can_give, has_room, is_away, repayable, giveable, give_events,
  talk_events, pair_beat, partner_loop, beat_loop,
}
use script_world.Sim.Social.{Village, Villager, Debt, gave}

-- A gift between the villagers of two indices, one way or the other.
abbrev pub Fits : ℕ → ℤ → Villager → ℤ → Villager → Gift → Type 0
Fits tick i a j b g =
    (g.from ≡ i) × (g.to ≡ j) × (can_give a tick ≡ true) × (has_room b ≡ true)
    ⊎ (g.from ≡ j) × (g.to ≡ i) × (can_give b tick ≡ true) × (has_room a ≡ true)

repayable-Fits :
    (tick : ℕ) (i : ℤ) (a : Villager) (j : ℤ) (b : Villager) (ds : List Debt) (g : Gift)
    → repayable tick i a j b ds ≡ some g
    → Fits tick i a j b g
unfolding repayable
repayable-Fits tick i a j b [] g h = absurd (cc)
repayable-Fits tick i a j b (d ∷ ds) g h = ground (arith, repayable-Fits tick i a j b ds g)

giveable-Fits :
    (tick : ℕ) (i : ℤ) (a : Villager) (j : ℤ) (b : Villager) (g : Gift)
    → giveable tick i a j b ≡ some g
    → Fits tick i a j b g
unfolding giveable
giveable-Fits tick i a j b g h = ground arith

-- The first event of a gift names it.
give_events-gave :
    (g : Gift) {from to : ℤ} {k : Kind} {rest : List BeatEvent}
    → give_events g ≡ social (gave from to k) ∷ rest
    → g ≡ record { from = from; to = to }
unfolding give_events
give_events-gave g h = ground arith

abbrev pub gift : ℤ → ℤ → Gift
gift from to = record { from = from; to = to }

pair_beat-Fits :
    (v : Village) (tick : ℕ) (i : ℤ) (a : Villager) (j : ℤ) (b : Villager) {from to : ℤ} {k : Kind}
    {rest : List BeatEvent}
    → pair_beat v tick i a j b ≡ some (social (gave from to k) ∷ rest)
    → Fits tick i a j b (gift from to)
unfolding pair_beat talk_events
pair_beat-Fits v tick i a j b h = elim (Option-cases (repayable tick i a j b v.debts)) [
  | inr (g, e) ↦
      subst (Fits tick i a j b) (give_events-gave g (some-injective _ _ (rw (e, pair_beat) at h)))
        (repayable-Fits tick i a j b v.debts g e)
  | inl e ↦ elim (Option-cases (giveable tick i a j b)) [
    | inr (g, e') ↦
        subst (Fits tick i a j b)
          (give_events-gave g (some-injective _ _ (rw (e, e', pair_beat) at h)))
          (giveable-Fits tick i a j b g e')
    | inl e' ↦ ground arith
  ]
]

-- Two villagers beside one another, awake and alive.
pub record Beside (a b : Villager) : Type 0 where
  pub awake_a : is_away a ≡ false
  pub awake_b : is_away b ≡ false
  pub adjacent : distance a.agent b.agent ≡ 1

-- A villager of the list, whose first has the index `j`, that the first of the pair shares a gift
-- with.
abbrev Partner : ℕ → ℤ → Villager → ℕ → List Villager → Gift → Type 0
Partner tick i a j os g =
    (m : ℕ) × (b : Villager) × (get_elem? os m ≡ some b)
    × (is_away b ≡ false)
    × (distance a.agent b.agent ≡ 1)
    × Fits tick i a (pos (j + m)) b g

Partner-suc :
    (tick : ℕ) (i : ℤ) (a : Villager) (j : ℕ) (b : Villager) (os : List Villager) (g : Gift)
    → Partner tick i a (suc j) os g
    → Partner tick i a j (b ∷ os) g
Partner-suc tick i a j b os g (m, b', at, away, d, fits) =
    (suc m, b', at, away, d, subst (λ (n : ℕ). Fits tick i a (pos n) b' g) (omega arith) fits)

-- Two villagers of the list, whose first has the index `i`, that share a gift.
abbrev pub Paired : ℕ → ℕ → List Villager → Gift → Type 0
Paired tick i os g =
    (n : ℕ) × (m : ℕ) × (a : Villager) × (b : Villager) × (get_elem? os n ≡ some a)
    × (get_elem? os m ≡ some b)
    × (n < m)
    × Beside a b
    × Fits tick (pos (i + n)) a (pos (i + m)) b g

Paired-suc :
    (tick i : ℕ) (o : Villager) (os : List Villager) (g : Gift)
    → Paired tick (suc i) os g
    → Paired tick i (o ∷ os) g
Paired-suc tick i o os g (n, m, a, b, at, at', lt, beside, fits) = (
  suc n,
  suc m,
  a,
  b,
  at,
  at',
  omega arith,
  beside,
  subst (λ (x : ℕ). Fits tick (pos x) a (pos (i + suc m)) b g) (omega arith)
      (subst (λ (y : ℕ). Fits tick (pos (suc i + n)) a (pos y) b g) (omega arith) fits),
)

Paired-zero :
    (tick i : ℕ) (a : Villager) (os : List Villager) (g : Gift)
    → is_away a ≡ false
    → Partner tick (pos i) a (suc i) os g
    → Paired tick i (a ∷ os) g
Paired-zero tick i a os g e (m, b, at, away, d, fits) = (
  0,
  suc m,
  a,
  b,
  refl,
  at,
  omega arith,
  record { awake_a = e; awake_b = away; adjacent = d },
  subst (λ (x : ℕ). Fits tick (pos x) a (pos (i + suc m)) b g) (omega arith)
      (subst (λ (y : ℕ). Fits tick (pos i) a (pos y) b g) (omega arith) fits),
)

module _ (v : Village) (tick : ℕ) {from to : ℤ} {k : Kind} {rest : List BeatEvent} where
  partner_loop-Partner :
      (i : ℤ) (a : Villager) (j : ℕ) (os : List Villager)
      → partner_loop v tick i a j os ≡ some (social (gave from to k) ∷ rest)
      → Partner tick i a j os (gift from to)
  unfolding partner_loop
  partner_loop-Partner i a j [] h = absurd (cc)
  partner_loop-Partner i a j (b ∷ os) h =
      elim (Bool-cases (is_away b || not (distance a.agent b.agent == 1))) [
        | inl e ↦
            Partner-suc tick i a j b os (gift from to)
              (partner_loop-Partner i a (suc j) os (rw (e, partner_loop) at h))
        | inr e ↦ elim (Option-cases (pair_beat v tick i a (pos j) b)) [
          | inl n ↦
              Partner-suc tick i a j b os (gift from to)
                (partner_loop-Partner i a (suc j) os (rw (e, n, partner_loop) at h))
          | inr (evs, f) ↦ (
            0,
            b,
            refl,
            ground arith,
            ground arith,
            subst (λ (n : ℕ). Fits tick i a (pos n) b (gift from to)) (omega arith)
                (pair_beat-Fits v tick i a (pos j) b (f ∙ rw (e, f, partner_loop) at h)),
          )
        ]
      ]

  pub beat_loop-Paired :
      (i : ℕ) (os : List Villager)
      → beat_loop v tick i os ≡ social (gave from to k) ∷ rest
      → Paired tick i os (gift from to)
  unfolding beat_loop
  beat_loop-Paired i [] h = absurd (cc)
  beat_loop-Paired i (a ∷ os) h = elim (Bool-cases (is_away a)) [
    | inl e ↦
        Paired-suc tick i a os (gift from to) (beat_loop-Paired (suc i) os (rw (e, beat_loop) at h))
    | inr e ↦ elim (Option-cases (partner_loop v tick (pos i) a (suc i) os)) [
      | inl n ↦
          Paired-suc tick i a os (gift from to)
            (beat_loop-Paired (suc i) os (rw (e, n, beat_loop) at h))
      | inr (evs, f) ↦
          Paired-zero tick i a os (gift from to) e
            (partner_loop-Partner (pos i) a (suc i) os (f ∙ ap some (rw (e, f, beat_loop) at h)))
    ]
  ]
