-- ===== src/Sim/World/Piles.antt =====
-- The lookups and writes of ground piles by tile: one pile per tile, none empty.
use script_world.Prelude.{
  ◌<◌, ◌≡◌, refl, true, false, none, some, some-injective, List, [], ◌∷◌, ◌++◌, arith, All,
  All-append, Bool-cases, Option-cases, inl, inr, subst, sym, ◌∙◌,
}
use script_world.Prelude.Int.{ℤ, eqb_ℤ, eqb_ℤ_iff}
use script_world.Sim.Pile.{Pile, FoodBatch, empty_pile, is_empty}
use script_world.Sim.State.{
  at_xy, pile_at, put_pile, ensure_pile, pile_for, without_piles_at, remove_empty_pile_at,
}
use script_world.Sim.Apply.StorageArms.{write_pile}
use script_world.Sim.Item.Sorted.{IsSorted}
use script_world.Sim.World.{IsPile, Apart, OnePerTile}

pub at_xy_iff : (a b x y : ℤ) → at_xy a b x y ≡ true → (a ≡ x) × (b ≡ y)
at_xy_iff a b x y h = ground (arith, eqb_ℤ_iff a x, eqb_ℤ_iff b y)

pub at_xy_refl : (x y : ℤ) → at_xy x y x y ≡ true
at_xy_refl x y = ground (arith, eqb_ℤ_iff x x, eqb_ℤ_iff y y)

-- A pile on the tile, in order but for being empty.
pub record IsTidy (x y : ℤ) (p : Pile) : Type 0 where
  pub at_x : p.x ≡ x
  pub at_y : p.y ≡ y
  pub stocked : All (λ (b : FoodBatch). 0 < b.n) p.food
  pub spears_sorted : IsSorted p.spears
  pub axes_sorted : IsSorted p.axes

tidy-IsPile : (x y : ℤ) (p : Pile) → IsTidy x y p → is_empty p ≡ false → IsPile p
tidy-IsPile x y p t e = record {
  not_empty = e;
  stocked = t.stocked;
  spears_sorted = t.spears_sorted;
  axes_sorted = t.axes_sorted;
}

pub pile_at-IsTidy :
    (x y : ℤ) (ps : List Pile) (p : Pile) → All IsPile ps → pile_at ps x y ≡ some p → IsTidy x y p
unfolding pile_at
pile_at-IsTidy x y [] p h e = absurd (cc e)
pile_at-IsTidy x y (q ∷ ps) p h e = elim (Bool-cases (at_xy q.x q.y x y)) [
  | inl f ↦ subst (IsTidy x y) (some-injective _ _ (rw f at e)) (record {
    at_x = (at_xy_iff q.x q.y x y f).0;
    at_y = (at_xy_iff q.x q.y x y f).1;
    stocked = h.0.stocked;
    spears_sorted = h.0.spears_sorted;
    axes_sorted = h.0.axes_sorted;
  })
  | inr f ↦ pile_at-IsTidy x y ps p h.1 (rw f at e)
]

pub pile_for-IsTidy : (x y : ℤ) (ps : List Pile) → All IsPile ps → IsTidy x y (pile_for ps x y)
unfolding pile_for
pile_for-IsTidy x y ps h = elim (Option-cases (pile_at ps x y)) [
  | inl e ↦
      rw (e, pile_for)
        (record { at_x = refl; at_y = refl; stocked = tt; spears_sorted = tt; axes_sorted = tt })
  | inr (p, e) ↦ rw (e, pile_for) (pile_at-IsTidy x y ps p h e)
]

put_pile-IsPile :
    (x y : ℤ) (q : Pile) (ps : List Pile)
    → All IsPile ps
    → IsPile q
    → All IsPile (put_pile ps x y q)
unfolding put_pile
put_pile-IsPile x y q [] h k = tt
put_pile-IsPile x y q (p ∷ ps) h k = elim (Bool-cases (at_xy p.x p.y x y)) [
  | inl e ↦ rw e (k, h.1)
  | inr e ↦ rw e (h.0, put_pile-IsPile x y q ps h.1 k)
]

put_pile-Apart :
    (a b x y : ℤ) (q : Pile) (ps : List Pile)
    → q.x ≡ x
    → q.y ≡ y
    → Apart a b ps
    → Apart a b (put_pile ps x y q)
unfolding put_pile
put_pile-Apart a b x y q [] e f h = tt
put_pile-Apart a b x y q (p ∷ ps) e f h = elim (Bool-cases (at_xy p.x p.y x y)) [
  | inl g ↦ let w = at_xy_iff p.x p.y x y g in rw g (rw (e ∙ sym w.0, f ∙ sym w.1) h.0, h.1)
  | inr g ↦ rw g (h.0, put_pile-Apart a b x y q ps e f h.1)
]

pub put_pile-OnePerTile :
    (x y : ℤ) (q : Pile) (ps : List Pile)
    → q.x ≡ x
    → q.y ≡ y
    → OnePerTile ps
    → OnePerTile (put_pile ps x y q)
unfolding put_pile
put_pile-OnePerTile x y q [] e f h = tt
put_pile-OnePerTile x y q (p ∷ ps) e f h = elim (Bool-cases (at_xy p.x p.y x y)) [
  | inl g ↦ let w = at_xy_iff p.x p.y x y g in rw g (rw (e ∙ sym w.0, f ∙ sym w.1) h.0, h.1)
  | inr g ↦ rw g (put_pile-Apart p.x p.y x y q ps e f h.0, put_pile-OnePerTile x y q ps e f h.1)
]

without-Apart : (a b x y : ℤ) (ps : List Pile) → Apart a b ps → Apart a b (without_piles_at ps x y)
unfolding without_piles_at
without-Apart a b x y [] h = tt
without-Apart a b x y (p ∷ ps) h = elim (Bool-cases (at_xy p.x p.y x y)) [
  | inl e ↦ rw e (without-Apart a b x y ps h.1)
  | inr e ↦ rw e (h.0, without-Apart a b x y ps h.1)
]

without-OnePerTile :
    (x y : ℤ) (ps : List Pile) → OnePerTile ps → OnePerTile (without_piles_at ps x y)
unfolding without_piles_at
without-OnePerTile x y [] h = tt
without-OnePerTile x y (p ∷ ps) h = elim (Bool-cases (at_xy p.x p.y x y)) [
  | inl e ↦ rw e (without-OnePerTile x y ps h.1)
  | inr e ↦ rw e (without-Apart p.x p.y x y ps h.0, without-OnePerTile x y ps h.1)
]

without-IsPile : (x y : ℤ) (ps : List Pile) → All IsPile ps → All IsPile (without_piles_at ps x y)
unfolding without_piles_at
without-IsPile x y [] h = tt
without-IsPile x y (p ∷ ps) h = elim (Bool-cases (at_xy p.x p.y x y)) [
  | inl e ↦ rw e (without-IsPile x y ps h.1)
  | inr e ↦ rw e (h.0, without-IsPile x y ps h.1)
]

-- Whatever was put on the tile goes when the tile's piles go.
without-put_pile :
    (x y : ℤ) (q : Pile) (ps : List Pile)
    → q.x ≡ x
    → q.y ≡ y
    → without_piles_at (put_pile ps x y q) x y ≡ without_piles_at ps x y
unfolding without_piles_at put_pile
without-put_pile x y q [] e f = refl
without-put_pile x y q (p ∷ ps) e f = elim (Bool-cases (at_xy p.x p.y x y)) [
  | inl g ↦ rw (g, e, f, at_xy_refl x y) refl
  | inr g ↦ rw (g, g, without-put_pile x y q ps e f) refl
]

pub pile_at-put_pile :
    (x y : ℤ) (p q : Pile) (ps : List Pile)
    → q.x ≡ x
    → q.y ≡ y
    → pile_at ps x y ≡ some p
    → pile_at (put_pile ps x y q) x y ≡ some q
unfolding pile_at put_pile
pile_at-put_pile x y p q [] e f h = absurd (cc h)
pile_at-put_pile x y p q (r ∷ ps) e f h = elim (Bool-cases (at_xy r.x r.y x y)) [
  | inl g ↦ rw (g, e, f, at_xy_refl x y) refl
  | inr g ↦ rw (g, g) (pile_at-put_pile x y p q ps e f (rw g at h))
]

-- What the code does with a pile that it took from: written back, and removed when empty.
pub taken_pile-IsPile :
    (x y : ℤ) (p q : Pile) (ps : List Pile)
    → All IsPile ps
    → OnePerTile ps
    → IsTidy x y q
    → pile_at ps x y ≡ some p
    → All IsPile (remove_empty_pile_at (put_pile ps x y q) x y)
      × OnePerTile (remove_empty_pile_at (put_pile ps x y q) x y)
unfolding remove_empty_pile_at
taken_pile-IsPile x y p q ps h o t e =
    let f = pile_at-put_pile x y p q ps t.at_x t.at_y e in
    elim (Bool-cases (is_empty q)) [
      | inl g ↦
          rw (remove_empty_pile_at, f, g, without-put_pile x y q ps t.at_x t.at_y)
            (without-IsPile x y ps h, without-OnePerTile x y ps o)
      | inr g ↦
          rw (remove_empty_pile_at, f, g)
            (
              put_pile-IsPile x y q ps h (tidy-IsPile x y q t g),
              put_pile-OnePerTile x y q ps t.at_x t.at_y o,
            )
    ]

pub put_new_pile :
    (x y : ℤ) (r q : Pile) (ps : List Pile)
    → r.x ≡ x
    → r.y ≡ y
    → pile_at ps x y ≡ none
    → put_pile (ps ++ r ∷ []) x y q ≡ ps ++ q ∷ []
unfolding pile_at put_pile
put_new_pile x y r q [] e f h = rw (e, f, at_xy_refl x y) refl
put_new_pile x y r q (p ∷ ps) e f h = elim (Bool-cases (at_xy p.x p.y x y)) [
  | inl g ↦ absurd (cc (rw g at h))
  | inr g ↦ rw (g, put_new_pile x y r q ps e f (rw g at h)) refl
]

Apart-append :
    (a b : ℤ) (q : Pile) (ps : List Pile)
    → at_xy q.x q.y a b ≡ false
    → Apart a b ps
    → Apart a b (ps ++ q ∷ [])
Apart-append a b q [] e h = (e, tt)
Apart-append a b q (p ∷ ps) e h = (h.0, Apart-append a b q ps e h.1)

eqb_comm : (a b : ℤ) → eqb_ℤ a b ≡ eqb_ℤ b a
eqb_comm a b = ground arith

new_pile-OnePerTile :
    (x y : ℤ) (q : Pile) (ps : List Pile)
    → q.x ≡ x
    → q.y ≡ y
    → pile_at ps x y ≡ none
    → OnePerTile ps
    → OnePerTile (ps ++ q ∷ [])
unfolding pile_at
new_pile-OnePerTile x y q [] e f h o = (tt, tt)
new_pile-OnePerTile x y q (p ∷ ps) e f h o = elim (Bool-cases (at_xy p.x p.y x y)) [
  | inl g ↦ absurd (cc (rw g at h))
  | inr g ↦ (
    Apart-append p.x p.y q ps (rw (e, f, eqb_comm x p.x, eqb_comm y p.y) g) o.0,
    new_pile-OnePerTile x y q ps e f (rw g at h) o.1,
  )
]

-- What the code does with a pile that it added to: found or made on the tile, and written.
pub write_pile-IsPile :
    (x y : ℤ) (q : Pile) (ps : List Pile)
    → All IsPile ps
    → OnePerTile ps
    → IsTidy x y q
    → is_empty q ≡ false
    → All IsPile (write_pile ps q x y) × OnePerTile (write_pile ps q x y)
unfolding write_pile ensure_pile put_pile
write_pile-IsPile x y q ps h o t n = elim (Option-cases (pile_at ps x y)) [
  | inl e ↦
      rw (write_pile, ensure_pile, e, put_new_pile x y (empty_pile x y) q ps refl refl e)
        (
          All-append IsPile ps (q ∷ []) h (tidy-IsPile x y q t n, tt),
          new_pile-OnePerTile x y q ps t.at_x t.at_y e o,
        )
  | inr (p, e) ↦
      rw (write_pile, ensure_pile, e)
        (
          put_pile-IsPile x y q ps h (tidy-IsPile x y q t n),
          put_pile-OnePerTile x y q ps t.at_x t.at_y o,
        )
]
