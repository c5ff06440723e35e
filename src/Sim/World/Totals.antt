-- ===== src/Sim/World/Totals.antt =====
-- The amount of a kind in the whole world: in pouches, on piles and in chests; and what the writes
-- of one agent, one pile or one store do to it.
use script_world.Prelude.{
  ℕ, zero, suc, ◌+◌, ◌≡◌, refl, Bool, ◌&&◌, Option, none, some, some-injective, List, [], ◌∷◌, ◌++◌,
  arith, get_elem?, set, Bool-cases, Option-cases, inl, inr, ap,
}
use script_world.Prelude.Int.{ℤ, pos, negsuc}
use script_world.Sim.Item.{Kind, Inventory, carried_count}
use script_world.Sim.Recipe.{StructureKind}
use script_world.Sim.Pile.{Pile, avail, is_empty, empty_pile}
use script_world.Sim.State.{
  State, Agent, Structure, agent_at, put_agent, at_xy, pile_at, put_pile, ensure_pile, pile_for,
  without_piles_at, remove_empty_pile_at, find_structure, put_structure,
}
use script_world.Sim.Apply.StorageArms.{write_pile}
use script_world.Sim.World.{Apart, OnePerTile}
use script_world.Sim.World.Piles.{at_xy_iff, put_new_pile}
use script_world.Sim.World.Transfers.{avail-empty}

unfoldable pub carried_total : Kind → List Agent → ℕ
carried_total k [] = 0
carried_total k (a ∷ as') = carried_count a.inv k + carried_total k as'

unfoldable pub piled_total : Kind → List Pile → ℕ
piled_total k [] = 0
piled_total k (p ∷ ps) = avail p k + piled_total k ps

abbrev pub stored : Option Inventory → Kind → ℕ
stored none k = 0
stored (some inv) k = carried_count inv k

unfoldable pub stored_total : Kind → List Structure → ℕ
stored_total k [] = 0
stored_total k (st ∷ sts) = stored st.store k + stored_total k sts

unfoldable pub total : State → Kind → ℕ
total s k = carried_total k s.agents + piled_total k s.piles + stored_total k s.structures

carried_total-set :
    (k : Kind) (l : List Agent) (i : ℕ) (a b : Agent)
    → get_elem? l i ≡ some a
    → carried_total k (set l i b) + carried_count a.inv k
      ≡ carried_total k l + carried_count b.inv k
unfolding carried_total
carried_total-set k [] i a b e = absurd (cc e)
carried_total-set k (c ∷ l) zero a b e = rw (some-injective _ _ e) (omega arith)
carried_total-set k (c ∷ l) (suc i) a b e = omega (arith, carried_total-set k l i a b e)

pub carried_total-put :
    (k : Kind) (s : State) (i : ℤ) (a b : Agent)
    → agent_at s.agents i ≡ some a
    → carried_total k (put_agent s i b).agents + carried_count a.inv k
      ≡ carried_total k s.agents + carried_count b.inv k
unfolding agent_at put_agent
carried_total-put k s (pos n) a b e = carried_total-set k s.agents n a b e
carried_total-put k s (negsuc n) a b e = absurd (cc e)

pub piled_total-put :
    (k : Kind) (x y : ℤ) (ps : List Pile) (p q : Pile)
    → pile_at ps x y ≡ some p
    → piled_total k (put_pile ps x y q) + avail p k ≡ piled_total k ps + avail q k
unfolding piled_total pile_at put_pile
piled_total-put k x y [] p q e = absurd (cc e)
piled_total-put k x y (r ∷ ps) p q e = elim (Bool-cases (at_xy r.x r.y x y)) [
  | inl g ↦ rw g (rw (some-injective _ _ (rw g at e)) (omega arith))
  | inr g ↦ rw g (omega (arith, piled_total-put k x y ps p q (rw g at e)))
]

without-Apart_same : (x y : ℤ) (ps : List Pile) → Apart x y ps → without_piles_at ps x y ≡ ps
unfolding without_piles_at
without-Apart_same x y [] h = refl
without-Apart_same x y (p ∷ ps) h = rw h.0 (ap (◌∷◌ p) (without-Apart_same x y ps h.1))

-- One pile to a tile: the piles of the tile are the one that the lookup finds.
piled_total-without :
    (k : Kind) (x y : ℤ) (ps : List Pile) (p : Pile)
    → OnePerTile ps
    → pile_at ps x y ≡ some p
    → piled_total k (without_piles_at ps x y) + avail p k ≡ piled_total k ps
unfolding piled_total without_piles_at pile_at
piled_total-without k x y [] p o e = absurd (cc e)
piled_total-without k x y (r ∷ ps) p o e = elim (Bool-cases (at_xy r.x r.y x y)) [
  | inl g ↦
      let w = at_xy_iff r.x r.y x y g in
      rw (g, without-Apart_same x y ps (rw (w.0, w.1) at o.0))
        (rw (some-injective _ _ (rw g at e)) (omega arith))
  | inr g ↦ rw g (omega (arith, piled_total-without k x y ps p o.1 (rw g at e)))
]

pub piled_total-remove :
    (k : Kind) (x y : ℤ) (ps : List Pile)
    → OnePerTile ps
    → piled_total k (remove_empty_pile_at ps x y) ≡ piled_total k ps
unfolding remove_empty_pile_at
piled_total-remove k x y ps o = elim (Option-cases (pile_at ps x y)) [
  | inl e ↦ rw (remove_empty_pile_at, e) refl
  | inr (p, e) ↦ elim (Bool-cases (is_empty p)) [
    | inl g ↦
        rw (remove_empty_pile_at, e, g)
          (omega (arith, piled_total-without k x y ps p o e, avail-empty p k g))
    | inr g ↦ rw (remove_empty_pile_at, e, g) refl
  ]
]

piled_total-append :
    (k : Kind) (ps : List Pile) (q : Pile)
    → piled_total k (ps ++ q ∷ []) ≡ piled_total k ps + avail q k
unfolding piled_total
piled_total-append k [] q = omega arith
piled_total-append k (p ∷ ps) q = omega (arith, piled_total-append k ps q)

avail-fresh : (x y : ℤ) (k : Kind) → avail (empty_pile x y) k ≡ 0
unfolding is_empty
avail-fresh x y k = avail-empty (empty_pile x y) k refl

pub piled_total-write :
    (k : Kind) (x y : ℤ) (ps : List Pile) (q : Pile)
    → piled_total k (write_pile ps q x y) + avail (pile_for ps x y) k ≡ piled_total k ps + avail q k
unfolding write_pile ensure_pile pile_for
piled_total-write k x y ps q = elim (Option-cases (pile_at ps x y)) [
  | inl e ↦
      rw (write_pile, ensure_pile, pile_for, e, put_new_pile x y (empty_pile x y) q ps refl refl e)
        (omega (arith, piled_total-append k ps q, avail-fresh x y k))
  | inr (p, e) ↦ rw (write_pile, ensure_pile, pile_for, e) (piled_total-put k x y ps p q e)
]

pub stored_total-put :
    (k : Kind) (test : StructureKind → Bool) (x y : ℤ) (sts : List Structure) (st new : Structure)
    → find_structure test x y sts ≡ some st
    → stored_total k (put_structure test x y new sts) + stored st.store k
      ≡ stored_total k sts + stored new.store k
unfolding stored_total find_structure put_structure
stored_total-put k test x y [] st new e = absurd (cc e)
stored_total-put k test x y (r ∷ sts) st new e =
    elim (Bool-cases (test r.kind && at_xy r.x r.y x y)) [
      | inl g ↦ rw g (rw (some-injective _ _ (rw g at e)) (omega arith))
      | inr g ↦ rw g (omega (arith, stored_total-put k test x y sts st new (rw g at e)))
    ]
