-- ===== src/Sim/World/Storage.antt =====
-- The arms of `Apply` that move goods, the rot and a death keep the world well formed.
use script_world.Prelude.{
  ℕ, ◌-◌, ◌≡◌, some, some-injective, subst, ap, sym, ◌∙◌, List, ◌==◌, arith, min, All, Bool-cases,
  Option-cases, inl, inr,
}
use script_world.Prelude.Int.{ℤ}
use script_world.Sim.Item.{Kind, Inventory, bulk, bulk_cap, chest_cap, free_bulk, carried_count}
use script_world.Sim.State.{State, Structure, pile_at, pile_for, find_structure, is_chest, chest_at}
use script_world.Sim.Apply.Base.{finish}
use script_world.Sim.Apply.StorageArms.{
  write_store, store_at, apply_dropped, apply_picked_up, apply_deposited, apply_withdrew,
  apply_food_rotted, apply_died,
}
use script_world.Sim.World.{IsWorld, IsStock, IsStructure, StoreHolds}
use script_world.Sim.World.Goods.{empty-IsStock, move_goods-IsStock}
use script_world.Sim.World.Agents.{
  agent_at-IsAgent, put_agent-IsWorld, on_agent-keeps, structures-IsWorld, piles-IsWorld,
}
use script_world.Sim.World.Walls.{find_structure-IsStructure, put_structure-IsStructure}
use script_world.Sim.World.Piles.{
  pile_at-IsTidy, pile_for-IsTidy, taken_pile-IsPile, write_pile-IsPile,
}
use script_world.Sim.World.Tidy.{
  drop_into-IsTidy, pick_from-IsTidy, spill-IsTidy, spill-not_empty, drop_into-not_empty,
  take_spoiled-IsTidy,
}

-- Where `store_at` finds a store, the search found its chest.
pub store_at-found :
    (sts : List Structure) (x y : ℤ) (ch : Structure) (inv : Inventory)
    → store_at sts x y ≡ some (ch, inv)
    → (find_structure is_chest x y sts ≡ some ch) × (ch.store ≡ some inv)
unfolding store_at chest_at
store_at-found sts x y ch inv e = elim (Option-cases (find_structure is_chest x y sts)) [
  | inl f ↦ absurd (cc (rw (store_at, f) at e))
  | inr (st, f) ↦ elim (Option-cases st.store) [
    | inl g ↦ absurd (cc (rw (store_at, f, g) at e))
    | inr (st', g) ↦
        let q = some-injective _ _ (rw (store_at, f, g) at e) in
        (
          f ∙ ap (λ p. some p.0) q,
          sym (ap (λ (p : Structure × Inventory). p.0.store) q) ∙ g ∙ ap (λ p. some p.1) q,
        )
  ]
]

module _ (s : State) (v : IsWorld s) where
  pub dropped-IsWorld :
      (tick : ℕ) (i x y : ℤ) (k : Kind) (n : ℕ) → IsWorld (apply_dropped s tick i x y k n).0
  unfolding apply_dropped
  dropped-IsWorld tick i x y k n = on_agent-keeps IsWorld s i _ v λ a e.
      let h = agent_at-IsAgent s i a v e in
      let m = min n (carried_count a.inv k) in
      let d =
        drop_into-IsTidy tick (pile_for s.piles x y) a.inv k m
          (pile_for-IsTidy x y s.piles v.piles_ok) h.pouch in
      elim (Bool-cases (m == 0)) [
        | inl f ↦ rw f (
            put_agent-IsWorld s i (finish tick a) v
              (record { pouch = h.pouch; notebook = h.notebook }))
        | inr f ↦
            let w = write_pile-IsPile x y _ s.piles v.piles_ok v.one_per_tile d.0 (
              drop_into-not_empty tick (pile_for s.piles x y) a.inv k m (omega arith)
                (ground arith)) in
            rw f (
              piles-IsWorld _ _
                (put_agent-IsWorld s i _ v (record { pouch = d.1; notebook = h.notebook })) w.0 w.1)
      ]

  pub picked_up-IsWorld :
      (tick : ℕ) (i x y : ℤ) (k : Kind) (n : ℕ) → IsWorld (apply_picked_up s tick i x y k n).0
  unfolding apply_picked_up
  picked_up-IsWorld tick i x y k n = on_agent-keeps IsWorld s i _ v λ a e.
      let h = agent_at-IsAgent s i a v e in
      elim (Option-cases (pile_at s.piles x y)) [
        | inl f ↦ rw f (
            put_agent-IsWorld s i (finish tick a) v
              (record { pouch = h.pouch; notebook = h.notebook }))
        | inr (p, f) ↦
            let d =
              pick_from-IsTidy p a.inv k (min n (free_bulk a.inv))
                (pile_at-IsTidy x y s.piles p v.piles_ok f) h.pouch (omega arith) in
            let w = taken_pile-IsPile x y p _ s.piles v.piles_ok v.one_per_tile d.0 f in
            rw f (
              piles-IsWorld _ _
                (put_agent-IsWorld s i _ v (record { pouch = d.1; notebook = h.notebook })) w.0 w.1)
      ]

  pub food_rotted-IsWorld :
      (tick : ℕ) (x y : ℤ) (k : Kind) (n : ℕ) → IsWorld (apply_food_rotted s tick x y k n).0
  unfolding apply_food_rotted
  food_rotted-IsWorld tick x y k n = elim (Option-cases (pile_at s.piles x y)) [
    | inl f ↦ rw (apply_food_rotted, f) v
    | inr (p, f) ↦
        let w =
          taken_pile-IsPile x y p _ s.piles v.piles_ok v.one_per_tile
            (take_spoiled-IsTidy p k n tick (pile_at-IsTidy x y s.piles p v.piles_ok f)) f in
        rw (apply_food_rotted, f) (piles-IsWorld s _ v w.0 w.1)
  ]

  pub died-IsWorld : (tick : ℕ) (i : ℤ) → IsWorld (apply_died s tick i).0
  unfolding apply_died
  died-IsWorld tick i = on_agent-keeps IsWorld s i _ v λ a e.
      let h = agent_at-IsAgent s i a v e in
      elim (Bool-cases (bulk a.inv == 0)) [
        | inl f ↦
            rw f (put_agent-IsWorld s i _ v (record { pouch = h.pouch; notebook = h.notebook }))
        | inr f ↦
            let w =
              write_pile-IsPile a.x a.y _ s.piles v.piles_ok v.one_per_tile
                (spill-IsTidy tick (pile_for s.piles a.x a.y) a.inv
                  (pile_for-IsTidy a.x a.y s.piles v.piles_ok))
                (spill-not_empty tick (pile_for s.piles a.x a.y) a.inv (ground arith)) in
            rw f (
              piles-IsWorld _ _
                (put_agent-IsWorld s i _ v
                  (record { pouch = empty-IsStock bulk_cap; notebook = h.notebook }))
                w.0 w.1)
      ]

  -- A store that the code finds is in order, and what it writes back keeps the chests in order.
  store_ok :
      (x y : ℤ) (ch : Structure) (inv : Inventory)
      → store_at s.structures x y ≡ some (ch, inv)
      → IsStock chest_cap inv
        × ((new : Inventory)
            → IsStock chest_cap new
            → All IsStructure (write_store s.structures ch new x y))
  unfolding write_store
  store_ok x y ch inv e =
      let (f, g) = store_at-found s.structures x y ch inv e in
      let k = find_structure-IsStructure is_chest x y s.structures ch v.structures_ok f in
      (
        subst StoreHolds g k.0.store_holds,
        λ new h.
            put_structure-IsStructure is_chest x y _ s.structures v.structures_ok
              (record { standing = k.0.standing; mended = k.0.mended; store_holds = h }),
      )

  pub deposited-IsWorld :
      (tick : ℕ) (i x y : ℤ) (k : Kind) (n : ℕ) → IsWorld (apply_deposited s tick i x y k n).0
  unfolding apply_deposited
  deposited-IsWorld tick i x y k n = on_agent-keeps IsWorld s i _ v λ a e.
      let h = agent_at-IsAgent s i a v e in
      elim (Option-cases (store_at s.structures x y)) [
        | inl f ↦ rw f (
            put_agent-IsWorld s i (finish tick a) v
              (record { pouch = h.pouch; notebook = h.notebook }))
        | inr ((ch, store), f) ↦
            let (st, put) = store_ok x y ch store f in
            let m =
              move_goods-IsStock a.inv store k
                (min (min n (carried_count a.inv k)) (chest_cap - bulk store)) h.pouch st
                (omega (arith, st.within)) in
            rw f (
              structures-IsWorld _ _
                (put_agent-IsWorld s i _ v (record { pouch = m.0; notebook = h.notebook }))
                (put _ m.1))
      ]

  pub withdrew-IsWorld :
      (tick : ℕ) (i x y : ℤ) (k : Kind) (n : ℕ) → IsWorld (apply_withdrew s tick i x y k n).0
  unfolding apply_withdrew free_bulk
  withdrew-IsWorld tick i x y k n = on_agent-keeps IsWorld s i _ v λ a e.
      let h = agent_at-IsAgent s i a v e in
      elim (Option-cases (store_at s.structures x y)) [
        | inl f ↦ rw f (
            put_agent-IsWorld s i (finish tick a) v
              (record { pouch = h.pouch; notebook = h.notebook }))
        | inr ((ch, store), f) ↦
            let (st, put) = store_ok x y ch store f in
            let m =
              move_goods-IsStock store a.inv k
                (min (min n (free_bulk a.inv)) (carried_count store k)) st h.pouch
                (omega (arith, h.pouch.within)) in
            rw f (
              structures-IsWorld _ _
                (put_agent-IsWorld s i _ v (record { pouch = m.1; notebook = h.notebook }))
                (put _ m.0))
      ]
