-- ===== src/Sim/World/Conservation.antt =====
-- Dropping, picking up, depositing, withdrawing and dying move goods about, and neither make nor
-- lose any.
use script_world.Prelude.{
  ℕ, ◌+◌, ◌-◌, ◌≤◌, ◌≡◌, refl, ap, Bool, true, false, none, some, ◌==◌, arith, min, Bool-cases,
  Option-cases, inl, inr,
}
use script_world.Prelude.Int.{ℤ}
use script_world.Sim.Item.{
  Kind, Inventory, chest_cap, bulk, free_bulk, carried_count, empty_inventory, inv_field, add_item,
  is_food_kind,
}
use script_world.Sim.Pile.{Pile, avail, take_non_food}
use script_world.Sim.State.{
  State, Agent, agent_at, put_agent, pile_at, put_pile, pile_for, is_chest,
}
use script_world.Sim.Event.{Event}
use script_world.Sim.Apply.{apply}
use script_world.Sim.Apply.Base.{finish}
use script_world.Sim.Apply.StorageArms.{
  drop_into, pick_from, move_goods, write_store, store_at, spill, apply_dropped, apply_picked_up,
  apply_deposited, apply_withdrew, apply_died,
}
use script_world.Sim.World.{IsWorld}
use script_world.Sim.World.Agents.{agent_at-IsAgent, on_agent-keeps, put_agent_rest}
use script_world.Sim.World.Transfers.{
  is_stored, stored_count, move_goods_counts, drop_into_counts, pick_from_counts, spill_counts,
}
use script_world.Sim.World.Piles.{pile_at-IsTidy, put_pile-OnePerTile}
use script_world.Sim.World.Tidy.{pick_from-IsTidy}
use script_world.Sim.World.Storage.{store_at-found}
use script_world.Sim.World.Totals.{
  total, carried_total-put, piled_total-put, piled_total-remove, piled_total-write,
  stored_total-put,
}

-- The events that move goods.
abbrev pub is_transfer : Event → Bool
is_transfer (Event.dropped i x y k n) = true
is_transfer (Event.picked_up i x y k n) = true
is_transfer (Event.deposited i x y k n) = true
is_transfer (Event.withdrew i x y k n) = true
is_transfer (Event.died i) = true
is_transfer _ = false

pick_from_keeps :
    (p : Pile) (inv : Inventory) (k j : Kind) (n : ℕ)
    → carried_count (pick_from p inv k n).1 j + avail (pick_from p inv k n).0 j
      ≡ carried_count inv j + avail p j
unfolding pick_from is_food_kind take_non_food avail add_item
pick_from_keeps p inv k j n = elim (Bool-cases (is_stored k)) [
  | inl e ↦ let c = pick_from_counts p inv k j n e in omega (arith, c.0, c.1)
  | inr e ↦ ground arith
]

-- A kind that no transfer moves is moved by none.
drop_into_keeps :
    (tick : ℕ) (p : Pile) (inv : Inventory) (k j : Kind) (n : ℕ)
    → n ≤ carried_count inv k
    → (n == 0) ≡ false
    → carried_count (drop_into tick p inv k n).1 j + avail (drop_into tick p inv k n).0 j
      ≡ carried_count inv j + avail p j
drop_into_keeps tick p inv k j n l h = elim (Bool-cases (is_stored k)) [
  | inl e ↦ let c = drop_into_counts tick p inv k j n e l in omega (arith, c.0, c.1)
  | inr e ↦ let z = stored_count inv k e in absurd (ground arith)
]

move_goods_keeps :
    (from to : Inventory) (k j : Kind) (n : ℕ)
    → n ≤ carried_count from k
    → carried_count (move_goods from to k n).0 j + carried_count (move_goods from to k n).1 j
      ≡ carried_count from j + carried_count to j
unfolding move_goods add_item
move_goods_keeps from to k j n l = elim (Bool-cases (is_stored k)) [
  | inl e ↦ let c = move_goods_counts from to k j n e l in omega (arith, c.0, c.1)
  | inr e ↦ ground arith
]

empty_count : (j : Kind) → carried_count empty_inventory j ≡ 0
unfolding carried_count inv_field
empty_count j = ground arith

-- Writing an agent that carries as much leaves the total.
same_pouch :
    (s : State) (i : ℤ) (a b : Agent) (j : Kind)
    → agent_at s.agents i ≡ some a
    → b.inv ≡ a.inv
    → total (put_agent s i b) j ≡ total s j
unfolding total
same_pouch s i a b j e f =
    let (g, h) = put_agent_rest s i b in
    rw (g, h)
      (let c = carried_total-put j s i a b e in omega (arith, c, ap (λ v. carried_count v j) f))

module _ (s : State) (v : IsWorld s) (j : Kind) where
  dropped_total :
      (tick : ℕ) (i x y : ℤ) (k : Kind) (n : ℕ)
      → total (apply_dropped s tick i x y k n).0 j ≡ total s j
  unfolding apply_dropped total
  dropped_total tick i x y k n =
      on_agent-keeps (λ s'. total s' j ≡ total s j) s i _ refl
        λ a e.
          let m = min n (carried_count a.inv k) in
          elim (Bool-cases (m == 0)) [
            | inl f ↦ rw f (same_pouch s i a (finish tick a) j e refl)
            | inr f ↦
                let (q, inv) = drop_into tick (pile_for s.piles x y) a.inv k m in
                let b = record (finish tick a) { inv = inv } in
                let c = carried_total-put j s i a b e in
                let d = piled_total-write j x y s.piles q in
                let k' = drop_into_keeps tick (pile_for s.piles x y) a.inv k j m (omega arith) f in
                rw f (rw (put_agent_rest s i b).0 (omega arith))
          ]

  picked_up_total :
      (tick : ℕ) (i x y : ℤ) (k : Kind) (n : ℕ)
      → total (apply_picked_up s tick i x y k n).0 j ≡ total s j
  unfolding apply_picked_up total
  picked_up_total tick i x y k n =
      on_agent-keeps (λ s'. total s' j ≡ total s j) s i _ refl
        λ a e. elim (Option-cases (pile_at s.piles x y)) [
          | inl f ↦ rw f (same_pouch s i a (finish tick a) j e refl)
          | inr (p, f) ↦
              let m = min n (free_bulk a.inv) in
              let (q, inv) = pick_from p a.inv k m in
              let b = record (finish tick a) { inv = inv } in
              let w =
                (pick_from-IsTidy p a.inv k m (pile_at-IsTidy x y s.piles p v.piles_ok f)
                  (agent_at-IsAgent s i a v e).pouch (omega arith)).0 in
              let c = carried_total-put j s i a b e in
              let d = piled_total-put j x y s.piles p q f in
              let r =
                piled_total-remove j x y (put_pile s.piles x y q)
                  (put_pile-OnePerTile x y q s.piles w.at_x w.at_y v.one_per_tile) in
              let k' = pick_from_keeps p a.inv k j m in
              rw f (rw (put_agent_rest s i b).0 (omega arith))
        ]

  deposited_total :
      (tick : ℕ) (i x y : ℤ) (k : Kind) (n : ℕ)
      → total (apply_deposited s tick i x y k n).0 j ≡ total s j
  unfolding apply_deposited total write_store
  deposited_total tick i x y k n =
      on_agent-keeps (λ s'. total s' j ≡ total s j) s i _ refl
        λ a e. elim (Option-cases (store_at s.structures x y)) [
          | inl f ↦ rw f (same_pouch s i a (finish tick a) j e refl)
          | inr ((ch, store), f) ↦
              let m = min (min n (carried_count a.inv k)) (chest_cap - bulk store) in
              let (inv, new) = move_goods a.inv store k m in
              let b = record (finish tick a) { inv = inv } in
              let (g, h) = store_at-found s.structures x y ch store f in
              let c = carried_total-put j s i a b e in
              let d =
                stored_total-put j is_chest x y s.structures ch (record ch { store = some new })
                  g in
              let k' = move_goods_keeps a.inv store k j m (omega arith) in
              rw f (rw (put_agent_rest s i b).1 (let d' = rw h at d in omega arith))
        ]

  withdrew_total :
      (tick : ℕ) (i x y : ℤ) (k : Kind) (n : ℕ)
      → total (apply_withdrew s tick i x y k n).0 j ≡ total s j
  unfolding apply_withdrew total write_store
  withdrew_total tick i x y k n =
      on_agent-keeps (λ s'. total s' j ≡ total s j) s i _ refl
        λ a e. elim (Option-cases (store_at s.structures x y)) [
          | inl f ↦ rw f (same_pouch s i a (finish tick a) j e refl)
          | inr ((ch, store), f) ↦
              let m = min (min n (free_bulk a.inv)) (carried_count store k) in
              let (new, inv) = move_goods store a.inv k m in
              let b = record (finish tick a) { inv = inv } in
              let (g, h) = store_at-found s.structures x y ch store f in
              let c = carried_total-put j s i a b e in
              let d =
                stored_total-put j is_chest x y s.structures ch (record ch { store = some new })
                  g in
              let k' = move_goods_keeps store a.inv k j m (omega arith) in
              rw f (rw (put_agent_rest s i b).1 (let d' = rw h at d in omega arith))
        ]

  died_total : (tick : ℕ) (i : ℤ) → total (apply_died s tick i).0 j ≡ total s j
  unfolding apply_died total
  died_total tick i =
      on_agent-keeps (λ s'. total s' j ≡ total s j) s i _ refl
        λ a e. elim (Bool-cases (bulk a.inv == 0)) [
          | inl f ↦ rw f (same_pouch s i a _ j e refl)
          | inr f ↦
              let q = spill tick (pile_for s.piles a.x a.y) a.inv in
              let b = record a {
                dead = true;
                asleep = false;
                intent = none;
                hail = none;
                inv = empty_inventory;
              } in
              let c = carried_total-put j s i a b e in
              let d = piled_total-write j a.x a.y s.piles q in
              let k' = spill_counts tick (pile_for s.piles a.x a.y) a.inv j in
              let z = empty_count j in rw f (rw (put_agent_rest s i b).0 (omega arith))
        ]

-- In a well-formed world, a drop, a pickup, a deposit, a withdrawal and a death leave the amount of
-- every kind, over all pouches, piles and chests, as it was.
pub transfers_conserve :
    (s : State) (tick : ℕ) (e : Event) (j : Kind)
    → IsWorld s
    → is_transfer e ≡ true
    → total (apply s tick e).0 j ≡ total s j
unfolding apply
transfers_conserve s tick (Event.dropped i x y k n) j v h = dropped_total s v j tick i x y k n
transfers_conserve s tick (Event.picked_up i x y k n) j v h = picked_up_total s v j tick i x y k n
transfers_conserve s tick (Event.deposited i x y k n) j v h = deposited_total s v j tick i x y k n
transfers_conserve s tick (Event.withdrew i x y k n) j v h = withdrew_total s v j tick i x y k n
transfers_conserve s tick (Event.died i) j v h = died_total s v j tick i
transfers_conserve s tick _ j v h = absurd (cc h)
