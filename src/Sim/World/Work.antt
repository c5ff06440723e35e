-- ===== src/Sim/World/Work.antt =====
-- The arms of `Apply` for gathering, building, crafting and eating keep the world well formed.
use script_world.Prelude.{
  ℕ, ◌≤◌, ◌≡◌, refl, true, ◌&&◌, some, List, [], ◌∷◌, ◌++◌, arith, length-append, All, All-append,
  Bool-cases, Option-cases, inl, inr,
}
use script_world.Prelude.Int.{ℤ, pos, pos_part}
use script_world.Sim.Item.{Kind, Inventory, bulk, bulk_cap, free_bulk, add_items, minus, has_items}
use script_world.Sim.Item.Sorted.{
  sort_ints-IsSorted, length-sort_ints, spend_use-IsSorted, length-spend_use,
}
use script_world.Sim.Recipe.{
  Recipe, StructureKind, recipe_for, craft_goal_for, craft_net_bulk, is_wall, wall_max_hp, chest,
  wall_plank, wall_stone,
}
use script_world.Sim.State.{State, Agent, Structure, agent_at, put_agent, is_fire, at_xy}
use script_world.Sim.Event.{Station}
use script_world.Sim.Apply.WorkArms.{
  apply_foraged, apply_chopped, apply_hunted, apply_quarried, apply_collected_water,
  apply_forage_regrown, apply_built, apply_ate, apply_crafted, apply_cooked, apply_bathed,
  apply_refueled, apply_spear_broke, apply_axe_broke, built_structure, crafted_outputs,
  recipe_of_kind, refuel_at,
}
use script_world.Sim.World.{IsWorld, IsStock, IsStructure}
use script_world.Sim.World.Goods.{
  spend-IsStock, fewer_spears-IsStock, fewer_axes-IsStock, empty-IsStock,
}
use script_world.Sim.World.Agents.{
  agent_at-IsAgent, put_agent-IsWorld, on_agent-keeps, update_pouch-IsWorld, overlay-IsWorld,
  structures-IsWorld,
}

-- An agent with another pouch.
pouch_of :
    (s : State) (i : ℤ) (a b : Agent)
    → IsWorld s
    → agent_at s.agents i ≡ some a
    → b.journal ≡ a.journal
    → IsStock bulk_cap b.inv
    → IsWorld (put_agent s i b)
pouch_of s i a b v e j h =
    put_agent-IsWorld s i b v
      (record { pouch = h; notebook = rw j (agent_at-IsAgent s i a v e).notebook })

pouch :
    (s : State) (i : ℤ) (a : Agent)
    → IsWorld s
    → agent_at s.agents i ≡ some a
    → IsStock bulk_cap a.inv
pouch s i a v e = (agent_at-IsAgent s i a v e).pouch

module _ (s : State) (v : IsWorld s) where
  pub foraged-IsWorld : (tick : ℕ) (i x y : ℤ) → IsWorld (apply_foraged s tick i x y).0
  unfolding apply_foraged bulk free_bulk
  foraged-IsWorld tick i x y = on_agent-keeps IsWorld s i _ v λ a e.
      let p = pouch s i a v e in
      overlay-IsWorld _ _ _ _ _ (pouch_of s i a _ v e refl (ground arith))

  pub chopped-IsWorld : (tick : ℕ) (i x y : ℤ) → IsWorld (apply_chopped s tick i x y).0
  unfolding apply_chopped bulk free_bulk
  chopped-IsWorld tick i x y = on_agent-keeps IsWorld s i _ v λ a e.
      let p = pouch s i a v e in
      overlay-IsWorld _ _ _ _ _ (
        pouch_of s i a _ v e refl
          (ground (arith, length-spend_use a.inv.axes, spend_use-IsSorted a.inv.axes)))

  pub hunted-IsWorld : (tick : ℕ) (i x y : ℤ) → IsWorld (apply_hunted s tick i x y).0
  unfolding apply_hunted bulk free_bulk
  hunted-IsWorld tick i x y = on_agent-keeps IsWorld s i _ v λ a e.
      let p = pouch s i a v e in
      overlay-IsWorld _ _ _ _ _ (
        pouch_of s i a _ v e refl
          (ground (arith, length-spend_use a.inv.spears, spend_use-IsSorted a.inv.spears)))

  pub quarried-IsWorld : (tick : ℕ) (i x y : ℤ) → IsWorld (apply_quarried s tick i x y).0
  unfolding apply_quarried bulk free_bulk
  quarried-IsWorld tick i x y = on_agent-keeps IsWorld s i _ v λ a e.
      let p = pouch s i a v e in
      overlay-IsWorld _ _ _ _ _ (
        pouch_of s i a _ v e refl
          (ground (arith, length-spend_use a.inv.axes, spend_use-IsSorted a.inv.axes)))

  pub collected_water-IsWorld : (tick : ℕ) (i : ℤ) → IsWorld (apply_collected_water s tick i).0
  unfolding apply_collected_water bulk free_bulk
  collected_water-IsWorld tick i = update_pouch-IsWorld s i _ v λ a p. (ground arith, refl)

  pub forage_regrown-IsWorld : (x y : ℤ) → IsWorld (apply_forage_regrown s x y).0
  unfolding apply_forage_regrown
  forage_regrown-IsWorld x y = overlay-IsWorld s _ _ _ _ v

  pub ate-IsWorld : (i : ℤ) (m c r f : ℕ) → IsWorld (apply_ate s i m c r f).0
  unfolding apply_ate bulk
  ate-IsWorld i m c r f = update_pouch-IsWorld s i _ v λ a p. (ground arith, refl)

  pub bathed-IsWorld : (tick : ℕ) (i : ℤ) (m w : ℕ) → IsWorld (apply_bathed s tick i m w).0
  unfolding apply_bathed bulk
  bathed-IsWorld tick i m w = update_pouch-IsWorld s i _ v λ a p. (ground arith, refl)

  pub spear_broke-IsWorld : (i : ℤ) → IsWorld (apply_spear_broke s i).0
  unfolding apply_spear_broke
  spear_broke-IsWorld i = update_pouch-IsWorld s i _ v λ a p. (fewer_spears-IsStock a.inv 1 p, refl)

  pub axe_broke-IsWorld : (i : ℤ) → IsWorld (apply_axe_broke s i).0
  unfolding apply_axe_broke
  axe_broke-IsWorld i = update_pouch-IsWorld s i _ v λ a p. (fewer_axes-IsStock a.inv 1 p, refl)

  pub cooked-IsWorld :
      (tick : ℕ) (i : ℤ) (at : Station) (n m : ℕ) (k : Kind)
      → m ≤ n
      → ((a : Agent) → agent_at s.agents i ≡ some a → n ≤ a.inv.food_raw)
      → IsWorld (apply_cooked s tick i at n m k).0
  unfolding apply_cooked bulk
  cooked-IsWorld tick i at n m k l h =
      on_agent-keeps IsWorld s i _ v
        λ a e. let p = pouch s i a v e in let r = h a e in pouch_of s i a _ v e refl (ground arith)

refuel-IsStructure :
    (x y : ℤ) (until : ℕ) (sts : List Structure)
    → All IsStructure sts
    → All IsStructure (refuel_at x y until sts)
unfolding refuel_at
refuel-IsStructure x y until [] h = h
refuel-IsStructure x y until (st ∷ sts) h =
    elim (Bool-cases (is_fire st.kind && at_xy st.x st.y x y)) [
      | inl e ↦ rw e (
        record { standing = h.0.standing; mended = h.0.mended; store_holds = h.0.store_holds },
        h.1,
      )
      | inr e ↦ rw e (h.0, refuel-IsStructure x y until sts h.1)
    ]

pub refueled-IsWorld :
    (s : State)
    → IsWorld s
    → (tick : ℕ) (i x y : ℤ) (until : ℕ) → IsWorld (apply_refueled s tick i x y until).0
unfolding apply_refueled bulk
refueled-IsWorld s v tick i x y until = on_agent-keeps IsWorld s i _ v λ a e.
    let p = pouch s i a v e in
    let w = pouch_of s i a _ v e refl (ground arith) in
    structures-IsWorld _ _ w (refuel-IsStructure x y until _ w.structures_ok)

built-IsStructure :
    (tick : ℕ) (i : ℤ) (k : StructureKind) (x y : ℤ) → IsStructure (built_structure tick i k x y)
unfolding built_structure is_wall wall_max_hp
built-IsStructure tick i chest x y = record {
  standing = λ e. absurd (cc e);
  mended = λ e. absurd (cc e);
  store_holds = empty-IsStock 48;
}
built-IsStructure tick i wall_plank x y = record {
  standing = λ e. omega arith;
  mended = λ e. omega arith;
  store_holds = tt;
}
built-IsStructure tick i wall_stone x y = record {
  standing = λ e. omega arith;
  mended = λ e. omega arith;
  store_holds = tt;
}
built-IsStructure tick i _ x y = record {
  standing = λ e. absurd (cc e);
  mended = λ e. absurd (cc e);
  store_holds = tt;
}

pub built-IsWorld :
    (s : State)
    → IsWorld s
    → (tick : ℕ) (i : ℤ) (k : StructureKind) (x y : ℤ) → IsWorld (apply_built s tick i k x y).0
unfolding apply_built
built-IsWorld s v tick i k x y = on_agent-keeps IsWorld s i _ v λ a e.
    let w = pouch_of s i a _ v e refl (spend-IsStock a.inv _ (pouch s i a v e)) in
    structures-IsWorld _ _ w
      (All-append IsStructure _ _ w.structures_ok (built-IsStructure tick i k x y, tt))

-- What the executor checks before it emits `agent.crafted`: the inputs are there and the net bulk
-- is free.
abbrev pub IsCraftable : Inventory → Kind → Type 0
IsCraftable inv k =
    (r : Recipe)
    → recipe_of_kind k ≡ some r
    → (has_items inv r.inputs ≡ true) × (pos_part (craft_net_bulk r) ≤ free_bulk inv)

crafted-IsStock :
    (inv : Inventory) (k : Kind) (r : Recipe)
    → recipe_of_kind k ≡ some r
    → has_items inv r.inputs ≡ true
    → pos_part (craft_net_bulk r) ≤ free_bulk inv
    → IsStock bulk_cap inv
    → IsStock bulk_cap (crafted_outputs (add_items inv r.inputs minus) k r.outputs)
unfolding craft_goal_for recipe_for has_items bulk free_bulk craft_net_bulk add_items
    crafted_outputs
crafted-IsStock inv k r e has net v = ground (
  arith,
  length-sort_ints (inv.spears ++ pos 3 ∷ []),
  length-append inv.spears (pos 3 ∷ []),
  sort_ints-IsSorted (inv.spears ++ pos 3 ∷ []),
  length-sort_ints (inv.axes ++ pos 10 ∷ []),
  length-append inv.axes (pos 10 ∷ []),
  sort_ints-IsSorted (inv.axes ++ pos 10 ∷ []),
)

pub crafted-IsWorld :
    (s : State)
    → IsWorld s
    → (tick : ℕ) (i : ℤ) (k : Kind)
    → ((a : Agent) → agent_at s.agents i ≡ some a → IsCraftable a.inv k)
    → IsWorld (apply_crafted s tick i k).0
unfolding apply_crafted
crafted-IsWorld s v tick i k h = on_agent-keeps IsWorld s i _ v λ a e.
    elim (Option-cases (recipe_of_kind k)) [
      | inl n ↦ rw n v
      | inr (r, f) ↦ rw f (
          pouch_of s i a _ v e refl
            (crafted-IsStock a.inv k r f (h a e r f).0 (h a e r f).1 (pouch s i a v e)))
    ]
