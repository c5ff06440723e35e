-- ===== src/Sim/World/Walls.antt =====
-- The wall arms of `Apply` keep the world well formed.
use script_world.Prelude.{
  ℕ, ◌≡◌, Bool, true, false, ◌&&◌, leb, Option, none, some, List, [], ◌∷◌, arith, All, Bool-cases,
  Option-cases, inl, inr, if◌then◌else◌, subst, some-injective,
}
use script_world.Prelude.Int.{ℤ}
use script_world.Sim.Item.{Kind, Inventory, bulk_cap, inv_field}
use script_world.Sim.Recipe.{StructureKind, is_wall, wall_repair_material}
use script_world.Sim.State.{
  State, Agent, Structure, find_structure, put_structure, remove_wall_at, wall_at, at_xy,
}
use script_world.Sim.Apply.Base.{finish}
use script_world.Sim.Apply.MindArms.{with_work_start}
use script_world.Sim.Apply.WallArms.{
  chipped, repaired, spend_material, apply_wall_chipped, apply_wall_destroyed, apply_wall_repaired,
}
use script_world.Sim.World.{IsWorld, IsAgent, IsStock, IsStructure}
use script_world.Sim.World.Goods.{spend-IsStock}
use script_world.Sim.World.Agents.{
  agent_at-IsAgent, put_agent-IsWorld, on_agent-keeps, structures-IsWorld,
}

-- What a search finds is a structure of the list, of a kind that the test accepts, on the tile.
pub find_structure-IsStructure :
    (test : StructureKind → Bool) (x y : ℤ) (sts : List Structure) (w : Structure)
    → All IsStructure sts
    → find_structure test x y sts ≡ some w
    → IsStructure w × (test w.kind ≡ true) × (at_xy w.x w.y x y ≡ true)
unfolding find_structure
find_structure-IsStructure test x y [] w h e = absurd (cc e)
find_structure-IsStructure test x y (st ∷ sts) w h e =
    elim (Bool-cases (test st.kind && at_xy st.x st.y x y)) [
      | inl f ↦
          let g = some-injective _ _ (rw f at e) in
          subst
            (λ (u : Structure). IsStructure u × (test u.kind ≡ true) × (at_xy u.x u.y x y ≡ true)) g
            (h.0, ground arith, ground arith)
      | inr f ↦ find_structure-IsStructure test x y sts w h.1 (rw f at e)
    ]

pub put_structure-IsStructure :
    (test : StructureKind → Bool) (x y : ℤ) (w : Structure) (sts : List Structure)
    → All IsStructure sts
    → IsStructure w
    → All IsStructure (put_structure test x y w sts)
unfolding put_structure
put_structure-IsStructure test x y w [] h k = tt
put_structure-IsStructure test x y w (st ∷ sts) h k =
    elim (Bool-cases (test st.kind && at_xy st.x st.y x y)) [
      | inl e ↦ rw e (k, h.1)
      | inr e ↦ rw e (h.0, put_structure-IsStructure test x y w sts h.1 k)
    ]

remove_wall_at-IsStructure :
    (x y : ℤ) (sts : List Structure)
    → All IsStructure sts
    → All IsStructure (remove_wall_at x y sts)
unfolding remove_wall_at
remove_wall_at-IsStructure x y [] h = tt
remove_wall_at-IsStructure x y (st ∷ sts) h = elim (Bool-cases (at_xy st.x st.y x y)) [
  | inl e ↦ elim (Bool-cases (is_wall st.kind)) [ inl f ↦ rw (e, f) h.1 | inr f ↦ rw (e, f) h ]
  | inr e ↦ rw e (h.0, remove_wall_at-IsStructure x y sts h.1)
]

chipped-IsStructure :
    (w : Structure) → IsStructure w → is_wall w.kind ≡ true → IsStructure (chipped w)
chipped-IsStructure w v e = record {
  standing = λ _. omega arith;
  mended = λ _. let a = v.standing e in let b = v.mended e in omega arith;
  store_holds = v.store_holds;
}

repaired-IsStructure :
    (w : Structure) → IsStructure w → is_wall w.kind ≡ true → IsStructure (repaired w)
repaired-IsStructure w v e = record {
  standing = λ _. let a = v.standing e in let b = v.mended e in omega arith;
  mended = λ _. omega arith;
  store_holds = v.store_holds;
}

spend_material-IsStock :
    (inv : Inventory) (mat : Option Kind)
    → IsStock bulk_cap inv
    → IsStock bulk_cap (spend_material inv mat)
spend_material-IsStock inv none v = v
spend_material-IsStock inv (some k) v = elim (Bool-cases (leb 1 (inv_field inv k))) [
  | inl e ↦ rw e (spend-IsStock inv _ v)
  | inr e ↦ rw e v
]

module _ (s : State) (v : IsWorld s) where
  pub wall_chipped-IsWorld : (i x y : ℤ) → IsWorld (apply_wall_chipped s i x y).0
  unfolding apply_wall_chipped wall_at
  wall_chipped-IsWorld i x y = on_agent-keeps IsWorld s i _ v λ a e.
      let h = agent_at-IsAgent s i a v e in
      let w =
        put_agent-IsWorld s i (record a { intent = with_work_start 0 a.intent }) v
          (record { pouch = h.pouch; notebook = h.notebook }) in
      elim (Option-cases (find_structure is_wall x y s.structures)) [
        | inl f ↦ rw f w
        | inr (st, f) ↦
            let k = find_structure-IsStructure is_wall x y s.structures st v.structures_ok f in
            rw f (
              structures-IsWorld _ _ w (
                put_structure-IsStructure is_wall x y (chipped st) s.structures v.structures_ok
                  (chipped-IsStructure st k.0 k.1)))
      ]

  pub wall_destroyed-IsWorld :
      (tick : ℕ) (i x y : ℤ) → IsWorld (apply_wall_destroyed s tick i x y).0
  unfolding apply_wall_destroyed
  wall_destroyed-IsWorld tick i x y = on_agent-keeps IsWorld s i _ v λ a e.
      let h = agent_at-IsAgent s i a v e in
      structures-IsWorld _ _
        (put_agent-IsWorld s i (finish tick a) v
          (record { pouch = h.pouch; notebook = h.notebook }))
        (remove_wall_at-IsStructure x y s.structures v.structures_ok)

  -- The agent after a repair, whether it goes on or has finished.
  mended_agent-IsAgent :
      (tick : ℕ) (a : Agent) (inv : Inventory) (more : Bool)
      → IsAgent a
      → IsStock bulk_cap inv
      → IsAgent (
          if more
          then record a { inv = inv; intent = with_work_start 0 a.intent }
          else finish tick (record a { inv = inv }))
  mended_agent-IsAgent tick a inv true h k = record { pouch = k; notebook = h.notebook }
  mended_agent-IsAgent tick a inv false h k = record { pouch = k; notebook = h.notebook }

  pub wall_repaired-IsWorld : (tick : ℕ) (i x y : ℤ) → IsWorld (apply_wall_repaired s tick i x y).0
  unfolding apply_wall_repaired wall_at
  wall_repaired-IsWorld tick i x y = on_agent-keeps IsWorld s i _ v λ a e.
      let h = agent_at-IsAgent s i a v e in
      elim (Option-cases (find_structure is_wall x y s.structures)) [
        | inl f ↦ rw f (
            put_agent-IsWorld s i (finish tick a) v
              (record { pouch = h.pouch; notebook = h.notebook }))
        | inr (st, f) ↦
            let k = find_structure-IsStructure is_wall x y s.structures st v.structures_ok f in
            rw f (
              structures-IsWorld _ _
                (put_agent-IsWorld s i _ v (
                  mended_agent-IsAgent tick a _ _ h
                    (spend_material-IsStock a.inv (wall_repair_material st.kind) h.pouch)))
                (put_structure-IsStructure is_wall x y (repaired st) s.structures v.structures_ok
                  (repaired-IsStructure st k.0 k.1)))
      ]
