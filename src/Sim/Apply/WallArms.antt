-- ===== src/Sim/Apply/WallArms.antt =====
-- internal/sim/state.go: the arms of `Apply` for the walls.
use script_world.Prelude.{
  ℕ, ◌+◌, ◌-◌, ◌&&◌, Option, none, some, [], ◌∷◌, ltb, leb, if◌then◌else◌, min, max,
}
use script_world.Prelude.Int.{ℤ}
use script_world.Sim.Item.{Kind, Inventory, minus, add_items, inv_field}
use script_world.Sim.Recipe.{is_wall, wall_max_hp, wall_repair_material}
use script_world.Sim.State.{State, Structure, put_agent, wall_at, put_structure, remove_wall_at}
use script_world.Sim.Apply.Base.{Outcome, done, on_agent, finish}
use script_world.Sim.Apply.MindArms.{with_work_start}

abbrev pub demolish_chip_hp : ℕ
demolish_chip_hp = 100

abbrev pub repair_hp_per_unit : ℕ
repair_hp_per_unit = 100

-- `w.HP -= demolishChipHP; if w.HP < 1 { w.HP = 1 }`.
abbrev pub chipped : Structure → Structure
chipped w = record w { hp = max 1 (w.hp - demolish_chip_hp) }

unfoldable pub apply_wall_chipped : State → ℤ → ℤ → ℤ → Outcome
apply_wall_chipped s i x y = on_agent s i λ a.
    let s' = put_agent s i (record a { intent = with_work_start 0 a.intent }) in
    elim (wall_at s.structures x y) [
      | none ↦ done s'
      | some w ↦
          done (record s' { structures = put_structure is_wall x y (chipped w) s.structures })
    ]

unfoldable pub apply_wall_destroyed : State → ℕ → ℤ → ℤ → ℤ → Outcome
apply_wall_destroyed s tick i x y = on_agent s i λ a.
    let s' = put_agent s i (finish tick a) in
    done (record s' { structures = remove_wall_at x y s.structures })

-- `invField(inv, mat)`, where `none` is the empty string.
abbrev pub material_count : Inventory → Option Kind → ℕ
material_count inv none = 0
material_count inv (some k) = inv_field inv k

abbrev pub spend_material : Inventory → Option Kind → Inventory
spend_material inv none = inv
spend_material inv (some k) =
    if leb 1 (inv_field inv k) then add_items inv (record { kind = k; n = 1 } ∷ []) minus else inv

abbrev pub repaired : Structure → Structure
repaired w = record w { hp = min (wall_max_hp w.kind) (w.hp + repair_hp_per_unit) }

unfoldable pub apply_wall_repaired : State → ℕ → ℤ → ℤ → ℤ → Outcome
apply_wall_repaired s tick i x y = on_agent s i λ a. elim (wall_at s.structures x y) [
  | none ↦ done (put_agent s i (finish tick a))
  | some w ↦
      let mat = wall_repair_material w.kind in
      let inv' = spend_material a.inv mat in
      let w' = repaired w in
      let more = ltb w'.hp (wall_max_hp w.kind) && leb 1 (material_count inv' mat) in
      let a' = record a { inv = inv' } in
      let s' =
        put_agent s i
          (if more then record a' { intent = with_work_start 0 a.intent } else finish tick a') in
      done (record s' { structures = put_structure is_wall x y w' s.structures })
]
