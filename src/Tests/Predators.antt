-- ===== src/Tests/Predators.antt =====
-- Tests of the gru.
use script_world.Prelude.{◌≡◌, refl, true, none, some, [], ◌∷◌, All}
use script_world.Prelude.Int.{pos}
use script_world.Sim.Recipe.{StructureKind}
use script_world.Sim.State.{State, Structure, Gru, agent_at}
use script_world.Sim.Event.{Event}
use script_world.Sim.Apply.GruArms.{unseen_mask}
use script_world.Sim.Terrain.{warm_at}
use script_world.Sim.Gru.{Draws, emit, remember, saw_gru, torn, witnessed, gru_step}
use script_world.Sim.Gru.Laws.{Fair}
use script_world.Sim.Gru.Turn.{gru_step-Fair}
use script_world.Tests.Camp.{camp, ada}
use script_world.Tests.Paths.{field}

abbrev zeros : Draws
zeros = record { emerge = λ _. 0; side = λ _ _. 0; along = λ _ _ _. 0; prowl = λ _ _. 0 }

abbrev prowler : Gru
prowler = record { x = pos 0; y = pos 1; last_attack = 0; last_victim = pos 0; seen = unseen_mask }

-- The gru stands beside Ada, and Ben is near.
abbrev hunted : State
hunted = record camp { night = true; gru = some prowler }

attacks_ada :
    gru_step field hunted zeros true 60000
    ≡ emit (Event.gru_sighted (pos 0) (pos 0) (pos 1))
      ∷ remember (saw_gru 0 (pos 0) (pos 0))
      ∷ emit (Event.gru_sighted (pos 1) (pos 0) (pos 1))
      ∷ remember (saw_gru 1 (pos 1) (pos 0))
      ∷ emit (Event.gru_attacked (pos 0) 750)
      ∷ remember (torn 0 (pos 0) (pos 0))
      ∷ remember (witnessed 1 (pos 0) (pos 1) (pos 0))
      ∷ []
unfolding gru_step
attacks_ada = refl

gru_step-Fair_example : All (Fair field hunted true 60000) (gru_step field hunted zeros true 60000)
gru_step-Fair_example = gru_step-Fair field hunted zeros true 60000

abbrev campfire : Structure
campfire = record {
  kind = StructureKind.fire;
  x = pos 0;
  y = pos 0;
  fuel_until = 70000;
  owner = pos 0;
  store = none;
  hp = 0;
}

abbrev lit_camp : State
lit_camp = record hunted { structures = campfire ∷ [] }

warm_by_the_fire : warm_at lit_camp.structures (pos 1) (pos 1) 60000 ≡ true
unfolding warm_at
warm_by_the_fire = refl

-- By the fire nobody is attacked, and the gru finds no dark tile to step on.
nobody_is_attacked :
    gru_step field
      (record lit_camp { gru = some (record prowler { x = pos 2; y = pos 1 }) })
      zeros
      true
      60000
    ≡ emit (Event.gru_sighted (pos 0) (pos 2) (pos 1))
      ∷ remember (saw_gru 0 (pos 0) (pos 0))
      ∷ emit (Event.gru_sighted (pos 1) (pos 2) (pos 1))
      ∷ remember (saw_gru 1 (pos 1) (pos 0))
      ∷ []
unfolding gru_step
nobody_is_attacked = refl

prowls : hunted.gru ≡ some prowler
prowls = refl

ada_is_there : agent_at hunted.agents (pos 0) ≡ some ada
unfolding agent_at
ada_is_there = refl
