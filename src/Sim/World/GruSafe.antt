-- ===== src/Sim/World/GruSafe.antt =====
-- The arms of `applyGru` keep the world well formed.
use script_world.Prelude.{ℕ, refl, Option, inl, inr, Option-cases}
use script_world.Prelude.Int.{ℤ}
use script_world.Sim.State.{State, Gru, agent_at, put_agent}
use script_world.Sim.Apply.GruArms.{
  apply_gru_emerged, apply_gru_moved, apply_gru_sighted, apply_gru_attacked, apply_gru_withdrew,
  wounded,
}
use script_world.Sim.World.{IsWorld}
use script_world.Sim.World.Agents.{agent_at-IsAgent, put_agent-IsWorld, on_agent-keeps, keep_agent}

-- The gru is no part of the world's order.
gru-IsWorld : (s : State) (g : Option Gru) → IsWorld s → IsWorld (record s { gru = g })
gru-IsWorld s g v = record {
  agents_ok = v.agents_ok;
  structures_ok = v.structures_ok;
  piles_ok = v.piles_ok;
  one_per_tile = v.one_per_tile;
  rate_ok = v.rate_ok;
}

module _ (s : State) (v : IsWorld s) where
  pub gru_emerged-IsWorld : (x y : ℤ) → IsWorld (apply_gru_emerged s x y).0
  unfolding apply_gru_emerged
  gru_emerged-IsWorld x y = gru-IsWorld s _ v

  pub gru_moved-IsWorld : (x y : ℤ) → IsWorld (apply_gru_moved s x y).0
  unfolding apply_gru_moved
  gru_moved-IsWorld x y = gru-IsWorld s _ v

  pub gru_sighted-IsWorld : (i : ℤ) → IsWorld (apply_gru_sighted s i).0
  unfolding apply_gru_sighted
  gru_sighted-IsWorld i = elim (Option-cases (agent_at s.agents i)) [
    | inl e ↦ rw (e, apply_gru_sighted) v
    | inr (a, e) ↦ rw (e, apply_gru_sighted) (gru-IsWorld s _ v)
  ]

  pub gru_attacked-IsWorld :
      (tick : ℕ) (i : ℤ) (health : ℕ) → IsWorld (apply_gru_attacked s tick i health).0
  unfolding apply_gru_attacked
  gru_attacked-IsWorld tick i health = on_agent-keeps IsWorld s i _ v λ a e.
      gru-IsWorld (put_agent s i (wounded tick health a)) _ (
        put_agent-IsWorld s i (wounded tick health a) v
          (keep_agent a (wounded tick health) refl refl (agent_at-IsAgent s i a v e)))

  pub gru_withdrew-IsWorld : IsWorld (apply_gru_withdrew s).0
  unfolding apply_gru_withdrew
  gru_withdrew-IsWorld = gru-IsWorld s _ v
