-- ===== src/Sim/Apply/GruArms.antt =====
-- internal/sim/gru.go: `applyGru`, the reducer's arms for the gru.
use script_world.Prelude.{ℕ, Bool, true, false, Option, none, some, List, [], ◌∷◌, set}
use script_world.Prelude.Int.{ℤ, pos, negsuc}
use script_world.Sim.State.{State, Agent, Gru, agent_at, put_agent}
use script_world.Sim.Apply.Base.{Outcome, on_agent, done, finish}

-- No bit of the mask is set.
abbrev pub unseen_mask : List Bool
unseen_mask = false ∷ false ∷ false ∷ false ∷ false ∷ false ∷ false ∷ false ∷ []

-- `Seen |= 1 << i`: a shift beyond the eight bits sets none.
unfoldable pub mark_seen : List Bool → ℤ → List Bool
mark_seen mask (pos i) = set mask i true
mark_seen mask (negsuc _) = mask

unfoldable pub apply_gru_emerged : State → ℤ → ℤ → Outcome
apply_gru_emerged s x y = done (record s {
  gru = some (record { x = x; y = y; last_attack = 0; last_victim = pos 0; seen = unseen_mask });
})

abbrev pub gru_to : ℤ → ℤ → Option Gru → Option Gru
gru_to x y none = none
gru_to x y (some g) = some (record g { x = x; y = y })

unfoldable pub apply_gru_moved : State → ℤ → ℤ → Outcome
apply_gru_moved s x y = done (record s { gru = gru_to x y s.gru })

-- What the sighting writes, for an agent in range.
unfoldable pub gru_seen_by : ℤ → Option Gru → Option Gru
unfolding mark_seen
gru_seen_by i none = none
gru_seen_by i (some g) = some (record g { seen = mark_seen g.seen i })

-- Aimed at nobody, the event does nothing.
unfoldable pub apply_gru_sighted : State → ℤ → Outcome
unfolding gru_seen_by agent_at
apply_gru_sighted s i = elim (agent_at s.agents i) [
  | none ↦ done s
  | some _ ↦ done (record s { gru = gru_seen_by i s.gru })
]

unfoldable pub gru_after_attack : ℕ → ℤ → Option Gru → Option Gru
unfolding mark_seen
gru_after_attack tick i none = none
gru_after_attack tick i (some g) =
    some (record g { last_attack = tick; last_victim = i; seen = mark_seen g.seen i })

-- The victim wakes with no intent.
abbrev pub wounded : ℕ → ℕ → Agent → Agent
wounded tick health a = record (finish tick a) {
  needs = record a.needs { health = health };
  asleep = false;
}

unfoldable pub apply_gru_attacked : State → ℕ → ℤ → ℕ → Outcome
unfolding on_agent put_agent gru_after_attack
apply_gru_attacked s tick i health = on_agent s i λ a.
    done (record (put_agent s i (wounded tick health a)) { gru = gru_after_attack tick i s.gru })

unfoldable pub apply_gru_withdrew : State → Outcome
apply_gru_withdrew s = done (record s { gru = none })
