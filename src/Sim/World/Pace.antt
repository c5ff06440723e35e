-- ===== src/Sim/World/Pace.antt =====
-- The clock arms of `Apply` keep the world well formed: while the daemon is not degraded, the
-- effective rate is that of the speed.
use script_world.Prelude.{ℕ, ◌≡◌, refl, Bool, false, ◌==◌, Bool-cases, inl, inr}
use script_world.Clock.Ladder.{Speed}
use script_world.Sim.State.{State, rate_of}
use script_world.Sim.Event.{GovernorPayload}
use script_world.Sim.Apply.ClockArms.{
  paced, apply_paused, apply_speed_set, apply_governor_shed, apply_governor_recovered,
  apply_degraded, apply_recovered, apply_night, apply_migrated,
}
use script_world.Sim.World.{IsWorld}

paced_rate : (s : State) (speed : Speed) → s.degraded ≡ false → paced s speed ≡ rate_of speed
paced_rate s speed e = rw e refl

-- A state that differs from a world in the clock only.
paced-IsWorld :
    (s s' : State)
    → IsWorld s
    → s'.agents ≡ s.agents
    → s'.structures ≡ s.structures
    → s'.piles ≡ s.piles
    → (s'.degraded ≡ false → s'.effective_rate ≡ rate_of s'.speed)
    → IsWorld s'
paced-IsWorld s s' v a t p h = record {
  agents_ok = rw a v.agents_ok;
  structures_ok = rw t v.structures_ok;
  piles_ok = rw p v.piles_ok;
  one_per_tile = rw p v.one_per_tile;
  rate_ok = h;
}

module _ (s : State) (v : IsWorld s) where
  pub paused-IsWorld : (b : Bool) → IsWorld (apply_paused s b).0
  unfolding apply_paused
  paused-IsWorld b = paced-IsWorld s _ v refl refl refl v.rate_ok

  pub night-IsWorld : (b : Bool) → IsWorld (apply_night s b).0
  unfolding apply_night
  night-IsWorld b = paced-IsWorld s _ v refl refl refl v.rate_ok

  pub speed_set-IsWorld : (speed : Speed) → IsWorld (apply_speed_set s speed).0
  unfolding apply_speed_set
  speed_set-IsWorld speed = paced-IsWorld s _ v refl refl refl (paced_rate s speed)

  pub governor_shed-IsWorld : (p : GovernorPayload) → IsWorld (apply_governor_shed s p).0
  unfolding apply_governor_shed
  governor_shed-IsWorld p = paced-IsWorld s _ v refl refl refl (paced_rate s p.to)

  pub governor_recovered-IsWorld : (p : GovernorPayload) → IsWorld (apply_governor_recovered s p).0
  unfolding apply_governor_recovered
  governor_recovered-IsWorld p = paced-IsWorld s _ v refl refl refl (paced_rate s p.to)

  pub degraded-IsWorld : (rate : ℕ) → IsWorld (apply_degraded s rate).0
  unfolding apply_degraded
  degraded-IsWorld rate = paced-IsWorld s _ v refl refl refl λ e. absurd (cc e)

  pub recovered-IsWorld : IsWorld (apply_recovered s).0
  unfolding apply_recovered
  recovered-IsWorld = paced-IsWorld s _ v refl refl refl λ _. refl

  pub migrated-IsWorld : (p : State) → IsWorld p → IsWorld (apply_migrated s p).0
  unfolding apply_migrated
  migrated-IsWorld p w = elim (Bool-cases (p.seed == s.seed)) [ inl e ↦ rw e w | inr e ↦ rw e v ]
