-- ===== src/Sim/Apply/ClockArms.antt =====
-- internal/sim/state.go: the clock.* arms of `Apply`, the world's time of day, and a migration.
use script_world.Prelude.{ℕ, Bool, true, false, ◌==◌, if◌then◌else◌}
use script_world.Clock.Ladder.{Speed, unset, speed_eq}
use script_world.Sim.State.{State, rate_of}
use script_world.Sim.Event.{GovernorPayload}
use script_world.Sim.Apply.Base.{Outcome, done}

-- `if !s.Degraded { s.EffectiveRate = speed.TicksPerSecond() }`.
abbrev pub paced : State → Speed → ℕ
paced s speed = if s.degraded then s.effective_rate else rate_of speed

unfoldable pub apply_paused : State → Bool → Outcome
apply_paused s b = done (record s { paused = b })

unfoldable pub apply_speed_set : State → Speed → Outcome
apply_speed_set s speed =
    done (record s { speed = speed; requested_speed = unset; effective_rate = paced s speed })

unfoldable pub apply_governor_shed : State → GovernorPayload → Outcome
apply_governor_shed s p =
    done (record s { speed = p.to; requested_speed = p.requested; effective_rate = paced s p.to })

unfoldable pub apply_governor_recovered : State → GovernorPayload → Outcome
apply_governor_recovered s p = done (record s {
  speed = p.to;
  requested_speed = if speed_eq p.to p.requested then unset else p.requested;
  effective_rate = paced s p.to;
})

unfoldable pub apply_degraded : State → ℕ → Outcome
apply_degraded s rate = done (record s { degraded = true; effective_rate = rate })

unfoldable pub apply_recovered : State → Outcome
apply_recovered s = done (record s { degraded = false; effective_rate = rate_of s.speed })

unfoldable pub apply_night : State → Bool → Outcome
apply_night s b = done (record s { night = b })

-- `world.migrated`: the whole state is replaced, unless the seed is another world's.
unfoldable pub apply_migrated : State → State → Outcome
apply_migrated s p = if p.seed == s.seed then done p else done s
