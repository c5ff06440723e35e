-- ===== src/Tests/Breakers.antt =====
-- Tests of the circuit breaker of internal/llm/health.go.
use script_world.Prelude.{◌≡◌, refl, true, false, [], ◌∷◌, arith}
use script_world.Llm.Health.{TierHealth, admits, admit, down, step, failing}
use script_world.Llm.Health.Breaker.{IsBreaker, step-IsBreaker}

-- Down since 102, after three failures.
abbrev tripped : TierHealth
tripped = record { fails = 3; open_until = 117; backoff = 15; probing = false }

trips : failing (102 ∷ 101 ∷ 100 ∷ []) ≡ tripped
unfolding failing
trips = refl

tripped-IsBreaker : IsBreaker tripped
tripped-IsBreaker = ground arith

tripped-down : down tripped ≡ true
unfolding down
tripped-down = refl

probes : (admit tripped 120).1 ≡ true
unfolding admit
probes = refl

step-IsBreaker_example : IsBreaker (step tripped admits 120)
step-IsBreaker_example = step-IsBreaker tripped admits 120 tripped-IsBreaker
