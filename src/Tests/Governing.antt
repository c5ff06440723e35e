-- ===== src/Tests/Governing.antt =====
-- Tests of the governor of internal/cognition/governor.go.
use script_world.Prelude.{ℕ, zero, suc, ◌≡◌, refl, false, List, [], ◌∷◌}
use script_world.Clock.Ladder.{x4, x8, ladder_index, speed_eq, ticks_per_second}
use script_world.Cognition.Governor.{
  hold, shed, recover_up, Reading, fresh, sample, run, is_breaching, watch, shed_path, recover_path,
  projected, reset, ladder_at, breach_samples, recover_samples,
}
use script_world.Cognition.Governor.Counters.{IsWindowed, run-IsWindowed}
use script_world.Cognition.Governor.Streak.{
  Streak, is_recovering, shed-Streak, recover_up-Streak, Streak-shed,
}
use script_world.Tests.Fixed.{fixed}

-- Twice the sustainable debt at 8x.
abbrev heavy : Reading fixed
heavy = record { debt = 2000; jobs = 3; paused = false; effective = x8; requested = x8 }

-- A light debt at 4x, under a request of 8x.
abbrev light : Reading fixed
light = record { debt = 100; jobs = 1; paused = false; effective = x4; requested = x8 }

abbrev times : ℕ → Reading fixed → List (Reading fixed)
times zero r = []
times (suc n) r = r ∷ times n r

sheds : (sample fixed (run fixed fresh (times 4 heavy)) heavy).1.action ≡ shed
unfolding sample run watch shed_path recover_path reset ladder_index speed_eq
sheds = refl

holds_before : (sample fixed (run fixed fresh (times 3 heavy)) heavy).1.action ≡ hold
unfolding sample run watch shed_path recover_path reset ladder_index speed_eq
holds_before = refl

recovers : (sample fixed (run fixed fresh (times 19 light)) light).1.action ≡ recover_up
unfolding sample run watch shed_path recover_path projected reset ladder_index ladder_at speed_eq
    ticks_per_second
recovers = refl

run-IsWindowed_example : IsWindowed (run fixed fresh (times 7 heavy))
run-IsWindowed_example = run-IsWindowed fixed (times 7 heavy)

shed-Streak_example : Streak fixed (is_breaching fixed) breach_samples x8 (times 5 heavy)
shed-Streak_example = shed-Streak fixed (times 4 heavy) heavy sheds

recover_up-Streak_example : Streak fixed (is_recovering fixed) recover_samples x4 (times 20 light)
recover_up-Streak_example = recover_up-Streak fixed (times 19 light) light recovers

heavy-Streak : Streak fixed (is_breaching fixed) breach_samples x8 (times 5 heavy)
unfolding ladder_index
heavy-Streak = (
  refl,
  refl,
  refl,
  (refl, refl, refl, (refl, refl, refl, (refl, refl, refl, (refl, refl, refl, tt)))),
)

Streak-shed_example : (sample fixed (run fixed fresh (times 4 heavy)) heavy).1.action ≡ shed
Streak-shed_example = Streak-shed fixed fresh x8 heavy (times 4 heavy) refl refl heavy-Streak
