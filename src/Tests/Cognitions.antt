-- ===== src/Tests/Cognitions.antt =====
-- Tests of internal/cognition but for the governor's samples.
use script_world.Prelude.{ℕ, zero, suc, ◌≡◌, refl, true, some, List, [], ◌∷◌, arith}
use script_world.Cognition.Registry.{
  CallKind, ClassName, DecisionClass, reflex, kind_unregistered, drama, other_kind, class_for_kind,
  validate_kinds,
}
use script_world.Cognition.Route.{route}
use script_world.Cognition.Debt.{PendingDebtInput, debt}
use script_world.Cognition.Estimator.{
  Estimator, Adoption, WindowSample, IsRing, sample, median, rate, new_estimator,
}
use script_world.Cognition.Estimator.History.{samples_trace, observed_trace}
use script_world.Cognition.Estimator.Verdict.{samples_trace-observed}
use script_world.Tests.Fixed.{fixed, fixed-IsSorting}

abbrev planner_class : DecisionClass
planner_class = record {
  class = ClassName.planner;
  points = 3;
  budget_ticks = 1200;
  degrade = reflex;
  future_dated = true;
}

unknown_kind : validate_kinds (drama ∷ other_kind 4 ∷ []) ≡ some (kind_unregistered (other_kind 4))
unfolding validate_kinds class_for_kind
unknown_kind = refl

planner_found : class_for_kind CallKind.planner ≡ some planner_class
unfolding class_for_kind
planner_found = refl

-- A point takes 100 s, and the speed is 4x: a planner call drifts by 1200 ticks, its whole budget.
admits_at_the_budget : (route fixed planner_class 4000 100000).allow ≡ true
unfolding route
admits_at_the_budget = refl

-- A planner call with 150 s to go, and one of an unknown kind.
abbrev pending : List (PendingDebtInput fixed)
pending =
    record { kind = CallKind.planner; predicted_sec = 200000; elapsed_sec = 50000 }
    ∷ record { kind = other_kind 0; predicted_sec = 9000; elapsed_sec = 0 }
    ∷ []

half_a_debt : debt fixed pending 4000 ≡ (500, 1)
unfolding debt class_for_kind
half_a_debt = refl

abbrev spike_of : ℕ → List (WindowSample fixed)
spike_of zero = []
spike_of (suc n) = record { sec_per_point = 9000; spike = true } ∷ spike_of n

-- A ring that one more sample fills, of spikes only.
abbrev spiky : Estimator fixed
spiky = record {
  estimate = 1000;
  window = spike_of 20;
  wi = 19;
  wn = 19;
  samples = 19;
  spikes = 19;
}

spiky-IsRing : IsRing fixed spiky
spiky-IsRing = omega arith

abbrev slow : ℕ → List ℕ
slow zero = []
slow (suc n) = 9000 ∷ slow n

-- Two samples at the estimate, and a step up that is adopted.
abbrev slowdown : List ℕ
slowdown = 1000 ∷ 1000 ∷ slow 25

samples_trace-observed_example :
    samples_trace fixed (new_estimator fixed 1000) slowdown
    ≡ observed_trace fixed (record { estimate = 1000; recent = [] }) slowdown
samples_trace-observed_example = samples_trace-observed fixed fixed-IsSorting 1000 slowdown

abbrev adopted : Adoption fixed
adopted = record { prior = 1000; adopted = 9000; spike_rate = 1000 }

spiky_adopts : (sample fixed spiky 9000).1 ≡ some adopted
unfolding sample rate median
spiky_adopts = refl
