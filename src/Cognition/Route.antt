-- ===== src/Cognition/Route.antt =====
-- internal/cognition/route.go: the router. The verdict's text `Arithmetic` is left out.
use script_world.Prelude.{ℕ, ◌≤◌, ◌≡◌, ◌↔◌, Bool, true, false, arith, if◌then◌else◌, leb}
use script_world.Prelude.Int.{ℤ, pos, negsuc, pos_part}
use script_world.Cognition.Floats.{Floats}
use script_world.Cognition.Registry.{DecisionClass, ClassName}

pub record Verdict : Type 0 where
  pub allow : Bool
  pub class : ClassName
  pub points : ℕ
  pub predicted_wall_ms : ℤ
  pub predicted_drift_ticks : ℤ
  pub budget_ticks : ℕ

-- `PredictedDriftTicks <= BudgetTicks`.
abbrev within : ℤ → ℕ → Bool
within (pos n) b = leb n b
within (negsuc _) b = true

module _ (F : Floats) where
  open F use {Float, lef, mulf, of_nat, to_int}

  unfoldable pub route : DecisionClass → Float → Float → Verdict
  route dc ticks_per_second seconds_per_point =
      let wall = mulf (of_nat dc.points) seconds_per_point in
      let drift = to_int (mulf wall ticks_per_second) in
      if lef ticks_per_second (of_nat 0)
      then record {
        allow = false;
        class = dc.class;
        points = dc.points;
        predicted_wall_ms = to_int (mulf wall (of_nat 1000));
        predicted_drift_ticks = pos 0;
        budget_ticks = dc.budget_ticks;
      }
      else record {
        allow = within drift dc.budget_ticks;
        class = dc.class;
        points = dc.points;
        predicted_wall_ms = to_int (mulf wall (of_nat 1000));
        predicted_drift_ticks = drift;
        budget_ticks = dc.budget_ticks;
      }

  -- The router admits a thought exactly when the speed is capped and the drift that it predicts
  -- stays within the class's budget; it reports that drift, or 0 at an uncapped speed.
  pub route_allow_iff :
      (dc : DecisionClass) (tps spp : Float)
      → let v = route dc tps spp in
        ((v.allow ≡ true) ↔ (
          (lef tps (of_nat 0) ≡ false)
          × (pos_part (to_int (mulf (mulf (of_nat dc.points) spp) tps)) ≤ dc.budget_ticks)))
        × (v.predicted_drift_ticks ≡ (
            if lef tps (of_nat 0) then pos 0 else to_int (mulf (mulf (of_nat dc.points) spp) tps)))
  unfolding route
  route_allow_iff dc tps spp = ground arith
