-- ===== src/Daemon/Sampler.antt =====
-- internal/daemon/governor.go: one `sample` of the governor sampler: the pending thoughts become a
-- debt, the governor decides, and a decision goes through the loop's govern command. The ticker,
-- the mutex and the failures of a stopped loop are not modelled.
pub mod Delivery
use script_world.Prelude.{ℕ, ap, Option, map}
use script_world.Clock.Ladder.{Speed, ticks_per_second}
use script_world.Cognition.Floats.{Floats}
use script_world.Cognition.Debt.{PendingDebtInput, debt}
use script_world.Cognition.Governor.{Governor, Action, hold, shed, recover_up, Reading, sample}
use script_world.Llm.Pending.{PendingRegistry, PendingThought, pending_cognition}
use script_world.Sim.State.{State}
use script_world.Sim.Loop.{govern, requested_ceiling, handle_command}

-- `s.status.Govern` is called unless the decision is to hold.
unfoldable pub carry_out : State → Action → Speed → State
unfolding handle_command
carry_out s hold to = s
carry_out s shed to = handle_command s (govern to)
carry_out s recover_up to = handle_command s (govern to)

module _ (F : Floats) where
  open F use {Float, of_nat}

  unfoldable pub debt_input : PendingThought F → PendingDebtInput F
  debt_input p = record {
    kind = p.kind;
    predicted_sec = p.predicted_sec;
    elapsed_sec = p.elapsed_sec;
  }

  -- The reading of a sample, from the loop's status and the registry.
  unfoldable pub reading :
      (ℕ → Option Float) → (ℕ → Float) → ℕ → PendingRegistry → State → Reading F
  unfolding debt_input pending_cognition debt requested_ceiling ticks_per_second
  reading estimate seconds now pending s =
      let (owed, jobs) =
        debt F (map debt_input (pending_cognition F estimate seconds now pending))
          (of_nat (ticks_per_second s.speed)) in
      record {
        debt = owed;
        jobs = jobs;
        paused = s.paused;
        effective = s.speed;
        requested = requested_ceiling s;
      }

  -- The governor and the world after a sample.
  unfoldable pub sample_world :
      (ℕ → Option Float) → (ℕ → Float) → ℕ → PendingRegistry → Governor → State → Governor × State
  unfolding reading carry_out sample
  sample_world estimate seconds now pending g s =
      let (g', d) = sample F g (reading estimate seconds now pending s) in
      (g', carry_out s d.action d.to)
