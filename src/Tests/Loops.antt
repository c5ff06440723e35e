-- ===== src/Tests/Loops.antt =====
-- Tests of the loop's clock commands, the pending registry and the governor sampler.
use script_world.Prelude.{ℕ, ◌≡◌, refl, Option, some, [], ◌∷◌}
use mathlib.Core.List.{Memᴰ}
use script_world.Clock.Ladder.{x1, x4, x8}
use script_world.Cognition.Registry.{CallKind}
use script_world.Cognition.Governor.{fresh, sample}
use script_world.Cognition.Governor.Notch.{LeadsTo}
use script_world.Llm.Pending.{PendingRegistry, new_pending_registry, add, dispatch, remove}
use script_world.Llm.Pending.Drain.{
  ids, Submits, none_yet, accepted, dequeued, returned, Submits-ids,
}
use script_world.Sim.Apply.ClockArms.{apply_governor_shed, apply_governor_recovered}
use script_world.Sim.Loop.{govern, requested_ceiling}
use script_world.Sim.Loop.Ceiling.{commands}
use script_world.Daemon.Sampler.{reading, sample_world}
use script_world.Daemon.Sampler.Delivery.{sample_world_follows}
use script_world.Tests.Fixed.{fixed}
use script_world.Tests.Camp.{camp}

-- The camp runs at 4x: a shed, one that skips a notch and is dropped, and a recovery.
shed_and_back : (commands camp (govern x1 ∷ govern x8 ∷ govern x4 ∷ [])).speed ≡ x4
unfolding commands apply_governor_shed apply_governor_recovered
shed_and_back = refl

ceiling_holds : (commands camp (govern x1 ∷ govern x4 ∷ govern x8 ∷ [])).speed ≡ x4
unfolding commands apply_governor_shed apply_governor_recovered
ceiling_holds = refl

-- Two calls are accepted, the first returns, and a worker dequeues it too late.
abbrev pending : PendingRegistry
pending =
    dispatch (remove (add (add new_pending_registry 0 CallKind.planner).0 0 CallKind.narrator).0 1)
      1 50

pending-Submits : Submits pending (2 ∷ [])
unfolding add
pending-Submits = dequeued 1 50 (
    returned 1 (accepted 0 CallKind.narrator (accepted 0 CallKind.planner none_yet))
      (Memᴰ.tail (Memᴰ.head refl)))

Submits-ids_example : ids pending.jobs ≡ 2 ∷ []
Submits-ids_example = Submits-ids pending (2 ∷ []) pending-Submits

abbrev estimate : ℕ → Option ℕ
estimate _ = some 20000

abbrev seconds : ℕ → ℕ
seconds n = n

sample_world_follows_example :
    let d = (sample fixed fresh (reading fixed estimate seconds 60 pending camp)).1 in
    ((sample_world fixed estimate seconds 60 pending fresh camp).1.speed ≡ d.to)
    × LeadsTo d.action camp.speed (requested_ceiling camp) d.to
sample_world_follows_example = sample_world_follows fixed estimate seconds 60 pending fresh camp
