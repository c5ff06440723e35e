-- ===== src/Daemon/Sampler/Delivery.antt =====
-- internal/daemon/governor.go with internal/sim/loop.go and the reducer: a decision that meets the
-- state it was made for takes effect.
use script_world.Prelude.{
  ℕ, suc, ◌≤◌, ◌≡◌, ◌≢◌, refl, sym, ◌∙◌, ap, inl, inr, true, false, Option, some, ◌==◌, ==_iff,
  Bool-cases, some-injective, arith,
}
use script_world.Clock.Ladder.{Speed, speed_eq, speed_eq→≡, ladder_index}
use script_world.Cognition.Floats.{Floats}
use script_world.Cognition.Governor.{Governor, Action, hold, shed, recover_up, Reading, sample}
use script_world.Cognition.Governor.Notch.{LeadsTo, sample-LeadsTo}
use script_world.Llm.Pending.{PendingRegistry}
use script_world.Sim.State.{State}
use script_world.Sim.Event.{Event, GovernorPayload}
use script_world.Sim.Apply.{apply}
use script_world.Sim.Apply.ClockArms.{apply_governor_shed, apply_governor_recovered}
use script_world.Sim.Loop.{
  govern, requested_ceiling, above_ceiling, govern_at, govern_event, command_event, handle_command,
}
use script_world.Daemon.Sampler.{reading, carry_out, sample_world}

apart-speeds :
    (a b : Speed) (i k : ℕ)
    → ladder_index a ≡ some i
    → ladder_index b ≡ some k
    → i ≢ k
    → speed_eq a b ≡ false
apart-speeds a b i k h g ne = elim (Bool-cases (speed_eq a b)) [
  | inr e ↦ e
  | inl e ↦ absurd (ne (some-injective _ _ (sym h ∙ ap ladder_index (speed_eq→≡ a b e) ∙ g)))
]

govern-event_at :
    (s : State) (to : Speed) (from i : ℕ) (e : Event)
    → s.paused ≡ false
    → ladder_index s.speed ≡ some from
    → ladder_index to ≡ some i
    → govern_at s to from i ≡ some e
    → handle_command s (govern to) ≡ (apply s s.tick e).0
unfolding handle_command command_event govern_event
govern-event_at s to from i e p h k f = ground arith

govern-shed :
    (s : State) (to : Speed) (i : ℕ)
    → s.paused ≡ false
    → ladder_index s.speed ≡ some (suc i)
    → ladder_index to ≡ some i
    → (handle_command s (govern to)).speed ≡ to
unfolding govern_at apply apply_governor_shed
govern-shed s to i p h k =
    let payload : GovernorPayload = record {
      requested = requested_ceiling s;
      from = s.speed;
      to = to;
    } in
    let apart = apart-speeds to s.speed i (suc i) k h (λ e. omega arith) in
    let down : (suc i == suc i) ≡ true = (==_iff (suc i) (suc i)).1 refl in
    ap (λ (z : State). z.speed)
      (govern-event_at s to (suc i) i (Event.clock_governor_shed payload) p h k
        (rw (apart, down, govern_at) refl))

above-false :
    (s : State) (i k : ℕ)
    → ladder_index (requested_ceiling s) ≡ some k
    → i ≤ k
    → above_ceiling s i ≡ false
unfolding above_ceiling
above-false s i k h le = ground arith

govern-recovered :
    (s : State) (to : Speed) (i k : ℕ)
    → s.paused ≡ false
    → ladder_index s.speed ≡ some i
    → ladder_index (requested_ceiling s) ≡ some k
    → ladder_index to ≡ some (suc i)
    → suc i ≤ k
    → (handle_command s (govern to)).speed ≡ to
unfolding govern_at apply apply_governor_recovered
govern-recovered s to i k p h c g le =
    let payload : GovernorPayload = record {
      requested = requested_ceiling s;
      from = s.speed;
      to = to;
    } in
    let apart = apart-speeds to s.speed (suc i) i g h (λ e. omega arith) in
    let other : (suc (suc i) == i) ≡ false = ground arith in
    let up : (suc i == suc i) ≡ true = (==_iff (suc i) (suc i)).1 refl in
    ap (λ (z : State). z.speed)
      (govern-event_at s to i (suc i) (Event.clock_governor_recovered payload) p h g
        (rw (apart, other, up, above-false s (suc i) k c le, govern_at) refl))

running :
    (s : State) (action : Action)
    → (s.paused ≡ true → action ≡ hold)
    → action ≢ hold
    → s.paused ≡ false
running s action rest ne = elim (Bool-cases s.paused) [ inl p ↦ absurd (ne (rest p)) | inr p ↦ p ]

-- Carrying out a decision that leads where a decision of its kind may lead.
carry_out-LeadsTo :
    (s : State) (action : Action) (to : Speed)
    → (s.paused ≡ true → action ≡ hold)
    → LeadsTo action s.speed (requested_ceiling s) to
    → (carry_out s action to).speed ≡ to
unfolding carry_out
carry_out-LeadsTo s hold to rest leads = sym leads
carry_out-LeadsTo s shed to rest (i, h, k) =
    govern-shed s to i (running s shed rest (λ e. cc e)) h k
carry_out-LeadsTo s recover_up to rest (i, k, h, c, g, le) =
    govern-recovered s to i k (running s recover_up rest (λ e. cc e)) h c g le

module _ (F : Floats) where
  open F use {Float}

  paused_holds : (g : Governor) (r : Reading F) → r.paused ≡ true → (sample F g r).1.action ≡ hold
  unfolding sample
  paused_holds g r h = rw (h, sample) refl

  -- A sample and the loop's command agree: unless the world changes in between, the decision of the
  -- governor is never dropped, so after a sample the world runs at the speed decided, one notch
  -- down after a shed, one notch up after a recovery, and the same after a hold.
  pub sample_world_follows :
      (estimate : ℕ → Option Float) (seconds : ℕ → Float) (now : ℕ) (pending : PendingRegistry)
      (g : Governor) (s : State)
      → let d = (sample F g (reading F estimate seconds now pending s)).1 in
        ((sample_world F estimate seconds now pending g s).1.speed ≡ d.to)
        × LeadsTo d.action s.speed (requested_ceiling s) d.to
  unfolding sample_world reading
  sample_world_follows estimate seconds now pending g s =
      let r = reading F estimate seconds now pending s in
      let leads = sample-LeadsTo F g r in
      (
        carry_out-LeadsTo s (sample F g r).1.action (sample F g r).1.to (λ h. paused_holds g r h)
            leads,
        leads,
      )
