-- ===== src/Daemon/Recovery.antt =====
-- internal/daemon/daemon.go: how the replay of the log goes, and what it comes to.
use script_world.Prelude.{
  ℕ, ◌≡◌, refl, sym, true, false, List, [], ◌∷◌, ◌++◌, arith, max, ltb, ◌⊎◌, inl, inr, Bool-cases,
  Option-cases, ap, All, some,
}
use script_world.Sim.State.{State}
use script_world.Sim.Event.{Event}
use script_world.Sim.Apply.{apply}
use script_world.Sim.Apply.Base.{ApplyError}
use script_world.Sim.World.{IsWorld}
use script_world.Sim.World.Replay.{IsEmitted, apply-IsWorld}
use script_world.Sim.Apply.Errors.{accepts, apply-accepts}
use script_world.Daemon.{Recorded, advance, replay_event, recover_state}
use script_world.Daemon.Ticks.{apply_tick, is_migration}

-- The rest of a replay, from what the start of it came to.
abbrev pub go_on : State ⊎ ApplyError → List Recorded → State ⊎ ApplyError
go_on (inl s) log = recover_state s log
go_on (inr x) log = inr x

-- Replaying a log is replaying its start, and then the rest from the state that this gives: a
-- snapshot of that state stands for the start of the log. An error of the start is the error of
-- the whole.
pub recover-append :
    (s : State) (xs ys : List Recorded) → recover_state s (xs ++ ys) ≡ go_on (recover_state s xs) ys
unfolding recover_state
recover-append s [] ys = refl
recover-append s (r ∷ xs) ys =
    elim (replay_event s r)
      as (λ o.
        elim o as (λ _. State ⊎ ApplyError) [ inl s' ↦ recover_state s' (xs ++ ys) | inr x ↦ inr x ]
        ≡ go_on
            (elim o as (λ _. State ⊎ ApplyError) [ inl s' ↦ recover_state s' xs | inr x ↦ inr x ])
            ys) [ inl s' ↦ recover-append s' xs ys | inr x ↦ refl ]

-- The state that an accepted event leaves: the clock is at the greater of the ticks of what the
-- reducer returned and of the event.
abbrev pub replayed : State → Recorded → State
replayed s (tick, e) = let s' = (apply s tick e).0 in record s' { tick = max s'.tick tick }

advance-max : (s : State) (tick : ℕ) → advance s tick ≡ record s { tick = max s.tick tick }
unfolding advance
advance-max s tick = elim (Bool-cases (ltb s.tick tick)) [
  | inl e ↦ let m : max s.tick tick ≡ tick = ground arith in rw (e, advance, m) refl
  | inr e ↦ let m : max s.tick tick ≡ s.tick = ground arith in rw (e, advance, m) refl
]

replayed-IsWorld :
    (s : State) (tick : ℕ) (e : Event) → IsWorld s → IsEmitted s e → IsWorld (replayed s (tick, e))
replayed-IsWorld s tick e v h =
    let w = apply-IsWorld s tick e v h in
    record {
      agents_ok = w.agents_ok;
      structures_ok = w.structures_ok;
      piles_ok = w.piles_ok;
      one_per_tile = w.one_per_tile;
      rate_ok = w.rate_ok;
    }

-- A log whose events were emitted against the states that they are replayed on.
abbrev pub IsLog : State → List Recorded → Type 0
IsLog s [] = Unit {0}
IsLog s (r ∷ log) = IsEmitted s r.1 × IsLog (replayed s r) log

-- How a boot goes: event by event while the reducer accepts them, to a well-formed world at the end
-- of the log, or to the reducer's error for the first event that it does not accept.
pub data Boots : State → List Recorded → State ⊎ ApplyError → Type 0 where
  ends : {s : State} → IsWorld s → Boots s [] (inl s)
  goes_on :
      {s : State} {r : Recorded} {log : List Recorded} {o : State ⊎ ApplyError}
      → accepts s r.1 ≡ true
      → Boots (replayed s r) log o
      → Boots s (r ∷ log) o
  stops :
      {s : State} {r : Recorded} {log : List Recorded} {x : ApplyError}
      → accepts s r.1 ≡ false
      → (apply s r.0 r.1).1 ≡ some x
      → Boots s (r ∷ log) (inr x)

-- From a well-formed world, the replay of a log whose events were emitted against the states that
-- they are replayed on goes over the events that the reducer accepts, with the clock after each at
-- the greater of the state's tick and the event's. It returns a well-formed world where it accepts
-- them all, and otherwise the reducer's error for the first that it does not accept.
pub recover_state-Boots :
    (s : State) (log : List Recorded) → IsWorld s → IsLog s log → Boots s log (recover_state s log)
unfolding recover_state replay_event
recover_state-Boots s [] v h = ends v
recover_state-Boots s ((tick, e) ∷ log) v h = elim (Option-cases (apply s tick e).1) [
  | inl n ↦
      let rest =
        recover_state-Boots (replayed s (tick, e)) log (replayed-IsWorld s tick e v h.0) h.1 in
      goes_on ((apply-accepts s tick e).0 n)
        (rw (recover_state, replay_event, n, advance-max (apply s tick e).0 tick) rest)
  | inr (x, n) ↦ elim (Bool-cases (accepts s e)) [
    | inl fits ↦ absurd (cc ((apply-accepts s tick e).1 fits, n))
    | inr misses ↦ rw (recover_state, replay_event, n) (stops misses n)
  ]
]

tick_of : State → State ⊎ ApplyError → ℕ
tick_of s (inl s') = s'.tick
tick_of s (inr x) = s.tick

-- The greatest of a tick and the ticks of a log.
unfoldable pub last_tick : ℕ → List Recorded → ℕ
last_tick t [] = t
last_tick t (r ∷ log) = last_tick (max t r.0) log

advance_tick : (s : State) (tick : ℕ) → (advance s tick).tick ≡ max s.tick tick
unfolding advance
advance_tick s tick = ground arith

-- The clock resumes at the greatest of the snapshot's tick and the ticks of the log, which holds
-- no migration.
pub recover_tick :
    (s s' : State) (log : List Recorded)
    → All (λ (r : Recorded). is_migration r.1 ≡ false) log
    → recover_state s log ≡ inl s'
    → s'.tick ≡ last_tick s.tick log
unfolding recover_state replay_event last_tick tick_of
recover_tick s s' [] h e = sym (ap (tick_of s) e)
recover_tick s s' ((tick, e) ∷ log) h f = elim (Option-cases (apply s tick e).1) [
  | inl n ↦
      let q =
        recover_tick (advance (apply s tick e).0 tick) s' log h.1
          (rw (recover_state, replay_event, n) at f) in
      rw (sym (apply_tick s tick e h.0)) (rw (sym (advance_tick (apply s tick e).0 tick)) q)
  | inr (x, n) ↦ absurd (cc (rw (recover_state, replay_event, n) at f))
]
