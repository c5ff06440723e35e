-- ===== src/Cognition/Governor.antt =====
-- internal/cognition/governor.go: the hysteresis state machine behind adaptive throttling.
pub mod Counters
pub mod Notch
pub mod Streak
use script_world.Prelude.{
  ℕ, zero, suc, ◌+◌, ◌-◌, List, [], ◌∷◌, Bool, true, false, ◌&&◌, Option, none, some, get_elem?,
  leb, ltb, if◌then◌else◌,
}
use script_world.Clock.Ladder.{
  Speed, unset, speed_eq, ticks_per_second, capped_ladder, ladder_index,
}
use script_world.Cognition.Floats.{Floats}

pub data Action : Type 0 where
  hold shed recover_up : Action

-- `breachSamples` (5s / 1s) and `recoverSamples` (20s / 1s).
abbrev pub breach_samples : ℕ
breach_samples = 5

abbrev pub recover_samples : ℕ
recover_samples = 20

pub record Governor : Type 0 where
  pub breach : ℕ
  pub recover : ℕ
  pub last_eff : Speed

-- The zero value of the struct, with which the daemon's sampler starts.
abbrev pub fresh : Governor
fresh = record { breach = 0; recover = 0; last_eff = unset }

unfoldable pub reset : Speed → Governor
reset eff = record { breach = 0; recover = 0; last_eff = eff }

-- `clock.CappedLadder()[i]`; the index stays in range wherever the governor reads it.
unfoldable pub ladder_at : ℕ → Speed
ladder_at i = elim (get_elem? capped_ladder i) [ none ↦ unset | some s ↦ s ]

-- `idx > 0`, for an index that is -1 off the ladder.
abbrev pub has_lower : Option ℕ → Bool
has_lower (some (suc i)) = true
has_lower _ = false

-- `idx >= 0 && reqIdx > idx`.
abbrev pub has_room : Option ℕ → Option ℕ → Bool
has_room (some i) (some r) = ltb i r
has_room _ _ = false

abbrev pub index_or_zero : Option ℕ → ℕ
index_or_zero none = 0
index_or_zero (some i) = i

-- The windows after the check of a speed change.
unfoldable pub watch : Governor → Speed → Governor
watch g effective =
    if speed_eq effective g.last_eff
    then g
    else record { breach = 0; recover = 0; last_eff = effective }

module _ (F : Floats) where
  open F use {Float, ltf, mulf, divf, of_nat}

  -- One call's arguments.
  pub record Reading : Type 0 where
    pub debt : Float
    pub jobs : ℕ
    pub paused : Bool
    pub effective : Speed
    pub requested : Speed

  pub record Decision : Type 0 where
    pub action : Action
    pub to : Speed
    pub debt : Float
    pub jobs : ℕ

  abbrev decide : Reading → Action → Speed → Decision
  decide r a s = record { action = a; to = s; debt = r.debt; jobs = r.jobs }

  abbrev pub shed_threshold : Float
  shed_threshold = of_nat 1

  -- `ShedThreshold * RecoverHeadroom`, the constant 1.0 * 0.5.
  abbrev pub recovery_ceiling : Float
  recovery_ceiling = divf (of_nat 1) (of_nat 2)

  -- `debt > ShedThreshold && idx > 0`.
  abbrev pub is_breaching : Reading → Bool
  is_breaching r = ltf shed_threshold r.debt && has_lower (ladder_index r.effective)

  -- The debt projected at the next notch up.
  unfoldable pub projected : Reading → ℕ → Float
  projected r idx =
      divf (mulf r.debt (of_nat (ticks_per_second (ladder_at (idx + 1)))))
        (of_nat (ticks_per_second r.effective))

  -- Room to climb, and a projection under the ceiling.
  abbrev pub has_headroom : Reading → Bool
  has_headroom r =
      has_room (ladder_index r.effective) (ladder_index r.requested)
      && ltf (projected r (index_or_zero (ladder_index r.effective))) recovery_ceiling

  -- The shed path, once the sample is breaching.
  unfoldable pub shed_path : Governor → Reading → Governor × Decision
  unfolding reset ladder_at
  shed_path g r =
      let to = ladder_at (index_or_zero (ladder_index r.effective) - 1) in
      let g' = record g { breach = g.breach + 1; recover = 0 } in
      if leb breach_samples (g.breach + 1)
      then (reset to, decide r shed to)
      else (g', decide r hold r.effective)

  -- The recover path, where the sample is not breaching.
  unfoldable pub recover_path : Governor → Reading → Governor × Decision
  unfolding reset ladder_at projected
  recover_path g r =
      let candidate = ladder_at (index_or_zero (ladder_index r.effective) + 1) in
      if has_headroom r
      then if leb recover_samples (g.recover + 1)
        then (reset candidate, decide r recover_up candidate)
        else (record g { breach = 0; recover = g.recover + 1 }, decide r hold r.effective)
      else (record g { breach = 0; recover = 0 }, decide r hold r.effective)

  -- `Governor.Sample`.
  unfoldable pub sample : Governor → Reading → Governor × Decision
  unfolding reset watch shed_path recover_path
  sample g r =
      let g' = watch g r.effective in
      if r.paused
      then (reset r.effective, decide r hold r.effective)
      else if is_breaching r
      then shed_path g' r
      else recover_path g' r

  -- The daemon's sampler: one call after another, the newest reading first.
  unfoldable pub run : Governor → List Reading → Governor
  run g [] = g
  run g (r ∷ rs) = (sample (run g rs) r).0
