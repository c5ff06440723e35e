-- ===== src/Llm/Health/Breaker.antt =====
-- What the circuit breaker promises: its backoff, its refusals and its one probe.
use script_world.Prelude.{
  ℕ, zero, suc, ◌+◌, ◌*◌, ◌^◌, ◌≤◌, ◌<◌, ◌≡◌, ◌↔◌, ◌⊎◌, refl, true, false, List, [], ◌∷◌, arith,
  length, min,
}
use native.Mathlib.Nat.{pow-suc}
use script_world.Llm.Health.{
  TierHealth, Call, fails_call, admit, succeed, fail, next_backoff, down, step, failing,
  failures_to_open, backoff_initial, backoff_max,
}

-- A closed breaker has no backoff and no probe; an open one backs off for 15 to 300 seconds.
pub record IsBreaker (h : TierHealth) : Type 0 where
  pub closed_backoff : h.fails < failures_to_open → h.backoff ≡ 0
  pub closed_probe : h.fails < failures_to_open → h.probing ≡ false
  pub open_min : failures_to_open ≤ h.fails → backoff_initial ≤ h.backoff
  pub open_max : h.backoff ≤ backoff_max

-- Every call keeps the breaker in order: a closed one has no backoff and no probe in flight, and an
-- open one backs off for at least 15 and at most 300 seconds.
pub step-IsBreaker : (h : TierHealth) (c : Call) (now : ℕ) → IsBreaker h → IsBreaker (step h c now)
unfolding step admit succeed fail next_backoff
step-IsBreaker h c now v = ground arith

-- A request is admitted exactly when the breaker is closed, or its backoff has passed and no probe
-- is in flight.
pub admit_iff :
    (h : TierHealth) (now : ℕ)
    → ((admit h now).1 ≡ true)
      ↔ ((h.fails < failures_to_open) ⊎ ((h.open_until ≤ now) × (h.probing ≡ false)))
unfolding admit
admit_iff h now = ground arith

-- While a breaker is down one probe goes through: once a request is admitted, every further one is
-- refused, at any time, until the probe succeeds or fails.
pub admit-admit :
    (h : TierHealth) (now later : ℕ)
    → down h ≡ true
    → (admit h now).1 ≡ true
    → (admit (admit h now).0 later).1 ≡ false
unfolding admit down
admit-admit h now later d a = ground arith

failing_fails : (times : List ℕ) → (failing times).fails ≡ length times
unfolding failing fail
failing_fails [] = refl
failing_fails (now ∷ times) = ground (arith, failing_fails times)

failing-IsBreaker : (times : List ℕ) → IsBreaker (failing times)
unfolding failing step
failing-IsBreaker [] = ground arith
failing-IsBreaker (now ∷ times) =
    step-IsBreaker (failing times) fails_call now (failing-IsBreaker times)

fail_again :
    (h : TierHealth) (now : ℕ)
    → 2 ≤ h.fails
    → backoff_initial ≤ h.backoff
    → h.backoff ≤ backoff_max
    → ((fail h now).backoff ≡ min backoff_max (h.backoff * 2))
      × ((fail h now).open_until ≡ now + (fail h now).backoff)
unfolding fail next_backoff
fail_again h now f l u = ground arith

-- From the third consecutive failure on the backoff is 15 seconds, doubled at each further failure
-- and capped at 300, and the breaker stays open for that long after the latest failure.
pub failing_backoff :
    (k now : ℕ) (times : List ℕ)
    → length times ≡ 2 + k
    → ((failing (now ∷ times)).backoff ≡ min backoff_max (backoff_initial * 2 ^ k))
      × ((failing (now ∷ times)).open_until ≡ now + min backoff_max (backoff_initial * 2 ^ k))
unfolding failing fail next_backoff
failing_backoff zero now times e =
    let f = failing_fails times in
    let b = (failing-IsBreaker times).closed_backoff (omega arith) in ground arith
failing_backoff (suc k) now [] e = absurd (omega arith)
failing_backoff (suc k) now (t ∷ times) e =
    let f = failing_fails (t ∷ times) in
    let (b, _) = failing_backoff k t times (omega arith) in
    let v = failing-IsBreaker (t ∷ times) in
    let m = v.open_min (omega arith) in
    let (c, o) = fail_again (failing (t ∷ times)) now (omega arith) m v.open_max in
    let q = pow-suc 2 k in (omega arith, omega arith)
