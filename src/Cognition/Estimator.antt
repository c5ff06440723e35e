-- ===== src/Cognition/Estimator.antt =====
-- internal/cognition/estimate.go: the live seconds-per-point estimate, an EWMA with spike
-- rejection over a ring of the last 20 samples. The mutex is left out: a call is one step.
pub mod History
pub mod Ring
pub mod Verdict
use script_world.Prelude.{
  ℕ, zero, suc, ◌+◌, ◌-◌, ◌/◌, ◌%◌, ◌≤◌, ◌<◌, ◌≡◌, Bool, true, false, Option, none, some, List, [],
  ◌∷◌, map, arith, if◌then◌else◌, ltb, ◌==◌, length, get_elem?, set, take, length-set, min, ◌⊎◌,
}
use script_world.Cognition.Floats.{Floats}

abbrev pub window_size : ℕ
window_size = 20

module _ (F : Floats) where
  open F use {Float, ltf, addf, mulf, divf, of_nat, sort_floats}

  pub record WindowSample : Type 0 where
    pub sec_per_point : Float
    pub spike : Bool

  pub record Adoption : Type 0 where
    pub prior : Float
    pub adopted : Float
    pub spike_rate : Float

  pub record Estimator : Type 0 where
    pub estimate : Float
    pub window : List WindowSample
    pub wi : ℕ
    pub wn : ℕ
    pub samples : ℕ
    pub spikes : ℕ

  abbrev zeros : ℕ → List WindowSample
  zeros zero = []
  zeros (suc n) = record { sec_per_point = of_nat 0; spike = false } ∷ zeros n

  -- `NewEstimator`.
  unfoldable pub new_estimator : Float → Estimator
  new_estimator seed = record {
    estimate = seed;
    window = zeros window_size;
    wi = 0;
    wn = 0;
    samples = 0;
    spikes = 0;
  }

  abbrev pub count_spikes : List WindowSample → ℕ
  count_spikes [] = 0
  count_spikes (w ∷ ws) = (if w.spike then 1 else 0) + count_spikes ws

  -- `rateLocked`: the slots below `wn`.
  unfoldable pub rate : Estimator → Float
  rate e =
      if e.wn == 0
      then of_nat 0
      else divf (of_nat (count_spikes (take e.wn e.window))) (of_nat e.wn)

  abbrev at_or_zero : List Float → ℕ → Float
  at_or_zero xs i = elim (get_elem? xs i) [ none ↦ of_nat 0 | some x ↦ x ]

  -- `medianLocked`; the sorted list has `wn` elements, so the indices are in range when `wn` is
  -- positive, as it is at the only call.
  unfoldable pub median : Estimator → Float
  median e =
      let vals = sort_floats (map (λ (w : WindowSample). w.sec_per_point) (take e.wn e.window)) in
      let n = length vals in
      if n % 2 == 1
      then at_or_zero vals (n / 2)
      else divf (addf (at_or_zero vals (n / 2 - 1)) (at_or_zero vals (n / 2))) (of_nat 2)

  -- `secPerPoint > SpikeFactor*e.estimate`.
  abbrev pub is_spike : Estimator → Float → Bool
  is_spike e x = ltf (mulf (of_nat 3) e.estimate) x

  -- `(1-EWMAAlpha)*e.estimate + EWMAAlpha*secPerPoint`, with the constants 0.8 and 0.2.
  abbrev pub ewma : Float → Float → Float
  ewma old x = addf (mulf (divf (of_nat 4) (of_nat 5)) old) (mulf (divf (of_nat 1) (of_nat 5)) x)

  -- `Sample` up to the verdict: the counters, the estimate and the ring.
  unfoldable pub record_sample : Estimator → Float → Estimator
  record_sample e x =
      let spike = is_spike e x in
      record {
        estimate = if spike then e.estimate else ewma e.estimate x;
        window = set e.window e.wi (record { sec_per_point = x; spike = spike });
        wi = (e.wi + 1) % window_size;
        wn = if ltb e.wn window_size then e.wn + 1 else e.wn;
        samples = e.samples + 1;
        spikes = if spike then e.spikes + 1 else e.spikes;
      }

  -- `rate > BreachRate`, the constant 0.3.
  abbrev pub is_breach : Estimator → Bool
  is_breach e = ltf (divf (of_nat 3) (of_nat 10)) (rate e)

  -- `Sample`.
  unfoldable pub sample : Estimator → Float → Estimator × Option Adoption
  unfolding record_sample
  sample e x =
      let e' = record_sample e x in
      if ltb e'.wn window_size
      then (e', none)
      else if is_breach e'
      then (
        record e' { estimate = median e'; wi = 0; wn = 0 },
        some (record { prior = e'.estimate; adopted = median e'; spike_rate = rate e' }),
      )
      else (e', none)

  -- Several samples, the oldest first.
  unfoldable pub samples_run : Estimator → List Float → Estimator
  samples_run e [] = e
  samples_run e (x ∷ xs) = samples_run (sample e x).0 xs

  -- The ring is full size, and its cursor and fill lie inside it.
  pub record IsRing (e : Estimator) : Type 0 where
    pub size : length e.window ≡ window_size
    pub cursor : e.wi < window_size
    pub fill : e.wn ≤ window_size

  record_sample-IsRing : (e : Estimator) (x : Float) → IsRing e → IsRing (record_sample e x)
  unfolding record_sample
  record_sample-IsRing e x v =
      ground (arith, length-set e.window e.wi (record { sec_per_point = x; spike = is_spike e x }))

  -- A sample keeps the ring of the estimator in order: twenty slots, with the cursor inside them and
  -- at most twenty in use.
  pub sample-IsRing : (e : Estimator) (x : Float) → IsRing e → IsRing (sample e x).0
  unfolding sample
  sample-IsRing e x v = ground (arith, record_sample-IsRing e x v)

  pub new_estimator-IsRing : (seed : Float) → IsRing (new_estimator seed)
  unfolding new_estimator
  new_estimator-IsRing seed = omega arith

  fill_grows : (e : Estimator) (x : Float) → (sample e x).0.wn ≤ e.wn + 1
  unfolding sample
  fill_grows e x = ground arith

  quiet_below : (e : Estimator) (x : Float) → e.wn < 19 → (sample e x).1 ≡ none
  unfolding sample
  quiet_below e x h = ground arith

  fill-samples_run : (e : Estimator) (xs : List Float) → (samples_run e xs).wn ≤ e.wn + length xs
  unfolding samples_run
  fill-samples_run e [] = omega arith
  fill-samples_run e (x ∷ xs) = omega (arith, fill_grows e x, fill-samples_run (sample e x).0 xs)

  adoption_empties :
      (e : Estimator) (x : Float) {a : Adoption} → (sample e x).1 ≡ some a → (sample e x).0.wn ≡ 0
  unfolding sample
  adoption_empties e x h = ground arith

  -- After an adoption at least 19 further samples pass with no adoption, whatever
  -- they are.
  pub adoption_once :
      (e : Estimator) (x : Float) {a : Adoption} (xs : List Float) (y : Float)
      → (sample e x).1 ≡ some a
      → length xs < 19
      → (sample (samples_run (sample e x).0 xs) y).1 ≡ none
  adoption_once e x xs y h l =
      quiet_below (samples_run (sample e x).0 xs) y
        (omega (arith, fill-samples_run (sample e x).0 xs, adoption_empties e x h))
