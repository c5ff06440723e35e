-- ===== src/Cognition/Estimator/History.antt =====
-- internal/cognition/estimate.go: what the estimator is compared with: a plain list of the newest
-- twenty samples since the last adoption.
use script_world.Prelude.{
  ℕ, ◌&&◌, Option, none, some, List, [], ◌∷◌, ◌++◌, map, if◌then◌else◌, ◌==◌, length, get_elem?,
  drop,
}
use script_world.Cognition.Floats.{Floats}
use script_world.Cognition.Estimator.{Estimator, Adoption, WindowSample, count_spikes, sample}

module _ (F : Floats) where
  open F use {Float, ltf, addf, mulf, divf, of_nat, sort_floats}

  -- The estimate, and the samples that the next verdict is on, the oldest first.
  pub record History : Type 0 where
    pub estimate : Float
    pub recent : List (WindowSample F)

  -- The twenty newest.
  abbrev pub newest : List (WindowSample F) → WindowSample F → List (WindowSample F)
  newest r w = (if length r == 20 then drop 1 r else r) ++ w ∷ []

  abbrev pub entry : List Float → ℕ → Float
  entry xs i = elim (get_elem? xs i) [ none ↦ of_nat 0 | some x ↦ x ]

  -- The mean of the tenth and the eleventh of twenty values in order.
  abbrev pub middle : List (WindowSample F) → Float
  middle r =
      let vals = sort_floats (map (λ (w : WindowSample F). w.sec_per_point) r) in
      divf (addf (entry vals 9) (entry vals 10)) (of_nat 2)

  abbrev pub spike_share : List (WindowSample F) → Float
  spike_share r = divf (of_nat (count_spikes F r)) (of_nat 20)

  abbrev pub seen : History → Float → WindowSample F
  seen h x = record { sec_per_point = x; spike = ltf (mulf (of_nat 3) h.estimate) x }

  abbrev pub noted : History → Float → History
  noted h x = record {
    estimate =
        if (seen h x).spike
        then h.estimate
        else addf (mulf (divf (of_nat 4) (of_nat 5)) h.estimate)
            (mulf (divf (of_nat 1) (of_nat 5)) x);
    recent = newest h.recent (seen h x);
  }

  -- A sample more than three times the estimate is a spike, and moves nothing. With twenty samples,
  -- more than three tenths of them spikes, the estimate becomes their median, and they are forgotten.
  unfoldable pub observe : History → Float → History × Option (Adoption F)
  observe h x =
      let h' = noted h x in
      if length h'.recent == 20 && ltf (divf (of_nat 3) (of_nat 10)) (spike_share h'.recent)
      then (
        record { estimate = middle h'.recent; recent = [] },
        some (record {
          prior = h'.estimate;
          adopted = middle h'.recent;
          spike_rate = spike_share h'.recent;
        }),
      )
      else (h', none)

  -- The estimates and the verdicts of a run.
  unfoldable pub samples_trace : Estimator F → List Float → List (Float × Option (Adoption F))
  unfolding sample
  samples_trace e [] = []
  samples_trace e (x ∷ xs) =
      let (e', verdict) = sample F e x in (e'.estimate, verdict) ∷ samples_trace e' xs

  unfoldable pub observed_trace : History → List Float → List (Float × Option (Adoption F))
  unfolding observe
  observed_trace h [] = []
  observed_trace h (x ∷ xs) =
      let (h', verdict) = observe h x in (h'.estimate, verdict) ∷ observed_trace h' xs
