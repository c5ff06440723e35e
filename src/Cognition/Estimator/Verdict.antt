-- ===== src/Cognition/Estimator/Verdict.antt =====
-- internal/cognition/estimate.go: a run of the estimator, against a plain list of its samples.
use script_world.Prelude.{
  ◌+◌, ◌≡◌, refl, sym, ◌∙◌, ap, true, false, ◌&&◌, Option, none, some, List, [], ◌∷◌, ◌++◌, map,
  arith, if◌then◌else◌, ltb, ◌==◌, length, take, length-append, inl, inr, Bool-cases, subst,
}
use script_world.Cognition.Floats.{Floats}
use script_world.Cognition.Estimator.{
  Estimator, Adoption, WindowSample, new_estimator, count_spikes, rate, median, record_sample,
  sample, is_breach, window_size,
}
use script_world.Cognition.Estimator.History.{
  History, middle, spike_share, noted, observe, samples_trace, observed_trace,
}
use script_world.Cognition.Estimator.Ring.{Keeps, take_all, length-recent, noted-Keeps}

module _ (F : Floats) where
  open F use {Float, ltf, addf, mulf, divf, of_nat, sort_floats}

  count_spikes-append :
      (xs ys : List (WindowSample F))
      → count_spikes F (xs ++ ys) ≡ count_spikes F xs + count_spikes F ys
  count_spikes-append [] ys = omega arith
  count_spikes-append (x ∷ xs) ys = omega (arith, count_spikes-append xs ys)

  map-append {ℓ} :
      {A : Type ℓ} {B : Type ℓ} (f : A → B) (xs ys : List A)
      → map f (xs ++ ys) ≡ map f xs ++ map f ys
  map-append f [] ys = refl
  map-append f (x ∷ xs) ys = ap (λ zs. f x ∷ zs) (map-append f xs ys)

  length-map {ℓ} :
      {A : Type ℓ} {B : Type ℓ} (f : A → B) (xs : List A) → length (map f xs) ≡ length xs
  length-map f [] = refl
  length-map f (x ∷ xs) = omega (arith, length-map f xs)

  abbrev value : WindowSample F → Float
  value w = w.sec_per_point

  -- A full ring, read from the cursor on.
  full-parts :
      (e : Estimator F) (h : History F) (v : Keeps F e h)
      → e.wn ≡ 20
      → (h.recent ≡ v.old ++ v.past) × (take e.wn e.window ≡ v.past ++ v.old)
  full-parts e h v full =
      let s = v.size in
      let r = v.room in
      let whole : take e.wn e.window ≡ v.past ++ v.old =
        rw (full, v.parts)
          (take_all F 20 (v.past ++ v.old) (omega (arith, length-append v.past v.old))) in
      (elim v.mode [ inl (_, q) ↦ q | inr (filling, _) ↦ absurd (omega arith) ], whole)

  rate_full :
      (e : Estimator F) (h : History F)
      → Keeps F e h
      → e.wn ≡ 20
      → rate F e ≡ spike_share F h.recent
  unfolding rate
  rate_full e h v full =
      let (q, w) = full-parts e h v full in
      let n : count_spikes F (take e.wn e.window) ≡ count_spikes F h.recent =
        rw (q, w)
          (omega (arith, count_spikes-append v.past v.old, count_spikes-append v.old v.past)) in
      let z : (e.wn == 0) ≡ false = ground arith in rw (z, n, full, rate) refl

  -- What `sort.Float64s` does: as many values, and the same ones whatever their order was.
  pub record IsSorting : Type 0 where
    pub kept : (xs : List Float) → length (sort_floats xs) ≡ length xs
    pub alike : (xs ys : List Float) → sort_floats (xs ++ ys) ≡ sort_floats (ys ++ xs)

  module _ (sorts : IsSorting) where
    median_full :
        (e : Estimator F) (h : History F) → Keeps F e h → e.wn ≡ 20 → median F e ≡ middle F h.recent
    unfolding median
    median_full e h v full =
        let (q, w) = full-parts e h v full in
        let vals : sort_floats (map value (take e.wn e.window)) ≡ sort_floats (map value h.recent) =
          rw (q, w, map-append value v.past v.old, map-append value v.old v.past)
            (sorts.alike (map value v.past) (map value v.old)) in
        let n : length (sort_floats (map value h.recent)) ≡ 20 =
          sorts.kept (map value h.recent)
          ∙ (length-map value h.recent ∙ (length-recent F e h v ∙ full)) in
        rw (vals, n, median) refl

    -- The end of `Sample`, and of what it is compared with.
    abbrev judge : Estimator F → Estimator F × Option (Adoption F)
    judge e =
        if ltb e.wn window_size
        then (e, none)
        else if is_breach F e
        then (
          record e { estimate = median F e; wi = 0; wn = 0 },
          some (record { prior = e.estimate; adopted = median F e; spike_rate = rate F e }),
        )
        else (e, none)

    abbrev ruling : History F → History F × Option (Adoption F)
    ruling h =
        if length h.recent == 20 && ltf (divf (of_nat 3) (of_nat 10)) (spike_share F h.recent)
        then (
          record { estimate = middle F h.recent; recent = [] },
          some (record {
            prior = h.estimate;
            adopted = middle F h.recent;
            spike_rate = spike_share F h.recent;
          }),
        )
        else (h, none)

    adopted-Keeps :
        (e : Estimator F) (h : History F) (z : Float)
        → Keeps F e h
        → Keeps F (record e { estimate = z; wi = 0; wn = 0 }) (record { estimate = z; recent = [] })
    adopted-Keeps e h z v = record {
      past = [];
      old = e.window;
      parts = refl;
      cursor = refl;
      size = (let p = ap length v.parts in omega (arith, length-append v.past v.old, p, v.size));
      room = omega arith;
      same = refl;
      mode = inr (refl, refl);
    }

    fill-Keeps : (e : Estimator F) (h : History F) → Keeps F e h → ltb e.wn 20 ≡ false → e.wn ≡ 20
    fill-Keeps e h v more = elim v.mode [
      | inl (f, _) ↦ f
      | inr (f, _) ↦ absurd (let r = v.room in ground arith)
    ]

    abbrev adoption : Float → Float → Float → Adoption F
    adoption a b c = record { prior = a; adopted = b; spike_rate = c }

    adoption_same :
        {a a' b b' c c' : Float}
        → a ≡ a'
        → b ≡ b'
        → c ≡ c'
        → some (adoption a b c) ≡ some (adoption a' b' c')
    adoption_same p q r = rw (p, q, r) refl

    judge-ruling :
        (e : Estimator F) (h : History F)
        → Keeps F e h
        → ((judge e).1 ≡ (ruling h).1) × Keeps F (judge e).0 (ruling h).0
    judge-ruling e h v =
        let n : length h.recent ≡ e.wn = length-recent F e h v in
        elim (Bool-cases (ltb e.wn window_size)) [
          | inl less ↦
              let short : (length h.recent == 20) ≡ false = ground arith in
              rw (less, short) (refl, v)
          | inr more ↦
              let full = fill-Keeps e h v more in
              let twenty : (length h.recent == 20) ≡ true = ground arith in
              let q = rate_full e h v full in
              let mid = median_full e h v full in
              elim (Bool-cases (ltf (divf (of_nat 3) (of_nat 10)) (spike_share F h.recent))) [
                | inl b ↦
                    let breach : is_breach F e ≡ true =
                      ap (ltf (divf (of_nat 3) (of_nat 10))) q ∙ b in
                    rw (more, twenty, breach, b)
                      (
                        adoption_same v.same mid q,
                        subst
                            (λ (z : Float).
                              Keeps F (record e { estimate = z; wi = 0; wn = 0 })
                                (record { estimate = middle F h.recent; recent = [] }))
                            (sym mid) (adopted-Keeps e h (middle F h.recent) v),
                      )
                | inr b ↦
                    let calm : is_breach F e ≡ false =
                      ap (ltf (divf (of_nat 3) (of_nat 10))) q ∙ b in
                    rw (more, twenty, calm, b) (refl, v)
              ]
        ]

    sample-observe :
        (e : Estimator F) (h : History F) (x : Float)
        → Keeps F e h
        → ((sample F e x).1 ≡ (observe F h x).1) × Keeps F (sample F e x).0 (observe F h x).0
    unfolding sample observe
    sample-observe e h x v =
        judge-ruling (record_sample F e x) (noted F h x) (noted-Keeps F e h x v)

    trace_cons :
        {a a' : Float} {b b' : Option (Adoption F)} {l l' : List (Float × Option (Adoption F))}
        → a ≡ a'
        → b ≡ b'
        → l ≡ l'
        → ((a, b) ∷ l) ≡ ((a', b') ∷ l')
    trace_cons p q r = rw (p, q, r) refl

    Keeps-trace :
        (e : Estimator F) (h : History F) (xs : List Float)
        → Keeps F e h
        → samples_trace F e xs ≡ observed_trace F h xs
    unfolding samples_trace observed_trace
    Keeps-trace e h [] v = refl
    Keeps-trace e h (x ∷ xs) v =
        let (same, w) = sample-observe e h x v in
        let rest = Keeps-trace (sample F e x).0 (observe F h x).0 xs w in
        trace_cons w.same same rest

    new-Keeps :
        (seed : Float) → Keeps F (new_estimator F seed) (record { estimate = seed; recent = [] })
    unfolding new_estimator
    new-Keeps seed = record {
      past = [];
      old = (new_estimator F seed).window;
      parts = refl;
      cursor = refl;
      size = refl;
      room = omega arith;
      same = refl;
      mode = inr (refl, refl);
    }

    -- Over any run of samples from a new estimator, with a sort that returns as many values and the
    -- same ones whatever their order was, each estimate and each verdict is what a plain list of the
    -- newest F twenty samples since the last adoption gives: a sample above three times the estimate is
    -- a spike and moves nothing, another moves the estimate by a fifth; once there are twenty, more
    -- than three tenths of them spikes, the mean of the two in the middle F becomes the estimate, the
    -- verdict says so with the estimate before and the rate, and all of them are forgotten.
    pub samples_trace-observed :
        (seed : Float) (xs : List Float)
        → samples_trace F (new_estimator F seed) xs
          ≡ observed_trace F (record { estimate = seed; recent = [] }) xs
    samples_trace-observed seed xs = Keeps-trace (new_estimator F seed) _ xs (new-Keeps seed)
