-- ===== src/Cognition/Estimator/Ring.antt =====
-- internal/cognition/estimate.go: the ring of the estimator holds the newest samples.
use script_world.Prelude.{
  ℕ, zero, suc, ◌+◌, ◌<◌, ◌≡◌, refl, sym, ◌∙◌, ap, true, false, List, [], ◌∷◌, ◌++◌, arith, ltb,
  ◌==◌, length, set, take, drop, length-append, ◌⊎◌, inl, inr, Bool-cases, subst,
}
use script_world.Cognition.Floats.{Floats}
use script_world.Cognition.Estimator.{Estimator, WindowSample, record_sample, is_spike}
use script_world.Cognition.Estimator.History.{History, newest, noted}

module _ (F : Floats) where
  open F use {Float, ltf, addf, mulf, divf, of_nat, sort_floats}

  -- The ring holds the samples: `past` before the cursor and `old` from it on.
  pub record Keeps (e : Estimator F) (h : History F) : Type 0 where
    pub past : List (WindowSample F)
    pub old : List (WindowSample F)
    pub parts : e.window ≡ past ++ old
    pub cursor : length past ≡ e.wi
    pub size : length past + length old ≡ 20
    pub room : e.wi < 20
    pub same : e.estimate ≡ h.estimate
    pub mode : ((e.wn ≡ 20) × (h.recent ≡ old ++ past)) ⊎ ((e.wn ≡ e.wi) × (h.recent ≡ past))

  pub set_at {ℓ} :
      {A : Type ℓ} (xs : List A) (y : A) (ys : List A) (w : A)
      → set (xs ++ y ∷ ys) (length xs) w ≡ xs ++ w ∷ ys
  set_at [] y ys w = refl
  set_at (x ∷ xs) y ys w = ap (λ zs. x ∷ zs) (set_at xs y ys w)

  pub append_nil {ℓ} : {A : Type ℓ} (xs : List A) → xs ++ [] ≡ xs
  append_nil [] = refl
  append_nil (x ∷ xs) = ap (λ zs. x ∷ zs) (append_nil xs)

  pub append_assoc {ℓ} : {A : Type ℓ} (xs ys zs : List A) → (xs ++ ys) ++ zs ≡ xs ++ (ys ++ zs)
  append_assoc [] ys zs = refl
  append_assoc (x ∷ xs) ys zs = ap (λ us. x ∷ us) (append_assoc xs ys zs)

  pub take_all {ℓ} : {A : Type ℓ} (n : ℕ) (xs : List A) → length xs ≡ n → take n xs ≡ xs
  take_all zero [] h = refl
  take_all (suc n) [] h = refl
  take_all zero (x ∷ xs) h = absurd (omega arith)
  take_all (suc n) (x ∷ xs) h = ap (λ us. x ∷ us) (take_all n xs (omega arith))

  pub length-recent : (e : Estimator F) (h : History F) → Keeps e h → length h.recent ≡ e.wn
  length-recent e h v = elim v.mode [
    | inl (full, r) ↦ rw (r, full) (omega (arith, length-append v.old v.past, v.size))
    | inr (filling, r) ↦ rw (r, filling) v.cursor
  ]

  newest_full :
      (r : List (WindowSample F)) (w : WindowSample F)
      → length r ≡ 20
      → newest F r w ≡ drop 1 r ++ w ∷ []
  newest_full r w n = let t : (length r == 20) ≡ true = ground arith in rw t refl

  newest_short :
      (r : List (WindowSample F)) (w : WindowSample F) → length r < 20 → newest F r w ≡ r ++ w ∷ []
  newest_short r w n = let t : (length r == 20) ≡ false = ground arith in rw t refl

  module _ (e : Estimator F) (x : Float) (past os : List (WindowSample F)) (o : WindowSample F)
      (parts : e.window ≡ past ++ o ∷ os) (cursor : length past ≡ e.wi)
      (size : length past + length os ≡ 19) where
    abbrev slot : WindowSample F
    slot = record { sec_per_point = x; spike = is_spike F e x }

    abbrev seen_by : List (WindowSample F) → History F
    seen_by r = noted F (record { estimate = e.estimate; recent = r }) x

    written : (record_sample F e x).window ≡ past ++ slot ∷ os
    unfolding record_sample
    written =
        ap (λ z. set z e.wi slot) parts
        ∙ (ap (λ n. set (past ++ o ∷ os) n slot) (sym cursor) ∙ set_at past o os slot)

    step_on :
        e.wi + 1 < 20
        → (r : List (WindowSample F))
        → ((e.wn ≡ 20) × (r ≡ (o ∷ os) ++ past)) ⊎ ((e.wn ≡ e.wi) × (r ≡ past))
        → Keeps (record_sample F e x) (seen_by r)
    unfolding record_sample
    step_on more r mode = record {
      past = past ++ slot ∷ [];
      old = os;
      parts = written ∙ sym (append_assoc past (slot ∷ []) os);
      cursor = omega (arith, length-append past (slot ∷ []));
      size = omega (arith, length-append past (slot ∷ []));
      room = omega arith;
      same = refl;
      mode = elim mode [
        | inl (full, q) ↦ inl (
          (ground arith),
          newest_full r slot (rw q (omega (arith, length-append os past)))
              ∙ (ap (λ z. drop 1 z ++ slot ∷ []) q ∙ append_assoc os past (slot ∷ [])),
        )
        | inr (filling, q) ↦
            inr (
              (ground arith),
              newest_short r slot (rw q (omega arith)) ∙ ap (λ z. z ++ slot ∷ []) q,
            )
      ];
    }

    step_round :
        e.wi + 1 ≡ 20
        → os ≡ []
        → (r : List (WindowSample F))
        → ((e.wn ≡ 20) × (r ≡ (o ∷ os) ++ past)) ⊎ ((e.wn ≡ e.wi) × (r ≡ past))
        → Keeps (record_sample F e x) (seen_by r)
    unfolding record_sample
    step_round last none_left r mode = record {
      past = [];
      old = past ++ slot ∷ [];
      parts = written ∙ ap (λ z. past ++ slot ∷ z) none_left;
      cursor = omega arith;
      size = omega (arith, length-append past (slot ∷ []));
      room = omega arith;
      same = refl;
      mode = inl (
        (ground arith),
        elim mode [
          | inl (full, q) ↦
              newest_full r slot (rw q (omega (arith, length-append os past)))
              ∙ (ap (λ z. drop 1 z ++ slot ∷ []) q
                  ∙ (ap (λ z. (z ++ past) ++ slot ∷ []) none_left
                      ∙ sym (append_nil (past ++ slot ∷ []))))
          | inr (filling, q) ↦
              newest_short r slot (rw q (omega arith))
              ∙ (ap (λ z. z ++ slot ∷ []) q ∙ sym (append_nil (past ++ slot ∷ [])))
        ],
      );
    }

  pub length_zero {ℓ} : {A : Type ℓ} (xs : List A) → length xs ≡ 0 → xs ≡ []
  length_zero [] h = refl
  length_zero (x ∷ xs) h = absurd (omega arith)

  pub noted-Keeps :
      (e : Estimator F) (h : History F) (x : Float)
      → Keeps e h
      → Keeps (record_sample F e x) (noted F h x)
  noted-Keeps e h x v =
      subst
        (λ (z : Float).
          Keeps (record_sample F e x) (noted F (record { estimate = z; recent = h.recent }) x))
        v.same (go v.old refl)
    where
      go :
          (old : List (WindowSample F))
          → old ≡ v.old
          → Keeps
              (record_sample F e x)
              (noted F (record { estimate = e.estimate; recent = h.recent }) x)
      go [] q = absurd (
          let l = ap length q in
          let s = v.size in let c = v.cursor in let r = v.room in omega arith)
      go (o ∷ os) q =
          let l : suc (length os) ≡ length v.old = ap length q in
          let s = v.size in
          let c = v.cursor in
          let r = v.room in
          let parts : e.window ≡ v.past ++ o ∷ os = v.parts ∙ ap (λ z. v.past ++ z) (sym q) in
          let size : length v.past + length os ≡ 19 = omega arith in
          let mode =
            subst
              (λ z.
                ((e.wn ≡ 20) × (h.recent ≡ z ++ v.past)) ⊎ ((e.wn ≡ e.wi) × (h.recent ≡ v.past)))
              (sym q) v.mode in
          elim (Bool-cases (ltb (e.wi + 1) 20)) [
            | inl m ↦ step_on e x v.past os o parts c size (ground arith) h.recent mode
            | inr m ↦
                step_round e x v.past os o parts c size (ground arith)
                  (length_zero os (ground arith)) h.recent mode
          ]
