-- ===== src/Cognition/Governor/Streak.antt =====
-- When the governor decides: after a full window of consecutive qualifying samples, and then.
use script_world.Prelude.{
  ℕ, zero, suc, ◌≤◌, ◌<◌, ◌≡◌, ◌⊎◌, inl, inr, refl, Bool, true, false, not, ◌&&◌, List, [], ◌∷◌,
  arith, Bool-cases, length, sym, ◌∙◌, subst,
}
use script_world.Clock.Ladder.{Speed, speed_eq, speed_eq→≡, speed_eq_refl}
use script_world.Cognition.Floats.{Floats}
use script_world.Cognition.Governor.{
  Governor, shed, recover_up, Reading, fresh, watch, sample, run, shed_path, recover_path,
  is_breaching, has_headroom, reset, breach_samples, recover_samples,
}

module _ (F : Floats) where
  -- The newest n readings all pass the test, unpaused and at the speed s.
  abbrev pub Streak : (Reading F → Bool) → ℕ → Speed → List (Reading F) → Type 0
  Streak test zero s rs = Unit
  Streak test (suc n) s [] = ⊥
  Streak test (suc n) s (r ∷ rs) =
      (test r ≡ true) × (r.paused ≡ false) × (r.effective ≡ s) × Streak test n s rs

  -- A sample that opens the recovery window further: not breaching, with headroom.
  abbrev pub is_recovering : Reading F → Bool
  is_recovering r = not (is_breaching F r) && has_headroom F r

  -- What a sample does to a window: it closes it, or opens it further after a qualifying sample.
  breach_step :
      (g : Governor) (r : Reading F)
      → ((sample F g r).0.breach ≡ 0)
        ⊎ ((is_breaching F r ≡ true)
            × (r.paused ≡ false)
            × ((sample F g r).0.last_eff ≡ r.effective)
            × ((sample F g r).0.breach ≡ suc (watch g r.effective).breach))
  unfolding sample shed_path recover_path watch reset
  breach_step g r = ground (arith, speed_eq→≡ r.effective g.last_eff)

  recover_step :
      (g : Governor) (r : Reading F)
      → ((sample F g r).0.recover ≡ 0)
        ⊎ ((is_recovering r ≡ true)
            × (r.paused ≡ false)
            × ((sample F g r).0.last_eff ≡ r.effective)
            × ((sample F g r).0.recover ≡ suc (watch g r.effective).recover))
  unfolding sample shed_path recover_path watch reset
  recover_step g r = ground (arith, speed_eq→≡ r.effective g.last_eff)

  -- A watched window is the old one at an unchanged speed, and empty otherwise.
  watch_cases :
      (g : Governor) (s : Speed)
      → (g.last_eff ≡ s) × (watch g s ≡ g) ⊎ ((watch g s).breach ≡ 0) × ((watch g s).recover ≡ 0)
  unfolding watch
  watch_cases g s = elim (Bool-cases (speed_eq s g.last_eff)) [
    | inl e ↦ inl (sym (speed_eq→≡ s g.last_eff e), rw e)
    | inr e ↦ inr (rw e, rw e)
  ]

  extend :
      (test : Reading F → Bool) (window : Governor → ℕ) (g : Governor) (r : Reading F)
      → (rs : List (Reading F)) → Streak test (window g) g.last_eff rs
      → (window (record { breach = 0; recover = 0; last_eff = r.effective }) ≡ 0)
      → Streak test (window (watch g r.effective)) r.effective rs
  unfolding watch
  extend test window g r rs h z = elim (Bool-cases (speed_eq r.effective g.last_eff)) [
    | inl e ↦ rw e (subst (λ s. Streak test (window g) s rs) (sym (speed_eq→≡ _ _ e)) h)
    | inr e ↦ rw (e, z) tt
  ]

  -- The open breach window is a streak of breaching readings at the last speed.
  breach-Streak :
      (rs : List (Reading F))
      → Streak (is_breaching F) (run F fresh rs).breach (run F fresh rs).last_eff rs
  unfolding run
  breach-Streak [] = tt
  breach-Streak (r ∷ rs) = elim (breach_step (run F fresh rs) r) [
    | inl z ↦ rw z tt
    | inr (b, p, l, w) ↦
        rw (w, l)
          (
            b,
            p,
            refl,
            extend (is_breaching F) (λ g. g.breach) (run F fresh rs) r rs (breach-Streak rs) refl,
          )
  ]

  recover-Streak :
      (rs : List (Reading F))
      → Streak is_recovering (run F fresh rs).recover (run F fresh rs).last_eff rs
  unfolding run
  recover-Streak [] = tt
  recover-Streak (r ∷ rs) = elim (recover_step (run F fresh rs) r) [
    | inl z ↦ rw z tt
    | inr (b, p, l, w) ↦
        rw (w, l)
          (
            b,
            p,
            refl,
            extend is_recovering (λ g. g.recover) (run F fresh rs) r rs (recover-Streak rs) refl,
          )
  ]

  shorten :
      (test : Reading F → Bool) (m n : ℕ) (s : Speed) (rs : List (Reading F))
      → m ≤ n
      → Streak test n s rs
      → Streak test m s rs
  shorten test zero n s rs l h = tt
  shorten test (suc m) zero s rs l h = absurd (omega arith)
  shorten test (suc m) (suc n) s [] l h = h
  shorten test (suc m) (suc n) s (r ∷ rs) l h =
      (h.0, h.1, h.2, shorten test m n s rs (omega arith) h.3)

  shed_needs :
      (g : Governor) (r : Reading F)
      → (sample F g r).1.action ≡ shed
      → (is_breaching F r ≡ true) × (r.paused ≡ false) × (4 ≤ (watch g r.effective).breach)
  unfolding sample shed_path recover_path reset
  shed_needs g r h = ground arith

  recover_needs :
      (g : Governor) (r : Reading F)
      → (sample F g r).1.action ≡ recover_up
      → (is_recovering r ≡ true) × (r.paused ≡ false) × (19 ≤ (watch g r.effective).recover)
  unfolding sample shed_path recover_path reset
  recover_needs g r h = ground arith

  -- A governor that started fresh sheds only on a sample that completes a full breach window: the
  -- newest five readings are all breaching, unpaused and at the same speed.
  pub shed-Streak :
      (rs : List (Reading F)) (r : Reading F)
      → (sample F (run F fresh rs) r).1.action ≡ shed
      → Streak (is_breaching F) breach_samples r.effective (r ∷ rs)
  shed-Streak rs r h =
      let (b, p, w) = shed_needs (run F fresh rs) r h in
      (
        b,
        p,
        refl,
        shorten (is_breaching F) 4 _ r.effective rs w
            (extend (is_breaching F) (λ g. g.breach) (run F fresh rs) r rs (breach-Streak rs) refl),
      )

  -- A governor that started fresh recovers only on a sample that completes a full recovery window:
  -- the newest twenty
  -- readings all have headroom, none is breaching or paused, and the speed is the same.
  pub recover_up-Streak :
      (rs : List (Reading F)) (r : Reading F)
      → (sample F (run F fresh rs) r).1.action ≡ recover_up
      → Streak is_recovering recover_samples r.effective (r ∷ rs)
  recover_up-Streak rs r h =
      let (b, p, w) = recover_needs (run F fresh rs) r h in
      (
        b,
        p,
        refl,
        shorten is_recovering 19 _ r.effective rs w
            (extend is_recovering (λ g. g.recover) (run F fresh rs) r rs (recover-Streak rs) refl),
      )

  breach_grows :
      (g : Governor) (r : Reading F) (k : ℕ)
      → is_breaching F r ≡ true
      → r.paused ≡ false
      → (watch g r.effective).breach ≡ k
      → k < 4
      → ((sample F g r).0.breach ≡ suc k) × ((sample F g r).0.last_eff ≡ r.effective)
  unfolding sample shed_path watch
  breach_grows g r k b p w l = ground (arith, speed_eq→≡ r.effective g.last_eff)

  watch_same : (g : Governor) (s : Speed) → g.last_eff ≡ s → watch g s ≡ g
  unfolding watch
  watch_same g s e = rw (e, speed_eq_refl s)

  watch_breach_zero : (g : Governor) (s : Speed) → g.breach ≡ 0 → (watch g s).breach ≡ 0
  unfolding watch
  watch_breach_zero g s e = ground arith

  -- The breach window counts a streak that follows a closed window.
  breach_counts :
      (g : Governor) (s : Speed) (k : ℕ) (rs : List (Reading F))
      → g.breach ≡ 0
      → k < 5
      → length rs ≡ k
      → Streak (is_breaching F) k s rs
      → (watch (run F g rs) s).breach ≡ k
  unfolding run
  breach_counts g s zero [] z l n h = watch_breach_zero g s z
  breach_counts g s zero (r ∷ rs) z l n h = absurd (omega arith)
  breach_counts g s (suc k) [] z l n h = absurd (omega arith)
  breach_counts g s (suc k) (r ∷ rs) z l n (b, p, e, h) =
      let ih = breach_counts g s k rs z (omega arith) (omega arith) h in
      let (w, last) = breach_grows (run F g rs) r k b p (rw e ih) (omega arith) in
      rw (watch_same (sample F (run F g rs) r).0 s (last ∙ e)) w

  shed_fires :
      (g : Governor) (r : Reading F)
      → is_breaching F r ≡ true
      → r.paused ≡ false
      → (watch g r.effective).breach ≡ 4
      → (sample F g r).1.action ≡ shed
  unfolding sample shed_path
  shed_fires g r b p w = ground arith

  -- From a governor whose breach window is closed, five readings that are all breaching, unpaused
  -- and at one speed end in a shed.
  pub Streak-shed :
      (g : Governor) (s : Speed) (r : Reading F) (rs : List (Reading F))
      → g.breach ≡ 0
      → length rs ≡ 4
      → Streak (is_breaching F) breach_samples s (r ∷ rs)
      → (sample F (run F g rs) r).1.action ≡ shed
  Streak-shed g s r rs z n (b, p, e, h) =
      shed_fires (run F g rs) r b p (rw e (breach_counts g s 4 rs z (omega arith) n h))
