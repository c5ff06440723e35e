-- ===== src/Cognition/Governor/Notch.antt =====
-- Where the governor's decisions lead: one notch along the ladder, inside its bounds.
use script_world.Prelude.{
  ℕ, zero, suc, ◌≤◌, ◌<◌, ◌≡◌, inl, inr, refl, true, some, arith, Bool-cases,
}
use script_world.Clock.Ladder.{Speed, ladder_index}
use script_world.Cognition.Floats.{Floats}
use script_world.Cognition.Governor.{
  Governor, Action, hold, shed, recover_up, Reading, Decision, watch, sample, shed_path,
  recover_path, ladder_at, is_breaching, has_headroom,
}

ladder_at_index : (i : ℕ) → i < 5 → ladder_index (ladder_at i) ≡ some i
unfolding ladder_at ladder_index
ladder_at_index zero h = refl
ladder_at_index (suc zero) h = refl
ladder_at_index (suc (suc zero)) h = refl
ladder_at_index (suc (suc (suc zero))) h = refl
ladder_at_index (suc (suc (suc (suc zero)))) h = refl
ladder_at_index (suc (suc (suc (suc (suc i))))) h = absurd (omega arith)

ladder_index-lt : (s : Speed) (i : ℕ) → ladder_index s ≡ some i → i < 5
unfolding ladder_index
ladder_index-lt s i h = ground arith

-- Where a decision of each kind may lead, from the effective speed and under the requested one.
abbrev pub LeadsTo : Action → Speed → Speed → Speed → Type 0
LeadsTo hold eff req to = to ≡ eff
LeadsTo shed eff req to = (i : ℕ) × (ladder_index eff ≡ some (suc i)) × (ladder_index to ≡ some i)
LeadsTo recover_up eff req to =
    (i : ℕ) × (r : ℕ) × (ladder_index eff ≡ some i)
    × (ladder_index req ≡ some r)
    × (ladder_index to ≡ some (suc i))
    × (suc i ≤ r)

module _ (F : Floats) where
  abbrev Leads : Reading F → Decision F → Type 0
  Leads r d = LeadsTo d.action r.effective r.requested d.to

  lower-index :
      (r : Reading F)
      → is_breaching F r ≡ true
      → (i : ℕ) × (ladder_index r.effective ≡ some (suc i))
  lower-index r h = ground arith

  room-index :
      (r : Reading F)
      → has_headroom F r ≡ true
      → (i : ℕ) × (k : ℕ) × (ladder_index r.effective ≡ some i)
        × (ladder_index r.requested ≡ some k)
        × (i < k)
  room-index r h = ground arith

  shed_path-Leads :
      (g : Governor) (r : Reading F) → is_breaching F r ≡ true → Leads r (shed_path F g r).1
  unfolding shed_path
  shed_path-Leads g r h =
      let (i, e) = lower-index r h in
      ground (arith, ladder_at_index i, ladder_index-lt r.effective (suc i))

  recover_path-Leads : (g : Governor) (r : Reading F) → Leads r (recover_path F g r).1
  unfolding recover_path
  recover_path-Leads g r = elim (Bool-cases (has_headroom F r)) [
    | inl h ↦
        let (i, k, e, q, l) = room-index r h in
        ground (arith, ladder_at_index (suc i), ladder_index-lt r.requested k)
    | inr h ↦ ground arith
  ]

  -- A shed leads exactly one notch down, so never below 1x; a recovery exactly one notch up, and
  -- never above the requested speed; any other sample holds the effective speed.
  pub sample-LeadsTo :
      (g : Governor) (r : Reading F)
      → let d = (sample F g r).1 in LeadsTo d.action r.effective r.requested d.to
  unfolding sample
  sample-LeadsTo g r = elim (Bool-cases r.paused) [
    | inl p ↦ rw (p, sample)
    | inr p ↦ elim (Bool-cases (is_breaching F r)) [
      | inl b ↦ rw (p, b, sample) (shed_path-Leads (watch g r.effective) r b)
      | inr b ↦ rw (p, b, sample) (recover_path-Leads (watch g r.effective) r)
    ]
  ]
