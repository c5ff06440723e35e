-- ===== src/Sim/Social/Base.antt =====
-- What holds of the village that an arm of internal/sim/social.go leaves, on every path that does
-- not panic.
use script_world.Prelude.{◌≡◌, refl, subst, Bool, true, false, Option, none, some, if◌then◌else◌}
use script_world.Sim.Social.{Village, Outcome, SocialError}

abbrev pub Leaves {ℓ} : (Village → Type ℓ) → Outcome → Type ℓ
Leaves P none = Unit
Leaves P (some (v, _)) = P v

module _ {ℓ} (P : Village → Type ℓ) where
  pub Leaves-some :
      (o : Outcome) (v : Village) (err : Option SocialError) → Leaves P o → o ≡ some (v, err) → P v
  Leaves-some none v err h e = absurd (cc e)
  Leaves-some (some (u, _)) v err h e = subst P (cc e) h

  -- Both branches of a test.
  pub Leaves-if :
      (b : Bool) (o o' : Outcome) → Leaves P o → Leaves P o' → Leaves P (if b then o else o')
  Leaves-if true o o' h k = h
  Leaves-if false o o' h k = k

  -- A lookup that panics, and one that is refused.
  pub Leaves-found {κ} :
      {A : Type κ} (x : Option A) (miss : Outcome) (hit : A → Outcome)
      → Leaves P miss
      → ((a : A) → x ≡ some a → Leaves P (hit a))
      → Leaves P (elim x [ none ↦ miss | some a ↦ hit a ])
  Leaves-found none miss hit h k = h
  Leaves-found (some a) miss hit h k = k a refl
