-- ===== src/Cognition/Governor/Counters.antt =====
-- The two windows of the governor.
use script_world.Prelude.{◌<◌, ◌≡◌, ◌⊎◌, List, [], ◌∷◌, arith}
use script_world.Cognition.Floats.{Floats}
use script_world.Cognition.Governor.{
  Governor, Reading, fresh, watch, sample, run, shed_path, recover_path, breach_samples,
  recover_samples,
}

-- Both windows stay below their lengths, and at most one of them is open.
pub record IsWindowed (g : Governor) : Type 0 where
  pub breach_lt : g.breach < breach_samples
  pub recover_lt : g.recover < recover_samples
  pub exclusive : (g.breach ≡ 0) ⊎ (g.recover ≡ 0)

watch-IsWindowed : (g : Governor) (s : _) → IsWindowed g → IsWindowed (watch g s)
unfolding watch
watch-IsWindowed g s v = ground arith

module _ (F : Floats) where
  shed_path-IsWindowed :
      (g : Governor) (r : Reading F) → IsWindowed g → IsWindowed (shed_path F g r).0
  unfolding shed_path
  shed_path-IsWindowed g r v = ground arith

  recover_path-IsWindowed :
      (g : Governor) (r : Reading F) → IsWindowed g → IsWindowed (recover_path F g r).0
  unfolding recover_path
  recover_path-IsWindowed g r v = ground arith

  -- Every sample keeps both windows below their lengths and at most one of them open.
  pub sample-IsWindowed :
      (g : Governor) (r : Reading F) → IsWindowed g → IsWindowed (sample F g r).0
  unfolding sample
  sample-IsWindowed g r v = ground (
    arith,
    shed_path-IsWindowed (watch g r.effective) r (watch-IsWindowed g r.effective v),
    recover_path-IsWindowed (watch g r.effective) r (watch-IsWindowed g r.effective v),
  )

  -- After any run of samples from the fresh governor, the breach window stays below 5, the recovery
  -- window below 20, and at most one of them is open.
  pub run-IsWindowed : (rs : List (Reading F)) → IsWindowed (run F fresh rs)
  unfolding run
  run-IsWindowed [] = ground arith
  run-IsWindowed (r ∷ rs) = sample-IsWindowed (run F fresh rs) r (run-IsWindowed rs)
