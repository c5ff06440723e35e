-- ===== src/Cognition/Debt.antt =====
-- internal/cognition/governor.go: `Debt`, the sum of the staleness of the pending thoughts as
-- fractions of their budgets.
use script_world.Prelude.{
  ℕ, ◌+◌, ◌≡◌, true, false, Option, none, some, List, [], ◌∷◌, arith, if◌then◌else◌, length,
  Bool-cases, Option-cases, inl, inr,
}
use mathlib.Core.List.{foldl}
use script_world.Cognition.Floats.{Floats}
use script_world.Cognition.Registry.{CallKind, DecisionClass, class_for_kind}

module _ (F : Floats) where
  open F use {Float, ltf, lef, addf, subf, mulf, divf, of_nat}

  pub record PendingDebtInput : Type 0 where
    pub kind : CallKind
    pub predicted_sec : Float
    pub elapsed_sec : Float

  -- The seconds of one thought: what remains of its prediction, or all that has passed once the
  -- prediction is overrun.
  unfoldable pub staleness : PendingDebtInput → Float
  staleness p =
      if lef p.predicted_sec p.elapsed_sec
      then p.elapsed_sec
      else subf p.predicted_sec p.elapsed_sec

  -- The loop of `Debt`, with the accumulators `debt` and `jobs`.
  debt_loop : Float → Float → ℕ → List PendingDebtInput → Float × ℕ
  unfolding staleness
  debt_loop tps debt jobs [] = (debt, jobs)
  debt_loop tps debt jobs (p ∷ ps) = elim (class_for_kind p.kind) [
    | none ↦ debt_loop tps debt jobs ps
    | some dc ↦
        let fraction = divf (mulf (staleness p) tps) (of_nat dc.budget_ticks) in
        elim (ltf (of_nat 0) fraction) [
          | true ↦ debt_loop tps (addf debt fraction) (jobs + 1) ps
          | false ↦ debt_loop tps debt jobs ps
        ]
  ]

  unfoldable pub debt : List PendingDebtInput → Float → Float × ℕ
  unfolding debt_loop
  debt pending tps =
      if lef tps (of_nat 0) then (of_nat 0, 0) else debt_loop tps (of_nat 0) 0 pending

  -- The fractions of the contract specs/033: one for each thought of a registered kind, and only
  -- the positive ones.
  abbrev pub push_positive : Float → List Float → List Float
  push_positive f fs = if ltf (of_nat 0) f then f ∷ fs else fs

  abbrev pub fraction_of : Float → PendingDebtInput → DecisionClass → Float
  fraction_of tps p dc =
      divf
        (mulf
          (if lef p.predicted_sec p.elapsed_sec
            then p.elapsed_sec
            else subf p.predicted_sec p.elapsed_sec)
          tps)
        (of_nat dc.budget_ticks)

  abbrev pub add_fraction :
      Float → PendingDebtInput → Option DecisionClass → List Float → List Float
  add_fraction tps p none fs = fs
  add_fraction tps p (some dc) fs = push_positive (fraction_of tps p dc) fs

  abbrev pub fractions : Float → List PendingDebtInput → List Float
  fractions tps [] = []
  fractions tps (p ∷ ps) = add_fraction tps p (class_for_kind p.kind) (fractions tps ps)

  debt_loop_lem :
      (tps d : Float) (n : ℕ) (ps : List PendingDebtInput)
      → debt_loop tps d n ps ≡ (foldl addf d (fractions tps ps), n + length (fractions tps ps))
  unfolding debt_loop
  debt_loop_lem tps d n [] = ground arith
  debt_loop_lem tps d n (p ∷ ps) = elim (Option-cases (class_for_kind p.kind)) [
    | inl e ↦ rw (e, debt_loop) (debt_loop_lem tps d n ps)
    | inr (dc, e) ↦ elim (Bool-cases (ltf (of_nat 0) (fraction_of tps p dc))) [
      | inl t ↦
          rw (e, t, debt_loop)
            (ground (arith, debt_loop_lem tps (addf d (fraction_of tps p dc)) (n + 1) ps))
      | inr t ↦ rw (e, t, debt_loop) (debt_loop_lem tps d n ps)
    ]
  ]

  -- At a capped speed the debt is the sum, from the left, of the positive fractions of the
  -- thoughts of registered kinds, and `jobs` counts exactly these; at an uncapped speed both are 0.
  pub debt-sum :
      (ps : List PendingDebtInput) (tps : Float)
      → debt ps tps ≡ (
          if lef tps (of_nat 0)
          then (of_nat 0, 0)
          else (foldl addf (of_nat 0) (fractions tps ps), length (fractions tps ps)))
  unfolding debt
  debt-sum ps tps = ground (arith, debt_loop_lem tps (of_nat 0) 0 ps)
