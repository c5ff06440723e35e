-- ===== src/Sim/Hail/Turns.antt =====
-- internal/sim/hail.go: the turns of the sweep of a tick.
use script_world.Prelude.{
  inl, inr, ℕ, zero, suc, ◌+◌, ◌≡◌, refl, sym, subst, true, false, some, List, [], ◌∷◌, get_elem?,
  leb, some-injective, arith,
}
use script_world.Prelude.Int.{ℤ, pos}
use mathlib.Core.List.{Memᴰ}
use mathlib.Core.List.Memᴰ
use script_world.Sim.State.{State, Agent, AgentHail}
use script_world.Sim.Event.{Event}
use script_world.Sim.Hail.{arrived, hail_beat, hail_sweep}

module _ (s : State) (talk : ℤ → ℤ → List Event) (next : ℕ) where
  -- The sweep's events hold those of every agent's turn.
  pub sweep-beat :
      (agents : List Agent) (from n i : ℕ) (a : Agent)
      → i ≡ from + n
      → get_elem? agents n ≡ some a
      → (e : Event) → Memᴰ e (hail_beat s talk next (pos i) a)
      → Memᴰ e (hail_sweep s talk next from agents)
  unfolding hail_sweep
  sweep-beat [] from n i a at_i h e m = absurd (cc h)
  sweep-beat (b ∷ rest) from zero i a at_i h e m =
      let same : i ≡ from = omega arith in
      Memᴰ.append_left _ (
        subst (λ z. Memᴰ e (hail_beat s talk next (pos z) b)) same
          (subst (λ z. Memᴰ e (hail_beat s talk next (pos i) z)) (sym (some-injective _ _ h)) m))
  sweep-beat (b ∷ rest) from (suc n) i a at_i h e m =
      Memᴰ.append_right (hail_beat s talk next (pos from) b)
        (sweep-beat rest (suc from) n i a (omega arith) h e m)

  pub beat_meets :
      (i : ℤ) (a : Agent) (h : AgentHail)
      → a.hail ≡ some h
      → arrived s h a ≡ true
      → Memᴰ (Event.hail_met h.by i) (hail_beat s talk next i a)
  unfolding hail_beat
  beat_meets i a h e there = rw (e, there, hail_beat) (Memᴰ.head refl)

  pub beat_expires :
      (i : ℤ) (a : Agent) (h : AgentHail)
      → a.hail ≡ some h
      → arrived s h a ≡ false
      → leb h.until next ≡ true
      → Memᴰ (Event.hail_expired h.by i) (hail_beat s talk next i a)
  unfolding hail_beat
  beat_expires i a h e away late = rw (e, away, late, hail_beat) (Memᴰ.head refl)

  -- What the sweep's events hold is of some agent's turn.
  pub beat-sweep :
      (agents : List Agent) (from : ℕ) (e : Event)
      → Memᴰ e (hail_sweep s talk next from agents)
      → (n : ℕ) × (a : Agent) × (get_elem? agents n ≡ some a)
        × Memᴰ e (hail_beat s talk next (pos (from + n)) a)
  unfolding hail_sweep
  beat-sweep [] from e m = elim m [ ]
  beat-sweep (b ∷ rest) from e m = elim (Memᴰ.append_cases (hail_beat s talk next (pos from) b) m) [
    | inl k ↦ (0, b, refl, subst (λ z. Memᴰ e (hail_beat s talk next (pos z) b)) (omega arith) k)
    | inr k ↦
        let (n, a, g, w) = beat-sweep rest (suc from) e k in
        (suc n, a, g, subst (λ z. Memᴰ e (hail_beat s talk next (pos z) a)) (omega arith) w)
  ]
