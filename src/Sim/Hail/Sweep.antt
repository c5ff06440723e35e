-- ===== src/Sim/Hail/Sweep.antt =====
-- internal/sim/hail.go: what the sweep of a tick emits for an agent that waits.
use script_world.Prelude.{
  inl, inr, ◌↔◌, Bool, Option-cases, Bool-cases, ◌⊎◌, ◌∙◌, ℕ, ◌+◌, ◌≤◌, ◌≡◌, refl, sym, subst, true,
  false, some, List, leb, some-injective, arith,
}
use script_world.Prelude.Int.{ℤ, pos, negsuc, dist_ℤ}
use mathlib.Core.List.{Memᴰ}
use script_world.Sim.State.{State, Agent, AgentHail, agent_at}
use script_world.Sim.Event.{Event}
use script_world.Sim.Hail.{arrived, hail_beat, hail_step}
use script_world.Sim.Hail.Turns.{sweep-beat, beat-sweep, beat_meets, beat_expires}

-- The events that lift a hail.
abbrev is_lift : Event → Bool
is_lift (Event.hail_met _ _) = true
is_lift (Event.hail_expired _ _) = true
is_lift _ = false

-- The talk of a meeting lifts no hail.
abbrev pub IsTalk : (ℤ → ℤ → List Event) → Type 0
IsTalk talk = (from to : ℤ) (e : Event) → Memᴰ e (talk from to) → is_lift e ≡ false

-- The agent waits for the hailer, who is alive, awake and on its tile or one beside it.
abbrev pub Meets : State → ℤ → ℤ → Type 0
Meets s by i =
    (a : Agent) × (h : AgentHail) × (o : Agent) × (agent_at s.agents i ≡ some a)
    × (a.hail ≡ some h)
    × (h.by ≡ by)
    × (agent_at s.agents by ≡ some o)
    × (o.dead ≡ false)
    × (o.asleep ≡ false)
    × (dist_ℤ o.x a.x + dist_ℤ o.y a.y ≤ 1)

-- The agent waits for the hailer, does not meet it, and the pause is over at the tick.
abbrev pub Expires : State → ℕ → ℤ → ℤ → Type 0
Expires s next by i =
    (a : Agent) × (h : AgentHail) × (agent_at s.agents i ≡ some a)
    × (a.hail ≡ some h)
    × (h.by ≡ by)
    × (h.until ≤ next)
    × ¬ Meets s by i

module _ (s : State) where
  arrived-Meets :
      (i : ℤ) (a : Agent) (h : AgentHail)
      → agent_at s.agents i ≡ some a
      → a.hail ≡ some h
      → arrived s h a ≡ true
      → Meets s h.by i
  unfolding arrived
  arrived-Meets i a h at waits there = elim (Option-cases (agent_at s.agents h.by)) [
    | inl e ↦ absurd (cc (rw (e, arrived) at there))
    | inr (o, e) ↦
        let t = rw (e, arrived) at there in
        (a, h, o, at, waits, refl, e, ground arith, ground arith, ground arith)
  ]

  Meets-arrived :
      (i : ℤ) (a : Agent) (h : AgentHail)
      → agent_at s.agents i ≡ some a
      → a.hail ≡ some h
      → Meets s h.by i
      → arrived s h a ≡ true
  unfolding arrived
  Meets-arrived i a h at waits (a', h', o, at', waits', same, e, alive, awake, near) =
      let t : a' ≡ a = some-injective _ _ (sym at' ∙ at) in
      let d : dist_ℤ o.x a.x + dist_ℤ o.y a.y ≤ 1 =
        subst (λ (b : Agent). dist_ℤ o.x b.x + dist_ℤ o.y b.y ≤ 1) t near in
      rw (e, alive, awake, arrived) (ground arith)

module _ (s : State) (talk : ℤ → ℤ → List Event) (next : ℕ) where
  -- What a turn's lifting event is.
  Lifts : ℤ → Agent → Event → Type 0
  Lifts i a e =
      (h : AgentHail) × (a.hail ≡ some h)
      × (((arrived s h a ≡ true) × (e ≡ Event.hail_met h.by i))
          ⊎ ((arrived s h a ≡ false) × (h.until ≤ next) × (e ≡ Event.hail_expired h.by i)))

  beat-Lifts :
      IsTalk talk
      → (i : ℤ) (a : Agent) (e : Event) → is_lift e ≡ true
      → Memᴰ e (hail_beat s talk next i a)
      → Lifts i a e
  unfolding hail_beat Lifts
  beat-Lifts quiet i a e l m = elim (Option-cases a.hail) [
    | inl n ↦ elim (rw (n, hail_beat) at m) [ ]
    | inr (h, f) ↦ elim (Bool-cases (arrived s h a)) [
      | inl there ↦ elim (rw (f, there, hail_beat) at m) [
        | Memᴰ.head same ↦ (h, f, inl (there, same))
        | Memᴰ.tail k ↦ absurd (cc (quiet h.by i e k, l))
      ]
      | inr away ↦ elim (Bool-cases (leb h.until next)) [
        | inl late ↦ elim (rw (f, away, late, hail_beat) at m) [
          | Memᴰ.head same ↦ (h, f, inr (away, (ground arith), same))
          | Memᴰ.tail k ↦ elim k [ ]
        ]
        | inr early ↦ elim (rw (f, away, early, hail_beat) at m) [ ]
      ]
    ]
  ]

  step-Lifts :
      IsTalk talk
      → (e : Event) → is_lift e ≡ true
      → Memᴰ e (hail_step s talk next)
      → (i : ℤ) × (a : Agent) × (agent_at s.agents i ≡ some a) × Lifts i a e
  unfolding hail_step agent_at
  step-Lifts quiet e l m =
      let (n, a, g, w) = beat-sweep s talk next s.agents 0 e m in
      let w' = subst (λ z. Memᴰ e (hail_beat s talk next (pos z) a)) (omega arith) w in
      (pos n, a, g, beat-Lifts quiet (pos n) a e l w')

  step-beat :
      (i : ℤ) (a : Agent) (e : Event)
      → agent_at s.agents i ≡ some a
      → Memᴰ e (hail_beat s talk next i a)
      → Memᴰ e (hail_step s talk next)
  unfolding hail_step agent_at
  step-beat (pos n) a e at m = sweep-beat s talk next s.agents 0 n n a (omega arith) at e m
  step-beat (negsuc n) a e at m = absurd (cc at)

  met-step :
      IsTalk talk → (by i : ℤ) → Memᴰ (Event.hail_met by i) (hail_step s talk next) → Meets s by i
  unfolding Lifts
  met-step quiet by i m =
      let (j, a, at, l) = step-Lifts quiet (Event.hail_met by i) refl m in
      let (h, f, c) = l in
      elim c [
        | inl (there, same) ↦
            let from : h.by ≡ by = cc same in
            let to : j ≡ i = cc same in
            subst (λ z. Meets s z i) from
              (subst (λ z. Meets s h.by z) to (arrived-Meets s j a h at f there))
        | inr (_, _, same) ↦ absurd (cc same)
      ]

  step-met : (by i : ℤ) → Meets s by i → Memᴰ (Event.hail_met by i) (hail_step s talk next)
  step-met by i (a, h, o, at, f, from, e, alive, awake, near) =
      let there =
        Meets-arrived s i a h at f
          (subst (λ z. Meets s z i) (sym from) (a, h, o, at, f, from, e, alive, awake, near)) in
      step-beat i a (Event.hail_met by i) at (
        subst (λ z. Memᴰ (Event.hail_met z i) (hail_beat s talk next i a)) from
          (beat_meets s talk next i a h f there))

  expired-step :
      IsTalk talk
      → (by i : ℤ) → Memᴰ (Event.hail_expired by i) (hail_step s talk next)
      → Expires s next by i
  unfolding Lifts
  expired-step quiet by i m =
      let (j, a, at, l) = step-Lifts quiet (Event.hail_expired by i) refl m in
      let (h, f, c) = l in
      elim c [
        | inl (_, same) ↦ absurd (cc same)
        | inr (away, late, same) ↦
            let from : h.by ≡ by = cc same in
            let to : j ≡ i = cc same in
            let at' : agent_at s.agents i ≡ some a =
              subst (λ z. agent_at s.agents z ≡ some a) to at in
            (
              a,
              h,
              at',
              f,
              from,
              late,
              λ meets.
                  cc
                    (Meets-arrived s i a h at' f (subst (λ z. Meets s z i) (sym from) meets), away),
            )
      ]

  step-expired :
      (by i : ℤ) → Expires s next by i → Memᴰ (Event.hail_expired by i) (hail_step s talk next)
  step-expired by i (a, h, at, f, from, late, away) =
      let missed : arrived s h a ≡ false = elim (Bool-cases (arrived s h a)) [
        | inl there ↦
            absurd (away (subst (λ z. Meets s z i) from (arrived-Meets s i a h at f there)))
        | inr missed ↦ missed
      ] in
      step-beat i a (Event.hail_expired by i) at (
        subst (λ z. Memᴰ (Event.hail_expired z i) (hail_beat s talk next i a)) from
          (beat_expires s talk next i a h f missed (ground arith)))

  -- Where the talks that a meeting founds lift no hail themselves, the sweep emits a meeting of an
  -- agent with its hailer exactly where the agent waits for the hailer, who is alive, awake and at
  -- most one tile away, and the expiry exactly where they do not so meet and the pause is over.
  pub hail_step_lifts :
      IsTalk talk
      → (by i : ℤ)
      → ((Memᴰ (Event.hail_met by i) (hail_step s talk next)) ↔ Meets s by i)
        × ((Memᴰ (Event.hail_expired by i) (hail_step s talk next)) ↔ Expires s next by i)
  hail_step_lifts quiet by i =
      ((met-step quiet by i, step-met by i), (expired-step quiet by i, step-expired by i))
