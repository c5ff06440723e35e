-- ===== src/Sim/Hail/Waiting.antt =====
-- internal/sim/hail.go with the reducer's arms for hails: who waits for whom.
use script_world.Prelude.{
  ℕ, zero, suc, ◌≡◌, ◌≢◌, refl, sym, ◌∙◌, ap, inl, inr, subst, Bool, true, false, Option, none,
  some, List, [], ◌∷◌, get_elem?-set_self, get_elem?-set_ne, Bool-cases, Option-cases,
  some-injective, arith,
}
use script_world.Prelude.Int.{ℤ, pos, negsuc, eqb_ℤ, eqb_ℤ_iff}
use script_world.Sim.State.{State, Agent, AgentHail, agent_at, put_agent}
use script_world.Sim.Event.{Event}
use script_world.Sim.Apply.{apply}
use script_world.Sim.Apply.Base.{on_agent}
use script_world.Sim.Apply.MindArms.{apply_hailed, apply_hail_lifted}
use script_world.Sim.Hail.{awaited, may_hail, hailable}

-- The agent that `a` waits for.
abbrev pub waits_for : Option Agent → Option ℤ
waits_for none = none
waits_for (some a) = elim a.hail [ none ↦ none | some h ↦ some h.by ]

abbrev pub hailer_of : State → ℤ → Option ℤ
hailer_of s i = waits_for (agent_at s.agents i)

-- A chain of agents, each waiting for the next, with its number of steps.
pub data Chain (s : State) : ℤ → ℕ → ℤ → Type 0 where
  one : {i j : ℤ} → hailer_of s i ≡ some j → Chain s i 1 j
  more : {i j k : ℤ} {n : ℕ} → hailer_of s i ≡ some j → Chain s j n k → Chain s i (suc n) k

-- No agent waits, through others or directly, for itself.
abbrev pub IsUnlocked : State → Type 0
IsUnlocked s = (i : ℤ) (n : ℕ) → ¬ Chain s i n i

-- The second state has no wait that the first does not have.
Fewer : State → State → Type 0
Fewer s t = (i j : ℤ) → hailer_of t i ≡ some j → hailer_of s i ≡ some j

Chain-Fewer : (s t : State) → Fewer s t → {i j : ℤ} {n : ℕ} → Chain t i n j → Chain s i n j
unfolding Fewer
Chain-Fewer s t h (one e) = one (h _ _ e)
Chain-Fewer s t h (more e c) = more (h _ _ e) (Chain-Fewer s t h c)

awaited-none :
    (agents : List Agent) (target : ℤ)
    → awaited agents target ≡ false
    → (i : ℤ) → waits_for (agent_at agents i) ≢ some target
unfolding awaited agent_at
awaited-none [] target h (pos n) e = absurd (cc e)
awaited-none (a ∷ rest) target h (pos zero) e = elim (Option-cases a.hail) [
  | inl f ↦ absurd (cc (rw f at e))
  | inr (w, f) ↦
      let same : w.by ≡ target = some-injective _ _ (rw f at e) in
      let yes' : eqb_ℤ w.by target ≡ true = (eqb_ℤ_iff w.by target).1 same in cc (rw (f, yes') at h)
]
awaited-none (a ∷ rest) target h (pos (suc n)) e = awaited-none rest target (ground arith) (pos n) e
awaited-none agents target h (negsuc n) e = absurd (cc e)

agent_at-put_self :
    (s : State) (i : ℤ) (a b : Agent)
    → agent_at s.agents i ≡ some b
    → agent_at (put_agent s i a).agents i ≡ some a
unfolding agent_at put_agent
agent_at-put_self s (pos n) a b e = get_elem?-set_self s.agents n a b e
agent_at-put_self s (negsuc n) a b e = absurd (cc e)

agent_at-put_ne :
    (s : State) (i k : ℤ) (a : Agent)
    → i ≢ k
    → agent_at (put_agent s i a).agents k ≡ agent_at s.agents k
unfolding agent_at put_agent
agent_at-put_ne s (pos n) (pos m) a h = get_elem?-set_ne s.agents a (λ e. h (ap pos e))
agent_at-put_ne s (pos n) (negsuc m) a h = refl
agent_at-put_ne s (negsuc n) k a h = refl

-- A chain cannot end at an agent that nobody waits for.
Chain-awaited :
    (s : State) (x : ℤ) → ((k : ℤ) → hailer_of s k ≢ some x) → {i : ℤ} {n : ℕ} → ¬ Chain s i n x
Chain-awaited s x h (one {i} e) = h i e
Chain-awaited s x h (more e c) = Chain-awaited s x h c

-- Where the states differ only in an agent that nobody waits for, chains from others are the same.
Chain-away :
    (s t : State) (x : ℤ)
    → ((k : ℤ) → hailer_of t k ≢ some x)
    → ((k : ℤ) → k ≢ x → hailer_of t k ≡ hailer_of s k)
    → {i j : ℤ} {n : ℕ} → i ≢ x
    → Chain t i n j
    → Chain s i n j
Chain-away s t x alone same {i} ne (one e) = one (sym (same i ne) ∙ e)
Chain-away s t x alone same {i} ne (more {j} e c) =
    more (sym (same i ne) ∙ e)
      (Chain-away s t x alone same (λ q. alone i (subst (λ z. hailer_of t i ≡ some z) q e)) c)

may_hail-awaited :
    (s : State) (meeting : Bool) (exiled : ℤ → Bool) (hailer target : ℤ) (t : Agent)
    → may_hail s meeting exiled hailer target t ≡ true
    → awaited s.agents target ≡ false
unfolding may_hail
may_hail-awaited s meeting exiled hailer target t h = ground arith

apart_of :
    (s : State) (meeting : Bool) (exiled : ℤ → Bool) (hailer target : ℤ) (t : Agent)
    → agent_at s.agents target ≡ some t
    → hailable s meeting exiled hailer target ≡ true
    → eqb_ℤ target hailer ≡ false
unfolding hailable
apart_of s meeting exiled hailer target t e h = elim (Bool-cases (eqb_ℤ target hailer)) [
  | inr f ↦ f
  | inl f ↦ absurd (cc (rw (e, f, hailable) at h))
]

-- Who passes the test of `hailable`.
hailable_facts :
    (s : State) (meeting : Bool) (exiled : ℤ → Bool) (hailer target : ℤ)
    → hailable s meeting exiled hailer target ≡ true
    → (t : Agent) × (agent_at s.agents target ≡ some t)
      × (target ≢ hailer)
      × (awaited s.agents target ≡ false)
unfolding hailable
hailable_facts s meeting exiled hailer target h = elim (Option-cases (agent_at s.agents target)) [
  | inl e ↦ absurd (cc (rw (e, hailable) at h))
  | inr (t, e) ↦ (
    t,
    e,
    λ same. cc (apart_of s meeting exiled hailer target t e h, (eqb_ℤ_iff target hailer).1 same),
    may_hail-awaited s meeting exiled hailer target t
        (rw (e, apart_of s meeting exiled hailer target t e h, hailable) at h),
  )
]

-- A hail of an agent that passes the test of `hailable` keeps the waits free of cycles.
pub hailed-IsUnlocked :
    (s : State) (tick : ℕ) (meeting : Bool) (exiled : ℤ → Bool) (hailer target : ℤ) (until : ℕ)
    → hailable s meeting exiled hailer target ≡ true
    → IsUnlocked s
    → IsUnlocked (apply s tick (Event.hailed hailer target until)).0
unfolding apply apply_hailed on_agent
hailed-IsUnlocked s tick meeting exiled hailer target until h free =
    let (t, e, ne, alone) = hailable_facts s meeting exiled hailer target h in
    let hail : AgentHail = record { by = hailer; until = until } in
    let s' = put_agent s target (record t { hail = some hail }) in
    let at_target : hailer_of s' target ≡ some hailer =
      ap waits_for (agent_at-put_self s target (record t { hail = some hail }) t e) in
    let other : (k : ℤ) → k ≢ target → hailer_of s' k ≡ hailer_of s k =
      λ k d. ap waits_for (agent_at-put_ne s target k _ (λ q. d (sym q))) in
    let alone' : (k : ℤ) → hailer_of s' k ≢ some target = λ k q.
      elim (Bool-cases (eqb_ℤ k target)) [
        | inl b ↦
            let same = (eqb_ℤ_iff k target).0 b in
            ne (
              some-injective _ _
                (sym (subst (λ z. hailer_of s' z ≡ some target) same q) ∙ at_target))
        | inr b ↦
            let d : k ≢ target = λ c. cc (b, (eqb_ℤ_iff k target).1 c) in
            awaited-none s.agents target alone k (sym (other k d) ∙ q)
      ] in
    rw (e, on_agent)
      (λ i n c. elim (Bool-cases (eqb_ℤ i target)) [
        | inl b ↦
            Chain-awaited s' target alone'
              (subst (λ z. Chain s' i n z) ((eqb_ℤ_iff i target).0 b) c)
        | inr b ↦
            free i n (Chain-away s s' target alone' other (λ q. cc (b, (eqb_ℤ_iff i target).1 q)) c)
      ])

lifted-Fewer : (s : State) (to : ℤ) → Fewer s (apply_hail_lifted s to).0
unfolding apply_hail_lifted on_agent Fewer
lifted-Fewer s to i j h = elim (Option-cases (agent_at s.agents to)) [
  | inl e ↦ rw (e, on_agent) at h
  | inr (a, e) ↦
      let lifted = record a { hail = none } in
      let h' : hailer_of (put_agent s to lifted) i ≡ some j = rw (e, on_agent) at h in
      elim (Bool-cases (eqb_ℤ to i)) [
        | inl b ↦
            let same = (eqb_ℤ_iff to i).0 b in
            absurd (
              cc (
                ap waits_for (agent_at-put_self s to lifted a e),
                subst (λ z. hailer_of (put_agent s to lifted) z ≡ some j) (sym same) h',
              ))
        | inr b ↦
            sym (ap waits_for (agent_at-put_ne s to i lifted (λ c. cc (b, (eqb_ℤ_iff to i).1 c))))
            ∙ h'
      ]
]

-- A run of hail events: `social.hailed` of an agent that passes the test of `hailable` at that
-- moment, `social.hail_met` and `social.hail_expired`.
pub data HailRun (s : State) : State → Type 0 where
  stay : HailRun s s
  hail :
      {t : State} (tick : ℕ) (meeting : Bool) (exiled : ℤ → Bool) (hailer target : ℤ) (until : ℕ)
      → HailRun s t
      → hailable t meeting exiled hailer target ≡ true
      → HailRun s (apply t tick (Event.hailed hailer target until)).0
  meet :
      {t : State} (tick : ℕ) (from to : ℤ)
      → HailRun s t
      → HailRun s (apply t tick (Event.hail_met from to)).0
  expire :
      {t : State} (tick : ℕ) (from to : ℤ)
      → HailRun s t
      → HailRun s (apply t tick (Event.hail_expired from to)).0

-- From a state in which no agent waits for itself, directly or through others that wait, every run
-- of hails of agents that pass the test of `hailable`, of meetings and of expiries leads to such a
-- state: no two agents wait for each other, and no cycle of any length arises.
pub HailRun-IsUnlocked : (s t : State) → IsUnlocked s → HailRun s t → IsUnlocked t
unfolding apply
HailRun-IsUnlocked s _ free stay = free
HailRun-IsUnlocked s _ free (hail {t} tick meeting exiled hailer target until run h) =
    hailed-IsUnlocked t tick meeting exiled hailer target until h (HailRun-IsUnlocked s t free run)
HailRun-IsUnlocked s _ free (meet {t} tick from to run) =
    λ i n c. HailRun-IsUnlocked s t free run i n (Chain-Fewer t _ (lifted-Fewer t to) c)
HailRun-IsUnlocked s _ free (expire {t} tick from to run) =
    λ i n c. HailRun-IsUnlocked s t free run i n (Chain-Fewer t _ (lifted-Fewer t to) c)
