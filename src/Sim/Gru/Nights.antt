-- ===== src/Sim/Gru/Nights.antt =====
-- internal/sim/gru.go: what the reducer writes of the gru, against what the gru does next.
use script_world.Prelude.{
  ℕ, zero, suc, ◌+◌, ◌<◌, ◌≡◌, ◌≢◌, refl, sym, ◌∙◌, ap, inl, inr, Bool, true, some, List, [], ◌∷◌,
  All-Memᴰ, set, length, some-injective, arith,
}
use script_world.Prelude.Int.{ℤ, pos}
use mathlib.Core.List.{Memᴰ}
use script_world.Sim.State.{State, Agent, Gru, agent_at}
use script_world.Sim.Event.{Event}
use script_world.Sim.Terrain.{Map}
use script_world.Sim.Apply.{apply}
use script_world.Sim.Apply.Base.{on_agent}
use script_world.Sim.Apply.GruArms.{
  apply_gru_attacked, apply_gru_sighted, gru_after_attack, gru_seen_by, mark_seen,
}
use script_world.Sim.Gru.{Draws, emit, has_seen, gru_step}
use script_world.Sim.Gru.Laws.{Fair}
use script_world.Sim.Gru.Turn.{gru_step-Fair}

-- The gru after an attack that the reducer accepts.
attacked_gru :
    (s : State) (tick : ℕ) (i : ℤ) (health : ℕ) (g : Gru) (a : Agent)
    → s.gru ≡ some g
    → agent_at s.agents i ≡ some a
    → (apply s tick (Event.gru_attacked i health)).0.gru
      ≡ some (record g { last_attack = tick; last_victim = i; seen = mark_seen g.seen i })
unfolding apply apply_gru_attacked on_agent gru_after_attack
attacked_gru s tick i health g a e f = rw (f, on_agent) (ap (gru_after_attack tick i) e)

-- After the reducer took an attack at a tick other than 0, the gru attacks nobody for 600 ticks.
pub attack_rests :
    (m : Map) (s : State) (d : Draws) (tick : ℕ) (i : ℤ) (health : ℕ) (g : Gru) (a : Agent)
    (night : Bool) (next : ℕ)
    → s.gru ≡ some g
    → agent_at s.agents i ≡ some a
    → tick ≢ 0
    → next < tick + 600
    → (j : ℤ) (after : ℕ)
    → ¬ Memᴰ
        (emit (Event.gru_attacked j after))
        (gru_step m (apply s tick (Event.gru_attacked i health)).0 d night next)
attack_rests m s d tick i health g a night next e f ne soon j after q =
    let s' = (apply s tick (Event.gru_attacked i health)).0 in
    let (g', _, abroad, _, _, _, _, _, rested, _, _) =
      All-Memᴰ (Fair m s' night next) (gru_step m s' d night next) _
        (gru_step-Fair m s' d night next) q in
    let same : g'.last_attack ≡ tick =
      ap (λ (h : Gru). h.last_attack)
        (some-injective _ _ (sym abroad ∙ attacked_gru s tick i health g a e f)) in
    elim rested [ inl never ↦ ne (sym same ∙ never) | inr long ↦ omega arith ]

-- The gru after a sighting that is aimed at an agent.
sighted_gru :
    (s : State) (tick : ℕ) (i x y : ℤ) (g : Gru) (a : Agent)
    → s.gru ≡ some g
    → agent_at s.agents i ≡ some a
    → (apply s tick (Event.gru_sighted i x y)).0.gru ≡ some (record g { seen = mark_seen g.seen i })
unfolding apply apply_gru_sighted gru_seen_by
sighted_gru s tick i x y g a e f = rw (f, apply_gru_sighted) (ap (gru_seen_by i) e)

has_seen-set : (mask : List Bool) (k : ℕ) → k < length mask → has_seen (set mask k true) k ≡ true
unfolding has_seen
has_seen-set [] k h = absurd (omega arith)
has_seen-set (b ∷ mask) zero h = refl
has_seen-set (b ∷ mask) (suc k) h = has_seen-set mask k (omega arith)

mark_seen-pos : (mask : List Bool) (k : ℕ) → mark_seen mask (pos k) ≡ set mask k true
unfolding mark_seen
mark_seen-pos mask k = refl

-- An agent that the mask has a bit for sees the gru once: after the reducer took its sighting, the
-- gru's next turn emits none of it.
pub sighted_once :
    (m : Map) (s : State) (d : Draws) (tick k : ℕ) (x y : ℤ) (g : Gru) (a : Agent) (night : Bool)
    (next : ℕ)
    → s.gru ≡ some g
    → agent_at s.agents (pos k) ≡ some a
    → k < length g.seen
    → (x' y' : ℤ)
    → ¬ Memᴰ
        (emit (Event.gru_sighted (pos k) x' y'))
        (gru_step m (apply s tick (Event.gru_sighted (pos k) x y)).0 d night next)
sighted_once m s d tick k x y g a night next e f bit x' y' q =
    let s' = (apply s tick (Event.gru_sighted (pos k) x y)).0 in
    let (g', _, k', abroad, _, at_k, unseen, _, _, _, _) =
      All-Memᴰ (Fair m s' night next) (gru_step m s' d night next) _
        (gru_step-Fair m s' d night next) q in
    let same : g'.seen ≡ set g.seen k true =
      ap (λ (h : Gru). h.seen)
        (some-injective _ _ (sym abroad ∙ sighted_gru s tick (pos k) x y g a e f))
      ∙ mark_seen-pos g.seen k in
    let at_same : k' ≡ k = ground arith in cc (has_seen-set g.seen k bit, unseen, same, at_same)
