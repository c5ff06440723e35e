-- ===== src/Sim/Social/Telling.antt =====
-- internal/sim/social.go: what `TellableFor` finds may be told, and what it passes over.
use script_world.Prelude.{
  ℕ, zero, suc, ◌*◌, ◌≤◌, ◌<◌, ◌≡◌, ◌≢◌, refl, sym, ◌∙◌, subst, ◌⊎◌, inl, inr, ◌&&◌, true, false,
  Option, none, some, List, [], ◌∷◌, All, arith, Bool-cases, Option-cases, some-injective,
}
use script_world.Prelude.Int.{ℤ, eqb_ℤ, eqb_ℤ_iff}
use script_world.Sim.State.{Memory}
use script_world.Sim.Social.Trails.{known_at, IsClear}
use script_world.Sim.Social.Gossip.{IsFair, IsGossip, fade}
use script_world.Sim.Social.Views.{
  Tellable, rumor_floor, decayed, beats, rumor_by_id, told_rumor, pick_rumor, best_rumor, is_gossip,
  pick_memory, best_memory, tell_between, tellable_for,
}
use script_world.Sim.Social.{
  Village, Villager, Rumor, KnownRumor, RumorToldPayload, rumor_told, villager_at, find_known,
  knows,
}

-- `rumorTellEvent` of the executor.
unfoldable pub rumor_tell_event : ℤ → ℤ → Tellable → RumorToldPayload
rumor_tell_event from to t = record {
  from = from;
  to = to;
  rumor_id = t.rumor_id;
  subject = t.subject;
  tone = t.tone;
  text = t.text;
  confidence = t.confidence;
  secret = false;
}

-- The highest salience that the code gives to a memory.
abbrev pub max_salience : ℕ
max_salience = 10

module _ (rumors : List Rumor) (teller listener : Villager) (from to : ℤ) where
  -- A rumor that may be passed on: the teller's variant of it is above the floor, it is no secret
  -- and not about the listener, who does not know it.
  pub record Offer (t : Tellable) : Type 0 where
    pub variant : KnownRumor
    pub rumor : Rumor
    pub held : find_known t.rumor_id teller.known ≡ some variant
    pub above : rumor_floor < variant.confidence
    pub fades : t.confidence ≡ decayed variant.confidence
    pub known : rumor_by_id t.rumor_id rumors ≡ some rumor
    pub open_rumor : rumor.secret ≡ false
    pub about : t.subject ≡ rumor.subject
    pub unaware : knows listener t.rumor_id ≡ false

  -- A birth from a memory that is salient enough.
  pub record Birth (t : Tellable) : Type 0 where
    pub memory : Memory
    pub gossip : is_gossip from to memory ≡ true
    pub weighs : memory.salience ≤ max_salience
    pub new_id : t.rumor_id ≡ 0
    pub fades : t.confidence ≡ decayed (memory.salience * 10)
    pub about : t.subject ≡ memory.subject

  abbrev Picked : (Tellable → Type 0) → Option Tellable → Type 0
  Picked P none = Unit
  Picked P (some t) = P t

  abbrev Fine : Tellable → Type 0
  Fine t = Offer t × (t.subject ≢ to)

  told_rumor-some :
      (k : KnownRumor) (r : Rumor)
      → told_rumor rumors listener to k ≡ some r
      → (rumor_by_id k.rumor_id rumors ≡ some r)
        × (r.secret ≡ false)
        × (eqb_ℤ r.subject to ≡ false)
        × (rumor_floor < k.confidence)
        × (knows listener k.rumor_id ≡ false)
  unfolding told_rumor
  told_rumor-some k r h = (ground arith, ground arith, ground arith, ground arith, ground arith)

  pick_rumor-Fine :
      (best : Option Tellable) (k : KnownRumor)
      → Picked Fine best
      → find_known k.rumor_id teller.known ≡ some k
      → Picked Fine (pick_rumor rumors listener to best k)
  unfolding pick_rumor
  pick_rumor-Fine best k h held = elim (Option-cases (told_rumor rumors listener to k)) [
    | inl e ↦ rw (e, pick_rumor) h
    | inr (r, e) ↦ elim (Bool-cases (beats k.confidence best)) [
      | inr b ↦ rw (e, b, pick_rumor) h
      | inl b ↦
          let (known, open_rumor, other, above, unaware) = told_rumor-some k r e in
          rw (e, b, pick_rumor)
            (
              record {
                variant = k;
                rumor = r;
                held = held;
                above = above;
                fades = refl;
                known = known;
                open_rumor = open_rumor;
                about = refl;
                unaware = unaware;
              },
              λ same. absurd (cc ((eqb_ℤ_iff r.subject to).1 same, other)),
            )
    ]
  ]

  best_rumor-Fine :
      (best : Option Tellable) (ks : List KnownRumor)
      → Picked Fine best
      → All (λ (k : KnownRumor). find_known k.rumor_id teller.known ≡ some k) ks
      → Picked Fine (best_rumor rumors listener to best ks)
  unfolding best_rumor
  best_rumor-Fine best [] h held = h
  best_rumor-Fine best (k ∷ ks) h held =
      best_rumor-Fine (pick_rumor rumors listener to best k) ks (pick_rumor-Fine best k h held.0)
        held.1

  pick_memory-Birth :
      (best : Option Tellable) (m : Memory)
      → Picked Birth best
      → m.salience ≤ max_salience
      → Picked Birth (pick_memory from to best m)
  unfolding pick_memory
  pick_memory-Birth best m h w =
      elim (Bool-cases (is_gossip from to m && beats (m.salience * 10) best)) [
        | inr e ↦ rw (e, pick_memory) h
        | inl e ↦
            rw (e, pick_memory)
              (record {
                memory = m;
                gossip = ground arith;
                weighs = w;
                new_id = refl;
                fades = refl;
                about = refl;
              })
      ]

  best_memory-Birth :
      (best : Option Tellable) (ms : List Memory)
      → Picked Birth best
      → All (λ (m : Memory). m.salience ≤ max_salience) ms
      → Picked Birth (best_memory from to best ms)
  unfolding best_memory
  best_memory-Birth best [] h w = h
  best_memory-Birth best (m ∷ ms) h w =
      best_memory-Birth (pick_memory from to best m) ms (pick_memory-Birth best m h w.0) w.1

  -- What is told is an offer, or else a birth.
  tell_between_cases :
      (t : Tellable)
      → IsClear teller.known
      → All (λ (m : Memory). m.salience ≤ max_salience) teller.agent.memories
      → tell_between rumors from to teller listener ≡ some t
      → Fine t ⊎ Birth t
  unfolding tell_between
  tell_between_cases t clear w h =
      elim (Option-cases (best_rumor rumors listener to none teller.known)) [
        | inr (best, e) ↦
            let fine = subst (Picked Fine) e (best_rumor-Fine none teller.known tt clear) in
            inl (subst Fine (some-injective _ _ (rw (e, tell_between) at h)) fine)
        | inl e ↦ inr (
            subst (Picked Birth) (rw (e, tell_between) at h)
              (best_memory-Birth none teller.agent.memories tt w))
      ]

fade-le : (n : ℕ) → fade n ≤ 100
fade-le zero = omega arith
fade-le (suc n) = omega (arith, fade-le n)

subject-ne : (from to : ℤ) (m : Memory) → is_gossip from to m ≡ true → m.subject ≢ to
unfolding is_gossip
subject-ne from to m h same = ground (arith, eqb_ℤ_iff m.subject to)

-- Where no memory is more salient than 10 and rumors are traced, what `TellableFor` finds for a
-- pair may be told: the event made of it is fair, it is not about the listener, and it is a birth,
-- or a rumor that is no secret and that the listener does not know.
pub tellable_for-IsFair :
    (v : Village) (from to : ℤ) (teller listener : Villager) (t : Tellable)
    → IsGossip v
    → villager_at v.agents from ≡ some teller
    → villager_at v.agents to ≡ some listener
    → All (λ (m : Memory). m.salience ≤ max_salience) teller.agent.memories
    → tellable_for v from to ≡ some (some t)
    → IsFair v (rumor_told (rumor_tell_event from to t))
      × (t.subject ≢ to)
      × ((t.rumor_id ≡ 0)
          ⊎ (knows listener t.rumor_id ≡ false)
            × ((r : Rumor) → rumor_by_id t.rumor_id v.rumors ≡ some r → r.secret ≡ false))
unfolding tellable_for rumor_tell_event known_at
tellable_for-IsFair v from to teller listener t h et el w e =
    elim (tell_between_cases v.rumors teller listener from to t (h.clear from teller et) w
      (some-injective _ _ (rw (et, el, tellable_for) at e))) [
        | inl (offer, other) ↦ (
          record {
            birth = λ zero_id.
                let (n, tr, c, m) =
                  h.trail from t.rumor_id offer.variant (rw (et, known_at) offer.held) in
                omega (arith, offer.fades, c, fade-le n);
            retold = λ _. (
              offer.variant,
              rw (et, known_at) offer.held,
              offer.above,
              omega (arith, offer.fades),
            );
          },
          other,
          inr (
            offer.unaware,
            λ r is_r.
                subst (λ (x : Rumor). x.secret ≡ false)
                  (some-injective _ _ (sym offer.known ∙ is_r)) offer.open_rumor,
          ),
        )
        | inr birth ↦ (
          record {
            birth = λ _. omega (arith, birth.fades, birth.weighs);
            retold = λ nonzero. absurd (nonzero birth.new_id);
          },
          (λ same. subject-ne from to birth.memory birth.gossip (sym birth.about ∙ same)),
          inl birth.new_id,
        )
      ]
