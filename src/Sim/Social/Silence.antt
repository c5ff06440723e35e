-- ===== src/Sim/Social/Silence.antt =====
-- internal/sim/social.go: when `TellableFor` finds nothing to tell, and which of two memories it
-- prefers.
use script_world.Prelude.{
  ℕ, ◌*◌, ◌<◌, ◌≤◌, ◌⊎◌, arith, ◌≡◌, ◌≢◌, refl, sym, ◌==◌, some-injective, inl, inr, ◌↔◌, ◌&&◌,
  true, false, Option, none, some, List, [], ◌∷◌, ltb, lt→ltb, All, Bool-cases, Option-cases,
}
use script_world.Prelude.Int.{ℤ, neg_part, eqb_ℤ_iff}
use mathlib.Core.List.{Memᴰ}
use script_world.Sim.State.{Memory}
use script_world.Sim.Social.Views.{
  Tellable, decayed, told_rumor, pick_rumor, best_rumor, is_gossip, pick_memory, best_memory,
  tell_between, rumor_by_id,
}
use script_world.Sim.Social.{Villager, Rumor, KnownRumor, knows, find_known}

-- A search that has found something goes on to find something.
abbrev IsSome {ℓ} : {A : Type ℓ} → Option A → Type 0
IsSome none = ⊥
IsSome (some _) = Unit

IsSome-ne {ℓ} : {A : Type ℓ} (o : Option A) → IsSome o → o ≢ none
IsSome-ne none h e = h
IsSome-ne (some x) h e = cc

module _ (rumors : List Rumor) (listener : Villager) (to : ℤ) where
  pick_rumor-IsSome :
      (t : Tellable) (k : KnownRumor) → IsSome (pick_rumor rumors listener to (some t) k)
  unfolding pick_rumor
  pick_rumor-IsSome t k = elim (Option-cases (told_rumor rumors listener to k)) [
    | inl e ↦ rw (e, pick_rumor) tt
    | inr (r, e) ↦ elim (Bool-cases (ltb t.confidence k.confidence)) [
      | inl b ↦ rw (e, b, pick_rumor) tt
      | inr b ↦ rw (e, b, pick_rumor) tt
    ]
  ]

  best_rumor-IsSome :
      (o : Option Tellable) (ks : List KnownRumor)
      → IsSome o
      → IsSome (best_rumor rumors listener to o ks)
  unfolding best_rumor
  best_rumor-IsSome o [] h = h
  best_rumor-IsSome none (k ∷ ks) h = absurd h
  best_rumor-IsSome (some t) (k ∷ ks) h =
      best_rumor-IsSome (pick_rumor rumors listener to (some t) k) ks (pick_rumor-IsSome t k)

  best_rumor-none :
      (ks : List KnownRumor)
      → (best_rumor rumors listener to none ks ≡ none)
        ↔ All (λ (k : KnownRumor). told_rumor rumors listener to k ≡ none) ks
  unfolding best_rumor pick_rumor
  best_rumor-none [] = (λ _. tt, λ _. refl)
  best_rumor-none (k ∷ ks) = elim (Option-cases (told_rumor rumors listener to k)) [
    | inl e ↦ (
      λ h. (e, (best_rumor-none ks).0 (rw (e, pick_rumor) at h)),
      λ h. rw (e, pick_rumor) ((best_rumor-none ks).1 h.1),
    )
    | inr (r, e) ↦ (
      λ h. absurd (IsSome-ne _ (best_rumor-IsSome _ ks tt) (rw (e, pick_rumor) at h)),
      λ h. absurd (cc (h.0, e)),
    )
  ]

module _ (from to : ℤ) where
  pick_memory-IsSome : (t : Tellable) (m : Memory) → IsSome (pick_memory from to (some t) m)
  unfolding pick_memory
  pick_memory-IsSome t m =
      elim (Bool-cases (is_gossip from to m && ltb t.confidence (m.salience * 10))) [
        | inl b ↦ rw (b, pick_memory) tt
        | inr b ↦ rw (b, pick_memory) tt
      ]

  best_memory-IsSome :
      (o : Option Tellable) (ms : List Memory) → IsSome o → IsSome (best_memory from to o ms)
  unfolding best_memory
  best_memory-IsSome o [] h = h
  best_memory-IsSome none (m ∷ ms) h = absurd h
  best_memory-IsSome (some t) (m ∷ ms) h =
      best_memory-IsSome (pick_memory from to (some t) m) ms (pick_memory-IsSome t m)

  best_memory-none :
      (ms : List Memory)
      → (best_memory from to none ms ≡ none) ↔ All (λ (m : Memory). is_gossip from to m ≡ false) ms
  unfolding best_memory pick_memory
  best_memory-none [] = (λ _. tt, λ _. refl)
  best_memory-none (m ∷ ms) = elim (Bool-cases (is_gossip from to m)) [
    | inr e ↦ (
      λ h. (e, (best_memory-none ms).0 (rw (e, pick_memory) at h)),
      λ h. rw (e, pick_memory) ((best_memory-none ms).1 h.1),
    )
    | inl e ↦ (
      λ h. absurd (IsSome-ne _ (best_memory-IsSome _ ms tt) (rw (e, pick_memory) at h)),
      λ h. absurd (cc (h.0, e)),
    )
  ]

  -- Of two memories that may be told as rumors, in this order, the second is chosen where it
  -- is less salient than the first and above the first's decayed confidence.
  pub best_memory_later :
      (m m' : Memory)
      → is_gossip from to m ≡ true
      → is_gossip from to m' ≡ true
      → m'.salience < m.salience
      → decayed (m.salience * 10) < m'.salience * 10
      → (t : Tellable) × (best_memory from to none (m ∷ m' ∷ []) ≡ some t)
        × (t.text ≡ m'.text)
        × (t.subject ≡ m'.subject)
  unfolding best_memory pick_memory
  best_memory_later m m' g g' less above = (
    record {
      rumor_id = 0;
      subject = m'.subject;
      tone = m'.tone;
      text = m'.text;
      confidence = decayed (m'.salience * 10);
    },
    rw (g, g', lt→ltb _ _ above),
    refl,
    refl,
  )

-- What the teller may not tell of a variant: of its rumor there is no record, or the rumor is a
-- secret, or about the listener, or the variant's confidence is 25 or less, or the
-- listener holds a variant of it.
abbrev pub Withheld : List Rumor → Villager → ℤ → KnownRumor → Type 0
Withheld rumors listener to k =
    (rumor_by_id k.rumor_id rumors ≡ none)
    ⊎ ((r : Rumor) × (rumor_by_id k.rumor_id rumors ≡ some r)
        × ((r.secret ≡ true)
            ⊎ (r.subject ≡ to)
            ⊎ (k.confidence ≤ 25)
            ⊎ ((l : KnownRumor) × Memᴰ l listener.known × (l.rumor_id ≡ k.rumor_id))))

-- A memory that no rumor is born of: about nobody, the listener or the teller, or of a salience
-- below 4.
abbrev pub Private : ℤ → ℤ → Memory → Type 0
Private from to m =
    (neg_part m.subject ≢ 0) ⊎ (m.subject ≡ to) ⊎ (m.subject ≡ from) ⊎ (m.salience < 4)

find_known_mem :
    (id : ℕ) (ks : List KnownRumor) {l : KnownRumor}
    → find_known id ks ≡ some l
    → Memᴰ l ks × (l.rumor_id ≡ id)
unfolding find_known
find_known_mem id [] e = absurd (cc e)
find_known_mem id (k ∷ ks) {l} e = elim (Bool-cases (k.rumor_id == id)) [
  | inl f ↦
      let same : k ≡ l = some-injective _ _ (rw (f, find_known) at e) in
      (Memᴰ.head (sym same), ground arith)
  | inr f ↦ let (m, g) = find_known_mem id ks (rw (f, find_known) at e) in (Memᴰ.tail m, g)
]

mem-find_known :
    (id : ℕ) (ks : List KnownRumor) (l : KnownRumor)
    → Memᴰ l ks
    → l.rumor_id ≡ id
    → find_known id ks ≢ none
unfolding find_known
mem-find_known id (k ∷ ks) l m g e = elim (Bool-cases (k.rumor_id == id)) [
  | inl f ↦ cc (rw (f, find_known) at e)
  | inr f ↦ elim m [
    | Memᴰ.head same ↦ ground arith
    | Memᴰ.tail m' ↦ mem-find_known id ks l m' g (rw (f, find_known) at e)
  ]
]
mem-find_known id [] l m g e = elim m [ ]

knows-mem :
    (o : Villager) (id : ℕ)
    → (knows o id ≡ true) ↔ ((l : KnownRumor) × Memᴰ l o.known × (l.rumor_id ≡ id))
unfolding knows
knows-mem o id = elim (Option-cases (find_known id o.known)) [
  | inl u ↦ (
    λ h. absurd (cc (rw (u, knows) at h)),
    λ (l, m, g). absurd (mem-find_known id o.known l m g u),
  )
  | inr (l, u) ↦
      let (m, g) = find_known_mem id o.known u in (λ _. (l, m, g), λ _. rw (u, knows) refl)
]

Withheld-untold :
    (rumors : List Rumor) (listener : Villager) (to : ℤ) (k : KnownRumor)
    → Withheld rumors listener to k
    → told_rumor rumors listener to k ≡ none
unfolding told_rumor
Withheld-untold rumors listener to k (inl e) = rw (e, told_rumor) refl
Withheld-untold rumors listener to k (inr (r, e, why)) =
    let heard = knows-mem listener k.rumor_id in
    let about = eqb_ℤ_iff r.subject to in rw (e, told_rumor) (ground arith)

told_rumor-Withheld :
    (rumors : List Rumor) (listener : Villager) (to : ℤ) (k : KnownRumor)
    → (told_rumor rumors listener to k ≡ none) ↔ Withheld rumors listener to k
unfolding told_rumor
told_rumor-Withheld rumors listener to k =
    let heard = knows-mem listener k.rumor_id in
    elim (Option-cases (rumor_by_id k.rumor_id rumors)) [
      | inl e ↦ (λ _. inl e, λ w. Withheld-untold rumors listener to k w)
      | inr (r, e) ↦
          let about = eqb_ℤ_iff r.subject to in
          (
            λ h. inr (r, e, (let h' = rw (e, told_rumor) at h in ground arith)),
            λ w. Withheld-untold rumors listener to k w,
          )
    ]

is_gossip-Private : (from to : ℤ) (m : Memory) → (is_gossip from to m ≡ false) ↔ Private from to m
unfolding is_gossip
is_gossip-Private from to m = ground (arith, eqb_ℤ_iff m.subject to, eqb_ℤ_iff m.subject from)

All-mono {ℓ} :
    {A : Type ℓ} {P Q : A → Type ℓ} → ((x : A) → P x → Q x) → (xs : List A) → All P xs → All Q xs
All-mono f [] h = tt
All-mono f (x ∷ xs) h = (f x h.0, All-mono f xs h.1)

-- `TellableFor` finds nothing exactly where each variant that the teller holds is of an unrecorded
-- rumor, of a secret, about the listener, of a confidence of 25 or less or of a rumor that the
-- listener knows, and each memory of the teller is about nobody, the listener or the teller, or of
-- a salience below 4.
pub tell_between-none :
    (rumors : List Rumor) (from to : ℤ) (teller listener : Villager)
    → (tell_between rumors from to teller listener ≡ none)
      ↔ All (Withheld rumors listener to) teller.known × All (Private from to) teller.agent.memories
unfolding tell_between
tell_between-none rumors from to teller listener =
    let told = told_rumor-Withheld rumors listener to in
    let gossip = is_gossip-Private from to in
    let rs = best_rumor-none rumors listener to teller.known in
    let ms = best_memory-none from to teller.agent.memories in
    elim (Option-cases (best_rumor rumors listener to none teller.known)) [
      | inl e ↦ (
        λ h. (
          All-mono (λ k. (told k).0) teller.known (rs.0 e),
          All-mono (λ m. (gossip m).0) teller.agent.memories (ms.0 (rw (e, tell_between) at h)),
        ),
        λ h. rw (e, tell_between) (ms.1 (All-mono (λ m. (gossip m).1) teller.agent.memories h.1)),
      )
      | inr (t, e) ↦ (
        λ h. absurd (cc (rw (e, tell_between) at h)),
        λ h. absurd (cc (rs.1 (All-mono (λ k. (told k).1) teller.known h.0), e)),
      )
    ]
