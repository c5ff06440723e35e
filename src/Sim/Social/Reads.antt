-- ===== src/Sim/Social/Reads.antt =====
-- internal/sim/social.go: what the fabric's readers find after the reducer wrote.
use script_world.Prelude.{
  ℕ, zero, suc, ◌-◌, ◌≤◌, ◌≡◌, refl, ◌∙◌, inl, inr, ◌&&◌, Bool, true, false, none, some, List, [],
  ◌∷◌, ◌++◌, ltb, length, drop, length-append, arith, Bool-cases,
}
use script_world.Prelude.Int.{ℤ, eqb_ℤ, eqb_ℤ_iff}
use script_world.Sim.Social.Views.{names, last_of, last_conversation_between}
use script_world.Sim.Social.Arms.{
  apply_social, apply_conversation, apply_relation_changed, parts_of, trim_ring,
}
use script_world.Sim.Social.{
  Village, Relation, ConvoRecord, ConversationPayload, conversation, relation_changed,
  convo_record_cap, is_edge, no_relation, update_relation, relation_between, shift_relation,
  villager_at, Villager,
}

drop-append {ℓ} :
    {A : Type ℓ} (n : ℕ) (xs : List A) (x : A)
    → n ≤ length xs
    → drop n (xs ++ x ∷ []) ≡ drop n xs ++ x ∷ []
drop-append zero xs x h = refl
drop-append (suc n) [] x h = absurd (omega arith)
drop-append (suc n) (y ∷ ys) x h = drop-append n ys x (omega arith)

last_of-append :
    (test : ConvoRecord → Bool) (rs : List ConvoRecord) (c : ConvoRecord)
    → test c ≡ true
    → last_of test (rs ++ c ∷ []) ≡ some c
unfolding last_of
last_of-append test [] c h = rw h
last_of-append test (r ∷ rs) c h = rw (last_of-append test rs c h, last_of)

-- The ring keeps what was put in last.
last_of-trim_ring :
    (test : ConvoRecord → Bool) (rs : List ConvoRecord) (c : ConvoRecord)
    → test c ≡ true
    → last_of test (trim_ring (rs ++ c ∷ [])) ≡ some c
unfolding trim_ring
last_of-trim_ring test rs c h = elim (Bool-cases (ltb convo_record_cap (length (rs ++ c ∷ [])))) [
  | inr e ↦ rw (e, trim_ring) (last_of-append test rs c h)
  | inl e ↦
      let n : ℕ = length (rs ++ c ∷ []) - convo_record_cap in
      let le : n ≤ length rs = omega (arith, length-append {0} rs (c ∷ [])) in
      rw (e, trim_ring) (rw (drop-append n rs c le) (last_of-append test (drop n rs) c h))
]

-- A conversation that was recorded is the last one between any two that it names, also where the
-- ring was full.
pub last_conversation-conversation :
    (v : Village) (tick : ℕ) (p : ConversationPayload) (a b : ℤ)
    → names a (parts_of p) ≡ true
    → names b (parts_of p) ≡ true
    → (v' : Village) × (r : ConvoRecord) × (apply_social v tick (conversation p) ≡ some (v', none))
      × (last_conversation_between v' a b ≡ some r)
      × (r.conv ≡ p.conv)
      × (r.gist ≡ p.gist)
      × (r.participants ≡ parts_of p)
unfolding apply_social apply_conversation last_conversation_between
last_conversation-conversation v tick p a b ha hb =
    let r : ConvoRecord = record {
      conv = p.conv;
      tick = tick;
      participants = parts_of p;
      gist = p.gist;
      topics = p.topics;
      tones = p.tones;
    } in
    (
      record v { conversations = trim_ring (v.conversations ++ r ∷ []) },
      r,
      refl,
      last_of-trim_ring (λ (c : ConvoRecord). names a c.participants && names b c.participants)
          v.conversations r (rw (ha, hb)),
      refl,
      refl,
      refl,
    )

relation_between-update :
    (f : Relation → Relation) (a b : ℤ) (rs : List Relation)
    → ((x y : ℤ) (r : Relation) → is_edge x y (f r) ≡ is_edge x y r)
    → relation_between a b (update_relation f a b rs) ≡ f (relation_between a b rs)
unfolding relation_between update_relation
relation_between-update f a b [] tame =
    let same : is_edge a b (no_relation a b) ≡ true =
      ground (arith, eqb_ℤ_iff a a, eqb_ℤ_iff b b) in
    rw (tame a b (no_relation a b) ∙ same)
relation_between-update f a b (r ∷ rs) tame = elim (Bool-cases (is_edge a b r)) [
  | inl e ↦ rw e (rw (tame a b r ∙ e))
  | inr e ↦ rw e (rw e (relation_between-update f a b rs tame))
]

relation_between-update_ne :
    (f : Relation → Relation) (a b x y : ℤ) (rs : List Relation)
    → ((x y : ℤ) (r : Relation) → is_edge x y (f r) ≡ is_edge x y r)
    → is_edge x y (no_relation a b) ≡ false
    → relation_between x y (update_relation f a b rs) ≡ relation_between x y rs
unfolding relation_between update_relation
relation_between-update_ne f a b x y [] tame ne = rw (tame x y (no_relation a b) ∙ ne)
relation_between-update_ne f a b x y (r ∷ rs) tame ne = elim (Bool-cases (is_edge a b r)) [
  | inl e ↦
      let other : is_edge x y r ≡ false = ground (arith, eqb_ℤ_iff r.from a, eqb_ℤ_iff r.to b) in
      rw e (rw (tame x y r ∙ other) (rw other))
  | inr e ↦ rw e (elim (Bool-cases (is_edge x y r)) [
    | inl e' ↦ rw e'
    | inr e' ↦ rw e' (relation_between-update_ne f a b x y rs tame ne)
  ])
]

is_edge-shift :
    (trust affection x y : ℤ) (r : Relation)
    → is_edge x y (shift_relation trust affection r) ≡ is_edge x y r
unfolding shift_relation
is_edge-shift trust affection x y r = refl

-- A change of the relation of two different agents in range is accepted. What is read of the pair
-- afterwards is what was read before, each side shifted and clamped, and what is read of any other
-- ordered pair is as it was.
pub relation_between-relation_changed :
    (v : Village) (tick : ℕ) (a b trust affection : ℤ) {o o' : Villager}
    → eqb_ℤ a b ≡ false
    → villager_at v.agents a ≡ some o
    → villager_at v.agents b ≡ some o'
    → (v' : Village) × (apply_social v tick (relation_changed a b trust affection)
        ≡ some (v', none))
      × (relation_between a b v'.relations
          ≡ shift_relation trust affection (relation_between a b v.relations))
      × ((x y : ℤ)
          → is_edge x y (no_relation a b) ≡ false
          → relation_between x y v'.relations ≡ relation_between x y v.relations)
unfolding apply_social apply_relation_changed
relation_between-relation_changed v tick a b trust affection ne ha hb =
    let f = shift_relation trust affection in
    (
      record v { relations = update_relation f a b v.relations },
      rw (ne, ha, hb, apply_relation_changed),
      relation_between-update f a b v.relations (is_edge-shift trust affection),
      λ x y other.
          relation_between-update_ne f a b x y v.relations (is_edge-shift trust affection) other,
    )
