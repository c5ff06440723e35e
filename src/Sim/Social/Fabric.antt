-- ===== src/Sim/Social/Fabric.antt =====
-- internal/sim/social.go: each arm of `applySocial` keeps the order of the fabric.
use script_world.Prelude.{
  ℕ, suc, ◌-◌, ◌≤◌, List, [], ◌∷◌, ◌++◌, ◌==◌, length, length-append, length-drop, arith, inl, inr,
  Bool-cases, Option-cases,
}
use script_world.Prelude.Int.{ℤ, eqb_ℤ}
use script_world.Sim.Item.{Kind}
use script_world.Sim.Journal.{Text}
use script_world.Sim.Social.Base.{Leaves, Leaves-if, Leaves-found}
use script_world.Sim.Social.Edges.{
  IsFabric, update_relation-IsFabric, shift_relation-IsTame, warm_relation-IsTame,
  close_first-IsFabric, settle-IsFabric, add_rumor-IsFabric,
}
use script_world.Sim.Social.{
  Village, ConvoRecord, broken, RumorToldPayload, ConversationPayload, SocialEvent,
  relation_changed, gave, promise_broken, rumor_told, secret_seeded, recorded, conversation, knows,
  villager_at, shift_relation, warm_relation, convo_record_cap, Villager,
}
use script_world.Sim.Social.Arms.{
  apply_social, apply_relation_changed, apply_gave, apply_promise_broken, apply_rumor_told,
  apply_secret_seeded, apply_conversation, close_first, with_id, hear, feel, bear, add_rumor,
  hand_over, quarter, trim_ring,
}

-- The fabric says nothing of the agents.
IsFabric-agents :
    (v : Village) (os : List Villager) → IsFabric v → IsFabric (record v { agents = os })
IsFabric-agents v os h = record {
  bounded = h.bounded;
  distinct = h.distinct;
  debt_ids = h.debt_ids;
  last_debt = h.last_debt;
  rumor_ids = h.rumor_ids;
  last_rumor = h.last_rumor;
  ring = h.ring;
}

apply_relation_changed-IsFabric :
    (v : Village) (a b x y : ℤ) → IsFabric v → Leaves IsFabric (apply_relation_changed v a b x y)
unfolding apply_relation_changed
apply_relation_changed-IsFabric v a b x y h = Leaves-if IsFabric (eqb_ℤ a b) _ _ h (
    Leaves-found IsFabric (villager_at v.agents a) _ _ h λ _ _.
      Leaves-found IsFabric (villager_at v.agents b) _ _ h
        λ _ _. update_relation-IsFabric (shift_relation x y) (shift_relation-IsTame x y) a b v h)

apply_gave-IsFabric :
    (v : Village) (tick : ℕ) (from to : ℤ) (k : Kind)
    → IsFabric v
    → Leaves IsFabric (apply_gave v tick from to k)
unfolding apply_gave
apply_gave-IsFabric v tick from to k h =
    Leaves-found IsFabric (villager_at v.agents from) _ _ tt λ giver _.
      Leaves-found IsFabric (villager_at v.agents to) _ _ tt λ _ _.
        let os = hand_over tick from to v.agents in
        Leaves-if IsFabric (giver.agent.inv.food_raw == 0) _ _ h
          (settle-IsFabric tick from to k (record v { agents = os }) (IsFabric-agents v os h))

apply_promise_broken-IsFabric :
    (v : Village) (id : ℕ) → IsFabric v → Leaves IsFabric (apply_promise_broken v id)
unfolding apply_promise_broken
apply_promise_broken-IsFabric v id h =
    Leaves-found IsFabric (close_first (with_id id) broken v.debts) _ _ h
      λ ds e. close_first-IsFabric (with_id id) broken v h e

feel-IsFabric : (p : RumorToldPayload) (v : Village) → IsFabric v → IsFabric (feel p v)
unfolding feel
feel-IsFabric p v h = elim (Bool-cases (eqb_ℤ p.subject p.to)) [
  | inl e ↦ rw (e, feel) h
  | inr e ↦ elim (Option-cases (villager_at v.agents p.subject)) [
    | inl g ↦ rw (e, g, feel) h
    | inr (o, g) ↦
        let warm = warm_relation (quarter p.tone) in
        rw (e, g, feel)
          (update_relation-IsFabric warm (warm_relation-IsTame (quarter p.tone)) p.to p.subject v h)
  ]
]

hear-IsFabric :
    (tick id : ℕ) (p : RumorToldPayload) (v : Village)
    → IsFabric v
    → Leaves IsFabric (hear tick id p v)
unfolding hear
hear-IsFabric tick id p v h =
    Leaves-found IsFabric (villager_at v.agents p.to) _ _ tt
      λ o _. Leaves-if IsFabric (knows o id) _ _ h (feel-IsFabric p _ (IsFabric-agents v _ h))

bear-IsFabric :
    (tick : ℕ) (p : RumorToldPayload) (v : Village) → IsFabric v → IsFabric (bear tick p v)
unfolding bear
bear-IsFabric tick p v h =
    IsFabric-agents (add_rumor p.subject p.tone p.secret p.from tick v) _
      (add_rumor-IsFabric p.subject p.tone p.secret p.from tick v h)

apply_rumor_told-IsFabric :
    (v : Village) (tick : ℕ) (p : RumorToldPayload)
    → IsFabric v
    → Leaves IsFabric (apply_rumor_told v tick p)
unfolding apply_rumor_told
apply_rumor_told-IsFabric v tick p h =
    Leaves-if IsFabric (p.rumor_id == 0) _ _
      (Leaves-found IsFabric (villager_at v.agents p.from) _ _ tt λ _ _.
        hear-IsFabric tick (suc v.next_rumor_id) p (bear tick p v) (bear-IsFabric tick p v h))
      (hear-IsFabric tick p.rumor_id p v h)

apply_secret_seeded-IsFabric :
    (v : Village) (tick : ℕ) (a : ℤ) (text : Text) (tone : ℤ)
    → IsFabric v
    → Leaves IsFabric (apply_secret_seeded v tick a text tone)
unfolding apply_secret_seeded
apply_secret_seeded-IsFabric v tick a text tone h =
    Leaves-found IsFabric (villager_at v.agents a) _ _ tt
      λ _ _. IsFabric-agents _ _ (add_rumor-IsFabric a tone _ a tick v h)

length-trim_ring-le :
    (rs : List ConvoRecord) (c : ConvoRecord)
    → length rs ≤ convo_record_cap
    → length (trim_ring (rs ++ c ∷ [])) ≤ convo_record_cap
unfolding trim_ring
length-trim_ring-le rs c h =
    let new = rs ++ c ∷ [] in
    ground
      (arith, length-append {0} rs (c ∷ []), length-drop {0} (length new - convo_record_cap) new)

apply_conversation-IsFabric :
    (v : Village) (tick : ℕ) (p : ConversationPayload)
    → IsFabric v
    → Leaves IsFabric (apply_conversation v tick p)
unfolding apply_conversation
apply_conversation-IsFabric v tick p h = record {
  bounded = h.bounded;
  distinct = h.distinct;
  debt_ids = h.debt_ids;
  last_debt = h.last_debt;
  rumor_ids = h.rumor_ids;
  last_rumor = h.last_rumor;
  ring = length-trim_ring-le v.conversations _ h.ring;
}

-- Every social event that does not panic, refused or not, keeps the fabric in order: edges stay
-- from -1000 to 1000 with one for each ordered pair, the ids of debts and of rumors count up from
-- 1 to the last one given, and at most 64 conversations are kept.
pub apply_social-IsFabric :
    (v : Village) (tick : ℕ) (e : SocialEvent)
    → IsFabric v
    → Leaves IsFabric (apply_social v tick e)
unfolding apply_social
apply_social-IsFabric v tick (relation_changed a b x y) h =
    apply_relation_changed-IsFabric v a b x y h
apply_social-IsFabric v tick (gave from to k) h = apply_gave-IsFabric v tick from to k h
apply_social-IsFabric v tick (promise_broken id) h = apply_promise_broken-IsFabric v id h
apply_social-IsFabric v tick (rumor_told p) h = apply_rumor_told-IsFabric v tick p h
apply_social-IsFabric v tick (secret_seeded a text tone) h =
    apply_secret_seeded-IsFabric v tick a text tone h
apply_social-IsFabric v tick recorded h = h
apply_social-IsFabric v tick (conversation p) h = apply_conversation-IsFabric v tick p h
