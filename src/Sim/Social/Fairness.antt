-- ===== src/Sim/Social/Fairness.antt =====
-- internal/sim/social.go: each arm of `applySocial` keeps the trails of rumors.
use script_world.Prelude.{
  ℕ, suc, ◌≤◌, ◌<◌, ◌≡◌, ◌≢◌, refl, sym, ◌∙◌, subst, inl, inr, false, none, some, List, ◌==◌,
  ==_iff, arith, Bool-cases, Option-cases,
}
use script_world.Prelude.Int.{ℤ, eqb_ℤ}
use script_world.Sim.Item.{Kind}
use script_world.Sim.Journal.{Text}
use script_world.Sim.Social.Base.{Leaves, Leaves-if, Leaves-found}
use script_world.Sim.Social.Views.{rumor_floor}
use script_world.Sim.Social.Trails.{
  known_at, Trail, Trail-Keeps, known_at-change, change-congr, learn_here, AllClear-change,
}
use script_world.Sim.Social.{
  Village, Villager, KnownRumor, RumorToldPayload, SocialEvent, relation_changed, gave,
  promise_broken, rumor_told, secret_seeded, recorded, conversation, knows, villager_at, change,
  broken,
}
use script_world.Sim.Social.Arms.{
  apply_social, apply_relation_changed, apply_gave, apply_promise_broken, apply_rumor_told,
  apply_secret_seeded, apply_conversation, hear, feel, bear, add_rumor, hand_over, learn, learn_new,
  own_variant, heard_variant, receive, settle, close_first, with_id,
}
use script_world.Sim.Social.Gossip.{
  fade, max_hops, Source, learn-IsTraced, IsFair, IsGossip, IsTraced-suc, IsTraced, Tells,
}

-- Changes that leave the variants leave the trails.
IsTraced-change :
    {next : ℕ} (f : Villager → Villager) (os : List Villager) (i : ℤ)
    → ((o : Villager) → (f o).known ≡ o.known)
    → IsTraced next os
    → IsTraced next (change f os i)
IsTraced-change f os i same h = record {
  clear = AllClear-change f os i h.clear (λ o e. rw (same o) (h.clear i o e));
  born = λ j r k e. h.born j r k (sym (known_at-change f os i j r same) ∙ e);
  trail = λ j r k e.
      let (n, t, c, m) = h.trail j r k (sym (known_at-change f os i j r same) ∙ e) in
      (n, Trail-Keeps (λ j' r' k' e'. known_at-change f os i j' r' same ∙ e') t, c, m);
}

hand_over-IsTraced :
    {next : ℕ} (tick : ℕ) (from to : ℤ) (os : List Villager)
    → IsTraced next os
    → IsTraced next (hand_over tick from to os)
unfolding hand_over receive
hand_over-IsTraced tick from to os h =
    IsTraced-change _ _ from (λ o. refl)
      (IsTraced-change _ _ to (λ o. ground arith) (IsTraced-change _ os from (λ o. refl) h))

pub settle-agents :
    (tick : ℕ) (from to : ℤ) (k : Kind) (v : Village)
    → ((settle tick from to k v).agents ≡ v.agents)
      × ((settle tick from to k v).next_rumor_id ≡ v.next_rumor_id)
unfolding settle
settle-agents tick from to k v = (ground arith, ground arith)

feel-agents :
    (p : RumorToldPayload) (v : Village)
    → ((feel p v).agents ≡ v.agents) × ((feel p v).next_rumor_id ≡ v.next_rumor_id)
unfolding feel
feel-agents p v = (ground arith, ground arith)

settle-IsGossip :
    (tick : ℕ) (from to : ℤ) (k : Kind) (v : Village)
    → IsGossip v
    → IsGossip (settle tick from to k v)
settle-IsGossip tick from to k v h =
    rw ((settle-agents tick from to k v).0, (settle-agents tick from to k v).1) h

apply_gave-IsGossip :
    (v : Village) (tick : ℕ) (from to : ℤ) (k : Kind)
    → IsGossip v
    → Leaves IsGossip (apply_gave v tick from to k)
unfolding apply_gave
apply_gave-IsGossip v tick from to k h =
    Leaves-found IsGossip (villager_at v.agents from) _ _ tt λ giver _.
      Leaves-found IsGossip (villager_at v.agents to) _ _ tt λ _ _.
        Leaves-if IsGossip (giver.agent.inv.food_raw == 0) _ _ h (
          settle-IsGossip tick from to k (record v { agents = hand_over tick from to v.agents })
            (hand_over-IsTraced tick from to v.agents h))

unknown_at :
    (os : List Villager) (i : ℤ) (r : ℕ) {o : Villager}
    → villager_at os i ≡ some o
    → knows o r ≡ false
    → known_at os i r ≡ none
unfolding known_at knows
unknown_at os i r e h = rw (e, known_at) (ground arith)

known-false :
    (os : List Villager) (i : ℤ) (r : ℕ) {o : Villager}
    → villager_at os i ≡ some o
    → known_at os i r ≡ none
    → knows o r ≡ false
unfolding known_at knows
known-false os i r {o} e h = rw (rw (e, known_at) at h, knows)

-- What a variant's teller must be, where the listener has none of the rumor.
hear-IsGossip :
    (tick id : ℕ) (p : RumorToldPayload) (v : Village)
    → IsGossip v
    → id ≤ v.next_rumor_id
    → Source v.agents (heard_variant id p tick)
    → Leaves IsGossip (hear tick id p v)
unfolding hear
hear-IsGossip tick id p v h old source =
    Leaves-found IsGossip (villager_at v.agents p.to) _ _ tt λ o e. elim (Bool-cases (knows o id)) [
      | inl known ↦ rw known h
      | inr unknown ↦
          let heard = record v {
            agents = change (learn (heard_variant id p tick)) v.agents p.to;
          } in
          rw (unknown, (feel-agents p heard).0, (feel-agents p heard).1)
            (learn-IsTraced v.agents p.to (heard_variant id p tick) h e
              (unknown_at v.agents p.to id e unknown) old source)
    ]

fresh_at : (v : Village) (i : ℤ) → IsGossip v → known_at v.agents i (suc v.next_rumor_id) ≡ none
fresh_at v i h = elim (Option-cases (known_at v.agents i (suc v.next_rumor_id))) [
  | inl e ↦ e
  | inr (k, e) ↦ absurd (omega (arith, h.born i (suc v.next_rumor_id) k e))
]

apply_secret_seeded-IsGossip :
    (v : Village) (tick : ℕ) (a : ℤ) (text : Text) (tone : ℤ)
    → IsGossip v
    → Leaves IsGossip (apply_secret_seeded v tick a text tone)
unfolding apply_secret_seeded add_rumor
apply_secret_seeded-IsGossip v tick a text tone h =
    Leaves-found IsGossip (villager_at v.agents a) _ _ tt λ o e.
      learn-IsTraced v.agents a (own_variant (suc v.next_rumor_id) text tick) (IsTraced-suc h) e
        (fresh_at v a h) (omega arith) (inl (refl, omega arith))

bear_variant : (v : Village) (tick : ℕ) (p : RumorToldPayload) → KnownRumor
bear_variant v tick p = own_variant (suc v.next_rumor_id) p.text tick

-- A birth is the learning of the originator's own variant.
bear-agents :
    (tick : ℕ) (p : RumorToldPayload) (v : Village) {o : Villager}
    → IsGossip v
    → villager_at v.agents p.from ≡ some o
    → (bear tick p v).agents ≡ change (learn (bear_variant v tick p)) v.agents p.from
unfolding bear bear_variant learn_new
bear-agents tick p v {o} h e =
    change-congr (learn_new (bear_variant v tick p)) (learn (bear_variant v tick p)) v.agents p.from
      e (rw (known-false v.agents p.from (suc v.next_rumor_id) e (fresh_at v p.from h), learn_new))

bear-next :
    (tick : ℕ) (p : RumorToldPayload) (v : Village)
    → (bear tick p v).next_rumor_id ≡ suc v.next_rumor_id
unfolding bear add_rumor
bear-next tick p v = refl

bear-IsGossip :
    (tick : ℕ) (p : RumorToldPayload) (v : Village) {o : Villager}
    → IsGossip v
    → villager_at v.agents p.from ≡ some o
    → IsGossip (bear tick p v)
unfolding bear_variant
bear-IsGossip tick p v h e =
    rw (bear-agents tick p v h e, bear-next tick p v)
      (learn-IsTraced v.agents p.from (bear_variant v tick p) (IsTraced-suc h) e
        (fresh_at v p.from h) (omega arith) (inl (refl, omega arith)))

-- After a birth the originator is the end of the trail.
bear-Source :
    (tick : ℕ) (p : RumorToldPayload) (v : Village) {o : Villager}
    → IsGossip v
    → villager_at v.agents p.from ≡ some o
    → p.confidence ≤ fade 1
    → Source (bear tick p v).agents (heard_variant (suc v.next_rumor_id) p tick)
unfolding bear_variant
bear-Source tick p v h e c = rw (bear-agents tick p v h e) (
    inr (
      0,
      Trail.own (learn_here v.agents p.from (bear_variant v tick p) e (fresh_at v p.from h)) refl,
      c,
      omega arith,
    ))

-- After six hops nothing is above the floor.
has_room : (n c : ℕ) → n ≤ max_hops → c ≤ fade n → rumor_floor < c → n < max_hops
has_room n c m h above = elim (Bool-cases (n == max_hops)) [
  | inl e ↦
      let full : c ≤ 25 = subst (λ (a : ℕ). c ≤ fade a) ((==_iff n max_hops).0 e) h in
      absurd (omega arith)
  | inr e ↦ ground arith
]

-- A teller whose variant is above the floor has a trail that is not yet full.
told-Source :
    (tick : ℕ) (p : RumorToldPayload) (v : Village)
    → IsGossip v
    → Tells v.agents p
    → p.rumor_id ≢ 0
    → (p.rumor_id ≤ v.next_rumor_id) × Source v.agents (heard_variant p.rumor_id p tick)
told-Source tick p v h tells nonzero =
    let (k, e, above, conf) = tells.retold nonzero in
    let (n, t, c, m) = h.trail p.from p.rumor_id k e in
    (
      h.born p.from p.rumor_id k e,
      inr (n, t, omega (arith, conf, c), has_room n k.confidence m c above),
    )

apply_rumor_told-IsGossip :
    (v : Village) (tick : ℕ) (p : RumorToldPayload)
    → IsGossip v
    → Tells v.agents p
    → Leaves IsGossip (apply_rumor_told v tick p)
unfolding apply_rumor_told
apply_rumor_told-IsGossip v tick p h tells = elim (Bool-cases (p.rumor_id == 0)) [
  | inl zero_id ↦
      rw (zero_id, apply_rumor_told)
        (Leaves-found IsGossip (villager_at v.agents p.from) _ _ tt λ o e.
          hear-IsGossip tick (suc v.next_rumor_id) p (bear tick p v) (bear-IsGossip tick p v h e)
            (omega (arith, bear-next tick p v))
            (bear-Source tick p v h e (tells.birth ((==_iff p.rumor_id 0).0 zero_id))))
  | inr told ↦
      let (old, source) = told-Source tick p v h tells (λ e. ground arith) in
      rw (told, apply_rumor_told) (hear-IsGossip tick p.rumor_id p v h old source)
]

apply_relation_changed-IsGossip :
    (v : Village) (a b x y : ℤ) → IsGossip v → Leaves IsGossip (apply_relation_changed v a b x y)
unfolding apply_relation_changed
apply_relation_changed-IsGossip v a b x y h = Leaves-if IsGossip (eqb_ℤ a b) _ _ h (
    Leaves-found IsGossip (villager_at v.agents a) _ _ h
      λ _ _. Leaves-found IsGossip (villager_at v.agents b) _ _ h (λ _ _. h))

apply_promise_broken-IsGossip :
    (v : Village) (id : ℕ) → IsGossip v → Leaves IsGossip (apply_promise_broken v id)
unfolding apply_promise_broken
apply_promise_broken-IsGossip v id h =
    Leaves-found IsGossip (close_first (with_id id) broken v.debts) _ _ h (λ _ _. h)

-- From a village whose variants are traced, a social event that does not panic leaves one, where
-- a telling is of a rumor that the teller holds above the floor, with the confidence decayed, or
-- a birth of at most the once decayed highest confidence. Traced is: a villager has one variant
-- of a rumor, none is of a rumor with an id not yet given, and from each holder the links of the
-- variants lead in at most six hops to one whose own it is, with at most the confidence that as
-- many decays leave.
pub apply_social-IsGossip :
    (v : Village) (tick : ℕ) (e : SocialEvent)
    → IsGossip v
    → IsFair v e
    → Leaves IsGossip (apply_social v tick e)
unfolding apply_social apply_conversation
apply_social-IsGossip v tick (relation_changed a b x y) h f =
    apply_relation_changed-IsGossip v a b x y h
apply_social-IsGossip v tick (gave from to k) h f = apply_gave-IsGossip v tick from to k h
apply_social-IsGossip v tick (promise_broken id) h f = apply_promise_broken-IsGossip v id h
apply_social-IsGossip v tick (rumor_told p) h f = apply_rumor_told-IsGossip v tick p h f
apply_social-IsGossip v tick (secret_seeded a text tone) h f =
    apply_secret_seeded-IsGossip v tick a text tone h
apply_social-IsGossip v tick recorded h f = h
apply_social-IsGossip v tick (conversation p) h f = h
