-- ===== src/Sim/Social/Meals.antt =====
-- internal/sim/executor.go and social.go: what a heartbeat gives away the reducer moves whole.
use script_world.Prelude.{
  ℕ, ◌+◌, ◌-◌, ◌≤◌, ◌<◌, ◌≡◌, ◌≢◌, refl, sym, ◌∙◌, subst, ◌⊎◌, inl, inr, false, none, some, List,
  ◌∷◌, ◌==◌, lt→ltb, arith, get_elem?,
}
use script_world.Prelude.Int.{ℤ, pos}
use script_world.Sim.Item.{Kind, bulk, bulk_cap, free_bulk}
use script_world.Sim.Social.Trails.{villager_at-change_self, villager_at-change_ne}
use script_world.Sim.Social.Fairness.{settle-agents}
use script_world.Sim.Social.Beat.{BeatEvent, social, can_give, social_events}
use script_world.Sim.Social.{Village, Villager, gave, villager_at, change}
use script_world.Sim.Social.Arms.{apply_social, apply_gave, hand_over, receive, settle, with_food}
use script_world.Sim.Social.Gifts.{beat_loop-Paired, Beside}

-- A gift that can be given: from one villager to another beside it, both awake and alive, by one
-- that keeps a meal to one with room for it.
pub record CanGive (v : Village) (from to : ℤ) : Type 0 where
  pub giver : Villager
  pub receiver : Villager
  pub at_from : villager_at v.agents from ≡ some giver
  pub at_to : villager_at v.agents to ≡ some receiver
  pub others : from ≢ to
  pub beside : Beside giver receiver ⊎ Beside receiver giver
  pub spare : 2 ≤ giver.agent.inv.food_raw
  pub room : bulk receiver.agent.inv < bulk_cap

villager_at_pos :
    (os : List Villager) (n : ℕ) {i : ℤ} {o : Villager}
    → i ≡ pos (0 + n)
    → get_elem? os n ≡ some o
    → villager_at os i ≡ some o
unfolding villager_at
villager_at_pos os n {o = o} e at =
    rw e (subst (λ (x : ℕ). get_elem? os x ≡ some o) (omega arith) at)

pos-ne : (n m : ℕ) {i j : ℤ} → i ≡ pos (0 + n) → j ≡ pos (0 + m) → n < m → i ≢ j
pos-ne n m e e' lt same = ground arith

social_events-CanGive :
    (v : Village) (tick : ℕ) {from to : ℤ} {k : Kind} {rest : List BeatEvent}
    → social_events v tick ≡ social (gave from to k) ∷ rest
    → CanGive v from to
unfolding social_events can_give free_bulk
social_events-CanGive v tick h =
    let (n, m, a, b, at, at', lt, beside, fits) = beat_loop-Paired v tick 0 v.agents h in
    elim fits [
      | inl (f, t, can, room) ↦ record {
        giver = a;
        receiver = b;
        at_from = villager_at_pos v.agents n f at;
        at_to = villager_at_pos v.agents m t at';
        others = pos-ne n m f t lt;
        beside = inl beside;
        spare = ground arith;
        room = ground arith;
      }
      | inr (f, t, can, room) ↦ record {
        giver = b;
        receiver = a;
        at_from = villager_at_pos v.agents m f at';
        at_to = villager_at_pos v.agents n t at;
        others = λ same. pos-ne n m t f lt (sym same);
        beside = inr beside;
        spare = ground arith;
        room = ground arith;
      }
    ]

-- What the reducer leaves of the two: one meal has gone over, and the clock of the giver is set.
pub record Moved (tick : ℕ) (giver receiver giver' receiver' : Villager) : Type 0 where
  pub given : giver'.agent.inv.food_raw + 1 ≡ giver.agent.inv.food_raw
  pub left_one : 1 ≤ giver'.agent.inv.food_raw
  pub received : receiver'.agent.inv.food_raw ≡ receiver.agent.inv.food_raw + 1
  pub within_cap : bulk receiver'.agent.inv ≤ bulk_cap
  pub clock : giver'.last_give ≡ tick

stamp : ℕ → Villager → Villager
stamp tick o = record o { last_give = tick }

module _ (v : Village) (tick : ℕ) (from to : ℤ) (g : CanGive v from to) where
  hand_over-from :
      villager_at (hand_over tick from to v.agents) from
      ≡ some (stamp tick (with_food (λ n. n - 1) g.giver))
  unfolding hand_over stamp
  hand_over-from =
      let taken = change (with_food (λ n. n - 1)) v.agents from in
      villager_at-change_self (λ o. record o { last_give = tick }) (change receive taken to) from
        (villager_at-change_ne receive taken to (λ e. g.others (sym e))
          ∙ villager_at-change_self (with_food (λ n. n - 1)) v.agents from g.at_from)

  hand_over-to : villager_at (hand_over tick from to v.agents) to ≡ some (receive g.receiver)
  unfolding hand_over
  hand_over-to =
      let taken = change (with_food (λ n. n - 1)) v.agents from in
      villager_at-change_ne (λ o. record o { last_give = tick }) (change receive taken to) from
        g.others
      ∙ villager_at-change_self receive taken to
          (villager_at-change_ne (with_food (λ n. n - 1)) v.agents from g.others ∙ g.at_to)

  hand_over-Moved :
      Moved tick g.giver g.receiver
        (stamp tick (with_food (λ n. n - 1) g.giver))
        (receive g.receiver)
  unfolding receive bulk stamp
  hand_over-Moved =
      let room = g.room in
      let spare = g.spare in
      rw (lt→ltb _ _ room) (record {
        given = omega arith;
        left_one = omega arith;
        received = omega arith;
        within_cap = omega arith;
        clock = refl;
      })

  apply_gave-done :
      (k : Kind)
      → apply_social v tick (gave from to k)
        ≡ some (settle tick from to k (record v { agents = hand_over tick from to v.agents }), none)
  unfolding apply_social apply_gave
  apply_gave-done k =
      let spare = g.spare in
      let has_food : (g.giver.agent.inv.food_raw == 0) ≡ false = ground arith in
      rw (g.at_from, g.at_to, has_food, apply_gave)

-- Where a heartbeat gives a meal, the two are different villagers in range, beside one another,
-- alive and awake, and the reducer accepts the event: one meal goes from the giver, who keeps at
-- least one, to the receiver, whose pouch stays within its cap, and the giver's clock is set.
pub social_events-gift :
    (v : Village) (tick : ℕ) (from to : ℤ) (k : Kind) (rest : List BeatEvent)
    → social_events v tick ≡ social (gave from to k) ∷ rest
    → (g : CanGive v from to) × (v' : Village) × (giver' : Villager) × (receiver' : Villager)
      × (apply_social v tick (gave from to k) ≡ some (v', none))
      × (villager_at v'.agents from ≡ some giver')
      × (villager_at v'.agents to ≡ some receiver')
      × Moved tick g.giver g.receiver giver' receiver'
social_events-gift v tick from to k rest h =
    let g = social_events-CanGive v tick h in
    let handed = record v { agents = hand_over tick from to v.agents } in
    let same = (settle-agents tick from to k handed).0 in
    (
      g,
      settle tick from to k handed,
      stamp tick (with_food (λ n. n - 1) g.giver),
      receive g.receiver,
      apply_gave-done v tick from to g k,
      rw same (hand_over-from v tick from to g),
      rw same (hand_over-to v tick from to g),
      hand_over-Moved v tick from to g,
    )
