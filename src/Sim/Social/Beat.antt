-- ===== src/Sim/Social/Beat.antt =====
-- internal/sim/executor.go: the adjacency slot of a heartbeat (`socialEvents`): a repayment, a gift
-- to the starving, or a talk with a rumor. Of a memory event it is kept who remembers whom, with
-- what tone and salience; its text and place are left out.
use script_world.Prelude.{
  ℕ, suc, ◌-◌, Bool, not, ◌&&◌, ◌||◌, Option, none, some, List, [], ◌∷◌, if◌then◌else◌, ◌==◌, ltb,
  leb,
}
use script_world.Prelude.Int.{ℤ, pos, negsuc, eqb_ℤ}
use script_world.Sim.Item.{Kind, kind_eq, free_bulk}
use script_world.Sim.Guard.{distance}
use script_world.Sim.Social.Views.{tell_between}
use script_world.Sim.Social.Telling.{rumor_tell_event}
use script_world.Sim.Social.{
  Village, Villager, Rumor, Debt, SocialEvent, relation_changed, gave, rumor_told,
}
use script_world.Sim.Social.Arms.{is_open}

pub data BeatEvent : Type 0 where
  social : SocialEvent → BeatEvent
  talked : ℤ → ℤ → BeatEvent
  remembers : ℤ → ℤ → ℤ → ℕ → BeatEvent

-- The debt kind "food", which is no item key.
abbrev pub food : Kind
food = Kind.other 0

abbrev pub give_keeps_at_least : ℕ
give_keeps_at_least = 2

abbrev pub give_cooldown_sec : ℕ
give_cooldown_sec = 3600

abbrev pub give_need_below : ℕ
give_need_below = 150

abbrev pub talk_cooldown_sec : ℕ
talk_cooldown_sec = 7200

-- Never, or long enough ago.
abbrev pub cooled : ℕ → ℕ → ℕ → Bool
cooled tick last cooldown = last == 0 || leb cooldown (tick - last)

unfoldable pub can_give : Villager → ℕ → Bool
can_give o tick =
    leb give_keeps_at_least o.agent.inv.food_raw && cooled tick o.last_give give_cooldown_sec

unfoldable pub can_talk : Villager → ℕ → Bool
can_talk o tick = cooled tick o.agent.last_talk talk_cooldown_sec

-- Who hands a meal to whom.
pub record Gift : Type 0 where
  pub from : ℤ
  pub to : ℤ

abbrev pub has_room : Villager → Bool
has_room o = ltb 0 (free_bulk o.agent.inv)

-- The loop of `repayable` over the ledger, for the villagers `a` and `b` of the indices.
unfoldable pub repayable : ℕ → ℤ → Villager → ℤ → Villager → List Debt → Option Gift
unfolding kind_eq can_give
repayable tick i a j b [] = none
repayable tick i a j b (d ∷ ds) =
    let rest = repayable tick i a j b ds in
    if not (is_open d.status) || not (kind_eq d.kind food)
    then rest
    else if eqb_ℤ d.debtor i && eqb_ℤ d.creditor j && can_give a tick && has_room b
    then some (record { from = i; to = j })
    else if eqb_ℤ d.debtor j && eqb_ℤ d.creditor i && can_give b tick && has_room a
    then some (record { from = j; to = i })
    else rest

unfoldable pub giveable : ℕ → ℤ → Villager → ℤ → Villager → Option Gift
unfolding can_give
giveable tick i a j b =
    if ltb a.agent.needs.food give_need_below && can_give b tick && has_room a
    then some (record { from = j; to = i })
    else if ltb b.agent.needs.food give_need_below && can_give a tick && has_room b
    then some (record { from = i; to = j })
    else none

-- The closure `give`.
unfoldable pub give_events : Gift → List BeatEvent
give_events g =
    social (gave g.from g.to food)
    ∷ social (relation_changed g.to g.from (pos 30) (pos 20))
    ∷ social (relation_changed g.from g.to (pos 0) (pos 10))
    ∷ remembers g.to g.from (pos 40) 5
    ∷ remembers g.from (negsuc 0) (pos 0) 5
    ∷ []

unfoldable pub tell_events : List Rumor → ℤ → Villager → ℤ → Villager → List BeatEvent
unfolding tell_between rumor_tell_event
tell_events rumors i a j b = elim (tell_between rumors i j a b) [
  | some t ↦ social (rumor_told (rumor_tell_event i j t)) ∷ []
  | none ↦ elim (tell_between rumors j i b a) [
    | some t ↦ social (rumor_told (rumor_tell_event j i t)) ∷ []
    | none ↦ []
  ]
]

unfoldable pub talk_events : List Rumor → ℤ → Villager → ℤ → Villager → List BeatEvent
unfolding tell_events
talk_events rumors i a j b =
    talked i j
    ∷ social (relation_changed i j (pos 0) (pos 5))
    ∷ social (relation_changed j i (pos 0) (pos 5))
    ∷ remembers i (negsuc 0) (pos 0) 3
    ∷ remembers j (negsuc 0) (pos 0) 3
    ∷ tell_events rumors i a j b

abbrev pub is_away : Villager → Bool
is_away o = o.agent.dead || o.agent.asleep

-- What a pair does, once it is found beside one another; `none` where the loop goes on.
unfoldable pub pair_beat : Village → ℕ → ℤ → Villager → ℤ → Villager → Option (List BeatEvent)
unfolding repayable giveable give_events can_talk talk_events
pair_beat v tick i a j b = elim (repayable tick i a j b v.debts) [
  | some g ↦ some (give_events g)
  | none ↦ elim (giveable tick i a j b) [
    | some g ↦ some (give_events g)
    | none ↦
        if can_talk a tick && can_talk b tick then some (talk_events v.rumors i a j b) else none
  ]
]

-- The inner loop, over the villagers from the index `j` on.
unfoldable pub partner_loop :
    Village → ℕ → ℤ → Villager → ℕ → List Villager → Option (List BeatEvent)
unfolding pair_beat
partner_loop v tick i a j [] = none
partner_loop v tick i a j (b ∷ rest) =
    let later = partner_loop v tick i a (suc j) rest in
    if is_away b || not (distance a.agent b.agent == 1)
    then later
    else elim (pair_beat v tick i a (pos j) b) [ some evs ↦ some evs | none ↦ later ]

-- The outer loop, over the villagers from the index `i` on.
unfoldable pub beat_loop : Village → ℕ → ℕ → List Villager → List BeatEvent
unfolding partner_loop
beat_loop v tick i [] = []
beat_loop v tick i (a ∷ rest) =
    let later = beat_loop v tick (suc i) rest in
    if is_away a
    then later
    else elim (partner_loop v tick (pos i) a (suc i) rest) [ some evs ↦ evs | none ↦ later ]

unfoldable pub social_events : Village → ℕ → List BeatEvent
unfolding beat_loop
social_events v tick = beat_loop v tick 0 v.agents
