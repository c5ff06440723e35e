-- ===== src/Tests/Villages.antt =====
-- Tests of the social fabric.
use script_world.Prelude.{
  ℕ, zero, suc, ◌+◌, ◌*◌, subst, ◌≡◌, ◌≢◌, ◌↔◌, ◌⊎◌, refl, true, false, none, some, List, [], ◌∷◌,
  arith, All, some-injective,
}
use script_world.Prelude.Int.{ℤ, pos, negsuc, sub_ℕ}
use script_world.Sim.State.{Memory, Agent}
use script_world.Sim.Social.{
  Village, Villager, Debt, KnownRumor, Rumor, ConversationPayload, ConvoRecord, gave, rumor_told,
  kept, broken, conversation, relation_changed, villager_at, clamp_int, is_edge, no_relation,
  relation_between, shift_relation, knows,
}
use script_world.Sim.Social.Arms.{apply_social, parts_of}
use script_world.Sim.Social.Base.{Leaves}
use script_world.Sim.Social.Edges.{IsFabric}
use script_world.Sim.Social.Fabric.{apply_social-IsFabric}
use script_world.Sim.Social.Ledger.{Keeps, apply_social-Extends, tally, reputation-tally}
use script_world.Sim.Social.Gossip.{IsGossip, IsFair}
use script_world.Sim.Social.Fairness.{apply_social-IsGossip}
use script_world.Sim.Social.Trails.{known_at, IsClear}
use script_world.Sim.Social.Views.{
  Tellable, reputation, names, last_conversation_between, tellable_for, tell_between, is_gossip,
  best_memory, rumor_by_id,
}
use script_world.Sim.Social.Telling.{rumor_tell_event, tellable_for-IsFair}
use script_world.Sim.Social.Silence.{Withheld, Private, tell_between-none, best_memory_later}
use script_world.Sim.Social.Reads.{
  last_conversation-conversation, relation_between-relation_changed,
}
use script_world.Sim.Item.{free_bulk}
use script_world.Sim.Social.Beat.{social_events, food, BeatEvent, social, remembers}
use script_world.Sim.Social.Meals.{CanGive, Moved, social_events-gift}
use script_world.Tests.Camp.{ada, ben, needs}

-- What Ada saw Cem do.
abbrev theft : Memory
theft = record {
  text = 1 ∷ [];
  salience = 7;
  tick = 10;
  subject = pos 2;
  tone = negsuc 29;
  where_at = none;
  why = [];
  conv = 0;
  origin = [];
}

abbrev nod : Memory
nod = record theft { text = 2 ∷ []; salience = 6 }

abbrev villager : Agent → Villager
villager a = record { agent = a; known = []; last_give = 0 }

abbrev ada_v : Villager
ada_v = villager (record ada { memories = theft ∷ [] })

abbrev ben_v : Villager
ben_v = villager ben

abbrev village : Village
village = record {
  agents = ada_v ∷ ben_v ∷ [];
  relations = [];
  debts = [];
  next_debt_id = 0;
  rumors = [];
  next_rumor_id = 0;
  conversations = [];
}

abbrev starving_v : Villager
starving_v = villager (record ben { needs = record needs { food = 100 } })

abbrev hungry_village : Village
hungry_village = record village { agents = ada_v ∷ starving_v ∷ [] }

village-IsFabric : IsFabric village
village-IsFabric = record {
  bounded = tt;
  distinct = tt;
  debt_ids = tt;
  last_debt = refl;
  rumor_ids = tt;
  last_rumor = refl;
  ring = omega arith;
}

nothing_known : (i : ℤ) (r : ℕ) (k : KnownRumor) → known_at village.agents i r ≢ some k
unfolding known_at
nothing_known (pos zero) r k e = cc e
nothing_known (pos (suc zero)) r k e = cc e
nothing_known (pos (suc (suc n))) r k e = cc e
nothing_known (negsuc n) r k e = cc e

nobody_knows : (i : ℤ) (o : Villager) → villager_at village.agents i ≡ some o → IsClear o.known
unfolding villager_at
nobody_knows (pos zero) o e = subst (λ (x : Villager). IsClear x.known) (some-injective _ _ e) tt
nobody_knows (pos (suc zero)) o e =
    subst (λ (x : Villager). IsClear x.known) (some-injective _ _ e) tt
nobody_knows (pos (suc (suc n))) o e = absurd (cc e)
nobody_knows (negsuc n) o e = absurd (cc e)

village-IsGossip : IsGossip village
village-IsGossip = record {
  clear = nobody_knows;
  born = λ i r k e. absurd (nothing_known i r k e);
  trail = λ i r k e. absurd (nothing_known i r k e);
}

apply_social-IsFabric_example :
    Leaves IsFabric (apply_social village 100 (gave (pos 0) (pos 1) food))
apply_social-IsFabric_example =
    apply_social-IsFabric village 100 (gave (pos 0) (pos 1) food) village-IsFabric

apply_social-Extends_example :
    Leaves (Keeps village) (apply_social village 100 (gave (pos 0) (pos 1) food))
apply_social-Extends_example = apply_social-Extends village 100 (gave (pos 0) (pos 1) food)

-- Ben kept one promise and broke another.
abbrev ledger : List Debt
ledger =
    record { id = 1; debtor = pos 1; creditor = pos 0; kind = food; due = 9; status = kept }
    ∷ record { id = 2; debtor = pos 1; creditor = pos 0; kind = food; due = 9; status = broken }
    ∷ []

abbrev indebted : Village
indebted = record village { debts = ledger; next_debt_id = 2 }

bens_reputation : reputation indebted (pos 1) ≡ pos 400
unfolding reputation
bens_reputation = refl

reputation-tally_example :
    reputation indebted (pos 1)
    ≡ clamp_int
        (sub_ℕ (500 + 100 * tally kept (pos 1) ledger) (200 * tally broken (pos 1) ledger))
        (pos 0)
        (pos 1000)
reputation-tally_example = reputation-tally indebted (pos 1)

abbrev told : Tellable
told = record { rumor_id = 0; subject = pos 2; tone = negsuc 29; text = 1 ∷ []; confidence = 56 }

told_to_ben : tellable_for village (pos 0) (pos 1) ≡ some (some told)
unfolding tellable_for villager_at
told_to_ben = refl

tellable_for-IsFair_example :
    IsFair village (rumor_told (rumor_tell_event (pos 0) (pos 1) told))
    × (told.subject ≢ pos 1)
    × ((told.rumor_id ≡ 0)
        ⊎ (knows ben_v told.rumor_id ≡ false)
          × ((r : Rumor) → rumor_by_id told.rumor_id [] ≡ some r → r.secret ≡ false))
unfolding villager_at
tellable_for-IsFair_example =
    tellable_for-IsFair village (pos 0) (pos 1) ada_v ben_v told village-IsGossip refl refl
      (omega arith) told_to_ben

told-IsFair : IsFair village (rumor_told (rumor_tell_event (pos 0) (pos 1) told))
unfolding rumor_tell_event
told-IsFair = record { birth = λ _. omega arith; retold = λ ne. absurd (ne refl) }

apply_social-IsGossip_example :
    Leaves IsGossip (apply_social village 100 (rumor_told (rumor_tell_event (pos 0) (pos 1) told)))
apply_social-IsGossip_example =
    apply_social-IsGossip village 100 (rumor_told (rumor_tell_event (pos 0) (pos 1) told))
      village-IsGossip told-IsFair

-- A secret that Ben knows of.
abbrev secrets : List Rumor
secrets =
    record {
      id = 3;
      subject = pos 2;
      tone = pos 1;
      secret = true;
      origin_agent = pos 1;
      origin_tick = 20;
    }
    ∷ []

abbrev knowing_v : Villager
knowing_v = record ben_v {
  known = record { rumor_id = 3; text = 1 ∷ []; confidence = 90; from = negsuc 0; tick = 20 } ∷ [];
}

keeps_the_secret : tell_between secrets (pos 1) (pos 0) knowing_v ada_v ≡ none
unfolding tell_between
keeps_the_secret = refl

tell_between-none_example :
    (tell_between secrets (pos 1) (pos 0) knowing_v ada_v ≡ none)
    ↔ All (Withheld secrets ada_v (pos 0)) knowing_v.known
      × All (Private (pos 1) (pos 0)) knowing_v.agent.memories
tell_between-none_example = tell_between-none secrets (pos 1) (pos 0) knowing_v ada_v

theft-is_gossip : is_gossip (pos 0) (pos 1) theft ≡ true
unfolding is_gossip
theft-is_gossip = refl

nod-is_gossip : is_gossip (pos 0) (pos 1) nod ≡ true
unfolding is_gossip
nod-is_gossip = refl

best_memory_later_example :
    (t : Tellable) × (best_memory (pos 0) (pos 1) none (theft ∷ nod ∷ []) ≡ some t)
    × (t.text ≡ nod.text)
    × (t.subject ≡ nod.subject)
best_memory_later_example =
    best_memory_later (pos 0) (pos 1) theft nod theft-is_gossip nod-is_gossip (omega arith)
      (omega arith)

abbrev meal_events : List BeatEvent
meal_events =
    social (relation_changed (pos 1) (pos 0) (pos 30) (pos 20))
    ∷ social (relation_changed (pos 0) (pos 1) (pos 0) (pos 10))
    ∷ remembers (pos 1) (pos 0) (pos 40) 5
    ∷ remembers (pos 0) (negsuc 0) (pos 0) 5
    ∷ []

ada_gives : social_events hungry_village 30 ≡ social (gave (pos 0) (pos 1) food) ∷ meal_events
unfolding social_events free_bulk
ada_gives = refl

social_events-gift_example :
    (g : CanGive hungry_village (pos 0) (pos 1)) × (v' : Village) × (giver' : Villager)
    × (receiver' : Villager) × (apply_social hungry_village 30 (gave (pos 0) (pos 1) food)
        ≡ some (v', none))
    × (villager_at v'.agents (pos 0) ≡ some giver')
    × (villager_at v'.agents (pos 1) ≡ some receiver')
    × Moved 30 g.giver g.receiver giver' receiver'
social_events-gift_example =
    social_events-gift hungry_village 30 (pos 0) (pos 1) food meal_events ada_gives

abbrev chat : ConversationPayload
chat = record {
  conv = 40;
  a = pos 0;
  b = pos 1;
  gist = 3 ∷ [];
  participants = [];
  topics = [];
  tones = [];
}

names_ada : names (pos 0) (parts_of chat) ≡ true
unfolding names
names_ada = refl

names_ben : names (pos 1) (parts_of chat) ≡ true
unfolding names
names_ben = refl

last_conversation-conversation_example :
    (v' : Village) × (r : ConvoRecord) × (apply_social village 50 (conversation chat)
      ≡ some (v', none))
    × (last_conversation_between v' (pos 0) (pos 1) ≡ some r)
    × (r.conv ≡ 40)
    × (r.gist ≡ 3 ∷ [])
    × (r.participants ≡ pos 0 ∷ pos 1 ∷ [])
last_conversation-conversation_example =
    last_conversation-conversation village 50 chat (pos 0) (pos 1) names_ada names_ben

ada_here : villager_at village.agents (pos 0) ≡ some ada_v
unfolding villager_at
ada_here = refl

ben_here : villager_at village.agents (pos 1) ≡ some ben_v
unfolding villager_at
ben_here = refl

relation_between-relation_changed_example :
    (v' : Village) × (apply_social village 50 (relation_changed (pos 0) (pos 1) (pos 5) (pos 7))
      ≡ some (v', none))
    × (relation_between (pos 0) (pos 1) v'.relations
        ≡ shift_relation (pos 5) (pos 7) (relation_between (pos 0) (pos 1) []))
    × ((x y : ℤ)
        → is_edge x y (no_relation (pos 0) (pos 1)) ≡ false
        → relation_between x y v'.relations ≡ relation_between x y [])
relation_between-relation_changed_example =
    relation_between-relation_changed village 50 (pos 0) (pos 1) (pos 5) (pos 7) refl ada_here
      ben_here
