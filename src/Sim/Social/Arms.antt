-- ===== src/Sim/Social/Arms.antt =====
-- internal/sim/social.go: `applySocial`, one function for each of its cases.
use script_world.Prelude.{
  ℕ, suc, ◌+◌, ◌-◌, ◌/◌, Bool, true, false, ◌&&◌, Option, none, some, List, [], ◌∷◌, ◌++◌,
  if◌then◌else◌, ◌==◌, ltb, length, drop,
}
use script_world.Prelude.Int.{ℤ, pos, negsuc, eqb_ℤ}
use script_world.Sim.Item.{Kind, kind_eq, bulk, bulk_cap}
use script_world.Sim.Journal.{Text}
use script_world.Sim.Social.{
  relation_changed, gave, promise_broken, rumor_told, secret_seeded, recorded, conversation,
  bad_pair, no_food, Outcome, done, debt_due_ticks, convo_record_cap, villager_at, change, knows,
  update_relation, shift_relation, warm_relation, DebtStatus, Debt, KnownRumor, ConvoRecord,
  Villager, Village, RumorToldPayload, ConversationPayload, SocialEvent, still_open, kept, broken,
}

unfoldable pub apply_relation_changed : Village → ℤ → ℤ → ℤ → ℤ → Outcome
unfolding villager_at update_relation shift_relation
apply_relation_changed v a b trust affection =
    if eqb_ℤ a b then some (v, some (bad_pair a b)) else elim (villager_at v.agents a) [
      | none ↦ some (v, some (bad_pair a b))
      | some _ ↦ elim (villager_at v.agents b) [
        | none ↦ some (v, some (bad_pair a b))
        | some _ ↦ done (record v {
          relations = update_relation (shift_relation trust affection) a b v.relations;
        })
      ]
    ]

abbrev pub is_open : DebtStatus → Bool
is_open still_open = true
is_open _ = false

unfoldable pub owes : ℤ → ℤ → Kind → Debt → Bool
unfolding kind_eq
owes from to kind d =
    is_open d.status && eqb_ℤ d.debtor from && eqb_ℤ d.creditor to && kind_eq d.kind kind

abbrev pub with_head : Debt → Option (List Debt) → Option (List Debt)
with_head d none = none
with_head d (some ds) = some (d ∷ ds)

-- The loop over the ledger, for a test and the status that the first debt of it takes; `none`
-- where no debt meets the test.
unfoldable pub close_first : (Debt → Bool) → DebtStatus → List Debt → Option (List Debt)
close_first test status [] = none
close_first test status (d ∷ ds) =
    let rest = with_head d (close_first test status ds) in
    if test d then some (record d { status = status } ∷ ds) else rest

unfoldable pub settle : ℕ → ℤ → ℤ → Kind → Village → Village
unfolding close_first owes
settle tick from to kind v = elim (close_first (owes from to kind) kept v.debts) [
  | some ds ↦ record v { debts = ds }
  | none ↦ record v {
    next_debt_id = suc v.next_debt_id;
    debts =
        v.debts
        ++ record {
          id = suc v.next_debt_id;
          debtor = to;
          creditor = from;
          kind = kind;
          due = tick + debt_due_ticks;
          status = still_open;
        }
          ∷ [];
  }
]

abbrev pub with_food : (ℕ → ℕ) → Villager → Villager
with_food f o = record o {
  agent = record o.agent { inv = record o.agent.inv { food_raw = f o.agent.inv.food_raw } };
}

unfoldable pub receive : Villager → Villager
receive o = if ltb (bulk o.agent.inv) bulk_cap then with_food suc o else o

unfoldable pub hand_over : ℕ → ℤ → ℤ → List Villager → List Villager
unfolding change receive
hand_over tick from to agents =
    change (λ o. record o { last_give = tick })
      (change receive (change (with_food (λ n. n - 1)) agents from) to) from

unfoldable pub apply_gave : Village → ℕ → ℤ → ℤ → Kind → Outcome
unfolding villager_at settle hand_over
apply_gave v tick from to kind = elim (villager_at v.agents from) [
  | none ↦ none
  | some giver ↦ elim (villager_at v.agents to) [
    | none ↦ none
    | some _ ↦
        if giver.agent.inv.food_raw == 0
        then some (v, some (no_food from))
        else done (settle tick from to kind (record v { agents = hand_over tick from to v.agents }))
  ]
]

abbrev pub with_id : ℕ → Debt → Bool
with_id id d = d.id == id && is_open d.status

unfoldable pub apply_promise_broken : Village → ℕ → Outcome
unfolding close_first
apply_promise_broken v id = elim (close_first (with_id id) broken v.debts) [
  | none ↦ done v
  | some ds ↦ done (record v { debts = ds })
]

abbrev pub learn : KnownRumor → Villager → Villager
learn k o = record o { known = o.known ++ k ∷ [] }

-- Append a variant where the villager has none of the rumor.
unfoldable pub learn_new : KnownRumor → Villager → Villager
unfolding knows
learn_new k o = if knows o k.rumor_id then o else learn k o

unfoldable pub add_rumor : ℤ → ℤ → Bool → ℤ → ℕ → Village → Village
add_rumor subject tone secret origin tick v = record v {
  next_rumor_id = suc v.next_rumor_id;
  rumors =
      v.rumors
      ++ record {
        id = suc v.next_rumor_id;
        subject = subject;
        tone = tone;
        secret = secret;
        origin_agent = origin;
        origin_tick = tick;
      }
        ∷ [];
}

abbrev pub own_variant : ℕ → Text → ℕ → KnownRumor
own_variant id text tick = record {
  rumor_id = id;
  text = text;
  confidence = 100;
  from = negsuc 0;
  tick = tick;
}

abbrev pub heard_variant : ℕ → RumorToldPayload → ℕ → KnownRumor
heard_variant id p tick = record {
  rumor_id = id;
  text = p.text;
  confidence = p.confidence;
  from = p.from;
  tick = tick;
}

-- Go's `/`, towards 0.
unfoldable pub quarter : ℤ → ℤ
quarter (pos n) = pos (n / 4)
quarter (negsuc n) = if ltb n 3 then pos 0 else negsuc ((n + 1) / 4 - 1)

-- Hearing shifts the feeling toward the subject.
unfoldable pub feel : RumorToldPayload → Village → Village
unfolding villager_at update_relation warm_relation quarter
feel p v = if eqb_ℤ p.subject p.to then v else elim (villager_at v.agents p.subject) [
  | none ↦ v
  | some _ ↦ record v {
    relations = update_relation (warm_relation (quarter p.tone)) p.to p.subject v.relations;
  }
]

-- The part of the arm that concerns the listener, for the rumor's id.
unfoldable pub hear : ℕ → ℕ → RumorToldPayload → Village → Outcome
unfolding villager_at knows feel change
hear tick id p v = elim (villager_at v.agents p.to) [
  | none ↦ none
  | some o ↦
      if knows o id
      then done v
      else done
          (feel p (record v { agents = change (learn (heard_variant id p tick)) v.agents p.to }))
]

-- The birth of a rumor: the originator holds their own version.
unfoldable pub bear : ℕ → RumorToldPayload → Village → Village
unfolding add_rumor change learn_new
bear tick p v =
    let born = add_rumor p.subject p.tone p.secret p.from tick v in
    record born {
      agents = change (learn_new (own_variant (suc v.next_rumor_id) p.text tick)) v.agents p.from;
    }

unfoldable pub apply_rumor_told : Village → ℕ → RumorToldPayload → Outcome
unfolding villager_at bear hear
apply_rumor_told v tick p =
    if p.rumor_id == 0
    then elim (villager_at v.agents p.from) [
      | none ↦ none
      | some _ ↦ hear tick (suc v.next_rumor_id) p (bear tick p v)
    ]
    else hear tick p.rumor_id p v

unfoldable pub apply_secret_seeded : Village → ℕ → ℤ → Text → ℤ → Outcome
unfolding villager_at add_rumor change
apply_secret_seeded v tick agent text tone = elim (villager_at v.agents agent) [
  | none ↦ none
  | some _ ↦ done (record (add_rumor agent tone true agent tick v) {
    agents = change (learn (own_variant (suc v.next_rumor_id) text tick)) v.agents agent;
  })
]

-- `[]int{p.A, p.B}` where the payload names nobody.
abbrev pub parts_of : ConversationPayload → List ℤ
parts_of p = elim p.participants [ [] ↦ p.a ∷ p.b ∷ [] | x ∷ xs ↦ x ∷ xs ]

unfoldable pub trim_ring : List ConvoRecord → List ConvoRecord
trim_ring rs =
    if ltb convo_record_cap (length rs) then drop (length rs - convo_record_cap) rs else rs

unfoldable pub apply_conversation : Village → ℕ → ConversationPayload → Outcome
unfolding trim_ring
apply_conversation v tick p = done (record v {
  conversations = trim_ring (
      v.conversations
      ++ record {
        conv = p.conv;
        tick = tick;
        participants = parts_of p;
        gist = p.gist;
        topics = p.topics;
        tones = p.tones;
      }
        ∷ []);
})

unfoldable pub apply_social : Village → ℕ → SocialEvent → Outcome
apply_social v tick (relation_changed a b trust affection) =
    apply_relation_changed v a b trust affection
apply_social v tick (gave from to kind) = apply_gave v tick from to kind
apply_social v tick (promise_broken id) = apply_promise_broken v id
apply_social v tick (rumor_told p) = apply_rumor_told v tick p
apply_social v tick (secret_seeded agent text tone) = apply_secret_seeded v tick agent text tone
apply_social v tick recorded = done v
apply_social v tick (conversation p) = apply_conversation v tick p
