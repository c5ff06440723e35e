-- ===== src/Sim/Social/Views.antt =====
-- internal/sim/social.go: what is computed from the fabric: reputation, what a teller would pass
-- on, secrets, and the last conversations.
use script_world.Prelude.{
  ℕ, ◌+◌, ◌*◌, ◌/◌, Bool, true, false, not, ◌&&◌, ◌||◌, Option, none, some, List, [], ◌∷◌,
  if◌then◌else◌, ◌==◌, ltb, leb,
}
use script_world.Prelude.Int.{ℤ, pos, negsuc, eqb_ℤ, ◌+ℤ◌}
use script_world.Sim.Item.{leb_ℤ}
use script_world.Sim.Journal.{Text}
use script_world.Sim.State.{Memory}
use script_world.Sim.Social.{
  Village, Villager, Rumor, KnownRumor, ConvoRecord, Debt, DebtStatus, still_open, kept, broken,
  villager_at, knows, clamp_int,
}

-- What a debt of the agent adds to `rep`.
abbrev pub weight : DebtStatus → ℤ
weight still_open = pos 0
weight kept = pos 100
weight broken = negsuc 199

unfoldable pub reputation_loop : ℤ → ℤ → List Debt → ℤ
unfolding ◌+ℤ◌
reputation_loop agent rep [] = rep
reputation_loop agent rep (d ∷ ds) =
    reputation_loop agent (if eqb_ℤ d.debtor agent then rep +ℤ weight d.status else rep) ds

unfoldable pub reputation : Village → ℤ → ℤ
unfolding reputation_loop clamp_int
reputation v agent = clamp_int (reputation_loop agent (pos 500) v.debts) (pos 0) (pos 1000)

abbrev pub rumor_floor : ℕ
rumor_floor = 25

abbrev pub rumor_min_salience : ℕ
rumor_min_salience = 4

-- `confidence * rumorDecayNum / rumorDecayDen`
abbrev pub decayed : ℕ → ℕ
decayed c = c * 4 / 5

-- `rumor_id` is 0 for a birth from a memory.
pub record Tellable : Type 0 where
  pub rumor_id : ℕ
  pub subject : ℤ
  pub tone : ℤ
  pub text : Text
  pub confidence : ℕ

unfoldable pub rumor_by_id : ℕ → List Rumor → Option Rumor
rumor_by_id id [] = none
rumor_by_id id (r ∷ rs) = if r.id == id then some r else rumor_by_id id rs

-- `best` begins with a confidence of -1, below any other, which here is `none`.
abbrev pub beats : ℕ → Option Tellable → Bool
beats c none = true
beats c (some best) = ltb best.confidence c

-- The rumor of a variant, where the loop does not pass over it.
unfoldable pub told_rumor : List Rumor → Villager → ℤ → KnownRumor → Option Rumor
unfolding rumor_by_id knows
told_rumor rumors listener to k = elim (rumor_by_id k.rumor_id rumors) [
  | none ↦ none
  | some r ↦
      if r.secret || eqb_ℤ r.subject to || leb k.confidence rumor_floor || knows listener k.rumor_id
      then none
      else some r
]

unfoldable pub pick_rumor :
    List Rumor → Villager → ℤ → Option Tellable → KnownRumor → Option Tellable
unfolding told_rumor
pick_rumor rumors listener to best k = elim (told_rumor rumors listener to k) [
  | none ↦ best
  | some r ↦
      if beats k.confidence best
      then some (record {
        rumor_id = k.rumor_id;
        subject = r.subject;
        tone = r.tone;
        text = k.text;
        confidence = decayed k.confidence;
      })
      else best
]

unfoldable pub best_rumor :
    List Rumor → Villager → ℤ → Option Tellable → List KnownRumor → Option Tellable
unfolding pick_rumor
best_rumor rumors listener to best [] = best
best_rumor rumors listener to best (k ∷ ks) =
    best_rumor rumors listener to (pick_rumor rumors listener to best k) ks

-- A memory of a third party that is salient enough.
unfoldable pub is_gossip : ℤ → ℤ → Memory → Bool
is_gossip from to m =
    leb_ℤ (pos 0) m.subject
    && not (eqb_ℤ m.subject to)
    && not (eqb_ℤ m.subject from)
    && leb rumor_min_salience m.salience

unfoldable pub pick_memory : ℤ → ℤ → Option Tellable → Memory → Option Tellable
unfolding is_gossip
pick_memory from to best m =
    if is_gossip from to m && beats (m.salience * 10) best
    then some (record {
      rumor_id = 0;
      subject = m.subject;
      tone = m.tone;
      text = m.text;
      confidence = decayed (m.salience * 10);
    })
    else best

unfoldable pub best_memory : ℤ → ℤ → Option Tellable → List Memory → Option Tellable
unfolding pick_memory
best_memory from to best [] = best
best_memory from to best (m ∷ ms) = best_memory from to (pick_memory from to best m) ms

-- The rumors come first, a birth only where there is none to tell.
unfoldable pub tell_between : List Rumor → ℤ → ℤ → Villager → Villager → Option Tellable
unfolding best_rumor best_memory
tell_between rumors from to teller listener =
    elim (best_rumor rumors listener to none teller.known) [
      | some best ↦ some best
      | none ↦ best_memory from to none teller.agent.memories
    ]

-- The outer `none` is the panic of an index out of range.
unfoldable pub tellable_for : Village → ℤ → ℤ → Option (Option Tellable)
unfolding villager_at tell_between
tellable_for v from to = elim (villager_at v.agents from) [
  | none ↦ none
  | some teller ↦ elim (villager_at v.agents to) [
    | none ↦ none
    | some listener ↦ some (tell_between v.rumors from to teller listener)
  ]
]

unfoldable pub holders : ℕ → List Villager → ℕ
unfolding knows
holders id [] = 0
holders id (o ∷ os) = (if knows o id then 1 else 0) + holders id os

-- The variant and its rumor, where the rumor is a secret of the agent that nobody else knows.
unfoldable pub secret_in : Village → ℤ → List KnownRumor → Option (KnownRumor × Rumor)
unfolding rumor_by_id holders
secret_in v agent [] = none
secret_in v agent (k ∷ ks) = elim (rumor_by_id k.rumor_id v.rumors) [
  | none ↦ secret_in v agent ks
  | some r ↦
      let rest = secret_in v agent ks in
      if r.secret && eqb_ℤ r.origin_agent agent && (holders r.id v.agents == 1)
      then some (k, r)
      else rest
]

unfoldable pub secret_of : Village → ℤ → Option (Option (KnownRumor × Rumor))
unfolding villager_at secret_in
secret_of v agent = elim (villager_at v.agents agent) [
  | none ↦ none
  | some o ↦ some (secret_in v agent o.known)
]

unfoldable pub names : ℤ → List ℤ → Bool
names a [] = false
names a (p ∷ ps) = eqb_ℤ p a || names a ps

-- The last record that meets the test: the loop goes from the newest.
unfoldable pub last_of : (ConvoRecord → Bool) → List ConvoRecord → Option ConvoRecord
last_of test [] = none
last_of test (r ∷ rs) = elim (last_of test rs) [
  | some later ↦ some later
  | none ↦ if test r then some r else none
]

unfoldable pub last_conversation_between : Village → ℤ → ℤ → Option ConvoRecord
unfolding names last_of
last_conversation_between v a b =
    last_of (λ r. names a r.participants && names b r.participants) v.conversations

unfoldable pub last_conversation_involving : Village → ℤ → Option ConvoRecord
unfolding names last_of
last_conversation_involving v a = last_of (λ r. names a r.participants) v.conversations
