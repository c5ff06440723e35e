-- ===== src/Sim/Social.antt =====
-- internal/sim/social.go: the social fabric, as the fields of the state that its arms of the
-- reducer read and write: relations, the ledger of debts, rumors with each holder's variant, and
-- the ring of conversations. Tones and edges are integers, confidences and ids natural numbers.
-- Beside its agent a villager has the two fields that no other modelled arm uses.
pub mod Arms
pub mod Base
pub mod Views
pub mod Edges
pub mod Fabric
pub mod Ledger
pub mod Trails
pub mod Gossip
pub mod Fairness
pub mod Telling
pub mod Silence
pub mod Reads
pub mod Beat
pub mod Gifts
pub mod Meals
use script_world.Prelude.{
  ℕ, zero, suc, ◌+◌, Bool, true, false, not, ◌&&◌, Option, none, some, List, [], ◌∷◌, if◌then◌else◌,
  ◌==◌, get_elem?,
}
use script_world.Prelude.Int.{ℤ, pos, negsuc, eqb_ℤ, ◌+ℤ◌}
use script_world.Sim.Item.{Kind, leb_ℤ}
use script_world.Sim.Journal.{Text}
use script_world.Sim.State.{Agent}

pub record Relation : Type 0 where
  pub from : ℤ
  pub to : ℤ
  pub trust : ℤ
  pub affection : ℤ

pub data DebtStatus : Type 0 where
  still_open kept broken : DebtStatus

pub record Debt : Type 0 where
  pub id : ℕ
  pub debtor : ℤ
  pub creditor : ℤ
  pub kind : Kind
  pub due : ℕ
  pub status : DebtStatus

pub record Rumor : Type 0 where
  pub id : ℕ
  pub subject : ℤ
  pub tone : ℤ
  pub secret : Bool
  pub origin_agent : ℤ
  pub origin_tick : ℕ

-- One holder's variant; `from` is -1 for the originator.
pub record KnownRumor : Type 0 where
  pub rumor_id : ℕ
  pub text : Text
  pub confidence : ℕ
  pub from : ℤ
  pub tick : ℕ

pub record ConvoRecord : Type 0 where
  pub conv : ℕ
  pub tick : ℕ
  pub participants : List ℤ
  pub gist : Text
  pub topics : List Text
  pub tones : List ℤ

pub record Villager : Type 0 where
  pub agent : Agent
  pub known : List KnownRumor
  pub last_give : ℕ

pub record Village : Type 0 where
  pub agents : List Villager
  pub relations : List Relation
  pub debts : List Debt
  pub next_debt_id : ℕ
  pub rumors : List Rumor
  pub next_rumor_id : ℕ
  pub conversations : List ConvoRecord

pub record RumorToldPayload : Type 0 where
  pub from : ℤ
  pub to : ℤ
  pub rumor_id : ℕ
  pub subject : ℤ
  pub tone : ℤ
  pub text : Text
  pub confidence : ℕ
  pub secret : Bool

pub record ConversationPayload : Type 0 where
  pub conv : ℕ
  pub a : ℤ
  pub b : ℤ
  pub gist : Text
  pub participants : List ℤ
  pub topics : List Text
  pub tones : List ℤ

-- `recorded` is a conversation's turn or the taking from a chest, which have no effect.
pub data SocialEvent : Type 0 where
  relation_changed : ℤ → ℤ → ℤ → ℤ → SocialEvent
  gave : ℤ → ℤ → Kind → SocialEvent
  promise_broken : ℕ → SocialEvent
  rumor_told : RumorToldPayload → SocialEvent
  secret_seeded : ℤ → Text → ℤ → SocialEvent
  recorded : SocialEvent
  conversation : ConversationPayload → SocialEvent

pub data SocialError : Type 0 where
  bad_pair : ℤ → ℤ → SocialError
  no_food : ℤ → SocialError

-- `none` is the panic of an index out of range.
abbrev pub Outcome : Type 0
Outcome = Option (Village × Option SocialError)

abbrev pub done : Village → Outcome
done v = some (v, none)

abbrev pub rel_min : ℤ
rel_min = negsuc 999

abbrev pub rel_max : ℤ
rel_max = pos 1000

abbrev pub debt_due_ticks : ℕ
debt_due_ticks = 172800

abbrev pub convo_record_cap : ℕ
convo_record_cap = 64

unfoldable pub clamp_int : ℤ → ℤ → ℤ → ℤ
clamp_int v lo hi = if not (leb_ℤ lo v) then lo else if not (leb_ℤ v hi) then hi else v

-- `s.Agents[p]`
unfoldable pub villager_at : List Villager → ℤ → Option Villager
villager_at agents (pos n) = get_elem? agents n
villager_at agents (negsuc _) = none

-- What is written through a pointer to the agent of an index in range.
unfoldable pub change_at : (Villager → Villager) → List Villager → ℕ → List Villager
change_at f [] i = []
change_at f (o ∷ os) zero = f o ∷ os
change_at f (o ∷ os) (suc i) = o ∷ change_at f os i

unfoldable pub change : (Villager → Villager) → List Villager → ℤ → List Villager
unfolding change_at
change f agents (pos i) = change_at f agents i
change f agents (negsuc _) = agents

unfoldable pub find_known : ℕ → List KnownRumor → Option KnownRumor
find_known id [] = none
find_known id (k ∷ ks) = if k.rumor_id == id then some k else find_known id ks

unfoldable pub knows : Villager → ℕ → Bool
unfolding find_known
knows o id = elim (find_known id o.known) [ none ↦ false | some _ ↦ true ]

abbrev pub is_edge : ℤ → ℤ → Relation → Bool
is_edge from to r = eqb_ℤ r.from from && eqb_ℤ r.to to

abbrev pub no_relation : ℤ → ℤ → Relation
no_relation from to = record { from = from; to = to; trust = pos 0; affection = pos 0 }

-- What is written through the pointer of `relation`, which adds the edge where there is none.
unfoldable pub update_relation : (Relation → Relation) → ℤ → ℤ → List Relation → List Relation
update_relation f from to [] = f (no_relation from to) ∷ []
update_relation f from to (r ∷ rs) =
    if is_edge from to r then f r ∷ rs else r ∷ update_relation f from to rs

unfoldable pub relation_between : ℤ → ℤ → List Relation → Relation
relation_between from to [] = no_relation from to
relation_between from to (r ∷ rs) = if is_edge from to r then r else relation_between from to rs

unfoldable pub shift_relation : ℤ → ℤ → Relation → Relation
unfolding clamp_int
shift_relation trust affection r = record r {
  trust = clamp_int (r.trust +ℤ trust) rel_min rel_max;
  affection = clamp_int (r.affection +ℤ affection) rel_min rel_max;
}

unfoldable pub warm_relation : ℤ → Relation → Relation
unfolding clamp_int
warm_relation affection r = record r {
  affection = clamp_int (r.affection +ℤ affection) rel_min rel_max;
}
