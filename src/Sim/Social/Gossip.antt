-- ===== src/Sim/Social/Gossip.antt =====
-- internal/sim/social.go: every variant of a rumor can be traced to its originator in a few hops,
-- since each telling decays the confidence and nothing at or below the floor is told.
use script_world.Prelude.{ℕ, zero, suc, ◌≤◌, ◌<◌, ◌≡◌, ◌≢◌, ◌⊎◌, inl, inr, none, some, List, arith}
use script_world.Prelude.Int.{ℤ, negsuc}
use script_world.Sim.Social.Views.{rumor_floor, decayed}
use script_world.Sim.Social.Trails.{
  known_at, Trail, Trail-Keeps, learn-Keeps, learn_inv, learn_here, AllClear, learn-AllClear,
}
use script_world.Sim.Social.{
  Village, Villager, KnownRumor, RumorToldPayload, SocialEvent, rumor_told, villager_at, change,
}
use script_world.Sim.Social.Arms.{learn}

-- The highest confidence after a number of hops: 100, 80, 64, 51, 40, 32, 25.
abbrev pub fade : ℕ → ℕ
fade zero = 100
fade (suc n) = decayed (fade n)

abbrev pub max_hops : ℕ
max_hops = 6

-- A villager has one variant of a rumor, none is of a rumor to come, and each has a trail of few hops with the confidence of its
-- length.
pub record IsTraced (next : ℕ) (os : List Villager) : Type 0 where
  pub clear : AllClear os
  pub born : (i : ℤ) (r : ℕ) (k : KnownRumor) → known_at os i r ≡ some k → r ≤ next
  pub trail :
      (i : ℤ) (r : ℕ) (k : KnownRumor)
      → known_at os i r ≡ some k
      → (n : ℕ) × Trail os r i n × (k.confidence ≤ fade n) × (n ≤ max_hops)

-- Where a new variant comes from: its holder, or one whose own trail can still grow.
abbrev pub Source : List Villager → KnownRumor → Type 0
Source os k =
    (k.from ≡ negsuc 0) × (k.confidence ≤ 100)
    ⊎ ((n : ℕ) × Trail os k.rumor_id k.from n × (k.confidence ≤ fade (suc n)) × (n < max_hops))

pub learn-IsTraced :
    {next : ℕ} (os : List Villager) (i : ℤ) (k : KnownRumor) {o : Villager}
    → IsTraced next os
    → villager_at os i ≡ some o
    → known_at os i k.rumor_id ≡ none
    → k.rumor_id ≤ next
    → Source os k
    → IsTraced next (change (learn k) os i)
learn-IsTraced {next} os i k {o} h found unknown old source = record {
  clear = learn-AllClear os i k h.clear unknown;
  born = λ j r x e. elim (learn_inv os i k j r x e) [
    | inl before ↦ h.born j r x before
    | inr (_, _, id) ↦ rw id old
  ];
  trail = λ j r x e. elim (learn_inv os i k j r x e) [
    | inl before ↦
        let (n, t, c, m) = h.trail j r x before in (n, Trail-Keeps (learn-Keeps os i k) t, c, m)
    | inr (same, is_new, id) ↦ rw (← same, is_new, id) (new source)
  ];
}
  where
    new :
        Source os k
        → (n : ℕ) × Trail (change (learn k) os i) k.rumor_id i n
          × (k.confidence ≤ fade n)
          × (n ≤ max_hops)
    new (inl (from, c)) = (0, Trail.own (learn_here os i k found unknown) from, c, omega arith)
    new (inr (n, t, c, m)) = (
      suc n,
      Trail.heard (learn_here os i k found unknown) (Trail-Keeps (learn-Keeps os i k) t),
      c,
      m,
    )

-- What an event may tell: a rumor that the teller holds above the floor, decayed, or a new one.
pub record Tells (os : List Villager) (p : RumorToldPayload) : Type 0 where
  pub birth : p.rumor_id ≡ 0 → p.confidence ≤ fade 1
  pub retold :
      p.rumor_id ≢ 0
      → (k : KnownRumor) × (known_at os p.from p.rumor_id ≡ some k)
        × (rumor_floor < k.confidence)
        × (p.confidence ≤ decayed k.confidence)

abbrev pub IsFair : Village → SocialEvent → Type 0
IsFair v (rumor_told p) = Tells v.agents p
IsFair v _ = Unit {0}

abbrev pub IsGossip : Village → Type 0
IsGossip v = IsTraced v.next_rumor_id v.agents

pub IsTraced-suc : {next : ℕ} {os : List Villager} → IsTraced next os → IsTraced (suc next) os
IsTraced-suc h = record {
  clear = h.clear;
  born = λ i r k e. omega (arith, h.born i r k e);
  trail = h.trail;
}
