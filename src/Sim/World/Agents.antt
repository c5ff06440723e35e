-- ===== src/Sim/World/Agents.antt =====
-- How an arm of `Apply` that works on one agent keeps the world well formed.
use script_world.Prelude.{
  ◌≡◌, refl, some, List, All, All-set, All-get_elem?, Option-cases, inl, inr, subst, sym,
}
use script_world.Prelude.Int.{ℤ, pos, negsuc}
use script_world.Sim.State.{State, Agent, Structure, Point, Harvest, DenUse, agent_at, put_agent}
use script_world.Sim.Pile.{Pile}
use script_world.Sim.Apply.Base.{Outcome, on_agent, done}
use script_world.Sim.Item.{bulk_cap}
use script_world.Sim.World.{
  IsWorld, IsAgent, IsStock, JournalHolds, IsStructure, IsPile, OnePerTile,
}

pub agent_at-IsAgent :
    (s : State) (i : ℤ) (a : Agent) → IsWorld s → agent_at s.agents i ≡ some a → IsAgent a
unfolding agent_at
agent_at-IsAgent s (pos n) a v e = All-get_elem? IsAgent s.agents n a v.agents_ok e
agent_at-IsAgent s (negsuc n) a v e = absurd (cc e)

pub put_agent-IsWorld :
    (s : State) (i : ℤ) (a : Agent) → IsWorld s → IsAgent a → IsWorld (put_agent s i a)
unfolding put_agent
put_agent-IsWorld s (pos n) a v h = record {
  agents_ok = All-set IsAgent s.agents n a v.agents_ok h;
  structures_ok = v.structures_ok;
  piles_ok = v.piles_ok;
  one_per_tile = v.one_per_tile;
  rate_ok = v.rate_ok;
}
put_agent-IsWorld s (negsuc n) a v h = v

-- An arm keeps any property of the state that it keeps from each agent in range.
pub on_agent-keeps {ℓ} :
    (P : State → Type ℓ) (s : State) (i : ℤ) (arm : Agent → Outcome)
    → P s
    → ((a : Agent) → agent_at s.agents i ≡ some a → P (arm a).0)
    → P (on_agent s i arm).0
unfolding on_agent
on_agent-keeps P s i arm p h = elim (Option-cases (agent_at s.agents i)) [
  | inl e ↦ rw (e, on_agent) p
  | inr (a, e) ↦ rw (e, on_agent) (h a e)
]

-- So an arm that rewrites the agent keeps the world if it keeps the agent.
pub update-IsWorld :
    (s : State) (i : ℤ) (f : Agent → Agent)
    → IsWorld s
    → ((a : Agent) → IsAgent a → IsAgent (f a))
    → IsWorld (on_agent s i λ a. done (put_agent s i (f a))).0
update-IsWorld s i f v h =
    on_agent-keeps IsWorld s i (λ a. done (put_agent s i (f a))) v
      λ a e. put_agent-IsWorld s i (f a) v (h a (agent_at-IsAgent s i a v e))

-- An arm that leaves the pouch and the journal alone keeps the agent.
pub keep_agent :
    (a : Agent) (f : Agent → Agent)
    → (f a).inv ≡ a.inv
    → (f a).journal ≡ a.journal
    → IsAgent a
    → IsAgent (f a)
keep_agent a f e g v = record {
  pouch = subst (IsStock bulk_cap) (sym e) v.pouch;
  notebook = subst JournalHolds (sym g) v.notebook;
}

pub update_same-IsWorld :
    (s : State) (i : ℤ) (f : Agent → Agent)
    → IsWorld s
    → ((a : Agent) → ((f a).inv ≡ a.inv) × ((f a).journal ≡ a.journal))
    → IsWorld (on_agent s i λ a. done (put_agent s i (f a))).0
update_same-IsWorld s i f v h = update-IsWorld s i f v λ a w. keep_agent a f (h a).0 (h a).1 w

-- And one that writes the pouch, if the new pouch is in order.
pub update_pouch-IsWorld :
    (s : State) (i : ℤ) (f : Agent → Agent)
    → IsWorld s
    → ((a : Agent)
        → IsStock bulk_cap a.inv
        → IsStock bulk_cap (f a).inv × ((f a).journal ≡ a.journal))
    → IsWorld (on_agent s i λ a. done (put_agent s i (f a))).0
update_pouch-IsWorld s i f v h = update-IsWorld s i f v λ a w. record {
  pouch = (h a w.pouch).0;
  notebook = subst JournalHolds (sym (h a w.pouch).1) w.notebook;
}

-- The terrain overlays, the night and the pause are no part of the world's order.
pub overlay-IsWorld :
    (s : State) (c : List Point) (h : List Harvest) (d : List DenUse) (q : List Point)
    → IsWorld s
    → IsWorld (record s { cleared = c; harvested = h; den_uses = d; quarried = q })
overlay-IsWorld s c h d q v = record {
  agents_ok = v.agents_ok;
  structures_ok = v.structures_ok;
  piles_ok = v.piles_ok;
  one_per_tile = v.one_per_tile;
  rate_ok = v.rate_ok;
}

pub structures-IsWorld :
    (s : State) (sts : List Structure)
    → IsWorld s
    → All IsStructure sts
    → IsWorld (record s { structures = sts })
structures-IsWorld s sts v h = record {
  agents_ok = v.agents_ok;
  structures_ok = h;
  piles_ok = v.piles_ok;
  one_per_tile = v.one_per_tile;
  rate_ok = v.rate_ok;
}

pub piles-IsWorld :
    (s : State) (ps : List Pile)
    → IsWorld s
    → All IsPile ps
    → OnePerTile ps
    → IsWorld (record s { piles = ps })
piles-IsWorld s ps v h o = record {
  agents_ok = v.agents_ok;
  structures_ok = v.structures_ok;
  piles_ok = h;
  one_per_tile = o;
  rate_ok = v.rate_ok;
}

-- What an arm on one agent leaves of the other parts of the state.
pub put_agent_rest :
    (s : State) (i : ℤ) (a : Agent)
    → ((put_agent s i a).structures ≡ s.structures) × ((put_agent s i a).piles ≡ s.piles)
unfolding put_agent
put_agent_rest s (pos n) a = (refl, refl)
put_agent_rest s (negsuc n) a = (refl, refl)
