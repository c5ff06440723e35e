-- ===== src/Sim/Social/Edges.antt =====
-- internal/sim/social.go: the order of the fabric that its data types promise: edges within their
-- range and one for each pair, ids that count the debts and the rumors, a ring within its cap.
use script_world.Prelude.{
  ℕ, suc, ◌+◌, ◌≤◌, ◌≡◌, refl, sym, ap, ◌∙◌, subst, inl, inr, Bool, false, Option, none, some, List,
  [], ◌∷◌, ◌++◌, length, All, length-append, arith, Bool-cases, Option-cases,
}
use script_world.Prelude.Int.{ℤ, eqb_ℤ_iff, ◌+ℤ◌, pos_part, neg_part}
use script_world.Sim.Item.{Kind}
use script_world.Sim.Social.{
  Village, Relation, Debt, Rumor, DebtStatus, kept, is_edge, no_relation, update_relation,
  shift_relation, warm_relation, clamp_int, rel_min, rel_max, convo_record_cap,
}
use script_world.Sim.Social.Arms.{settle, close_first, with_head, owes, add_rumor}

-- From -1000 to 1000.
abbrev pub Within : ℤ → Type 0
Within a = (pos_part a ≤ 1000) × (neg_part a ≤ 1000)

abbrev pub IsBounded : Relation → Type 0
IsBounded r = Within r.trust × Within r.affection

-- No two relations of the list are of the same pair.
abbrev pub Distinct : List Relation → Type 0
Distinct [] = Unit
Distinct (r ∷ rs) = All (λ (q : Relation). is_edge r.from r.to q ≡ false) rs × Distinct rs

-- The ids count up from the one after the number.
abbrev pub Numbered {ℓ} : {A : Type ℓ} → (A → ℕ) → ℕ → List A → Type 0
Numbered id n [] = Unit
Numbered id n (x ∷ xs) = (id x ≡ suc n) × Numbered id (suc n) xs

pub record IsFabric (v : Village) : Type 0 where
  pub bounded : All IsBounded v.relations
  pub distinct : Distinct v.relations
  pub debt_ids : Numbered (λ (d : Debt). d.id) 0 v.debts
  pub last_debt : v.next_debt_id ≡ length v.debts
  pub rumor_ids : Numbered (λ (r : Rumor). r.id) 0 v.rumors
  pub last_rumor : v.next_rumor_id ≡ length v.rumors
  pub ring : length v.conversations ≤ convo_record_cap

Numbered-append {ℓ} :
    {A : Type ℓ} (id : A → ℕ) (n : ℕ) (xs : List A) (x : A)
    → Numbered id n xs
    → id x ≡ suc (n + length xs)
    → Numbered id n (xs ++ x ∷ [])
Numbered-append id n [] x h e = (omega arith, tt)
Numbered-append id n (y ∷ ys) x h e = (h.0, Numbered-append id (suc n) ys x h.1 (omega arith))

clamp_int-Within : (a : ℤ) → Within (clamp_int a rel_min rel_max)
unfolding clamp_int
clamp_int-Within a = ground arith

-- A change of a relation that keeps its pair and its range.
abbrev pub IsTame : (Relation → Relation) → Type 0
IsTame f =
    (r : Relation) → ((f r).from ≡ r.from) × ((f r).to ≡ r.to) × (IsBounded r → IsBounded (f r))

pub shift_relation-IsTame : (trust affection : ℤ) → IsTame (shift_relation trust affection)
unfolding shift_relation
shift_relation-IsTame x y r =
    (refl, refl, λ _. (clamp_int-Within (r.trust +ℤ x), clamp_int-Within (r.affection +ℤ y)))

pub warm_relation-IsTame : (affection : ℤ) → IsTame (warm_relation affection)
unfolding warm_relation
warm_relation-IsTame x r = (refl, refl, λ h. (h.0, clamp_int-Within (r.affection +ℤ x)))

module _ (f : Relation → Relation) (tame : IsTame f) (from to : ℤ) where
  update_relation-IsBounded :
      (rs : List Relation) → All IsBounded rs → All IsBounded (update_relation f from to rs)
  unfolding update_relation
  update_relation-IsBounded [] h = ((tame (no_relation from to)).2 (omega arith), tt)
  update_relation-IsBounded (r ∷ rs) h = elim (Bool-cases (is_edge from to r)) [
    | inl e ↦ rw e ((tame r).2 h.0, h.1)
    | inr e ↦ rw e (h.0, update_relation-IsBounded rs h.1)
  ]

  is_edge_tame : (a b : ℤ) (r : Relation) → is_edge a b (f r) ≡ is_edge a b r
  is_edge_tame a b r = rw ((tame r).0, (tame r).1)

  -- An edge that is none of the list's is none of the new list's, unless it is the pair's.
  update_relation-fresh :
      (a b : ℤ) (rs : List Relation)
      → is_edge a b (no_relation from to) ≡ false
      → All (λ (q : Relation). is_edge a b q ≡ false) rs
      → All (λ (q : Relation). is_edge a b q ≡ false) (update_relation f from to rs)
  unfolding update_relation
  update_relation-fresh a b [] e h = (is_edge_tame a b (no_relation from to) ∙ e, tt)
  update_relation-fresh a b (r ∷ rs) e h = elim (Bool-cases (is_edge from to r)) [
    | inl t ↦ rw t (is_edge_tame a b r ∙ h.0, h.1)
    | inr t ↦ rw t (h.0, update_relation-fresh a b rs e h.1)
  ]

  is_edge_comm :
      (r : Relation) → is_edge from to r ≡ false → is_edge r.from r.to (no_relation from to) ≡ false
  is_edge_comm r h = ground (arith, eqb_ℤ_iff r.from from, eqb_ℤ_iff r.to to)

  update_relation-Distinct :
      (rs : List Relation) → Distinct rs → Distinct (update_relation f from to rs)
  unfolding update_relation
  update_relation-Distinct [] h = (tt, tt)
  update_relation-Distinct (r ∷ rs) h = elim (Bool-cases (is_edge from to r)) [
    | inl t ↦ rw (t, (tame r).0, (tame r).1) h
    | inr t ↦ rw t (
      update_relation-fresh r.from r.to rs (is_edge_comm r t) h.0,
      update_relation-Distinct rs h.1,
    )
  ]

  pub update_relation-IsFabric :
      (v : Village)
      → IsFabric v
      → IsFabric (record v { relations = update_relation f from to v.relations })
  update_relation-IsFabric v h = record {
    bounded = update_relation-IsBounded v.relations h.bounded;
    distinct = update_relation-Distinct v.relations h.distinct;
    debt_ids = h.debt_ids;
    last_debt = h.last_debt;
    rumor_ids = h.rumor_ids;
    last_rumor = h.last_rumor;
    ring = h.ring;
  }

-- What a search of the ledger leaves of the ids.
abbrev SameIds : ℕ → List Debt → Option (List Debt) → Type 0
SameIds n ds none = Unit
SameIds n ds (some ds') = Numbered (λ (d : Debt). d.id) n ds' × (length ds' ≡ length ds)

SameIds-with_head :
    (n : ℕ) (d : Debt) (ds : List Debt) (o : Option (List Debt))
    → d.id ≡ suc n
    → SameIds (suc n) ds o
    → SameIds n (d ∷ ds) (with_head d o)
SameIds-with_head n d ds none e h = tt
SameIds-with_head n d ds (some ds') e h = ((e, h.0), ap suc h.1)

close_first-SameIds :
    (test : Debt → Bool) (status : DebtStatus) (n : ℕ) (ds : List Debt)
    → Numbered (λ (d : Debt). d.id) n ds
    → SameIds n ds (close_first test status ds)
unfolding close_first
close_first-SameIds test status n [] h = tt
close_first-SameIds test status n (d ∷ ds) h = elim (Bool-cases (test d)) [
  | inl e ↦ rw e (h, refl)
  | inr e ↦ rw e (
      SameIds-with_head n d ds (close_first test status ds) h.0
        (close_first-SameIds test status (suc n) ds h.1))
]

pub close_first-IsFabric :
    (test : Debt → Bool) (status : DebtStatus) (v : Village) {ds : List Debt}
    → IsFabric v
    → close_first test status v.debts ≡ some ds
    → IsFabric (record v { debts = ds })
close_first-IsFabric test status v h e =
    let ids = subst (SameIds 0 v.debts) e (close_first-SameIds test status 0 v.debts h.debt_ids) in
    record {
      bounded = h.bounded;
      distinct = h.distinct;
      debt_ids = ids.0;
      last_debt = h.last_debt ∙ sym ids.1;
      rumor_ids = h.rumor_ids;
      last_rumor = h.last_rumor;
      ring = h.ring;
    }

pub settle-IsFabric :
    (tick : ℕ) (from to : ℤ) (k : Kind) (v : Village)
    → IsFabric v
    → IsFabric (settle tick from to k v)
unfolding settle
settle-IsFabric tick from to k v h =
    elim (Option-cases (close_first (owes from to k) kept v.debts)) [
      | inl e ↦
          rw (e, settle)
            (record {
              bounded = h.bounded;
              distinct = h.distinct;
              debt_ids =
                  Numbered-append (λ (d : Debt). d.id) 0 v.debts _ h.debt_ids
                    (omega (arith, h.last_debt));
              last_debt = omega (arith, h.last_debt, length-append {0} v.debts);
              rumor_ids = h.rumor_ids;
              last_rumor = h.last_rumor;
              ring = h.ring;
            })
      | inr (ds, e) ↦ rw (e, settle) (close_first-IsFabric (owes from to k) kept v h e)
    ]

pub add_rumor-IsFabric :
    (subject tone : ℤ) (secret : Bool) (origin : ℤ) (tick : ℕ) (v : Village)
    → IsFabric v
    → IsFabric (add_rumor subject tone secret origin tick v)
unfolding add_rumor
add_rumor-IsFabric subject tone secret origin tick v h = record {
  bounded = h.bounded;
  distinct = h.distinct;
  debt_ids = h.debt_ids;
  last_debt = h.last_debt;
  rumor_ids =
      Numbered-append (λ (r : Rumor). r.id) 0 v.rumors _ h.rumor_ids (omega (arith, h.last_rumor));
  last_rumor = omega (arith, h.last_rumor, length-append {0} v.rumors);
  ring = h.ring;
}
