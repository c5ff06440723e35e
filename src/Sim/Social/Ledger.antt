-- ===== src/Sim/Social/Ledger.antt =====
-- internal/sim/social.go: the ledger of debts is append-only, and what reputation reads in it.
use script_world.Prelude.{
  ℕ, suc, ◌+◌, ◌*◌, ◌≡◌, refl, subst, ◌⊎◌, inl, inr, ◌&&◌, Bool, true, false, Option, none, some,
  List, [], ◌∷◌, ◌++◌, if◌then◌else◌, ◌==◌, arith, Bool-cases, Option-cases,
}
use script_world.Prelude.Int.{ℤ, pos, eqb_ℤ, ◌+ℤ◌, +ℤ_parts, eq_of_parts, pos_part, neg_part, sub_ℕ}
use script_world.Sim.Item.{Kind}
use script_world.Sim.Journal.{Text}
use script_world.Sim.Social.Base.{Leaves, Leaves-if, Leaves-found}
use script_world.Sim.Social.{
  RumorToldPayload, knows, Village, Debt, DebtStatus, still_open, kept, broken, SocialEvent,
  relation_changed, gave, promise_broken, rumor_told, secret_seeded, recorded, conversation,
  villager_at, clamp_int,
}
use script_world.Sim.Social.Arms.{
  hand_over, apply_social, apply_relation_changed, apply_gave, apply_promise_broken,
  apply_rumor_told, apply_secret_seeded, apply_conversation, settle, close_first, is_open, owes,
  with_id, hear, feel, bear, add_rumor, with_head,
}
use script_world.Sim.Social.Views.{weight, reputation_loop, reputation}

-- A debt stands, or an open one was closed; all else of it is as it was.
pub data Closes (d : Debt) : Debt → Type 0 where
  stands : Closes d d
  closes :
      {status : DebtStatus}
      → d.status ≡ still_open
      → status ≡ kept ⊎ status ≡ broken
      → Closes d (record d { status = status })

-- Each debt of the first ledger stands or was closed in its place, and at most one is new, open.
abbrev pub Extends : List Debt → List Debt → Type 0
Extends [] [] = Unit
Extends [] (d ∷ []) = d.status ≡ still_open
Extends [] (d ∷ _ ∷ _) = ⊥
Extends (d ∷ ds) [] = ⊥
Extends (d ∷ ds) (d' ∷ ds') = Closes d d' × Extends ds ds'

Extends-refl : (ds : List Debt) → Extends ds ds
Extends-refl [] = tt
Extends-refl (d ∷ ds) = (Closes.stands, Extends-refl ds)

Extends-append : (ds : List Debt) (d : Debt) → d.status ≡ still_open → Extends ds (ds ++ d ∷ [])
Extends-append [] d h = h
Extends-append (e ∷ ds) d h = (Closes.stands, Extends-append ds d h)

is_open_lem : (status : DebtStatus) → is_open status ≡ true → status ≡ still_open
is_open_lem still_open h = refl
is_open_lem kept h = cc
is_open_lem broken h = cc

owes-still_open :
    (from to : ℤ) (k : Kind) (d : Debt) → owes from to k d ≡ true → d.status ≡ still_open
unfolding owes
owes-still_open from to k d h = is_open_lem d.status (ground arith)

with_id-still_open : (id : ℕ) (d : Debt) → with_id id d ≡ true → d.status ≡ still_open
with_id-still_open id d h = is_open_lem d.status (ground arith)

-- What holds of the ledger that a search gives, where it finds a debt.
abbrev Found : List Debt → Option (List Debt) → Type 0
Found ds none = Unit
Found ds (some ds') = Extends ds ds'

Found-with_head :
    (d : Debt) (ds : List Debt) (o : Option (List Debt))
    → Found ds o
    → Found (d ∷ ds) (with_head d o)
Found-with_head d ds none h = tt
Found-with_head d ds (some ds') h = (Closes.stands, h)

module _ (test : Debt → Bool) (status : DebtStatus)
    (tests_open : (d : Debt) → test d ≡ true → d.status ≡ still_open)
    (closed : (status ≡ kept) ⊎ (status ≡ broken)) where
  close_first-Extends : (ds : List Debt) → Found ds (close_first test status ds)
  unfolding close_first
  close_first-Extends [] = tt
  close_first-Extends (d ∷ ds) = elim (Bool-cases (test d)) [
    | inl e ↦ rw e (Closes.closes (tests_open d e) closed, Extends-refl ds)
    | inr e ↦ rw e (Found-with_head d ds (close_first test status ds) (close_first-Extends ds))
  ]

abbrev pub Keeps : Village → Village → Type 0
Keeps v v' = Extends v.debts v'.debts

close_first_found :
    (test : Debt → Bool) (status : DebtStatus) (ds : List Debt) {ds' : List Debt}
    → ((d : Debt) → test d ≡ true → d.status ≡ still_open)
    → (status ≡ kept) ⊎ (status ≡ broken)
    → close_first test status ds ≡ some ds'
    → Extends ds ds'
close_first_found test status ds t c e = subst (Found ds) e (close_first-Extends test status t c ds)

settle-Extends :
    (tick : ℕ) (from to : ℤ) (k : Kind) (v : Village) → Keeps v (settle tick from to k v)
unfolding settle
settle-Extends tick from to k v = elim (Option-cases (close_first (owes from to k) kept v.debts)) [
  | inl e ↦ rw (e, settle) (Extends-append v.debts _ refl)
  | inr (ds, e) ↦
      rw (e, settle)
        (close_first_found (owes from to k) kept v.debts (owes-still_open from to k) (inl refl) e)
]

apply_promise_broken-Extends : (v : Village) (id : ℕ) → Leaves (Keeps v) (apply_promise_broken v id)
unfolding apply_promise_broken
apply_promise_broken-Extends v id =
    Leaves-found (Keeps v) (close_first (with_id id) broken v.debts) _ _ (Extends-refl v.debts)
      λ ds e. close_first_found (with_id id) broken v.debts (with_id-still_open id) (inr refl) e

apply_gave-Extends :
    (v : Village) (tick : ℕ) (from to : ℤ) (k : Kind)
    → Leaves (Keeps v) (apply_gave v tick from to k)
unfolding apply_gave
apply_gave-Extends v tick from to k =
    Leaves-found (Keeps v) (villager_at v.agents from) _ _ tt λ giver _.
      Leaves-found (Keeps v) (villager_at v.agents to) _ _ tt λ _ _.
        Leaves-if (Keeps v) (giver.agent.inv.food_raw == 0) _ _ (Extends-refl v.debts)
          (settle-Extends tick from to k (record v { agents = hand_over tick from to v.agents }))

apply_relation_changed-Extends :
    (v : Village) (a b x y : ℤ) → Leaves (Keeps v) (apply_relation_changed v a b x y)
unfolding apply_relation_changed
apply_relation_changed-Extends v a b x y =
    Leaves-if (Keeps v) (eqb_ℤ a b) _ _ (Extends-refl v.debts) (
      Leaves-found (Keeps v) (villager_at v.agents a) _ _ (Extends-refl v.debts) λ _ _.
        Leaves-found (Keeps v) (villager_at v.agents b) _ _ (Extends-refl v.debts)
          (λ _ _. Extends-refl v.debts))

feel-debts : (p : RumorToldPayload) (v : Village) → (feel p v).debts ≡ v.debts
unfolding feel
feel-debts p v = ground arith

hear-Extends :
    (tick id : ℕ) (p : RumorToldPayload) (v : Village) → Leaves (Keeps v) (hear tick id p v)
unfolding hear
hear-Extends tick id p v = Leaves-found (Keeps v) (villager_at v.agents p.to) _ _ tt λ o _.
    Leaves-if (Keeps v) (knows o id) _ _ (Extends-refl v.debts)
      (rw feel-debts (Extends-refl v.debts))

apply_rumor_told-Extends :
    (v : Village) (tick : ℕ) (p : RumorToldPayload) → Leaves (Keeps v) (apply_rumor_told v tick p)
unfolding apply_rumor_told
apply_rumor_told-Extends v tick p =
    Leaves-if (Keeps v) (p.rumor_id == 0) _ _
      (Leaves-found (Keeps v) (villager_at v.agents p.from) _ _ tt
        λ _ _. unfold bear add_rumor in hear-Extends tick (suc v.next_rumor_id) p (bear tick p v))
      (hear-Extends tick p.rumor_id p v)

apply_secret_seeded-Extends :
    (v : Village) (tick : ℕ) (a : ℤ) (text : Text) (tone : ℤ)
    → Leaves (Keeps v) (apply_secret_seeded v tick a text tone)
unfolding apply_secret_seeded
apply_secret_seeded-Extends v tick a text tone =
    Leaves-found (Keeps v) (villager_at v.agents a) _ _ tt (λ _ _. Extends-refl v.debts)

-- The ledger is append-only: after any social event that does not panic, refused or not, each
-- debt stands at its place, as it was or closed from open to kept or broken, so that one once
-- closed never changes, and at most one debt is new, open and at the end.
pub apply_social-Extends :
    (v : Village) (tick : ℕ) (e : SocialEvent) → Leaves (Keeps v) (apply_social v tick e)
unfolding apply_social apply_conversation
apply_social-Extends v tick (relation_changed a b x y) = apply_relation_changed-Extends v a b x y
apply_social-Extends v tick (gave from to k) = apply_gave-Extends v tick from to k
apply_social-Extends v tick (promise_broken id) = apply_promise_broken-Extends v id
apply_social-Extends v tick (rumor_told p) = apply_rumor_told-Extends v tick p
apply_social-Extends v tick (secret_seeded a text tone) =
    apply_secret_seeded-Extends v tick a text tone
apply_social-Extends v tick recorded = Extends-refl v.debts
apply_social-Extends v tick (conversation p) = Extends-refl v.debts

abbrev pub same_status : DebtStatus → DebtStatus → Bool
same_status kept kept = true
same_status broken broken = true
same_status still_open still_open = true
same_status _ _ = false

-- How many debts of the agent have the status.
abbrev pub tally : DebtStatus → ℤ → List Debt → ℕ
tally status agent [] = 0
tally status agent (d ∷ ds) =
    (if eqb_ℤ d.debtor agent && same_status status d.status then 1 else 0) + tally status agent ds

-- Where the loop leads, with no subtraction.
reputation_loop-tally :
    (agent rep : ℤ) (ds : List Debt)
    → let out = reputation_loop agent rep ds in
      pos_part out + neg_part rep + 200 * tally broken agent ds
      ≡ neg_part out + pos_part rep + 100 * tally kept agent ds
unfolding reputation_loop
reputation_loop-tally agent rep [] = omega arith
reputation_loop-tally agent rep (d ∷ ds) = ground (
  arith,
  reputation_loop-tally agent rep ds,
  reputation_loop-tally agent (rep +ℤ weight d.status) ds,
  +ℤ_parts rep (weight d.status),
)

-- Reputation depends on the ledger by two counts alone: it is 500, plus 100 for each debt of the
-- agent that was kept, less 200 for each that was broken, clamped to 0..1000.
pub reputation-tally :
    (v : Village) (agent : ℤ)
    → reputation v agent
      ≡ clamp_int
          (sub_ℕ (500 + 100 * tally kept agent v.debts) (200 * tally broken agent v.debts))
          (pos 0)
          (pos 1000)
unfolding reputation
reputation-tally v agent = rw (
    eq_of_parts (reputation_loop agent (pos 500) v.debts)
      (sub_ℕ (500 + 100 * tally kept agent v.debts) (200 * tally broken agent v.debts))
      (ground (arith, reputation_loop-tally agent (pos 500) v.debts)))
