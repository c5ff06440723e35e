-- ===== src/Sim/Social/Trails.antt =====
-- internal/sim/social.go: the provenance of rumors. The links `From` of the variants lead from each
-- holder to the originator; what is learned later leaves every trail as it was.
use script_world.Prelude.{
  ℕ, zero, suc, ◌≡◌, ◌≢◌, refl, sym, ap, ◌∙◌, subst, ◌⊎◌, inl, inr, Option, none, some, List, [],
  ◌∷◌, ◌++◌, ◌==◌, ==_iff, get_elem?, arith, Bool-cases, Option-cases, some-injective, All,
  All-append, All-weaken,
}
use script_world.Prelude.Int.{ℤ, pos, negsuc}
use script_world.Sim.Social.{Villager, KnownRumor, villager_at, change, change_at, find_known}
use script_world.Sim.Social.Arms.{learn}

-- The variant of a rumor that the villager of an index holds.
unfoldable pub known_at : List Villager → ℤ → ℕ → Option KnownRumor
unfolding villager_at find_known
known_at os i r = elim (villager_at os i) [ none ↦ none | some o ↦ find_known r o.known ]

-- The trail of a rumor from a holder to its originator, and its number of hops.
pub data Trail (os : List Villager) (r : ℕ) : ℤ → ℕ → Type 0 where
  own : {i : ℤ} {k : KnownRumor} → known_at os i r ≡ some k → k.from ≡ negsuc 0 → Trail os r i 0
  heard :
      {i : ℤ} {k : KnownRumor} {n : ℕ}
      → known_at os i r ≡ some k
      → Trail os r k.from n
      → Trail os r i (suc n)

abbrev pub Keeps : List Villager → List Villager → Type 0
Keeps os os' =
    (i : ℤ) (r : ℕ) (k : KnownRumor) → known_at os i r ≡ some k → known_at os' i r ≡ some k

pub Trail-Keeps :
    {os os' : List Villager} {r : ℕ}
    → Keeps os os'
    → {i : ℤ} {n : ℕ} → Trail os r i n
    → Trail os' r i n
Trail-Keeps {r} keep (Trail.own {i} {k} h e) = Trail.own (keep i r k h) e
Trail-Keeps {r} keep (Trail.heard {i} {k} h t) = Trail.heard (keep i r k h) (Trail-Keeps keep t)

pub map_villager : (Villager → Villager) → Option Villager → Option Villager
map_villager f none = none
map_villager f (some o) = some (f o)

change_at_ne :
    (f : Villager → Villager) (os : List Villager) (i j : ℕ)
    → i ≢ j
    → get_elem? (change_at f os i) j ≡ get_elem? os j
unfolding change_at
change_at_ne f [] i j h = refl
change_at_ne f (o ∷ os) zero zero h = absurd (h refl)
change_at_ne f (o ∷ os) zero (suc j) h = refl
change_at_ne f (o ∷ os) (suc i) zero h = refl
change_at_ne f (o ∷ os) (suc i) (suc j) h = change_at_ne f os i j (λ e. h (ap suc e))

change_at_self :
    (f : Villager → Villager) (os : List Villager) (i : ℕ)
    → get_elem? (change_at f os i) i ≡ map_villager f (get_elem? os i)
unfolding change_at map_villager
change_at_self f [] i = refl
change_at_self f (o ∷ os) zero = refl
change_at_self f (o ∷ os) (suc i) = change_at_self f os i

abbrev Changed : (Villager → Villager) → List Villager → ℤ → ℤ → Type 0
Changed f os i j =
    (i ≡ j) × (villager_at (change f os i) j ≡ map_villager f (villager_at os j))
    ⊎ (i ≢ j) × (villager_at (change f os i) j ≡ villager_at os j)

-- A lookup after a change: at the index of the change, or at another.
villager_at-change : (f : Villager → Villager) (os : List Villager) (i j : ℤ) → Changed f os i j
unfolding villager_at change map_villager
villager_at-change f os (pos i) (pos j) = elim (Bool-cases (i == j)) [
  | inl e ↦
      let same = (==_iff i j).0 e in
      inl (
        ap pos same,
        subst (λ (m : ℕ). get_elem? (change_at f os i) m ≡ map_villager f (get_elem? os m)) same
            (change_at_self f os i),
      )
  | inr e ↦ inr (λ same. ground arith, change_at_ne f os i j (λ same. ground arith))
]
villager_at-change f os (pos i) (negsuc j) = inr (λ same. cc, refl)
villager_at-change f os (negsuc i) (pos j) = inr (λ same. cc, refl)
villager_at-change f os (negsuc i) (negsuc j) = elim (Bool-cases (i == j)) [
  | inl e ↦ inl (ap negsuc ((==_iff i j).0 e), refl)
  | inr e ↦ inr (λ same. ground arith, refl)
]

-- A change that leaves each villager's variants.
pub known_at-change :
    (f : Villager → Villager) (os : List Villager) (i j : ℤ) (r : ℕ)
    → ((o : Villager) → (f o).known ≡ o.known)
    → known_at (change f os i) j r ≡ known_at os j r
unfolding known_at map_villager
known_at-change f os i j r same = elim (villager_at-change f os i j) [
  | inr (_, e) ↦ rw (e, known_at)
  | inl (_, e) ↦ elim (Option-cases (villager_at os j)) [
    | inl n ↦ rw (e, n, known_at)
    | inr (o, s) ↦ rw (e, s, same o, known_at)
  ]
]

find_known-learn :
    (r : ℕ) (ks : List KnownRumor) (k k' : KnownRumor)
    → find_known r ks ≡ some k
    → find_known r (ks ++ k' ∷ []) ≡ some k
unfolding find_known
find_known-learn r [] k k' h = absurd (cc)
find_known-learn r (x ∷ ks) k k' h = ground (arith, find_known-learn r ks k k')

-- What is found after a variant was appended: what was found before, or the variant.
find_known-learn_inv :
    (r : ℕ) (ks : List KnownRumor) (k k' : KnownRumor)
    → find_known r (ks ++ k' ∷ []) ≡ some k
    → (find_known r ks ≡ some k) ⊎ (k ≡ k') × (r ≡ k'.rumor_id)
unfolding find_known
find_known-learn_inv r [] k k' h = elim (Bool-cases (k'.rumor_id == r)) [
  | inl e ↦ inr (ground arith, ground arith)
  | inr e ↦ absurd (ground arith)
]
find_known-learn_inv r (x ∷ ks) k k' h = elim (Bool-cases (x.rumor_id == r)) [
  | inl e ↦ inl (rw e (rw e at h))
  | inr e ↦ rw e (find_known-learn_inv r ks k k' (rw e at h))
]

find_known-learn_new :
    (ks : List KnownRumor) (k : KnownRumor)
    → find_known k.rumor_id ks ≡ none
    → find_known k.rumor_id (ks ++ k ∷ []) ≡ some k
unfolding find_known
find_known-learn_new [] k h = ground arith
find_known-learn_new (x ∷ ks) k h = ground (arith, find_known-learn_new ks k)

module _ (os : List Villager) (i : ℤ) (k : KnownRumor) where
  -- What is known of a rumor after a variant was appended.
  known_at-learn :
      (j : ℤ) (r : ℕ)
      → ((o : Villager) × (i ≡ j)
          × (known_at os j r ≡ find_known r o.known)
          × (known_at (change (learn k) os i) j r ≡ find_known r (o.known ++ k ∷ [])))
        ⊎ (known_at (change (learn k) os i) j r ≡ known_at os j r)
  unfolding known_at map_villager
  known_at-learn j r = elim (villager_at-change (learn k) os i j) [
    | inr (_, e) ↦ inr (rw (e, known_at))
    | inl (same, e) ↦ elim (Option-cases (villager_at os j)) [
      | inl n ↦ inr (rw (e, n, known_at))
      | inr (o, s) ↦ inl (o, same, rw (s, known_at), rw (e, s, known_at))
    ]
  ]

  pub learn-Keeps : Keeps os (change (learn k) os i)
  learn-Keeps j r x h = elim (known_at-learn j r) [
    | inr e ↦ e ∙ h
    | inl (o, _, e, e') ↦ e' ∙ find_known-learn r o.known x k (sym e ∙ h)
  ]

  pub learn_inv :
      (j : ℤ) (r : ℕ) (x : KnownRumor)
      → known_at (change (learn k) os i) j r ≡ some x
      → (known_at os j r ≡ some x) ⊎ (i ≡ j) × (x ≡ k) × (r ≡ k.rumor_id)
  learn_inv j r x h = elim (known_at-learn j r) [
    | inr e ↦ inl (sym e ∙ h)
    | inl (o, same, e, e') ↦ elim (find_known-learn_inv r o.known x k (sym e' ∙ h)) [
      | inl old ↦ inl (e ∙ old)
      | inr (is_new, id) ↦ inr (same, is_new, id)
    ]
  ]

  pub learn_here :
      {o : Villager}
      → villager_at os i ≡ some o
      → known_at os i k.rumor_id ≡ none
      → known_at (change (learn k) os i) i k.rumor_id ≡ some k
  unfolding known_at map_villager
  learn_here {o} s h = elim (villager_at-change (learn k) os i i) [
    | inr (ne, _) ↦ absurd (ne refl)
    | inl (_, e) ↦ rw (e, s, known_at) (find_known-learn_new o.known k (rw (s, known_at) at h))
  ]

change_at-congr :
    (f g : Villager → Villager) (os : List Villager) (i : ℕ) {o : Villager}
    → get_elem? os i ≡ some o
    → f o ≡ g o
    → change_at f os i ≡ change_at g os i
unfolding change_at
change_at-congr f g [] i e h = absurd (cc)
change_at-congr f g (x ∷ os) zero e h = cc
change_at-congr f g (x ∷ os) (suc i) e h = ap (λ r. x ∷ r) (change_at-congr f g os i e h)

-- Two changes that agree on the villager of the index.
pub change-congr :
    (f g : Villager → Villager) (os : List Villager) (i : ℤ) {o : Villager}
    → villager_at os i ≡ some o
    → f o ≡ g o
    → change f os i ≡ change g os i
unfolding change villager_at
change-congr f g os (pos i) e h = change_at-congr f g os i e h
change-congr f g os (negsuc i) e h = refl

-- One variant of each rumor: every variant is the one that is found.
abbrev pub IsClear : List KnownRumor → Type 0
IsClear ks = All (λ (k : KnownRumor). find_known k.rumor_id ks ≡ some k) ks

IsClear-append :
    (ks : List KnownRumor) (k : KnownRumor)
    → IsClear ks
    → find_known k.rumor_id ks ≡ none
    → IsClear (ks ++ k ∷ [])
IsClear-append ks k h unknown =
    All-append (λ (x : KnownRumor). find_known x.rumor_id (ks ++ k ∷ []) ≡ some x) ks (k ∷ [])
      (All-weaken (λ (x : KnownRumor). find_known x.rumor_id ks ≡ some x)
        (λ (x : KnownRumor). find_known x.rumor_id (ks ++ k ∷ []) ≡ some x) ks
        (λ x e. find_known-learn x.rumor_id ks x k e) h)
      (find_known-learn_new ks k unknown, tt)

abbrev pub AllClear : List Villager → Type 0
AllClear os = (i : ℤ) (o : Villager) → villager_at os i ≡ some o → IsClear o.known

-- A change that keeps the variants of each villager clear.
pub AllClear-change :
    (f : Villager → Villager) (os : List Villager) (i : ℤ)
    → AllClear os
    → ((o : Villager) → villager_at os i ≡ some o → IsClear (f o).known)
    → AllClear (change f os i)
unfolding map_villager
AllClear-change f os i clear new j o e = elim (villager_at-change f os i j) [
  | inr (_, same) ↦ clear j o (sym same ∙ e)
  | inl (here, same) ↦ elim (Option-cases (villager_at os j)) [
    | inl n ↦ absurd (cc)
    | inr (o', s) ↦
        subst (λ (x : Villager). IsClear x.known) (some-injective _ _ (sym (rw s at same) ∙ e))
          (new o' (rw here s))
  ]
]

pub learn-AllClear :
    (os : List Villager) (i : ℤ) (k : KnownRumor)
    → AllClear os
    → known_at os i k.rumor_id ≡ none
    → AllClear (change (learn k) os i)
unfolding known_at
learn-AllClear os i k clear unknown =
    AllClear-change (learn k) os i clear
      λ o e. IsClear-append o.known k (clear i o e) (rw (e, known_at) at unknown)

module _ (f : Villager → Villager) (os : List Villager) (i : ℤ) where
  pub villager_at-change_self :
      {o : Villager} → villager_at os i ≡ some o → villager_at (change f os i) i ≡ some (f o)
  unfolding map_villager
  villager_at-change_self e = elim (villager_at-change f os i i) [
    | inr (ne, _) ↦ absurd (ne refl)
    | inl (_, same) ↦ rw e at same
  ]

  pub villager_at-change_ne : {j : ℤ} → i ≢ j → villager_at (change f os i) j ≡ villager_at os j
  villager_at-change_ne {j} ne = elim (villager_at-change f os i j) [
    | inr (_, e) ↦ e
    | inl (same, _) ↦ absurd (ne same)
  ]
