-- ===== src/Sim/Pile/Laws.antt =====
-- Laws of the pile operations: what each does to the amount of every kind.
use script_world.Prelude.{
  ℕ, ◌+◌, ◌-◌, ◌<◌, ◌≡◌, ◌∙◌, refl, Bool, true, false, ◌&&◌, List, [], ◌∷◌, arith, if◌then◌else◌,
  min, leb, All,
}
use native.Mathlib.Nat.{sub-zero}
use script_world.Sim.Item.{
  Kind, wood, stone, water, planks, refined_stone, food_raw, food_cooked, meals, kind_eq,
  is_food_kind,
}
use script_world.Sim.Pile.{
  FoodBatch, Pile, merge_food, add_food, sum_food, avail, add_non_food, take_non_food, drain,
  portion, take_food, take_spoiled,
}

kind_eq→≡ : (a b : Kind) → kind_eq a b ≡ true → a ≡ b
unfolding kind_eq
kind_eq→≡ a b h = ground arith

pub kind_eq_refl : (a : Kind) → kind_eq a a ≡ true
unfolding kind_eq
kind_eq_refl a = ground arith

pub sum_food-merge :
    (k j : Kind) (n s : ℕ) (bs : List FoodBatch)
    → sum_food j (merge_food k n s bs) ≡ sum_food j bs + (if kind_eq k j then n else 0)
unfolding sum_food merge_food
sum_food-merge k j n s [] = ground arith
sum_food-merge k j n s (b ∷ bs) = ground (arith, kind_eq→≡ b.kind k, sum_food-merge k j n s bs)

-- Adding a food kind to a pile adds to the amount of that kind, and to no other.
pub avail-add_food :
    (p : Pile) (k j : Kind) (n s : ℕ)
    → is_food_kind k ≡ true
    → avail (add_food p k n s) j ≡ avail p j + (if kind_eq k j then n else 0)
unfolding add_food avail is_food_kind kind_eq
avail-add_food p food_raw j n s f = ground (arith, sum_food-merge food_raw j n s p.food)
avail-add_food p food_cooked j n s f = ground (arith, sum_food-merge food_cooked j n s p.food)
avail-add_food p meals j n s f = ground (arith, sum_food-merge meals j n s p.food)
avail-add_food p _ j n s f = absurd (cc f)

-- The kinds that are a flat count of a pile.
abbrev pub is_flat : Kind → Bool
is_flat wood = true
is_flat stone = true
is_flat water = true
is_flat planks = true
is_flat refined_stone = true
is_flat _ = false

pub avail-add_non_food :
    (p : Pile) (k j : Kind) (n : ℕ)
    → is_flat k ≡ true
    → avail (add_non_food p k n) j ≡ avail p j + (if kind_eq k j then n else 0)
unfolding add_non_food avail kind_eq
avail-add_non_food p wood j n f = ground arith
avail-add_non_food p _ j n f = ground arith

-- Taking a flat kind takes as much as there is, up to the request, and nothing of another kind.
pub avail-take_non_food :
    (p : Pile) (k j : Kind) (n : ℕ)
    → is_flat k ≡ true
    → ((take_non_food p k n).1 ≡ min n (avail p k))
      × (avail (take_non_food p k n).0 j + (if kind_eq k j then (take_non_food p k n).1 else 0)
          ≡ avail p j)
unfolding take_non_food avail kind_eq
avail-take_non_food p wood j n f = ground arith
avail-take_non_food p _ j n f = ground arith

-- What the selected batches hold.
unfoldable pub sum_selected : (FoodBatch → Bool) → List FoodBatch → ℕ
sum_selected sel [] = 0
sum_selected sel (b ∷ bs) = (if sel b then b.n else 0) + sum_selected sel bs

pub drain_total :
    (sel : FoodBatch → Bool) (n t : ℕ) (bs : List FoodBatch)
    → (drain sel n t bs).1 ≡ t + min (n - t) (sum_selected sel bs)
unfolding drain sum_selected
drain_total sel n t [] = omega arith
drain_total sel n t (b ∷ bs) = ground (arith, drain_total sel n (t + portion (sel b) n t b.n) bs)

pub drain_food :
    (sel : FoodBatch → Bool) (k j : Kind) (n t : ℕ) (bs : List FoodBatch)
    → ((b : FoodBatch) → sel b ≡ true → kind_eq b.kind k ≡ true)
    → sum_food j (drain sel n t bs).0 + (if kind_eq k j then (drain sel n t bs).1 - t else 0)
      ≡ sum_food j bs
unfolding drain sum_food
drain_food sel k j n t [] h = ground arith
drain_food sel k j n t (b ∷ bs) h = ground (
  arith,
  h b,
  kind_eq→≡ b.kind k,
  drain_total sel n (t + portion (sel b) n t b.n) bs,
  drain_food sel k j n (t + portion (sel b) n t b.n) bs h,
)

-- No batch is empty.
abbrev pub Stocked : List FoodBatch → Type 0
Stocked = All (λ b. 0 < b.n)

pub drain-Stocked :
    (sel : FoodBatch → Bool) (n t : ℕ) (bs : List FoodBatch) → Stocked (drain sel n t bs).0
unfolding drain
drain-Stocked sel n t [] = tt
drain-Stocked sel n t (b ∷ bs) =
    ground (arith, drain-Stocked sel n (t + portion (sel b) n t b.n) bs)

sum_selected-kind :
    (k : Kind) (bs : List FoodBatch) → sum_selected (λ b. kind_eq b.kind k) bs ≡ sum_food k bs
unfolding sum_selected sum_food
sum_selected-kind k [] = refl
sum_selected-kind k (b ∷ bs) = rw (sum_selected-kind k bs)

drain_kind :
    (k j : Kind) (n : ℕ) (bs : List FoodBatch)
    → let (out, taken) = drain (λ b. kind_eq b.kind k) n 0 bs in
      (taken ≡ min n (sum_food k bs))
      × (sum_food j out + (if kind_eq k j then taken else 0) ≡ sum_food j bs)
drain_kind k j n bs = (
  drain_total (λ b. kind_eq b.kind k) n 0 bs ∙ rw (sum_selected-kind k bs) (omega arith),
  rw sub-zero at (drain_food (λ b. kind_eq b.kind k) k j n 0 bs (λ b h. h)),
)

-- Taking a food kind takes as much as there is, up to the request, and nothing of another kind.
pub avail-take_food :
    (p : Pile) (k j : Kind) (n : ℕ)
    → is_food_kind k ≡ true
    → ((take_food p k n).1 ≡ min n (avail p k))
      × (avail (take_food p k n).0 j + (if kind_eq k j then (take_food p k n).1 else 0) ≡ avail p j)
unfolding take_food avail kind_eq is_food_kind
avail-take_food p food_raw j n f = ground (arith, drain_kind food_raw j n p.food)
avail-take_food p food_cooked j n f = ground (arith, drain_kind food_cooked j n p.food)
avail-take_food p meals j n f = ground (arith, drain_kind meals j n p.food)
avail-take_food p _ j n f = absurd (cc f)

-- What has spoiled of a kind: the batches whose deadline has come.
abbrev pub spoiled : Kind → ℕ → List FoodBatch → ℕ
spoiled k tick = sum_selected (λ b. kind_eq b.kind k && leb b.spoil_at tick)

drain-spoiled :
    (k j : Kind) (n tick : ℕ) (bs : List FoodBatch)
    → let (out, taken) = drain (λ b. kind_eq b.kind k && leb b.spoil_at tick) n 0 bs in
      (taken ≡ min n (spoiled k tick bs))
      × (sum_food j out + (if kind_eq k j then taken else 0) ≡ sum_food j bs)
drain-spoiled k j n tick bs = (
  drain_total (λ b. kind_eq b.kind k && leb b.spoil_at tick) n 0 bs ∙ omega arith,
  rw sub-zero at
      (drain_food (λ b. kind_eq b.kind k && leb b.spoil_at tick) k j n 0 bs (λ b h. ground arith)),
)

-- The rot sweep's primitive takes only spoiled units of its kind, as many as there are up to the
-- request, and changes the amount of no other kind.
pub avail-take_spoiled :
    (p : Pile) (k j : Kind) (n tick : ℕ)
    → ((take_spoiled p k n tick).1 ≡ min n (spoiled k tick p.food))
      × (avail (take_spoiled p k n tick).0 j
            + (if is_food_kind j && kind_eq k j then (take_spoiled p k n tick).1 else 0)
          ≡ avail p j)
unfolding take_spoiled avail is_food_kind
avail-take_spoiled p k food_raw n tick = ground (arith, drain-spoiled k food_raw n tick p.food)
avail-take_spoiled p k food_cooked n tick =
    ground (arith, drain-spoiled k food_cooked n tick p.food)
avail-take_spoiled p k meals n tick = ground (arith, drain-spoiled k meals n tick p.food)
avail-take_spoiled p k j n tick = ground (arith, drain-spoiled k food_raw n tick p.food)
