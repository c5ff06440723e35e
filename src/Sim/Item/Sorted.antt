-- ===== src/Sim/Item/Sorted.antt =====
-- The uses of spears and axes stay sorted in ascending order, so the most worn is spent first.
use mathlib.Core.List.{Perm}
use mathlib.Core.List.Perm
use script_world.Prelude.{
  ℕ, zero, suc, ◌+◌, ◌≤◌, ◌≡◌, refl, true, false, List, [], ◌∷◌, arith, length, Bool-cases, inl,
  inr, drop,
}
use script_world.Prelude.Int.{ℤ, pos, negsuc, pos_part, neg_part}
use script_world.Sim.Item.{leb_ℤ, insert_int, sort_ints, spend_use}

-- a ≤ b for integers.
infix 50 ◌≤ℤ◌
abbrev pub ◌≤ℤ◌ : ℤ → ℤ → Type 0
a ≤ℤ b = pos_part a + neg_part b ≤ pos_part b + neg_part a

abbrev pub Above : ℤ → List ℤ → Type 0
Above a [] = Unit {0}
Above a (b ∷ bs) = (a ≤ℤ b) × Above a bs

-- Ascending: each element is at most all that follow it.
abbrev pub IsSorted : List ℤ → Type 0
IsSorted [] = Unit {0}
IsSorted (a ∷ us) = Above a us × IsSorted us

Above-insert : (c a : ℤ) (us : List ℤ) → c ≤ℤ a → Above c us → Above c (insert_int a us)
unfolding insert_int
Above-insert c a [] h k = (h, tt)
Above-insert c a (b ∷ bs) h k = ground (arith, Above-insert c a bs h k.1)

Above-trans : (a b : ℤ) (us : List ℤ) → a ≤ℤ b → Above b us → Above a us
Above-trans a b [] h k = tt
Above-trans a b (c ∷ cs) h k = (omega arith, Above-trans a b cs h k.1)

leb_ℤ→≤ℤ : (a b : ℤ) → leb_ℤ a b ≡ true → a ≤ℤ b
leb_ℤ→≤ℤ a b h = ground arith

leb_ℤ→≥ℤ : (a b : ℤ) → leb_ℤ a b ≡ false → b ≤ℤ a
leb_ℤ→≥ℤ a b h = ground arith

insert-IsSorted : (a : ℤ) (us : List ℤ) → IsSorted us → IsSorted (insert_int a us)
unfolding insert_int
insert-IsSorted a [] h = (tt, tt)
insert-IsSorted a (b ∷ bs) h = elim (Bool-cases (leb_ℤ a b)) [
  | inl e ↦ rw e ((leb_ℤ→≤ℤ a b e, Above-trans a b bs (leb_ℤ→≤ℤ a b e) h.0), h)
  | inr e ↦ rw e (Above-insert b a bs (leb_ℤ→≥ℤ a b e) h.0, insert-IsSorted a bs h.1)
]

pub sort_ints-IsSorted : (us : List ℤ) → IsSorted (sort_ints us)
unfolding sort_ints
sort_ints-IsSorted [] = tt
sort_ints-IsSorted (a ∷ us) = insert-IsSorted a (sort_ints us) (sort_ints-IsSorted us)

insert-perm : (a : ℤ) (us : List ℤ) → Perm (insert_int a us) (a ∷ us)
unfolding insert_int
insert-perm a [] = Perm.refl _
insert-perm a (b ∷ bs) = elim (Bool-cases (leb_ℤ a b)) [
  | inl e ↦ rw e (Perm.refl _)
  | inr e ↦ rw e (Perm.trans (Perm.cons b (insert-perm a bs)) (Perm.swap a b bs))
]

pub sort_ints-perm : (us : List ℤ) → Perm (sort_ints us) us
unfolding sort_ints
sort_ints-perm [] = Perm.refl _
sort_ints-perm (a ∷ us) =
    Perm.trans (insert-perm a (sort_ints us)) (Perm.cons a (sort_ints-perm us))

length-insert : (a : ℤ) (us : List ℤ) → length (insert_int a us) ≡ suc (length us)
unfolding insert_int
length-insert a [] = refl
length-insert a (b ∷ bs) = ground (arith, length-insert a bs)

pub length-sort_ints : (us : List ℤ) → length (sort_ints us) ≡ length us
unfolding sort_ints
length-sort_ints [] = refl
length-sort_ints (a ∷ us) = omega (arith, length-insert a (sort_ints us), length-sort_ints us)

pub length-spend_use : (us : List ℤ) → length (spend_use us) ≡ length us
unfolding spend_use
length-spend_use [] = refl
length-spend_use (pos zero ∷ us) = refl
length-spend_use (pos (suc n) ∷ us) = refl
length-spend_use (negsuc n ∷ us) = refl

-- A use of the most worn tool keeps the order.
pub spend_use-IsSorted : (us : List ℤ) → IsSorted us → IsSorted (spend_use us)
unfolding spend_use
spend_use-IsSorted [] h = h
spend_use-IsSorted (pos zero ∷ us) h = (Above-trans (negsuc 0) (pos 0) us (omega arith) h.0, h.1)
spend_use-IsSorted (pos (suc n) ∷ us) h =
    (Above-trans (pos n) (pos (suc n)) us (omega arith) h.0, h.1)
spend_use-IsSorted (negsuc n ∷ us) h =
    (Above-trans (negsuc (suc n)) (negsuc n) us (omega arith) h.0, h.1)

Above-drop : (a : ℤ) (n : ℕ) (us : List ℤ) → Above a us → Above a (drop n us)
Above-drop a zero us h = h
Above-drop a (suc n) [] h = h
Above-drop a (suc n) (b ∷ bs) h = Above-drop a n bs h.1

pub drop-IsSorted : (n : ℕ) (us : List ℤ) → IsSorted us → IsSorted (drop n us)
drop-IsSorted zero us h = h
drop-IsSorted (suc n) [] h = h
drop-IsSorted (suc n) (a ∷ us) h = drop-IsSorted n us h.1
