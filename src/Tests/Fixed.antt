-- ===== src/Tests/Fixed.antt =====
-- Fixed-point numbers in thousandths, in place of Go's floats, for the tests of
-- internal/cognition.
use script_world.Prelude.{
  ℕ, ◌+◌, ◌-◌, ◌*◌, ◌/◌, ◌≡◌, refl, sym, ◌∙◌, ap, suc, length, ◌++◌, arith, List, [], ◌∷◌, ltb, leb,
  if◌then◌else◌,
}
use script_world.Prelude.Int.{pos}
use script_world.Cognition.Floats.{Floats}
use script_world.Cognition.Estimator.Verdict.{IsSorting}

abbrev insert_fixed : ℕ → List ℕ → List ℕ
insert_fixed a [] = a ∷ []
insert_fixed a (b ∷ bs) = let rest = b ∷ insert_fixed a bs in if leb a b then a ∷ b ∷ bs else rest

abbrev sort_fixed : List ℕ → List ℕ
sort_fixed [] = []
sort_fixed (a ∷ us) = insert_fixed a (sort_fixed us)

abbrev pub fixed : Floats
fixed = record {
  Float = ℕ;
  ltf = λ a b. ltb a b;
  lef = λ a b. leb a b;
  addf = λ a b. a + b;
  subf = λ a b. a - b;
  mulf = λ a b. a * b / 1000;
  divf = λ a b. a * 1000 / b;
  of_nat = λ n. n * 1000;
  to_int = λ a. pos (a / 1000);
  sort_floats = sort_fixed;
}

length-insert : (a : ℕ) (us : List ℕ) → length (insert_fixed a us) ≡ suc (length us)
length-insert a [] = omega arith
length-insert a (b ∷ bs) = ground (arith, length-insert a bs)

length-sort : (us : List ℕ) → length (sort_fixed us) ≡ length us
length-sort [] = refl
length-sort (a ∷ us) = omega (arith, length-insert a (sort_fixed us), length-sort us)

insert_comm :
    (a b : ℕ) (us : List ℕ)
    → insert_fixed a (insert_fixed b us) ≡ insert_fixed b (insert_fixed a us)
insert_comm a b [] = ground arith
insert_comm a b (c ∷ us) = ground (arith, insert_comm a b us)

sort-middle :
    (us : List ℕ) (a : ℕ) (ws : List ℕ)
    → sort_fixed (us ++ a ∷ ws) ≡ insert_fixed a (sort_fixed (us ++ ws))
sort-middle [] a ws = refl
sort-middle (u ∷ us) a ws =
    ap (insert_fixed u) (sort-middle us a ws) ∙ insert_comm u a (sort_fixed (us ++ ws))

sort_swap : (us ws : List ℕ) → sort_fixed (us ++ ws) ≡ sort_fixed (ws ++ us)
sort_swap [] [] = refl
sort_swap [] (w ∷ ws) = ap (insert_fixed w) (sort_swap [] ws)
sort_swap (u ∷ us) ws = ap (insert_fixed u) (sort_swap us ws) ∙ sym (sort-middle ws u us)

pub fixed-IsSorting : IsSorting fixed
fixed-IsSorting = record { kept = length-sort; alike = sort_swap }
