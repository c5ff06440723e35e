-- ===== src/Clock/Ladder.antt =====
-- internal/clock/clock.go: the speeds and the capped ladder.
use script_world.Prelude.{
  ℕ, zero, suc, ◌+◌, ◌<◌, ◌≡◌, ◌↔◌, Bool, true, false, Option, none, some, List, [], ◌∷◌, arith,
  get_elem?, if◌then◌else◌, ◌==◌,
}

-- The values of the string type `Speed`; `unset` is the empty string, and `unknown` any string
-- that is not in the table `speeds`.
pub data Speed : Type 0 where
  x1 x4 x8 x16 x32 max_speed unset : Speed
  unknown : ℕ → Speed

abbrev pub default_speed : Speed
default_speed = x4

-- String equality of two speeds.
unfoldable pub speed_eq : Speed → Speed → Bool
speed_eq x1 x1 = true
speed_eq x4 x4 = true
speed_eq x8 x8 = true
speed_eq x16 x16 = true
speed_eq x32 x32 = true
speed_eq max_speed max_speed = true
speed_eq unset unset = true
speed_eq (unknown a) (unknown b) = a == b
speed_eq _ _ = false

-- `speeds[s]`: game seconds for each real second, 0 for `max` and, as a missing key, for any other.
unfoldable pub ticks_per_second : Speed → ℕ
ticks_per_second x1 = 1
ticks_per_second x4 = 4
ticks_per_second x8 = 8
ticks_per_second x16 = 16
ticks_per_second x32 = 32
ticks_per_second _ = 0

abbrev pub capped_ladder : List Speed
capped_ladder = x1 ∷ x4 ∷ x8 ∷ x16 ∷ x32 ∷ []

-- The loop of `LadderIndex`; `none` is -1.
ladder_scan : Speed → ℕ → List Speed → Option ℕ
ladder_scan s i [] = none
ladder_scan s i (sp ∷ rest) = if speed_eq sp s then some i else ladder_scan s (i + 1) rest

unfoldable pub ladder_index : Speed → Option ℕ
unfolding ladder_scan speed_eq
ladder_index s = ladder_scan s 0 capped_ladder

pub speed_eq→≡ : (a b : Speed) → speed_eq a b ≡ true → a ≡ b
unfolding speed_eq
speed_eq→≡ a b h = ground arith

pub speed_eq_refl : (a : Speed) → speed_eq a a ≡ true
unfolding speed_eq
speed_eq_refl a = ground arith

-- A position on the ladder is that of exactly one speed: `LadderIndex` and indexing the ladder
-- are inverse to one another.
pub ladder_index_iff :
    (s : Speed) (i : ℕ) → (ladder_index s ≡ some i) ↔ (get_elem? capped_ladder i ≡ some s)
unfolding ladder_index
ladder_index_iff s zero = ground arith
ladder_index_iff s (suc zero) = ground arith
ladder_index_iff s (suc (suc zero)) = ground arith
ladder_index_iff s (suc (suc (suc zero))) = ground arith
ladder_index_iff s (suc (suc (suc (suc zero)))) = ground arith
ladder_index_iff s (suc (suc (suc (suc (suc i))))) = ground arith

-- One notch up the ladder is a faster speed.
pub ladder_faster :
    (i : ℕ) (s t : Speed)
    → get_elem? capped_ladder i ≡ some s
    → get_elem? capped_ladder (suc i) ≡ some t
    → ticks_per_second s < ticks_per_second t
unfolding ticks_per_second
ladder_faster zero s t h k = ground arith
ladder_faster (suc zero) s t h k = ground arith
ladder_faster (suc (suc zero)) s t h k = ground arith
ladder_faster (suc (suc (suc zero))) s t h k = ground arith
ladder_faster (suc (suc (suc (suc i)))) s t h k = ground arith
