-- ===== src/Clock.antt =====
-- internal/clock/clock.go: the game clock (1 tick is 1 game second, tick 0 is day 1, 06:00) and
-- the ladder of speeds. Ticks are natural numbers, as the loop counts them up from 0; `TickAt`
-- may fall before tick 0, so its result is an integer.
pub mod Calendar
pub mod Ladder
