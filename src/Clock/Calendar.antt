-- ===== src/Clock/Calendar.antt =====
-- internal/clock/clock.go: ticks and calendar coordinates.
use script_world.Prelude.{
  ℕ, ◌+◌, ◌*◌, ◌/◌, ◌%◌, ◌≤◌, ◌<◌, ◌≡◌, ◌||◌, Option, none, some, arith, ltb, if◌then◌else◌,
}
use script_world.Prelude.Int.{ℤ, pos, sub_ℕ}

abbrev pub tick_game_seconds : ℕ
tick_game_seconds = 1

abbrev pub seconds_per_minute : ℕ
seconds_per_minute = 60

abbrev pub seconds_per_hour : ℕ
seconds_per_hour = 3600

abbrev pub seconds_per_day : ℕ
seconds_per_day = 86400

abbrev pub epoch_second_of_day : ℕ
epoch_second_of_day = 6 * seconds_per_hour

-- What `GameTime` returns.
pub record CalendarTime : Type 0 where
  pub day : ℕ
  pub hour : ℕ
  pub min : ℕ
  pub sec : ℕ

unfoldable pub game_time : ℕ → CalendarTime
game_time tick =
    let abs = tick * tick_game_seconds + epoch_second_of_day in
    let rem = abs % seconds_per_day in
    record {
      day = abs / seconds_per_day + 1;
      hour = rem / seconds_per_hour;
      min = rem % seconds_per_hour / seconds_per_minute;
      sec = rem % seconds_per_minute;
    }

unfoldable pub second_of_day : ℕ → ℕ
second_of_day tick = (tick * tick_game_seconds + epoch_second_of_day) % seconds_per_day

-- `(abs - EpochSecondOfDay) / TickGameSeconds`, where the divisor is 1 and what is taken away,
-- a day and the epoch, stands together.
unfoldable pub tick_at : CalendarTime → ℤ
tick_at c =
    sub_ℕ (c.day * seconds_per_day + c.hour * seconds_per_hour + c.min * seconds_per_minute + c.sec)
      (seconds_per_day + epoch_second_of_day)

-- The range check of `ParseTimeOfDay`, on the two integers that `Sscanf` read.
unfoldable pub check_time_of_day : ℤ → ℤ → Option (ℕ × ℕ)
check_time_of_day (pos h) (pos m) = if ltb 23 h || ltb 59 m then none else some (h, m)
check_time_of_day _ _ = none

-- Calendar coordinates in range.
pub record IsCalendar (c : CalendarTime) : Type 0 where
  pub day_pos : 1 ≤ c.day
  pub hour_lt : c.hour < 24
  pub min_lt : c.min < 60
  pub sec_lt : c.sec < 60

-- The coordinates of every tick are in range, and agree with the second of the day.
pub game_time-IsCalendar : (tick : ℕ) → IsCalendar (game_time tick)
unfolding game_time
game_time-IsCalendar tick = omega arith

-- `TickAt` inverts `GameTime`: the calendar coordinates of a tick lead back to that tick.
pub tick_at-game_time : (tick : ℕ) → tick_at (game_time tick) ≡ pos tick
unfolding tick_at game_time
tick_at-game_time tick = ground arith

-- `GameTime` inverts `TickAt`: for coordinates in range that do not fall before the epoch, the
-- tick that `TickAt` gives has these coordinates.
pub game_time-tick_at :
    (c : CalendarTime) (tick : ℕ) → IsCalendar c → tick_at c ≡ pos tick → game_time tick ≡ c
unfolding tick_at game_time
game_time-tick_at c tick v e = ground arith

-- The second of the day of a tick is that of its hour, minute and second.
pub second_of_day-game_time :
    (tick : ℕ)
    → second_of_day tick
      ≡ (game_time tick).hour * seconds_per_hour
        + (game_time tick).min * seconds_per_minute
        + (game_time tick).sec
unfolding second_of_day game_time
second_of_day-game_time tick = omega arith

-- A label "HH:MM" that `ParseTimeOfDay` accepts names a time of a day: with any day number from 1
-- on it gives coordinates in range.
pub check_time_of_day-IsCalendar :
    (h m : ℤ) (d : ℕ) {t : ℕ × ℕ}
    → check_time_of_day h m ≡ some t
    → IsCalendar (record { day = d + 1; hour = t.0; min = t.1; sec = 0 })
unfolding check_time_of_day
check_time_of_day-IsCalendar (pos h) (pos m) d e = ground arith
check_time_of_day-IsCalendar _ _ d e = absurd (cc e)
