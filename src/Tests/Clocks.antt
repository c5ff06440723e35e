-- ===== src/Tests/Clocks.antt =====
-- Tests of internal/clock.
use script_world.Prelude.{◌≡◌, refl, none, some, arith}
use script_world.Prelude.Int.{pos, negsuc}
use script_world.Clock.Calendar.{
  CalendarTime, IsCalendar, game_time, tick_at, check_time_of_day, tick_at-game_time,
}
use script_world.Clock.Ladder.{max_speed, ladder_index}

-- Noon of the second day.
abbrev noon : CalendarTime
noon = record { day = 2; hour = 12; min = 0; sec = 0 }

noon-IsCalendar : IsCalendar noon
noon-IsCalendar = omega arith

tick_at-noon : tick_at noon ≡ pos 108000
unfolding tick_at
tick_at-noon = refl

before_epoch : tick_at (record { day = 1; hour = 5; min = 59; sec = 59 }) ≡ negsuc 0
unfolding tick_at
before_epoch = refl

no_25th_hour : check_time_of_day (pos 25) (pos 0) ≡ none
unfolding check_time_of_day
no_25th_hour = refl

max_off_ladder : ladder_index max_speed ≡ none
unfolding ladder_index
max_off_ladder = refl

tick_at-game_time_example : tick_at (game_time 108000) ≡ pos 108000
tick_at-game_time_example = tick_at-game_time 108000

half_past_seven : check_time_of_day (pos 7) (pos 30) ≡ some (7, 30)
unfolding check_time_of_day
half_past_seven = refl
