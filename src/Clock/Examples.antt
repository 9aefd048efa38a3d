-- ===== src/Clock/Examples.antt =====
-- kernel/systime.c and kernel/sysclk.c: runs, and the theorems at them.
use fdkernel.Common.{◌+◌, ◌-◌, ◌*◌, ◌/◌, ◌≤◌, ◌<◌, ◌≡◌, ◌⊎◌, refl, true, arith, some, pos, negsuc}
use fdkernel.Clock.Calendar.{
  Date, common_days, leap_days, entry, is_leap_year_monthdays, days_from_year_month_day,
  date_of_days, weekday, year_loop, month_loop,
}
use fdkernel.Clock.Calendar.RoundTrip.{IsDate, date_of_days-days_from, date_of_days_total}
use fdkernel.Clock.Driver.{Clock, clk_input, hundredths_of_ticks, ticks_of_hundredths}
use fdkernel.Clock.Driver.Ticks.{hundredths_of_ticks_lem, hundredths-ticks}
use fdkernel.Clock.SysTime.{
  Time, out_of_range, dos_set_date, dos_get_date, dos_set_time, dos_get_time,
}
use fdkernel.Clock.SysTime.SetGet.{set_date-get_date, set_time-get_time, hundredths_of}

-- The leap day of the year 2000.
abbrev leap_day : Date
leap_day = record { year = 2000; month = 2; monthday = 29 }

leap_day-IsDate : IsDate leap_day
unfolding is_leap_year_monthdays leap_days
leap_day-IsDate = omega arith

leap_day_count : days_from_year_month_day 2000 2 29 ≡ 7364
unfolding days_from_year_month_day is_leap_year_monthdays leap_days
leap_day_count = refl

leap_day_back : date_of_days 7364 ≡ some leap_day
unfolding date_of_days year_loop month_loop is_leap_year_monthdays leap_days common_days
leap_day_back = refl

-- After 2100, which is no leap year, the two directions differ by a day.
after_2100 : days_from_year_month_day 2101 1 1 ≡ 44196
unfolding days_from_year_month_day is_leap_year_monthdays common_days
after_2100 = refl

after_2100_back : date_of_days 44195 ≡ some (record { year = 2101; month = 1; monthday = 1 })
unfolding date_of_days year_loop month_loop is_leap_year_monthdays leap_days common_days
after_2100_back = refl

abbrev some_clock : Clock
some_clock = record {
  ticks = 1000;
  days_since_epoch = 100;
  at_clock = record {
    day = 0;
    month = 0;
    year = 0;
    century = 0;
    hours = 0;
    minutes = 0;
    seconds = 0;
  };
  trans = record { days = 0; minutes = 0; hours = 0; hundredths = 0; seconds = 0 };
}

abbrev noon : Time
noon = record { hour = 12; minute = 30; second = 15; hundredth = 50 }

date_of_days-days_from_example : date_of_days (days_from_year_month_day 2000 2 29) ≡ some leap_day
date_of_days-days_from_example = date_of_days-days_from leap_day leap_day-IsDate

date_of_days_total_example :
    (d : Date) × (date_of_days 7364 ≡ some d)
    × (1980 ≤ d.year)
    × (1 ≤ d.month)
    × (d.month ≤ 12)
    × (1 ≤ d.monthday)
    × (d.monthday + entry (is_leap_year_monthdays d.year) (d.month - 1)
        ≤ entry (is_leap_year_monthdays d.year) d.month)
    × (7364 < 43830 → IsDate d × (days_from_year_month_day d.year d.month d.monthday ≡ 7364))
date_of_days_total_example = date_of_days_total 7364 (omega arith)

hundredths_of_ticks_lem_example :
    (hundredths_of_ticks 1573039 ≡ 1573039 * 327680 / 59659)
    × (hundredths_of_ticks 1573039 < 8640000)
hundredths_of_ticks_lem_example = hundredths_of_ticks_lem 1573039 (omega arith)

hundredths-ticks_example :
    (hundredths_of_ticks (ticks_of_hundredths 4501550) ≤ 4501550)
    × (4501550 < hundredths_of_ticks (ticks_of_hundredths 4501550) + 7)
hundredths-ticks_example = hundredths-ticks 4501550 (omega arith)

set_date-get_date_example :
    ((¬ IsDate leap_day)
      × (dos_set_date (negsuc 0) leap_day some_clock ≡ some (negsuc 12, some_clock)))
    ⊎ (IsDate leap_day
        × (s' : Clock) × (dos_set_date (negsuc 0) leap_day some_clock ≡ some (pos 0, s'))
        × (dos_get_date s'
            ≡ some (some (leap_day, weekday (days_from_year_month_day 2000 2 29)), clk_input s')))
set_date-get_date_example = set_date-get_date (negsuc 0) leap_day some_clock

set_time-get_time_example :
    ((out_of_range noon ≡ true)
      × (dos_set_time (negsuc 0) noon some_clock ≡ some (negsuc 12, some_clock)))
    ⊎ ((s' : Clock) × (t' : Time) × (dos_set_time (negsuc 0) noon some_clock ≡ some (pos 0, s'))
        × (dos_get_time s' ≡ some (some t', clk_input s'))
        × (hundredths_of t' ≤ hundredths_of noon)
        × (hundredths_of noon < hundredths_of t' + 7))
set_time-get_time_example = set_time-get_time (negsuc 0) noon some_clock (omega arith)
