-- ===== src/Clock/SysTime/SetGet.antt =====
-- kernel/systime.c over kernel/sysclk.c: what is set is read back.
use fdkernel.Common.{
  ℕ, ◌+◌, ◌*◌, ◌^◌, ◌≤◌, ◌<◌, ◌≡◌, ◌⊎◌, inl, inr, refl, true, false, arith, some, pos, negsuc, ℤ,
  Bool-cases, ◌∙◌, ap,
}
use fdkernel.Clock.Calendar.{Date, days_from_year_month_day, date_of_days, weekday, year_fuel}
use fdkernel.Clock.Calendar.Years.{year_loop_total, year_length_bounds}
use fdkernel.Clock.Calendar.Months.{year-Checked}
use fdkernel.Clock.Calendar.RoundTrip.{IsDate, days_from_lem, date_of_days-days_from}
use fdkernel.Clock.Driver.{
  Clock, Command, Status, clk_driver, clk_input, clk_output, write_clocks, written, driver_done,
  hundredths_of_ticks, ticks_of_hundredths, hundredths_of_record,
}
use fdkernel.Clock.Driver.Ticks.{hundredths-ticks}
use fdkernel.Clock.SysTime.{
  Time, time_of, out_of_range, with_time, dos_get_time, dos_set_time, dos_get_date, dos_set_date,
  bad_date, after_output, date_and_weekday,
}

-- The range test of `DosSetDate` accepts exactly the days of the calendar from 1980 to 2099.
bad_date_lem : (d : Date) → ((bad_date d ≡ false) × IsDate d) ⊎ ((bad_date d ≡ true) × ¬ IsDate d)
unfolding bad_date
bad_date_lem d = elim (Bool-cases (bad_date d)) [
  | inl bad ↦ inr (bad, λ v. ground arith)
  | inr good ↦ inl (good, ground arith)
]

-- A request to set the clocks succeeds, whatever 16-bit count of days it carries.
clk_output_lem :
    (s : Clock)
    → s.trans.days < 2 ^ 16
    → (year : ℕ) × (day : ℕ) × (clk_output s ≡ some (write_clocks s year day))
unfolding clk_output
clk_output_lem s h =
    let (z, r, years, _, _, _, _) =
      year_loop_total year_fuel 1980 s.trans.days (omega arith) (omega arith) (omega arith) in
    (z, r, ap (written s) years)

execute_output_lem :
    (s : Clock)
    → s.trans.days < 2 ^ 16
    → (year : ℕ) × (day : ℕ) × (clk_driver Command.c_output 6 s
        ≡ some (Status.done, write_clocks s year day))
unfolding clk_driver
execute_output_lem s h = let (z, r, e) = clk_output_lem s h in (z, r, ap driver_done e)

write_clocks-days : (s : Clock) (y r : ℕ) → (write_clocks s y r).days_since_epoch ≡ s.trans.days
unfolding write_clocks
write_clocks-days s y r = refl

write_clocks-ticks :
    (s : Clock) (y r : ℕ)
    → (write_clocks s y r).ticks ≡ ticks_of_hundredths (hundredths_of_record s.trans)
unfolding write_clocks
write_clocks-ticks s y r = refl

days_from_bound :
    (d : Date) → IsDate d → days_from_year_month_day d.year d.month d.monthday < 2 ^ 16
days_from_bound d v = omega (
  arith,
  days_from_lem d v,
  (year-Checked d.year).2 d.month (omega arith),
  year_length_bounds d.year,
)

get_date_lem :
    (s : Clock) (d : Date)
    → date_of_days s.days_since_epoch ≡ some d
    → dos_get_date s ≡ some (some (d, weekday s.days_since_epoch), clk_input s)
unfolding dos_get_date clk_driver clk_input
get_date_lem s d e = ap (date_and_weekday (clk_input s)) e

-- The records that go to the driver.
abbrev dated : ℕ → Clock → Clock
dated c s = record s { trans = record (s.trans) { days = c } }

abbrev timed : Time → Clock → Clock
timed t s = record s { trans = with_time t s.trans }

set_date_run :
    (fail : ℤ) (d : Date) (s : Clock)
    → bad_date d ≡ false
    → dos_set_date fail d s
      ≡ after_output fail (
          clk_driver Command.c_output 6
            (dated (days_from_year_month_day d.year d.month d.monthday) (clk_input s)))
unfolding dos_set_date clk_driver
set_date_run fail d s good = rw good

-- `DosSetDate` refuses exactly what is no date from 1980 to 2099, with DE_INVLDDATA and without a
-- change; otherwise it succeeds, and `DosGetDate` then yields this date and its day of the week.
pub set_date-get_date :
    (fail : ℤ) (d : Date) (s : Clock)
    → ((¬ IsDate d) × (dos_set_date fail d s ≡ some (negsuc 12, s)))
      ⊎ (IsDate d
          × (s' : Clock) × (dos_set_date fail d s ≡ some (pos 0, s'))
          × (dos_get_date s'
              ≡ some (
                some (d, weekday (days_from_year_month_day d.year d.month d.monthday)),
                clk_input s',
              )))
set_date-get_date fail d s = elim (bad_date_lem d) [
  | inr (bad, invalid) ↦ inl (invalid, unfold dos_set_date in rw bad)
  | inl (good, valid) ↦
      let c = days_from_year_month_day d.year d.month d.monthday in
      let mid : Clock = dated c (clk_input s) in
      let (y, r, run) = execute_output_lem mid (days_from_bound d valid) in
      let s' = write_clocks mid y r in
      let counter : s'.days_since_epoch ≡ c = write_clocks-days mid y r in
      inr (
        valid,
        s',
        set_date_run fail d s good ∙ ap (after_output fail) run,
        get_date_lem s' d (rw counter (date_of_days-days_from d valid))
            ∙ ap (λ n. some (some (d, weekday n), clk_input s')) counter,
      )
]

-- The time of the day in hundredths of a second.
abbrev pub hundredths_of : Time → ℕ
hundredths_of t = ((t.hour * 60 + t.minute) * 60 + t.second) * 100 + t.hundredth

set_time_run :
    (fail : ℤ) (t : Time) (s : Clock)
    → out_of_range t ≡ false
    → dos_set_time fail t s
      ≡ after_output fail (clk_driver Command.c_output 6 (timed t (clk_input s)))
unfolding dos_set_time clk_driver
set_time_run fail t s good = rw good

get_time_lem : (s : Clock) → dos_get_time s ≡ some (some (time_of (clk_input s).trans), clk_input s)
unfolding dos_get_time clk_driver
get_time_lem s = refl

-- The fields that `C_INPUT` fills in stand for the hundredths that it started from.
clk_input-hundredths :
    (s : Clock) → hundredths_of (time_of (clk_input s).trans) ≡ hundredths_of_ticks s.ticks
unfolding clk_input hundredths_of_ticks
clk_input-hundredths s = omega arith

-- `DosSetTime` refuses exactly the times with a field out of range, without a change; otherwise it
-- succeeds, and `DosGetTime` then yields a time that is not later and less than seven hundredths
-- of a second earlier. The count of days is a word.
pub set_time-get_time :
    (fail : ℤ) (t : Time) (s : Clock)
    → s.days_since_epoch < 2 ^ 16
    → ((out_of_range t ≡ true) × (dos_set_time fail t s ≡ some (negsuc 12, s)))
      ⊎ ((s' : Clock) × (t' : Time) × (dos_set_time fail t s ≡ some (pos 0, s'))
          × (dos_get_time s' ≡ some (some t', clk_input s'))
          × (hundredths_of t' ≤ hundredths_of t)
          × (hundredths_of t < hundredths_of t' + 7))
set_time-get_time fail t s h = elim (Bool-cases (out_of_range t)) [
  | inl bad ↦ inl (bad, unfold dos_set_time in rw bad)
  | inr good ↦
      let mid : Clock = timed t (clk_input s) in
      let (y, r, run) = execute_output_lem mid (unfold clk_input in h) in
      let s' = write_clocks mid y r in
      let small : hundredths_of t < 8640000 = ground arith in
      let sum : hundredths_of_record mid.trans ≡ hundredths_of t =
        unfold hundredths_of_record in omega arith in
      let kept = hundredths-ticks (hundredths_of t) small in
      let read : hundredths_of (time_of (clk_input s').trans)
          ≡ hundredths_of_ticks (ticks_of_hundredths (hundredths_of t)) =
        clk_input-hundredths s'
        ∙ ap hundredths_of_ticks (write_clocks-ticks mid y r ∙ ap ticks_of_hundredths sum) in
      inr (
        s',
        time_of (clk_input s').trans,
        set_time_run fail t s good ∙ ap (after_output fail) run,
        get_time_lem s',
        rw read kept.0,
        rw read kept.1,
      )
]
