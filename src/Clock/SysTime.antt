-- ===== src/Clock/SysTime.antt =====
-- kernel/systime.c: `DosGetTime`, `DosSetTime`, `DosGetDate` and `DosSetDate`. A request goes to the
-- clock driver at once, with `ClkRecord` as its data. What `char_error` returns for a failed request
-- is the argument `fail`.
pub mod SetGet
use fdkernel.Common.{
  ℕ, ◌+◌, ◌-◌, ◌%◌, Bool, true, false, not, ◌&&◌, ◌||◌, ltb, ◌==◌, if◌then◌else◌, Option, some,
  none, ℤ, pos, negsuc,
}
use fdkernel.Clock.Calendar.{
  Date, entry, is_leap_year_monthdays, days_from_year_month_day, date_of_days, weekday,
}
use fdkernel.Clock.Driver.{Clock, ClockRecord, Command, Status, clk_driver}

pub record Time : Type 0 where
  pub hour : ℕ
  pub minute : ℕ
  pub second : ℕ
  pub hundredth : ℕ

abbrev pub execute : Command → Clock → Option (Status × Clock)
execute command s = clk_driver command 6 s

abbrev pub time_of : ClockRecord → Time
time_of c = record {
  hour = c.hours;
  minute = c.minutes;
  second = c.seconds;
  hundredth = c.hundredths;
}

-- `none` inside is a `dt` that was not written.
abbrev pub read_time : Option (Status × Clock) → Option (Option Time × Clock)
read_time none = none
read_time (some (Status.done, s)) = some (some (time_of s.trans), s)
read_time (some (Status.bad_length, s)) = some (none, s)
read_time (some (Status.general_failure, s)) = some (none, s)

unfoldable pub dos_get_time : Clock → Option (Option Time × Clock)
dos_get_time s = read_time (execute Command.c_input s)

abbrev pub out_of_range : Time → Bool
out_of_range t = ltb 23 t.hour || ltb 59 t.minute || ltb 59 t.second || ltb 99 t.hundredth

-- The result after `C_OUTPUT`.
abbrev pub after_output : ℤ → Option (Status × Clock) → Option (ℤ × Clock)
after_output fail none = none
after_output fail (some (Status.done, s)) = some (pos 0, s)
after_output fail (some (Status.bad_length, s)) = some (fail, s)
after_output fail (some (Status.general_failure, s)) = some (fail, s)

abbrev pub with_time : Time → ClockRecord → ClockRecord
with_time t c = record c {
  hours = t.hour;
  minutes = t.minute;
  seconds = t.second;
  hundredths = t.hundredth;
}

abbrev pub output_time : ℤ → Time → Option (Status × Clock) → Option (ℤ × Clock)
output_time fail t none = none
output_time fail t (some (status, s)) =
    after_output fail (execute Command.c_output (record s { trans = with_time t s.trans }))

unfoldable pub dos_set_time : ℤ → Time → Clock → Option (ℤ × Clock)
dos_set_time fail t s =
    if out_of_range t then some (negsuc 12, s) else output_time fail t (execute Command.c_input s)

-- The date and the day of the week; `none` inside is a `dd` that was not written.
abbrev pub date_and_weekday : Clock → Option Date → Option (Option (Date × ℕ) × Clock)
date_and_weekday s none = none
date_and_weekday s (some d) = some (some (d, weekday s.trans.days), s)

abbrev pub read_date : Option (Status × Clock) → Option (Option (Date × ℕ) × Clock)
read_date none = none
read_date (some (Status.done, s)) = date_and_weekday s (date_of_days s.trans.days)
read_date (some (Status.bad_length, s)) = some (none, s)
read_date (some (Status.general_failure, s)) = some (none, s)

unfoldable pub dos_get_date : Clock → Option (Option (Date × ℕ) × Clock)
dos_get_date s = read_date (execute Command.c_input s)

unfoldable pub bad_date : Date → Bool
bad_date d =
    let pdays = is_leap_year_monthdays d.year in
    ltb d.year 1980
    || ltb 2099 d.year
    || ltb d.month 1
    || ltb 12 d.month
    || ltb d.monthday 1
    || ltb (entry pdays d.month - entry pdays (d.month - 1)) d.monthday

abbrev pub output_date : ℤ → Date → Option (Status × Clock) → Option (ℤ × Clock)
output_date fail d none = none
output_date fail d (some (status, s)) = after_output fail (
    execute Command.c_output (record s {
      trans = record (s.trans) { days = days_from_year_month_day d.year d.month d.monthday };
    }))

unfoldable pub dos_set_date : ℤ → Date → Clock → Option (ℤ × Clock)
dos_set_date fail d s =
    if bad_date d then some (negsuc 12, s) else output_date fail d (execute Command.c_input s)
