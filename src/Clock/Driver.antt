-- ===== src/Clock/Driver.antt =====
-- kernel/sysclk.c: the clock driver, and `InitBcdToByte` of kernel/initclk.c. The PC clock is a
-- count of ticks and the AT clock a row of BCD bytes; what their assembly routines do beyond
-- storing these (the flag for midnight) is left out. A `UDWORD` wraps at 2 ^ 32; the conversions of
-- minutes to `int` and of the fields to bytes lose nothing on a PC clock below 24 hours, and are
-- not written out.
pub mod Ticks
use Prim.Native.Nat.{bit_and, bit_or}
use fdkernel.Common.{
  ℕ, zero, suc, ◌+◌, ◌-◌, ◌*◌, ◌/◌, ◌%◌, ◌^◌, Bool, true, false, not, ltb, ◌==◌, if◌then◌else◌,
  List, [], ◌∷◌, Option, some, none,
}
use fdkernel.Clock.Calendar.{entry, is_leap_year_monthdays, year_loop, year_fuel}

pub record ClockRecord : Type 0 where
  pub days : ℕ
  pub minutes : ℕ
  pub hours : ℕ
  pub hundredths : ℕ
  pub seconds : ℕ

-- The BCD bytes that are written to the AT clock: `bcd_days`, hours, minutes, seconds.
pub record AtClock : Type 0 where
  pub day : ℕ
  pub month : ℕ
  pub year : ℕ
  pub century : ℕ
  pub hours : ℕ
  pub minutes : ℕ
  pub seconds : ℕ

-- The hardware, the variable `DaysSinceEpoch` and the record at `rp->r_trans`.
pub record Clock : Type 0 where
  pub ticks : ℕ
  pub days_since_epoch : ℕ
  pub at_clock : AtClock
  pub trans : ClockRecord

abbrev pub dword : ℕ
dword = 2 ^ 32

unfoldable pub byte_to_bcd : ℕ → ℕ
byte_to_bcd x = x / 10 * 16 + x % 10

unfoldable pub bcd_to_byte : ℕ → ℕ
bcd_to_byte x = (x / 16) % 16 * 10 + x % 16

-- The day, month, year and century bytes of `DayToBcd`.
unfoldable pub day_to_bcd : ℕ → ℕ → ℕ → AtClock → AtClock
unfolding byte_to_bcd
day_to_bcd mon day yr a = record a {
  day = byte_to_bcd day;
  month = byte_to_bcd mon;
  year = byte_to_bcd (yr % 100);
  century = byte_to_bcd (yr / 100);
}

-- Ticks of the PC clock as hundredths of a second.
unfoldable pub hundredths_of_ticks : ℕ → ℕ
hundredths_of_ticks pc =
    let t = (5 * pc) % dword in
    ((t / 59659 * 2 ^ 16) % dword + (t % 59659 * 2 ^ 16) % dword / 59659) % dword

unfoldable pub ticks_of_hundredths : ℕ → ℕ
ticks_of_hundredths hs =
    ((hs / 2 ^ 16 * 59659) % dword + (hs % 2 ^ 16 * 59659) % dword / 2 ^ 16) % dword / 5

-- `C_INPUT`.
unfoldable pub clk_input : Clock → Clock
unfolding hundredths_of_ticks
clk_input s =
    let ticks = hundredths_of_ticks s.ticks in
    let tmp = ticks / 6000 in
    let rest = ticks % 6000 in
    record s {
      trans = record {
        days = s.days_since_epoch;
        minutes = tmp % 60;
        hours = tmp / 60;
        hundredths = rest % 100;
        seconds = rest / 100;
      };
    }

-- The search for the month in `C_OUTPUT`, from `month` on; if none fits, `Day` stays as it is.
unfoldable pub month_search : ℕ → List ℕ → ℕ → ℕ → ℕ × ℕ
month_search zero days month day = (month, day)
month_search (suc n) days month day =
    let rest = month_search n days (month + 1) day in
    if ltb day (entry days month) then (month, day - entry days (month - 1) + 1) else rest

unfoldable pub hundredths_of_record : ClockRecord → ℕ
hundredths_of_record c =
    (6000 * (60 * c.hours + c.minutes) + (100 * c.seconds + c.hundredths)) % dword

unfoldable pub write_clocks : Clock → ℕ → ℕ → Clock
unfolding day_to_bcd byte_to_bcd hundredths_of_record ticks_of_hundredths
write_clocks s year day =
    let (month, monthday) = month_search 12 (is_leap_year_monthdays year) 1 day in
    let dated = day_to_bcd month monthday year s.at_clock in
    record s {
      days_since_epoch = s.trans.days;
      ticks = ticks_of_hundredths (hundredths_of_record s.trans);
      at_clock = record dated {
        minutes = byte_to_bcd s.trans.minutes;
        hours = byte_to_bcd s.trans.hours;
        seconds = byte_to_bcd s.trans.seconds;
      };
    }

abbrev pub written : Clock → Option (ℕ × ℕ) → Option Clock
written s none = none
written s (some (year, day)) = some (write_clocks s year day)

-- `C_OUTPUT`; `none` would be a day counter that the loop over the years does not take down.
unfoldable pub clk_output : Clock → Option Clock
clk_output s = written s (year_loop year_fuel 1980 s.trans.days)

pub data Command : Type 0 where
  c_init c_input c_output c_oflush c_iflush c_other : Command

pub data Status : Type 0 where
  done bad_length general_failure : Status

abbrev pub driver_done : Option Clock → Option (Status × Clock)
driver_done none = none
driver_done (some s) = some (Status.done, s)

-- `clk_driver`, with the length of the request and the size of a `ClockRecord`, which is 6.
unfoldable pub clk_driver : Command → ℕ → Clock → Option (Status × Clock)
clk_driver Command.c_init count s = some (Status.done, s)
clk_driver Command.c_input count s =
    some (if count == 6 then (Status.done, clk_input s) else (Status.bad_length, s))
clk_driver Command.c_output count s =
    if count == 6 then driver_done (clk_output s) else some (Status.bad_length, s)
clk_driver Command.c_oflush count s = some (Status.done, s)
clk_driver Command.c_iflush count s = some (Status.done, s)
clk_driver Command.c_other count s = some (Status.general_failure, s)
