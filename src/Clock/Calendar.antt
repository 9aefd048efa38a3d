-- ===== src/Clock/Calendar.antt =====
-- kernel/systime.c: the calendar arithmetic. A `UWORD` wraps at 2 ^ 16.
pub mod Years
pub mod Months
pub mod RoundTrip
use fdkernel.Common.{
  ℕ, zero, suc, ◌+◌, ◌-◌, ◌*◌, ◌/◌, ◌%◌, ◌^◌, Bool, true, false, not, ◌||◌, List, [], ◌∷◌, ltb, leb,
  ◌==◌, if◌then◌else◌, get_or, Option, some, none,
}

abbrev pub word : ℕ
word = 2 ^ 16

-- The rows of `days`: the days of a year before each month, and of the whole year.
unfoldable pub common_days : List ℕ
common_days = 0 ∷ 31 ∷ 59 ∷ 90 ∷ 120 ∷ 151 ∷ 181 ∷ 212 ∷ 243 ∷ 273 ∷ 304 ∷ 334 ∷ 365 ∷ []

unfoldable pub leap_days : List ℕ
leap_days = 0 ∷ 31 ∷ 60 ∷ 91 ∷ 121 ∷ 152 ∷ 182 ∷ 213 ∷ 244 ∷ 274 ∷ 305 ∷ 335 ∷ 366 ∷ []

abbrev pub entry : List ℕ → ℕ → ℕ
entry days month = get_or days month 0

unfoldable pub is_leap_year_monthdays : ℕ → List ℕ
is_leap_year_monthdays y = if not (y % 4 == 0) || (y == 2100) then common_days else leap_days

-- The 16-bit arithmetic of the sum; `DayOfMonth - 1` is written `+ 0xffff`.
unfoldable pub days_from_year_month_day : ℕ → ℕ → ℕ → ℕ
days_from_year_month_day year month day =
    if ltb year 1980
    then 0
    else (day
        + 0xffff
        + entry (is_leap_year_monthdays year) (month - 1)
        + (year - 1980) * 365
        + (year - 1980 + 3) / 4)
      % word

-- The loop that takes whole years off the count of days, on fuel.
unfoldable pub year_loop : ℕ → ℕ → ℕ → Option (ℕ × ℕ)
year_loop zero year c = none
year_loop (suc fuel) year c =
    let length = entry (is_leap_year_monthdays year) 12 in
    let rest = year_loop fuel ((year + 1) % word) (c - length) in
    if leb length c then rest else some (year, c)

-- `while (c >= pdays[Month]) ++Month`, on fuel.
unfoldable pub month_loop : ℕ → List ℕ → ℕ → ℕ → Option ℕ
month_loop zero days month c = none
month_loop (suc fuel) days month c =
    let rest = month_loop fuel days (month + 1) c in
    if leb (entry days month) c then rest else some month

pub record Date : Type 0 where
  pub year : ℕ
  pub month : ℕ
  pub monthday : ℕ

abbrev pub date_in_year : ℕ → ℕ → Option ℕ → Option Date
date_in_year year c none = none
date_in_year year c (some month) = some (record {
  year = year;
  month = month;
  monthday = c - entry (is_leap_year_monthdays year) (month - 1) + 1;
})

abbrev pub month_fuel : ℕ
month_fuel = 13

abbrev pub year_fuel : ℕ
year_fuel = 200

abbrev pub after_years : Option (ℕ × ℕ) → Option Date
after_years none = none
after_years (some (year, c)) =
    date_in_year year c (month_loop month_fuel (is_leap_year_monthdays year) 1 c)

-- The date of a count of days since 1 January 1980.
unfoldable pub date_of_days : ℕ → Option Date
date_of_days c = after_years (year_loop year_fuel 1980 c)

-- Day 0 was a Tuesday; Sunday is 0.
unfoldable pub weekday : ℕ → ℕ
weekday c = (c + 2) % 7
