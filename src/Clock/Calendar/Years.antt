-- ===== src/Clock/Calendar/Years.antt =====
-- kernel/systime.c: years against the rule of the Gregorian calendar.
use fdkernel.Common.{
  ℕ, zero, suc, ◌+◌, ◌-◌, ◌*◌, ◌/◌, ◌%◌, ◌≤◌, ◌<◌, ◌≡◌, Bool, true, false, not, ◌&&◌, ◌||◌, arith,
  leb, ◌==◌, if◌then◌else◌, some, ◌∙◌, ap, dec_lt,
}
use fdkernel.Clock.Calendar.{word, common_days, leap_days, entry, is_leap_year_monthdays, year_loop}

-- The rule of the calendar, written down independently of the code.
abbrev pub gregorian : ℕ → Bool
gregorian y = (y % 4 == 0) && (not (y % 100 == 0) || (y % 400 == 0))

-- From 1901 to 2199 the code's table is the one of the calendar's rule.
pub is_leap_year_monthdays_lem :
    (y : ℕ)
    → 1900 < y
    → y < 2200
    → is_leap_year_monthdays y ≡ (if gregorian y then leap_days else common_days)
unfolding is_leap_year_monthdays
is_leap_year_monthdays_lem y lo hi = ground arith

-- The days of a year.
abbrev pub year_length : ℕ → ℕ
year_length y = entry (is_leap_year_monthdays y) 12

-- The days from 1 January 1980 to 1 January of the year.
abbrev pub days_before : ℕ → ℕ
days_before y = (y - 1980) * 365 + (y - 1980 + 3) / 4

pub days_before-suc :
    (y : ℕ) → 1980 ≤ y → y < 2100 → days_before (y + 1) ≡ days_before y + year_length y
unfolding is_leap_year_monthdays common_days leap_days
days_before-suc y lo hi = ground arith

pub year_length_bounds : (y : ℕ) → (365 ≤ year_length y) × (year_length y ≤ 366)
unfolding is_leap_year_monthdays common_days leap_days
year_length_bounds y = ground arith

-- A round of the loop.
year_loop_stop : (fuel y c : ℕ) → c < year_length y → year_loop (suc fuel) y c ≡ some (y, c)
year_loop_stop fuel y c h =
    let stop : leb (year_length y) c ≡ false = ground arith in unfold year_loop in rw stop

year_loop_next :
    (fuel y c : ℕ)
    → year_length y ≤ c
    → y < 2200
    → year_loop (suc fuel) y c ≡ year_loop fuel (y + 1) (c - year_length y)
year_loop_next fuel y c h k =
    let more : leb (year_length y) c ≡ true = ground arith in
    let next : (y + 1) % word ≡ y + 1 = omega arith in unfold year_loop in rw (more, next)

-- From the year `y` on, a count of days that ends in the year `z` is taken down to the days in it.
pub year_loop_lem :
    (fuel k y z r c : ℕ)
    → k < fuel
    → 1980 ≤ y
    → y + k ≡ z
    → z < 2101
    → r < year_length z
    → c + days_before y ≡ days_before z + r
    → year_loop fuel y c ≡ some (z, r)
year_loop_lem zero k y z r c f lo at hi h e = absurd (omega arith)
year_loop_lem (suc fuel) zero y z r c f lo at hi h e =
    let same : z ≡ y = omega arith in
    rw same (
      year_loop_stop fuel y c (rw (← same) (omega (arith, ap days_before same)))
      ∙ ap (λ n. some (y, n)) (omega (arith, ap days_before same)))
year_loop_lem (suc fuel) (suc k) y z r c f lo at hi h e =
    let step = days_before-suc y lo (omega arith) in
    year_loop_next fuel y c (omega arith) (omega arith)
    ∙ year_loop_lem fuel k (y + 1) z r (c - year_length y) (omega arith) (omega arith) (omega arith)
        hi h (omega arith)

-- With a year of fuel for each 365 days the loop ends, below the length of the year it ends in;
-- up to the year 2100 no day is lost.
pub year_loop_total :
    (fuel y c : ℕ)
    → 1980 ≤ y
    → c < 365 * fuel
    → y + fuel < 2201
    → (z r : ℕ) × (year_loop fuel y c ≡ some (z, r))
      × (y ≤ z)
      × (r < year_length z)
      × (z < 2101 → c + days_before y ≡ days_before z + r)
      × (365 * z + r ≤ 365 * y + c)
year_loop_total zero y c lo h k = absurd (omega arith)
year_loop_total (suc fuel) y c lo h k = elim (dec_lt c (year_length y)) [
  | yes stop ↦
      (y, c, year_loop_stop fuel y c stop, omega arith, stop, λ _. omega arith, omega arith)
  | no more ↦
      let bounds = year_length_bounds y in
      let (z, r, run, at, short, same, size) =
        year_loop_total fuel (y + 1) (c - year_length y) (omega arith) (omega arith)
          (omega arith) in
      (
        z,
        r,
        year_loop_next fuel y c (omega arith) (omega arith) ∙ run,
        omega arith,
        short,
        λ early. omega (arith, same early, days_before-suc y lo (omega arith)),
        omega arith,
      )
]
