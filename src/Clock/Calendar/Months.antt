-- ===== src/Clock/Calendar/Months.antt =====
-- kernel/systime.c: months, checked over all days of the two kinds of years.
use fdkernel.Common.{
  ℕ, ◌-◌, ◌%◌, ◌≤◌, ◌<◌, ◌≡◌, refl, Bool, true, false, not, ◌&&◌, ◌||◌, List, arith, ltb, leb, ◌==◌,
  if◌then◌else◌, Option, some, none, holds_below, holds_below_at, Bool-cases, inl, inr,
}
use fdkernel.Clock.Calendar.{
  common_days, leap_days, entry, is_leap_year_monthdays, month_loop, month_fuel,
}

abbrev table : Bool → List ℕ
table leap = if leap then leap_days else common_days

-- The day `day` (from 0) lies in the month, by the table.
abbrev pub in_month : List ℕ → ℕ → ℕ → Bool
in_month days month c =
    leb 1 month && leb month 12 && leb (entry days (month - 1)) c && ltb c (entry days month)

-- The loop finds `month` for the day `c`.
abbrev finds : List ℕ → ℕ → ℕ → Bool
finds days c month = elim (month_loop month_fuel days 1 c) [ none ↦ false | some n ↦ n == month ]

abbrev implies : Bool → Bool → Bool
implies p q = not p || q

abbrev month_ok : List ℕ → ℕ → ℕ → Bool
month_ok days c month = implies (in_month days month c) (finds days c month)

abbrev day_ok : List ℕ → ℕ → Bool
day_ok days c = holds_below (month_ok days c) 13

common_ok : holds_below (day_ok common_days) 365 ≡ true
unfolding holds_below month_loop common_days
common_ok = refl

leap_ok : holds_below (day_ok leap_days) 366 ≡ true
unfolding holds_below month_loop leap_days
leap_ok = refl

-- The loop finds some month, for each day of the year.
abbrev found_ok : List ℕ → ℕ → Bool
found_ok days c = elim (month_loop month_fuel days 1 c) [
  | none ↦ false
  | some n ↦ in_month days n c
]

common_found : holds_below (found_ok common_days) 365 ≡ true
unfolding holds_below month_loop common_days
common_found = refl

leap_found : holds_below (found_ok leap_days) 366 ≡ true
unfolding holds_below month_loop leap_days
leap_found = refl

-- No month ends after the year.
abbrev short_ok : List ℕ → ℕ → Bool
short_ok days month = leb (entry days month) (entry days 12)

common_short : holds_below (short_ok common_days) 13 ≡ true
unfolding holds_below common_days
common_short = refl

leap_short : holds_below (short_ok leap_days) 13 ≡ true
unfolding holds_below leap_days
leap_short = refl

-- A table of the code, with what was checked of it.
abbrev pub Checked : List ℕ → Type 0
Checked days =
    ((c month : ℕ)
      → c < entry days 12
      → month < 13
      → in_month days month c ≡ true
      → month_loop month_fuel days 1 c ≡ some month)
    × ((c : ℕ)
        → c < entry days 12
        → (month : ℕ) × (month_loop month_fuel days 1 c ≡ some month)
          × (in_month days month c ≡ true))
    × ((month : ℕ) → month < 13 → entry days month ≤ entry days 12)

found_in :
    (days : List ℕ) (c : ℕ) (o : Option ℕ)
    → elim o [ none ↦ false | some n ↦ in_month days n c ] ≡ true
    → (month : ℕ) × (o ≡ some month) × (in_month days month c ≡ true)
found_in days c none h = absurd (cc)
found_in days c (some n) h = (n, refl, h)

Checked-of_tables :
    (days : List ℕ) (n : ℕ)
    → entry days 12 ≡ n
    → holds_below (day_ok days) n ≡ true
    → holds_below (found_ok days) n ≡ true
    → holds_below (short_ok days) 13 ≡ true
    → Checked days
Checked-of_tables days n e ok found short = (
  λ c month hc hm inside.
      let day = holds_below_at (day_ok days) n ok c (rw (← e) hc) in
      let at = holds_below_at (month_ok days c) 13 day month hm in finds_eq c month (ground arith),
  λ c hc. found_eq c (holds_below_at (found_ok days) n found c (rw (← e) hc)),
  λ month hm. let s = holds_below_at (short_ok days) 13 short month hm in ground arith,
)
  where
    finds_eq :
        (c month : ℕ) → finds days c month ≡ true → month_loop month_fuel days 1 c ≡ some month
    finds_eq c month h = ground arith

    found_eq :
        (c : ℕ)
        → found_ok days c ≡ true
        → (month : ℕ) × (month_loop month_fuel days 1 c ≡ some month)
          × (in_month days month c ≡ true)
    found_eq c h = found_in days c (month_loop month_fuel days 1 c) h

common-Checked : Checked common_days
unfolding common_days
common-Checked = Checked-of_tables common_days 365 refl common_ok common_found common_short

leap-Checked : Checked leap_days
unfolding leap_days
leap-Checked = Checked-of_tables leap_days 366 refl leap_ok leap_found leap_short

pub year-Checked : (y : ℕ) → Checked (is_leap_year_monthdays y)
unfolding is_leap_year_monthdays
year-Checked y = elim (Bool-cases (not (y % 4 == 0) || (y == 2100))) [
  | inl common ↦ rw common common-Checked
  | inr leap ↦ rw leap leap-Checked
]
