-- ===== src/Clock/Driver/Ticks.antt =====
-- kernel/sysclk.c: the conversions between ticks and hundredths of a second, over one day.
use fdkernel.Common.{ℕ, ◌+◌, ◌*◌, ◌/◌, ◌≤◌, ◌<◌, ◌≡◌, arith}
use fdkernel.Clock.Driver.{hundredths_of_ticks, ticks_of_hundredths, byte_to_bcd, bcd_to_byte}

-- The 1573040 ticks of a day do not reach 24 hours, and no product of the conversion wraps:
-- the result is exactly the quotient of 5 * 65536 times the ticks by 59659.
pub hundredths_of_ticks_lem :
    (pc : ℕ)
    → pc < 1573040
    → (hundredths_of_ticks pc ≡ pc * 327680 / 59659) × (hundredths_of_ticks pc < 8640000)
unfolding hundredths_of_ticks
hundredths_of_ticks_lem pc h = (omega arith, omega arith)

-- Setting a time of the day and reading it back loses less than seven hundredths of a second
-- and gains nothing.
pub hundredths-ticks :
    (hs : ℕ)
    → hs < 8640000
    → (hundredths_of_ticks (ticks_of_hundredths hs) ≤ hs)
      × (hs < hundredths_of_ticks (ticks_of_hundredths hs) + 7)
unfolding hundredths_of_ticks ticks_of_hundredths
hundredths-ticks hs h = (omega arith, omega arith)

-- Two digits survive the way to BCD and back.
pub bcd_to_byte-byte_to_bcd : (x : ℕ) → x < 100 → bcd_to_byte (byte_to_bcd x) ≡ x
unfolding bcd_to_byte byte_to_bcd
bcd_to_byte-byte_to_bcd x h = omega arith
