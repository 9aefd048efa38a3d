-- ===== src/Share/Handler.antt =====
-- share/share.c: `handler2f`, the interrupt 2Fh handler, as a function on the registers.
use fdkernel.Common.{
  ℕ, ◌+◌, ◌*◌, ◌/◌, ◌%◌, ◌^◌, List, ◌==◌, if◌then◌else◌, Option, some, none, ℤ, to_word,
}
use fdkernel.Share.State.{Share}
use fdkernel.Share.Open.{open_check, close_file}
use fdkernel.Share.Locks.{access_check, lock_unlock}

-- The registers that the handler reads, as 16-bit words.
pub record Regs : Type 0 where
  pub ax : ℕ
  pub bx : ℕ
  pub cx : ℕ
  pub dx : ℕ
  pub si : ℕ
  pub di : ℕ
  pub ds : ℕ
  pub es : ℕ

abbrev pub multiplex_id : ℕ
multiplex_id = 0x10

abbrev pub al : Regs → ℕ
al r = r.ax % 256

abbrev pub dword : ℕ → ℕ → ℕ
dword high low = (high * 2 ^ 16 + low) % 2 ^ 32

-- A subfunction's result in AX.
abbrev pub returning : Regs → ℤ × Share → Option (Regs × Share)
returning r (code, s) = some (record r { ax = to_word code }, s)

-- `none` chains to the handler that was installed before. `string_at seg ofs` is the text that the
-- caller's memory holds at a far pointer.
module _ (string_at : ℕ → ℕ → List ℕ) where
  unfoldable pub handler2f : Regs → Share → Option (Regs × Share)
  handler2f r s =
      if (r.ax / 256) % 256 == multiplex_id
      then (if al r == 0
          then some (record r { ax = r.ax / 256 * 256 + 0xff }, s)
          else if al r == 0xa0
          then returning r (open_check (string_at r.ds r.si) r.bx r.cx r.dx s)
          else if al r == 0xa1
          then some (r, close_file r.bx s)
          else if al r / 2 * 2 == 0xa2
          then returning r
              (access_check r.bx r.cx (dword r.si r.di) (dword r.es r.dx) (r.ax % 2 == 1) s)
          else if al r / 2 * 2 == 0xa4
          then returning r
              (lock_unlock r.bx r.cx (dword r.si r.di) (dword r.es r.dx) (r.ax % 2 == 1) s)
          else none)
      else none
