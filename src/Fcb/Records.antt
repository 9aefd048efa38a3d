-- ===== src/Fcb/Records.antt =====
-- kernel/fcbfns.c: the place of a record, and reading and writing of records.
use fdkernel.Common.{
  ℕ, ◌+◌, ◌-◌, ◌*◌, ◌/◌, ◌%◌, ◌^◌, Bool, false, ◌&&◌, ℤ, pos, negsuc, ltb, leb, ◌==◌, if◌then◌else◌,
  Option, none, some, to_word,
}
use fdkernel.Fcb.Parse.{Fcb}

unfoldable pub fcb_next_record : Fcb → Fcb
fcb_next_record f =
    let next = (f.fcb_curec + 1) % 2 ^ 8 in
    if leb 128 next
    then record f { fcb_curec = 0; fcb_cublock = (f.fcb_cublock + 1) % 2 ^ 16 }
    else record f { fcb_curec = next }

unfoldable pub fcb_rec : Fcb → ℕ
fcb_rec f = f.fcb_cublock * 128 + f.fcb_curec

unfoldable pub fcb_set_random : Fcb → Fcb
fcb_set_random f = record f { fcb_rndm = fcb_rec f }

unfoldable pub fcb_calc_rec : Fcb → Fcb
fcb_calc_rec f = record f {
  fcb_cublock = f.fcb_rndm / 128 % 2 ^ 16;
  fcb_curec = f.fcb_rndm % 2 ^ 8 % 128;
}

-- `mode`: XFR_READ, or XFR_WRITE, and XFR_FCB_RANDOM for a block of records.
pub record Mode : Type 0 where
  pub is_read : Bool
  pub fcb_random : Bool

-- The offset of the DTA, and what `SftSeek` to a position, `DosRWSft` of a number of bytes there and
-- `SftGetFsize` return.
pub record Answers : Type 0 where
  pub dta : ℕ
  pub seek_result : ℕ → ℤ
  pub transferred : ℕ → ℕ → ℤ
  pub new_size : ℕ

abbrev pub fcb_success : ℕ
fcb_success = 0

abbrev pub fcb_err_nodata : ℕ
fcb_err_nodata = 1

abbrev pub fcb_err_segment_wrap : ℕ
fcb_err_segment_wrap = 2

abbrev pub fcb_err_eof : ℕ
fcb_err_eof = 3

-- The result: the code, the FCB, and the stretch of the DTA that is zeroed, as offset and length.
pub record TransferEnd : Type 0 where
  pub code : ℕ
  pub fcb : Fcb
  pub zeroed : Option (ℕ × ℕ)

abbrev pub seek_ok : ℤ → Bool
seek_ok (pos n) = n == 0
seek_ok (negsuc n) = false

abbrev pub count_records : ℕ → ℕ → ℕ
count_records t recsiz = (t + recsiz + 65535) % 2 ^ 16 / recsiz

-- What is updated once the transfer has returned; `t` is `(unsigned)nTransfer`.
unfoldable pub update_fcb : Mode → ℕ → ℕ → Fcb → Fcb
update_fcb mode new_size t f = record f {
  fcb_fsize = if mode.is_read then f.fcb_fsize else new_size;
  fcb_rndm =
      if mode.fcb_random && ltb 0 f.fcb_recsiz
      then (f.fcb_rndm + count_records t f.fcb_recsiz) % 2 ^ 32
      else f.fcb_rndm;
}

abbrev pub finish_part : Mode → ℕ → ℕ → ℕ → Fcb → TransferEnd
finish_part mode dta t part f =
    if mode.is_read && ltb 0 part
    then record {
      code = fcb_err_eof;
      fcb = fcb_next_record f;
      zeroed = some ((dta + t) % 2 ^ 16, part);
    }
    else record { code = fcb_err_nodata; fcb = f; zeroed = none }

-- None is a division by a record size of zero.
unfoldable pub after_transfer : Mode → Answers → ℕ → ℕ → Fcb → Option TransferEnd
after_transfer mode a size t f =
    let f' = update_fcb mode a.new_size t f in
    let left = (size + 65536 - t) % 2 ^ 16 in
    if left == 0
    then some (record { code = fcb_success; fcb = fcb_next_record f'; zeroed = none })
    else (if f.fcb_recsiz == 0
        then none
        else some (finish_part mode a.dta t (left % f.fcb_recsiz) f'))

abbrev pub refuse : ℕ → Fcb → Option TransferEnd
refuse c f = some (record { code = c; fcb = f; zeroed = none })

unfoldable pub fcb_read_write : Mode → Answers → ℕ → Fcb → Option TransferEnd
fcb_read_write mode a recno f =
    let size = f.fcb_recsiz * recno in
    let place = fcb_rec f * f.fcb_recsiz % 2 ^ 32 in
    if ltb 65535 size
    then refuse fcb_err_segment_wrap f
    else (if ltb ((a.dta + size) % 2 ^ 16) a.dta
        then refuse fcb_err_segment_wrap f
        else (if seek_ok (a.seek_result place)
            then after_transfer mode a size (to_word (a.transferred place size)) f
            else refuse fcb_err_nodata f))

abbrev pub block_done : ℕ → Option TransferEnd → Option (ℕ × TransferEnd)
block_done old none = none
block_done old (some d) =
    some ((d.fcb.fcb_rndm + 2 ^ 32 - old) % 2 ^ 16, record d { fcb = fcb_calc_rec d.fcb })

-- The number of records transferred, and the result.
unfoldable pub fcb_random_block_io : Mode → Answers → ℕ → Fcb → Option (ℕ × TransferEnd)
fcb_random_block_io mode a n_records f =
    let f' = fcb_calc_rec f in block_done f'.fcb_rndm (fcb_read_write mode a n_records f')

abbrev pub restore : Fcb → Option TransferEnd → Option TransferEnd
restore f none = none
restore f (some d) =
    some
      (record d { fcb = record (d.fcb) { fcb_cublock = f.fcb_cublock; fcb_curec = f.fcb_curec } })

unfoldable pub fcb_random_io : Mode → Answers → Fcb → Option TransferEnd
fcb_random_io mode a f = let f' = fcb_calc_rec f in restore f' (fcb_read_write mode a 1 f')
