-- ===== src/Fat/State.antt =====
-- The drive parameter block (hdr/dcb.h), the block buffers (hdr/buffer.h) and the sectors
-- behind them, and what kernel/fattab.c does to a buffer. Built with WITHFAT32.
use fdkernel.Common.{
  ℕ, ◌+◌, ◌*◌, ◌/◌, ◌%◌, ◌^◌, Bool, true, false, ◌&&◌, Option, none, some, ltb, leb, ◌==◌,
  if◌then◌else◌,
}

-- `nfreeclst`, the 16-bit count, is the low half of `xnfreeclst`: the two share a union.
pub record Dpb : Type 0 where
  pub secsize : ℕ
  pub fatstrt : ℕ
  pub fats : ℕ
  pub size : ℕ
  pub fatsize : ℕ
  pub xnfreeclst : ℕ
  pub xflags : ℕ
  pub xfsinfosec : ℕ
  pub xsize : ℕ
  pub xfatsize : ℕ
  pub xcluster : ℕ

pub record Flags : Type 0 where
  pub dirty : Bool
  pub valid : Bool
  pub data_area : Bool
  pub dir_area : Bool
  pub fat_area : Bool
  pub uncache : Bool

pub record Buffer : Type 0 where
  pub b_flag : Flags
  pub b_copies : ℕ
  pub b_offset : ℕ
  pub b_buffer : ℕ → ℕ

-- A drive seen through the block cache: `getblock` yields the buffer of a block, or NULL where
-- the block is not `readable`.
pub record Drive : Type 0 where
  pub dpb : Dpb
  pub readable : ℕ → Bool
  pub block : ℕ → Buffer

-- hdr/fat.h.
abbrev pub is_fat32 : Dpb → Bool
is_fat32 d = d.fatsize == 0

abbrev pub is_fat16 : Dpb → Bool
is_fat16 d = ltb 4085 d.size && leb d.size 65525

abbrev pub is_fat12 : Dpb → Bool
is_fat12 d = ltb ((d.size + 65535) % 2 ^ 16) 4085

abbrev pub long_last_cluster : ℕ
long_last_cluster = 268435455

abbrev pub long_bad : ℕ
long_bad = 268435447

abbrev pub free : ℕ
free = 0

abbrev pub read_cluster : ℕ
read_cluster = 1

abbrev pub put_buffer : ℕ → Buffer → Drive → Drive
put_buffer n b s = record s { block = λ m. if m == n then b else s.block m }

abbrev pub byte : Drive → ℕ → ℕ → ℕ
byte s n i = (s.block n).b_buffer i % 2 ^ 8

abbrev pub put_byte : ℕ → ℕ → ℕ → Drive → Drive
put_byte n i v s =
    put_buffer n
      (record (s.block n) { b_buffer = λ j. if j == i then v % 2 ^ 8 else (s.block n).b_buffer j })
      s

-- `fgetword`, `fputword`, `fgetlong` and `fputlong` at an offset of a buffer.
abbrev pub get_word : Drive → ℕ → ℕ → ℕ
get_word s n i = byte s n i + byte s n (i + 1) * 2 ^ 8

abbrev pub put_word : ℕ → ℕ → ℕ → Drive → Drive
put_word n i v s = put_byte n (i + 1) (v / 2 ^ 8) (put_byte n i v s)

abbrev pub get_long : Drive → ℕ → ℕ → ℕ
get_long s n i = get_word s n i + get_word s n (i + 2) * 2 ^ 16

abbrev pub put_long : ℕ → ℕ → ℕ → Drive → Drive
put_long n i v s = put_word n (i + 2) (v / 2 ^ 16) (put_word n i v s)

-- `b_flag |= BFR_DIRTY | BFR_VALID`.
abbrev pub mark_dirty : ℕ → Drive → Drive
mark_dirty n s =
    let b = s.block n in
    put_buffer n (record b { b_flag = record (b.b_flag) { dirty = true; valid = true } }) s

abbrev pub no_mirroring : Dpb → Bool
no_mirroring d = d.xflags / 128 % 2 == 1

abbrev pub copies : Dpb → ℕ
copies d = if is_fat32 d && no_mirroring d then 1 else d.fats

abbrev pub as_fat_block : Dpb → Buffer → Buffer
as_fat_block d b = record b {
  b_flag = record (b.b_flag) { data_area = false; dir_area = false; fat_area = true; valid = true };
  b_copies = copies d;
  b_offset = d.fatsize;
}

unfoldable pub get_fat_block : ℕ → Drive → Option Drive
get_fat_block n s =
    if s.readable n then some (put_buffer n (as_fat_block s.dpb (s.block n)) s) else none
