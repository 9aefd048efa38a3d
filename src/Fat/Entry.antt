-- ===== src/Fat/Entry.antt =====
-- The packed entries of kernel/fattab.c: what `link_fat` writes it reads back.
use fdkernel.Common.{ℕ, ◌/◌, ◌%◌, ◌^◌, ◌<◌, ◌≡◌, ◌≢◌, ◌⊎◌, Bool, true, false, if◌then◌else◌, arith}
use fdkernel.Fat.State.{Drive, byte, put_byte, get_word, put_word, get_long, put_long}
use fdkernel.Fat.Link.{unpack, pack}

-- The nibble that the two bytes share with a neighbouring entry.
abbrev pub other_nibble : Bool → ℕ → ℕ
other_nibble is_odd word = if is_odd then word % 16 else word / 4096

pub unpack-pack :
    (is_odd : Bool) (word v : ℕ)
    → word < 2 ^ 16
    → (unpack is_odd (pack is_odd word v) ≡ v % 4096)
      × (other_nibble is_odd (pack is_odd word v) ≡ other_nibble is_odd word)
      × (pack is_odd word v < 2 ^ 16)
unfolding pack unpack
unpack-pack true word v h = (omega arith, omega arith, omega arith)
unpack-pack false word v h = (omega arith, omega arith, omega arith)

pub byte-put_byte : (n i v : ℕ) (s : Drive) → byte (put_byte n i v s) n i ≡ v % 2 ^ 8
byte-put_byte n i v s = ground arith

pub byte-put_byte_ne :
    (n i v m j : ℕ) (s : Drive) → (n ≢ m) ⊎ (i ≢ j) → byte (put_byte n i v s) m j ≡ byte s m j
byte-put_byte_ne n i v m j s h = ground arith

pub get_word-put_word : (n i v : ℕ) (s : Drive) → v < 2 ^ 16 → get_word (put_word n i v s) n i ≡ v
get_word-put_word n i v s h = ground arith

pub get_long-put_long : (n i v : ℕ) (s : Drive) → v < 2 ^ 32 → get_long (put_long n i v s) n i ≡ v
get_long-put_long n i v s h = ground arith
