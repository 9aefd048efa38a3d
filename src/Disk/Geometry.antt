-- ===== src/Disk/Geometry.antt =====
-- kernel/dsk.c: `LBA_to_CHS` and `DMA_max_transfer`.
use fdkernel.Common.{
  ℕ, ◌+◌, ◌-◌, ◌*◌, ◌/◌, ◌%◌, ◌^◌, ◌≤◌, ◌<◌, ◌≡◌, ◌⊎◌, inl, inr, refl, ltb, ◌==◌, if◌then◌else◌,
  Option, none, some, arith, Bool-cases, split_lem, div_lt, ap, sym, ◌∙◌,
}

-- The sectors of a track and the heads, from the parameters of the BIOS for a hard disk and from
-- the boot sector for a floppy.
pub record Bpb : Type 0 where
  pub bpb_nsecs : ℕ
  pub bpb_nheads : ℕ

pub record Chs : Type 0 where
  pub cylinder : ℕ
  pub head : ℕ
  pub sector : ℕ

-- `hs`, which is unsigned.
abbrev pub track_sectors : Bpb → ℕ
track_sectors b = b.bpb_nsecs * b.bpb_nheads % 2 ^ 16

abbrev pub chs_of : Bpb → ℕ → ℕ → Chs
chs_of b hs lba_address =
    let hsrem = lba_address % hs in
    record {
      cylinder = lba_address / hs;
      head = hsrem / b.bpb_nsecs;
      sector = hsrem % b.bpb_nsecs + 1;
    }

-- None is the return value 1, after a message.
unfoldable pub lba_to_chs : Bpb → ℕ → Option Chs
lba_to_chs b lba_address =
    let hs = track_sectors b in
    if ltb 1023 (lba_address / hs) then none else some (chs_of b hs lba_address)

-- `sectors_to_dma_boundary`.
abbrev pub dma_boundary : ℕ → ℕ → ℕ
dma_boundary maxsecsize dma_off =
    if dma_off == 0 then 65535 / maxsecsize else (65536 - dma_off) / maxsecsize

-- The number of sectors that can be moved to or from a segment and offset.
unfoldable pub dma_max_transfer : ℕ → ℕ → ℕ → ℕ → ℕ
dma_max_transfer maxsecsize seg ofs count =
    let boundary = dma_boundary maxsecsize ((seg * 16 + ofs) % 2 ^ 16) in
    if ltb count boundary then count else boundary

-- The address of a sector.
abbrev pub lba_of : Bpb → Chs → ℕ
lba_of b c = (c.cylinder * b.bpb_nheads + c.head) * b.bpb_nsecs + c.sector - 1

-- A place on the disk that the calls of the BIOS can name.
abbrev pub IsPlace : Bpb → Chs → Type 0
IsPlace b c =
    (c.cylinder ≤ 1023) × (c.head < b.bpb_nheads) × (1 ≤ c.sector) × (c.sector ≤ b.bpb_nsecs)

far_lem : (lba hs : ℕ) → 0 < hs → 1023 < lba / hs → 1024 * hs ≤ lba
far_lem lba hs positive far = grind (arith, split_lem lba hs positive)

head_lt : (rest secs heads : ℕ) → 0 < secs → rest < secs * heads → rest / secs < heads
head_lt rest secs heads positive short = div_lt rest secs heads positive short

regroup_sectors :
    (c heads h secs s : ℕ)
    → (c * heads + h) * secs + (s + 1) - 1 ≡ c * (secs * heads) + (h * secs + s)
regroup_sectors c heads h secs s = grind arith

chs_back :
    (b : Bpb) (lba hs : ℕ)
    → 0 < b.bpb_nsecs
    → 0 < hs
    → hs ≡ b.bpb_nsecs * b.bpb_nheads
    → lba / hs ≤ 1023
    → IsPlace b (chs_of b hs lba) × (lba_of b (chs_of b hs lba) ≡ lba)
chs_back b lba hs secs positive is near =
    let (lba_is, short) = split_lem lba hs positive in
    let (rest_is, under) = split_lem (lba % hs) b.bpb_nsecs secs in
    (
      (
        near,
        head_lt (lba % hs) b.bpb_nsecs b.bpb_nheads secs (omega arith),
        omega arith,
        omega arith,
      ),
      regroup_sectors (lba / hs) b.bpb_nheads (lba % hs / b.bpb_nsecs) b.bpb_nsecs
            (lba % hs % b.bpb_nsecs)
          ∙ ap (λ n. lba / hs * n + (lba % hs / b.bpb_nsecs * b.bpb_nsecs + lba % hs % b.bpb_nsecs))
              (sym is)
          ∙ omega arith,
    )

-- `LBA_to_CHS` finds the place of the sector, which the formula takes back to the address; it
-- fails exactly if the sector lies behind the last cylinder, 1023.
pub lba_to_chs_lem :
    (b : Bpb) (lba : ℕ)
    → 0 < b.bpb_nsecs
    → 0 < b.bpb_nheads
    → b.bpb_nsecs * b.bpb_nheads < 2 ^ 16
    → ((lba_to_chs b lba ≡ none) × (1024 * (b.bpb_nsecs * b.bpb_nheads) ≤ lba))
      ⊎ ((c : Chs) × (lba_to_chs b lba ≡ some c) × IsPlace b c × (lba_of b c ≡ lba))
unfolding lba_to_chs
lba_to_chs_lem b lba secs heads few =
    let hs : ℕ = track_sectors b in
    let hs_is : hs ≡ b.bpb_nsecs * b.bpb_nheads = omega arith in
    let some_heads : 0 < b.bpb_nsecs * b.bpb_nheads = grind arith in
    let positive : 0 < hs = omega arith in
    elim (Bool-cases (ltb 1023 (lba / hs))) [
      | inl far ↦ inl (rw far refl, omega (arith, far_lem lba hs positive (ground arith)))
      | inr near ↦ inr (
        chs_of b hs lba,
        rw near refl,
        (chs_back b lba hs secs positive hs_is (ground arith)).0,
        (chs_back b lba hs secs positive hs_is (ground arith)).1,
      )
    ]

pub product_le : (a b m n : ℕ) → a ≤ b → b * m ≤ n → a * m ≤ n
product_le a b m n le below = grind arith

quotient_le : (x m : ℕ) → 0 < m → x / m * m ≤ x
quotient_le x m positive = grind arith

boundary_fits : (m off : ℕ) → 0 < m → off < 2 ^ 16 → off + dma_boundary m off * m ≤ 2 ^ 16
boundary_fits m off positive short = elim (Bool-cases (off == 0)) [
  | inl start ↦
      let at : off ≡ 0 = ground arith in rw start (omega (arith, quotient_le 65535 m positive))
  | inr inside ↦ rw inside (omega (arith, quotient_le (65536 - off) m positive))
]

-- What is moved at once does not cross a boundary of 64 KB, and is no more than what is left.
pub dma_max_transfer_lem :
    (maxsecsize seg ofs count : ℕ)
    → 0 < maxsecsize
    → (seg * 16 + ofs) % 2 ^ 16 + dma_max_transfer maxsecsize seg ofs count * maxsecsize ≤ 2 ^ 16
      × dma_max_transfer maxsecsize seg ofs count ≤ count
unfolding dma_max_transfer
dma_max_transfer_lem maxsecsize seg ofs count positive =
    let off : ℕ = (seg * 16 + ofs) % 2 ^ 16 in
    let fits = boundary_fits maxsecsize off positive (omega arith) in
    let boundary : ℕ = dma_boundary maxsecsize off in
    elim (Bool-cases (ltb count boundary)) [
      | inl few ↦
          let le : count ≤ boundary = ground arith in
          rw few (
            omega (arith, product_le count boundary maxsecsize (2 ^ 16 - off) le (omega arith)),
            omega arith,
          )
      | inr many ↦ let le : boundary ≤ count = ground arith in rw many (fits, le)
    ]
