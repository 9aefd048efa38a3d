-- ===== src/Fat/Places.antt =====
-- Where `link_fat` of kernel/fattab.c finds the two bytes of a FAT12 entry: sector and offset
-- against the position in the array of bytes.
use fdkernel.Common.{
  ℕ, ◌+◌, ◌-◌, ◌*◌, ◌/◌, ◌%◌, ◌^◌, ◌≤◌, ◌<◌, ◌≡◌, ◌≢◌, ◌⊎◌, inl, inr, true, false, arith, ap, ap₂,
  ◌∙◌, sym, ℕ_discrete, split_lem, unique_lem, div_le,
}
use fdkernel.Fat.State.{Dpb, is_fat32, is_fat12}
use fdkernel.Fat.Link.{entry_index, entry_sector, secdiv, scaled}
use fdkernel.Fat.Packed.{position}

-- The parameters of a drive with a FAT12, as hdr/fat.h tells them apart.
pub record IsFat12 (d : Dpb) : Type 0 where
  pub sector : 0 < d.secsize
  pub sector_short : d.secsize < 2 ^ 15
  pub clusters : 0 < d.size
  pub clusters_few : d.size ≤ 4085
  pub sectors : d.fatsize ≢ 0
  pub start : d.fatstrt < 2 ^ 15

pub fat12_kind : (d : Dpb) → IsFat12 d → (is_fat12 d ≡ true) × (is_fat32 d ≡ false)
fat12_kind d h =
    let positive = h.clusters in
    let few = h.clusters_few in let sectors = h.sectors in (ground arith, ground arith)

-- The sector and the nibble that the code computes are those of the position in the array.
pub locate_numbers :
    (c m : ℕ) → 0 < m → (c * 3 / (m * 2) ≡ position c / m) × (c * 3 % (m * 2) / 2 ≡ position c % m)
locate_numbers c m h =
    let (whole, short) = split_lem (c * 3) (m * 2) (omega arith) in
    let doubled : c * 3 / (m * 2) * (m * 2) ≡ c * 3 / (m * 2) * m * 2 = grind arith in
    let (quotient, remainder) =
      unique_lem (position c) (c * 3 / (m * 2)) (c * 3 % (m * 2) / 2) m (omega arith)
        (omega (arith, whole, doubled)) in
    (sym quotient, sym remainder)

pub sector_number :
    (d : Dpb) (c : ℕ) → IsFat12 d → c ≤ d.size → (scaled d c ≡ c * 3) × (secdiv d ≡ d.secsize * 2)
sector_number d c h below =
    let few = h.clusters_few in
    let short = h.sector_short in
    let kind = (fat12_kind d h).0 in (rw kind (omega arith), rw kind (omega arith))

pub locate :
    (d : Dpb) (c : ℕ)
    → IsFat12 d
    → c ≤ d.size
    → (entry_sector d c ≡ d.fatstrt + position c / d.secsize)
      × (entry_index d c / 2 ≡ position c % d.secsize)
unfolding entry_sector entry_index
locate d c h below =
    let (scale, divisor) = sector_number d c h below in
    let (quotient, remainder) = locate_numbers c d.secsize h.sector in
    let kind = (fat12_kind d h).1 in
    let bound = div_le (position c) d.secsize h.sector in
    let few = h.clusters_few in
    let start = h.start in
    let short = h.sector_short in
    let under = (split_lem (c * 3) (d.secsize * 2) (omega (arith, h.sector))).1 in
    let nibble : c * 3 % (d.secsize * 2) % 2 ^ 16 / 2 ≡ position c % d.secsize =
      ap (λ x. x / 2) (omega arith) ∙ remainder in
    (rw (scale, divisor, kind, quotient) (omega arith), rw (scale, divisor) nibble)

pub next_position :
    (p m : ℕ)
    → 0 < m
    → ((p % m ≡ m - 1) × ((p + 1) / m ≡ p / m + 1) × ((p + 1) % m ≡ 0))
      ⊎ ((p % m < m - 1) × ((p + 1) / m ≡ p / m) × ((p + 1) % m ≡ p % m + 1))
next_position p m h = grind arith

pub add_left : (a b c : ℕ) → a + b ≡ a + c → b ≡ c
add_left a b c e = omega arith

pub apart_places :
    (p q start m : ℕ) → 0 < m → p ≢ q → (start + p / m ≢ start + q / m) ⊎ (p % m ≢ q % m)
apart_places p q start m h other =
    let (whole, short) = split_lem p m h in
    let (whole', short') = split_lem q m h in
    elim (ℕ_discrete (p % m) (q % m)) [
      | no differs ↦ inr differs
      | yes same ↦ inl (λ e.
          other
            (whole ∙ ap₂ (λ x y. x * m + y) (add_left start (p / m) (q / m) e) same ∙ sym whole'))
    ]
