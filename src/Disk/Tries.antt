-- ===== src/Disk/Tries.antt =====
-- kernel/initdisk.c: the cluster sizes that `CalculateFATData` tries.
use fdkernel.Common.{
  ℕ, zero, suc, ◌+◌, ◌-◌, ◌*◌, ◌/◌, ◌%◌, ◌^◌, ◌≤◌, ◌<◌, ◌≡◌, ◌⊎◌, inl, inr, refl, Bool, true, false,
  not, ◌&&◌, ◌||◌, ltb, leb, ◌==◌, arith, Bool-cases, split_lem, ap, sym, ◌∙◌,
}
use fdkernel.Disk.Sizes.{
  Kind, fat_magic, maxclustsize, sizes_length, sizes_clust, sizes_maxclust, min, is_accepted,
  try_sizes,
}

-- None of the cluster sizes `n`, twice `n` and so on up to 128 sectors is accepted.
abbrev pub none_accepted : Kind → ℕ → ℕ → Bool
none_accepted k zero n = true
none_accepted k (suc fuel) n = (ltb 128 n || not (is_accepted k n)) && none_accepted k fuel (n * 2)

-- A cluster size that was tried and taken.
abbrev pub IsTaken : Kind → ℕ → ℕ → Type 0
IsTaken k nsector len =
    (1 ≤ nsector)
    × (nsector ≤ 128)
    × (len ≡ sizes_length k nsector)
    × (is_accepted k nsector ≡ true)

abbrev pub doubled : ℕ → ℕ → ℕ
doubled zero n = n
doubled (suc k) n = doubled k (n * 2)

none_above : (k : Kind) (fuel n : ℕ) → 128 < n → none_accepted k fuel n ≡ true
none_above k zero n large = refl
none_above k (suc fuel) n large =
    let test : ltb 128 n ≡ true = ground arith in rw test (none_above k fuel (n * 2) (omega arith))

-- What the loop leaves.
abbrev pub IsTried : Kind → ℕ → ℕ → ℕ × ℕ → Type 0
IsTried k fuel first (nsector, len) =
    (((nsector == 0 || ltb 128 nsector) ≡ true) × (none_accepted k fuel first ≡ true))
    ⊎ IsTaken k nsector len

later-IsTried :
    (k : Kind) (fuel first : ℕ) (r : ℕ × ℕ)
    → is_accepted k first ≡ false
    → IsTried k fuel (first * 2) r
    → IsTried k (suc fuel) first r
later-IsTried k fuel first (nsector, len) refused (inl (ends, others)) =
    inl (ends, ground (arith, refused, others))
later-IsTried k fuel first (nsector, len) refused (inr taken) = inr taken

size_taken :
    (k : Kind) (fuel ns : ℕ)
    → is_accepted k ns ≡ true
    → try_sizes k (suc fuel) ns ≡ (ns, sizes_length k ns)
unfolding try_sizes
size_taken k fuel ns taken = rw taken refl

-- The next size, in a byte.
abbrev doubled_byte : ℕ → ℕ
doubled_byte ns = ns * 2 % 2 ^ 8

size_ends :
    (k : Kind) (fuel ns : ℕ)
    → is_accepted k ns ≡ false
    → (doubled_byte ns == 0 || ltb maxclustsize (doubled_byte ns)) ≡ true
    → try_sizes k (suc fuel) ns ≡ (doubled_byte ns, sizes_length k ns)
unfolding try_sizes
size_ends k fuel ns refused ends = rw refused (rw ends refl)

size_later :
    (k : Kind) (fuel ns : ℕ)
    → ns ≤ 128
    → is_accepted k ns ≡ false
    → (doubled_byte ns == 0 || ltb maxclustsize (doubled_byte ns)) ≡ false
    → try_sizes k (suc fuel) ns ≡ try_sizes k fuel (ns * 2)
unfolding try_sizes
size_later k fuel ns few refused more =
    let same : doubled_byte ns ≡ ns * 2 = ground arith in
    rw refused (rw more (ap (try_sizes k fuel) same))

pub try_sizes_lem :
    (k : Kind) (fuel ns : ℕ)
    → 1 ≤ ns
    → ns ≤ 128
    → 128 < doubled fuel ns
    → IsTried k fuel ns (try_sizes k fuel ns)
try_sizes_lem k zero ns positive few enough = absurd (omega arith)
try_sizes_lem k (suc fuel) ns positive few enough = elim (Bool-cases (is_accepted k ns)) [
  | inl taken ↦ rw (size_taken k fuel ns taken) (inr (positive, few, refl, taken))
  | inr refused ↦ elim (Bool-cases (doubled_byte ns == 0 || ltb maxclustsize (doubled_byte ns))) [
    | inl ends ↦
        let above : 128 < ns * 2 = ground arith in
        let rest = none_above k fuel (ns * 2) above in
        rw (size_ends k fuel ns refused ends)
          (later-IsTried k fuel ns (doubled_byte ns, sizes_length k ns) refused (inl (ends, rest)))
    | inr more ↦ rw (size_later k fuel ns few refused more) (
        later-IsTried k fuel ns (try_sizes k fuel (ns * 2)) refused
          (try_sizes_lem k fuel (ns * 2) (omega arith) (ground arith) enough))
  ]
]

-- The length that is tried holds the FAT entries of what it leaves.
length_bounds :
    (total d : ℕ)
    → 0 < d
    → (total ≤ (total + d - 1) / d * d) × ((total + d - 1) / d * d ≤ total + d - 1)
length_bounds total d positive = (
  grind (arith, split_lem (total + d - 1) d positive),
  grind (arith, split_lem (total + d - 1) d positive),
)

-- With `len` sectors for one FAT, both FATs fit.
two_fats_fit :
    (fatdata per ns len : ℕ)
    → 2 ≤ fatdata
    → 4 ≤ per
    → 1 ≤ ns
    → 1 ≤ len
    → len * (per * ns + 2) ≤ fatdata + 2 * ns + (per * ns + 2) - 1
    → 2 * len ≤ fatdata
two_fats_fit fatdata per ns len some_data some_per positive some_len fits = grind arith

divisor_small : (per ns : ℕ) → per ≤ 256 → ns ≤ 128 → per * ns ≤ 32768
divisor_small per ns few small = grind arith

some_length : (total d len : ℕ) → 1 ≤ total → total ≤ len * d → 1 ≤ len
some_length total d len positive enough = grind arith

entries_short : (per ns len bound : ℕ) → 1 ≤ ns → len * (per * ns + 2) ≤ bound → len * per ≤ bound
entries_short per ns len bound positive below = grind arith

some_entries : (per len : ℕ) → 4 ≤ per → 1 ≤ len → 4 ≤ len * per
some_entries per len some_per some_len = grind arith

-- The conditions under which nothing wraps.
abbrev IsKind : Kind → Type 0
IsKind k =
    (4 ≤ k.fatentpersec)
    × (k.fatentpersec ≤ 256)
    × (4 ≤ k.maxcl)
    × (k.maxcl < 2 ^ 32)
    × (2 ≤ k.fatdata)
    × (k.fatdata + 2 ^ 17 ≤ 2 ^ 32)

length_is :
    (k : Kind) (ns : ℕ)
    → IsKind k
    → 1 ≤ ns
    → ns ≤ 128
    → sizes_length k ns
      ≡ (k.fatdata + 2 * ns + (k.fatentpersec * ns + 2) - 1) / (k.fatentpersec * ns + 2)
length_is k ns (per, few, some_max, short_max, some_data, short) positive small =
    let product = divisor_small k.fatentpersec ns few small in
    let d : ℕ = (k.fatentpersec * ns + 2) % 2 ^ 16 in
    let d_is : d ≡ k.fatentpersec * ns + 2 = omega arith in
    let top : (k.fatdata + (2 * ns + d - 1) % 2 ^ 16) % 2 ^ 32
        ≡ k.fatdata + 2 * ns + (k.fatentpersec * ns + 2) - 1 =
      omega arith in
    ap (λ x. x / d) top ∙ ap (λ x. (k.fatdata + 2 * ns + (k.fatentpersec * ns + 2) - 1) / x) d_is

accepted_lem :
    (clust maxclust : ℕ)
    → 4 ≤ maxclust
    → maxclust < 2 ^ 32
    → (leb clust ((maxclust + 2 ^ 32 - 2) % 2 ^ 32) && ltb fat_magic clust) ≡ true
    → (clust + 2 ≤ maxclust) × (fat_magic < clust)
accepted_lem clust maxclust some_clusters short taken = ground arith

max_lem :
    (maxcl entries : ℕ)
    → 4 ≤ maxcl
    → 4 ≤ entries
    → entries < 2 ^ 32
    → (min (entries % 2 ^ 32) maxcl ≤ entries)
      × (min (entries % 2 ^ 32) maxcl ≤ maxcl)
      × (4 ≤ min (entries % 2 ^ 32) maxcl)
max_lem maxcl entries some_max some_entry short = ground arith

-- A size that is taken has room for both FATs, an entry for each cluster, and no more of these than
-- the format has, nor as few as a FAT12.
pub taken_lem :
    (k : Kind) (ns len : ℕ)
    → IsKind k
    → IsTaken k ns len
    → (2 * len ≤ k.fatdata)
      × ((k.fatdata - 2 * len) / ns + 2 ≤ len * k.fatentpersec)
      × (fat_magic < (k.fatdata - 2 * len) / ns)
      × ((k.fatdata - 2 * len) / ns + 2 ≤ k.maxcl)
      × (len * k.fatentpersec ≤ k.fatdata + 2 ^ 16)
unfolding is_accepted
taken_lem k ns len kind (positive, small, is, taken) =
    let per : ℕ = k.fatentpersec in
    let total : ℕ = k.fatdata + 2 * ns in
    let here = is ∙ length_is k ns kind positive small in
    let (enough, fits) = length_bounds total (per * ns + 2) (omega arith) in
    let (some_per, few, some_max, short_max, some_data, short) = kind in
    let enough' : total ≤ len * (per * ns + 2) = rw here enough in
    let fits' : len * (per * ns + 2) ≤ total + (per * ns + 2) - 1 = rw here fits in
    let some_len = some_length total (per * ns + 2) len (omega arith) enough' in
    let room = two_fats_fit k.fatdata per ns len some_data some_per positive some_len fits' in
    let bound = entries_short per ns len (total + (per * ns + 2) - 1) positive fits' in
    let product = divisor_small per ns few small in
    let entries = some_entries per len some_per some_len in
    let clust : ℕ = sizes_clust k ns in
    let max : ℕ = sizes_maxclust k ns in
    let clust_is : clust ≡ (k.fatdata - 2 * len) / ns =
      ap (λ l. (k.fatdata + 2 ^ 32 - 2 * l % 2 ^ 32) % 2 ^ 32 / ns) (sym is)
      ∙ ap (λ x. x / ns) (omega arith) in
    let max_is : max ≡ min (len * per % 2 ^ 32) k.maxcl =
      ap (λ l. min (l * per % 2 ^ 32) k.maxcl) (sym is) in
    let (few_entries, few_max, some_clusters) =
      max_lem k.maxcl (len * per) some_max entries (omega arith) in
    let (below, above) = accepted_lem clust max (omega arith) (omega arith) taken in
    (room, omega arith, omega arith, omega arith, omega arith)
