-- ===== src/Fat/Packed.antt =====
-- The layout that kernel/fattab.c describes above `link_fat`: a FAT12 as one array of bytes in
-- which two entries of 12 bits share three bytes.
use fdkernel.Common.{
  ℕ, ◌+◌, ◌*◌, ◌/◌, ◌%◌, ◌^◌, ◌<◌, ◌≡◌, ◌≢◌, ◌⊎◌, inl, inr, Bool, true, false, ◌==◌, if◌then◌else◌,
  arith, ap, ◌∙◌, sym,
}
use fdkernel.Fat.Link.{unpack, pack, odd}
use fdkernel.Fat.Entry.{unpack-pack}

abbrev pub word_at : (ℕ → ℕ) → ℕ → ℕ
word_at fat p = fat p + fat (p + 1) * 2 ^ 8

abbrev pub position : ℕ → ℕ
position cluster = cluster * 3 / 2

unfoldable pub entry_at : (ℕ → ℕ) → ℕ → ℕ
entry_at fat cluster = unpack (odd cluster) (word_at fat (position cluster))

unfoldable pub store_at : (ℕ → ℕ) → ℕ → ℕ → ℕ → ℕ
store_at fat cluster v p =
    let packed = pack (odd cluster) (word_at fat (position cluster)) v in
    if p == position cluster
    then packed % 2 ^ 8
    else (if p == position cluster + 1 then packed / 2 ^ 8 % 2 ^ 8 else fat p)

pub store_at-first :
    (fat : ℕ → ℕ) (c v : ℕ)
    → store_at fat c v (position c) ≡ pack (odd c) (word_at fat (position c)) v % 2 ^ 8
unfolding store_at
store_at-first fat c v = ground arith

pub store_at-second :
    (fat : ℕ → ℕ) (c v : ℕ)
    → store_at fat c v (position c + 1) ≡ pack (odd c) (word_at fat (position c)) v / 2 ^ 8 % 2 ^ 8
unfolding store_at
store_at-second fat c v = ground arith

pub store_at-else :
    (fat : ℕ → ℕ) (c v p : ℕ) → p ≢ position c → p ≢ position c + 1 → store_at fat c v p ≡ fat p
unfolding store_at
store_at-else fat c v p h k = ground arith

pub pack_lt : (o : Bool) (word v : ℕ) → word < 2 ^ 16 → pack o word v < 2 ^ 16
unfolding pack
pack_lt true word v h = omega arith
pack_lt false word v h = omega arith

entry_at-store_at_self :
    (fat : ℕ → ℕ) (c v : ℕ) → ((p : ℕ) → fat p < 2 ^ 8) → entry_at (store_at fat c v) c ≡ v % 4096
unfolding entry_at
entry_at-store_at_self fat c v bytes =
    let word = word_at fat (position c) in
    let short : word < 2 ^ 16 = omega (arith, bytes (position c), bytes (position c + 1)) in
    let packed = pack (odd c) word v in
    let joined : word_at (store_at fat c v) (position c) ≡ packed =
      omega
        (arith, store_at-first fat c v, store_at-second fat c v, pack_lt (odd c) word v short) in
    ap (unpack (odd c)) joined ∙ (unpack-pack (odd c) word v short).0

even_number :
    (a b d v : ℕ)
    → a < 2 ^ 8
    → unpack true (pack false (a + b * 2 ^ 8) v / 2 ^ 8 % 2 ^ 8 + d * 2 ^ 8)
      ≡ unpack true (b % 2 ^ 8 + d * 2 ^ 8)
unfolding pack unpack
even_number a b d v h = omega arith

odd_number :
    (a b d v : ℕ)
    → b < 2 ^ 8
    → unpack false (a + pack true (b + d * 2 ^ 8) v % 2 ^ 8 * 2 ^ 8) ≡ unpack false (a + b * 2 ^ 8)
unfolding pack unpack
odd_number a b d v h = omega arith

-- The byte that the entries 2k and 2k + 1 share.
even_kept :
    (fat : ℕ → ℕ) (c v : ℕ)
    → ((p : ℕ) → fat p < 2 ^ 8)
    → c % 2 ≡ 0
    → entry_at (store_at fat c v) (c + 1) ≡ entry_at fat (c + 1)
unfolding entry_at
even_kept fat c v bytes even =
    let second = store_at-second fat c v in
    let third = store_at-else fat c v (position c + 1 + 1) (omega arith) (omega arith) in
    let e : position (c + 1) ≡ position c + 1 = omega arith in
    let o : odd c ≡ false = ground arith in
    let o' : odd (c + 1) ≡ true = ground arith in
    let small : fat (position c + 1) % 2 ^ 8 ≡ fat (position c + 1) =
      omega (arith, bytes (position c + 1)) in
    let number =
      even_number (fat (position c)) (fat (position c + 1)) (fat (position c + 1 + 1)) v
        (bytes (position c)) in
    rw (o', e, second, third, o, number, small)

odd_kept :
    (fat : ℕ → ℕ) (c v : ℕ)
    → ((p : ℕ) → fat p < 2 ^ 8)
    → c % 2 ≡ 0
    → entry_at (store_at fat (c + 1) v) c ≡ entry_at fat c
unfolding entry_at
odd_kept fat c v bytes even =
    let first = store_at-first fat (c + 1) v in
    let zeroth = store_at-else fat (c + 1) v (position c) (omega arith) (omega arith) in
    let e : position (c + 1) ≡ position c + 1 = omega arith in
    let o : odd c ≡ false = ground arith in
    let o' : odd (c + 1) ≡ true = ground arith in
    let number =
      odd_number (fat (position c)) (fat (position c + 1)) (fat (position c + 1 + 1)) v
        (bytes (position c + 1)) in
    rw (o, zeroth, sym e, first, o', e, number)

far_kept :
    (fat : ℕ → ℕ) (c v c' : ℕ)
    → (position c + 1 < position c') ⊎ (position c' + 1 < position c)
    → entry_at (store_at fat c v) c' ≡ entry_at fat c'
unfolding entry_at
far_kept fat c v c' far = rw (
  store_at-else fat c v (position c') (ground arith) (ground arith),
  store_at-else fat c v (position c' + 1) (ground arith) (ground arith),
)

apart_cases :
    (c c' : ℕ)
    → c ≢ c'
    → ((position c + 1 < position c') ⊎ (position c' + 1 < position c))
      ⊎ (((c % 2 ≡ 0) × (c' ≡ c + 1)) ⊎ ((c' % 2 ≡ 0) × (c ≡ c' + 1)))
apart_cases c c' other = ground arith

apart :
    (fat : ℕ → ℕ) (c v c' : ℕ)
    → ((p : ℕ) → fat p < 2 ^ 8)
    → c ≢ c'
    → entry_at (store_at fat c v) c' ≡ entry_at fat c'
apart fat c v c' bytes other = elim (apart_cases c c' other) [
  | inl far ↦ far_kept fat c v c' far
  | inr (inl (even, next)) ↦ rw next (even_kept fat c v bytes even)
  | inr (inr (even, next)) ↦ rw next (odd_kept fat c' v bytes even)
]

-- In a FAT12 seen as an array of bytes, storing an entry sets it to the low 12 bits of the value
-- and leaves every other entry as it was, also the one that shares a byte with it.
pub entry_at-store_at :
    (fat : ℕ → ℕ) (c v c' : ℕ)
    → ((p : ℕ) → fat p < 2 ^ 8)
    → (entry_at (store_at fat c v) c ≡ v % 4096)
      × (c ≢ c' → entry_at (store_at fat c v) c' ≡ entry_at fat c')
entry_at-store_at fat c v c' bytes =
    (entry_at-store_at_self fat c v bytes, λ other. apart fat c v c' bytes other)
