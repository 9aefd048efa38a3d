-- ===== src/Fat/Twelve.antt =====
-- `link_12` of kernel/fattab.c over the sectors of a drive against the array of bytes.
use fdkernel.Common.{
  div_le, ℕ, ◌+◌, ◌/◌, ◌%◌, ◌^◌, ◌≤◌, ◌<◌, ◌≡◌, ◌≢◌, inl, inr, refl, true, false, leb, ◌==◌,
  if◌then◌else◌, arith, Bool-cases, ap, ◌∙◌, sym, ℕ_discrete, subst,
}
use fdkernel.Fat.State.{
  Dpb, Drive, free, read_cluster, put_buffer, byte, put_byte, mark_dirty, get_fat_block,
  as_fat_block,
}
use fdkernel.Fat.Link.{
  Linked, pack, odd, entry_12, link_12, straddling_12, entry_of_12, entry_index, entry_sector,
}
use fdkernel.Fat.Entry.{byte-put_byte, byte-put_byte_ne}
use fdkernel.Fat.Packed.{
  entry_at, store_at, store_at-first, store_at-second, store_at-else, word_at, position,
}
use fdkernel.Fat.Places.{IsFat12, locate, next_position, apart_places}

-- The FAT of a drive as one array of bytes.
abbrev pub flat : Drive → ℕ → ℕ
flat s p = byte s (s.dpb.fatstrt + p / s.dpb.secsize) (p % s.dpb.secsize)

-- `entry_12` on the two places of an entry in the array.
abbrev pub at_places : Dpb → ℕ → ℕ → Drive → Linked
at_places d c v s =
    let m = d.secsize in
    let first = d.fatstrt in
    let p = position c in entry_12 c v (first + p / m) (p % m) (first + (p + 1) / m) ((p + 1) % m) s

pub at_places_read :
    (c : ℕ) (s : Drive)
    → at_places s.dpb c read_cluster s ≡ Linked.entry (entry_of_12 (entry_at (flat s) c)) s
unfolding entry_12 entry_at
at_places_read c s = refl

-- The drive after the two bytes of an entry are written.
abbrev pub written : ℕ → ℕ → Drive → Drive
written c v s =
    let m = s.dpb.secsize in
    let first = s.dpb.fatstrt in
    let p = position c in
    let packed = pack (odd c) (word_at (flat s) p) v in
    put_byte (first + (p + 1) / m) ((p + 1) % m) (packed / 2 ^ 8)
      (put_byte (first + p / m) (p % m) packed s)

pub at_places_write :
    (c v : ℕ) (s : Drive)
    → v % 2 ^ 16 ≢ 1
    → at_places s.dpb c v s ≡ Linked.stored (entry_at (flat s) c == free) (written c v s)
unfolding entry_12 entry_at
at_places_write c v s other =
    let writes : (v % 2 ^ 16 == read_cluster) ≡ false = ground arith in rw writes

pub flat-written :
    (c v : ℕ) (s : Drive)
    → 0 < s.dpb.secsize
    → (q : ℕ) → flat (written c v s) q ≡ store_at (flat s) c v q
flat-written c v s h q =
    let m = s.dpb.secsize in
    let first = s.dpb.fatstrt in
    let p = position c in
    let packed = pack (odd c) (word_at (flat s) p) v in
    let lower = put_byte (first + p / m) (p % m) packed s in
    let upper_kept : (r : ℕ) → p + 1 ≢ r → flat (written c v s) r ≡ flat lower r = λ r other.
      byte-put_byte_ne (first + (p + 1) / m) ((p + 1) % m) (packed / 2 ^ 8) (first + r / m) (r % m)
        lower (apart_places (p + 1) r first m h other) in
    let lower_kept : (r : ℕ) → p ≢ r → flat lower r ≡ flat s r = λ r other.
      byte-put_byte_ne (first + p / m) (p % m) packed (first + r / m) (r % m) s
        (apart_places p r first m h other) in
    let same_at : ℕ → Type 0 = λ r. flat (written c v s) r ≡ store_at (flat s) c v r in
    let second : same_at (p + 1) =
      byte-put_byte (first + (p + 1) / m) ((p + 1) % m) (packed / 2 ^ 8) lower
      ∙ sym (store_at-second (flat s) c v) in
    let lower_first : same_at p =
      upper_kept p (omega arith)
      ∙ byte-put_byte (first + p / m) (p % m) packed s
      ∙ sym (store_at-first (flat s) c v) in
    elim (ℕ_discrete (p + 1) q) [
      | yes same ↦ subst same_at same second
      | no other ↦ elim (ℕ_discrete p q) [
        | yes same' ↦ subst same_at same' lower_first
        | no other' ↦
            upper_kept q other
            ∙ lower_kept q other'
            ∙ sym (store_at-else (flat s) c v q (λ e. other' (sym e)) (λ e. other (sym e)))
      ]
    ]

-- The drive on which `link_12` works on the two bytes: the second block is fetched, and marked
-- for a write, where the entry straddles.
abbrev pub Prepared : Drive → Drive → Type 0
Prepared s t = (t.dpb ≡ s.dpb) × (t.readable ≡ s.readable) × ((q : ℕ) → flat t q ≡ flat s q)

-- The second block as the code leaves it before the bytes are touched.
abbrev with_second : ℕ → ℕ → Drive → Drive
with_second v n s =
    let t = put_buffer n (as_fat_block s.dpb (s.block n)) s in
    if v == read_cluster then t else mark_dirty n t

with_second-Prepared : (v n : ℕ) (s : Drive) → Prepared s (with_second v n s)
with_second-Prepared v n s = elim (Bool-cases (v == read_cluster)) [
  | inl reads ↦ rw reads (refl, refl, λ q. ground arith)
  | inr writes ↦ rw writes (refl, refl, λ q. ground arith)
]

Prepared-dpb : (s t : Drive) → Prepared s t → s.dpb ≡ t.dpb
Prepared-dpb s t (d, r, f) = sym d

link_12_inside :
    (c v n idx : ℕ) (s : Drive)
    → leb ((s.dpb.secsize + 65535) % 2 ^ 16) (idx / 2) ≡ false
    → link_12 c v n idx s ≡ entry_12 c v n (idx / 2) n (idx / 2 + 1) s
unfolding link_12
link_12_inside c v n idx s test = rw test

link_12_straddle :
    (c v n idx : ℕ) (s : Drive)
    → leb ((s.dpb.secsize + 65535) % 2 ^ 16) (idx / 2) ≡ true
    → s.readable ((n + 1) % 2 ^ 16) ≡ true
    → link_12 c v n idx s
      ≡ entry_12 c v n (idx / 2) ((n + 1) % 2 ^ 16) 0 (with_second v ((n + 1) % 2 ^ 16) s)
unfolding link_12 straddling_12 get_fat_block
link_12_straddle c v n idx s test can = rw (test, can)

pub link_12_places :
    (c v : ℕ) (s : Drive)
    → IsFat12 s.dpb
    → c ≤ s.dpb.size
    → s.readable (s.dpb.fatstrt + (position c + 1) / s.dpb.secsize) ≡ true
    → (t : Drive) × Prepared s t
      × (link_12 c v (entry_sector s.dpb c) (entry_index s.dpb c) s ≡ at_places t.dpb c v t)
link_12_places c v s kind below can =
    let (sector, nibble) = locate s.dpb c kind below in
    elim (next_position (position c) s.dpb.secsize kind.sector) [
      | inl (last, quotient, remainder) ↦
          let n = s.dpb.fatstrt + (position c + 1) / s.dpb.secsize in
          let small = div_le (position c) s.dpb.secsize kind.sector in
          let few = kind.clusters_few in
          let start = kind.start in
          let number : (entry_sector s.dpb c + 1) % 2 ^ 16 ≡ n =
            rw sector (omega (arith, quotient, small, few, start, below)) in
          (
            with_second v n s,
            with_second-Prepared v n s,
            link_12_straddle c v (entry_sector s.dpb c) (entry_index s.dpb c) s
                  (rw nibble (ground (arith, last, kind.sector, kind.sector_short))) (rw number can)
                ∙ (rw (number, sector, nibble, remainder))
                ∙ ap (λ d. at_places d c v (with_second v n s))
                    (Prepared-dpb s (with_second v n s) (with_second-Prepared v n s)),
          )
      | inr (inside, quotient, remainder) ↦ (
        s,
        (refl, refl, λ q. refl),
        link_12_inside c v (entry_sector s.dpb c) (entry_index s.dpb c) s (rw nibble (ground arith))
            ∙ rw (sector, nibble, quotient, remainder),
      )
    ]
