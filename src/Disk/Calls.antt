-- ===== src/Disk/Calls.antt =====
-- kernel/dsk.c: the calls of the BIOS that one round of `LBA_Transfer` makes.
use fdkernel.Common.{
  ℕ, zero, suc, ◌+◌, ◌-◌, ◌*◌, ◌%◌, ◌^◌, ◌≤◌, ◌<◌, ◌≡◌, ◌⊎◌, inl, inr, true, not, ◌&&◌, ◌||◌, List,
  [], ◌∷◌, ◌==◌, none, some, arith, Bool-cases,
}
use fdkernel.Disk.Geometry.{Bpb, Chs, lba_to_chs, IsPlace, lba_of, lba_to_chs_lem, product_le}
use fdkernel.Disk.Transfer.{
  LbaMode, Ddt, Address, BiosCall, Session, Chunk, note, call, both, is_format, is_write_verify,
  chs_mode, lba_attempt, on_track, chs_attempt, at_place, try_once, retry,
}

-- A disk that has sectors, in a number that fits a word.
abbrev pub IsGeometry : Bpb → Type 0
IsGeometry b = (0 < b.bpb_nsecs) × (0 < b.bpb_nheads) × (b.bpb_nsecs * b.bpb_nheads < 2 ^ 16)

module _ (d : Ddt) (maxsecsize start end : ℕ) where
  -- One sector through the kernel's own buffer, or conventional memory that crosses no boundary of
  -- 64 KB, if the drive minds.
  abbrev pub IsAddress : Address → ℕ → Type 0
  IsAddress none n = n ≤ 1
  IsAddress (some (seg, ofs)) n =
      (seg < 40960)
      × ((d.dma_transparent ≡ true) ⊎ ((seg * 16 + ofs) % 2 ^ 16 + n * maxsecsize ≤ 2 ^ 16))

  -- A call within the sectors from `start` up to `end`; one for a place stays on its track.
  abbrev pub IsGood : BiosCall → Type 0
  IsGood (BiosCall.chs_call m c n a) =
      IsPlace d.geometry c
      × (start ≤ lba_of d.geometry c)
      × (lba_of d.geometry c + n ≤ end)
      × (1 ≤ n)
      × (c.sector + n ≤ d.geometry.bpb_nsecs + 1)
      × IsAddress a n
  IsGood (BiosCall.lba_call m n lba a) = (start ≤ lba) × (lba + n ≤ end) × (1 ≤ n) × IsAddress a n
  IsGood BiosCall.reset = 0 ≤ 0
  IsGood (BiosCall.copy_in b) = 0 ≤ 0
  IsGood (BiosCall.copy_out b) = 0 ≤ 0

  abbrev pub AllGood : List (BiosCall × ℕ) → Type 0
  AllGood [] = 0 ≤ 0
  AllGood ((c, e) ∷ log) = IsGood c × AllGood log

  address_le : (a : Address) (m n : ℕ) → m ≤ n → IsAddress a n → IsAddress a m
  address_le none m n le one = omega arith
  address_le (some (seg, ofs)) m n le (low, inl transparent) = (low, inl transparent)
  address_le (some (seg, ofs)) m n le (low, inr within) =
      let off : ℕ = (seg * 16 + ofs) % 2 ^ 16 in
      (low, inr (omega (arith, product_le m n maxsecsize (2 ^ 16 - off) le (omega arith))))

  both_good :
      (c : BiosCall) (r : ℕ × Session) → IsGood c → AllGood (r.1.log) → AllGood ((both c r).1.log)
  both_good c (e, s) good all = elim (Bool-cases (e == 0)) [
    | inl fine ↦ rw fine (good, all)
    | inr bad ↦ rw bad all
  ]

  lba_attempt_good :
      (mode : LbaMode) (lba count : ℕ) (a : Address) (s : Session)
      → start ≤ lba
      → lba + count ≤ end
      → 1 ≤ count
      → count < 2 ^ 8
      → IsAddress a count
      → AllGood s.log
      → AllGood ((lba_attempt d mode lba count a s).1.log)
  unfolding lba_attempt
  lba_attempt_good mode lba count a s from to some_count short at all =
      let blocks : count % 2 ^ 8 ≡ count = omega arith in
      let good : IsGood (BiosCall.lba_call mode (count % 2 ^ 8) lba a) = (
        from,
        omega (arith, to, blocks),
        omega (arith, some_count, blocks),
        address_le a (count % 2 ^ 8) count (omega (arith, blocks)) at,
      ) in
      elim (Bool-cases (d.wrtverify || not (is_write_verify mode))) [
        | inl once ↦ rw once (good, all)
        | inr twice ↦ rw twice (
            both_good (BiosCall.lba_call LbaMode.lba_verify (count % 2 ^ 8) lba a)
              (call (BiosCall.lba_call LbaMode.lba_write (count % 2 ^ 8) lba a) s) good (good, all))
      ]

  chs_attempt_good :
      (mode : LbaMode) (c : Chs) (n : ℕ) (a : Address) (s : Session)
      → IsGood (BiosCall.chs_call mode c n a)
      → AllGood s.log
      → AllGood ((chs_attempt mode c n a s).1.log)
  unfolding chs_attempt
  chs_attempt_good mode c n a s good all = elim (Bool-cases (is_write_verify mode)) [
    | inl twice ↦ rw twice (
        both_good (BiosCall.chs_call LbaMode.lba_verify c n a)
          (call (BiosCall.chs_call (chs_mode mode) c n a) s) good (good, all))
    | inr once ↦ rw once (good, all)
  ]

  -- What a round leaves, of `count` sectors at `a`.
  abbrev pub IsRound : ℕ → Address → Chunk → Type 0
  IsRound count a k =
      (1 ≤ k.count) × (k.count ≤ count) × IsAddress a k.count × AllGood k.session.log

  at_place_lem :
      (mode : LbaMode) (lba count : ℕ) (a : Address) (s : Session)
      → IsGeometry d.geometry
      → start ≤ lba
      → lba + count ≤ end
      → 1 ≤ count
      → count + d.geometry.bpb_nsecs < 2 ^ 16
      → IsAddress a count
      → AllGood s.log
      → IsRound count a (at_place d.geometry mode count a s (lba_to_chs d.geometry lba))
  at_place_lem mode lba count a s geometry from to some_count short at all =
      elim (lba_to_chs_lem d.geometry lba geometry.0 geometry.1 geometry.2) [
        | inl (e, far) ↦ rw e (some_count, omega arith, at, all)
        | inr (c, e, place, back) ↦
            let n : ℕ = on_track d.geometry c count in
            let (cyl, head, first, last) = place in
            let some_n : 1 ≤ n = ground arith in
            let le : n ≤ count = ground arith in
            let track : c.sector + n ≤ d.geometry.bpb_nsecs + 1 = ground arith in
            let at' = address_le a n count le at in
            rw e (
              some_n,
              le,
              at',
              chs_attempt_good mode c n a s (place, omega arith, omega arith, some_n, track, at')
                  all,
            )
      ]

  -- What a round is given.
  abbrev pub IsReady : LbaMode → ℕ → ℕ → Address → List (BiosCall × ℕ) → Type 0
  IsReady mode lba count a log =
      (start ≤ lba)
      × (lba + count ≤ end)
      × (1 ≤ count)
      × (count + d.geometry.bpb_nsecs < 2 ^ 16)
      × (count < 2 ^ 8)
      × IsAddress a count
      × AllGood log

  attempt_lem :
      (mode : LbaMode) (lba count : ℕ) (a : Address) (s : Session)
      → IsGeometry d.geometry
      → IsReady mode lba count a s.log
      → IsRound count a (try_once d mode lba count a s)
  unfolding try_once
  attempt_lem mode lba count a s geometry (from, to, some_count, short, few, at, all) =
      elim (Bool-cases (d.lba && not (is_format mode))) [
        | inl packet ↦ rw packet (
          some_count,
          omega arith,
          at,
          lba_attempt_good mode lba count a s from to some_count few at all,
        )
        | inr place ↦
            rw place (at_place_lem mode lba count a s geometry from to some_count short at all)
      ]

  pub retries_lem :
      (mode : LbaMode) (lba count : ℕ) (a : Address) (fuel : ℕ) (k : Chunk)
      → IsGeometry d.geometry
      → IsReady mode lba count a k.session.log
      → IsRound count a k
      → IsRound count a (retry d mode lba a fuel k)
  unfolding retry
  retries_lem mode lba count a zero k geometry ready round = round
  retries_lem mode lba count a (suc fuel) k geometry (from, to, some_count, short, few, at, all)
        (some_k, le, at_k, all_k) =
      let k1 : Chunk = try_once d mode lba k.count a k.session in
      let (some_1, le_1, at_1, all_1) =
        attempt_lem mode lba k.count a k.session geometry
          (from, omega arith, some_k, omega arith, omega arith, at_k, all_k) in
      elim (Bool-cases (k1.error == 0 || k1.stopped)) [
        | inl ends ↦ rw ends (some_1, omega arith, at_1, all_1)
        | inr more ↦ rw more (
            retries_lem mode lba count a fuel
              (record k1 { session = note BiosCall.reset k1.session }) geometry
              (from, to, some_count, short, few, at, (omega arith, all_1))
              (some_1, omega arith, at_1, (omega arith, all_1)))
      ]
