-- ===== src/Disk/Sectors.antt =====
-- kernel/dsk.c: the calls and the counters of `LBA_Transfer` over all its chunks.
use fdkernel.Common.{
  ℕ, zero, suc, ◌+◌, ◌-◌, ◌*◌, ◌%◌, ◌^◌, ◌≤◌, ◌<◌, ◌≡◌, ◌⊎◌, inl, inr, refl, Bool, false, not, ◌&&◌,
  ◌||◌, leb, ◌==◌, if◌then◌else◌, none, some, arith, Bool-cases,
}
use fdkernel.Disk.Geometry.{dma_max_transfer, dma_max_transfer_lem}
use fdkernel.Disk.Transfer.{
  LbaMode, Ddt, Address, BiosCall, Session, Chunk, Result, Progress, note, is_reading, is_writing,
  retry, n_retry, before, chunk_limit, is_direct, transfer_chunk, copied_out, advanced,
  transfer_loop, set_table,
}
use fdkernel.Disk.Calls.{IsGeometry, IsAddress, AllGood, IsReady, retries_lem}

pub few_sectors : (n m : ℕ) → 512 ≤ m → n * m ≤ 2 ^ 16 → n < 2 ^ 8
few_sectors n m large within = grind arith

module _ (d : Ddt) (maxsecsize start end : ℕ) where
  -- The sizes for which nothing wraps.
  abbrev pub IsDrive : ℕ → Type 0
  IsDrive todo =
      IsGeometry d.geometry
      × (512 ≤ maxsecsize)
      × (todo + d.geometry.bpb_nsecs < 2 ^ 16)
      × ((d.dma_transparent && leb (2 ^ 8) todo) ≡ false)

  limit_lem :
      (seg ofs todo : ℕ)
      → 512 ≤ maxsecsize
      → (d.dma_transparent && leb (2 ^ 8) todo) ≡ false
      → seg < 40960
      → (chunk_limit d maxsecsize (seg, ofs) todo ≤ todo)
        × (chunk_limit d maxsecsize (seg, ofs) todo < 2 ^ 8)
        × IsAddress d maxsecsize start end
            (some (seg, ofs))
            (chunk_limit d maxsecsize (seg, ofs) todo)
  limit_lem seg ofs todo large short low = elim (Bool-cases d.dma_transparent) [
    | inl transparent ↦
        let few : todo < 2 ^ 8 = ground arith in rw transparent (omega arith, few, (low, inl refl))
    | inr minds ↦
        let (within, le) = dma_max_transfer_lem maxsecsize seg ofs todo (omega arith) in
        let few =
          few_sectors (dma_max_transfer maxsecsize seg ofs todo) maxsecsize large (omega arith) in
        rw minds (le, few, (low, inr within))
  ]

  -- What one chunk leaves.
  abbrev pub IsMoved : ℕ → Chunk → Type 0
  IsMoved todo k = (1 ≤ k.count) × (k.count ≤ todo) × AllGood d maxsecsize start end k.session.log

  retry-IsMoved :
      (mode : LbaMode) (lba count todo : ℕ) (a : Address) (s : Session)
      → IsGeometry d.geometry
      → count ≤ todo
      → IsReady d maxsecsize start end mode lba count a s.log
      → IsMoved todo (retry d mode lba a n_retry (before count s))
  retry-IsMoved mode lba count todo a s geometry le ready =
      let (from, to, some_count, short, few, at, all) = ready in
      let (some_k, le_k, at_k, all_k) =
        retries_lem d maxsecsize start end mode lba count a n_retry (before count s) geometry ready
          (some_count, omega arith, at, all) in
      (some_k, omega arith, all_k)

  copied_in_good :
      (mode : LbaMode) (buffer : ℕ × ℕ) (s : Session)
      → AllGood d maxsecsize start end s.log
      → AllGood d maxsecsize start end
          ((if is_writing mode then note (BiosCall.copy_in buffer) s else s).log)
  copied_in_good mode buffer s all = elim (Bool-cases (is_writing mode)) [
    | inl copies ↦ rw copies (omega arith, all)
    | inr keeps ↦ rw keeps all
  ]

  pub transfer_chunk_lem :
      (mode : LbaMode) (lba todo : ℕ) (buffer : ℕ × ℕ) (s : Session)
      → IsDrive todo
      → 1 ≤ todo
      → start ≤ lba
      → lba + todo ≤ end
      → AllGood d maxsecsize start end s.log
      → IsMoved todo (transfer_chunk d mode maxsecsize lba buffer todo s)
  unfolding transfer_chunk
  transfer_chunk_lem mode lba todo (seg, ofs) s (geometry, large, short, few) some_todo from to
        all =
      let n : ℕ = chunk_limit d maxsecsize (seg, ofs) todo in
      let s' : Session = if is_writing mode then note (BiosCall.copy_in (seg, ofs)) s else s in
      elim (Bool-cases (is_direct d maxsecsize (seg, ofs) todo)) [
        | inl direct ↦
            let low : seg < 40960 = ground arith in
            let some_n : 1 ≤ n = ground arith in
            let (le, few_n, at) = limit_lem seg ofs todo large few low in
            rw direct (
              retry-IsMoved mode lba n todo (some (seg, ofs)) s geometry le
                (from, omega arith, some_n, omega arith, few_n, at, all))
        | inr own ↦ rw own (
            retry-IsMoved mode lba 1 todo none s' geometry some_todo (
              from,
              omega arith,
              omega arith,
              omega arith,
              omega arith,
              omega arith,
              copied_in_good mode (seg, ofs) s all,
            ))
      ]

  pub copied_out_good :
      (direct : Bool) (mode : LbaMode) (buffer : ℕ × ℕ) (s : Session)
      → AllGood d maxsecsize start end s.log
      → AllGood d maxsecsize start end ((copied_out direct mode buffer s).log)
  copied_out_good direct mode buffer s all = elim (Bool-cases (not direct && is_reading mode)) [
    | inl copies ↦ rw copies (omega arith, all)
    | inr keeps ↦ rw keeps all
  ]

  -- The end: all calls are good, and either all sectors are moved, or an error is returned.
  abbrev pub IsEnd : Result → Type 0
  IsEnd r =
      AllGood d maxsecsize start end r.session.log
      × (((r.error_code ≡ 0) × (start + r.transferred ≡ end))
          ⊎ ((0 < r.error_code) × (start + r.transferred < end)))

  -- Where the loop stands.
  abbrev pub IsUnderWay : Progress → Type 0
  IsUnderWay p =
      (p.lba_address ≡ start + p.transferred)
      × (start + p.transferred + p.totaltodo ≡ end)
      × (end < 2 ^ 32)
      × (p.transferred + p.totaltodo < 2 ^ 16)

  pub few_left :
      (todo less : ℕ)
      → less ≤ todo
      → (d.dma_transparent && leb (2 ^ 8) todo) ≡ false
      → (d.dma_transparent && leb (2 ^ 8) less) ≡ false
  few_left todo less le few = ground arith

  pub transfer_loop_lem :
      (mode : LbaMode) (fuel : ℕ) (p : Progress) (s : Session)
      → IsDrive p.totaltodo
      → IsUnderWay p
      → p.totaltodo ≤ fuel
      → AllGood d maxsecsize start end s.log
      → IsEnd (transfer_loop d mode maxsecsize fuel p s)
  unfolding transfer_loop
  transfer_loop_lem mode zero p s drive (at, parts, short, word) enough all =
      (all, inl (refl, omega arith))
  transfer_loop_lem mode (suc fuel) p s drive (at, parts, short, word) enough all =
      elim (Bool-cases (p.totaltodo == 0)) [
        | inl done ↦
            let none_left : p.totaltodo ≡ 0 = ground arith in rw done (all, inl (refl, omega arith))
        | inr more ↦
            let some_left : 1 ≤ p.totaltodo = ground arith in
            let k : Chunk = transfer_chunk d mode maxsecsize p.lba_address p.buffer p.totaltodo s in
            let (some_k, le, all_k) =
              transfer_chunk_lem mode p.lba_address p.totaltodo p.buffer s drive some_left
                (omega arith) (omega arith) all in
            elim (Bool-cases (k.error == 0)) [
              | inl fine ↦
                  let p' : Progress = advanced d k.count p in
                  let left : p'.totaltodo ≡ p.totaltodo - k.count = omega arith in
                  let (geometry, large, fits, few) = drive in
                  rw more (
                    rw fine (
                      transfer_loop_lem mode fuel p'
                        (copied_out (is_direct d maxsecsize p.buffer p.totaltodo) mode p.buffer
                          k.session)
                        (
                          geometry,
                          large,
                          omega arith,
                          few_left p.totaltodo p'.totaltodo (omega arith) few,
                        )
                        (omega arith, omega arith, short, omega arith) (omega arith)
                        (copied_out_good (is_direct d maxsecsize p.buffer p.totaltodo) mode p.buffer
                          k.session all_k)))
              | inr bad ↦
                  let error : 0 < k.error = ground arith in
                  rw more (rw bad (all_k, inr (error, omega arith)))
            ]
      ]

  pub table_good :
      (s : Session)
      → AllGood d maxsecsize start end s.log
      → AllGood d maxsecsize start end ((set_table d s).log)
  table_good s all =
      elim (Bool-cases (d.hard_disk || s.int1e_nsecs == d.geometry.bpb_nsecs % 2 ^ 8)) [
        | inl same ↦ rw same all
        | inr other ↦ rw other (omega arith, all)
      ]
