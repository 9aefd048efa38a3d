-- ===== src/Disk/Whole.antt =====
-- kernel/dsk.c: all chunks of `LBA_Transfer`, with the disk and the memory they move.
use fdkernel.Common.{
  ℕ, zero, suc, ◌+◌, ◌-◌, ◌*◌, ◌%◌, ◌^◌, ◌≤◌, ◌<◌, ◌≡◌, ◌⊎◌, inl, inr, false, ◌&&◌, List, [], ltb,
  leb, ◌==◌, arith, Bool-cases, ap, sym, ◌∙◌,
}
use fdkernel.MemMgr.Walk.{adjust_far}
use fdkernel.Disk.Geometry.{dma_max_transfer, dma_max_transfer_lem}
use fdkernel.Disk.Transfer.{
  LbaMode, Ddt, BiosCall, Session, Chunk, Result, Progress, is_format, chunk_limit, is_direct,
  transfer_chunk, copied_out, advance, advanced, transfer_loop, set_table, lba_transfer,
}
use fdkernel.Disk.Calls.{AllGood}
use fdkernel.Disk.Moved.{Keeps, IsServed, IsServed-Keeps, chunk_moves}
use fdkernel.Disk.Sectors.{
  IsDrive, IsEnd, IsUnderWay, few_sectors, few_left, transfer_chunk_lem, copied_out_good,
  transfer_loop_lem, table_good,
}

-- The address in memory of a segment and an offset.
abbrev pub linear : ℕ × ℕ → ℕ
linear (seg, ofs) = seg * 16 + ofs

adjust_far-linear :
    (seg ofs : ℕ)
    → seg * 16 + ofs < 0xffff * 16
    → (linear (adjust_far seg ofs) ≡ seg * 16 + ofs) × ((adjust_far seg ofs).1 < 16)
unfolding adjust_far
adjust_far-linear seg ofs low =
    let real : (seg == 0xffff) ≡ false = ground arith in rw real (omega arith, omega arith)

advance-linear :
    (d : Ddt) (seg ofs count : ℕ)
    → ofs < 16
    → count * d.bpb_nbyte + 16 ≤ 2 ^ 16
    → seg * 16 + ofs + count * d.bpb_nbyte < 0xffff * 16
    → (linear (advance d (seg, ofs) count) ≡ seg * 16 + ofs + count * d.bpb_nbyte)
      × ((advance d (seg, ofs) count).1 < 16)
advance-linear d seg ofs count small short low =
    let same : (ofs + count * d.bpb_nbyte) % 2 ^ 16 ≡ ofs + count * d.bpb_nbyte = omega arith in
    let (is, at) = adjust_far-linear seg ((ofs + count * d.bpb_nbyte) % 2 ^ 16) (omega arith) in
    (omega arith, at)

limit_short :
    (d : Ddt) (maxsecsize seg ofs todo : ℕ)
    → 512 ≤ maxsecsize
    → (d.dma_transparent && leb (2 ^ 8) todo) ≡ false
    → chunk_limit d maxsecsize (seg, ofs) todo < 2 ^ 8
limit_short d maxsecsize seg ofs todo large few = elim (Bool-cases d.dma_transparent) [
  | inl transparent ↦ rw transparent (ground arith)
  | inr minds ↦
      let (within, le) = dma_max_transfer_lem maxsecsize seg ofs todo (omega arith) in
      rw minds
        (few_sectors (dma_max_transfer maxsecsize seg ofs todo) maxsecsize large (omega arith))
]

part_bytes :
    (done count left n : ℕ)
    → count ≤ left
    → ((done + count) * n ≡ done * n + count * n)
      × (count * n ≤ left * n)
      × ((done + left) * n ≡ done * n + left * n)
      × ((left - count) * n + count * n ≡ left * n)
part_bytes done count left n le = (grind arith, grind arith, grind arith, grind arith)

module _ (d : Ddt) (mode : LbaMode) (maxsecsize base start end : ℕ) where
  -- The sector `x` is one of those that a call moved without an error, to or from where it belongs in
  -- memory.
  abbrev pub IsCovered : List (BiosCall × ℕ) → ℕ → Type 0
  IsCovered log x =
      (lba : ℕ) × (n : ℕ) × (b : ℕ × ℕ) × (lba ≤ x)
      × (x < lba + n)
      × (linear b ≡ base + (lba - start) * d.bpb_nbyte)
      × IsServed d mode lba n b log

  -- Where the loop stands in memory.
  abbrev IsPlaced : Progress → Type 0
  IsPlaced p =
      (linear p.buffer ≡ base + p.transferred * d.bpb_nbyte)
      × (p.buffer.1 < 16)
      × (base + (p.transferred + p.totaltodo) * d.bpb_nbyte < 0xffff * 16)
      × (p.totaltodo * d.bpb_nbyte + 16 ≤ 2 ^ 16)

  -- What the loop leaves of the sectors from `from` on.
  abbrev IsLeft : List (BiosCall × ℕ) → ℕ → Result → Type 0
  IsLeft log from r =
      (0 < r.error_code)
      ⊎ (Keeps log r.session.log × ((x : ℕ) → from ≤ x → x < end → IsCovered r.session.log x))

  advanced-IsPlaced :
      (count : ℕ) (p : Progress)
      → IsUnderWay d maxsecsize start end p
      → IsPlaced p
      → count ≤ p.totaltodo
      → IsPlaced (advanced d count p)
  advanced-IsPlaced count p (at, parts, short, word) (is, small, low, few) le =
      let (sum, part, whole, rest) = part_bytes p.transferred count p.totaltodo d.bpb_nbyte le in
      let (is', small') =
        advance-linear d (p.buffer.0) (p.buffer.1) count small (omega arith) (omega arith) in
      let done : (p.transferred + count) % 2 ^ 16 ≡ p.transferred + count = omega arith in
      let left : (p.totaltodo + 2 ^ 16 - count) % 2 ^ 16 ≡ p.totaltodo - count = omega arith in
      let both : p.transferred + count + (p.totaltodo - count) ≡ p.transferred + p.totaltodo =
        omega arith in
      rw done (rw left (rw both (omega arith, small', low, omega arith)))

  none_left_lem :
      (p : Progress) (s : Session)
      → IsUnderWay d maxsecsize start end p
      → p.totaltodo ≡ 0
      → IsLeft s.log p.lba_address
          (record { error_code = 0; transferred = p.transferred; session = s })
  none_left_lem p s (at, parts, short, word) none_left =
      inr (λ e old. old, λ x from to. absurd (omega arith))

  -- The sectors of a chunk, and those behind it.
  chunk_then :
      (p : Progress) (count : ℕ) (log new : List (BiosCall × ℕ)) (x : ℕ)
      → IsUnderWay d maxsecsize start end p
      → IsPlaced p
      → IsServed d mode p.lba_address count p.buffer log
      → Keeps log new
      → ((y : ℕ) → p.lba_address + count ≤ y → y < end → IsCovered new y)
      → p.lba_address ≤ x
      → x < end
      → IsCovered new x
  chunk_then p count log new x (at, parts, short, word) (is, small, low, few) served keeps behind
        from to =
      elim (Bool-cases (ltb x (p.lba_address + count))) [
        | inl here ↦
            let done : p.lba_address - start ≡ p.transferred = omega arith in
            (
              p.lba_address,
              count,
              p.buffer,
              from,
              ground arith,
              is ∙ ap (λ n. base + n * d.bpb_nbyte) (sym done),
              IsServed-Keeps d mode p.lba_address count p.buffer log new keeps served,
            )
        | inr later ↦ behind x (ground arith) to
      ]

  transfer_loop_moves :
      (fuel : ℕ) (p : Progress) (s : Session)
      → IsDrive d maxsecsize start end p.totaltodo
      → IsUnderWay d maxsecsize start end p
      → IsPlaced p
      → p.totaltodo ≤ fuel
      → AllGood d maxsecsize start end s.log
      → IsLeft s.log p.lba_address (transfer_loop d mode maxsecsize fuel p s)
  unfolding transfer_loop
  transfer_loop_moves zero p s drive way placed enough all = none_left_lem p s way (omega arith)
  transfer_loop_moves (suc fuel) p s drive way placed enough all =
      let (at, parts, short, word) = way in
      let (geometry, large, fits, few) = drive in
      elim (Bool-cases (p.totaltodo == 0)) [
        | inl done ↦ rw done (none_left_lem p s way (ground arith))
        | inr more ↦
            let k : Chunk = transfer_chunk d mode maxsecsize p.lba_address p.buffer p.totaltodo s in
            let s' : Session =
              copied_out (is_direct d maxsecsize p.buffer p.totaltodo) mode p.buffer k.session in
            let (some_k, le, all_k) =
              transfer_chunk_lem d maxsecsize start end mode p.lba_address p.totaltodo p.buffer s
                drive (ground arith) (omega arith) (omega arith) all in
            let (keeps, state) =
              chunk_moves d mode maxsecsize p.lba_address p.totaltodo p.buffer s geometry
                (limit_short d maxsecsize (p.buffer.0) (p.buffer.1) p.totaltodo large few) in
            elim (Bool-cases (k.error == 0)) [
              | inl fine ↦
                  let p' : Progress = advanced d k.count p in
                  let r : Result = transfer_loop d mode maxsecsize fuel p' s' in
                  let state_r =
                    transfer_loop_moves fuel p' s'
                      (
                        geometry,
                        large,
                        omega arith,
                        few_left d maxsecsize start end p.totaltodo p'.totaltodo (omega arith) few,
                      )
                      (omega arith, omega arith, short, omega arith)
                      (advanced-IsPlaced k.count p way placed le) (omega arith)
                      (copied_out_good d maxsecsize start end
                        (is_direct d maxsecsize p.buffer p.totaltodo) mode p.buffer k.session
                        all_k) in
                  let next : (p.lba_address + k.count) % 2 ^ 32 ≡ p.lba_address + k.count =
                    omega arith in
                  rw more (
                    rw fine (elim state [
                      | inl bad ↦ absurd (ground arith)
                      | inr served ↦ elim state_r [
                        | inl bad ↦ inl bad
                        | inr (keeps_r, behind) ↦ inr (
                          λ e old. keeps_r e (keeps e old),
                          λ x from to.
                              chunk_then p k.count s'.log r.session.log x way placed served keeps_r
                                (λ y lo hi. behind y (omega arith) hi) from to,
                        )
                      ]
                    ]))
              | inr bad ↦ let error : 0 < k.error = ground arith in rw more (rw bad (inl error))
            ]
      ]

-- `LBA_Transfer`, whatever the BIOS answers. The conditions: sectors have 512 bytes at least; the
-- sectors of the request and of a track are below 65536 together, and those of the request below 256
-- if the drive minds no boundary of 64 KB; the request is 16 bytes short of 64 KB or shorter and ends
-- below FFFF0h in memory; and no hard disk is formatted. Then each call moves sectors of the request
-- and no others, stays on one track where it names a place, and lies in conventional memory and
-- within 64 KB unless the drive does not mind, or moves one sector through the buffer of the kernel.
-- It ends with an error and fewer sectors, or without an error and with all sectors counted; then
-- each sector is in a call that was answered without an error, to or from the sector's own place
-- behind the start of the caller's buffer, directly or with the copy to or from the kernel's buffer.
pub lba_transfer_lem :
    (d : Ddt) (maxsecsize lba todo : ℕ) (mode : LbaMode) (buffer : ℕ × ℕ) (s : Session)
    → IsDrive d maxsecsize lba (lba + todo) todo
    → lba + todo < 2 ^ 32
    → (is_format mode && d.hard_disk) ≡ false
    → s.log ≡ []
    → todo * d.bpb_nbyte + 16 ≤ 2 ^ 16
    → linear buffer + todo * d.bpb_nbyte < 0xffff * 16
    → let r : Result = lba_transfer d mode maxsecsize buffer lba todo s in
      IsEnd d maxsecsize lba (lba + todo) r
      × ((0 < r.error_code)
          ⊎ ((x : ℕ)
              → lba ≤ x
              → x < lba + todo
              → IsCovered d mode maxsecsize (linear buffer) lba (lba + todo) r.session.log x))
unfolding lba_transfer
lba_transfer_lem d maxsecsize lba todo mode (seg, ofs) s drive short allowed fresh few low =
    let end : ℕ = lba + todo in
    let good : AllGood d maxsecsize lba end s.log = rw fresh (omega arith) in
    let p : Progress = record {
      lba_address = lba;
      buffer = adjust_far seg ofs;
      totaltodo = todo;
      transferred = 0;
    } in
    let (is, small) = adjust_far-linear seg ofs (omega arith) in
    let ready = table_good d maxsecsize lba end s good in
    let total : 0 + todo ≡ todo = omega arith in
    let moved =
      transfer_loop_moves d mode maxsecsize (seg * 16 + ofs) lba end todo p (set_table d s) drive
        (omega arith, omega arith, short, omega arith) (omega arith, small, rw total low, few)
        (omega arith) ready in
    rw allowed (
      transfer_loop_lem d maxsecsize lba end mode todo p (set_table d s) drive
          (omega arith, omega arith, short, omega arith) (omega arith) ready,
      elim moved [ inl bad ↦ inl bad | inr (keeps, all) ↦ inr all ],
    )
