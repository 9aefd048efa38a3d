-- ===== src/BlockIo/GetBlock.antt =====
-- `getblk` of kernel/blockio.c as a whole.
use fdkernel.Common.{ℕ, ◌^◌, ◌<◌, ◌≡◌, inl, inr, refl, Bool, true, false, arith, subst, List}
use fdkernel.BlockIo.Transfer.{Driver}
use fdkernel.BlockIo.Device.{IsHonest}
use fdkernel.BlockIo.Cache.{
  Buf, Cache, getblk, fill, flush1, write_back, set_uncache, searchblock, is_hit,
}
use fdkernel.BlockIo.Ring.{Takes, searchblock_lem, holders-Takes, holders}
use fdkernel.BlockIo.Coherence.{write_back-WroteBack}
use fdkernel.BlockIo.Fetch.{IsCoherent, view, to_front, to_front-IsCoherent, view-to_front}
use fdkernel.BlockIo.Miss.{Outcome, fill-Outcome}

module _ {A : Type 0} (D : Driver A) (H : IsHonest D) (spare : ℕ → ℕ → Bool) where
  getblk_hit :
      (blkno dsk : ℕ) (overwrite : Bool) (s : Cache D) (c : Buf A) (cs : List (Buf A))
      → searchblock blkno dsk s.first s.others ≡ (set_uncache false c, cs)
      → getblk D blkno dsk overwrite s ≡ (true, to_front D H spare false c cs s)
  unfolding getblk
  getblk_hit blkno dsk overwrite s c cs e = rw e

  getblk_miss :
      (blkno dsk : ℕ) (overwrite : Bool) (s : Cache D) (c : Buf A) (cs : List (Buf A))
      → searchblock blkno dsk s.first s.others ≡ (set_uncache true c, cs)
      → getblk D blkno dsk overwrite s
        ≡ fill D blkno dsk overwrite cs (flush1 D (set_uncache true c) s.env)
  unfolding getblk
  getblk_miss blkno dsk overwrite s c cs e = rw e

  hit-Outcome :
      (blkno dsk : ℕ) (overwrite : Bool) (s : Cache D) (c : Buf A) (cs : List (Buf A))
      → IsCoherent D H spare (to_front D H spare false c cs s)
      → is_hit blkno dsk c ≡ true
      → Outcome D H spare blkno dsk overwrite
          (view D H spare (to_front D H spare false c cs s))
          (true, to_front D H spare false c cs s)
  hit-Outcome blkno dsk true s c cs ok hit =
      ((ok.one_holder, ok.fits.1, ok.strict, λ u b main elsewhere. refl), λ _. hit)
  hit-Outcome blkno dsk false s c cs ok hit = inl (refl, (ok, hit, rw hit, λ u b main. refl))

  -- With coherent buffers, honest drivers and an operator who lets no error pass, for a block that
  -- is no spare copy of a FAT sector: `getblk` either succeeds, and then the block is in the first
  -- buffer with the data that it had, the buffers are coherent, and every block but the spare ones
  -- has the data that it had; or it returns NULL, and then the same holds of every block but the one
  -- whose buffer was given up, and the other buffers still fit their blocks. With `overwrite` the
  -- data of the block itself is left open, in the first buffer on success.
  pub getblk_lem :
      (blkno dsk : ℕ) (overwrite : Bool) (s : Cache D)
      → IsCoherent D H spare s
      → spare dsk blkno ≡ false
      → blkno < 2 ^ 32
      → Outcome D H spare blkno dsk overwrite (view D H spare s) (getblk D blkno dsk overwrite s)
  unfolding flush1
  getblk_lem blkno dsk overwrite s ok main small =
      let (c, cs, takes, cases) = searchblock_lem blkno dsk s.first s.others in
      elim cases [
        | inl (e, hit) ↦
            let t = to_front D H spare false c cs s in
            subst (λ v. Outcome D H spare blkno dsk overwrite v (getblk D blkno dsk overwrite s))
              (view-to_front D H spare false s c cs ok takes)
              (rw (getblk_hit blkno dsk overwrite s c cs e) (
                hit-Outcome blkno dsk overwrite s c cs
                  (to_front-IsCoherent D H spare false s c cs ok takes) hit))
        | inr (e, absent, free) ↦
            let t = to_front D H spare true c cs s in
            let ok_t = to_front-IsCoherent D H spare true s c cs ok takes in
            let gone : holders dsk blkno cs ≡ 0 =
              omega (arith, free, holders-Takes dsk blkno takes) in
            subst (λ v. Outcome D H spare blkno dsk overwrite v (getblk D blkno dsk overwrite s))
              (view-to_front D H spare true s c cs ok takes)
              (rw (getblk_miss blkno dsk overwrite s c cs e) (
                fill-Outcome D H spare t (set_uncache true c) cs ok_t (Takes.here cs) blkno dsk
                  overwrite (write_back D (set_uncache true c) s.env)
                  (write_back-WroteBack D H spare (set_uncache true c) s.env (ok_t.fits.0)
                    ok.strict)
                  main small gone))
      ]
