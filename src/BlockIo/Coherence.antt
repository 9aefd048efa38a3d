-- ===== src/BlockIo/Coherence.antt =====
-- What keeps the buffers of kernel/blockio.c and the disks together, and the writing of one buffer.
use fdkernel.Common.{
  ℕ, zero, suc, ◌+◌, ◌%◌, ◌^◌, ◌<◌, ◌≡◌, ◌≢◌, inl, inr, refl, Bool, true, false, ◌&&◌, ◌==◌, arith,
  Bool-cases, ap₂, sym, ◌∙◌, ◌↔◌,
}
use fdkernel.BlockIo.Transfer.{Driver, Env, dskxfer, dsk_write}
use fdkernel.BlockIo.Device.{IsHonest, NoProceed, same_place, UnchangedBut, dskxfer-write}
use fdkernel.BlockIo.Cache.{Buf, is_hit, write_copies, write_back, fat_offset}

true-ne-false : true ≢ false
true-ne-false e = cc

first_ok : (code : ℕ) (ok : Bool) → ((code == 0) && ok) ≡ true → code ≡ 0
first_ok code ok e = ground arith

first_true : (a b : Bool) → (a && b) ≡ true → a ≡ true
first_true a b e = ground arith

not_dirty :
    {A : Type 0} (x : Buf A)
    → x.b_flag.valid ≡ true
    → (x.b_flag.valid && x.b_flag.dirty) ≡ false
    → x.b_flag.dirty ≡ false
not_dirty x valid idle = ground arith

pub away :
    {A : Type 0} (x : Buf A) (u b : ℕ)
    → x.b_flag.valid ≡ true
    → is_hit b u x ≡ false
    → same_place x.b_unit x.b_blkno u b ≡ false
away x u b valid miss = ground arith

pub same_place_iff :
    (dsk blkno u b : ℕ) → (same_place dsk blkno u b ≡ true) ↔ ((u ≡ dsk) × (b ≡ blkno))
same_place_iff dsk blkno u b = ground arith

module _ {A : Type 0} (D : Driver A) (H : IsHonest D) (spare : ℕ → ℕ → Bool) where
  -- The further copies of a FAT sector all lie in spare sectors.
  abbrev pub CopiesSpare : ℕ → ℕ → ℕ → ℕ → Type 0
  CopiesSpare zero dsk blkno offset = Unit {0}
  CopiesSpare (suc n) dsk blkno offset =
      (spare dsk blkno ≡ true) × CopiesSpare n dsk ((blkno + offset) % 2 ^ 32) offset

  -- A buffer that is not dirty holds what its block holds.
  pub record Fits (w : D.World) (x : Buf A) : Type 0 where
    pub main : spare x.b_unit x.b_blkno ≡ false
    pub small : x.b_blkno < 2 ^ 32
    pub clean : x.b_flag.dirty ≡ false → x.b_buffer ≡ H.content w x.b_unit x.b_blkno
    pub copied :
        x.b_flag.fat_area ≡ true
        → (n : ℕ) × (x.b_copies ≡ suc n)
          × CopiesSpare n x.b_unit ((x.b_blkno + fat_offset D x) % 2 ^ 32) (fat_offset D x)

  abbrev pub KeepsMain : D.World → D.World → Type 0
  KeepsMain w w' = (u b : ℕ) → spare u b ≡ false → H.content w' u b ≡ H.content w u b

  elsewhere :
      (dsk blkno u b : ℕ)
      → spare dsk blkno ≡ true
      → spare u b ≡ false
      → same_place dsk blkno u b ≡ false
  elsewhere dsk blkno u b here main = elim (Bool-cases (same_place dsk blkno u b)) [
    | inr e ↦ e
    | inl e ↦
        let (unit, block) = (same_place_iff dsk blkno u b).0 e in
        absurd (true-ne-false (sym here ∙ ap₂ spare (sym unit) (sym block) ∙ main))
  ]

  spare_copies :
      (n dsk blkno offset : ℕ) (buf : A) (env : Env D)
      → CopiesSpare n dsk blkno offset
      → blkno < 2 ^ 32
      → NoProceed env.replies
      → KeepsMain env.world ((write_copies D n dsk blkno offset buf env).1.world)
        × NoProceed ((write_copies D n dsk blkno offset buf env).1.replies)
  unfolding write_copies
  spare_copies zero dsk blkno offset buf env spares small strict = (λ u b main. refl, strict)
  spare_copies (suc n) dsk blkno offset buf env (here, spares) small strict =
      let env' = (dskxfer D dsk blkno buf dsk_write env).2 in
      let (ends, strict') = dskxfer-write D H dsk blkno buf env small strict in
      let others : UnchangedBut D H dsk blkno env.world env'.world = elim ends [
        | inl (e, q) ↦ q.0
        | inr (e, p) ↦ p
      ] in
      let (rest, strict'') =
        spare_copies n dsk ((blkno + offset) % 2 ^ 32) offset buf env' spares (omega arith)
          strict' in
      (λ u b main. rest u b main ∙ others u b (elsewhere dsk blkno u b here main), strict'')

  -- Writing all copies of a block, the first of which is no spare one.
  abbrev pub Wrote : ℕ → ℕ → A → D.World → Bool × Env D → Type 0
  Wrote dsk blkno buf w (ok, env) =
      ((u b : ℕ)
        → spare u b ≡ false
        → same_place dsk blkno u b ≡ false
        → H.content env.world u b ≡ H.content w u b)
      × (ok ≡ true → H.content env.world dsk blkno ≡ buf)
      × NoProceed env.replies

  write_copies-Wrote :
      (n dsk blkno offset : ℕ) (buf : A) (env : Env D)
      → spare dsk blkno ≡ false
      → CopiesSpare n dsk ((blkno + offset) % 2 ^ 32) offset
      → blkno < 2 ^ 32
      → NoProceed env.replies
      → Wrote dsk blkno buf env.world (write_copies D (suc n) dsk blkno offset buf env)
  unfolding write_copies
  write_copies-Wrote n dsk blkno offset buf env main spares small strict =
      let env' = (dskxfer D dsk blkno buf dsk_write env).2 in
      let (ends, strict') = dskxfer-write D H dsk blkno buf env small strict in
      let (rest, strict'') =
        spare_copies n dsk ((blkno + offset) % 2 ^ 32) offset buf env' spares (omega arith)
          strict' in
      elim ends [
        | inl (e, (others, here)) ↦ (
          λ u b keep away. rest u b keep ∙ others u b away,
          λ ok. rest dsk blkno main ∙ here,
          strict'',
        )
        | inr (e, others) ↦ (
          λ u b keep away. rest u b keep ∙ others u b away,
          λ ok. absurd (e (first_ok _ _ ok)),
          strict'',
        )
      ]

  -- A buffer is written back: its block gets its data or the result is false, and no other block
  -- changes but spare ones.
  abbrev pub WroteBack : Buf A → D.World → Bool × Env D → Type 0
  WroteBack x w (ok, env) =
      ((u b : ℕ)
        → spare u b ≡ false
        → is_hit b u x ≡ false
        → H.content env.world u b ≡ H.content w u b)
      × (ok ≡ true → x.b_flag.valid ≡ true → H.content env.world x.b_unit x.b_blkno ≡ x.b_buffer)
      × NoProceed env.replies

  Wrote-back :
      (x : Buf A) (w : D.World) (t : Bool × Env D)
      → x.b_flag.valid ≡ true
      → Wrote x.b_unit x.b_blkno x.b_buffer w t
      → WroteBack x w t
  Wrote-back x w (ok, env) valid (others, here, strict) =
      (λ u b main miss. others u b main (away x u b valid miss), λ fine _. here fine, strict)

  pub write_back-WroteBack :
      (x : Buf A) (env : Env D)
      → (x.b_flag.valid ≡ true → Fits env.world x)
      → NoProceed env.replies
      → WroteBack x env.world (write_back D x env)
  unfolding write_back
  write_back-WroteBack x env fits strict = elim (Bool-cases (x.b_flag.valid && x.b_flag.dirty)) [
    | inr idle ↦ rw idle (
      λ u b main miss. refl,
      λ _ valid. sym ((fits valid).clean (not_dirty x valid idle)),
      strict,
    )
    | inl both ↦
        let valid : x.b_flag.valid ≡ true = first_true _ _ both in
        let fit = fits valid in
        rw both (elim (Bool-cases x.b_flag.fat_area) [
          | inl fat ↦
              let (n, copies, spares) = fit.copied fat in
              rw fat (
                rw copies (
                  Wrote-back x env.world
                    (write_copies D (suc n) x.b_unit x.b_blkno (fat_offset D x) x.b_buffer env)
                    valid
                    (write_copies-Wrote n x.b_unit x.b_blkno (fat_offset D x) x.b_buffer env
                      fit.main spares fit.small strict)))
          | inr plain ↦ rw plain (
              Wrote-back x env.world (write_copies D 1 x.b_unit x.b_blkno 0 x.b_buffer env) valid (
                write_copies-Wrote 0 x.b_unit x.b_blkno 0 x.b_buffer env fit.main tt fit.small
                  strict))
        ])
  ]
