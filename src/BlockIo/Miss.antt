-- ===== src/BlockIo/Miss.antt =====
-- `getblk` of kernel/blockio.c where no buffer holds the block: one is written back and filled.
use fdkernel.Common.{
  ℕ, ◌^◌, ◌≤◌, ◌<◌, ◌≡◌, ◌⊎◌, inl, inr, refl, Bool, true, false, List, [], ◌∷◌, All, ◌==◌, arith,
  Bool-cases, ap, ap₂, sym, ◌∙◌,
}
use fdkernel.BlockIo.Transfer.{Driver, Env, dskxfer, dsk_read}
use fdkernel.BlockIo.Device.{IsHonest, Ends, same_place, dskxfer-read}
use fdkernel.BlockIo.Cache.{Buf, Cache, is_hit, flushed, held, fill, after_read}
use fdkernel.BlockIo.Ring.{Takes, holders, lookup, All-Takes, holders-Takes, holders_zero}
use fdkernel.BlockIo.Coherence.{WroteBack, away, same_place_iff}
use fdkernel.BlockIo.Fetch.{
  FitsIfValid, IsCoherent, view_of, view, Fits-write_back, view_away, view_back, Kept, Fetched,
}

pub hit_lem :
    {A : Type 0} (b u : ℕ) (c : Buf A)
    → is_hit b u c ≡ true
    → (c.b_flag.valid ≡ true) × (c.b_unit ≡ u) × (c.b_blkno ≡ b)
hit_lem b u c hit = ground arith

missing :
    {A : Type 0} (b u : ℕ) (c : Buf A)
    → same_place c.b_unit c.b_blkno u b ≡ false
    → is_hit b u c ≡ false
missing b u c elsewhere = ground arith

module _ {A : Type 0} (D : Driver A) (H : IsHonest D) (spare : ℕ → ℕ → Bool) where
  -- What a call establishes, by its argument `overwrite` and its result.
  abbrev pub Outcome : ℕ → ℕ → Bool → (ℕ → ℕ → A) → Bool × Cache D → Type 0
  Outcome blkno dsk true v (ok, t) =
      Kept D H spare v t × (ok ≡ true → is_hit blkno dsk t.first ≡ true)
  Outcome blkno dsk false v (ok, t) =
      ((ok ≡ true) × Fetched D H spare blkno dsk v t) ⊎ ((ok ≡ false) × Kept D H spare v t)

  -- The buffer given up, and what was written of it.
  module _ (s : Cache D) (c : Buf A) (cs : List (Buf A)) (coherent : IsCoherent D H spare s)
      (takes : Takes c cs (s.first ∷ s.others)) where
    once : (u b : ℕ) → holders u b (c ∷ cs) ≤ 1
    once u b = omega (arith, coherent.one_holder u b, holders-Takes u b takes)

    fits_after :
        (t : Bool × Env D)
        → WroteBack D H spare c s.env.world t
        → All (FitsIfValid D H spare t.1.world) cs
    fits_after t wrote =
        Fits-write_back D H spare c s.env.world t cs wrote once
          ((All-Takes (FitsIfValid D H spare s.env.world) takes coherent.fits).1)

    -- After a complete write the disk and the other buffers hold all that the cache held.
    view_rest :
        (env : Env D)
        → WroteBack D H spare c s.env.world (true, env)
        → (u b : ℕ) → spare u b ≡ false
        → view_of D H spare (lookup cs u b) (H.content env.world u b) ≡ view D H spare s u b
    view_rest env (others, here, _) u b main = elim (Bool-cases (is_hit b u c)) [
      | inr miss ↦
          view_away D H spare s c cs env takes coherent.one_holder u b (others u b main miss) miss
      | inl hit ↦
          let (valid, unit, block) = hit_lem b u c hit in
          view_back D H spare s c cs env takes coherent.one_holder u b
            (ap₂ (H.content env.world) (sym unit) (sym block) ∙ here refl valid) hit
    ]

    -- The write failed: the buffer is given up, and no block but its own is concerned.
    fill_failed :
        (blkno dsk : ℕ) (overwrite : Bool) (env : Env D)
        → WroteBack D H spare c s.env.world (false, env)
        → Kept D H spare
            (view D H spare s)
            (record { first = flushed D false c; others = cs; env = env })
    fill_failed blkno dsk overwrite env (others, here, strict) = (
      λ u b. let h = once u b in ground arith,
      fits_after (false, env) (others, here, strict),
      strict,
      λ u b main elsewhere.
          let miss : is_hit b u c ≡ false = missing b u c elsewhere in
          let miss' : is_hit b u (flushed D false c) ≡ false =
            missing b u (flushed D false c) elsewhere in
          rw miss' (
            view_away D H spare s c cs env takes coherent.one_holder u b (others u b main miss)
              miss),
    )

    -- Another block is put into the buffer, which is now its only holder.
    held_once :
        (blkno dsk : ℕ) (buf : A) (x : Buf A)
        → holders dsk blkno cs ≡ 0
        → (u b : ℕ) → holders u b (held D blkno dsk buf x ∷ cs) ≤ 1
    held_once blkno dsk buf x free u b = elim (Bool-cases (same_place dsk blkno u b)) [
      | inl here ↦
          let (unit, block) = (same_place_iff dsk blkno u b).0 here in
          let free' : holders u b cs ≡ 0 = ap₂ (λ u' b'. holders u' b' cs) unit block ∙ free in
          ground arith
      | inr away ↦ let h = once u b in ground arith
    ]

    view-held :
        (blkno dsk : ℕ) (buf : A) (x : Buf A) (env env' : Env D)
        → WroteBack D H spare c s.env.world (true, env)
        → ((u b : ℕ) → H.content env'.world u b ≡ H.content env.world u b)
        → (u b : ℕ) → spare u b ≡ false
        → same_place dsk blkno u b ≡ false
        → view D H spare (record { first = held D blkno dsk buf x; others = cs; env = env' }) u b
          ≡ view D H spare s u b
    view-held blkno dsk buf x env env' wrote same u b main elsewhere =
        let miss : is_hit b u (held D blkno dsk buf x) ≡ false = ground arith in
        rw miss (ap (view_of D H spare (lookup cs u b)) (same u b) ∙ view_rest env wrote u b main)

    fits_same :
        (env env' : Env D)
        → ((u b : ℕ) → H.content env'.world u b ≡ H.content env.world u b)
        → (xs : List (Buf A)) → All (FitsIfValid D H spare env.world) xs
        → All (FitsIfValid D H spare env'.world) xs
    fits_same env env' same [] fits = tt
    fits_same env env' same (x ∷ xs) (fit, fits) = (
      λ valid.
          let f = fit valid in
          record {
            main = f.main;
            small = f.small;
            clean = λ e. f.clean e ∙ sym (same x.b_unit x.b_blkno);
            copied = f.copied;
          },
      fits_same env env' same xs fits,
    )

    -- The new block is read.
    read_lem :
        (blkno dsk : ℕ) (x : Buf A) (env : Env D) (t : ℕ × A × Env D)
        → WroteBack D H spare c s.env.world (true, env)
        → spare dsk blkno ≡ false
        → blkno < 2 ^ 32
        → holders dsk blkno cs ≡ 0
        → ((u b : ℕ) → holders u b (x ∷ cs) ≤ 1)
        → Ends D
            (λ buf w. (u b : ℕ) → H.content w u b ≡ H.content env.world u b)
            (λ buf w.
              ((u b : ℕ) → H.content w u b ≡ H.content env.world u b)
              × (buf ≡ H.content env.world dsk blkno))
            t
        → Outcome blkno dsk false (view D H spare s) (after_read D blkno dsk x cs t)
    read_lem blkno dsk x env (code, buf, env') wrote main small free once_x
          (inl (done, (same, read)), strict) =
        let test : (code == 0) ≡ true = ground arith in
        let hit : is_hit blkno dsk (held D blkno dsk buf x) ≡ true = ground arith in
        let empty = holders_zero dsk blkno cs free in
        let data_here : buf ≡ view D H spare s dsk blkno =
          read
          ∙ ap (λ o. view_of D H spare o (H.content env.world dsk blkno)) (sym empty)
          ∙ view_rest env wrote dsk blkno main in
        rw test (
          inl (
            refl,
            (
              record {
                one_holder = held_once blkno dsk buf x free;
                fits = (
                  λ valid. record {
                    main = main;
                    small = small;
                    clean = λ e. read ∙ sym (same dsk blkno);
                    copied = λ e. cc;
                  },
                  fits_same env env' same cs (fits_after (true, env) wrote),
                );
                strict = strict;
              },
              hit,
              data_here,
              λ u b main'. elim (Bool-cases (same_place dsk blkno u b)) [
                | inr elsewhere ↦ view-held blkno dsk buf x env env' wrote same u b main' elsewhere
                | inl at ↦
                    let (unit, block) = (same_place_iff dsk blkno u b).0 at in
                    rw (unit, block) (rw hit data_here)
              ],
            ),
          ))
    read_lem blkno dsk x env (code, buf, env') wrote main small free once_x
          (inr (failed, same), strict) =
        let test : (code == 0) ≡ false = ground arith in
        rw test (
          inr (
            refl,
            (
              once_x,
              fits_same env env' same cs (fits_after (true, env) wrote),
              strict,
              λ u b main' elsewhere.
                  let miss : is_hit b u (record x { b_buffer = buf }) ≡ false =
                    missing b u (record x { b_buffer = buf }) elsewhere in
                  rw miss (
                    ap (view_of D H spare (lookup cs u b)) (same u b)
                    ∙ view_rest env wrote u b main'),
            ),
          ))

    pub fill-Outcome :
        (blkno dsk : ℕ) (overwrite : Bool) (t : Bool × Env D)
        → WroteBack D H spare c s.env.world t
        → spare dsk blkno ≡ false
        → blkno < 2 ^ 32
        → holders dsk blkno cs ≡ 0
        → Outcome blkno dsk overwrite
            (view D H spare s)
            (fill D blkno dsk overwrite cs (t.0, flushed D t.0 c, t.1))
    unfolding fill
    fill-Outcome blkno dsk true (false, env) wrote main small free =
        (fill_failed blkno dsk true env wrote, λ e. cc)
    fill-Outcome blkno dsk false (false, env) wrote main small free =
        inr (refl, fill_failed blkno dsk false env wrote)
    fill-Outcome blkno dsk true (true, env) wrote main small free =
        let buf = c.b_buffer in
        (
          (
            held_once blkno dsk buf (flushed D true c) free,
            fits_after (true, env) wrote,
            wrote.2,
            view-held blkno dsk buf (flushed D true c) env env wrote (λ u b. refl),
          ),
          λ e. ground arith,
        )
    fill-Outcome blkno dsk false (true, env) wrote main small free =
        read_lem blkno dsk (flushed D true c) env (dskxfer D dsk blkno c.b_buffer dsk_read env)
          wrote main small free (λ u b. let h = once u b in ground arith)
          (dskxfer-read D H dsk blkno c.b_buffer env small wrote.2)
