-- ===== src/BlockIo/Cache.antt =====
-- kernel/blockio.c: the ring of block buffers and what is done to it. The ring is the list of the
-- buffers from `firstbuf` on along `b_next`; it has at least one. The message of
-- `network_redirector` in `flush` and `AllocateHMASpace` are left out.
use fdkernel.Common.{
  ℕ, zero, suc, ◌+◌, ◌%◌, ◌^◌, Bool, true, false, not, ◌&&◌, Option, none, some, List, [], ◌∷◌, ltb,
  leb, ◌==◌, if◌then◌else◌,
}
use fdkernel.Fat.State.{Flags}
use fdkernel.BlockIo.Transfer.{Driver, Env, dskxfer, dsk_read, dsk_write}

-- `b_xfatsize` is `b_dpbp->dpb_xfatsize`.
pub record Buf (A : Type 0) : Type 0 where
  pub b_unit : ℕ
  pub b_flag : Flags
  pub b_blkno : ℕ
  pub b_copies : ℕ
  pub b_offset : ℕ
  pub b_xfatsize : ℕ
  pub b_buffer : A

abbrev pub no_flags : Flags
no_flags = record {
  dirty = false;
  valid = false;
  data_area = false;
  dir_area = false;
  fat_area = false;
  uncache = false;
}

abbrev pub valid_data : Flags
valid_data = record no_flags { valid = true; data_area = true }

module _ {A : Type 0} where
  abbrev pub set_uncache : Bool → Buf A → Buf A
  set_uncache v b = record b { b_flag = record (b.b_flag) { uncache = v } }

  abbrev pub is_hit : ℕ → ℕ → Buf A → Bool
  is_hit blkno dsk b = (b.b_blkno == blkno) && (b.b_flag.valid && (b.b_unit == dsk))

  -- The first buffer that fits, and the others in their order.
  unfoldable pub first_where : (Buf A → Bool) → List (Buf A) → Option (Buf A × List (Buf A))
  first_where test [] = none
  first_where test (b ∷ bs) =
      let rest = first_where test bs in
      if test b then some (b, bs) else elim rest [ none ↦ none | some (c, cs) ↦ some (c, b ∷ cs) ]

  -- The last buffer that fits.
  unfoldable pub last_where : (Buf A → Bool) → List (Buf A) → Option (Buf A × List (Buf A))
  last_where test [] = none
  last_where test (b ∷ bs) = elim (last_where test bs) [
    | some (c, cs) ↦ some (c, b ∷ cs)
    | none ↦ if test b then some (b, bs) else none
  ]

  unfoldable pub last_of : Buf A → List (Buf A) → Buf A × List (Buf A)
  last_of b [] = (b, [])
  last_of b (c ∷ cs) = let (d, ds) = last_of c cs in (d, b ∷ ds)

  unfoldable pub fat_count : List (Buf A) → ℕ
  fat_count [] = 0
  fat_count (b ∷ bs) = (if b.b_flag.fat_area then 1 else 0) + fat_count bs

  abbrev pub taken : Option (Buf A × List (Buf A)) → Buf A × List (Buf A) → Buf A × List (Buf A)
  taken none otherwise = otherwise
  taken (some found) otherwise = found

  -- The buffer to replace. After the loop `bp` is the first buffer again.
  unfoldable pub victim : Buf A → List (Buf A) → Buf A × List (Buf A)
  victim b bs =
      let ring = b ∷ bs in
      taken (last_where (λ c. c.b_flag.uncache) ring) (
        if b.b_flag.fat_area && ltb (fat_count ring) 3
        then taken (last_where (λ c. not (c.b_flag.fat_area)) ring) (last_of b bs)
        else last_of b bs)

  abbrev pub replaced : Buf A × List (Buf A) → Buf A × List (Buf A)
  replaced (c, cs) = (set_uncache true c, cs)

  -- The ring with the buffer in question moved to the front.
  unfoldable pub searchblock : ℕ → ℕ → Buf A → List (Buf A) → Buf A × List (Buf A)
  searchblock blkno dsk b bs = elim (first_where (is_hit blkno dsk) (b ∷ bs)) [
    | some (c, cs) ↦ (set_uncache false c, cs)
    | none ↦ replaced (victim b bs)
  ]

  unfoldable pub setinvld : ℕ → List (Buf A) → List (Buf A)
  setinvld dsk [] = []
  setinvld dsk (b ∷ bs) =
      (if b.b_unit == dsk then record b { b_flag = no_flags } else b) ∷ setinvld dsk bs

  unfoldable pub dirty_buffers : ℕ → List (Buf A) → Bool
  dirty_buffers dsk [] = false
  dirty_buffers dsk (b ∷ bs) =
      if (b.b_unit == dsk) && (b.b_flag.valid && b.b_flag.dirty) then true else dirty_buffers dsk bs

module _ {A : Type 0} (D : Driver A) where
  unfoldable pub write_copies : ℕ → ℕ → ℕ → ℕ → A → Env D → Bool × Env D
  write_copies zero dsk blkno offset buf env = (true, env)
  write_copies (suc n) dsk blkno offset buf env =
      let (code, _, env') = dskxfer D dsk blkno buf dsk_write env in
      let (ok, env'') = write_copies n dsk ((blkno + offset) % 2 ^ 32) offset buf env' in
      ((code == 0) && ok, env'')

  abbrev pub fat_offset : Buf A → ℕ
  fat_offset b = if b.b_offset == 0 then b.b_xfatsize else b.b_offset

  -- The writes of `flush1`.
  unfoldable pub write_back : Buf A → Env D → Bool × Env D
  write_back b env =
      if b.b_flag.valid && b.b_flag.dirty
      then (if b.b_flag.fat_area
          then write_copies b.b_copies b.b_unit b.b_blkno (fat_offset b) b.b_buffer env
          else write_copies 1 b.b_unit b.b_blkno 0 b.b_buffer env)
      else (true, env)

  abbrev pub flushed : Bool → Buf A → Buf A
  flushed ok b = record b {
    b_flag = record (b.b_flag) { dirty = false; valid = b.b_flag.valid && ok };
  }

  unfoldable pub flush1 : Buf A → Env D → Bool × Buf A × Env D
  flush1 b env = let (ok, env') = write_back b env in (ok, flushed ok b, env')

  pub record Cache : Type 0 where
    pub first : Buf A
    pub others : List (Buf A)
    pub env : Env D

  abbrev pub held : ℕ → ℕ → A → Buf A → Buf A
  held blkno dsk buf b = record b {
    b_flag = valid_data;
    b_unit = dsk;
    b_blkno = blkno;
    b_buffer = buf;
  }

  abbrev pub after_read : ℕ → ℕ → Buf A → List (Buf A) → ℕ × A × Env D → Bool × Cache
  after_read blkno dsk c cs (code, buf, env) =
      if code == 0
      then (true, record { first = held blkno dsk buf c; others = cs; env = env })
      else (false, record { first = record c { b_buffer = buf }; others = cs; env = env })

  unfoldable pub fill : ℕ → ℕ → Bool → List (Buf A) → Bool × Buf A × Env D → Bool × Cache
  fill blkno dsk overwrite cs (false, c, env) =
      (false, record { first = c; others = cs; env = env })
  fill blkno dsk overwrite cs (true, c, env) =
      if overwrite
      then (true, record { first = held blkno dsk (c.b_buffer) c; others = cs; env = env })
      else after_read blkno dsk c cs (dskxfer D dsk blkno c.b_buffer dsk_read env)

  -- False stands for NULL; otherwise the block is in the first buffer.
  unfoldable pub getblk : ℕ → ℕ → Bool → Cache → Bool × Cache
  getblk blkno dsk overwrite s =
      let (c, cs) = searchblock blkno dsk s.first s.others in
      if c.b_flag.uncache
      then fill blkno dsk overwrite cs (flush1 c s.env)
      else (true, record s { first = c; others = cs })

  -- The loops over the ring: `flush_buffers` of one drive and `flush` of all.
  unfoldable pub flush_buffers : ℕ → List (Buf A) → Env D → Bool × List (Buf A) × Env D
  flush_buffers dsk [] env = (true, [], env)
  flush_buffers dsk (b ∷ bs) env =
      let (ok, b', env') = if b.b_unit == dsk then flush1 b env else (true, b, env) in
      let (ok', bs', env'') = flush_buffers dsk bs env' in (ok && ok', b' ∷ bs', env'')

  abbrev pub invalidated : Buf A → Buf A
  invalidated b = record b { b_flag = record (b.b_flag) { valid = false } }

  unfoldable pub flush : List (Buf A) → Env D → Bool × List (Buf A) × Env D
  flush [] env = (true, [], env)
  flush (b ∷ bs) env =
      let (ok, b', env') = flush1 b env in
      let (ok', bs', env'') = flush bs env' in (ok && ok', invalidated b' ∷ bs', env'')

  -- `mode` is `XFR_READ` where `reading` holds.
  unfoldable pub delete_block : ℕ → ℕ → ℕ → Bool → List (Buf A) → Env D → List (Buf A) × Env D
  delete_block low high dsk reading [] env = ([], env)
  delete_block low high dsk reading (b ∷ bs) env =
      let inside =
        leb low b.b_blkno && (leb b.b_blkno high && (b.b_flag.valid && (b.b_unit == dsk))) in
      let (ok, b', env') =
        if inside
        then (if reading then flush1 b env else (true, record b { b_flag = no_flags }, env))
        else (true, b, env) in
      let (bs', env'') = delete_block low high dsk reading bs env' in (b' ∷ bs', env'')
