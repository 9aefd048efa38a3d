-- ===== src/BlockIo/Fetch.antt =====
-- `getblk` of kernel/blockio.c: the cache in front of the disks stays the same map from blocks to
-- data, and the block asked for comes to the front.
use fdkernel.Common.{
  ℕ, suc, ◌≤◌, ◌≡◌, Bool, true, false, Option, none, some, List, [], ◌∷◌, All, arith, ap, sym, ◌∙◌,
  fun_ext,
}
use fdkernel.BlockIo.Transfer.{Driver, Env}
use fdkernel.BlockIo.Device.{IsHonest, NoProceed, same_place}
use fdkernel.BlockIo.Cache.{Buf, Cache, is_hit, set_uncache}
use fdkernel.BlockIo.Ring.{
  Takes, holders, lookup, All-Takes, holders-Takes, lookup-Takes, holders_zero,
}
use fdkernel.BlockIo.Coherence.{Fits, WroteBack}

module _ {A : Type 0} where
  -- No other buffer holds the block of a buffer that holds its block alone.
  pub alone :
      (c : Buf A) (cs : List (Buf A))
      → ((u b : ℕ) → holders u b (c ∷ cs) ≤ 1)
      → All (λ x. x.b_flag.valid ≡ true → is_hit x.b_blkno x.b_unit c ≡ false) cs
  alone c [] h = tt
  alone c (x ∷ xs) h = (
    λ valid. let once = h x.b_unit x.b_blkno in ground arith,
    alone c xs (λ u b. omega (arith, h u b)),
  )

  pub All-zip :
      (P Q R : Buf A → Type 0) (xs : List (Buf A))
      → ((x : Buf A) → P x → Q x → R x)
      → All P xs
      → All Q xs
      → All R xs
  All-zip P Q R [] f ps qs = tt
  All-zip P Q R (x ∷ xs) f (p, ps) (q, qs) = (f x p q, All-zip P Q R xs f ps qs)

module _ {A : Type 0} (D : Driver A) (H : IsHonest D) (spare : ℕ → ℕ → Bool) where
  abbrev pub FitsIfValid : D.World → Buf A → Type 0
  FitsIfValid w x = x.b_flag.valid ≡ true → Fits D H spare w x

  -- At most one valid buffer for a block, and every valid buffer fits its block.
  pub record IsCoherent (s : Cache D) : Type 0 where
    pub one_holder : (u b : ℕ) → holders u b (s.first ∷ s.others) ≤ 1
    pub fits : All (FitsIfValid s.env.world) (s.first ∷ s.others)
    pub strict : NoProceed s.env.replies

  -- The data of a block: that of its buffer, or else that on the disk.
  abbrev pub view_of : Option A → A → A
  view_of (some a) on_disk = a
  view_of none on_disk = on_disk

  abbrev pub view : Cache D → ℕ → ℕ → A
  view s u b = view_of (lookup (s.first ∷ s.others) u b) (H.content s.env.world u b)

  pub Fits-set_uncache :
      (v : Bool) (w : D.World) (x : Buf A) → FitsIfValid w x → FitsIfValid w (set_uncache v x)
  Fits-set_uncache v w x fits valid =
      let f = fits valid in
      record { main = f.main; small = f.small; clean = f.clean; copied = f.copied }

  -- The buffers that stay still fit after one was written back.
  pub Fits-write_back :
      (c : Buf A) (w : D.World) (t : Bool × Env D) (cs : List (Buf A))
      → WroteBack D H spare c w t
      → ((u b : ℕ) → holders u b (c ∷ cs) ≤ 1)
      → All (FitsIfValid w) cs
      → All (FitsIfValid t.1.world) cs
  Fits-write_back c w (ok, env) cs (others, _, _) once fits =
      All-zip (FitsIfValid w) (λ x. x.b_flag.valid ≡ true → is_hit x.b_blkno x.b_unit c ≡ false)
        (FitsIfValid env.world) cs
        (λ x fit away valid.
          let f = fit valid in
          record {
            main = f.main;
            small = f.small;
            clean = λ e. f.clean e ∙ sym (others x.b_unit x.b_blkno f.main (away valid));
            copied = f.copied;
          })
        fits (alone c cs once)

  -- A block that the buffer given up does not hold.
  pub view_away :
      (s : Cache D) (c : Buf A) (cs : List (Buf A)) (env : Env D)
      → Takes c cs (s.first ∷ s.others)
      → ((u b : ℕ) → holders u b (s.first ∷ s.others) ≤ 1)
      → (u b : ℕ) → H.content env.world u b ≡ H.content s.env.world u b
      → is_hit b u c ≡ false
      → view_of (lookup cs u b) (H.content env.world u b) ≡ view s u b
  view_away s c cs env takes once u b same miss =
      let moved = lookup-Takes u b takes (once u b) in
      let skip : lookup (c ∷ cs) u b ≡ lookup cs u b = rw miss in
      ap (view_of (lookup cs u b)) same
      ∙ ap (λ o. view_of o (H.content s.env.world u b)) (sym (moved ∙ skip))

  -- The block that the buffer given up held and that is now written.
  pub view_back :
      (s : Cache D) (c : Buf A) (cs : List (Buf A)) (env : Env D)
      → Takes c cs (s.first ∷ s.others)
      → ((u b : ℕ) → holders u b (s.first ∷ s.others) ≤ 1)
      → (u b : ℕ) → H.content env.world u b ≡ c.b_buffer
      → is_hit b u c ≡ true
      → view_of (lookup cs u b) (H.content env.world u b) ≡ view s u b
  view_back s c cs env takes once u b same hit =
      let moved = lookup-Takes u b takes (once u b) in
      let count : holders u b (s.first ∷ s.others) ≡ suc (holders u b cs) =
        holders-Takes u b takes ∙ rw hit (omega arith) in
      let no_other = holders_zero u b cs (omega (arith, once u b)) in
      let found : lookup (c ∷ cs) u b ≡ some c.b_buffer = rw hit in
      rw (moved ∙ found) (rw no_other same)

  -- What every call keeps, but for the block of the buffer that is now in front.
  abbrev pub Kept : (ℕ → ℕ → A) → Cache D → Type 0
  Kept v t =
      ((u b : ℕ) → holders u b (t.first ∷ t.others) ≤ 1)
      × All (FitsIfValid t.env.world) t.others
      × NoProceed t.env.replies
      × ((u b : ℕ)
          → spare u b ≡ false
          → same_place t.first.b_unit t.first.b_blkno u b ≡ false
          → view t u b ≡ v u b)

  -- The block is in front with its data, and every block has the data that it had.
  abbrev pub Fetched : ℕ → ℕ → (ℕ → ℕ → A) → Cache D → Type 0
  Fetched blkno dsk v t =
      IsCoherent t
      × (is_hit blkno dsk t.first ≡ true)
      × (t.first.b_buffer ≡ v dsk blkno)
      × ((u b : ℕ) → spare u b ≡ false → view t u b ≡ v u b)

  -- A buffer is moved to the front.
  abbrev pub to_front : Bool → Buf A → List (Buf A) → Cache D → Cache D
  to_front uncache c cs s = record s { first = set_uncache uncache c; others = cs }

  pub to_front-IsCoherent :
      (uncache : Bool) (s : Cache D) (c : Buf A) (cs : List (Buf A))
      → IsCoherent s
      → Takes c cs (s.first ∷ s.others)
      → IsCoherent (to_front uncache c cs s)
  to_front-IsCoherent uncache s c cs ok takes =
      let (fit, fits) = All-Takes (FitsIfValid s.env.world) takes ok.fits in
      record {
        one_holder = λ u b. omega (arith, ok.one_holder u b, holders-Takes u b takes);
        fits = (Fits-set_uncache uncache s.env.world c fit, fits);
        strict = ok.strict;
      }

  pub view-to_front :
      (uncache : Bool) (s : Cache D) (c : Buf A) (cs : List (Buf A))
      → IsCoherent s
      → Takes c cs (s.first ∷ s.others)
      → view (to_front uncache c cs s) ≡ view s
  view-to_front uncache s c cs ok takes = fun_ext (λ u. fun_ext (λ b.
      ap (λ o. view_of o (H.content s.env.world u b))
        (sym (lookup-Takes u b takes (ok.one_holder u b)))))
