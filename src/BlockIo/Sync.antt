-- ===== src/BlockIo/Sync.antt =====
-- `flush` and `dirty_buffers` of kernel/blockio.c: when the disks hold all that the cache holds.
use fdkernel.Common.{
  ℕ, ◌≤◌, ◌≡◌, inl, inr, refl, Bool, true, false, ◌&&◌, none, List, [], ◌∷◌, All, arith, Bool-cases,
  ap, ap₂, sym, ◌∙◌,
}
use fdkernel.BlockIo.Transfer.{Driver, Env}
use fdkernel.BlockIo.Device.{IsHonest, NoProceed}
use fdkernel.BlockIo.Cache.{Buf, Cache, is_hit, write_back, flush1, flush, dirty_buffers}
use fdkernel.BlockIo.Ring.{holders, lookup, holders_zero}
use fdkernel.BlockIo.Coherence.{WroteBack, write_back-WroteBack}
use fdkernel.BlockIo.Fetch.{FitsIfValid, Fits-write_back, IsCoherent, view_of, view}
use fdkernel.BlockIo.Miss.{hit_lem}

both_true : (a b : Bool) → (a && b) ≡ true → (a ≡ true) × (b ≡ true)
both_true a b e = ground arith

module _ {A : Type 0} (D : Driver A) (H : IsHonest D) (spare : ℕ → ℕ → Bool) where
  -- One buffer is written; the others are looked at from the new disks.
  step_view :
      (x : Buf A) (bs : List (Buf A)) (w : D.World) (ok : Bool) (env : Env D)
      → ok ≡ true
      → ((u b : ℕ) → holders u b (x ∷ bs) ≤ 1)
      → WroteBack D H spare x w (ok, env)
      → (u b : ℕ) → spare u b ≡ false
      → view_of D H spare (lookup bs u b) (H.content env.world u b)
        ≡ view_of D H spare (lookup (x ∷ bs) u b) (H.content w u b)
  step_view x bs w ok env fine once (others, here, _) u b main = elim (Bool-cases (is_hit b u x)) [
    | inr miss ↦ rw miss (ap (view_of D H spare (lookup bs u b)) (others u b main miss))
    | inl hit ↦
        let (valid, unit, block) = hit_lem b u x hit in
        let no_other : lookup bs u b ≡ none =
          holders_zero u b bs (let h = once u b in ground arith) in
        rw hit (rw no_other (ap₂ (H.content env.world) (sym unit) (sym block) ∙ here fine valid))
  ]

  -- What flushing a part of the ring achieves.
  abbrev pub Synced : List (Buf A) → D.World → Bool × List (Buf A) × Env D → Type 0
  Synced bs w (ok, bs', env) =
      All (λ x. x.b_flag.valid ≡ false) bs'
      × NoProceed env.replies
      × (ok ≡ true
          → (u b : ℕ) → spare u b ≡ false
          → H.content env.world u b ≡ view_of D H spare (lookup bs u b) (H.content w u b))

  flush-Synced :
      (bs : List (Buf A)) (env : Env D)
      → ((u b : ℕ) → holders u b bs ≤ 1)
      → All (FitsIfValid D H spare env.world) bs
      → NoProceed env.replies
      → Synced bs env.world (flush D bs env)
  unfolding flush flush1
  flush-Synced [] env once fits strict = (tt, strict, λ ok u b main. refl)
  flush-Synced (x ∷ bs) env once (fit, fits) strict =
      let wrote = write_back-WroteBack D H spare x env fit strict in
      let (ok, env') = write_back D x env in
      let (gone, strict', rest) =
        flush-Synced bs env' (λ u b. let h = once u b in omega arith)
          (Fits-write_back D H spare x env.world (ok, env') bs wrote once fits) (wrote.2) in
      (
        (refl, gone),
        strict',
        λ both u b main.
            let (fine, fine') = both_true _ _ both in
            rest fine' u b main ∙ step_view x bs env.world ok env' fine once wrote u b main,
      )

  -- With coherent buffers, honest drivers and an operator who lets no error pass, `flush` leaves no
  -- valid buffer, and if it reports no error, every block but a spare one has on
  -- the disk the data that it had in the cache or, where no buffer held it, on the disk.
  pub flush_lem :
      (s : Cache D)
      → IsCoherent D H spare s
      → Synced (s.first ∷ s.others) s.env.world (flush D (s.first ∷ s.others) s.env)
  flush_lem s ok = flush-Synced (s.first ∷ s.others) s.env ok.one_holder ok.fits ok.strict

  clean_view :
      (dsk b : ℕ) (w : D.World) (bs : List (Buf A))
      → All (FitsIfValid D H spare w) bs
      → dirty_buffers dsk bs ≡ false
      → view_of D H spare (lookup bs dsk b) (H.content w dsk b) ≡ H.content w dsk b
  unfolding dirty_buffers
  clean_view dsk b w [] fits clean = refl
  clean_view dsk b w (x ∷ bs) (fit, fits) clean = elim (Bool-cases (is_hit b dsk x)) [
    | inr miss ↦ rw miss (clean_view dsk b w bs fits (ground arith))
    | inl hit ↦
        let (valid, unit, block) = hit_lem b dsk x hit in
        rw hit ((fit valid).clean (ground arith) ∙ ap₂ (H.content w) unit block)
  ]

  -- Where `dirty_buffers` finds none for a drive and the buffers are coherent, the disk holds all
  -- the data of that drive.
  pub dirty_buffers_lem :
      (dsk b : ℕ) (s : Cache D)
      → IsCoherent D H spare s
      → dirty_buffers dsk (s.first ∷ s.others) ≡ false
      → view D H spare s dsk b ≡ H.content s.env.world dsk b
  dirty_buffers_lem dsk b s ok clean =
      clean_view dsk b s.env.world (s.first ∷ s.others) ok.fits clean
