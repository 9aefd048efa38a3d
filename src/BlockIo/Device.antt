-- ===== src/BlockIo/Device.antt =====
-- What `dskxfer` of kernel/blockio.c achieves over drivers that do what a driver must.
use fdkernel.Common.{
  ℕ, ◌/◌, ◌%◌, ◌^◌, ◌<◌, ◌≡◌, ◌≢◌, ◌⊎◌, inl, inr, refl, Bool, true, false, ◌&&◌, List, [], ◌∷◌, All,
  leb, ◌==◌, if◌then◌else◌, arith, Bool-cases, ap, sym, ◌∙◌,
}
use fdkernel.BlockIo.Transfer.{
  Driver, Request, Reply, Env, Transferred, block_of, is_done, command, request, attempt, answer,
  transfer, dskxfer, dsk_read, dsk_write, c_input,
}

abbrev pub same_place : ℕ → ℕ → ℕ → ℕ → Bool
same_place dsk blkno u b = (u == dsk) && (b == blkno)

-- Every driver sets the done bit. A finished read yields what the block holds; a read changes no
-- block. A write changes no other block, and leaves the data in this one if it finished.
pub record IsHonest {A : Type 0} (D : Driver A) : Type 0 where
  pub content : D.World → ℕ → ℕ → A
  pub sets_done :
      (dsk : ℕ) (r : Request) (buf : A) (w : D.World) → (D.execrh dsk r buf w).0 / 2 ^ 8 % 2 ≡ 1
  pub reads :
      (dsk : ℕ) (r : Request) (buf : A) (w : D.World)
      → r.r_command ≡ c_input
      → is_done ((D.execrh dsk r buf w).0) ≡ true
      → (D.execrh dsk r buf w).1 ≡ content w dsk (block_of r)
  pub reads_keep :
      (dsk : ℕ) (r : Request) (buf : A) (w : D.World)
      → r.r_command ≡ c_input
      → (u b : ℕ) → content ((D.execrh dsk r buf w).2) u b ≡ content w u b
  pub writes :
      (dsk : ℕ) (r : Request) (buf : A) (w : D.World)
      → r.r_command ≢ c_input
      → is_done ((D.execrh dsk r buf w).0) ≡ true
      → content ((D.execrh dsk r buf w).2) dsk (block_of r) ≡ buf
  pub writes_keep :
      (dsk : ℕ) (r : Request) (buf : A) (w : D.World)
      → r.r_command ≢ c_input
      → ((D.execrh dsk r buf w).1 ≡ buf)
        × ((u b : ℕ)
            → same_place dsk (block_of r) u b ≡ false
            → content ((D.execrh dsk r buf w).2) u b ≡ content w u b)

-- The operator lets no error pass as a success.
abbrev pub NoProceed : List Reply → Type 0
NoProceed = All (λ r. r ≢ Reply.proceed)

pub block_of-request :
    (cmd blkno : ℕ) (huge : Bool) → blkno < 2 ^ 32 → block_of (request cmd blkno huge) ≡ blkno
unfolding request
block_of-request cmd blkno huge h = ground arith

failed_status : (status : ℕ) → status / 2 ^ 8 % 2 ≡ 1 → is_done status ≡ false → status ≢ 0
failed_status status set failed = ground arith

module _ {A : Type 0} (D : Driver A) where
  -- A success establishes `Q` and a failure keeps `P`.
  abbrev pub Ends : (A → D.World → Type 0) → (A → D.World → Type 0) → Transferred D → Type 0
  Ends P Q (code, buf, env) =
      (((code ≡ 0) × Q buf env.world) ⊎ ((code ≢ 0) × P buf env.world)) × NoProceed env.replies

  Ends-map :
      (P Q P' : A → D.World → Type 0) (t : Transferred D)
      → ((buf : A) (w : D.World) → P buf w → P' buf w)
      → Ends P Q t
      → Ends P' Q t
  Ends-map P Q P' (code, buf, env) f (inl q, strict) = (inl q, strict)
  Ends-map P Q P' (code, buf, env) f (inr (e, p), strict) = (inr (e, f buf env.world p), strict)

  module _ (P Q : A → D.World → Type 0) (mode dsk : ℕ) (r : Request)
      (sets : (buf : A) (w : D.World) → (D.execrh dsk r buf w).0 / 2 ^ 8 % 2 ≡ 1)
      (step : (buf : A) (w : D.World)
        → P buf w
        → P ((D.execrh dsk r buf w).1) ((D.execrh dsk r buf w).2)
          × (is_done ((D.execrh dsk r buf w).0) ≡ true
              → Q ((D.execrh dsk r buf w).1) ((D.execrh dsk r buf w).2))) where
    attempt-Ends :
        (k : ℕ → A → D.World → Transferred D) (rs : List Reply) (buf : A) (w : D.World)
        (env : Env D)
        → P buf w
        → NoProceed rs
        → ((status : ℕ) (buf' : A) (w' : D.World)
            → P buf' w'
            → status ≢ 0
            → Ends P Q (k status buf' w'))
        → Ends P Q (attempt D k mode dsk r rs buf w env)
    attempt-Ends k rs buf w env p strict next =
        let (status, buf', w') = D.execrh dsk r buf w in
        let (kept, fine) = step buf w p in
        elim (Bool-cases (is_done status)) [
          | inl done ↦ rw done (inl (refl, fine done), strict)
          | inr failed ↦
              let error : status ≢ 0 = failed_status status (sets buf w) failed in
              rw failed (elim (Bool-cases (leb 3 mode)) [
                | inl stop ↦ rw stop (inr (error, kept), strict)
                | inr ask ↦ rw ask (next status buf' w' kept error)
              ])
        ]

    answer-Ends :
        (rs : List Reply) (status : ℕ) (buf : A) (w : D.World) (env : Env D)
        → P buf w
        → NoProceed rs
        → status ≢ 0
        → Ends P Q (answer D mode dsk r rs status buf w env)
    unfolding answer
    answer-Ends [] status buf w env p strict error = (inr (error, p), tt)
    answer-Ends (Reply.give_up ∷ rs) status buf w env p strict error = (inr (error, p), strict.1)
    answer-Ends (Reply.fail ∷ rs) status buf w env p strict error = (inr (error, p), strict.1)
    answer-Ends (Reply.proceed ∷ rs) status buf w env p strict error = absurd (strict.0 refl)
    answer-Ends (Reply.other ∷ rs) status buf w env p strict error =
        answer-Ends rs status buf w env p strict.1 error
    answer-Ends (Reply.retry ∷ rs) status buf w env p strict error =
        attempt-Ends (λ status' buf' w'. answer D mode dsk r rs status' buf' w' env) rs buf w env p
          strict.1
          (λ status' buf' w' p' error'. answer-Ends rs status' buf' w' env p' strict.1 error')

    start-Ends :
        (buf : A) (env : Env D)
        → P buf env.world
        → NoProceed env.replies
        → Ends P Q (
            attempt D
              (λ status buf' w'. answer D mode dsk r env.replies status buf' w' env)
              mode
              dsk
              r
              env.replies
              buf
              env.world
              env)
    start-Ends buf env p strict =
        attempt-Ends (λ status buf' w'. answer D mode dsk r env.replies status buf' w' env)
          env.replies buf env.world env p strict
          (λ status buf' w' p' error. answer-Ends env.replies status buf' w' env p' strict error)

  module _ (H : IsHonest D) where
    abbrev pub Unchanged : D.World → D.World → Type 0
    Unchanged w w' = (u b : ℕ) → H.content w' u b ≡ H.content w u b

    abbrev pub UnchangedBut : ℕ → ℕ → D.World → D.World → Type 0
    UnchangedBut dsk blkno w w' =
        (u b : ℕ) → same_place dsk blkno u b ≡ false → H.content w' u b ≡ H.content w u b

    -- Reading a block yields its data or an error code, and changes no block.
    pub dskxfer-read :
        (dsk blkno : ℕ) (buf : A) (env : Env D)
        → blkno < 2 ^ 32
        → NoProceed env.replies
        → Ends
            (λ buf' w. Unchanged env.world w)
            (λ buf' w. Unchanged env.world w × (buf' ≡ H.content env.world dsk blkno))
            (dskxfer D dsk blkno buf dsk_read env)
    unfolding dskxfer transfer command request
    dskxfer-read dsk blkno buf env small strict = elim (Bool-cases (D.present dsk)) [
      | inr absent ↦ rw absent (inr (λ e. omega arith, λ u b. refl), strict)
      | inl there ↦
          let r = request c_input blkno (D.huge dsk) in
          let place : block_of r ≡ blkno = block_of-request c_input blkno (D.huge dsk) small in
          let P : A → D.World → Type 0 = λ buf' w. Unchanged env.world w in
          let Q : A → D.World → Type 0 =
            λ buf' w. Unchanged env.world w × (buf' ≡ H.content env.world dsk blkno) in
          rw there (
            start-Ends P Q dsk_read dsk r (H.sets_done dsk r)
              (λ buf' w p.
                let keep : Unchanged env.world ((D.execrh dsk r buf' w).2) =
                  λ u b. H.reads_keep dsk r buf' w refl u b ∙ p u b in
                (
                  keep,
                  λ done. (
                    keep,
                    H.reads dsk r buf' w refl done
                        ∙ p dsk (block_of r)
                        ∙ ap (H.content env.world dsk) place,
                  ),
                ))
              buf env (λ u b. refl) strict)
    ]

    -- With honest drivers and an operator who lets no error pass, a write through `dskxfer` returns 0
    -- and the block then holds the data, or it returns another code; no other block changes.
    pub dskxfer-write :
        (dsk blkno : ℕ) (buf : A) (env : Env D)
        → blkno < 2 ^ 32
        → NoProceed env.replies
        → Ends
            (λ buf' w. UnchangedBut dsk blkno env.world w)
            (λ buf' w. UnchangedBut dsk blkno env.world w × (H.content w dsk blkno ≡ buf))
            (dskxfer D dsk blkno buf dsk_write env)
    unfolding dskxfer transfer command request
    dskxfer-write dsk blkno buf env small strict = elim (Bool-cases (D.present dsk)) [
      | inr absent ↦ rw absent (inr (λ e. omega arith, λ u b other. refl), strict)
      | inl there ↦
          let cmd : ℕ = if env.verify then 9 else 8 in
          let r = request cmd blkno (D.huge dsk) in
          let output : r.r_command ≢ c_input = ground arith in
          let place : block_of r ≡ blkno = block_of-request cmd blkno (D.huge dsk) small in
          let P : A → D.World → Type 0 =
            λ buf' w. (buf' ≡ buf) × UnchangedBut dsk blkno env.world w in
          let Q : A → D.World → Type 0 =
            λ buf' w. UnchangedBut dsk blkno env.world w × (H.content w dsk blkno ≡ buf) in
          let t =
            attempt D (λ status buf' w'. answer D dsk_write dsk r env.replies status buf' w' env)
              dsk_write dsk r env.replies buf env.world env in
          rw there (
            Ends-map P Q (λ buf' w. UnchangedBut dsk blkno env.world w) t (λ buf' w p. p.1)
              (start-Ends P Q dsk_write dsk r (H.sets_done dsk r)
                (λ buf' w p.
                  let (same, others) = H.writes_keep dsk r buf' w output in
                  let keep : UnchangedBut dsk blkno env.world ((D.execrh dsk r buf' w).2) =
                    λ u b other. others u b (rw place other) ∙ p.1 u b other in
                  (
                    (same ∙ p.0, keep),
                    λ done. (
                      keep,
                      ap (H.content ((D.execrh dsk r buf' w).2) dsk) (sym place)
                          ∙ H.writes dsk r buf' w output done
                          ∙ p.0,
                    ),
                  ))
                buf env (refl, λ u b other. refl) strict))
    ]
