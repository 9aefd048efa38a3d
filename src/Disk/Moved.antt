-- ===== src/Disk/Moved.antt =====
-- kernel/dsk.c: which sectors one chunk of `LBA_Transfer` moves, and to or from where.
use fdkernel.Common.{
  ℕ, zero, suc, ◌%◌, ◌^◌, ◌≤◌, ◌<◌, ◌≡◌, ◌⊎◌, inl, inr, refl, Bool, true, false, not, ◌&&◌, ◌||◌,
  List, [], ◌∷◌, ◌==◌, if◌then◌else◌, none, some, arith, Bool-cases, ap,
}
use fdkernel.Disk.Geometry.{Chs, lba_of, lba_to_chs_lem}
use fdkernel.Disk.Transfer.{
  LbaMode, Ddt, Address, BiosCall, Session, Chunk, note, call, both, is_reading, is_writing,
  is_format, is_write_verify, chs_mode, lba_attempt, on_track, chs_attempt, try_once, retry,
  n_retry, before, chunk_limit, is_direct, transfer_chunk, copied_out,
}
use fdkernel.Disk.Calls.{IsGeometry}

abbrev pub Logged : BiosCall × ℕ → List (BiosCall × ℕ) → Type 0
Logged e [] = 1 ≤ 0
Logged e (x ∷ log) = (x ≡ e) ⊎ Logged e log

-- Nothing is removed from the log.
abbrev pub Keeps : List (BiosCall × ℕ) → List (BiosCall × ℕ) → Type 0
Keeps old new = (e : BiosCall × ℕ) → Logged e old → Logged e new

write_mode :
    (wrtverify : Bool) (mode : LbaMode)
    → (wrtverify || not (is_write_verify mode)) ≡ false
    → LbaMode.lba_write ≡ chs_mode mode
write_mode true mode twice = absurd (cc)
write_mode false LbaMode.lba_write_verify twice = refl
write_mode false LbaMode.lba_read twice = absurd (cc)
write_mode false LbaMode.lba_write twice = absurd (cc)
write_mode false LbaMode.lba_verify twice = absurd (cc)
write_mode false LbaMode.lba_format twice = absurd (cc)

either_kept :
    (e : BiosCall × ℕ) (old new : List (BiosCall × ℕ)) (P : Type 0)
    → Keeps old new
    → P ⊎ Logged e old
    → P ⊎ Logged e new
either_kept e old new P keeps (inl p) = inl p
either_kept e old new P keeps (inr at) = inr (keeps e at)

module _ (d : Ddt) (mode : LbaMode) where
  -- A call that moves `n` sectors from `lba` on, to or from `a`.
  abbrev pub IsCall : ℕ → ℕ → Address → BiosCall → Type 0
  IsCall lba n a (BiosCall.chs_call m c n' a') =
      (m ≡ chs_mode mode) × (lba_of d.geometry c ≡ lba) × (n' ≡ n) × (a' ≡ a)
  IsCall lba n a (BiosCall.lba_call m n' lba' a') =
      ((m ≡ mode) ⊎ (m ≡ chs_mode mode)) × (lba' ≡ lba) × (n' ≡ n) × (a' ≡ a)
  IsCall lba n a other = 1 ≤ 0

  -- Such a call was made and answered without an error.
  abbrev pub Answered : ℕ → ℕ → Address → List (BiosCall × ℕ) → Type 0
  Answered lba n a log = (c : BiosCall) × IsCall lba n a c × Logged (c, 0) log

  -- What a round leaves of a log, and that its sectors are moved if it ends without an error.
  abbrev Served : ℕ → Address → List (BiosCall × ℕ) → Chunk → Type 0
  Served lba a log k =
      Keeps log k.session.log × (0 < k.error ⊎ Answered lba k.count a k.session.log)

  call_lem : (c : BiosCall) (s : Session) → (0 < (call c s).0) ⊎ Logged (c, 0) ((call c s).1.log)
  call_lem c s = elim (Bool-cases (s.answers s.calls == 0)) [
    | inl fine ↦
        let zero_is : s.answers s.calls ≡ 0 = ground arith in inr (inl (ap (λ e. (c, e)) zero_is))
    | inr bad ↦ inl (ground arith)
  ]

  -- The first of two calls.
  both_lem :
      (c c' : BiosCall) (s : Session)
      → Keeps s.log ((both c' (call c s)).1.log)
        × ((0 < (both c' (call c s)).0) ⊎ Logged (c, 0) ((both c' (call c s)).1.log))
  both_lem c c' s = elim (Bool-cases (s.answers s.calls == 0)) [
    | inl fine ↦
        let zero_is : s.answers s.calls ≡ 0 = ground arith in
        rw fine (λ e old. inr (inr old), inr (inr (inl (ap (λ e. (c, e)) zero_is))))
    | inr bad ↦ rw bad (λ e old. inr old, inl (ground arith))
  ]

  answered :
      (lba n : ℕ) (a : Address) (c : BiosCall) (e : ℕ) (log : List (BiosCall × ℕ))
      → IsCall lba n a c
      → (0 < e) ⊎ Logged (c, 0) log
      → (0 < e) ⊎ Answered lba n a log
  answered lba n a c e log is (inl bad) = inl bad
  answered lba n a c e log is (inr fine) = inr (c, is, fine)

  lba_attempt_moves :
      (lba count : ℕ) (a : Address) (s : Session)
      → count < 2 ^ 8
      → Keeps s.log ((lba_attempt d mode lba count a s).1.log)
        × ((0 < (lba_attempt d mode lba count a s).0)
            ⊎ Answered lba count a ((lba_attempt d mode lba count a s).1.log))
  unfolding lba_attempt
  lba_attempt_moves lba count a s short =
      let blocks : count % 2 ^ 8 ≡ count = omega arith in
      elim (Bool-cases (d.wrtverify || not (is_write_verify mode))) [
        | inl once ↦
            let c = BiosCall.lba_call mode (count % 2 ^ 8) lba a in
            rw once (
              λ e old. inr old,
              answered lba count a c ((call c s).0) ((call c s).1.log)
                  (inl refl, refl, blocks, refl) (call_lem c s),
            )
        | inr twice ↦
            let c = BiosCall.lba_call LbaMode.lba_write (count % 2 ^ 8) lba a in
            let c' = BiosCall.lba_call LbaMode.lba_verify (count % 2 ^ 8) lba a in
            let (keeps, fine) = both_lem c c' s in
            rw twice (
              keeps,
              answered lba count a c ((both c' (call c s)).0) ((both c' (call c s)).1.log)
                  (inr (write_mode d.wrtverify mode twice), refl, blocks, refl) fine,
            )
      ]

  chs_attempt_moves :
      (lba n : ℕ) (c : Chs) (a : Address) (s : Session)
      → lba_of d.geometry c ≡ lba
      → Keeps s.log ((chs_attempt mode c n a s).1.log)
        × ((0 < (chs_attempt mode c n a s).0) ⊎ Answered lba n a ((chs_attempt mode c n a s).1.log))
  unfolding chs_attempt
  chs_attempt_moves lba n c a s at =
      let b : BiosCall = BiosCall.chs_call (chs_mode mode) c n a in
      let b' : BiosCall = BiosCall.chs_call LbaMode.lba_verify c n a in
      elim (Bool-cases (is_write_verify mode)) [
        | inl twice ↦
            let (keeps, fine) = both_lem b b' s in
            rw twice (
              keeps,
              answered lba n a b ((both b' (call b s)).0) ((both b' (call b s)).1.log)
                  (refl, at, refl, refl) fine,
            )
        | inr once ↦ rw once (
          λ e old. inr old,
          answered lba n a b ((call b s).0) ((call b s).1.log) (refl, at, refl, refl)
              (call_lem b s),
        )
      ]

  try_once_moves :
      (lba count : ℕ) (a : Address) (s : Session)
      → IsGeometry d.geometry
      → count < 2 ^ 8
      → Served lba a s.log (try_once d mode lba count a s)
  unfolding try_once
  try_once_moves lba count a s geometry short = elim (Bool-cases (d.lba && not (is_format mode))) [
    | inl packet ↦ rw packet (lba_attempt_moves lba count a s short)
    | inr place ↦ elim (lba_to_chs_lem d.geometry lba geometry.0 geometry.1 geometry.2) [
      | inl (e, far) ↦ rw place (rw e (λ e old. old, inl (omega arith)))
      | inr (c, e, is_place, back) ↦
          rw place (rw e (chs_attempt_moves lba (on_track d.geometry c count) c a s back))
    ]
  ]

  try_once-count :
      (lba count : ℕ) (a : Address) (s : Session)
      → IsGeometry d.geometry
      → (try_once d mode lba count a s).count ≤ count
  unfolding try_once
  try_once-count lba count a s geometry = elim (Bool-cases (d.lba && not (is_format mode))) [
    | inl packet ↦ rw packet (omega arith)
    | inr place ↦ elim (lba_to_chs_lem d.geometry lba geometry.0 geometry.1 geometry.2) [
      | inl (e, far) ↦ rw place (rw e (omega arith))
      | inr (c, e, is_place, back) ↦
          let le : on_track d.geometry c count ≤ count = ground arith in rw place (rw e le)
    ]
  ]

  retry_moves :
      (lba : ℕ) (a : Address) (fuel : ℕ) (log : List (BiosCall × ℕ)) (k : Chunk)
      → IsGeometry d.geometry
      → k.count < 2 ^ 8
      → Keeps log k.session.log
      → (0 < fuel) ⊎ (0 < k.error ⊎ Answered lba k.count a k.session.log)
      → Served lba a log (retry d mode lba a fuel k) × ((retry d mode lba a fuel k).count ≤ k.count)
  unfolding retry
  retry_moves lba a zero log k geometry short keeps (inl some_fuel) = absurd (omega arith)
  retry_moves lba a zero log k geometry short keeps (inr fine) = ((keeps, fine), omega arith)
  retry_moves lba a (suc fuel) log k geometry short keeps state =
      let k1 : Chunk = try_once d mode lba k.count a k.session in
      let (keeps_1, fine_1) = try_once_moves lba k.count a k.session geometry short in
      let le = try_once-count lba k.count a k.session geometry in
      elim (Bool-cases (k1.error == 0 || k1.stopped)) [
        | inl ends ↦ rw ends ((λ e old. keeps_1 e (keeps e old), fine_1), le)
        | inr more ↦
            let (served, le_2) =
              retry_moves lba a fuel log (record k1 { session = note BiosCall.reset k1.session })
                geometry (omega arith) (λ e old. inr (keeps_1 e (keeps e old)))
                (inr (inl (ground arith))) in
            rw more (served, omega arith)
      ]

  -- `n` sectors from `lba` on were moved to or from the buffer `b`, or one of them through the
  -- kernel's own buffer, with the copy that this needs.
  abbrev pub IsServed : ℕ → ℕ → ℕ × ℕ → List (BiosCall × ℕ) → Type 0
  IsServed lba n b log =
      Answered lba n (some b) log
      ⊎ ((n ≤ 1)
          × Answered lba n none log
          × ((is_writing mode ≡ false) ⊎ Logged (BiosCall.copy_in b, 0) log)
          × ((is_reading mode ≡ false) ⊎ Logged (BiosCall.copy_out b, 0) log))

  Answered-Keeps :
      (lba n : ℕ) (a : Address) (old new : List (BiosCall × ℕ))
      → Keeps old new
      → Answered lba n a old
      → Answered lba n a new
  Answered-Keeps lba n a old new keeps (c, is, at) = (c, is, keeps (c, 0) at)

  pub IsServed-Keeps :
      (lba n : ℕ) (b : ℕ × ℕ) (old new : List (BiosCall × ℕ))
      → Keeps old new
      → IsServed lba n b old
      → IsServed lba n b new
  IsServed-Keeps lba n b old new keeps (inl good) =
      inl (Answered-Keeps lba n (some b) old new keeps good)
  IsServed-Keeps lba n b old new keeps (inr (le, good, written, read)) = inr (
    le,
    Answered-Keeps lba n none old new keeps good,
    either_kept (BiosCall.copy_in b, 0) old new (is_writing mode ≡ false) keeps written,
    either_kept (BiosCall.copy_out b, 0) old new (is_reading mode ≡ false) keeps read,
  )

  copied_in_lem :
      (b : ℕ × ℕ) (s : Session)
      → let s' : Session = if is_writing mode then note (BiosCall.copy_in b) s else s in
        Keeps s.log s'.log × ((is_writing mode ≡ false) ⊎ Logged (BiosCall.copy_in b, 0) s'.log)
  copied_in_lem b s = elim (Bool-cases (is_writing mode)) [
    | inl copies ↦ rw copies (λ e old. inr old, inr (inl refl))
    | inr not_written ↦ rw not_written (λ e old. old, inl refl)
  ]

  copied_out_lem :
      (b : ℕ × ℕ) (s : Session)
      → Keeps s.log ((copied_out false mode b s).log)
        × ((is_reading mode ≡ false)
            ⊎ Logged (BiosCall.copy_out b, 0) ((copied_out false mode b s).log))
  copied_out_lem b s = elim (Bool-cases (is_reading mode)) [
    | inl copies ↦ rw copies (λ e old. inr old, inr (inl refl))
    | inr not_read ↦ rw not_read (λ e old. old, inl refl)
  ]

  pub chunk_moves :
      (maxsecsize lba todo : ℕ) (b : ℕ × ℕ) (s : Session)
      → IsGeometry d.geometry
      → chunk_limit d maxsecsize b todo < 2 ^ 8
      → let k : Chunk = transfer_chunk d mode maxsecsize lba b todo s in
        let s' : Session = copied_out (is_direct d maxsecsize b todo) mode b k.session in
        Keeps s.log s'.log × ((0 < k.error) ⊎ IsServed lba k.count b s'.log)
  unfolding transfer_chunk
  chunk_moves maxsecsize lba todo b s geometry short =
      elim (Bool-cases (is_direct d maxsecsize b todo)) [
        | inl direct ↦
            let ((keeps, fine), le) =
              retry_moves lba (some b) n_retry s.log (before (chunk_limit d maxsecsize b todo) s)
                geometry short (λ e old. old) (inl (omega arith)) in
            rw direct (keeps, elim fine [ inl bad ↦ inl bad | inr good ↦ inr (inl good) ])
        | inr own ↦
            let s1 : Session = if is_writing mode then note (BiosCall.copy_in b) s else s in
            let (keeps_1, written) = copied_in_lem b s in
            let ((keeps, fine), le) =
              retry_moves lba none n_retry s1.log (before 1 s1) geometry (omega arith)
                (λ e old. old) (inl (omega arith)) in
            let k : Chunk = retry d mode lba none n_retry (before 1 s1) in
            let (keeps_2, read) = copied_out_lem b k.session in
            rw own (
              λ e old. keeps_2 e (keeps e (keeps_1 e old)),
              elim fine [
                | inl bad ↦ inl bad
                | inr good ↦ inr (
                    inr (
                      le,
                      Answered-Keeps lba k.count none k.session.log
                          ((copied_out false mode b k.session).log) keeps_2 good,
                      either_kept (BiosCall.copy_in b, 0) s1.log
                          ((copied_out false mode b k.session).log) (is_writing mode ≡ false)
                          (λ e old. keeps_2 e (keeps e old)) written,
                      read,
                    ))
              ],
            )
      ]
