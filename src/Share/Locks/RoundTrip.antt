-- ===== src/Share/Locks/RoundTrip.antt =====
-- share/share.c: a lock that `lock_unlock` granted can be taken back, and nothing else changes.
use fdkernel.Common.{
  ℕ, ◌+◌, ◌^◌, ◌<◌, ◌≡◌, inl, inr, refl, true, false, List, [], ◌∷◌, arith, if◌then◌else◌, ltb, ℤ,
  pos, negsuc, Bool-cases, ap, some, Option-cases, All, sym, ◌∙◌,
}
use fdkernel.Share.State.{Lock, Share, file_at}
use fdkernel.Share.Names.{text, fnmatches_iff}
use fdkernel.Share.Locks.{
  blocks, any_blocks, access_check, is_own_lock, release_lock, insert_lock, new_lock, or_code,
  lock_unlock,
}
use fdkernel.Share.Locks.Conflicts.{endofs-eq}

-- The active locks, in table order.
unfoldable pub active : List Lock → List Lock
active [] = []
active (l ∷ ls) = if l.used then l ∷ active ls else active ls

module _ (psp fileno ofs end : ℕ) where
  -- No active lock is the one that is asked for.
  abbrev pub NotHeld : List Lock → Type 0
  NotHeld ls = All (λ l. is_own_lock psp fileno ofs end l ≡ false) ls

  -- The first lock that fits after an insertion is the inserted one.
  pub release_lock-insert_lock :
      (new : Lock) (ls ls' : List Lock)
      → is_own_lock psp fileno ofs end new ≡ true
      → NotHeld ls
      → insert_lock new ls ≡ some ls'
      → (back : List Lock) × (release_lock psp fileno ofs end ls' ≡ some back)
        × (active back ≡ active ls)
  unfolding release_lock insert_lock active
  release_lock-insert_lock new [] ls' own held e = absurd (cc)
  release_lock-insert_lock new (l ∷ ls) ls' own held e = elim (Bool-cases l.used) [
    | inr unused ↦
        let at : new ∷ ls ≡ ls' = ground arith in
        (record new { used = false } ∷ ls, rw (← at, own) refl, rw unused refl)
    | inl used ↦ elim (Option-cases (insert_lock new ls)) [
      | inl full ↦ absurd (ground arith)
      | inr (rest, room) ↦
          let at : l ∷ rest ≡ ls' = ground arith in
          let (back, taken, same) = release_lock-insert_lock new ls rest own held.1 room in
          (l ∷ back, rw (← at, held.0, taken) refl, simp used (ap (λ t. l ∷ t) same))
    ]
  ]

-- A region on which `access_check` finds no lock of any process is not held by this one.
NotHeld-of_any_blocks :
    (s : Share) (psp fileno ofs end : ℕ)
    → ofs < end
    → (ls : List Lock) → any_blocks s 0 (file_at s fileno).filename ofs end ls ≡ false
    → NotHeld psp fileno ofs end ls
unfolding any_blocks blocks
NotHeld-of_any_blocks s psp fileno ofs end h [] e = tt
NotHeld-of_any_blocks s psp fileno ofs end h (l ∷ ls) e = (
  elim (Bool-cases (is_own_lock psp fileno ofs end l)) [
    | inr other ↦ other
    | inl own ↦
        let at : fileno ≡ l.fileno = ground arith in
        let named =
          (fnmatches_iff (file_at s fileno).filename (file_at s l.fileno).filename).1
            (ap (λ k. text (file_at s k).filename) at) in
        ground arith
  ],
  NotHeld-of_any_blocks s psp fileno ofs end h ls (ground arith),
)

new_lock-own :
    (psp fileno ofs len : ℕ)
    → ofs + len < 2 ^ 32
    → is_own_lock psp fileno ofs (ofs + len) (new_lock psp fileno ofs len) ≡ true
new_lock-own psp fileno ofs len h = ground arith

-- The state after a lock or an unlock is the one before it but for the lock table.
abbrev pub SameFiles : Share → Share → Type 0
SameFiles s t = (t.file_table ≡ s.file_table) × (t.criticals ≡ s.criticals)

-- `lock_unlock` on a region of at least one byte that does not wrap.
module _ (psp fileno ofs len : ℕ) (s : Share) (p : 0 < len) (h : ofs + len < 2 ^ 32) where
  pub lock_form : lock_unlock psp fileno ofs len false s ≡ (
      if any_blocks s 0 (file_at s fileno).filename ofs (ofs + len) s.lock_table
      then (negsuc 32, s)
      else or_code (negsuc 35) (insert_lock (new_lock psp fileno ofs len) s.lock_table) s)
  unfolding lock_unlock access_check
  lock_form =
      let (end_eq, len_eq) = endofs-eq ofs len (omega arith) p h in
      let nonempty : ltb len 1 ≡ false = ground arith in
      rw (len_eq, nonempty)
        (rw (end_eq, len_eq, nonempty)
          (elim (Bool-cases
            (any_blocks s 0 (file_at s fileno).filename ofs (ofs + len) s.lock_table)) [
              | inl b ↦ rw b
              | inr b ↦ rw b
            ]))

  pub unlock_form :
      lock_unlock psp fileno ofs len true s
      ≡ or_code (negsuc 32) (release_lock psp fileno ofs (ofs + len) s.lock_table) s
  unfolding lock_unlock
  unlock_form =
      let (end_eq, len_eq) = endofs-eq ofs len (omega arith) p h in
      let nonempty : ltb len 1 ≡ false = ground arith in rw (len_eq, nonempty) (rw end_eq)

-- A lock that was granted on a region of at least one byte that does not wrap can be released by
-- the same process over the same entry and region, and the release restores the active locks.
pub unlock-lock :
    (psp fileno ofs len : ℕ) (s t : Share)
    → 0 < len
    → ofs + len < 2 ^ 32
    → lock_unlock psp fileno ofs len false s ≡ (pos 0, t)
    → (u : Share) × (lock_unlock psp fileno ofs len true t ≡ (pos 0, u))
      × SameFiles s u
      × (active u.lock_table ≡ active s.lock_table)
unfolding or_code
unlock-lock psp fileno ofs len s t p h granted =
    let form = sym (lock_form psp fileno ofs len s p h) ∙ granted in
    elim (Bool-cases (any_blocks s 0 (file_at s fileno).filename ofs (ofs + len) s.lock_table)) [
      | inl b ↦ absurd (let refused = rw b at form in cc)
      | inr b ↦ elim (Option-cases (insert_lock (new_lock psp fileno ofs len) s.lock_table)) [
        | inl full ↦ absurd (let refused = rw (b, full, or_code) at form in cc)
        | inr (ls, room) ↦
            let after : record s { lock_table = ls } ≡ t =
              ap (λ (r : ℤ × Share). r.1) (rw (b, room, or_code) at form) in
            let (back, taken, same) =
              release_lock-insert_lock psp fileno ofs (ofs + len) (new_lock psp fileno ofs len)
                s.lock_table ls (new_lock-own psp fileno ofs len h)
                (NotHeld-of_any_blocks s psp fileno ofs (ofs + len) (omega arith) s.lock_table b)
                room in
            (
              record s { lock_table = back },
              rw (← after) (
                  unlock_form psp fileno ofs len (record s { lock_table = ls }) p h
                  ∙ (rw (taken, or_code))),
              (refl, refl),
              same,
            )
      ]
    ]
