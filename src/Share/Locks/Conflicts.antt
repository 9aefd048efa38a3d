-- ===== src/Share/Locks/Conflicts.antt =====
-- share/share.c: which locks stop an access.
use fdkernel.Common.{
  ℕ, zero, suc, ◌+◌, ◌^◌, ◌<◌, ◌≡◌, ◌≢◌, ◌⊎◌, ◌↔◌, inl, inr, refl, Bool, true, false, List, [], ◌∷◌,
  arith, if◌then◌else◌, ltb, length, get_or, pos, negsuc, Bool-cases,
}
use fdkernel.Share.State.{Lock, Share, file_at, blank_lock, raise_critical}
use fdkernel.Share.Names.{text, fnmatches_iff}
use fdkernel.Share.Locks.{blocks, any_blocks, access_check, endofs, clipped_len}

-- Both regions are half open, and some byte lies in both.
abbrev pub Overlaps : ℕ → ℕ → Lock → Type 0
Overlaps ofs end l = (ofs < l.end) × (l.start < end)

-- The lock lies inside the region with room on both sides.
abbrev pub Encloses : ℕ → ℕ → Lock → Type 0
Encloses ofs end l = (ofs < l.start) × (l.end < end)

-- An active lock on the file `filename`, of another process than `psp` (any, if `psp` is 0).
abbrev pub IsForeign : Share → ℕ → List ℕ → Lock → Type 0
IsForeign s psp filename l =
    (l.used ≡ true)
    × ((psp ≡ 0) ⊎ (l.psp ≢ psp))
    × (text filename ≡ text (file_at s l.fileno).filename)

abbrev pub Stops : Share → ℕ → List ℕ → ℕ → ℕ → Lock → Type 0
Stops s psp filename ofs end l =
    IsForeign s psp filename l × Overlaps ofs end l × ¬ Encloses ofs end l

pub blocks_iff :
    (s : Share) (psp : ℕ) (filename : List ℕ) (ofs end : ℕ) (l : Lock)
    → ofs < end
    → (blocks s psp filename ofs end l ≡ true) ↔ Stops s psp filename ofs end l
unfolding blocks
blocks_iff s psp filename ofs end l h =
    ground (arith, fnmatches_iff filename (file_at s l.fileno).filename)

-- Some entry of the table stops the access.
abbrev pub SomeStops : Share → ℕ → List ℕ → ℕ → ℕ → List Lock → Type 0
SomeStops s psp filename ofs end ls =
    (k : ℕ) × (k < length ls) × Stops s psp filename ofs end (get_or ls k blank_lock)

module _ (s : Share) (psp : ℕ) (filename : List ℕ) (ofs end : ℕ) (h : ofs < end) where
  SomeStops-of_any :
      (ls : List Lock)
      → any_blocks s psp filename ofs end ls ≡ true
      → SomeStops s psp filename ofs end ls
  unfolding any_blocks
  SomeStops-of_any [] e = absurd (cc)
  SomeStops-of_any (l ∷ ls) e = elim (Bool-cases (blocks s psp filename ofs end l)) [
    | inl b ↦ (0, omega arith, (blocks_iff s psp filename ofs end l h).0 b)
    | inr b ↦
        let (k, below, stops) = SomeStops-of_any ls (ground arith) in (suc k, omega arith, stops)
  ]

  any_of_SomeStops :
      (ls : List Lock) (k : ℕ)
      → k < length ls
      → Stops s psp filename ofs end (get_or ls k blank_lock)
      → any_blocks s psp filename ofs end ls ≡ true
  unfolding any_blocks
  any_of_SomeStops [] k below stops = absurd (omega arith)
  any_of_SomeStops (l ∷ ls) zero below stops =
      rw ((blocks_iff s psp filename ofs end l h).1 stops) refl
  any_of_SomeStops (l ∷ ls) (suc k) below stops =
      let rest = any_of_SomeStops ls k (omega arith) stops in ground arith

-- The arithmetic of a region of 32-bit offsets: not empty, it ends after its start.
pub endofs-eq :
    (ofs len : ℕ)
    → ofs < 2 ^ 32
    → 0 < len
    → ofs + len < 2 ^ 32
    → (endofs ofs len ≡ ofs + len) × (clipped_len ofs len ≡ len)
unfolding endofs clipped_len
endofs-eq ofs len h p k = ground arith

-- For a region of at least one byte that does not wrap, `access_check` returns 0 exactly when no
-- active lock of another process on a file of the same name overlaps the region, except for a
-- lock that lies inside the region with room on both sides; otherwise it returns -33. It changes
-- nothing but what an interrupt 24h, if it is allowed, changes.
pub access_check_iff :
    (psp fileno ofs len : ℕ) (s : Share) (allow : Bool)
    → 0 < len
    → ofs + len < 2 ^ 32
    → ((access_check psp fileno ofs len allow s ≡ (pos 0, s))
        × ¬ SomeStops s psp (file_at s fileno).filename ofs (ofs + len) s.lock_table)
      ⊎ ((access_check psp fileno ofs len allow s
            ≡ (negsuc 32, if allow then raise_critical fileno 14 s else s))
          × SomeStops s psp (file_at s fileno).filename ofs (ofs + len) s.lock_table)
unfolding access_check
access_check_iff psp fileno ofs len s allow p h =
    let (end_eq, len_eq) = endofs-eq ofs len (omega arith) p h in
    let nonempty : ltb len 1 ≡ false = ground arith in
    elim (Bool-cases (any_blocks s psp (file_at s fileno).filename ofs (ofs + len) s.lock_table)) [
      | inl b ↦ inr (
        rw (end_eq, len_eq, nonempty, b),
        SomeStops-of_any s psp (file_at s fileno).filename ofs (ofs + len) (omega arith)
            s.lock_table b,
      )
      | inr b ↦ inl (
        rw (end_eq, len_eq, nonempty, b),
        λ w.
            let yes' =
              any_of_SomeStops s psp (file_at s fileno).filename ofs (ofs + len) (omega arith)
                s.lock_table w.0 w.1 w.2 in
            cc,
      )
    ]
