-- ===== src/Share/Locks.antt =====
-- share/share.c: `access_check` and `lock_unlock`. An `unsigned long` is a number below 2 ^ 32.
pub mod Conflicts
pub mod RoundTrip
use fdkernel.Common.{
  ℕ, ◌+◌, ◌-◌, ◌%◌, ◌^◌, Bool, true, false, not, ◌&&◌, ◌||◌, List, [], ◌∷◌, ltb, leb, ◌==◌,
  if◌then◌else◌, Option, some, none, ℤ, pos, negsuc,
}
use fdkernel.Share.State.{File, Lock, Share, file_at, raise_critical}
use fdkernel.Share.Names.{fnmatches}

-- The end of the region and its length, after the correction for a sum that wraps.
unfoldable pub endofs : ℕ → ℕ → ℕ
endofs ofs len = if ltb ((ofs + len) % 2 ^ 32) ofs then 0xffff_ffff else (ofs + len) % 2 ^ 32

unfoldable pub clipped_len : ℕ → ℕ → ℕ
clipped_len ofs len = if ltb ((ofs + len) % 2 ^ 32) ofs then 0xffff_ffff - ofs else len

-- The test of the loop in `access_check`.
unfoldable pub blocks : Share → ℕ → List ℕ → ℕ → ℕ → Lock → Bool
blocks s psp filename ofs end l =
    l.used
    && ((psp == 0) || not (l.psp == psp))
    && fnmatches filename (file_at s l.fileno).filename
    && ((leb l.start ofs && ltb ofs l.end) || (ltb l.start end && leb end l.end))

unfoldable pub any_blocks : Share → ℕ → List ℕ → ℕ → ℕ → List Lock → Bool
any_blocks s psp filename ofs end [] = false
any_blocks s psp filename ofs end (l ∷ ls) =
    blocks s psp filename ofs end l || any_blocks s psp filename ofs end ls

unfoldable pub access_check : ℕ → ℕ → ℕ → ℕ → Bool → Share → ℤ × Share
access_check psp fileno ofs len allowcriter s =
    let end = endofs ofs len in
    if ltb (clipped_len ofs len) 1
    then (pos 0, s)
    else if any_blocks s psp (file_at s fileno).filename ofs end s.lock_table
    then (negsuc 32, if allowcriter then raise_critical fileno 14 s else s)
    else (pos 0, s)

-- The search for the lock to remove.
abbrev pub is_own_lock : ℕ → ℕ → ℕ → ℕ → Lock → Bool
is_own_lock psp fileno ofs end l =
    l.used && (l.psp == psp) && (l.fileno == fileno) && (l.start == ofs) && (l.end == end)

unfoldable pub release_lock : ℕ → ℕ → ℕ → ℕ → List Lock → Option (List Lock)
release_lock psp fileno ofs end [] = none
release_lock psp fileno ofs end (l ∷ ls) =
    let rest = release_lock psp fileno ofs end ls in
    if is_own_lock psp fileno ofs end l
    then some (record l { used = false } ∷ ls)
    else elim rest [ none ↦ none | some ls' ↦ some (l ∷ ls') ]

-- The first unused entry takes the new lock.
unfoldable pub insert_lock : Lock → List Lock → Option (List Lock)
insert_lock new [] = none
insert_lock new (l ∷ ls) =
    let rest = insert_lock new ls in
    if l.used then elim rest [ none ↦ none | some ls' ↦ some (l ∷ ls') ] else some (new ∷ ls)

abbrev pub new_lock : ℕ → ℕ → ℕ → ℕ → Lock
new_lock psp fileno ofs len = record {
  used = true;
  start = ofs;
  end = (ofs + len) % 2 ^ 32;
  fileno = fileno;
  psp = psp;
}

-- A search that fails returns `code`.
unfoldable pub or_code : ℤ → Option (List Lock) → Share → ℤ × Share
or_code code none s = (code, s)
or_code code (some ls) s = (pos 0, record s { lock_table = ls })

abbrev pub is_zero : ℤ → Bool
is_zero (pos n) = n == 0
is_zero (negsuc n) = false

unfoldable pub lock_unlock : ℕ → ℕ → ℕ → ℕ → Bool → Share → ℤ × Share
unfolding or_code
lock_unlock psp fileno ofs len unlock s =
    let end = endofs ofs len in
    let len' = clipped_len ofs len in
    if ltb len' 1
    then (pos 0, s)
    else if unlock
    then or_code (negsuc 32) (release_lock psp fileno ofs end s.lock_table) s
    else if is_zero (access_check 0 fileno ofs len' false s).0
    then or_code (negsuc 35) (insert_lock (new_lock psp fileno ofs len') s.lock_table) s
    else (negsuc 32, s)
