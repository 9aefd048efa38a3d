-- ===== src/MemMgr/Alloc.antt =====
-- kernel/memmgr.c: `DosMemAlloc` and `DosMemLargest`. A null far pointer is segment 0.
use fdkernel.Common.{
  ℕ, zero, suc, ◌+◌, ◌-◌, ◌*◌, ◌/◌, ◌%◌, Bool, not, ◌&&◌, ◌||◌, ltb, leb, ◌==◌, if◌then◌else◌, set,
  Option, some, none, ℤ, pos, negsuc,
}
use fdkernel.MemMgr.State.{
  Mcb, Mem, Kernel, mcb_normal, mcb_last, free_psp, seg_mod, next_mcb, next_mcb_size, mcb_free,
  mcb_valid, set_type, set_size, set_psp, write, largest, first_fit, best_fit, last_fit,
  first_fit_uo, best_fit_uo, last_fit_uo, first_fit_u, best_fit_u, last_fit_u,
}
use fdkernel.MemMgr.Join.{join_mcbs}

-- A walk meets each of the 65536 segments at most once if it ends.
abbrev pub chain_fuel : ℕ
chain_fuel = 0x1_0000

-- The cases of the `switch` on the mode.
pub data Fit : Type 0 where
  last biggest best first : Fit

unfoldable pub fit_of : ℕ → Fit
fit_of mode =
    if mode == largest
    then Fit.biggest
    else if (mode == best_fit) || (mode == best_fit_u) || (mode == best_fit_uo)
    then Fit.best
    else if (mode == first_fit) || (mode == first_fit_u) || (mode == first_fit_uo)
    then Fit.first
    else Fit.last

-- How one block leaves the search: a destroyed chain, the jump to `stopIt`, or the next block with
-- `foundSeg` and `biggestSeg`.
pub data Visit : Type 0 where
  destroyed : Mem → Visit
  stop : ℕ → Mem → Visit
  go_on : ℕ → ℕ → Mem → Visit

unfoldable pub choose : Fit → ℕ → ℕ → ℕ → Mem → Visit
choose Fit.last p found big m = Visit.go_on p big m
choose Fit.biggest p found big m = Visit.go_on found big m
choose Fit.best p found big m =
    Visit.go_on (if (found == 0) || ltb (m p).m_size (m found).m_size then p else found) big m
choose Fit.first p found big m = Visit.stop p m

unfoldable pub consider : ℕ → Fit → ℕ → ℕ → ℕ → Mem → Visit
unfolding choose
consider size fit p found big m =
    let big' = if (big == 0) || ltb (m big).m_size (m p).m_size then p else big in
    if leb size (m p).m_size then choose fit p found big' m else Visit.go_on found big' m

unfoldable pub after_join : ℕ → Fit → ℕ → ℕ → ℕ → Option (ℤ × Mem) → Option Visit
unfolding consider
after_join size fit p found big none = none
after_join size fit p found big (some (negsuc e, m)) = some (Visit.destroyed m)
after_join size fit p found big (some (pos c, m)) = some (consider size fit p found big m)

unfoldable pub visit : ℕ → Fit → ℕ → ℕ → ℕ → Mem → Option Visit
unfolding after_join
visit size fit p found big m =
    if not (mcb_valid (m p))
    then some (Visit.destroyed m)
    else if mcb_free (m p)
    then after_join size fit p found big (join_mcbs chain_fuel p m)
    else some (Visit.go_on found big m)

-- The loop over the blocks. At the end of the chain the answer is `go_on`.
unfoldable pub search_blocks : ℕ → ℕ → Fit → ℕ → ℕ → ℕ → Mem → Option Visit
unfolding visit
search_blocks zero size fit p found big m = none
search_blocks (suc fuel) size fit p found big m = elim (visit size fit p found big m) [
  | none ↦ none
  | some v ↦ elim v [
    | destroyed m' ↦ some (Visit.destroyed m')
    | stop q m' ↦ some (Visit.stop q m')
    | go_on found' big' m' ↦
        let rest = search_blocks fuel size fit (next_mcb m' p) found' big' m' in
        if (m' p).m_type == mcb_last then some (Visit.go_on found' big' m') else rest
  ]
]

-- Where the search starts: at the upper memory, if it is linked and the mode asks for it.
unfoldable pub search_start : Kernel → ℕ → ℕ → ℕ
search_start k size mode =
    let tmpmode = if mode == largest then k.mem_access_mode else mode in
    if (k.uppermem_link % 2 == 1)
      && not (k.uppermem_root == 0xffff)
      && (not (mode == largest) || (size == 0xffff))
      && not ((tmpmode / 64) % 4 == 0)
    then k.uppermem_root
    else k.first_mcb

-- The two ways to split a block of another size: from its end, or from its beginning. The results
-- are the segment of the new block and the memory.
unfoldable pub split_end : ℕ → ℕ → Mem → ℕ × Mem
split_end size p m =
    let m1 = set_size m p (((m p).m_size + seg_mod - (size + 1) % seg_mod) % seg_mod) in
    let found = next_mcb m1 p in
    let m2 = set_type m1 found (m1 p).m_type in
    let m3 = set_type m2 p mcb_normal in
    let m4 = set_psp m3 p free_psp in (found, set_size m4 found size)

unfoldable pub split_begin : ℕ → ℕ → Mem → ℕ × Mem
split_begin size found m =
    let p = next_mcb_size found size in
    let m1 = set_type m p (m found).m_type in
    let m2 = set_size m1 p (((m1 found).m_size + 2 * seg_mod - size - 1) % seg_mod) in
    let m3 = set_type m2 found mcb_normal in
    let m4 = set_psp m3 p free_psp in (found, set_size m4 found size)

abbrev pub is_last_mode : ℕ → Bool
is_last_mode mode = (mode == last_fit) || (mode == last_fit_uo) || (mode == last_fit_u)

-- What `DosMemAlloc` returns and stores: its code, `*para` and `*asize` if they were written, and
-- the memory.
pub record AllocResult : Type 0 where
  pub code : ℤ
  pub para : Option ℕ
  pub asize : Option ℕ
  pub mem : Mem

abbrev pub owned : ℕ → Mcb → Mcb
owned psp b = record b { m_psp = psp; m_name = set b.m_name 0 0 }

-- From the label `stopIt`.
unfoldable pub take_block : ℕ → ℕ → ℕ → ℕ → Option ℕ → Mem → AllocResult
unfolding split_end split_begin
take_block psp size mode found asize m =
    let (at, m') =
      if not (mode == largest) && not (size == (m found).m_size)
      then (if is_last_mode mode then split_end size found m else split_begin size found m)
      else (found, m) in
    record { code = pos 0; para = some at; asize = asize; mem = write m' at (owned psp (m' at)) }

unfoldable pub no_block : Bool → ℕ → Mem → AllocResult
no_block wants big m = record {
  code = negsuc 7;
  para = none;
  asize = if wants then some (if big == 0 then 0 else (m big).m_size) else none;
  mem = m;
}

abbrev pub destroyed_chain : Mem → AllocResult
destroyed_chain m = record { code = negsuc 6; para = none; asize = none; mem = m }

abbrev pub retries : Kernel → ℕ → Bool
retries k mode =
    not (mode == largest)
    && (mode / 128) % 2 == 1
    && k.uppermem_link % 2 == 1
    && not (k.uppermem_root == 0xffff)

-- After the loop. `again` is the whole search once more without FIRST_FIT_U; it is read only if
-- the code jumps to `searchAgain`.
unfoldable pub finish_search :
    Kernel → ℕ → ℕ → Bool → (Mem → Option AllocResult) → Visit → Option AllocResult
unfolding take_block no_block
finish_search k size mode wants again (Visit.destroyed m) = some (destroyed_chain m)
finish_search k size mode wants again (Visit.stop p m) =
    some (take_block k.cu_psp size mode p none m)
finish_search k size mode wants again (Visit.go_on found big m) =
    let largest_one = (mode == largest) && not (big == 0) && leb size (m big).m_size in
    let found' = if largest_one then big else found in
    let asize = if largest_one then some (m big).m_size else none in
    if (found' == 0) || (m found').m_size == 0
    then (if retries k mode then again m else some (no_block wants big m))
    else some (take_block k.cu_psp size mode found' asize m)

abbrev pub search : Kernel → ℕ → ℕ → Mem → Option Visit
search k size mode m = search_blocks chain_fuel size (fit_of mode) (search_start k size mode) 0 0 m

abbrev pub and_then : Option Visit → (Visit → Option AllocResult) → Option AllocResult
and_then none f = none
and_then (some v) f = f v

-- The second search never repeats: its mode has not the bit FIRST_FIT_U.
unfoldable pub dos_mem_alloc : ℕ → ℕ → Bool → Kernel → Option AllocResult
unfolding finish_search search_blocks search_start fit_of
dos_mem_alloc size mode wants k = and_then (search k size mode k.mem) (
    finish_search k size mode wants λ m.
      and_then (search k size (mode - 128) m)
        (finish_search k size (mode - 128) wants (λ m'. none)))
