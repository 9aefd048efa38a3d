-- ===== src/Disk/Transfer.antt =====
-- kernel/dsk.c: `LBA_Transfer`. What the BIOS answers to each call is given; the calls are logged.
use fdkernel.Common.{
  ℕ, zero, suc, ◌+◌, ◌-◌, ◌*◌, ◌%◌, ◌^◌, Bool, true, false, not, ◌&&◌, ◌||◌, List, ◌∷◌, ltb, ◌==◌,
  if◌then◌else◌, Option, none, some,
}
use fdkernel.MemMgr.Walk.{adjust_far}
use fdkernel.Disk.Geometry.{Bpb, Chs, lba_to_chs, dma_max_transfer}

pub data LbaMode : Type 0 where
  lba_read : LbaMode
  lba_write : LbaMode
  lba_write_verify : LbaMode
  lba_verify : LbaMode
  lba_format : LbaMode

-- `(mode & 0xff00) == (LBA_READ & 0xff00)`, and the same for LBA_WRITE.
abbrev pub is_reading : LbaMode → Bool
is_reading LbaMode.lba_read = true
is_reading mode = false

abbrev pub is_writing : LbaMode → Bool
is_writing LbaMode.lba_write = true
is_writing LbaMode.lba_write_verify = true
is_writing mode = false

abbrev pub is_format : LbaMode → Bool
is_format LbaMode.lba_format = true
is_format mode = false

abbrev pub is_write_verify : LbaMode → Bool
is_write_verify LbaMode.lba_write_verify = true
is_write_verify mode = false

-- The flags of a drive, the bytes of a sector, and the geometry.
pub record Ddt : Type 0 where
  pub hard_disk : Bool
  pub lba : Bool
  pub wrtverify : Bool
  pub dma_transparent : Bool
  pub bpb_nbyte : ℕ
  pub geometry : Bpb

-- Segment and offset in memory; none is `DiskTransferBuffer`.
abbrev pub Address : Type 0
Address = Option (ℕ × ℕ)

-- The calls of the BIOS, for a place or for a packet, and the copies of a sector.
pub data BiosCall : Type 0 where
  chs_call : LbaMode → Chs → ℕ → Address → BiosCall
  lba_call : LbaMode → ℕ → ℕ → Address → BiosCall
  reset : BiosCall
  copy_in : ℕ × ℕ → BiosCall
  copy_out : ℕ × ℕ → BiosCall

-- The error code of each call, how many calls were made, the log of the calls with what was answered,
-- and the sectors of a track that the table at interrupt 1Eh names.
pub record Session : Type 0 where
  pub answers : ℕ → ℕ
  pub calls : ℕ
  pub log : List (BiosCall × ℕ)
  pub int1e_nsecs : ℕ

abbrev pub note : BiosCall → Session → Session
note c s = record s { log = (c, 0) ∷ s.log }

abbrev pub call : BiosCall → Session → ℕ × Session
call c s =
    (s.answers s.calls, record s { calls = s.calls + 1; log = (c, s.answers s.calls) ∷ s.log })

-- A call, and a second one if the first succeeded.
abbrev pub both : BiosCall → ℕ × Session → ℕ × Session
both c (e, s) = if e == 0 then call c s else (e, s)

-- The function that is called for a place.
abbrev pub chs_mode : LbaMode → LbaMode
chs_mode LbaMode.lba_write_verify = LbaMode.lba_write
chs_mode mode = mode

-- The number of blocks in a packet is a byte.
unfoldable pub lba_attempt : Ddt → LbaMode → ℕ → ℕ → Address → Session → ℕ × Session
lba_attempt d mode lba_address count address s =
    let blocks = count % 2 ^ 8 in
    if d.wrtverify || not (is_write_verify mode)
    then call (BiosCall.lba_call mode blocks lba_address address) s
    else both (BiosCall.lba_call LbaMode.lba_verify blocks lba_address address)
        (call (BiosCall.lba_call LbaMode.lba_write blocks lba_address address) s)

-- No more than is left of the track.
abbrev pub on_track : Bpb → Chs → ℕ → ℕ
on_track b c count =
    if ltb (b.bpb_nsecs + 1) ((c.sector + count) % 2 ^ 16)
    then b.bpb_nsecs + 1 - c.sector
    else count

unfoldable pub chs_attempt : LbaMode → Chs → ℕ → Address → Session → ℕ × Session
chs_attempt mode c count address s =
    let first_call = call (BiosCall.chs_call (chs_mode mode) c count address) s in
    if is_write_verify mode
    then both (BiosCall.chs_call LbaMode.lba_verify c count address) first_call
    else first_call

-- What comes of a chunk: the error code, the number of sectors, and the session; `stopped` is the
-- return of 1 for a sector that has no place.
pub record Chunk : Type 0 where
  pub error : ℕ
  pub count : ℕ
  pub stopped : Bool
  pub session : Session

abbrev pub chunk_of : ℕ → ℕ × Session → Chunk
chunk_of count (e, s) = record { error = e; count = count; stopped = false; session = s }

abbrev pub at_place : Bpb → LbaMode → ℕ → Address → Session → Option Chs → Chunk
at_place b mode count address s none = record {
  error = 1;
  count = count;
  stopped = true;
  session = s;
}
at_place b mode count address s (some c) =
    chunk_of (on_track b c count) (chs_attempt mode c (on_track b c count) address s)

-- One round of the loop of retries.
unfoldable pub try_once : Ddt → LbaMode → ℕ → ℕ → Address → Session → Chunk
try_once d mode lba_address count address s =
    if d.lba && not (is_format mode)
    then chunk_of count (lba_attempt d mode lba_address count address s)
    else at_place d.geometry mode count address s (lba_to_chs d.geometry lba_address)

abbrev pub n_retry : ℕ
n_retry = 5

-- After a failure the drive is reset, and the next round starts.
abbrev pub after_attempt : (Chunk → Chunk) → Chunk → Chunk
after_attempt again k =
    if k.error == 0 || k.stopped
    then k
    else again (record k { session = note BiosCall.reset k.session })

-- The loop, from the outcome of the round before it.
unfoldable pub retry : Ddt → LbaMode → ℕ → Address → ℕ → Chunk → Chunk
retry d mode lba_address address zero k = k
retry d mode lba_address address (suc fuel) k =
    let again : Chunk → Chunk = retry d mode lba_address address fuel in
    after_attempt again (try_once d mode lba_address k.count address k.session)

abbrev pub before : ℕ → Session → Chunk
before count s = record { error = 0; count = count; stopped = false; session = s }

-- How many sectors are moved at once, and where: to or from the buffer, or one sector through
-- `DiskTransferBuffer`.
abbrev pub chunk_limit : Ddt → ℕ → ℕ × ℕ → ℕ → ℕ
chunk_limit d maxsecsize (seg, ofs) todo =
    if d.dma_transparent then todo else dma_max_transfer maxsecsize seg ofs todo

abbrev pub is_direct : Ddt → ℕ → ℕ × ℕ → ℕ → Bool
is_direct d maxsecsize buffer todo =
    ltb (buffer.0) 40960 && ltb 0 (chunk_limit d maxsecsize buffer todo)

unfoldable pub transfer_chunk : Ddt → LbaMode → ℕ → ℕ → ℕ × ℕ → ℕ → Session → Chunk
transfer_chunk d mode maxsecsize lba_address buffer todo s =
    if is_direct d maxsecsize buffer todo
    then retry d mode lba_address (some buffer) n_retry
        (before (chunk_limit d maxsecsize buffer todo) s)
    else retry d mode lba_address none n_retry
        (before 1 (if is_writing mode then note (BiosCall.copy_in buffer) s else s))

pub record Result : Type 0 where
  pub error_code : ℕ
  pub transferred : ℕ
  pub session : Session

abbrev pub copied_out : Bool → LbaMode → ℕ × ℕ → Session → Session
copied_out direct mode buffer s =
    if not direct && is_reading mode then note (BiosCall.copy_out buffer) s else s

abbrev pub advance : Ddt → ℕ × ℕ → ℕ → ℕ × ℕ
advance d (seg, ofs) count = adjust_far seg ((ofs + count * d.bpb_nbyte) % 2 ^ 16)

-- The variables of the loop over the chunks.
pub record Progress : Type 0 where
  pub lba_address : ℕ
  pub buffer : ℕ × ℕ
  pub totaltodo : ℕ
  pub transferred : ℕ

abbrev pub advanced : Ddt → ℕ → Progress → Progress
advanced d count p = record {
  lba_address = (p.lba_address + count) % 2 ^ 32;
  buffer = advance d p.buffer count;
  totaltodo = (p.totaltodo + 2 ^ 16 - count) % 2 ^ 16;
  transferred = (p.transferred + count) % 2 ^ 16;
}

abbrev pub after_chunk :
    (Progress → Session → Result) → Ddt → LbaMode → ℕ → Progress → Chunk → Result
after_chunk go d mode maxsecsize p k =
    if k.error == 0
    then go (advanced d k.count p)
        (copied_out (is_direct d maxsecsize p.buffer p.totaltodo) mode p.buffer k.session)
    else record { error_code = k.error; transferred = p.transferred; session = k.session }

abbrev pub result : Progress → Session → Result
result p s = record { error_code = 0; transferred = p.transferred; session = s }

-- The loop, each round of which moves one sector at least.
unfoldable pub transfer_loop : Ddt → LbaMode → ℕ → ℕ → Progress → Session → Result
transfer_loop d mode maxsecsize zero p s = result p s
transfer_loop d mode maxsecsize (suc fuel) p s =
    let go : Progress → Session → Result = transfer_loop d mode maxsecsize fuel in
    if p.totaltodo == 0
    then result p s
    else after_chunk go d mode maxsecsize p
        (transfer_chunk d mode maxsecsize p.lba_address p.buffer p.totaltodo s)

-- A floppy's sectors of a track are written to the table at interrupt 1Eh.
abbrev pub set_table : Ddt → Session → Session
set_table d s =
    let nsecs = d.geometry.bpb_nsecs % 2 ^ 8 in
    if d.hard_disk || s.int1e_nsecs == nsecs
    then s
    else note BiosCall.reset (record s { int1e_nsecs = nsecs })

-- Only floppies are formatted.
unfoldable pub lba_transfer : Ddt → LbaMode → ℕ → ℕ × ℕ → ℕ → ℕ → Session → Result
lba_transfer d mode maxsecsize buffer lba_address totaltodo s =
    if is_format mode && d.hard_disk
    then record { error_code = 0; transferred = 0; session = s }
    else transfer_loop d mode maxsecsize totaltodo
        (record {
          lba_address = lba_address;
          buffer = adjust_far (buffer.0) (buffer.1);
          totaltodo = totaltodo;
          transferred = 0;
        })
        (set_table d s)
