-- ===== src/Lib.antt =====
-- A verification library for the FreeDOS DBCS kernel (fdkernel): models of parts of the C code,
-- and theorems about them.
--
-- Conventions. Bytes, words and double words are native numbers, and every wrap of the C types
-- is written out by `%`. A C `int` result is an integer `ℤ`, whose negative values are the
-- negated DOS error numbers. A table is a list; a read outside of it yields a blank entry and a
-- write outside of it changes nothing, where the C code would touch other memory.
-- State is passed explicitly: an operation takes the state and returns the new one.
--
-- Parts and files.
-- - Common: tests on numbers, lists, integers.
-- - Share (share/share.c), the resident file sharing and locking service, which the kernel calls
--   through interrupt 2Fh. State holds the tables `file_table` and `lock_table` (`file_t`,
--   `lock_t`), Names the string routines, Modes the action tables, Open `open_check`,
--   `do_open_check` and `close_file`, Locks `access_check` and `lock_unlock`, and Handler
--   `handler2f` on the registers. The text at a far pointer is an argument of the handler.
--   Outcome, Agreement and Closed, below Open, and Invariant hold the proofs.
--   An interrupt 24h is recorded in the state; the code ignores what its handler answers.
--   Not modelled: the command line and the installation (`main`), and the failure of `malloc`.
-- - MemMgr (kernel/memmgr.c, hdr/mcb.h), the memory manager. A control block fills a paragraph, so
--   memory is a function from segments to control blocks (State). Join holds `joinMCBs`, Alloc
--   `DosMemAlloc`, Largest `DosMemLargest`, Resize `DosMemFree` and `DosMemChange`, Walk
--   `DosMemCheck`, `FreeProcessMem`, `DosUmbLink` and `adjust_far`. Chain is the abstract view: the
--   list of the blocks of a sound chain. A walk takes 65536 rounds of fuel: a sound chain has at most
--   one block to a segment, so that is enough. Not modelled: `show_chain`, `mcb_print` and messages.
-- - Clock (kernel/systime.c, kernel/sysclk.c), dates, times and the clock driver. Calendar holds the
--   day arithmetic, Driver `clk_driver` over the two hardware clocks as state, SysTime the four DOS
--   functions, which call the driver. The loop over the years takes 200 rounds and the one over the
--   months 13, since 65536 days are less than 180 years.
--
-- - Fat (kernel/fattab.c, hdr/dcb.h, hdr/buffer.h, hdr/fat.h), the FAT table of a drive, built with
--   WITHFAT32. State holds the drive: its parameter block and a buffer for each block. `getblock` of
--   kernel/blockio.c is seen through what it promises, the buffer of a block, or NULL where the block
--   cannot be read. FreeCount holds `read_fsinfo`, `write_fsinfo` and the
--   count of free clusters, Link `link_fat` for the three formats,
--   `next_cluster` and `is_free_cluster`. Packed is the abstract view of
--   a FAT12, one array of bytes; Places and Twelve relate the sectors to it. `clusterMessage` prints
--   only and is left out.
-- - BlockIo (kernel/blockio.c), the block cache. Cache holds the ring of buffers as the list from
--   `firstbuf` on, with `searchblock`, `getblk`, `flush1`, `flush`, `flush_buffers`, `setinvld`,
--   `dirty_buffers` and `DeleteBlockInBufferCache`; Transfer holds `dskxfer` for one block. The drivers
--   are a record with `execrh`, and Device says what an honest one does; the operator's answers to
--   errors are a list, and one who has no answer left fails the call. Ring, Coherence, Fetch, Miss,
--   GetBlock and Sync hold the proofs. Not modelled: `AllocateHMASpace`, which works on addresses, the
--   call of the redirector in `flush`, and the copy through `deblock_buf`.
-- - Handles (kernel/dosfns.c), the system file table and the handles of a process. State holds the
--   chain of tables, `ps_filetab` and the searches; Calls `DosCloseSft`, `DosClose`, `DosForceDup`,
--   `DosDup` and `CloneHandle`; Open `DosOpenSft` and `DosOpen`. What the path, the redirector, SHARE,
--   the file system and the drivers answer is an argument. A handle of 255 is free, so an index of
--   the tables is below 255. Table, Counts, Live, Opened, Opening, Step and DupClose hold the proofs.
--   Not modelled: the fields of an entry that count no handle and the rest of kernel/dosfns.c.
-- - Clusters (kernel/fatfs.c), the chains of clusters of files. Chain holds `find_fat_free` and
--   `extend`, Walk `map_cluster` and `wipe_out_clusters`. The functions of kernel/fattab.c are a record,
--   and Laws says what a table does that can be read and written, and relates the search to it. The
--   search for a free cluster takes as many rounds as the table has entries, the walk as many as
--   clusters lie ahead, and freeing a chain one more than it has clusters. Extend, Follow, Mapping,
--   Walking and Wipe hold the proofs; Twelve fills the record with the functions of Fat for a FAT12.
--   Not modelled: directories and the rest of kernel/fatfs.c.
-- - Fcb (kernel/fcbfns.c, hdr/fcb.h, kernel/fatdir.c, kernel/nls.c), file control blocks, built with
--   DBCS. Dbcs holds the tests for characters of two bytes, Name83 `ConvertName83ToNameSZ` and
--   `ConvertNameSZToName83`, Parse `FcbParseFname`, `GetNameField` and `FcbNameInit`, Records
--   `FcbReadWrite`, `FcbRandomBlockIO`, `FcbRandomIO` and the arithmetic of records. Upcasing, the
--   valid drives and what the file system answers are arguments. Fields, RoundTrip and Transfer hold
--   the proofs. Not modelled: the calls that open, close, search and rename.
-- - Printf (kernel/prf.c), formatted output. Numbers holds `ltob` and `put_unsigned`, Format
--   `do_printf`, on 16-bit ints and 32-bit longs, as the text that it writes. The fuel of `ltob` is 32,
--   since a number of 32 bits has no more digits; that of `do_printf` is the length of the format and
--   one, and a run that used it up is told from one that met an argument of another kind than the format
--   asks for. Digits, Laws and Scan hold the proofs. Not modelled: the console, and what such an
--   argument prints.
-- - Disk (kernel/dsk.c, kernel/initdisk.c), disk transfers and the format of a new FAT. Geometry holds
--   `LBA_to_CHS` and `DMA_max_transfer`, Transfer `LBA_Transfer`, with the calls of the BIOS as a log
--   and their error codes as a stream that is given. A round of its loop moves one sector at least,
--   so the number of sectors is enough fuel; a drive is tried five times, as in the code. Sizes holds
--   `CalculateFATData`, whose loop doubles a byte, so eight rounds are enough. Calls, Sectors, Moved,
--   Whole, Tries and Fits hold the proofs. Not modelled: the requests of the driver, the media check and the partitions.
-- - Config (kernel/config.c), the lines of the configuration file. Words holds `skipwh`, `scan`,
--   `strcaseequal` and `LookUp`, with the bits of `MenuLine` as the list of their numbers, Numbers
--   `GetNumArg` on an `int` of 16 bits, Settings the handlers of FILES, FCBS and LASTDRIVE. RoundTrip
--   holds the proofs. Not modelled: the other lines, the menus and the start of programs.
-- - Strings (kernel/strings.c), the string routines in C: Routines and Laws. A string is the list of
--   the bytes from its pointer on; whether `char` is signed is an argument.
--
-- Not modelled: the rest of the file system, the rest of the disk driver, the character drivers,
-- processes, the DOS call dispatch, start-up, and the PC-98 port.
pub mod Common
pub mod Share
pub mod MemMgr
pub mod Clock
pub mod Fat
pub mod BlockIo
pub mod Handles
pub mod Clusters
pub mod Fcb
pub mod Printf
pub mod Disk
pub mod Config
pub mod Strings
