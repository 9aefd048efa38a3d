-- ===== src/Share/State.antt =====
-- share/share.c: the two tables (`file_t`, `lock_t`) and what the code does to one entry.
-- `file_table` and `lock_table` are lists of the tables' lengths. An entry outside the table,
-- which the C code would read from other memory, reads as a blank one, and is not written.
use fdkernel.Common.{
  ℕ, ◌+◌, ◌-◌, ◌/◌, ◌%◌, Bool, List, [], ◌∷◌, get_or, set, replicate, ◌==◌, if◌then◌else◌,
}

pub record File : Type 0 where
  -- A byte array that holds a text closed by a zero byte.
  pub filename : List ℕ
  pub psp : ℕ
  pub openmode : ℕ
  pub sharemode : ℕ
  pub first_openmode : ℕ
  pub first_sharemode : ℕ

pub record Lock : Type 0 where
  pub used : Bool
  pub start : ℕ
  pub end : ℕ
  pub fileno : ℕ
  pub psp : ℕ

-- The registers of an interrupt 24h: drive number in AL and the error in DI.
pub record Critical : Type 0 where
  pub drive : ℕ
  pub error : ℕ

pub record Share : Type 0 where
  pub file_table : List File
  pub lock_table : List Lock
  -- The critical errors that were raised, newest first.
  pub criticals : List Critical

abbrev pub name_size : ℕ
name_size = 128

-- 128 bytes of name, a word and four bytes.
abbrev pub sizeof_file : ℕ
sizeof_file = 134

abbrev pub blank_file : File
blank_file = record {
  filename = replicate name_size 0;
  psp = 0;
  openmode = 0;
  sharemode = 0;
  first_openmode = 0;
  first_sharemode = 0;
}

abbrev pub blank_lock : Lock
blank_lock = record { used = Bool.false; start = 0; end = 0; fileno = 0; psp = 0 }

-- `init`: the tables, all bytes zero. `malloc` is taken to succeed.
unfoldable pub init : ℕ → ℕ → Share
init file_table_size_bytes lock_table_size = record {
  file_table = replicate (file_table_size_bytes / sizeof_file) blank_file;
  lock_table = replicate lock_table_size blank_lock;
  criticals = [];
}

abbrev pub file_at : Share → ℕ → File
file_at s fileno = get_or s.file_table fileno blank_file

abbrev pub first_byte : List ℕ → ℕ
first_byte bytes = get_or bytes 0 0

abbrev pub clear_name : File → File
clear_name f = record f { filename = set f.filename 0 0 }

-- `free_file_table_entry`.
unfoldable pub free_file_table_entry : ℕ → Share → Share
free_file_table_entry fileno s = record s {
  file_table = set s.file_table fileno (clear_name (file_at s fileno));
}

abbrev pub drive_of : List ℕ → ℕ
drive_of name =
    if first_byte name == 0
    then 0
    else if get_or name 1 0 == b':'
    then ((first_byte name + 256 - b'A') % 256)
    else 0

-- Raising interrupt 24h, after the entry is freed.
unfoldable pub raise_critical : ℕ → ℕ → Share → Share
unfolding free_file_table_entry
raise_critical fileno error s =
    let name = (file_at s fileno).filename in
    let freed = free_file_table_entry fileno s in
    record freed { criticals = record { drive = drive_of name; error = error } ∷ s.criticals }
