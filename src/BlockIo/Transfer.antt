-- ===== src/BlockIo/Transfer.antt =====
-- kernel/blockio.c: `dskxfer` with one block, and the outside world that it calls. `A` is what a
-- sector holds. The copy through `deblock_buf` for buffers in high memory leaves the data of a
-- transfer as it is and is left out.
use fdkernel.Common.{
  ℕ, ◌/◌, ◌%◌, ◌^◌, Bool, ◌&&◌, ◌||◌, Option, none, some, List, [], ◌∷◌, leb, ◌==◌, if◌then◌else◌,
}

pub record Request : Type 0 where
  pub r_command : ℕ
  pub r_start : ℕ
  pub r_huge : ℕ

abbrev pub c_input : ℕ
c_input = 4

abbrev pub c_output : ℕ
c_output = 8

abbrev pub c_outvfy : ℕ
c_outvfy = 9

abbrev pub dsk_write : ℕ
dsk_write = 1

abbrev pub dsk_read : ℕ
dsk_read = 2

abbrev pub dsk_write_int26 : ℕ
dsk_write_int26 = 3

abbrev pub dsk_read_int25 : ℕ
dsk_read_int25 = 4

-- What `block_error` answers; `other` is any other number.
pub data Reply : Type 0 where
  proceed retry give_up fail other : Reply

-- The drivers of the drives: `execrh` carries a request for one block out, with the status, the
-- buffer and the devices after it. `get_dpb` finds no parameter block where `present` is false.
pub record Driver (A : Type 0) : Type 1 where
  pub World : Type 0
  pub present : ℕ → Bool
  pub huge : ℕ → Bool
  pub execrh : ℕ → Request → A → World → ℕ × A × World

-- The block that a request names.
abbrev pub block_of : Request → ℕ
block_of r = if r.r_start == 65535 then r.r_huge else r.r_start

abbrev pub is_done : ℕ → Bool
is_done status = (status / 2 ^ 15 % 2 == 0) && (status / 2 ^ 8 % 2 == 1)

module _ {A : Type 0} (D : Driver A) where
  open D use {World, present, huge, execrh}

  -- The devices, the answers that the operator will give to errors, and `verify_ena`. An operator
  -- with no answer left fails the call.
  pub record Env : Type 0 where
    pub world : World
    pub replies : List Reply
    pub verify : Bool

  abbrev pub Transferred : Type 0
  Transferred = ℕ × A × Env

-- The command of a request, by the mode of the transfer: none for an illegal one.
unfoldable pub command : ℕ → Bool → Option ℕ
command mode verify =
    if mode == dsk_write
    then some (if verify then c_outvfy else c_output)
    else (if mode == dsk_write_int26
        then some c_output
        else (if (mode == dsk_read_int25) || (mode == dsk_read) then some c_input else none))

unfoldable pub request : ℕ → ℕ → Bool → Request
request cmd blkno huge = record {
  r_command = cmd;
  r_start = if huge || leb 65535 blkno then 65535 else blkno % 2 ^ 16;
  r_huge = blkno;
}

module _ {A : Type 0} (D : Driver A) where
  open D use {World, present, huge, execrh}

  abbrev finished : ℕ → A → World → List Reply → Env D → Transferred D
  finished code buf w rs env = (code, buf, record env { world = w; replies = rs })

  -- One round of the retry loop; `k` goes on from a failure that the operator is asked about.
  abbrev pub attempt :
      (ℕ → A → World → Transferred D)
      → ℕ
      → ℕ
      → Request
      → List Reply
      → A
      → World
      → Env D
      → Transferred D
  attempt k mode dsk r rs buf w env =
      let (status, buf', w') = execrh dsk r buf w in
      if is_done status
      then finished 0 buf' w' rs env
      else (if leb dsk_write_int26 mode then finished status buf' w' rs env else k status buf' w')

  -- The answers of `block_error` to a failure with this status.
  unfoldable pub answer : ℕ → ℕ → Request → List Reply → ℕ → A → World → Env D → Transferred D
  answer mode dsk r [] status buf w env = finished status buf w [] env
  answer mode dsk r (Reply.give_up ∷ rs) status buf w env = finished status buf w rs env
  answer mode dsk r (Reply.fail ∷ rs) status buf w env = finished status buf w rs env
  answer mode dsk r (Reply.proceed ∷ rs) status buf w env = finished 0 buf w rs env
  answer mode dsk r (Reply.other ∷ rs) status buf w env = answer mode dsk r rs status buf w env
  answer mode dsk r (Reply.retry ∷ rs) status buf w env =
      attempt (λ status' buf' w'. answer mode dsk r rs status' buf' w' env) mode dsk r rs buf w env

  unfoldable pub transfer : ℕ → ℕ → Option ℕ → ℕ → A → Env D → Transferred D
  transfer mode dsk none blkno buf env = (256, buf, env)
  transfer mode dsk (some cmd) blkno buf env =
      let r = request cmd blkno (huge dsk) in
      attempt (λ status buf' w'. answer mode dsk r env.replies status buf' w' env) mode dsk r
        env.replies buf env.world env

  unfoldable pub dskxfer : ℕ → ℕ → A → ℕ → Env D → Transferred D
  dskxfer dsk blkno buf mode env =
      if present dsk
      then transfer mode dsk (command mode env.verify) blkno buf env
      else (513, buf, env)
