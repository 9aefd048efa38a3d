-- ===== src/Fcb/Transfer.antt =====
-- Records read and written through an FCB by kernel/fcbfns.c.
use fdkernel.Common.{
  ℕ, ◌+◌, ◌-◌, ◌*◌, ◌/◌, ◌%◌, ◌^◌, ◌≤◌, ◌<◌, ◌≡◌, ◌≢◌, ◌↔◌, ◌⊎◌, zero, suc, inl, inr, refl, true,
  false, ◌&&◌, ltb, leb, ◌==◌, Option, none, some, arith, ap, ◌∙◌, Bool-cases, pos, ℕ_discrete,
  div_le, unique_lem, split_lem,
}
use fdkernel.Fcb.Parse.{Fcb}
use fdkernel.Fcb.Records.{
  fcb_next_record, fcb_rec, fcb_set_random, fcb_calc_rec, Mode, Answers, TransferEnd, update_fcb,
  finish_part, after_transfer, fcb_read_write, fcb_random_block_io, fcb_success,
}

-- `FcbCalcRec` goes to the record whose number is in the field for random access, as far as block
-- and record can hold it, and `FcbSetRandom` writes this number back.
pub fcb_set_random-fcb_calc_rec :
    (f : Fcb)
    → (fcb_rec (fcb_calc_rec f) ≡ f.fcb_rndm % 2 ^ 23)
      × ((fcb_set_random (fcb_calc_rec f)).fcb_rndm ≡ f.fcb_rndm % 2 ^ 23)
unfolding fcb_rec fcb_calc_rec fcb_set_random
fcb_set_random-fcb_calc_rec f = (omega arith, omega arith)

pub fcb_rec-fcb_next_record :
    (f : Fcb)
    → f.fcb_curec < 128
    → f.fcb_cublock < 2 ^ 16
    → fcb_rec (fcb_next_record f) ≡ (fcb_rec f + 1) % 2 ^ 23
unfolding fcb_rec fcb_next_record
fcb_rec-fcb_next_record f rec_short block_short = ground arith

-- What is zeroed, where the records that were touched take `whole` bytes: in a read exactly the bytes
-- from the last one transferred up to there.
abbrev pub Zeroes : Mode → ℕ → ℕ → ℕ → Option (ℕ × ℕ) → Type 0
Zeroes mode dta t whole none = (mode.is_read ≡ false) ⊎ (t ≡ whole)
Zeroes mode dta t whole (some (offset, count)) =
    (mode.is_read ≡ true) × (offset ≡ dta + t) × (0 < count) × (t + count ≡ whole)

next_record-rndm : (f : Fcb) → (fcb_next_record f).fcb_rndm ≡ f.fcb_rndm
unfolding fcb_next_record
next_record-rndm f = elim (Bool-cases (leb 128 ((f.fcb_curec + 1) % 2 ^ 8))) [
  | inl carry ↦ rw carry refl
  | inr plain ↦ rw plain refl
]

-- The bytes of the records that `t` bytes touch.
abbrev pub touched : ℕ → ℕ → ℕ
touched recsiz t = (t + recsiz - 1) / recsiz * recsiz

distribute : (m q k : ℕ) → m * (q + k) ≡ q * m + k * m
distribute m q k = grind arith

split_product : (m q n : ℕ) → q ≤ n → m * n ≡ q * m + (n - q) * m
split_product m q n le =
    let sum : n ≡ q + (n - q) = omega arith in ap (λ x. m * x) sum ∙ distribute m q (n - q)

quotient_le : (m q n : ℕ) → 0 < m → q * m ≤ m * n → q ≤ n
quotient_le m q n positive le = grind arith

quotient_lt : (m q n : ℕ) → q * m < m * n → q < n
quotient_lt m q n less = grind arith

suc_times : (q m : ℕ) → suc q * m ≡ q * m + m
suc_times q m = grind arith

touched_all :
    (recsiz n t q r : ℕ)
    → 0 < recsiz
    → t ≡ q * recsiz + r
    → r < recsiz
    → t ≤ recsiz * n
    → t + (recsiz * n - t) % recsiz ≡ touched recsiz t
touched_all recsiz n t q zero positive is short inside =
    let parts = split_product recsiz q n (quotient_le recsiz q n positive (omega arith)) in
    let up = (unique_lem (t + recsiz - 1) q (recsiz - 1) recsiz (omega arith) (omega arith)).0 in
    let down = (unique_lem (recsiz * n - t) (n - q) 0 recsiz positive (omega arith)).1 in
    rw (up, down) (omega arith)
touched_all recsiz n t q (suc r) positive is short inside =
    let less = quotient_lt recsiz q n (omega arith) in
    let parts = split_product recsiz (suc q) n less in
    let more = suc_times q recsiz in
    let up = (unique_lem (t + recsiz - 1) (suc q) r recsiz (omega arith) (omega arith)).0 in
    let down =
      (unique_lem (recsiz * n - t) (n - suc q) (recsiz - suc r) recsiz (omega arith)
        (omega arith)).1 in
    rw (up, down) (omega arith)

-- What follows a transfer of `t` bytes of `size`.
abbrev pub Finished : Mode → ℕ → ℕ → ℕ → ℕ → ℕ → TransferEnd → Type 0
Finished mode dta recsiz t size rndm d =
    ((d.code ≡ fcb_success) ↔ (t ≡ size))
    × (d.fcb.fcb_rndm ≡ rndm)
    × Zeroes mode dta t (touched recsiz t) d.zeroed

finish_lem :
    (mode : Mode) (dta recsiz t part size : ℕ) (f : Fcb)
    → dta + size < 2 ^ 16
    → t + part ≤ size
    → t + part ≡ touched recsiz t
    → t ≢ size
    → Finished mode dta recsiz t size f.fcb_rndm (finish_part mode dta t part f)
finish_lem mode dta recsiz t part size f fits inside whole short =
    elim (Bool-cases (mode.is_read && ltb 0 part)) [
      | inl zeroing ↦
          rw (zeroing, finish_part)
            (
              (λ e. absurd (omega arith), λ e. absurd (short e)),
              next_record-rndm f,
              (ground (arith, zeroing), omega arith, ground (arith, zeroing), whole),
            )
      | inr plain ↦
          rw (plain, finish_part)
            ((λ e. absurd (omega arith), λ e. absurd (short e)), refl, ground (arith, plain, whole))
    ]

rest_le : (left recsiz : ℕ) → 0 < recsiz → left % recsiz ≤ left
rest_le left recsiz some_size = grind arith

update-rndm :
    (mode : Mode) (new_size t : ℕ) (f : Fcb)
    → mode.fcb_random ≡ true
    → 0 < f.fcb_recsiz
    → 0 < t + f.fcb_recsiz
    → t + f.fcb_recsiz ≤ 2 ^ 16
    → f.fcb_rndm + 2 ^ 16 ≤ 2 ^ 23
    → (update_fcb mode new_size t f).fcb_rndm ≡ f.fcb_rndm + (t + f.fcb_recsiz - 1) / f.fcb_recsiz
unfolding update_fcb
update-rndm mode new_size t f random some_size positive few room =
    let test : ltb 0 f.fcb_recsiz ≡ true = ground arith in
    let whole : (t + f.fcb_recsiz + 65535) % 2 ^ 16 ≡ t + f.fcb_recsiz - 1 = omega arith in
    let bound = div_le (t + f.fcb_recsiz - 1) f.fcb_recsiz some_size in
    rw random (rw test (rw whole (omega (arith, bound))))

after_transfer-Finished :
    (mode : Mode) (a : Answers) (size n t : ℕ) (f : Fcb)
    → size ≡ f.fcb_recsiz * n
    → mode.fcb_random ≡ true
    → 0 < f.fcb_recsiz
    → t ≤ size
    → a.dta + size < 2 ^ 16
    → t + f.fcb_recsiz ≤ 2 ^ 16
    → f.fcb_rndm + 2 ^ 16 ≤ 2 ^ 23
    → (d : TransferEnd) × (after_transfer mode a size t f ≡ some d)
      × Finished mode a.dta f.fcb_recsiz t size
          (f.fcb_rndm + (t + f.fcb_recsiz - 1) / f.fcb_recsiz)
          d
unfolding after_transfer
after_transfer-Finished mode a size n t f product random some_size below fits few room =
    let f' : Fcb = update_fcb mode a.new_size t f in
    let counted : f'.fcb_rndm ≡ f.fcb_rndm + (t + f.fcb_recsiz - 1) / f.fcb_recsiz =
      update-rndm mode a.new_size t f random some_size (omega arith) few room in
    let left : (size + 65536 - t) % 2 ^ 16 ≡ size - t = omega arith in
    elim (ℕ_discrete t size) [
      | yes all ↦
          let test : ((size - t) == 0) ≡ true = ground arith in
          let up =
            (unique_lem (t + f.fcb_recsiz - 1) n (f.fcb_recsiz - 1) f.fcb_recsiz (omega arith)
              (grind arith)).0 in
          let full : t ≡ touched f.fcb_recsiz t = rw up (grind arith) in
          (
            record { code = fcb_success; fcb = fcb_next_record f'; zeroed = none },
            rw left (rw test refl),
            ((λ e. all, λ e. refl), next_record-rndm f' ∙ counted, inr full),
          )
      | no short ↦
          let test : ((size - t) == 0) ≡ false = ground arith in
          let real : (f.fcb_recsiz == 0) ≡ false = ground arith in
          let part = rest_le (size - t) f.fcb_recsiz some_size in
          let (is, under) = split_lem t f.fcb_recsiz some_size in
          let whole =
            touched_all f.fcb_recsiz n t (t / f.fcb_recsiz) (t % f.fcb_recsiz) some_size is under
              (omega arith) in
          let rest : t + (size - t) % f.fcb_recsiz ≡ touched f.fcb_recsiz t =
            ap (λ x. t + (x - t) % f.fcb_recsiz) product ∙ whole in
          let (ends, same, zeroes) =
            finish_lem mode a.dta f.fcb_recsiz t ((size - t) % f.fcb_recsiz) size f' fits
              (omega arith) rest short in
          (
            finish_part mode a.dta t ((size - t) % f.fcb_recsiz) f',
            rw left (rw test (rw real refl)),
            (ends, same ∙ counted, zeroes),
          )
    ]

calc_rec-place : (f : Fcb) → f.fcb_rndm < 2 ^ 23 → fcb_rec (fcb_calc_rec f) ≡ f.fcb_rndm
unfolding fcb_rec fcb_calc_rec
calc_rec-place f small = omega arith

calc_rec-kept :
    (f : Fcb)
    → ((fcb_calc_rec f).fcb_rndm ≡ f.fcb_rndm) × ((fcb_calc_rec f).fcb_recsiz ≡ f.fcb_recsiz)
unfolding fcb_calc_rec
calc_rec-kept f = (refl, refl)

read_write-Finished :
    (mode : Mode) (a : Answers) (n t place : ℕ) (f : Fcb)
    → fcb_rec f * f.fcb_recsiz % 2 ^ 32 ≡ place
    → mode.fcb_random ≡ true
    → 0 < f.fcb_recsiz
    → a.seek_result place ≡ pos 0
    → a.transferred place (f.fcb_recsiz * n) ≡ pos t
    → t ≤ f.fcb_recsiz * n
    → a.dta + f.fcb_recsiz * n < 2 ^ 16
    → t + f.fcb_recsiz ≤ 2 ^ 16
    → f.fcb_rndm + 2 ^ 16 ≤ 2 ^ 23
    → (d : TransferEnd) × (fcb_read_write mode a n f ≡ some d)
      × Finished mode a.dta f.fcb_recsiz t
          (f.fcb_recsiz * n)
          (f.fcb_rndm + (t + f.fcb_recsiz - 1) / f.fcb_recsiz)
          d
unfolding fcb_read_write
read_write-Finished mode a n t place f at random some_size seek moved below fits few room =
    let size : ℕ = f.fcb_recsiz * n in
    let short : ltb 65535 size ≡ false = ground arith in
    let inside : ltb ((a.dta + size) % 2 ^ 16) a.dta ≡ false = ground arith in
    let word : t % 2 ^ 16 ≡ t = omega arith in
    let (d, run, done) =
      after_transfer-Finished mode a size n t f refl random some_size below fits few room in
    (d, rw short (rw inside (rw at (rw seek (rw moved (rw word run))))), done)

-- `FcbRandomBlockIO` on a buffer that ends within its segment, from a record below 2^23 - 2^16 on,
-- with a seek that succeeds: when `t` bytes are transferred, no more than were asked for, and `t` and
-- the record size make at most 65536 together, the number of records that these bytes touch is
-- returned, and the FCB stands behind them. Success is reported exactly if all were transferred.
-- A read zeroes exactly the bytes of the last record touched that were not transferred, and a write
-- zeroes nothing.
pub fcb_random_block_io_lem :
    (mode : Mode) (a : Answers) (n t : ℕ) (f : Fcb)
    → mode.fcb_random ≡ true
    → 0 < f.fcb_recsiz
    → a.seek_result (f.fcb_rndm * f.fcb_recsiz % 2 ^ 32) ≡ pos 0
    → a.transferred (f.fcb_rndm * f.fcb_recsiz % 2 ^ 32) (f.fcb_recsiz * n) ≡ pos t
    → t ≤ f.fcb_recsiz * n
    → a.dta + f.fcb_recsiz * n < 2 ^ 16
    → t + f.fcb_recsiz ≤ 2 ^ 16
    → f.fcb_rndm + 2 ^ 16 ≤ 2 ^ 23
    → (d : TransferEnd) × (fcb_random_block_io mode a n f
        ≡ some ((t + f.fcb_recsiz - 1) / f.fcb_recsiz, d))
      × (fcb_rec d.fcb ≡ f.fcb_rndm + (t + f.fcb_recsiz - 1) / f.fcb_recsiz)
      × Finished mode a.dta f.fcb_recsiz t
          (f.fcb_recsiz * n)
          (f.fcb_rndm + (t + f.fcb_recsiz - 1) / f.fcb_recsiz)
          d
unfolding fcb_random_block_io fcb_calc_rec
fcb_random_block_io_lem mode a n t f random some_size seek moved below fits few room =
    let f' : Fcb = fcb_calc_rec f in
    let place = ap (λ r. r * f.fcb_recsiz % 2 ^ 32) (calc_rec-place f (omega arith)) in
    let (d, run, (ends, counted, zeroes)) =
      read_write-Finished mode a n t (f.fcb_rndm * f.fcb_recsiz % 2 ^ 32) f' place random some_size
        seek moved below fits few room in
    let bound = div_le (t + f.fcb_recsiz - 1) f.fcb_recsiz some_size in
    let more : (d.fcb.fcb_rndm + 2 ^ 32 - f.fcb_rndm) % 2 ^ 16
        ≡ (t + f.fcb_recsiz - 1) / f.fcb_recsiz =
      omega (arith, counted, bound) in
    (
      record d { fcb = fcb_calc_rec d.fcb },
      rw run (ap (λ k. some (k, record d { fcb = fcb_calc_rec d.fcb })) more),
      calc_rec-place d.fcb (omega (arith, counted, bound)) ∙ counted,
      (ends, counted, zeroes),
    )
