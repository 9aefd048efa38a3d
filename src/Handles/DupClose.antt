-- ===== src/Handles/DupClose.antt =====
-- Duplicating a handle and closing the copy, in kernel/dosfns.c.
use fdkernel.Common.{
  ℕ, zero, suc, ◌+◌, ◌-◌, ◌%◌, ◌^◌, ◌≤◌, ◌<◌, ◌≡◌, ◌≢◌, inl, inr, refl, Bool, true, false, not,
  ◌&&◌, none, some, List, [], ◌∷◌, ◌==◌, ltb, length, get_or, get_elem?, set, arith, Bool-cases, ap,
  sym, ◌∙◌, pos, get_or-set_self,
}
use fdkernel.Handles.State.{
  Sft, SftKind, Files, find_sft, put_sft, get_free_hndl, no_file, idx_to_sft, get_sft_idx, if_open,
}
use fdkernel.Handles.Calls.{
  CloseAnswers, dos_close, dos_force_dup, dos_dup, update, increment, decrement, forget, success,
  duplicate, bump, force_dup_idx, dup_result, close_sft, dos_close_sft, close_idx, is_success,
  drop_file,
}
use fdkernel.Handles.Table.{find_sft-put_sft, length-set_sft}
use fdkernel.Handles.Live.{get_sft_idx_lem}
use fdkernel.Handles.Opened.{free_place_lem}

set-undo {ℓ} :
    {A : Type ℓ} (xs : List A) (i : ℕ) (x y : A)
    → get_elem? xs i ≡ some x
    → set (set xs i y) i x ≡ xs
set-undo [] i x y e = refl
set-undo (z ∷ zs) zero x y e = ap (λ o. elim o [ none ↦ z ∷ zs | some w ↦ w ∷ zs ]) (sym e)
set-undo (z ∷ zs) (suc i) x y e = ap (◌∷◌ z) (set-undo zs i x y e)

put_sft-undo :
    (ts : List (List Sft)) (i : ℕ) (x y : Sft)
    → find_sft ts i ≡ some x
    → put_sft (put_sft ts i y) i x ≡ ts
unfolding find_sft put_sft
put_sft-undo [] i x y e = refl
put_sft-undo (t ∷ ts) i x y e = elim (Bool-cases (ltb i (length t))) [
  | inl here ↦
      let still : ltb i (length (set t i y)) ≡ true = ap (ltb i) (length-set_sft t i y) ∙ here in
      let there : get_elem? t i ≡ some x = ground (arith, here) in
      rw here (rw still (ap (λ u. u ∷ ts) (set-undo t i x y there)))
  | inr later ↦
      let there : find_sft ts (i - length t) ≡ some x = ground (arith, later) in
      rw later (rw later (ap (◌∷◌ t) (put_sft-undo ts (i - length t) x y there)))
]

set-undo_or :
    (xs : List ℕ) (h v w : ℕ) → get_or xs h no_file ≡ v → h < length xs → set (set xs h w) h v ≡ xs
set-undo_or [] h v w e below = refl
set-undo_or (x ∷ xs) zero v w e below = ap (λ y. y ∷ xs) (sym e)
set-undo_or (x ∷ xs) (suc h) v w e below = ap (◌∷◌ x) (set-undo_or xs h v w e (omega arith))

-- The answers let the file be closed.
abbrev pub ClosesWell : CloseAnswers → SftKind → Type 0
ClosesWell a SftKind.shared = (a.redirector ≡ success) × ((n : ℕ) → a.count_left n ≡ n - 1)
ClosesWell a (SftKind.device focrm) = a.device_closed ≡ true
ClosesWell a SftKind.file = a.closed ≡ success

-- An entry in use.
abbrev pub LeadsTo : Files → ℕ → Sft → Type 0
LeadsTo s i x = (find_sft s.tables i ≡ some x) × (x.sft_count ≢ 0)

idx_to_sft-LeadsTo : (s : Files) (i : ℕ) (x : Sft) → LeadsTo s i x → idx_to_sft s i ≡ some x
unfolding idx_to_sft
idx_to_sft-LeadsTo s i x (at, held) =
    let test : (x.sft_count == 0) ≡ false = ground arith in rw at (rw (test, if_open) refl)

duplicate_eq :
    (i old new : ℕ) (x : Sft) (s : Files)
    → find_sft s.tables i ≡ some x
    → get_or s.filetab old no_file ≡ i
    → duplicate i old new s ≡ update i (increment x) (forget new i s)
unfolding duplicate
duplicate_eq i old new x s at is =
    ap (λ o. bump i o (forget new (get_or s.filetab old no_file) s)) at
    ∙ ap (λ v. update i (increment x) (forget new v s)) is

get_free_hndl_lem :
    (s : Files) (h : ℕ)
    → get_free_hndl s ≡ some h
    → (get_or s.filetab h no_file ≡ no_file) × (h < s.maxfiles)
unfolding get_free_hndl
get_free_hndl_lem s h e = free_place_lem s.filetab s.maxfiles h e

force_dup_free :
    (a : CloseAnswers) (old new i : ℕ) (x : Sft) (s : Files)
    → get_sft_idx s old ≡ some i
    → LeadsTo s i x
    → get_or s.filetab new no_file ≡ no_file
    → dos_force_dup a old new s ≡ (success, update i (increment x) (forget new i s))
unfolding dos_force_dup
force_dup_free a old new i x s e leads free =
    let (at, real, below) = get_sft_idx_lem s old i e in
    let found = idx_to_sft-LeadsTo s i x leads in
    let test : (get_or s.filetab new no_file == no_file) ≡ true = ground arith in
    rw (e) (
      rw (found, force_dup_idx)
        (rw test (ap (λ t. (success, t)) (duplicate_eq i old new x s leads.0 at))))

-- `DosDup` of an open file: the first free handle leads to the same entry.
pub dos_dup_eq :
    (a : CloseAnswers) (hndl h i : ℕ) (x : Sft) (s : Files)
    → get_sft_idx s hndl ≡ some i
    → LeadsTo s i x
    → get_free_hndl s ≡ some h
    → dos_dup a hndl s ≡ (pos h, update i (increment x) (forget h i s))
unfolding dos_dup
dos_dup_eq a hndl h i x s e leads free =
    rw (free, dos_dup)
      (ap (dup_result h) (force_dup_free a hndl h i x s e leads ((get_free_hndl_lem s h free).0)))

decrement-increment : (x : Sft) → x.sft_count < 65535 → decrement (increment x) ≡ x
decrement-increment x room =
    let back : ((x.sft_count + 1) % 2 ^ 16 + 65535) % 2 ^ 16 ≡ x.sft_count = omega arith in
    ap (λ n. record x { sft_count = n }) back

close_sft-increment :
    (a : CloseAnswers) (i : ℕ) (x : Sft) (k : SftKind) (s : Files)
    → ClosesWell a k
    → x.sft_count ≢ 0
    → x.sft_count < 65535
    → close_sft a false i k (increment x) s ≡ (success, update i x s)
unfolding close_sft
close_sft-increment a i x SftKind.shared s (ok, left) held room =
    let back : a.count_left ((x.sft_count + 1) % 2 ^ 16) ≡ x.sft_count =
      omega (arith, left ((x.sft_count + 1) % 2 ^ 16)) in
    ap
      (λ code.
        (code, update i (record x { sft_count = a.count_left ((x.sft_count + 1) % 2 ^ 16) }) s))
      ok
    ∙ ap (λ n. (success, update i (record x { sft_count = n }) s)) back
close_sft-increment a i x (SftKind.device focrm) s ok held room =
    let test : (focrm && not a.device_closed) ≡ false = ground (arith, ok) in
    rw test (ap (λ y. (success, update i y s)) (decrement-increment x room))
close_sft-increment a i x SftKind.file s ok held room =
    let test : not (is_success a.closed) ≡ false = ap (λ z. not (is_success z)) ok in
    let more : ((increment x).sft_count == 1) ≡ false = ground arith in
    rw test (rw (more, drop_file) (ap (λ y. (success, update i y s)) (decrement-increment x room)))

dos_close_sft-LeadsTo :
    (a : CloseAnswers) (commitonly : Bool) (i : ℕ) (x : Sft) (s : Files)
    → LeadsTo s i x
    → dos_close_sft a commitonly i s ≡ close_sft a commitonly i x.sft_flags x s
unfolding dos_close_sft
dos_close_sft-LeadsTo a commitonly i x s leads = rw (idx_to_sft-LeadsTo s i x leads, dos_close_sft)

dos_close-LeadsTo :
    (a : CloseAnswers) (h i : ℕ) (x : Sft) (s : Files)
    → get_sft_idx s h ≡ some i
    → LeadsTo s i x
    → dos_close a h s ≡ close_sft a false i x.sft_flags x (forget h no_file s)
unfolding dos_close
dos_close-LeadsTo a h i x s e leads = rw e (
    rw (idx_to_sft-LeadsTo s i x leads, close_idx)
      (dos_close_sft-LeadsTo a false i x (forget h no_file s) leads))

-- A handle that has just been given the entry `i`.
get_sft_idx-given :
    (h i : ℕ) (y : Sft) (s : Files)
    → i ≢ no_file
    → h < s.maxfiles
    → s.maxfiles ≤ length s.filetab
    → get_sft_idx (update i y (forget h i s)) h ≡ some i
unfolding get_sft_idx
get_sft_idx-given h i y s real below within =
    let given : get_or (set s.filetab h i) h no_file ≡ i =
      get_or-set_self s.filetab h i no_file (omega arith) in
    rw given (ground arith)

undo_all :
    (h i : ℕ) (x y : Sft) (s : Files)
    → find_sft s.tables i ≡ some x
    → get_or s.filetab h no_file ≡ no_file
    → h < length s.filetab
    → update i x (forget h no_file (update i y (forget h i s))) ≡ s
undo_all h i x y s at free below =
    ap (λ t. record s { tables = t; filetab = set (set s.filetab h i) h no_file })
      (put_sft-undo s.tables i x y at)
    ∙ ap (λ t. record s { filetab = t }) (set-undo_or s.filetab h no_file i free below)

-- Closing the handle that `DosDup` returns undoes it: the handle table and the table of open
-- files are as before, counts included, if the file was open, a handle was free, the count was
-- below its limit and what is called to close the file succeeds.
pub dos_close-dos_dup :
    (a b : CloseAnswers) (hndl h i : ℕ) (x : Sft) (s : Files)
    → get_sft_idx s hndl ≡ some i
    → LeadsTo s i x
    → x.sft_count < 65535
    → get_free_hndl s ≡ some h
    → s.maxfiles ≤ length s.filetab
    → ClosesWell b x.sft_flags
    → ((dos_dup a hndl s).0 ≡ pos h) × (dos_close b h ((dos_dup a hndl s).1) ≡ (success, s))
dos_close-dos_dup a b hndl h i x s e (at, held) room free within well =
    let (table_free, below) = get_free_hndl_lem s h free in
    let (_, real, _) = get_sft_idx_lem s hndl i e in
    let s' : Files = update i (increment x) (forget h i s) in
    let found : find_sft s'.tables i ≡ some (increment x) =
      ground (arith, find_sft-put_sft s.tables i i x (increment x) at) in
    let closed : dos_close b h s' ≡ (success, s) =
      dos_close-LeadsTo b h i (increment x) s'
        (get_sft_idx-given h i (increment x) s real below within) (found, omega arith)
      ∙ close_sft-increment b i x x.sft_flags (forget h no_file s') well held room
      ∙ ap (λ t. (success, t)) (undo_all h i x (increment x) s at table_free (omega arith)) in
    rw (dos_dup_eq a hndl h i x s e (at, held) free) (refl, closed)
