-- ===== src/Handles/Live.antt =====
-- Every handle leads to an entry that counts it: kept by the calls of kernel/dosfns.c.
use fdkernel.Common.{
  ℕ, zero, suc, ◌+◌, ◌≤◌, ◌<◌, ◌≡◌, ◌≢◌, ◌⊎◌, inl, inr, refl, some, List, [], ◌∷◌, ◌==◌,
  if◌then◌else◌, length, get_or, set, arith, Bool-cases, Option-cases, ap, sym, ◌∙◌, ℤ, length-set,
  get_or-set_self, get_or-set_ne, ℕ_discrete, dec_lt, ==_iff,
}
use fdkernel.Handles.State.{Sft, Files, find_sft, get_sft_idx, get_free_hndl, no_file}
use fdkernel.Handles.Calls.{
  CloseAnswers, increment, forget, dos_close, bump, duplicate, after_close, force_dup_idx,
  dos_force_dup, is_success, dup_result, dos_dup,
}
use fdkernel.Handles.Table.{one_if, count_in, count_of, count_of-put_sft, refs, refs-set}
use fdkernel.Handles.Counts.{Lowers, Lowered, Words, dos_close_lem, idx_to_sft_lem}

-- `outside` counts the holders of an entry in other processes.
pub record IsLive (outside : ℕ → ℕ) (s : Files) : Type 0 where
  pub held : (i : ℕ) → i ≢ no_file → refs s.filetab i + outside i ≤ count_of s.tables i
  pub within : s.maxfiles ≤ length s.filetab

-- No count is at its limit.
abbrev pub HasRoom : Files → Type 0
HasRoom s = (i : ℕ) → count_of s.tables i < 65535

set_outside : (xs : List ℕ) (h v : ℕ) → length xs ≤ h → set xs h v ≡ xs
set_outside [] h v out = refl
set_outside (x ∷ xs) zero v out = absurd (omega arith)
set_outside (x ∷ xs) (suc h) v out = ap (◌∷◌ x) (set_outside xs h v (omega arith))

-- One place that was free refers to `v` now.
pub refs-set-le :
    (xs : List ℕ) (h v j : ℕ)
    → get_or xs h no_file ≡ no_file
    → j ≢ no_file
    → refs (set xs h v) j ≤ refs xs j + one_if (v == j)
refs-set-le xs h v j free real = elim (dec_lt h (length xs)) [
  | yes below ↦
      let was : one_if (get_or xs h no_file == j) ≡ 0 = ground arith in
      omega (arith, refs-set xs h v j below)
  | no out ↦ rw (set_outside xs h v (omega arith)) (omega arith)
]

refs_pos : (xs : List ℕ) (h i : ℕ) → get_or xs h no_file ≡ i → i ≢ no_file → 1 ≤ refs xs i
refs_pos [] h i e real = absurd (real (sym e))
refs_pos (x ∷ xs) zero i e real = ground arith
refs_pos (x ∷ xs) (suc h) i e real = omega (arith, refs_pos xs h i e real)

one_le : (v i j : ℕ) → (v ≡ i) ⊎ (v ≡ no_file) → j ≢ no_file → one_if (v == j) ≤ one_if (i == j)
one_le v i j copied real = ground arith

pub count_up :
    (s : Files) (i j : ℕ) (x : Sft)
    → count_of s.tables i ≡ x.sft_count
    → count_of s.tables i < 65535
    → count_of s.tables j + one_if (i == j)
      ≤ (if i == j then (increment x).sft_count else count_of s.tables j)
count_up s i j x mine room = elim (ℕ_discrete i j) [
  | yes same ↦
      let there : count_of s.tables j ≡ x.sft_count = ap (count_of s.tables) (sym same) ∙ mine in
      ground arith
  | no other ↦ ground arith
]

pub get_sft_idx_lem :
    (s : Files) (hndl i : ℕ)
    → get_sft_idx s hndl ≡ some i
    → (get_or s.filetab hndl no_file ≡ i) × (i ≢ no_file) × (hndl < s.maxfiles)
unfolding get_sft_idx
get_sft_idx_lem s hndl i e = ground arith

module _ (outside : ℕ → ℕ) where
  Lowered-IsLive :
      (hndl i : ℕ) (s s' : Files)
      → get_sft_idx s hndl ≡ some i
      → Lowered i (forget hndl no_file s) s'
      → IsLive outside s
      → IsLive outside s'
  Lowered-IsLive hndl i s s' e (table, max, counts) live =
      let (at, real, below) = get_sft_idx_lem s hndl i e in
      record {
        held = λ j r.
            let gone = refs-set s.filetab hndl no_file j (omega (arith, live.within)) in
            let now : refs s'.filetab j ≡ refs (set s.filetab hndl no_file) j =
              ap (λ t. refs t j) table in
            let was : one_if (get_or s.filetab hndl no_file == j) ≡ one_if (i == j) =
              ap (λ k. one_if (k == j)) at in
            let not_free : one_if (no_file == j) ≡ 0 = ground arith in
            omega (arith, live.held j r, counts j);
        within =
            let size : length s'.filetab ≡ length s.filetab =
              ap (λ t. length t) table ∙ length-set s.filetab hndl no_file in
            omega (arith, max, live.within);
      }

  pub dos_close-IsLive :
      (a : CloseAnswers) (hndl : ℕ) (s : Files)
      → Lowers a
      → Words s
      → IsLive outside s
      → IsLive outside ((dos_close a hndl s).1)
  dos_close-IsLive a hndl s lowers words live = elim (dos_close_lem a hndl s lowers words) [
    | inl e ↦ rw e live
    | inr (i, e, lowered) ↦ Lowered-IsLive hndl i s ((dos_close a hndl s).1) e lowered live
  ]

  duplicate-IsLive :
      (i old new : ℕ) (s : Files)
      → i ≢ no_file
      → HasRoom s
      → get_or s.filetab new no_file ≡ no_file
      → (get_or s.filetab old no_file ≡ i) ⊎ (get_or s.filetab old no_file ≡ no_file)
      → IsLive outside s
      → IsLive outside (duplicate i old new s)
  unfolding duplicate
  duplicate-IsLive i old new s real room free copied live =
      let v = get_or s.filetab old no_file in
      let size = length-set s.filetab new v in
      elim (Option-cases (find_sft s.tables i)) [
        | inl e ↦
            let nobody : count_of s.tables i ≡ 0 = ap count_in e in
            rw (e, bump)
              (record {
                held = λ j r.
                    let more = refs-set-le s.filetab new v j free r in
                    elim copied [
                      | inl mine ↦ absurd (
                          omega
                            (arith, nobody, refs_pos s.filetab old i mine real, live.held i real))
                      | inr nothing ↦
                          let zero_more : one_if (v == j) ≡ 0 = ground arith in
                          omega (arith, live.held j r)
                    ];
                within = omega (arith, live.within);
              })
        | inr (x, e) ↦
            rw (e, bump)
              (record {
                held = λ j r.
                    let more = refs-set-le s.filetab new v j free r in
                    let count = count_of-put_sft s.tables i j x (increment x) e in
                    let mine : count_of s.tables i ≡ x.sft_count = ap count_in e in
                    let same_or_less : one_if (v == j) ≤ one_if (i == j) = one_le v i j copied r in
                    let plus_one = count_up s i j x mine (room i) in
                    omega (arith, live.held j r, plus_one);
                within = omega (arith, live.within);
              })
      ]

  -- The new handle was in use and its close returns; the copy is made if it succeeded.
  after_close-IsLive :
      (i old new k : ℕ) (s : Files) (t : ℤ × Files)
      → get_or s.filetab old no_file ≡ i
      → i ≢ no_file
      → get_sft_idx s new ≡ some k
      → Lowered k (forget new no_file s) t.1
      → HasRoom s
      → IsLive outside s
      → IsLive outside ((after_close i old new t).1)
  after_close-IsLive i old new k s (code, s') at real e (table, max, counts) room live =
      let live' = Lowered-IsLive new k s s' e (table, max, counts) live in
      let (_, _, below) = get_sft_idx_lem s new k e in
      let inside : new < length s.filetab = omega (arith, live.within) in
      let free : get_or s'.filetab new no_file ≡ no_file =
        ap (λ t. get_or t new no_file) table
        ∙ get_or-set_self s.filetab new no_file no_file inside in
      let copied : (get_or s'.filetab old no_file ≡ i) ⊎ (get_or s'.filetab old no_file ≡ no_file) =
        elim (ℕ_discrete new old) [
          | yes same ↦ inr (
              ap (get_or s'.filetab old) refl
              ∙ ap (λ h. get_or s'.filetab h no_file) (sym same)
              ∙ free)
          | no other ↦ inl (
              ap (λ t. get_or t old no_file) table
              ∙ get_or-set_ne s.filetab new old no_file no_file other
              ∙ at)
        ] in
      elim (Bool-cases (is_success code)) [
        | inl good ↦ rw good (
            duplicate-IsLive i old new s' real (λ j. omega (arith, room j, (counts j).0)) free
              copied live')
        | inr bad ↦ rw bad live'
      ]

  pub dos_force_dup-IsLive :
      (a : CloseAnswers) (old new : ℕ) (s : Files)
      → Lowers a
      → HasRoom s
      → IsLive outside s
      → IsLive outside ((dos_force_dup a old new s).1)
  unfolding dos_force_dup
  dos_force_dup-IsLive a old new s lowers room live = elim (Option-cases (get_sft_idx s old)) [
    | inl e ↦ rw e live
    | inr (i, e) ↦
        let (at, real, below) = get_sft_idx_lem s old i e in
        elim (idx_to_sft_lem s i) [
          | inl closed ↦ rw e (rw (closed, force_dup_idx) live)
          | inr (x, there, held, open_x) ↦ rw e (
              rw (open_x, force_dup_idx)
                (elim (Bool-cases (get_or s.filetab new no_file == no_file)) [
                  | inl free ↦
                      rw free
                        (duplicate-IsLive i old new s real room ((==_iff _ _).0 free) (inl at) live)
                  | inr used ↦
                      rw used (elim (dos_close_lem a new s lowers (λ j. omega (arith, room j))) [
                        | inl refused ↦ rw refused live
                        | inr (k, e', lowered) ↦
                            after_close-IsLive i old new k s (dos_close a new s) at real e' lowered
                              room live
                      ])
                ]))
        ]
  ]

  dup_result-IsLive :
      (new : ℕ) (t : ℤ × Files) → IsLive outside t.1 → IsLive outside ((dup_result new t).1)
  dup_result-IsLive new (code, s) live = live

  pub dos_dup-IsLive :
      (a : CloseAnswers) (hndl : ℕ) (s : Files)
      → Lowers a
      → HasRoom s
      → IsLive outside s
      → IsLive outside ((dos_dup a hndl s).1)
  unfolding dos_dup
  dos_dup-IsLive a hndl s lowers room live = elim (Option-cases (get_free_hndl s)) [
    | inl e ↦ rw (e, dos_dup) live
    | inr (new, e) ↦
        rw (e, dos_dup)
          (dup_result-IsLive new (dos_force_dup a hndl new s)
            (dos_force_dup-IsLive a hndl new s lowers room live))
  ]
