-- ===== src/Clusters/Follow.antt =====
-- The chain of a file as the table of kernel/fatfs.c holds it.
use fdkernel.Common.{ℕ, ◌+◌, ◌≤◌, ◌≡◌, ◌≢◌, ◌⊎◌, inl, inr, arith, ap, sym, ◌∙◌, ℕ_discrete}
use fdkernel.Fat.State.{long_last_cluster}
use fdkernel.Clusters.Chain.{Fat}
use fdkernel.Clusters.Laws.{InRange, IsValue, IsTable}
use fdkernel.Clusters.Extend.{Joined, IsEnd}

-- An entry names a further cluster.
abbrev pub NextIs : (ℕ → ℕ) → ℕ → ℕ → Type 0
NextIs c b d = (c b ≡ d) × (2 ≤ d) × (d ≢ long_last_cluster)

-- The cluster `b` is `k` clusters after `a`.
pub data Follows (c : ℕ → ℕ) (a : ℕ) : ℕ → ℕ → Type 0 where
  start : 2 ≤ a → Follows c a 0 a
  next : {k b d m : ℕ} → Follows c a k b → NextIs c b d → m ≡ k + 1 → Follows c a m d

-- An entry that names a further cluster stays.
abbrev pub Keeps : (ℕ → ℕ) → (ℕ → ℕ) → Type 0
Keeps c c' = (j : ℕ) → 2 ≤ c j → c j ≢ long_last_cluster → c' j ≡ c j

pub Keeps-trans : (c c' c'' : ℕ → ℕ) → Keeps c c' → Keeps c' c'' → Keeps c c''
Keeps-trans c c' c'' k k' j two open_end =
    let e = k j two open_end in k' j (omega (arith, e)) (λ last. open_end (sym e ∙ last)) ∙ e

pub Follows-Keeps : (c c' : ℕ → ℕ) (a k b : ℕ) → Keeps c c' → Follows c a k b → Follows c' a k b
Follows-Keeps c c' a k b keeps (Follows.start two) = Follows.start two
Follows-Keeps c c' a k b keeps (Follows.next {k = k'} {b = b'} path (is, two, open_end) m) =
    Follows.next (Follows-Keeps c c' a k' b' keeps path)
      (keeps b' (omega (arith, is)) (λ last. open_end (sym is ∙ last)) ∙ is, two, open_end) m

pub Follows-two : (c : ℕ → ℕ) (a k b : ℕ) → Follows c a k b → 2 ≤ b
Follows-two c a k b (Follows.start two) = two
Follows-two c a k b (Follows.next path (is, two, open_end) m) = two

module _ (F : Fat) (T : IsTable F) where
  open T use {content, next_works, next_keeps}

  -- An entry that leads nowhere: out of the table, free, or to an entry that is not in use.
  abbrev pub Damaged : F.World → ℕ → Type 0
  Damaged w c = ¬ (
      InRange F c
      × ((content w c ≡ long_last_cluster)
          ⊎ (InRange F (content w c) × IsValue F (content w (content w c)))))

  pub stop-Damaged :
      (c : ℕ) (w : F.World) → (F.next_cluster c w).0 ≤ 1 → Damaged (F.next_cluster c w).1 c
  stop-Damaged c w small (within, sound) =
      let w' : F.World = (F.next_cluster c w).1 in
      let at = next_keeps c w in
      let twice : content w' (content w' c) ≡ content w (content w c) =
        ap (content w') (at c) ∙ at (content w c) in
      let e = next_works c w within (elim sound [
        | inl last ↦ inl (sym (at c) ∙ last)
        | inr (inside, used) ↦ inr (ground (arith, at c, inside), ground (arith, twice, used))
      ]) in
      elim sound [
        | inl last ↦ ground (arith, at c, last, e)
        | inr (inside, used) ↦ ground (arith, at c, e)
      ]

  pub Joined-Keeps :
      (from k : ℕ) (w w' : F.World)
      → IsEnd F T from w
      → Joined F T from k w w'
      → Keeps (content w) (content w')
  Joined-Keeps from k w w' ended (within, is, entries) j two open_end =
      let e = entries j in
      elim (ℕ_discrete j k) [
        | yes same ↦ absurd (omega (arith, ap (content w) same ∙ is))
        | no apart ↦ elim (ℕ_discrete j from) [
          | yes same ↦ elim ended [
            | inl empty ↦ ground (arith, e)
            | inr (_, last) ↦ absurd (open_end (ap (content w) same ∙ last))
          ]
          | no other ↦ ground (arith, e)
        ]
      ]
