-- ===== src/Afs/Counts.antt =====
-- Counting, over the cells of a table, the extents that cover a sector of the disk of kernel/afs.c.
use aeos.Base.{
  ℕ, zero, suc, ◌+◌, ◌≡◌, ◌≢◌, ◌<◌, ◌≤◌, if◌then◌else◌, leb, ltb, ◌&&◌, arith, refl, ℕ_discrete,
}

-- 1 when sector `s` is among the `n` sectors from `start`
abbrev pub covers : ℕ → ℕ → ℕ → ℕ
covers start n s = if leb start s && ltb s (start + n) then 1 else 0

pub covers-split :
    (start n m s : ℕ) → covers start (n + m) s ≡ covers start n s + covers (start + n) m s
covers-split start n m s = ground arith

pub covers_le : (start n m s : ℕ) → n ≤ m → covers start n s ≤ covers start m s
covers_le start n m s h = ground (arith, h)

-- The sum over the cells below `n`
abbrev pub count_upto : (ℕ → ℕ) → ℕ → ℕ
count_upto g zero = 0
count_upto g (suc n) = g n + count_upto g n

pub count-same :
    (g h : ℕ → ℕ) (n : ℕ) → ((i : ℕ) → i < n → g i ≡ h i) → count_upto g n ≡ count_upto h n
count-same g h zero e = refl
count-same g h (suc n) e =
    let rest = count-same g h n (λ i lt. e i (omega (arith, lt))) in
    omega (arith, rest, e n (omega arith))

-- One cell changes, and the sum with it.
pub count-change :
    (g h : ℕ → ℕ) (n i : ℕ)
    → i < n
    → ((j : ℕ) → j < n → i ≢ j → g j ≡ h j)
    → count_upto g n + h i ≡ count_upto h n + g i
count-change g h zero i lt e = elim lt [ ]
count-change g h (suc n) i lt e = elim (ℕ_discrete i n) [
  | yes same ↦
      let rest =
        count-same g h n
          (λ j below. e j (omega (arith, below)) (λ eq. omega (arith, below, same, eq))) in
      rw same (omega (arith, rest))
  | no other ↦
      let rest =
        count-change g h n i (omega (arith, lt, other)) (λ j below. e j (omega (arith, below))) in
      omega (arith, rest, e n (omega arith) other)
]
