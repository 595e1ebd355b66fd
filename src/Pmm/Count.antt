-- ===== src/Pmm/Count.antt =====
-- Counting the clear bits below a bound, which boot/aarch64/pmm.c keeps in `pmm_free_count`.
use aeos.Base.{
  ℕ, Bool, ◌≤◌, ◌<◌, ◌≡◌, true, if◌then◌else◌, arith, ◌==◌, not, ◌+◌, suc, not_==_of_ne, ℕ_discrete,
  ap, zero, refl, false, dec_lt,
}

-- How many of 0, …, n - 1 fail the test.
pub count : (ℕ → Bool) → ℕ → ℕ
count p zero = 0
count p (suc n) = (if p n then 0 else 1) + count p n

pub count-le : (p : ℕ → Bool) (n : ℕ) → count p n ≤ n
unfolding count
count-le p zero = omega arith
count-le p (suc n) = ground (arith, count-le p n)

-- A count of zero leaves no clear bit.
pub count_zero : (p : ℕ → Bool) (n i : ℕ) → count p n ≡ 0 → i < n → p i ≡ true
unfolding count
count_zero p zero i e h = absurd (omega arith)
count_zero p (suc n) i e h = ground (arith, count_zero p n i)

pub count_full : (p : ℕ → Bool) (n : ℕ) → ((i : ℕ) → i < n → p i ≡ true) → count p n ≡ 0
unfolding count
count_full p zero h = refl
count_full p (suc n) h =
    rw (h n (omega arith)) (omega (arith, count_full p n (λ i l. h i (omega arith))))

-- A tail of clear bits is counted.
pub count_tail :
    (p : ℕ → Bool) (n m : ℕ) → ((i : ℕ) → n ≤ i → i < m → p i ≡ false) → m ≤ n + count p m
unfolding count
count_tail p n zero h = omega arith
count_tail p n (suc m) h =
    let rest = count_tail p n m (λ i lo lt. h i lo (omega (arith, lt))) in
    elim (dec_lt m n) [
      | yes below ↦ omega (arith, below)
      | no above ↦ rw (h m (omega (arith, above)) (omega arith)) (omega (arith, rest))
    ]

module _ (p q : ℕ → Bool) (f : ℕ) where
  -- Frames below the changed one are counted alike.
  count_past :
      (v : Bool) (n : ℕ)
      → ((i : ℕ) → q i ≡ (if f == i then v else p i))
      → n ≤ f
      → count q n ≡ count p n
  unfolding count
  count_past v zero h l = refl
  count_past v (suc n) h l =
      rw (h n, not_==_of_ne f n (λ e. omega arith), count_past v n h (omega arith))

  pub count_flip :
      (v : Bool) (n : ℕ)
      → ((i : ℕ) → q i ≡ (if f == i then v else p i))
      → p f ≡ not v
      → f < n
      → count q n + (if v then 1 else 0) ≡ count p n + (if v then 0 else 1)
  unfolding count
  count_flip v zero h e l = absurd (omega arith)
  count_flip v (suc n) h e l = elim (ℕ_discrete f n) [
    | yes s ↦ ground (arith, count_past v n h (omega arith), h n, ap p s, e)
    | no ne ↦ ground (arith, count_flip v n h e (omega arith), h n)
  ]
