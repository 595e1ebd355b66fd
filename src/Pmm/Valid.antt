-- ===== src/Pmm/Valid.antt =====
-- What boot/aarch64/pmm.c keeps: the free count is the number of clear bits, through one bit's change.
use aeos.Pmm.Count.{count-le, count, count_flip}
use aeos.Pmm.Frames.{
  IsBitmap, clear_bit-IsBitmap, set_bit-IsBitmap, test_bit-set_bit, test_bit-clear_bit,
}
use aeos.Base.{ℕ, ◌≤◌, add64, ◌<◌, ◌≡◌, sub64, arith, suc, false, true}
use aeos.Pmm.{Pmm, set_bit, total, clear_bit, test_bit}

abbrev pub IsValid : Pmm → Type 0
IsValid p =
    IsBitmap total p.bitmap
    × (p.total_pages ≡ total)
    × (p.free_count ≡ count (test_bit p.bitmap) total)

pub count_bound : (p : Pmm) → IsValid p → p.free_count ≤ total
count_bound p v = omega (arith, v.2, count-le (test_bit p.bitmap) total)

-- A clear frame becomes used.
abbrev pub mark_used : Pmm → ℕ → Pmm
mark_used p f = record p { bitmap = set_bit p.bitmap f; free_count = sub64 p.free_count 1 }

-- A used frame becomes free.
abbrev pub mark_free : Pmm → ℕ → Pmm
mark_free p f = record p { bitmap = clear_bit p.bitmap f; free_count = add64 p.free_count 1 }

used_count :
    (p : Pmm) (f : ℕ)
    → IsValid p
    → f < total
    → test_bit p.bitmap f ≡ false
    → suc (count (test_bit (set_bit p.bitmap f)) total) ≡ p.free_count
used_count p f v lt e = omega (
  arith,
  v.2,
  count_flip (test_bit p.bitmap) (test_bit (set_bit p.bitmap f)) f true total
      (λ i. test_bit-set_bit p.bitmap total f i v.0 lt) e lt,
)

free_count_step :
    (p : Pmm) (f : ℕ)
    → IsValid p
    → f < total
    → test_bit p.bitmap f ≡ true
    → count (test_bit (clear_bit p.bitmap f)) total ≡ suc p.free_count
free_count_step p f v lt e = omega (
  arith,
  v.2,
  count_flip (test_bit p.bitmap) (test_bit (clear_bit p.bitmap f)) f false total
      (λ i. test_bit-clear_bit p.bitmap total f i v.0 lt) e lt,
)

pub mark_used_count :
    (p : Pmm) (f : ℕ)
    → IsValid p
    → f < total
    → test_bit p.bitmap f ≡ false
    → suc (sub64 p.free_count 1) ≡ p.free_count
mark_used_count p f v lt e = omega (arith, used_count p f v lt e, count_bound p v)

pub mark_free_count : (p : Pmm) (f : ℕ) → IsValid p → add64 p.free_count 1 ≡ suc p.free_count
mark_free_count p f v = omega (arith, count_bound p v)

pub mark_used-IsValid :
    (p : Pmm) (f : ℕ)
    → IsValid p
    → f < total
    → test_bit p.bitmap f ≡ false
    → IsValid (mark_used p f)
mark_used-IsValid p f v lt e = (
  set_bit-IsBitmap p.bitmap total f v.0 lt,
  v.1,
  omega (arith, used_count p f v lt e, mark_used_count p f v lt e),
)

pub mark_free-IsValid :
    (p : Pmm) (f : ℕ) → IsValid p → f < total → test_bit p.bitmap f ≡ true → IsValid (mark_free p f)
mark_free-IsValid p f v lt e = (
  clear_bit-IsBitmap p.bitmap total f v.0 lt,
  v.1,
  omega (arith, free_count_step p f v lt e, mark_free_count p f v),
)
