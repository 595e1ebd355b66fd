-- ===== src/Pmm/Start.antt =====
-- `pmm_init` of boot/aarch64/pmm.c: which frames are free at the start.

use aeos.Pmm.Frames.{test_bit-clear_bit}
use aeos.Pmm.Runs.{in_run}
use aeos.Pmm.Bits.{passes_at, passes}
use aeos.Pmm.Count.{count_full}
use aeos.Pmm.Valid.{IsValid, mark_free, mark_free-IsValid}
use aeos.Base.{
  ℕ, arith, ◌+◌, replicate, ◌<◌, length-replicate, ◌≤◌, All-replicate, ◌≡◌, sym, true, ltb, ap,
  if◌then◌else◌, refl, ◌%◌, get_or-replicate, false, ◌/◌, ◌-◌, ◌∙◌, suc, ◌==◌, not_==_of_ne, zero,
}
use aeos.Pmm.{
  free_range, init, test_bit, Pmm, byte_test, total, bitmap_size, frame_to_phys, reserve_end,
  phys_to_frame, ram_end, clear_bit,
}

-- Freeing the used frames `f`, …, `f + n - 1` one by one.
free_range_lem :
    (p : Pmm) (f n : ℕ)
    → IsValid p
    → f + n ≤ total
    → ((g : ℕ) → f ≤ g → g < f + n → test_bit p.bitmap g ≡ true)
    → IsValid (free_range p f n)
      × ((g : ℕ)
          → test_bit (free_range p f n).bitmap g
            ≡ (if in_run f n g then false else test_bit p.bitmap g))
unfolding free_range
free_range_lem p f zero v le h = (v, λ g. ground arith)
free_range_lem p f (suc n) v le h =
    let lt : f < total = omega arith in
    let law : ((g : ℕ)
        → test_bit (clear_bit p.bitmap f) g ≡ (if f == g then false else test_bit p.bitmap g)) =
      (λ g. test_bit-clear_bit p.bitmap total f g v.0 lt) in
    let rest : (IsValid (free_range (mark_free p f) (suc f) n)
        × ((g : ℕ)
            → test_bit (free_range (mark_free p f) (suc f) n).bitmap g
              ≡ (if in_run (suc f) n g then false else test_bit (clear_bit p.bitmap f) g))) =
      free_range_lem (mark_free p f) (suc f) n
        (mark_free-IsValid p f v lt (h f (omega arith) (omega arith))) (omega arith)
        (λ g l u.
          law g ∙ rw (not_==_of_ne f g (λ e. omega arith)) (h g (omega arith) (omega arith))) in
    (
      rest.0,
      λ g. rest.1 g ∙ ap (λ t. if in_run (suc f) n g then false else t) (law g) ∙ ground arith,
    )

abbrev all_used : Pmm
all_used = record { bitmap = replicate bitmap_size 255; total_pages = total; free_count = 0 }

ones : (k : ℕ) → k < 8 → byte_test 255 k ≡ true
unfolding passes
ones k h = passes_at (byte_test 255) 8 k h refl

all_used-test : (g : ℕ) → g < total → test_bit (replicate bitmap_size 255) g ≡ true
unfolding test_bit
all_used-test g h =
    ap (λ b. byte_test b (g % 8)) (get_or-replicate bitmap_size (g / 8) 255 0 (omega arith))
    ∙ ones (g % 8) (omega arith)

all_used-IsValid : IsValid all_used
all_used-IsValid = (
  (
    omega (arith, length-replicate {A = ℕ} bitmap_size 255),
    All-replicate (λ b. b < 256) bitmap_size 255 (omega arith),
  ),
  refl,
  sym (count_full (test_bit (replicate bitmap_size 255)) total all_used-test),
)

-- After `pmm_init` the free count is exact, and the frames free are those from the end of the reserved zone, 0x41280000, to the end of the RAM.
pub init_lem :
    IsValid init
    × ((g : ℕ) → g < total → test_bit init.bitmap g ≡ ltb (frame_to_phys g) reserve_end)
unfolding init
init_lem =
    let r =
      free_range_lem all_used (phys_to_frame reserve_end)
        (phys_to_frame ram_end - phys_to_frame reserve_end) all_used-IsValid (omega arith)
        (λ g l u. all_used-test g (omega arith)) in
    (r.0, λ g h. r.1 g ∙ rw (all_used-test g h) (ground (arith, h)))
