-- ===== src/Pmm/Alloc.antt =====
-- `pmm_alloc_page` and `pmm_free_page` of boot/aarch64/pmm.c: one frame at a time.
use aeos.Pmm.Frames.{test_bit-set_bit}
use aeos.Pmm.Count.{count_zero}
use aeos.Pmm.Valid.{IsValid, mark_used_count, mark_used-IsValid}
use aeos.Base.{
  List, ℕ, Option, ◌<◌, arith, ◌≤◌, ◌==◌, inl, ◌+◌, ◌≡◌, true, ◌⊎◌, suc, if_ind, ==_iff, false,
  ℕ_discrete, Bool-cases, if◌then◌else◌, refl, some, inr, zero, none,
}
use aeos.Pmm.{find_free, alloc_page, take_frame, Pmm, test_bit, total, frame_to_phys}

-- What the search for a clear bit promises.
abbrev pub FirstFree : List ℕ → ℕ → ℕ → Option ℕ → Type 0
FirstFree bitmap f n none = (g : ℕ) → f ≤ g → g < f + n → test_bit bitmap g ≡ true
FirstFree bitmap f n (some k) =
    (f ≤ k)
    × (k < f + n)
    × (test_bit bitmap k ≡ false)
    × ((g : ℕ) → f ≤ g → g < k → test_bit bitmap g ≡ true)

-- One used frame in front.
here_used :
    (bitmap : List ℕ) (f g : ℕ)
    → test_bit bitmap f ≡ true
    → (suc f ≤ g → test_bit bitmap g ≡ true)
    → f ≤ g
    → test_bit bitmap g ≡ true
here_used bitmap f g e h l = elim (ℕ_discrete f g) [
  | yes s ↦ rw (← s) e
  | no ne ↦ h (omega (arith, ne))
]

FirstFree-step :
    (bitmap : List ℕ) (f n : ℕ) (r : Option ℕ)
    → test_bit bitmap f ≡ true
    → FirstFree bitmap (suc f) n r
    → FirstFree bitmap f (suc n) r
FirstFree-step bitmap f n none e h = λ g l u. here_used bitmap f g e (λ k. h g k (omega arith)) l
FirstFree-step bitmap f n (some k) e h = (
  omega (arith, h.0),
  omega (arith, h.1),
  h.2,
  λ g l u. here_used bitmap f g e (λ le. h.3 g le u) l,
)

find_free-FirstFree : (bitmap : List ℕ) (f n : ℕ) → FirstFree bitmap f n (find_free bitmap f n)
unfolding find_free
find_free-FirstFree bitmap f zero = λ g l u. absurd (omega arith)
find_free-FirstFree bitmap f (suc n) = elim (Bool-cases (test_bit bitmap f)) [
  | inl e ↦ rw e (
      FirstFree-step bitmap f n (find_free bitmap (suc f) n) e
        (find_free-FirstFree bitmap (suc f) n))
  | inr e ↦ rw e (omega arith, omega arith, e, (λ g l u. absurd (omega arith)))
]

-- A call takes the lowest free frame and no other, or fails because no frame is free.
unfoldable pub AllocEnds : Pmm → ℕ × Pmm → Type 0
AllocEnds p r =
    (((g : ℕ) → g < total → test_bit p.bitmap g ≡ true) × (r ≡ (0, p)))
    ⊎ ((f : ℕ) × (f < total)
        × (test_bit p.bitmap f ≡ false)
        × ((g : ℕ) → g < f → test_bit p.bitmap g ≡ true)
        × (r.0 ≡ frame_to_phys f)
        × ((g : ℕ) → test_bit r.1.bitmap g ≡ (if f == g then true else test_bit p.bitmap g))
        × (suc r.1.free_count ≡ p.free_count)
        × IsValid r.1)

take_frame-AllocEnds :
    (p : Pmm) (o : Option ℕ)
    → IsValid p
    → FirstFree p.bitmap 0 total o
    → AllocEnds p (take_frame p o)
unfolding take_frame AllocEnds
take_frame-AllocEnds p none v h = inl ((λ g l. h g (omega arith) (omega arith)), refl)
take_frame-AllocEnds p (some f) v h =
    let lt : f < total = omega (arith, h.1) in
    inr (
      f,
      lt,
      h.2,
      (λ g l. h.3 g (omega arith) l),
      refl,
      (λ g. test_bit-set_bit p.bitmap total f g v.0 lt),
      mark_used_count p f v lt h.2,
      mark_used-IsValid p f v lt h.2,
    )

none_free :
    (p : Pmm)
    → IsValid p
    → (p.free_count == 0) ≡ true
    → (g : ℕ) → g < total
    → test_bit p.bitmap g ≡ true
none_free p v e g l =
    count_zero (test_bit p.bitmap) total g (omega (arith, v.2, (==_iff p.free_count 0).0 e)) l

-- A valid allocator hands out the lowest free frame, marks that frame alone, and keeps its count exact; it returns 0, changed in nothing, only when every frame is used.
pub alloc_page-AllocEnds : (p : Pmm) → IsValid p → AllocEnds p (alloc_page p)
unfolding alloc_page AllocEnds
alloc_page-AllocEnds p v =
    if_ind (AllocEnds p) (p.free_count == 0) (0, p) (take_frame p (find_free p.bitmap 0 total))
      (λ e. failed e)
      (λ e.
        take_frame-AllocEnds p (find_free p.bitmap 0 total) v
          (find_free-FirstFree p.bitmap 0 total))
  where
    failed : (p.free_count == 0) ≡ true → AllocEnds p (0, p)
    failed e = inl (none_free p v e, refl)
