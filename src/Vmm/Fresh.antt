-- ===== src/Vmm/Fresh.antt =====
-- The page that a table of boot/aarch64/vmm.c is made of is one that nothing else used.
use aeos.Base.{
  ℕ, suc, ◌%◌, ◌<◌, ◌≡◌, ◌≢◌, inl, inr, ◌∙◌, if◌then◌else◌, true, false, ◌==◌, arith, ap, sym,
}
use aeos.Pmm.{Pmm, alloc_page, test_bit, total, frame_to_phys}
use aeos.Pmm.Count.{count, count_full}
use aeos.Pmm.Valid
use aeos.Pmm.Alloc.{AllocEnds, alloc_page-AllocEnds}

-- A page whose frame is marked as used
abbrev pub InUse : Pmm → ℕ → Type 0
InUse p a = (f : ℕ) × (f < total) × (a ≡ frame_to_phys f) × (test_bit p.bitmap f ≡ true)

-- The page `a` was taken from `p`, which leaves `p'`.
pub record IsFresh (p p' : Pmm) (a : ℕ) : Type 0 where
  pub valid : Valid.IsValid p'
  pub count_step : suc p'.free_count ≡ p.free_count
  pub positive : a ≢ 0
  pub page : a % 4096 ≡ 0
  pub used : InUse p' a
  pub still : (b : ℕ) → InUse p b → InUse p' b
  pub other : (b : ℕ) → InUse p b → a ≢ b

from_frame :
    (p : Pmm) (r : ℕ × Pmm) (f : ℕ)
    → f < total
    → test_bit p.bitmap f ≡ false
    → r.0 ≡ frame_to_phys f
    → ((g : ℕ) → test_bit r.1.bitmap g ≡ (if f == g then true else test_bit p.bitmap g))
    → suc r.1.free_count ≡ p.free_count
    → Valid.IsValid r.1
    → IsFresh p r.1 r.0
from_frame p r f lt was at bits count v = record {
  valid = v;
  count_step = count;
  positive = omega (arith, at);
  page = omega (arith, at);
  used = (f, lt, at, bits f ∙ ground arith);
  still = λ b u. (u.0, u.1, u.2, bits u.0 ∙ ground (arith, u.3));
  other = λ b u e. apart (u.0) (omega (arith, at, u.2, e)) u.3;
}
  where
    apart : (g : ℕ) → f ≡ g → test_bit p.bitmap g ≡ true → ⊥
    apart g same now = cc (sym now ∙ ap (test_bit p.bitmap) (sym same) ∙ was)

pub alloc_page-IsFresh :
    (p : Pmm) → Valid.IsValid p → 0 < p.free_count → IsFresh p (alloc_page p).1 (alloc_page p).0
unfolding AllocEnds
alloc_page-IsFresh p v some_free = elim (alloc_page-AllocEnds p v) [
  | inl (full, e) ↦
      absurd (omega (arith, v.2, count_full (test_bit p.bitmap) total full, some_free))
  | inr (f, lt, was, first, at, bits, count, v') ↦
      from_frame p (alloc_page p) f lt was at bits count v'
]
