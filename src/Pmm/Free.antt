-- ===== src/Pmm/Free.antt =====
-- `pmm_free_page` of boot/aarch64/pmm.c, and that it undoes an allocation.
use aeos.Pmm.Count.{count_full}
use aeos.Pmm.Frames.{test_bit-clear_bit}
use aeos.Pmm.Valid.{IsValid, mark_free, mark_free_count, mark_free-IsValid}
use aeos.Base.{
  ℕ, ◌<◌, ◌≡◌, false, true, if◌then◌else◌, arith, ◌==◌, suc, inl, ◌⊎◌, ℕ_discrete, ==_iff, sym, ◌∙◌,
  ltb, ap, ◌&&◌, not_==_of_ne, refl, inr, ◌≢◌, if_ind, add64, ◌*◌, ◌%◌, ◌^◌, zero,
}
use aeos.Pmm.Alloc.{AllocEnds, alloc_page-AllocEnds}
use aeos.Pmm.{
  free_page, Pmm, test_bit, phys_to_frame, total, frame_to_phys, alloc_page, free_pages_from,
  free_pages, page_size,
}

-- The frame of an address is in the map and in use.
abbrev pub Frees : Pmm → ℕ → Type 0
Frees p addr = (phys_to_frame addr < total) × (test_bit p.bitmap (phys_to_frame addr) ≡ true)

-- A frame in use becomes free and nothing else changes; a free or unknown one is left alone.
pub FreeEnds : Pmm → ℕ → Pmm → Type 0
FreeEnds p addr q =
    (Frees p addr
      × ((g : ℕ)
          → test_bit q.bitmap g ≡ (if phys_to_frame addr == g then false else test_bit p.bitmap g))
      × (q.free_count ≡ suc p.free_count)
      × IsValid q)
    ⊎ ((¬ Frees p addr) × (q ≡ p))

-- Freeing an address on a valid allocator clears the bit of its frame alone and counts it, when that frame is in use; a double free or an address outside the RAM changes nothing.
pub free_page-FreeEnds : (p : Pmm) (addr : ℕ) → IsValid p → FreeEnds p addr (free_page p addr)
unfolding free_page FreeEnds
free_page-FreeEnds p addr v =
    if_ind (FreeEnds p addr) (ltb f total && test_bit p.bitmap f) (mark_free p f) p
      (λ e. freed (ground (arith, e))) (λ e. inr ((λ h. refused e h), refl))
  where
    f : ℕ
    f = phys_to_frame addr

    freed : (f < total) × (test_bit p.bitmap f ≡ true) → FreeEnds p addr (mark_free p f)
    freed h = inl (
      h,
      (λ g. test_bit-clear_bit p.bitmap total f g v.0 h.0),
      mark_free_count p f v,
      mark_free-IsValid p f v h.0 h.1,
    )

    refused :
        (ltb f total && test_bit p.bitmap f) ≡ false
        → (f < total) × (test_bit p.bitmap f ≡ true)
        → ⊥
    refused e h = ground (arith, e, h)

pub free_page-IsValid : (p : Pmm) (addr : ℕ) → IsValid p → IsValid (free_page p addr)
unfolding FreeEnds
free_page-IsValid p addr v = elim (free_page-FreeEnds p addr v) [ inl h ↦ h.3 | inr h ↦ rw h.1 v ]

pub phys_to_frame-frame_to_phys : (f : ℕ) → f < total → phys_to_frame (frame_to_phys f) ≡ f
phys_to_frame-frame_to_phys f h = omega arith

-- The same frames are in use, and as many are free.
abbrev pub SameFrames : Pmm → Pmm → Type 0
SameFrames p q =
    ((g : ℕ) → test_bit q.bitmap g ≡ test_bit p.bitmap g) × (q.free_count ≡ p.free_count)

restored :
    (p r : Pmm) (f : ℕ)
    → IsValid r
    → f < total
    → test_bit p.bitmap f ≡ false
    → ((g : ℕ) → test_bit r.bitmap g ≡ (if f == g then true else test_bit p.bitmap g))
    → suc r.free_count ≡ p.free_count
    → SameFrames p (mark_free r f)
restored p r f v lt e h c = (
  (λ g. elim (ℕ_discrete f g) [
    | yes s ↦
        rw (test_bit-clear_bit r.bitmap total f g v.0 lt, (==_iff f g).1 s)
          (sym e ∙ ap (test_bit p.bitmap) s)
    | no ne ↦
        rw (test_bit-clear_bit r.bitmap total f g v.0 lt, not_==_of_ne f g ne)
          (h g ∙ rw (not_==_of_ne f g ne) refl)
  ]),
  mark_free_count r f v ∙ c,
)

freed_frame :
    (r : Pmm) (f : ℕ)
    → f < total
    → test_bit r.bitmap f ≡ true
    → free_page r (frame_to_phys f) ≡ mark_free r f
unfolding free_page
freed_frame r f lt e = rw (phys_to_frame-frame_to_phys f lt, e) (ground (arith, lt))

-- On a valid allocator with a free frame, freeing the page just allocated gives back the same set of used frames and the same free count.
pub free_page-alloc_page :
    (p : Pmm)
    → IsValid p
    → p.free_count ≢ 0
    → SameFrames p (free_page (alloc_page p).1 (alloc_page p).0)
unfolding AllocEnds
free_page-alloc_page p v ne = elim (alloc_page-AllocEnds p v) [
  | inl h ↦ absurd (ne (v.2 ∙ count_full (test_bit p.bitmap) total h.0))
  | inr (f, lt, e, low, at_addr, h, c, w) ↦
      rw (at_addr, freed_frame (alloc_page p).1 f lt (h f ∙ rw ((==_iff f f).1 refl) refl))
        (restored p (alloc_page p).1 f w lt e h c)
]

free_pages_from-IsValid :
    (p : Pmm) (addr i n : ℕ) → IsValid p → IsValid (free_pages_from p addr i n)
unfolding free_pages_from
free_pages_from-IsValid p addr i zero v = v
free_pages_from-IsValid p addr i (suc n) v =
    free_pages_from-IsValid (free_page p (add64 addr (i * page_size % 2 ^ 64))) addr (suc i) n
      (free_page-IsValid p (add64 addr (i * page_size % 2 ^ 64)) v)

-- Freeing any run of addresses, whatever they are and even if they wrap, keeps the count of free frames exact.
pub free_pages-IsValid : (p : Pmm) (addr n : ℕ) → IsValid p → IsValid (free_pages p addr n)
unfolding free_pages
free_pages-IsValid p addr n v = free_pages_from-IsValid p addr 0 n v
