-- ===== src/Heap/Blocks.antt =====
-- The blocks that `kmalloc` of boot/aarch64/heap.c hands out: inside the heap, aligned, never overlapping.
use native.Mathlib.Nat.{div-add-mod', mod-lt}
use Prim.Native.Nat.{bit_and, suc}
use aeos.Heap.{Heap, kmalloc_aligned, kmalloc, heap_start, heap_end, align_up, round_up8}
use aeos.Base.{
  ℕ, List, ◌≡◌, ◌^◌, ◌≤◌, All, ◌⊎◌, ◌==◌, ◌<◌, ◌≢◌, ◌+◌, false, ◌%◌, ◌-◌, add64, arith, if_ind, inl,
  ltb, inr, refl, ◌∷◌, not_==_of_ne, if◌then◌else◌, [], ◌||◌, not, zero,
}

-- The pointer is 8-byte aligned in the heap, and what is used is what it moved.
abbrev pub IsValid : Heap → Type 0
IsValid h =
    (heap_start ≤ h.heap_ptr)
    × (h.heap_ptr ≤ heap_end)
    × (h.heap_ptr % 8 ≡ 0)
    × (heap_start + h.heap_used ≡ h.heap_ptr)

-- A block that ends before the new pointer, or no room and no change.
pub MallocEnds : Heap → ℕ → ℕ × Heap → Type 0
MallocEnds h size r =
    (((size ≡ 0) ⊎ (heap_end < h.heap_ptr + size + (8 - size % 8) % 8)) × (r ≡ (0, h)))
    ⊎ ((0 < size)
        × (r.0 ≡ h.heap_ptr)
        × (r.0 + size ≤ r.1.heap_ptr)
        × (r.1.heap_ptr ≤ r.0 + size + 7)
        × IsValid r.1)

-- A request that does not wrap when rounded and added to the pointer.
abbrev pub max_request : ℕ
max_request = 2 ^ 63

-- On a valid heap a request of at most 2^63 bytes gets the 8-byte aligned block at the pointer, which the new pointer clears, within the heap and with fewer than 8 bytes lost; it fails, changed in nothing, only for size 0 or when the rounded size does not fit.
kmalloc-MallocEnds :
    (h : Heap) (size : ℕ) → IsValid h → size ≤ max_request → MallocEnds h size (kmalloc h size)
unfolding kmalloc MallocEnds
kmalloc-MallocEnds h size v le =
    if_ind (MallocEnds h size) (size == 0) _ _ (λ e. inl (inl (ground (arith, e)), refl))
      (λ e.
        if_ind (MallocEnds h size) (ltb heap_end (add64 h.heap_ptr (round_up8 size))) _ _
          (λ f. inl (inr (full e (ground (arith, f))), refl))
          (λ f. inr (
            ground (arith, e),
            refl,
            clear (ground (arith, f)),
            tight,
            placed (ground (arith, f)),
          )))
  where
    full :
        (size == 0) ≡ false
        → heap_end < add64 h.heap_ptr (round_up8 size)
        → heap_end < h.heap_ptr + size + (8 - size % 8) % 8
    full e f = omega (arith, v, le, f)

    clear :
        add64 h.heap_ptr (round_up8 size) ≤ heap_end
        → h.heap_ptr + size ≤ add64 h.heap_ptr (round_up8 size)
    clear f = omega (arith, v, le, f)

    tight : add64 h.heap_ptr (round_up8 size) ≤ h.heap_ptr + size + 7
    tight = omega (arith, v, le)

    placed :
        add64 h.heap_ptr (round_up8 size) ≤ heap_end
        → IsValid (record {
          heap_ptr = add64 h.heap_ptr (round_up8 size);
          heap_used = add64 h.heap_used (round_up8 size);
        })
    placed f =
        (omega (arith, v, le), omega (arith, f), omega (arith, v, le), omega (arith, v, le, f))

-- The blocks handed out for a list of requests, as address and size.
pub blocks : Heap → List ℕ → List (ℕ × ℕ)
blocks h [] = []
blocks h (size ∷ sizes) =
    let rest = blocks (kmalloc h size).1 sizes in
    if (kmalloc h size).0 == 0 then rest else ((kmalloc h size).0, size) ∷ rest

-- The blocks follow one another from `lo` on, and end within the heap.
abbrev pub Placed : ℕ → List (ℕ × ℕ) → Type 0
Placed lo [] = Unit
Placed lo (b ∷ bs) = (lo ≤ b.0) × (b.0 + b.1 ≤ heap_end) × (b.0 % 8 ≡ 0) × Placed (b.0 + b.1) bs

Placed-mono : (lo lo' : ℕ) (bs : List (ℕ × ℕ)) → lo ≤ lo' → Placed lo' bs → Placed lo bs
Placed-mono lo lo' [] l p = tt
Placed-mono lo lo' (b ∷ bs) l p = (omega (arith, l, p.0), p.1, p.2, p.3)

-- Any sequence of requests of at most 2^63 bytes on a valid heap gets blocks that follow one another without overlap, 8-byte aligned, from the pointer on and inside the heap.
pub blocks-Placed :
    (h : Heap) (sizes : List ℕ)
    → IsValid h
    → All (λ s. s ≤ max_request) sizes
    → Placed h.heap_ptr (blocks h sizes)
unfolding blocks MallocEnds
blocks-Placed h [] v a = tt
blocks-Placed h (size ∷ sizes) v a = elim (kmalloc-MallocEnds h size v a.0) [
  | inl (why, e) ↦ rw e (blocks-Placed h sizes v a.1)
  | inr (pos, e, fits, tight, w) ↦
      rw (not_==_of_ne (kmalloc h size).0 0 (λ z. omega (arith, z, e, v))) (
        omega (arith, e),
        omega (arith, e, fits, w),
        omega (arith, e, v),
        Placed-mono ((kmalloc h size).0 + size) (kmalloc h size).1.heap_ptr
            (blocks (kmalloc h size).1 sizes) fits (blocks-Placed (kmalloc h size).1 sizes w a.1),
      )
]

-- `kmalloc` from any pointer below 2^63: what is returned is the pointer, with room inside the heap.
abbrev Fits : Heap → ℕ → ℕ × Heap → Type 0
Fits h size r =
    r.0 ≢ 0 → (r.0 ≡ h.heap_ptr) × (r.0 + size ≤ r.1.heap_ptr) × (r.1.heap_ptr ≤ heap_end)

kmalloc-Fits :
    (h : Heap) (size : ℕ) → h.heap_ptr < 2 ^ 63 → size < 2 ^ 62 → Fits h size (kmalloc h size)
unfolding kmalloc
kmalloc-Fits h size hp hs =
    if_ind (Fits h size) (size == 0) _ _ (λ e ne. absurd (ne refl))
      (λ e.
        if_ind (Fits h size) (ltb heap_end (add64 h.heap_ptr (round_up8 size))) _ _
          (λ f ne. absurd (ne refl)) (λ f ne. (refl, omega (arith, hp, hs), ground (arith, f))))

align_up_bounds :
    (ptr align : ℕ)
    → 0 < align
    → ptr < 2 ^ 62
    → align < 2 ^ 62
    → (ptr ≤ align_up ptr align) × (align_up ptr align < ptr + align)
align_up_bounds ptr zero pos hp ha = absurd (omega arith)
align_up_bounds ptr (suc a) pos hp ha =
    let whole : add64 ptr a ≡ ptr + a = omega arith in
    rw whole
      (grind (arith, div-add-mod' (ptr + a) (suc a), mod-lt (ptr + a) {m = suc a} (omega arith)))

-- What an aligned request promises.
abbrev pub AlignedBlock : Heap → ℕ → ℕ → ℕ × Heap → Type 0
AlignedBlock h size align r =
    r.0 ≢ 0
    → (h.heap_ptr ≤ r.0)
      × (r.0 ≡ align_up h.heap_ptr align)
      × (r.0 + size ≤ r.1.heap_ptr)
      × (r.1.heap_ptr ≤ heap_end)

-- `kmalloc_aligned` of a size and an alignment below 2^62, from a pointer below 2^62, returns 0 or the first aligned address from the pointer on, with a block inside the heap that the new pointer clears.
kmalloc_aligned_block :
    (h : Heap) (size align : ℕ)
    → h.heap_ptr < 2 ^ 62
    → size < 2 ^ 62
    → align < 2 ^ 62
    → AlignedBlock h size align (kmalloc_aligned h size align)
unfolding kmalloc_aligned
kmalloc_aligned_block h size align hp hs ha =
    if_ind (AlignedBlock h size align)
      (size == 0 || align == 0 || not (bit_and align (align - 1) == 0)) _ _
      (λ e ne. absurd (ne refl))
      (λ e ne. placed (align_up_bounds h.heap_ptr align (ground (arith, e)) hp ha) ne)
  where
    from : Heap
    from = record h { heap_ptr = align_up h.heap_ptr align }

    placed :
        (h.heap_ptr ≤ align_up h.heap_ptr align) × (align_up h.heap_ptr align < h.heap_ptr + align)
        → AlignedBlock h size align (kmalloc from size)
    placed b ne =
        let k = kmalloc-Fits from size (omega (arith, b, hp, ha)) hs ne in
        (omega (arith, b, k.0), k.0, k.1, k.2)
