-- ===== src/Heap/Tests.antt =====
-- Concrete runs of boot/aarch64/heap.c, and instances of the theorems about it.
use aeos.Base.{◌^◌, ◌∷◌, ◌≡◌, arith, ◌-◌, refl, []}
use aeos.Heap.Blocks.{IsValid, Placed, blocks, blocks-Placed}
use aeos.Heap.{kmalloc_aligned, kmalloc, init}

init-IsValid : IsValid init
init-IsValid = omega arith

first_block : kmalloc init 10 ≡ (0x41080000, record { heap_ptr = 0x41080010; heap_used = 16 })
unfolding kmalloc
first_block = refl

-- A size just below 2^64 rounds to 0: the call succeeds and reserves nothing.
huge_block : kmalloc init (2 ^ 64 - 1) ≡ (0x41080000, init)
unfolding kmalloc
huge_block = refl

-- A failed aligned request still moves the pointer, here past the heap's end.
pointer_lost : (kmalloc_aligned init 8 (2 ^ 30)).1.heap_ptr ≡ 0x80000000
unfolding kmalloc_aligned kmalloc
pointer_lost = refl

blocks-Placed_example : Placed 0x41080000 (blocks init (10 ∷ 0 ∷ 20000000 ∷ 64 ∷ []))
blocks-Placed_example = blocks-Placed init (10 ∷ 0 ∷ 20000000 ∷ 64 ∷ []) init-IsValid (omega arith)
