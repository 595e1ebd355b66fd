-- ===== src/Heap.antt =====
-- The bump allocator of boot/aarch64/heap.c. Addresses and sizes are 64-bit.
use Prim.Native.Nat.{bit_and}
use aeos.Pmm.{kernel_base}
use aeos.Base.{ℕ, ◌+◌, sub64, ◌*◌, if◌then◌else◌, add64, ◌/◌, ◌==◌, ◌||◌, ltb, not, suc, zero, ◌-◌}
pub mod Blocks
pub mod Tests

-- `HEAP_START`, `KERNEL_BASE` + 16 MB
abbrev pub heap_start : ℕ
heap_start = kernel_base + 16 * 1024 * 1024

abbrev pub heap_size : ℕ
heap_size = 16 * 1024 * 1024

abbrev pub heap_end : ℕ
heap_end = heap_start + heap_size

pub record Heap : Type 0 where
  pub heap_ptr : ℕ
  pub heap_used : ℕ

-- `heap_init`; the clearing of the memory is not followed
abbrev pub init : Heap
init = record { heap_ptr = heap_start; heap_used = 0 }

-- `(size + 7) & ~7`
abbrev pub round_up8 : ℕ → ℕ
round_up8 size = add64 size 7 / 8 * 8

-- `kmalloc`; the address 0 is failure.
unfoldable pub kmalloc : Heap → ℕ → ℕ × Heap
kmalloc h size =
    if size == 0
    then (0, h)
    else if ltb heap_end (add64 h.heap_ptr (round_up8 size))
    then (0, h)
    else (
      h.heap_ptr,
      record {
        heap_ptr = add64 h.heap_ptr (round_up8 size);
        heap_used = add64 h.heap_used (round_up8 size);
      },
    )

-- `(heap_ptr + align - 1) & ~(align - 1)` for a power of two, as rounding down
abbrev pub align_up : ℕ → ℕ → ℕ
align_up ptr zero = 0
align_up ptr (suc a) = add64 ptr a / suc a * suc a

-- `kmalloc_aligned`, which leaves the pointer rounded even where `kmalloc` fails
unfoldable pub kmalloc_aligned : Heap → ℕ → ℕ → ℕ × Heap
kmalloc_aligned h size align =
    if size == 0 || align == 0 || not (bit_and align (align - 1) == 0)
    then (0, h)
    else kmalloc (record h { heap_ptr = align_up h.heap_ptr align }) size

-- `heap_get_used`
abbrev pub get_used : Heap → ℕ
get_used h = h.heap_used

-- `heap_get_free`
abbrev pub get_free : Heap → ℕ
get_free h = sub64 heap_end h.heap_ptr
