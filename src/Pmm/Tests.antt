-- ===== src/Pmm/Tests.antt =====
-- Concrete runs of boot/aarch64/pmm.c, and instances of the theorems about it.

use aeos.Pmm.Start.{init_lem}
use aeos.Heap.{heap_start, heap_end}
use aeos.Pmm.Count.{count_zero}
use aeos.Base.{◌≢◌, ◌≡◌, arith, false, ◌≤◌, sym, ◌+◌, ◌∙◌}
use aeos.Pmm.Alloc.{AllocEnds, alloc_page-AllocEnds}
use aeos.Pmm.Free.{SameFrames, FreeEnds, free_page-FreeEnds, free_page-alloc_page}
use aeos.Pmm.Runs.{RunEnds, alloc_pages-RunEnds}
use aeos.Pmm.{test_bit, init, alloc_pages, alloc_page, free_page, total, frame_to_phys, page_size}

-- The first free frame after `pmm_init` is at 0x41280000, which lies in the kernel heap.
first_free_in_heap :
    (test_bit init.bitmap 4736 ≡ false)
    × (heap_start ≤ frame_to_phys 4736)
    × (frame_to_phys 4736 + page_size ≤ heap_end)
first_free_in_heap = (init_lem.1 4736 (omega arith), omega arith, omega arith)

init_free : init.free_count ≢ 0
init_free e = ground (
  arith,
  first_free_in_heap.0,
  count_zero (test_bit init.bitmap) total 4736 (sym init_lem.0.2 ∙ e) (omega arith),
)

alloc_page-AllocEnds_example : AllocEnds init (alloc_page init)
alloc_page-AllocEnds_example = alloc_page-AllocEnds init init_lem.0

alloc_pages-RunEnds_example : RunEnds init 1024 (alloc_pages init 1024)
alloc_pages-RunEnds_example = alloc_pages-RunEnds init 1024 init_lem.0

free_page-FreeEnds_example : FreeEnds init 0x40080000 (free_page init 0x40080000)
free_page-FreeEnds_example = free_page-FreeEnds init 0x40080000 init_lem.0

free_page-alloc_page_example : SameFrames init (free_page (alloc_page init).1 (alloc_page init).0)
free_page-alloc_page_example = free_page-alloc_page init init_lem.0 init_free
