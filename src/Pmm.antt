-- ===== src/Pmm.antt =====
-- The physical page allocator of boot/aarch64/pmm.c: a bitmap with a bit for each 4 KiB frame.
pub mod Alloc
pub mod Bits
pub mod Count
pub mod Frames
pub mod Free
pub mod Runs
pub mod Start
pub mod Tests
pub mod Valid
use aeos.Base.{
  ℕ, zero, suc, ◌+◌, ◌-◌, ◌*◌, ◌/◌, ◌%◌, ◌^◌, ◌≡◌, Bool, true, false, not, ◌&&◌, ◌||◌, Option, none,
  some, List, [], ◌∷◌, get_or, set, replicate, if◌then◌else◌, ltb, leb, ◌==◌, add64, sub64,
}
use Prim.Native.Nat.{bit_and, bit_or}

abbrev pub page_size : ℕ
page_size = 4096

abbrev pub kernel_base : ℕ
kernel_base = 0x40080000

abbrev pub ram_start : ℕ
ram_start = 0x40000000

abbrev pub ram_size : ℕ
ram_size = 128 * 1024 * 1024

abbrev pub ram_end : ℕ
ram_end = ram_start + ram_size

-- `RAM_SIZE / PAGE_SIZE`, 32768
abbrev pub total : ℕ
total = ram_size / page_size

-- `BITMAP_SIZE`, 4096 bytes
abbrev pub bitmap_size : ℕ
bitmap_size = total / 8

-- `PAGE_ALIGN_UP`
abbrev pub page_align_up : ℕ → ℕ
page_align_up a = (a + page_size - 1) / page_size * page_size

-- `PHYS_TO_FRAME` on `uintptr_t`
abbrev pub phys_to_frame : ℕ → ℕ
phys_to_frame a = sub64 a ram_start / page_size

-- `FRAME_TO_PHYS`
abbrev pub frame_to_phys : ℕ → ℕ
frame_to_phys f = f * page_size + ram_start

-- One byte of the map.
abbrev pub byte_test : ℕ → ℕ → Bool
byte_test b k = b / 2 ^ k % 2 == 1

abbrev pub byte_set : ℕ → ℕ → ℕ
byte_set b k = bit_or b (2 ^ k)

abbrev pub byte_clear : ℕ → ℕ → ℕ
byte_clear b k = bit_and b (255 - 2 ^ k)

-- `pmm_test_bit`
pub test_bit : List ℕ → ℕ → Bool
test_bit bitmap f = byte_test (get_or bitmap (f / 8) 0) (f % 8)

-- `pmm_set_bit`
pub set_bit : List ℕ → ℕ → List ℕ
set_bit bitmap f = set bitmap (f / 8) (byte_set (get_or bitmap (f / 8) 0) (f % 8))

-- `pmm_clear_bit`
pub clear_bit : List ℕ → ℕ → List ℕ
clear_bit bitmap f = set bitmap (f / 8) (byte_clear (get_or bitmap (f / 8) 0) (f % 8))

pub record Pmm : Type 0 where
  pub bitmap : List ℕ
  pub total_pages : ℕ
  pub free_count : ℕ

-- The last loop of `pmm_init`: frames `f`, `f + 1`, …, `n` of them.
pub free_range : Pmm → ℕ → ℕ → Pmm
free_range p f zero = p
free_range p f (suc n) =
    free_range (record p { bitmap = clear_bit p.bitmap f; free_count = add64 p.free_count 1 })
      (suc f) n

abbrev pub reserve_end : ℕ
reserve_end = page_align_up (kernel_base + 18 * 1024 * 1024)

-- `pmm_init`
pub init : Pmm
init =
    let start = phys_to_frame reserve_end in
    free_range (record { bitmap = replicate bitmap_size 255; total_pages = total; free_count = 0 })
      start (phys_to_frame ram_end - start)

-- The loop of `pmm_alloc_page`: the first clear bit among `n` frames from `f` on.
pub find_free : List ℕ → ℕ → ℕ → Option ℕ
find_free bitmap f zero = none
find_free bitmap f (suc n) =
    let rest = find_free bitmap (suc f) n in if not (test_bit bitmap f) then some f else rest

-- The end of `pmm_alloc_page`; the address 0 is failure.
pub take_frame : Pmm → Option ℕ → ℕ × Pmm
take_frame p none = (0, p)
take_frame p (some f) =
    (frame_to_phys f, record p { bitmap = set_bit p.bitmap f; free_count = sub64 p.free_count 1 })

-- `pmm_alloc_page`
pub alloc_page : Pmm → ℕ × Pmm
unfolding take_frame
alloc_page p = if p.free_count == 0 then (0, p) else take_frame p (find_free p.bitmap 0 total)

-- `n` clear bits from frame `f` on: the inner test loop of `pmm_alloc_pages`
pub run_free : List ℕ → ℕ → ℕ → Bool
run_free bitmap f zero = true
run_free bitmap f (suc n) =
    let rest = run_free bitmap (suc f) n in if test_bit bitmap f then false else rest

-- The outer loop, `rounds` of them from `f` on.
pub find_run : List ℕ → ℕ → ℕ → ℕ → Option ℕ
find_run bitmap count f zero = none
find_run bitmap count f (suc rounds) =
    let rest = find_run bitmap count (suc f) rounds in
    if run_free bitmap f count then some f else rest

-- The loop that marks a run as used.
pub set_run : List ℕ → ℕ → ℕ → List ℕ
set_run bitmap f zero = bitmap
set_run bitmap f (suc n) = set_run (set_bit bitmap f) (suc f) n

pub take_run : Pmm → ℕ → Option ℕ → ℕ × Pmm
take_run p count none = (0, p)
take_run p count (some f) = (
  frame_to_phys f,
  record p { bitmap = set_run p.bitmap f count; free_count = sub64 p.free_count count },
)

-- `pmm_alloc_pages`. `total - count` does not wrap, since `free_count` is at most `total`.
pub alloc_pages : Pmm → ℕ → ℕ × Pmm
unfolding take_run
alloc_pages p count =
    if count == 0 || ltb p.free_count count
    then (0, p)
    else take_run p count (find_run p.bitmap count 0 (total - count + 1))

-- `pmm_free_page`
pub free_page : Pmm → ℕ → Pmm
free_page p addr =
    let f = phys_to_frame addr in
    if ltb f total && test_bit p.bitmap f
    then record p { bitmap = clear_bit p.bitmap f; free_count = add64 p.free_count 1 }
    else p

-- `pmm_free_pages`, whose loop is at page `i` with `n` to go.
pub free_pages_from : Pmm → ℕ → ℕ → ℕ → Pmm
free_pages_from p addr i zero = p
free_pages_from p addr i (suc n) =
    free_pages_from (free_page p (add64 addr (i * page_size % 2 ^ 64))) addr (suc i) n

pub free_pages : Pmm → ℕ → ℕ → Pmm
unfolding free_pages_from
free_pages p addr count = free_pages_from p addr 0 count
